-- ===== src/Sender/Delivered.antt =====
-- What the server pushes into the byte ring reaches the client.
use mathlib.Core.List.{append-nil, append_assoc}
use nebula_x.Base.{
  ℕ, zero, suc, ◌+◌, ◌-◌, ◌*◌, ◌%◌, ◌≡◌, ◌≤◌, refl, sym, ap, ◌∙◌, inl, inr, false, some, Option,
  List, [], ◌∷◌, ◌++◌, arith, length, length-append, get_or, drop, min, leb, ◌&&◌, ◌==◌, Bool-cases,
}
use nebula_x.Ring.{
  SpscByteRing, ring_size, used, read_acquire, read_release, read_bytes, pop, pop_more,
}
use nebula_x.Ring.Bytes.{bytes_from, contents}
use nebula_x.Ring.Pop.{
  Fits, release-used, release-Fits, release-contents, length-read_bytes, pop-contents,
}
use nebula_x.Server.Conns.{World, took, RingFrame, rsp_header, sent, response_size}
use nebula_x.Sender.{
  Sender, send_body, send_plain, ZcAnswer, zc_took, zc_done, send_zc_all, send_zero_copy,
  send_round,
}

pop_more-Fits : (r : SpscByteRing) (xs : List ℕ) (n : ℕ) → Fits r → Fits (pop_more r xs n).1
unfolding read_acquire
pop_more-Fits r xs n f = elim (Bool-cases (used r == 0)) [
  | inl z ↦ rw (pop_more, z) f
  | inr z ↦ elim (Bool-cases (n == 0)) [
    | inl y ↦ rw (pop_more, z, y) f
    | inr y ↦ rw (pop_more, z, y) (release-Fits r _ f (omega arith))
  ]
]

pub pop-Fits : (r : SpscByteRing) (n : ℕ) → Fits r → Fits (pop r n).1
unfolding pop read_acquire
pop-Fits r n f = elim (Bool-cases (used r == 0)) [
  | inl z ↦ rw (pop, z) f
  | inr z ↦ elim (Bool-cases (n == 0)) [
    | inl y ↦ rw (pop, z, y) f
    | inr y ↦
        let k = min (min n (used r)) (ring_size - r.head % ring_size) in
        let g = release-Fits r k f (omega arith) in
        elim (Bool-cases (n - k == 0)) [
          | inl x ↦ rw (pop, z, y, x) g
          | inr x ↦ rw (pop, z, y, x) (pop_more-Fits (read_release r k) _ (n - k) g)
        ]
  ]
]

-- A send takes something of what it is offered each time, with and without zero-copy.
pub record Willing (w : World) (zc : ℕ → ZcAnswer) : Type 0 where
  pub amount : ℕ → ℕ
  pub takes : (t : ℕ) → w.send_answer t ≡ took (suc (amount t))
  pub zc_amount : ℕ → ℕ
  pub zc_takes : (t : ℕ) → zc t ≡ zc_took (zc_amount t)

-- What the sending of `need` bytes from `r` comes to.
pub record Sent {R : Type 0} (end : List ℕ → SpscByteRing → R) (r : SpscByteRing) (need : ℕ)
    (done : List ℕ) (result : Option R) : Type 0 where
  pub taken_out : List ℕ
  pub after : SpscByteRing
  pub is_some : result ≡ some (end (done ++ taken_out) after)
  pub size : length taken_out ≡ need
  pub whole : taken_out ++ contents after ≡ contents r
  pub fits : Fits after

-- A chunk goes before the rest.
more-Sent :
    {R : Type 0}
    → (end : List ℕ → SpscByteRing → R) (r : SpscByteRing) (k need : ℕ) (done : List ℕ)
      (result : Option R)
    → Fits r
    → k ≤ used r
    → k ≤ ring_size - r.head % ring_size
    → k ≤ need
    → Sent end
        (read_release r k)
        (need - k)
        (done ++ read_bytes r.buf (r.head % ring_size) k)
        result
    → Sent end r need done result
more-Sent end r k need done result h in_ring in_one le rest =
    let xs = read_bytes r.buf (r.head % ring_size) k in
    record {
      taken_out = xs ++ rest.taken_out;
      after = rest.after;
      is_some =
          rest.is_some ∙ ap (λ l. some (end l rest.after)) (append_assoc done xs rest.taken_out);
      size = omega (
        arith,
        length-append xs rest.taken_out,
        length-read_bytes r.buf (r.head % ring_size) k,
        rest.size,
        le,
      );
      whole =
          append_assoc xs rest.taken_out (contents rest.after)
          ∙ ap (λ l. xs ++ l) rest.whole
          ∙ release-contents r k h in_ring in_one;
      fits = rest.fits;
    }

send_body-Sent :
    (f : ℕ) (w : World) (zc : ℕ → ZcAnswer) (t : ℕ) (r : SpscByteRing) (need : ℕ) (done : List ℕ)
    → Willing w zc
    → Fits r
    → need ≤ used r
    → need ≤ f
    → Sent (λ l x. (l, x)) r need done (send_body f w t r need done)
unfolding send_body read_acquire
send_body-Sent zero w zc t r zero done v h here le = record {
  taken_out = [];
  after = r;
  is_some = ap (λ l. some (l, r)) (sym (append-nil done));
  size = refl;
  whole = refl;
  fits = h;
}
send_body-Sent zero w zc t r (suc need) done v h here le = absurd (omega (arith, le))
send_body-Sent (suc f) w zc t r zero done v h here le = record {
  taken_out = [];
  after = r;
  is_some = ap (λ l. some (l, r)) (sym (append-nil done));
  size = refl;
  whole = refl;
  fits = h;
}
send_body-Sent (suc f) w zc t r (suc need) done v h here le =
    let chunk = min (min (suc need) (used r)) (ring_size - r.head % ring_size) in
    let k = min (suc (v.amount t)) chunk in
    let some_used : (used r == 0) ≡ false = ground (arith, here) in
    let some_need : (suc need == 0) ≡ false = ground arith in
    let some_taken : (k == 0) ≡ false = ground (arith, here) in
    let xs = read_bytes r.buf (r.head % ring_size) k in
    let in_ring : k ≤ used r = omega (arith, here) in
    rw (send_body, some_used, some_need, v.takes t, some_taken)
      (more-Sent (λ l x. (l, x)) r k (suc need) done _ h in_ring (omega arith) (omega arith)
        (send_body-Sent f w zc (t + 1) (read_release r k) (suc need - k) (done ++ xs) v
          (release-Fits r k h in_ring) (omega (arith, here, release-used r k h in_ring))
          (omega (arith, le, here))))

send_zc_all-Sent :
    (f : ℕ) (w : World) (zc : ℕ → ZcAnswer) (t : ℕ) (r : SpscByteRing) (need : ℕ) (done : List ℕ)
    → Willing w zc
    → Fits r
    → need ≤ used r
    → need ≤ f
    → Sent (λ l x. (zc_done, l, x)) r need done (send_zc_all f zc t r need done)
unfolding send_zc_all read_acquire
send_zc_all-Sent zero w zc t r zero done v h here le = record {
  taken_out = [];
  after = r;
  is_some = ap (λ l. some (zc_done, l, r)) (sym (append-nil done));
  size = refl;
  whole = refl;
  fits = h;
}
send_zc_all-Sent zero w zc t r (suc need) done v h here le = absurd (omega (arith, le))
send_zc_all-Sent (suc f) w zc t r zero done v h here le = record {
  taken_out = [];
  after = r;
  is_some = ap (λ l. some (zc_done, l, r)) (sym (append-nil done));
  size = refl;
  whole = refl;
  fits = h;
}
send_zc_all-Sent (suc f) w zc t r (suc need) done v h here le =
    let chunk = min (min (suc need) (used r)) (ring_size - r.head % ring_size) in
    let k = min (suc (v.zc_amount t)) chunk in
    let some_used : (used r == 0) ≡ false = ground (arith, here) in
    let some_need : (suc need == 0) ≡ false = ground arith in
    let xs = read_bytes r.buf (r.head % ring_size) k in
    let in_ring : k ≤ used r = omega (arith, here) in
    rw (send_zc_all, some_used, some_need, v.zc_takes t)
      (more-Sent (λ l x. (zc_done, l, x)) r k (suc need) done _ h in_ring (omega arith)
        (omega arith)
        (send_zc_all-Sent f w zc (t + 1) (read_release r k) (suc need - k) (done ++ xs) v
          (release-Fits r k h in_ring) (omega (arith, here, release-used r k h in_ring))
          (omega (arith, le, here))))

-- Lists of one length that are the front of the same list.
pub same_front :
    (xs xs' ys ys' : List ℕ)
    → length xs ≡ length xs'
    → xs ++ ys ≡ xs' ++ ys'
    → (xs ≡ xs') × (ys ≡ ys')
same_front [] [] ys ys' e q = (refl, q)
same_front [] (x' ∷ xs') ys ys' e q = absurd (omega (arith, e))
same_front (x ∷ xs) [] ys ys' e q = absurd (omega (arith, e))
same_front (x ∷ xs) (x' ∷ xs') ys ys' e q =
    let head : x ≡ x' = ap (λ l. get_or l 0 0) q in
    let tail = same_front xs xs' ys ys' (omega (arith, e)) (ap (drop 1) q) in
    (rw (head, tail.0) refl, tail.1)

length-bytes_from : (buf : ℕ → ℕ) (h n : ℕ) → length (bytes_from buf h n) ≡ n
length-bytes_from buf h zero = refl
length-bytes_from buf h (suc n) = omega (arith, length-bytes_from buf (h + 1) n)

pub length-contents : (r : SpscByteRing) → length (contents r) ≡ used r
length-contents r = length-bytes_from r.buf r.head (used r)

-- What a round of the send thread leaves.
pub record Delivered (s : Sender) (fd : ℕ) (body rest : List ℕ) (result : Option Sender)
    : Type 0 where
  pub after : SpscByteRing
  pub is_some :
      result ≡ some (record s { ring = after; effects = s.effects ++ (sent fd body ∷ []) })
  pub left : contents after ≡ rest
  pub fits : Fits after

-- Where a send takes something each time, with zero-copy or without, a ring that holds a header for `n` frames, their bytes and
-- more: a round of the send thread sends these bytes, all of them and no others, to the header's
-- client, within a call for each byte, and leaves what stands behind them in the ring.
pub send_round-Delivered :
    (w : World) (zc : ℕ → ZcAnswer) (frame_of : List ℕ → Option RingFrame) (s : Sender) (fd n : ℕ)
    (body rest : List ℕ)
    → Willing w zc
    → Fits s.ring
    → length (w.image (rsp_header fd n)) ≡ response_size
    → frame_of (w.image (rsp_header fd n)) ≡ some (rsp_header fd n)
    → length body ≡ n * response_size
    → contents s.ring ≡ w.image (rsp_header fd n) ++ (body ++ rest)
    → Delivered s fd body rest (send_round (length body) w zc frame_of s)
unfolding send_round send_plain send_zero_copy
send_round-Delivered w zc frame_of s fd n body rest v fits size reads len held =
    let hdr = w.image (rsp_header fd n) in
    let popped = pop-contents s.ring 48 fits in
    let total : used s.ring ≡ 48 + (length body + length rest) = omega (
      arith,
      size,
      length-bytes_from s.ring.buf s.ring.head (used s.ring),
      ap length held,
      length-append hdr (body ++ rest),
      length-append body rest,
    ) in
    let r : SpscByteRing = (pop s.ring 48).1 in
    let parts =
      same_front (pop s.ring 48).0 hdr (contents r) (body ++ rest)
        (omega (arith, popped.1, total, size)) (popped.0 ∙ held) in
    let inside : n * 48 ≤ used r = omega (
      arith,
      len,
      length-bytes_from r.buf r.head (used r),
      ap length parts.1,
      length-append body rest,
    ) in
    let some_bytes : (48 == 0) ≡ false = refl in
    elim (Bool-cases (s.zc_ok && leb 4096 (n * 48))) [
      | inl z ↦
          let run =
            send_zc_all-Sent (length body) w zc 0 r (n * 48) [] v (pop-Fits s.ring 48 fits) inside
              (omega (arith, len)) in
          let ends =
            same_front run.taken_out body (contents run.after) rest (omega (arith, run.size, len))
              (run.whole ∙ parts.1) in
          rw (send_round, parts.0, size, reads, z, send_zero_copy, run.is_some)
            (record { after = run.after; is_some = rw ends.0 refl; left = ends.1; fits = run.fits })
      | inr z ↦
          let run =
            send_body-Sent (length body) w zc 0 r (n * 48) [] v (pop-Fits s.ring 48 fits) inside
              (omega (arith, len)) in
          let ends =
            same_front run.taken_out body (contents run.after) rest (omega (arith, run.size, len))
              (run.whole ∙ parts.1) in
          rw (send_round, parts.0, size, reads, z, send_plain, run.is_some)
            (record { after = run.after; is_some = rw ends.0 refl; left = ends.1; fits = run.fits })
    ]
