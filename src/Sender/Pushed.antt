-- ===== src/Sender/Pushed.antt =====
-- The answers of src/tcp_server.cpp from the push into the ring to the send thread of src/main.cpp.
use mathlib.Core.Path.{subst}
use mathlib.Core.List.{append-nil}
use nebula_x.Base.{
  ℕ, ◌+◌, ◌-◌, ◌*◌, ◌^◌, ◌≡◌, ◌<◌, ◌≤◌, refl, sym, ap, ◌∙◌, inl, inr, true, some, Option, List, [],
  ◌∷◌, ◌++◌, arith, length, length-append, take, take_all, leb, ◌==◌, Bool-cases,
}
use nebula_x.Protocol.{BinaryResponse}
use nebula_x.Ring.{SpscByteRing, ring_size, used, push, free_space}
use nebula_x.Ring.Bytes.{contents, push-contents}
use nebula_x.Ring.Pop.{Fits}
use nebula_x.Server.Conns.{
  World, Server, RingFrame, answer, rsp_header, images, response_size, push_responses,
}
use nebula_x.Sender.{Sender, ZcAnswer, send_round}
use nebula_x.Sender.Delivered.{Willing, Delivered, send_round-Delivered, length-contents}

push-words :
    (r : SpscByteRing) (xs : List ℕ)
    → r.tail < 2 ^ 64
    → ((push r xs).1.head ≡ r.head) × ((push r xs).1.tail < 2 ^ 64)
unfolding push
push-words r xs word = elim (Bool-cases (ring_size - used r == 0)) [
  | inl e ↦ rw (push, e) (refl, word)
  | inr n ↦ elim (Bool-cases (length xs == 0)) [
    | inl e ↦ rw (push, n, e) (refl, word)
    | inr z ↦ rw (push, n, z) (refl, omega arith)
  ]
]

-- A push of what there is room for.
pub push-whole :
    (r : SpscByteRing) (xs : List ℕ)
    → Fits r
    → used r + length xs ≤ ring_size
    → (contents (push r xs).1 ≡ contents r ++ xs)
      × Fits (push r xs).1
      × (used (push r xs).1 ≡ used r + length xs)
      × ((push r xs).0 ≡ length xs)
push-whole r xs f room =
    let words = push-words r xs f.tail_word in
    let p = push-contents r xs f.head_word f.tail_word f.bounded in
    let all : (push r xs).0 ≡ length xs = omega (arith, p.0, room) in
    let held =
      p.1 ∙ ap (λ k. contents r ++ take k xs) all ∙ ap (λ l. contents r ++ l) (take_all xs) in
    let count : used (push r xs).1 ≡ used r + length xs = omega (
      arith,
      length-contents (push r xs).1,
      ap length held,
      length-append (contents r) xs,
      length-contents r,
    ) in
    (
      held,
      record {
        head_word = omega (arith, words.0, f.head_word);
        tail_word = words.1;
        bounded = omega (arith, count, room);
      },
      count,
      all,
    )

length-images :
    (w : World) (rs : List BinaryResponse)
    → ((x : RingFrame) → length (w.image x) ≡ response_size)
    → length (images w rs) ≡ length rs * 48
length-images w [] k = refl
length-images w (r ∷ rs) k =
    omega
      (arith, length-append (w.image (answer r)) (images w rs), k (answer r), length-images w rs k)

-- Answers that an empty ring has room for, with their header, reach their client: after the server's
-- push, a round of the send thread, with zero-copy or without, sends the bytes of all of them, in
-- their order, to the client's descriptor, and leaves the ring empty, where each send takes
-- something, a frame is 48 bytes and the header is read as it was written.
pub push_responses-Delivered :
    (w : World) (zc : ℕ → ZcAnswer) (frame_of : List ℕ → Option RingFrame) (fd : ℕ)
    (r : BinaryResponse) (rs : List BinaryResponse) (sv : Server) (s : Sender)
    → Willing w zc
    → ((x : RingFrame) → length (w.image x) ≡ response_size)
    → frame_of (w.image (rsp_header fd (length (r ∷ rs)))) ≡ some (rsp_header fd (length (r ∷ rs)))
    → Fits sv.ring
    → contents sv.ring ≡ []
    → 48 + length (r ∷ rs) * 48 ≤ ring_size
    → s.ring ≡ (push_responses w fd (r ∷ rs) sv).ring
    → Delivered s fd
        (images w (r ∷ rs))
        []
        (send_round (length (images w (r ∷ rs))) w zc frame_of s)
unfolding push_responses free_space
push_responses-Delivered w zc frame_of fd r rs sv s v k reads fits empty room same =
    let n = length (r ∷ rs) in
    let hdr = w.image (rsp_header fd n) in
    let body = images w (r ∷ rs) in
    let nothing : used sv.ring ≡ 0 = omega (arith, length-contents sv.ring, ap length empty) in
    let size : length body ≡ n * 48 = length-images w (r ∷ rs) k in
    let first = push-whole sv.ring hdr fits (omega (arith, nothing, k (rsp_header fd n), room)) in
    let second =
      push-whole (push sv.ring hdr).1 body first.1
        (omega (arith, first.2, nothing, k (rsp_header fd n), size, room)) in
    let enough : leb (48 + n * 48) (ring_size - used sv.ring) ≡ true =
      ground (arith, nothing, room) in
    let pushed : s.ring ≡ (push (push sv.ring hdr).1 body).1 =
      same ∙ rw (push_responses, enough) refl in
    send_round-Delivered w zc frame_of s fd n body [] v (subst Fits (sym pushed) second.1)
      (k (rsp_header fd n)) reads size
      (ap contents pushed
        ∙ second.0
        ∙ ap (λ l. l ++ body) (first.0 ∙ ap (λ l. l ++ hdr) empty)
        ∙ ap (λ l. hdr ++ l) (sym (append-nil body)))
