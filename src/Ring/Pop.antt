-- ===== src/Ring/Pop.antt =====
-- `pop` of the byte ring as the queue of its bytes.
use mathlib.Core.List.{append_assoc}
use nebula_x.Base.{
  ℕ, zero, suc, ◌+◌, ◌-◌, ◌%◌, ◌^◌, ◌≡◌, ◌<◌, ◌≤◌, refl, sym, ap, ◌∙◌, List, ◌∷◌, ◌++◌, arith,
  length, length-append, min, add64, sub64, ◌==◌, Bool-cases, inl, inr, eq_of_==,
}
use nebula_x.Ring.{
  SpscByteRing, ring_size, read_bytes, used, read_acquire, read_release, pop, pop_more,
}
use nebula_x.Ring.Bytes.{bytes_from, contents}

read_bytes-from :
    (buf : ℕ → ℕ) (h pos n : ℕ)
    → h % ring_size ≡ pos
    → pos + n ≤ ring_size
    → read_bytes buf pos n ≡ bytes_from buf h n
unfolding read_bytes
read_bytes-from buf h pos zero e fits = refl
read_bytes-from buf h pos (suc zero) e fits = rw e refl
read_bytes-from buf h pos (suc (suc n)) e fits = rw e (
    ap (λ l. buf pos ∷ l)
      (read_bytes-from buf (h + 1) (pos + 1) (suc n) (omega (arith, e, fits))
        (omega (arith, fits))))

bytes_from-split :
    (buf : ℕ → ℕ) (h a b : ℕ)
    → bytes_from buf h (a + b) ≡ bytes_from buf h a ++ bytes_from buf (h + a) b
bytes_from-split buf h zero b =
    let same : 0 + b ≡ b = omega arith in
    let start : h ≡ h + 0 = omega arith in
    ap (bytes_from buf h) same ∙ ap (λ k. bytes_from buf k b) start
bytes_from-split buf h (suc a) b =
    let more : suc a + b ≡ suc (a + b) = omega arith in
    let start : h + 1 + a ≡ h + suc a = omega arith in
    ap (bytes_from buf h) more
    ∙ ap (λ l. buf (h % ring_size) ∷ l)
        (bytes_from-split buf (h + 1) a b
          ∙ ap (λ k. bytes_from buf (h + 1) a ++ bytes_from buf k b) start)

bytes_from-mod :
    (buf : ℕ → ℕ) (h k n : ℕ)
    → h % ring_size ≡ k % ring_size
    → bytes_from buf h n ≡ bytes_from buf k n
bytes_from-mod buf h k zero e = refl
bytes_from-mod buf h k (suc n) e =
    rw e
      (ap (λ l. buf (k % ring_size) ∷ l) (bytes_from-mod buf (h + 1) (k + 1) n (omega (arith, e))))

-- A ring's positions are words, and it holds no more than it has room for.
pub record Fits (r : SpscByteRing) : Type 0 where
  pub head_word : r.head < 2 ^ 64
  pub tail_word : r.tail < 2 ^ 64
  pub bounded : used r ≤ ring_size

pub release-used :
    (r : SpscByteRing) (k : ℕ) → Fits r → k ≤ used r → used (read_release r k) ≡ used r - k
unfolding read_release
release-used r k f le = omega (arith, f.head_word, f.tail_word, f.bounded, le)

pub release-Fits : (r : SpscByteRing) (k : ℕ) → Fits r → k ≤ used r → Fits (read_release r k)
unfolding read_release
release-Fits r k f le = record {
  head_word = omega arith;
  tail_word = f.tail_word;
  bounded = omega (arith, f.head_word, f.tail_word, f.bounded, le);
}

-- A contiguous read takes the front of the queue.
pub release-contents :
    (r : SpscByteRing) (k : ℕ)
    → Fits r
    → k ≤ used r
    → k ≤ ring_size - r.head % ring_size
    → read_bytes r.buf (r.head % ring_size) k ++ contents (read_release r k) ≡ contents r
unfolding read_release
release-contents r k f le fits =
    ap (λ l. l ++ bytes_from r.buf (add64 r.head k) (sub64 r.tail (add64 r.head k)))
      (read_bytes-from r.buf r.head (r.head % ring_size) k refl (omega (arith, fits)))
    ∙ ap (λ l. bytes_from r.buf r.head k ++ l)
        (bytes_from-mod r.buf (add64 r.head k) (r.head + k) (sub64 r.tail (add64 r.head k))
          (omega arith))
    ∙ sym (bytes_from-split r.buf r.head k (sub64 r.tail (add64 r.head k)))
    ∙ ap (bytes_from r.buf r.head) (omega (arith, f.head_word, f.tail_word, f.bounded, le))

pub length-read_bytes : (buf : ℕ → ℕ) (pos n : ℕ) → length (read_bytes buf pos n) ≡ n
unfolding read_bytes
length-read_bytes buf pos zero = refl
length-read_bytes buf pos (suc n) = omega (arith, length-read_bytes buf (pos + 1) n)

-- The length of a contiguous read.
abbrev span : SpscByteRing → ℕ → ℕ
span r request = min (min request (used r)) (ring_size - r.head % ring_size)

-- What a read of `xs` from `r` that ends in `r'` has to do with the queue.
abbrev Popped : SpscByteRing → ℕ → List ℕ × SpscByteRing → Type 0
Popped r len (xs, r') = (xs ++ contents r' ≡ contents r) × (length xs ≡ min len (used r))

pop_more-Popped :
    (r : SpscByteRing) (len k : ℕ)
    → Fits r
    → k ≡ span r len
    → Popped r len (pop_more (read_release r k) (read_bytes r.buf (r.head % ring_size) k) (len - k))
unfolding read_acquire read_release
pop_more-Popped r len k f e =
    let r1 : SpscByteRing = read_release r k in
    let xs = read_bytes r.buf (r.head % ring_size) k in
    let le : k ≤ used r = omega (arith, e) in
    let u = release-used r k f le in
    let front = release-contents r k f le (omega (arith, e)) in
    let size = length-read_bytes r.buf (r.head % ring_size) k in
    elim (Bool-cases (used r1 == 0)) [
      | inl z ↦ rw (pop_more, z) (front, omega (arith, e, u, size, eq_of_== (used r1) 0 z))
      | inr n ↦ elim (Bool-cases (len - k == 0)) [
        | inl z ↦ rw (pop_more, n, z) (front, omega (arith, e, size, eq_of_== (len - k) 0 z))
        | inr z ↦
            let k2 = span r1 (len - k) in
            let ys = read_bytes r1.buf (r1.head % ring_size) k2 in
            let rest = release-contents r1 k2 (release-Fits r k f le) (omega arith) (omega arith) in
            rw (pop_more, n, z)
              (
                append_assoc xs ys (contents (read_release r1 k2)) ∙ ap (λ l. xs ++ l) rest ∙ front,
                omega (
                  arith,
                  e,
                  u,
                  size,
                  length-append xs ys,
                  length-read_bytes r1.buf (r1.head % ring_size) k2,
                  f.bounded,
                  f.head_word,
                ),
              )
      ]
    ]

-- From a ring whose positions are words and that holds no more than it has room for, a pop takes
-- the first bytes of the queue, as many as were asked for or are there, and leaves the others.
pub pop-contents :
    (r : SpscByteRing) (len : ℕ)
    → Fits r
    → ((pop r len).0 ++ contents (pop r len).1 ≡ contents r)
      × (length (pop r len).0 ≡ min len (used r))
unfolding pop read_acquire
pop-contents r len f = elim (Bool-cases (used r == 0)) [
  | inl z ↦ rw (pop, z) (refl, omega (arith, eq_of_== (used r) 0 z))
  | inr n ↦ elim (Bool-cases (len == 0)) [
    | inl z ↦ rw (pop, n, z) (refl, omega (arith, eq_of_== len 0 z))
    | inr z ↦ elim (Bool-cases (len - span r len == 0)) [
      | inl w ↦
          rw (pop, n, z, w)
            (
              release-contents r (span r len) f (omega arith) (omega arith),
              omega (
                arith,
                length-read_bytes r.buf (r.head % ring_size) (span r len),
                eq_of_== (len - span r len) 0 w,
              ),
            )
      | inr w ↦ rw (pop, n, z, w) (pop_more-Popped r len (span r len) f refl)
    ]
  ]
]
