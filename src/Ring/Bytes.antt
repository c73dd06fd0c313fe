-- ===== src/Ring/Bytes.antt =====
-- The byte ring as the queue of its bytes.
use mathlib.Core.List.{append-nil, append_assoc}
use nebula_x.Base.{
  ℕ, zero, suc, ◌+◌, ◌-◌, ◌%◌, ◌^◌, ◌≡◌, ◌<◌, ◌≤◌, refl, sym, ap, ◌∙◌, ◌⊎◌, List, [], ◌∷◌, ◌++◌,
  arith, length, take, drop, min, add64, sub64, update, ◌==◌, ==_refl, ==_ne, Bool-cases, inl, inr,
  eq_of_==,
}
use nebula_x.Ring.{SpscByteRing, ring_size, write_bytes, used, push}

-- `n` bytes from position `h` on.
abbrev pub bytes_from : (ℕ → ℕ) → ℕ → ℕ → List ℕ
bytes_from buf h zero = []
bytes_from buf h (suc n) = buf (h % ring_size) ∷ bytes_from buf (h + 1) n

-- What the ring holds, first in first.
abbrev pub contents : SpscByteRing → List ℕ
contents r = bytes_from r.buf r.head (used r)

-- Bytes written one by one from position `t` on.
abbrev cyclic : (ℕ → ℕ) → ℕ → List ℕ → ℕ → ℕ
cyclic buf t [] = buf
cyclic buf t (x ∷ xs) = cyclic (update buf (t % ring_size) x) (t + 1) xs

write-cyclic :
    (buf : ℕ → ℕ) (t pos : ℕ) (xs : List ℕ)
    → t % ring_size ≡ pos
    → pos + length xs ≤ ring_size
    → write_bytes buf pos xs ≡ cyclic buf t xs
unfolding write_bytes
write-cyclic buf t pos [] e fits = refl
write-cyclic buf t pos (x ∷ []) e fits = rw e refl
write-cyclic buf t pos (x ∷ y ∷ xs) e fits = rw e (
    write-cyclic (update buf pos x) (t + 1) (pos + 1) (y ∷ xs) (omega (arith, e, fits))
      (omega (arith, fits)))

cyclic-append :
    (buf : ℕ → ℕ) (t : ℕ) (xs ys : List ℕ)
    → cyclic buf t (xs ++ ys) ≡ cyclic (cyclic buf t xs) (t + length xs) ys
cyclic-append buf t [] ys = ap (λ k. cyclic buf k ys) (omega arith)
cyclic-append buf t (x ∷ xs) ys =
    cyclic-append (update buf (t % ring_size) x) (t + 1) xs ys
    ∙ ap (λ k. cyclic (cyclic (update buf (t % ring_size) x) (t + 1) xs) k ys) (omega arith)

bytes_from-snoc :
    (buf : ℕ → ℕ) (h n x t : ℕ)
    → n < ring_size
    → t % ring_size ≡ (h + n) % ring_size
    → bytes_from (update buf (t % ring_size) x) h (suc n) ≡ bytes_from buf h n ++ x ∷ []
bytes_from-snoc buf h zero x t lt e =
    let same : h % ring_size ≡ t % ring_size = omega (arith, e) in
    rw (same, ==_refl (t % ring_size)) refl
bytes_from-snoc buf h (suc n) x t lt e =
    rw (==_ne (h % ring_size) (t % ring_size) (λ q. omega (arith, q, e, lt))) (
      ap (λ l. buf (h % ring_size) ∷ l)
        (bytes_from-snoc buf (h + 1) n x t (omega (arith, lt)) (omega (arith, e))))

bytes_from-cyclic :
    (buf : ℕ → ℕ) (h n t : ℕ) (xs : List ℕ)
    → n + length xs ≤ ring_size
    → t % ring_size ≡ (h + n) % ring_size
    → bytes_from (cyclic buf t xs) h (n + length xs) ≡ bytes_from buf h n ++ xs
bytes_from-cyclic buf h n t [] fits e =
    ap (bytes_from buf h) (omega arith) ∙ sym (append-nil (bytes_from buf h n))
bytes_from-cyclic buf h n t (x ∷ xs) fits e =
    let buf' = update buf (t % ring_size) x in
    ap (bytes_from (cyclic buf' (t + 1) xs) h) (omega arith)
    ∙ bytes_from-cyclic buf' h (suc n) (t + 1) xs (omega (arith, fits)) (omega (arith, e))
    ∙ ap (λ l. l ++ xs) (bytes_from-snoc buf h n x t (omega (arith, fits)) e)
    ∙ append_assoc (bytes_from buf h n) (x ∷ []) xs

-- `take` and `drop` put together again.
pub take-drop : (n : ℕ) (xs : List ℕ) → take n xs ++ drop n xs ≡ xs
take-drop zero xs = refl
take-drop (suc n) [] = refl
take-drop (suc n) (x ∷ xs) = ap (λ l. x ∷ l) (take-drop n xs)

pub length-take : (n : ℕ) (xs : List ℕ) → length (take n xs) ≡ min n (length xs)
length-take zero xs = omega arith
length-take (suc n) [] = omega arith
length-take (suc n) (x ∷ xs) = omega (arith, length-take n xs)

take-nil : (n : ℕ) → take {A = ℕ} n [] ≡ []
take-nil zero = refl
take-nil (suc n) = refl

take-parts : (a b : ℕ) (xs : List ℕ) → take a xs ++ take b (drop a xs) ≡ take (a + b) xs
take-parts zero b xs = ap (λ k. take k xs) (omega arith)
take-parts (suc a) b [] = take-nil b ∙ sym (take-nil (suc a + b))
take-parts (suc a) b (x ∷ xs) =
    let more : suc (a + b) ≡ suc a + b = omega arith in
    ap (λ l. x ∷ l) (take-parts a b xs) ∙ ap (λ k. take k (x ∷ xs)) more

-- The second part of a write goes to the start of the buffer, if there is one.
write-second :
    (buf : ℕ → ℕ) (t k : ℕ) (xs : List ℕ)
    → (t % ring_size ≡ 0) ⊎ (k ≡ 0)
    → k ≤ ring_size
    → write_bytes buf 0 (take k xs) ≡ cyclic buf t (take k xs)
unfolding write_bytes
write-second buf t k xs (inl e) fits =
    write-cyclic buf t 0 (take k xs) e (omega (arith, fits, length-take k xs))
write-second buf t k xs (inr e) fits = rw e refl

module _ (r : SpscByteRing) (xs : List ℕ) (head_word : r.head < 2 ^ 64)
    (tail_word : r.tail < 2 ^ 64) (fits : used r ≤ ring_size) where
  abbrev room : ℕ
  room = ring_size - used r

  abbrev actual : ℕ
  actual = min (length xs) room

  abbrev pos : ℕ
  pos = r.tail % ring_size

  abbrev n1 : ℕ
  n1 = min (ring_size - pos) actual

  push-cyclic :
      write_bytes (write_bytes r.buf pos (take n1 xs)) 0 (take (actual - n1) (drop n1 xs))
      ≡ cyclic r.buf r.tail (take actual xs)
  push-cyclic =
      ap (λ f. write_bytes f 0 (take (actual - n1) (drop n1 xs)))
        (write-cyclic r.buf r.tail pos (take n1 xs) refl (omega (arith, length-take n1 xs)))
      ∙ write-second (cyclic r.buf r.tail (take n1 xs)) (r.tail + length (take n1 xs)) (actual - n1)
          (drop n1 xs) wraps (omega arith)
      ∙ sym (cyclic-append r.buf r.tail (take n1 xs) (take (actual - n1) (drop n1 xs)))
      ∙ ap (cyclic r.buf r.tail)
          (take-parts n1 (actual - n1) xs ∙ ap (λ k. take k xs) (omega arith))
    where
      wraps : ((r.tail + length (take n1 xs)) % ring_size ≡ 0) ⊎ (actual - n1 ≡ 0)
      wraps = ground (arith, length-take n1 xs)

  push-bytes :
      bytes_from (cyclic r.buf r.tail (take actual xs)) r.head (sub64 (add64 r.tail actual) r.head)
      ≡ contents r ++ take actual xs
  push-bytes =
      ap (bytes_from (cyclic r.buf r.tail (take actual xs)) r.head)
        (omega (arith, length-take actual xs, head_word, tail_word, fits))
      ∙ bytes_from-cyclic r.buf r.head (used r) r.tail (take actual xs)
          (omega (arith, length-take actual xs, fits)) (omega (arith, head_word, tail_word))

-- With positions in 64 bits and no more in the ring than it holds, a push appends as many of the
-- bytes as there is room for, in order, and returns their number.
pub push-contents :
    (r : SpscByteRing) (xs : List ℕ)
    → r.head < 2 ^ 64
    → r.tail < 2 ^ 64
    → used r ≤ ring_size
    → ((push r xs).0 ≡ min (length xs) (ring_size - used r))
      × (contents (push r xs).1 ≡ contents r ++ take (push r xs).0 xs)
unfolding push
push-contents r xs hw tw fits = elim (Bool-cases (ring_size - used r == 0)) [
  | inl e ↦
      rw (push, e) (omega (arith, eq_of_== (ring_size - used r) 0 e), sym (append-nil (contents r)))
  | inr n ↦ elim (Bool-cases (length xs == 0)) [
    | inl e ↦
        rw (push, n, e) (omega (arith, eq_of_== (length xs) 0 e), sym (append-nil (contents r)))
    | inr z ↦
        rw (push, n, z)
          (
            refl,
            ap
                  (λ f.
                    bytes_from f r.head
                      (sub64 (add64 r.tail (min (length xs) (ring_size - used r))) r.head))
                  (push-cyclic r xs hw tw fits)
                ∙ push-bytes r xs hw tw fits,
          )
  ]
]
