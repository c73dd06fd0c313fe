-- ===== src/Ring.antt =====
-- include/spsc_byte_ring.h: a byte ring for one producer and one consumer. The two positions run
-- freely in 64 bits; the place in the buffer is the position modulo its size, which is what the mask
-- computes for a power of 2. `N` is RING_SIZE.
pub mod Bytes
pub mod Pop
use nebula_x.Base.{
  ℕ, zero, suc, ◌+◌, ◌-◌, ◌%◌, Option, none, some, List, [], ◌∷◌, ◌++◌, length, take, drop, min,
  ltb, add64, sub64, update, ◌==◌, if◌then◌else◌,
}

abbrev pub ring_size : ℕ
ring_size = 8388608

pub record SpscByteRing : Type 0 where
  pub tail : ℕ
  pub head : ℕ
  pub buf : ℕ → ℕ

-- memcpy into the buffer and out of it.
unfoldable pub write_bytes : (ℕ → ℕ) → ℕ → List ℕ → ℕ → ℕ
write_bytes buf pos [] = buf
write_bytes buf pos (x ∷ xs) = write_bytes (update buf pos x) (pos + 1) xs

unfoldable pub read_bytes : (ℕ → ℕ) → ℕ → ℕ → List ℕ
read_bytes buf pos zero = []
read_bytes buf pos (suc n) = buf pos ∷ read_bytes buf (pos + 1) n

abbrev pub used : SpscByteRing → ℕ
used r = sub64 r.tail r.head

unfoldable pub free_space : SpscByteRing → ℕ
free_space r = ring_size - used r

-- As much of the bytes as fits, in two parts where they wrap; the count of those written.
unfoldable pub push : SpscByteRing → List ℕ → ℕ × SpscByteRing
unfolding write_bytes
push r xs =
    let room = ring_size - used r in
    let actual = min (length xs) room in
    let pos = r.tail % ring_size in
    let n1 = min (ring_size - pos) actual in
    let part = write_bytes r.buf pos (take n1 xs) in
    if room == 0 then (0, r) else if length xs == 0 then (0, r) else (
      actual,
      record r {
        buf = write_bytes part 0 (take (actual - n1) (drop n1 xs));
        tail = add64 r.tail actual;
      },
    )

-- The place and the length of the next contiguous bytes; `none` for a null pointer.
unfoldable pub read_acquire : SpscByteRing → ℕ → Option (ℕ × ℕ)
read_acquire r request =
    let pos = r.head % ring_size in
    if used r == 0
    then none
    else if request == 0
    then none
    else some (pos, min (min request (used r)) (ring_size - pos))

unfoldable pub read_release : SpscByteRing → ℕ → SpscByteRing
read_release r bytes = record r { head = add64 r.head bytes }

abbrev pub pop_more : SpscByteRing → List ℕ → ℕ → List ℕ × SpscByteRing
pop_more r xs remaining = elim (read_acquire r remaining) [
  | none ↦ (xs, r)
  | some span ↦ (xs ++ read_bytes r.buf span.0 span.1, read_release r span.1)
]

-- `pop`: the bytes that it copies out.
unfoldable pub pop : SpscByteRing → ℕ → List ℕ × SpscByteRing
unfolding read_acquire read_release read_bytes
pop r len = elim (read_acquire r len) [
  | none ↦ ([], r)
  | some span ↦
      let r1 : SpscByteRing = read_release r span.1 in
      let xs = read_bytes r.buf span.0 span.1 in
      if len - span.1 == 0 then (xs, r1) else pop_more r1 xs (len - span.1)
]
