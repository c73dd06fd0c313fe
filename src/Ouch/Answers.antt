-- ===== src/Ouch/Answers.antt =====
-- The answers of src/ouch_protocol.cpp, read back as include/ouch_protocol.h lays them out.
use nebula_x.Base.{
  ℕ, zero, suc, ◌+◌, ◌*◌, ◌/◌, ◌%◌, ◌^◌, ◌≡◌, ◌<◌, ◌≤◌, refl, sym, ap, ◌∙◌, List, [], ◌∷◌, ◌++◌,
  arith, length, take, take_all, update, ==_ne, ==_refl, u32,
}
use nebula_x.Ring.{write_bytes}
use nebula_x.Itch.{byte, rd_u32, rd_u64}
use nebula_x.Itch.Fields.{rd_u32-be32, rd_u64-halves}
use nebula_x.Ouch.{
  padded, strtoull, checksum, sum_bytes, slice, read_from, answer_head, blank, wr_be32, wr_be64,
  put_token, put_book, sealed, encode_accepted, encode_executed, encode_canceled, encode_rejected,
}
use nebula_x.Ouch.Numbers.{length-padded, strtoull-padded}

-- What is written behind a place leaves it alone.
write_after : (buf : ℕ → ℕ) (p : ℕ) (xs : List ℕ) (i : ℕ) → i < p → write_bytes buf p xs i ≡ buf i
unfolding write_bytes
write_after buf p [] i lt = refl
write_after buf p (x ∷ xs) i lt =
    write_after (update buf p x) (p + 1) xs i (omega (arith, lt))
    ∙ rw (==_ne i p (λ e. omega (arith, e, lt))) refl

read_before :
    (buf : ℕ → ℕ) (p : ℕ) (xs : List ℕ) (i n : ℕ)
    → i + n ≤ p
    → read_from (write_bytes buf p xs) i n ≡ read_from buf i n
read_before buf p xs i zero le = refl
read_before buf p xs i (suc n) le =
    rw (write_after buf p xs i (omega (arith, le)))
      (ap (λ l. buf i ∷ l) (read_before buf p xs (i + 1) n (omega (arith, le))))

-- What is written is read back.
read_written :
    (buf : ℕ → ℕ) (p : ℕ) (xs ys : List ℕ)
    → read_from (write_bytes buf p (xs ++ ys)) p (length xs) ≡ xs
unfolding write_bytes
read_written buf p [] ys = refl
read_written buf p (x ∷ xs) ys =
    rw (write_after (update buf p x) (p + 1) (xs ++ ys) p (omega arith), ==_refl p)
      (ap (λ l. x ∷ l) (read_written (update buf p x) (p + 1) xs ys))

-- The first 24 bytes of an answer: its type, the reference, the order's id, the side.
pub record Head (f : ℕ → ℕ) (type ref order_id side : ℕ) : Type 0 where
  pub type_kept : f 0 ≡ type
  pub ref_kept : rd_u64 (read_from f 0 24) 1 ≡ ref
  pub token_kept : strtoull (slice (read_from f 0 24) 9 14) ≡ order_id
  pub side_kept : f 23 ≡ side

-- The byte behind the first `n` is their sum modulo 256.
abbrev pub Sealed : (ℕ → ℕ) → ℕ → Type 0
Sealed f n = f n ≡ sum_bytes (read_from f 0 n) % 256

module _ (buf : ℕ → ℕ) (n type ref order_id side : ℕ) (ref_fits : ref < 2 ^ 64)
    (id_fits : order_id < 10 ^ 14) where
  abbrev h : ℕ → ℕ
  h = answer_head buf n type ref order_id side

  before_token :
      (i : ℕ)
      → i < 9
      → put_token (wr_be64 (blank buf n type) 1 ref) 9 order_id i
        ≡ wr_be64 (blank buf n type) 1 ref i
  unfolding put_token
  before_token i lt =
      write_after (wr_be64 (blank buf n type) 1 ref) 9 (take 14 (padded order_id) ++ (0 ∷ [])) i lt

  head_type : h 0 ≡ type
  unfolding wr_be64 wr_be32
  head_type = before_token 0 (omega arith)

  head_ref : rd_u64 (read_from h 0 24) 1 ≡ ref
  unfolding wr_be64 wr_be32
  head_ref =
      let high =
        rd_u32-be32 (read_from h 0 24) 1 (ref / 4294967296) (omega (arith, ref_fits))
          (before_token 1 (omega arith)) (before_token 2 (omega arith))
          (before_token 3 (omega arith)) (before_token 4 (omega arith)) in
      let low =
        rd_u32-be32 (read_from h 0 24) 5 (ref % 4294967296) (omega arith)
          (before_token 5 (omega arith)) (before_token 6 (omega arith))
          (before_token 7 (omega arith)) (before_token 8 (omega arith)) in
      omega (arith, rd_u64-halves (read_from h 0 24) 1, high, low)

  head_token : strtoull (slice (read_from h 0 24) 9 14) ≡ order_id
  unfolding put_token
  head_token =
      let before : ℕ → ℕ = wr_be64 (blank buf n type) 1 ref in
      let token = padded order_id in
      let size = length-padded order_id id_fits in
      let whole : take 14 token ≡ token = ap (λ k. take k token) (sym size) ∙ take_all token in
      ap (λ l. strtoull (read_from (write_bytes before 9 (l ++ (0 ∷ []))) 9 14)) whole
      ∙ ap (λ k. strtoull (read_from (write_bytes before 9 (token ++ (0 ∷ []))) 9 k)) (sym size)
      ∙ ap strtoull (read_written before 9 token (0 ∷ []))
      ∙ strtoull-padded order_id (omega (arith, id_fits))

  read_from-Head : (f : ℕ → ℕ) → read_from f 0 24 ≡ read_from h 0 24 → Head f type ref order_id side
  read_from-Head f same = record {
    type_kept = ap (λ l. byte l 0) same ∙ head_type;
    ref_kept = ap (λ l. rd_u64 l 1) same ∙ head_ref;
    token_kept = ap (λ l. strtoull (slice l 9 14)) same ∙ head_token;
    side_kept = ap (λ l. byte l 23) same;
  }

read_update : (b : ℕ → ℕ) (p v i n : ℕ) → i + n ≤ p → read_from (update b p v) i n ≡ read_from b i n
read_update b p v i zero le = refl
read_update b p v i (suc n) le =
    rw (==_ne i p (λ e. omega (arith, e, le)))
      (ap (λ l. b i ∷ l) (read_update b p v (i + 1) n (omega (arith, le))))

length-read_from : (b : ℕ → ℕ) (i n : ℕ) → length (read_from b i n) ≡ n
length-read_from b i zero = refl
length-read_from b i (suc n) = omega (arith, length-read_from b (i + 1) n)

sealed-Sealed : (b : ℕ → ℕ) (n : ℕ) → Sealed (sealed b n) n
unfolding checksum
sealed-Sealed b n =
    let xs = read_from b 0 n in
    let whole : take n xs ≡ xs = ap (λ k. take k xs) (sym (length-read_from b 0 n)) ∙ take_all xs in
    rw (==_refl n, read_update b n (checksum xs n) 0 n (omega arith))
      (ap (λ l. sum_bytes l % 256) whole)

-- What stands behind the head leaves it alone.
head_behind :
    (b : ℕ → ℕ) (p : ℕ) (xs : List ℕ) (n : ℕ)
    → 24 ≤ p
    → 24 ≤ n
    → read_from (sealed (write_bytes b p xs) n) 0 24 ≡ read_from b 0 24
head_behind b p xs n le le' =
    read_update (write_bytes b p xs) n _ 0 24 (omega (arith, le'))
    ∙ read_before b p xs 0 24 (omega (arith, le))

-- Acknowledgements, executions, cancellations and rejections carry their type, the reference, the
-- order id and the side, for a reference of 64 bits and an order id below 10^14, and end in their
-- checksum.
pub answers-Head :
    (buf : ℕ → ℕ) (ref order_id side shares symbol_id price exec_qty exec_price : ℕ)
    (reason : List ℕ)
    → ref < 2 ^ 64
    → order_id < 10 ^ 14
    → (let a = encode_accepted ref order_id side shares symbol_id buf in
        Head a 65 ref order_id side × Sealed a 38)
      × (let e = encode_executed ref order_id side shares price exec_qty exec_price buf in
          Head e 69 ref order_id side × Sealed e 41)
      × (let c = encode_canceled ref order_id side shares symbol_id buf in
          Head c 67 ref order_id side × Sealed c 38)
      × (let j = encode_rejected ref order_id side reason buf in
          Head j 74 ref order_id side × Sealed j 35)
unfolding encode_accepted encode_executed encode_canceled encode_rejected wr_be32 put_book checksum
answers-Head buf ref order_id side shares symbol_id price exec_qty exec_price reason rf idf =
    let with_shares =
      λ (n : ℕ) (type : ℕ). wr_be32 (answer_head buf n type ref order_id side) 24 shares in
    let with_prices =
      wr_be32 (wr_be32 (wr_be32 (with_shares 42 69) 28 (u32 (price * 100))) 32 exec_qty) 36
        (u32 (exec_price * 100)) in
    (
      (
        read_from-Head buf 39 65 ref order_id side rf idf _
            (head_behind _ 28 _ 38 (omega arith) (omega arith)),
        sealed-Sealed (put_book (with_shares 39 65) 28 symbol_id) 38,
      ),
      (
        read_from-Head buf 42 69 ref order_id side rf idf _ refl,
        sealed-Sealed (update with_prices 40 84) 41,
      ),
      (
        read_from-Head buf 39 67 ref order_id side rf idf _
            (head_behind _ 28 _ 38 (omega arith) (omega arith)),
        sealed-Sealed (put_book (with_shares 39 67) 28 symbol_id) 38,
      ),
      (
        read_from-Head buf 36 74 ref order_id side rf idf _
            (head_behind _ 24 _ 35 (omega arith) (omega arith)),
        sealed-Sealed (write_bytes (answer_head buf 36 74 ref order_id side) 24 (take 11 reason))
            35,
      ),
    )

-- An execution carries the order's shares and price and the traded quantity and price, the prices
-- times 100 modulo 2^32, for 32 bits of shares and quantity.
pub encode_executed-amounts :
    (buf : ℕ → ℕ) (ref order_id side shares price exec_qty exec_price : ℕ)
    → shares < 2 ^ 32
    → exec_qty < 2 ^ 32
    → (let m =
          read_from (encode_executed ref order_id side shares price exec_qty exec_price buf) 0 42 in
        (rd_u32 m 24 ≡ shares)
        × (rd_u32 m 28 ≡ u32 (price * 100))
        × (rd_u32 m 32 ≡ exec_qty)
        × (rd_u32 m 36 ≡ u32 (exec_price * 100)))
unfolding encode_executed wr_be32
encode_executed-amounts buf ref order_id side shares price exec_qty exec_price sf qf =
    let m =
      read_from (encode_executed ref order_id side shares price exec_qty exec_price buf) 0 42 in
    (
      rd_u32-be32 m 24 shares sf refl refl refl refl,
      rd_u32-be32 m 28 (u32 (price * 100)) (omega arith) refl refl refl refl,
      rd_u32-be32 m 32 exec_qty qf refl refl refl refl,
      rd_u32-be32 m 36 (u32 (exec_price * 100)) (omega arith) refl refl refl refl,
    )
