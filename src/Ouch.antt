-- ===== src/Ouch.antt =====
-- include/ouch_protocol.h and src/ouch_protocol.cpp: the codec of the trading protocol. A message that
-- comes in is the list of its bytes, a buffer that is written to is a function of its index. Of the
-- C library, `snprintf` prints decimal numbers and `strtoull` reads them; `strtoull` is called on 14
-- characters at most, which no number of 64 bits overflows.
pub mod Numbers
pub mod Enter
pub mod Answers
use nebula_x.Base.{
  ℕ, zero, suc, ◌+◌, ◌-◌, ◌*◌, ◌/◌, ◌%◌, ◌^◌, Bool, true, false, ◌&&◌, ◌||◌, not, Option, none,
  some, List, [], ◌∷◌, ◌++◌, take, drop, length, update, ltb, leb, ◌==◌, if◌then◌else◌, u32, u64,
}
use nebula_x.Itch.{byte, rd_u32}
use nebula_x.Ring.{write_bytes}

abbrev pub msg_order : ℕ
msg_order = 79

abbrev pub msg_cancel_req : ℕ
msg_cancel_req = 88

abbrev pub msg_book_req : ℕ
msg_book_req = 81

abbrev pub msg_ack : ℕ
msg_ack = 65

abbrev pub msg_exec : ℕ
msg_exec = 69

abbrev pub msg_cancel : ℕ
msg_cancel = 67

abbrev pub msg_reject : ℕ
msg_reject = 74

abbrev pub msg_book : ℕ
msg_book = 66

abbrev pub order_msg_len : ℕ
order_msg_len = 49

abbrev pub cancel_req_len : ℕ
cancel_req_len = 19

abbrev pub book_req_len : ℕ
book_req_len = 13

abbrev pub ack_msg_len : ℕ
ack_msg_len = 39

abbrev pub exec_msg_len : ℕ
exec_msg_len = 42

abbrev pub cancel_msg_len : ℕ
cancel_msg_len = 39

abbrev pub reject_msg_len : ℕ
reject_msg_len = 36

abbrev pub book_msg_len : ℕ
book_msg_len = 34

pub record OuchEnter : Type 0 where
  pub order_id : ℕ
  pub side : ℕ
  pub shares : ℕ
  pub symbol_id : ℕ
  pub price : ℕ
  pub tif : ℕ

abbrev pub sum_bytes : List ℕ → ℕ
sum_bytes [] = 0
sum_bytes (b ∷ bs) = b + sum_bytes bs

-- `checksum`: the sum of the first `n` bytes modulo 256.
unfoldable pub checksum : List ℕ → ℕ → ℕ
checksum b n = sum_bytes (take n b) % 256

-- `%llu`: no number of 64 bits has more than 20 digits.
unfoldable pub decimal : ℕ → ℕ → List ℕ
decimal zero n = []
decimal (suc f) n =
    let rest = decimal f (n / 10) in (if ltb n 10 then [] else rest) ++ ((48 + n % 10) ∷ [])

abbrev pub copies : ℕ → ℕ → List ℕ
copies zero v = []
copies (suc n) v = v ∷ copies n v

-- `%014llu`.
unfoldable pub padded : ℕ → List ℕ
unfolding decimal
padded n = copies (14 - length (decimal 20 n)) 48 ++ decimal 20 n

-- `strtoull` with base 10: blanks, a sign, digits up to the first character that is none.
abbrev pub is_digit : ℕ → Bool
is_digit c = leb 48 c && leb c 57

unfoldable pub digits_value : ℕ → List ℕ → ℕ
digits_value v [] = v
digits_value v (c ∷ cs) =
    let rest = digits_value (v * 10 + (c - 48)) cs in if is_digit c then rest else v

abbrev is_space : ℕ → Bool
is_space c = (c == 32) || (leb 9 c && leb c 13)

unfoldable pub after_sign : List ℕ → ℕ
unfolding digits_value
after_sign [] = 0
after_sign (c ∷ cs) =
    if c == 45
    then (2 ^ 64 - digits_value 0 cs) % 2 ^ 64
    else if c == 43
    then digits_value 0 cs
    else digits_value 0 (c ∷ cs)

unfoldable pub strtoull : List ℕ → ℕ
unfolding after_sign
strtoull [] = 0
strtoull (c ∷ cs) = let rest = strtoull cs in if is_space c then rest else after_sign (c ∷ cs)

-- `memcpy` out of a message.
abbrev pub slice : List ℕ → ℕ → ℕ → List ℕ
slice m i n = take n (drop i m)

-- `none` where the function returns false; its result is not read then.
unfoldable pub decode_enter : List ℕ → Option OuchEnter
unfolding checksum strtoull
decode_enter m =
    if ltb (length m) order_msg_len || not (byte m 0 == msg_order)
    then none
    else if not (byte m 48 == checksum m (order_msg_len - 1))
    then none
    else some (record {
      order_id = strtoull (slice m 1 14);
      side = byte m 15;
      shares = rd_u32 m 16;
      symbol_id = strtoull (slice m 20 10);
      price = rd_u32 m 30 / 100;
      tif = byte m 34;
    })

unfoldable pub decode_book_req : List ℕ → Option ℕ
unfolding checksum strtoull
decode_book_req m =
    if ltb (length m) book_req_len || not (byte m 0 == msg_book_req)
    then none
    else if not (byte m 12 == checksum m (book_req_len - 1))
    then none
    else some (strtoull (slice m 1 10))

-- `memset(buf, ' ', n)` and `buf[0] = type`.
abbrev pub blank : (ℕ → ℕ) → ℕ → ℕ → ℕ → ℕ
blank buf n type = update (λ i. if ltb i n then 32 else buf i) 0 type

unfoldable pub wr_be32 : (ℕ → ℕ) → ℕ → ℕ → ℕ → ℕ
wr_be32 buf p v =
    update
      (update (update (update buf p (v / 16777216 % 256)) (p + 1) (v / 65536 % 256)) (p + 2)
        (v / 256 % 256))
      (p + 3) (v % 256)

-- The loop from the high byte down.
unfoldable pub wr_be64 : (ℕ → ℕ) → ℕ → ℕ → ℕ → ℕ
unfolding wr_be32
wr_be64 buf p v = wr_be32 (wr_be32 buf p (v / 4294967296)) (p + 4) (v % 4294967296)

-- `snprintf(dst, 15, …)`: 14 characters at most and the null byte.
unfoldable pub put_token : (ℕ → ℕ) → ℕ → ℕ → ℕ → ℕ
unfolding padded
put_token buf p order_id = write_bytes buf p (take 14 (padded order_id) ++ (0 ∷ []))

-- `snprintf` into 11 characters, and `memcpy` of what was printed.
unfoldable pub put_book : (ℕ → ℕ) → ℕ → ℕ → ℕ → ℕ
unfolding decimal
put_book buf p locate = write_bytes buf p (take 10 (decimal 20 locate))

abbrev pub read_from : (ℕ → ℕ) → ℕ → ℕ → List ℕ
read_from buf i zero = []
read_from buf i (suc n) = buf i ∷ read_from buf (i + 1) n

-- The checksum of the first `n` bytes goes behind them.
abbrev pub sealed : (ℕ → ℕ) → ℕ → ℕ → ℕ
sealed buf n = update buf n (checksum (read_from buf 0 n) n)

unfoldable pub encode_book : (locate bid bid_vol ask ask_vol : ℕ) → (ℕ → ℕ) → ℕ → ℕ
unfolding put_book wr_be32 checksum
encode_book locate bid bid_vol ask ask_vol buf =
    let b1 = put_book (blank buf book_msg_len msg_book) 1 locate in
    let b2 = wr_be32 (wr_be32 b1 11 (u32 (bid * 100))) 15 bid_vol in
    let b3 = wr_be32 (wr_be32 b2 19 (u32 (ask * 100))) 23 ask_vol in sealed b3 33

-- The common head of the answers: the reference, the token, the side.
abbrev pub answer_head : (ℕ → ℕ) → ℕ → ℕ → ℕ → ℕ → ℕ → ℕ → ℕ
answer_head buf n type ref order_id side =
    update (put_token (wr_be64 (blank buf n type) 1 ref) 9 order_id) 23 side

unfoldable pub encode_accepted : (ref order_id side shares symbol_id : ℕ) → (ℕ → ℕ) → ℕ → ℕ
unfolding wr_be32 put_book checksum
encode_accepted ref order_id side shares symbol_id buf =
    sealed
      (put_book (wr_be32 (answer_head buf ack_msg_len msg_ack ref order_id side) 24 shares) 28
        symbol_id)
      38

unfoldable pub encode_executed :
    (ref order_id side shares price exec_qty exec_price : ℕ) → (ℕ → ℕ) → ℕ → ℕ
unfolding wr_be32 checksum
encode_executed ref order_id side shares price exec_qty exec_price buf =
    let b1 = wr_be32 (answer_head buf exec_msg_len msg_exec ref order_id side) 24 shares in
    let b2 = wr_be32 (wr_be32 b1 28 (u32 (price * 100))) 32 exec_qty in
    let b3 = update (wr_be32 b2 36 (u32 (exec_price * 100))) 40 84 in sealed b3 41

unfoldable pub encode_canceled : (ref order_id side canceled_qty symbol_id : ℕ) → (ℕ → ℕ) → ℕ → ℕ
unfolding wr_be32 put_book checksum
encode_canceled ref order_id side canceled_qty symbol_id buf =
    sealed
      (put_book
        (wr_be32 (answer_head buf cancel_msg_len msg_cancel ref order_id side) 24 canceled_qty) 28
        symbol_id)
      38

-- The characters of the reason up to its null byte, 11 at most.
unfoldable pub encode_rejected : (ref order_id side : ℕ) → List ℕ → (ℕ → ℕ) → ℕ → ℕ
unfolding checksum
encode_rejected ref order_id side reason buf =
    sealed
      (write_bytes (answer_head buf reject_msg_len msg_reject ref order_id side) 24
        (take 11 reason))
      35
