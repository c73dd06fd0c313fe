-- ===== src/Ouch/Enter.antt =====
-- The Enter Order message, laid out as include/ouch_protocol.h says and read back.
use nebula_x.Base.{
  ℕ, zero, suc, ◌+◌, ◌-◌, ◌/◌, ◌%◌, ◌^◌, ◌≡◌, ◌<◌, refl, sym, ap, ◌∙◌, inl, inr, false, none, some,
  List, [], ◌∷◌, ◌++◌, arith, length, length-append, take, drop, ltb, ◌==◌, if◌then◌else◌,
  Bool-cases,
}
use nebula_x.Itch.{byte, rd_u32}
use nebula_x.Itch.Fields.{rd_u32-be32}
use nebula_x.Server.Frames.{take-append, drop-append}
use nebula_x.Ouch.{decimal, padded, copies, strtoull, checksum, sum_bytes, slice, decode_enter}
use nebula_x.Ouch.Numbers.{
  length-padded, strtoull-padded, strtoull-decimal, length-decimal, length-copies,
}

-- A number at the left of ten characters.
abbrev pub number_field : ℕ → List ℕ
number_field n = decimal 20 n ++ copies (10 - length (decimal 20 n)) 32

-- What stands from the price on: the time in force, display, capacity, sweep and minimum quantity
-- with their padding, and the last byte.
abbrev pub enter_tail : ℕ → ℕ → List ℕ → ℕ → List ℕ
enter_tail price tif others last =
    price / 16777216 % 256
    ∷ price / 65536 % 256
    ∷ price / 256 % 256
    ∷ price % 256
    ∷ tif
    ∷ (others ++ (last ∷ []))

-- An Enter Order of 49 bytes; the price goes in hundredths of a cent.
abbrev pub enter_message : (order_id side shares symbol_id price tif : ℕ) → List ℕ → ℕ → List ℕ
enter_message order_id side shares symbol_id price tif others last =
    79
    ∷ (padded order_id
        ++ (side
            ∷ shares / 16777216 % 256
            ∷ shares / 65536 % 256
            ∷ shares / 256 % 256
            ∷ shares % 256
            ∷ (number_field symbol_id ++ enter_tail price tif others last)))

length-number_field : (n : ℕ) → n < 10 ^ 10 → length (number_field n) ≡ 10
length-number_field n lt = omega (
  arith,
  length-append (decimal 20 n) (copies (10 - length (decimal 20 n)) 32),
  length-copies (10 - length (decimal 20 n)) 32,
  length-decimal 20 9 n (omega (arith, lt)),
)

drop-drop : (a b : ℕ) (xs : List ℕ) → drop (a + b) xs ≡ drop b (drop a xs)
drop-drop zero b xs = ap (λ k. drop k xs) (omega arith)
drop-drop (suc a) b [] = drop-nil (suc a + b) ∙ sym (drop-nil b)
  where
    drop-nil : (k : ℕ) → drop {A = ℕ} k [] ≡ []
    drop-nil zero = refl
    drop-nil (suc k) = refl
drop-drop (suc a) b (x ∷ xs) =
    let more : suc a + b ≡ suc (a + b) = omega arith in rw more (drop-drop a b xs)

byte-drop : (n i : ℕ) (xs : List ℕ) → byte xs (n + i) ≡ byte (drop n xs) i
byte-drop zero i xs = ap (byte xs) (omega arith)
byte-drop (suc n) i [] = refl
byte-drop (suc n) i (x ∷ xs) =
    let more : suc n + i ≡ suc (n + i) = omega arith in rw more (byte-drop n i xs)

module _ (order_id side shares symbol_id price tif : ℕ) (others : List ℕ) (last : ℕ)
    (id_fits : order_id < 10 ^ 14) (shares_fit : shares < 2 ^ 32)
    (symbol_fits : symbol_id < 10 ^ 10) (price_fits : price < 2 ^ 32)
    (size : length others ≡ 13) where
  abbrev m : List ℕ
  m = enter_message order_id side shares symbol_id price tif others last

  at_side :
      drop 15 m
      ≡ side
        ∷ shares / 16777216 % 256
        ∷ shares / 65536 % 256
        ∷ shares / 256 % 256
        ∷ shares % 256
        ∷ (number_field symbol_id ++ enter_tail price tif others last)
  at_side = drop-append 14 (padded order_id) _ (length-padded order_id id_fits)

  at_symbol : drop 20 m ≡ number_field symbol_id ++ enter_tail price tif others last
  at_symbol = drop-drop 15 5 m ∙ ap (drop 5) at_side

  at_price : drop 30 m ≡ enter_tail price tif others last
  at_price =
      drop-drop 20 10 m
      ∙ ap (drop 10) at_symbol
      ∙ drop-append 10 (number_field symbol_id) _ (length-number_field symbol_id symbol_fits)

  at_last : byte m 48 ≡ last
  at_last =
      byte-drop 30 18 m
      ∙ ap (λ l. byte l 18) at_price
      ∙ byte-drop 13 0 (others ++ (last ∷ []))
      ∙ ap (λ l. byte l 0) (drop-append 13 others (last ∷ []) size)

  from_price : (i : ℕ) → byte m (30 + i) ≡ byte (enter_tail price tif others last) i
  from_price i = byte-drop 30 i m ∙ ap (λ l. byte l i) at_price

  read_side : byte m 15 ≡ side
  read_side = byte-drop 15 0 m ∙ ap (λ l. byte l 0) at_side

  pub length-enter_message : length m ≡ 49
  length-enter_message = omega (
    arith,
    size,
    length-append (padded order_id) (
        side
        ∷ shares / 16777216 % 256
        ∷ shares / 65536 % 256
        ∷ shares / 256 % 256
        ∷ shares % 256
        ∷ (number_field symbol_id ++ enter_tail price tif others last)),
    length-padded order_id id_fits,
    length-append (number_field symbol_id) (enter_tail price tif others last),
    length-number_field symbol_id symbol_fits,
    length-append others (last ∷ []),
  )

  read_price : rd_u32 m 30 ≡ price
  read_price =
      rd_u32-be32 m 30 price price_fits (from_price 0) (from_price 1) (from_price 2) (from_price 3)

  read_shares : rd_u32 m 16 ≡ shares
  read_shares =
      rd_u32-be32 m 16 shares shares_fit (byte-drop 15 1 m ∙ ap (λ l. byte l 1) at_side)
        (byte-drop 15 2 m ∙ ap (λ l. byte l 2) at_side)
        (byte-drop 15 3 m ∙ ap (λ l. byte l 3) at_side)
        (byte-drop 15 4 m ∙ ap (λ l. byte l 4) at_side)

  read_token : strtoull (slice m 1 14) ≡ order_id
  read_token =
      ap strtoull (take-append 14 (padded order_id) _ (length-padded order_id id_fits))
      ∙ strtoull-padded order_id (omega (arith, id_fits))

  read_symbol : strtoull (slice m 20 10) ≡ symbol_id
  read_symbol =
      ap (λ l. strtoull (take 10 l)) at_symbol
      ∙ ap strtoull
          (take-append 10 (number_field symbol_id) _ (length-number_field symbol_id symbol_fits))
      ∙ strtoull-decimal symbol_id (10 - length (decimal 20 symbol_id)) (omega (arith, symbol_fits))

  -- An Enter Order with an order id below 10^14, a symbol below 10^10, 32 bits of shares and of
  -- price and 49 bytes is read back, the price divided by 100, where its last byte is the sum of the
  -- others modulo 256, and is refused where it is not.
  pub decode_enter-message : decode_enter m ≡ (
      if last == sum_bytes (take 48 m) % 256
      then some (record {
        order_id = order_id;
        side = side;
        shares = shares;
        symbol_id = symbol_id;
        price = price / 100;
        tif = tif;
      })
      else none)
  unfolding decode_enter checksum
  decode_enter-message =
      let long : ltb (length m) 49 ≡ false = ground (arith, length-enter_message) in
      elim (Bool-cases (last == sum_bytes (take 48 m) % 256)) [
        | inl e ↦
            rw (decode_enter, long, at_last, e)
              (rw (read_token, read_side, read_shares, read_symbol, read_price, from_price 4) refl)
        | inr e ↦ rw (decode_enter, long, at_last, e) refl
      ]
