-- ===== src/Itch/Fields.antt =====
-- The fields of an order message, laid out as the protocol lays them out and read back.
use nebula_x.Base.{
  ℕ, ◌+◌, ◌*◌, ◌/◌, ◌%◌, ◌^◌, ◌≡◌, ◌<◌, ◌≤◌, refl, ◌∙◌, ap, true, false, List, [], ◌∷◌, ◌++◌, arith,
  length, ltb, ◌==◌, if◌then◌else◌,
}
use nebula_x.Order.{buy, sell}
use nebula_x.Itch.{
  ItchEvent, SymbolMap, add, byte, rd_u16, rd_u32, rd_u64, rd_bytes, itch_to_cents, feed,
  feed_event,
}

-- Big-endian fields.
abbrev pub be16 : ℕ → List ℕ
be16 v = v / 256 % 256 ∷ v % 256 ∷ []

abbrev pub be32 : ℕ → List ℕ
be32 v = v / 16777216 % 256 ∷ v / 65536 % 256 ∷ v / 256 % 256 ∷ v % 256 ∷ []

abbrev pub be64 : ℕ → List ℕ
be64 v = be32 (v / 4294967296) ++ be32 (v % 4294967296)

rd_u16-be16 :
    (xs : List ℕ) (i v : ℕ)
    → v < 2 ^ 16
    → byte xs i ≡ v / 256 % 256
    → byte xs (i + 1) ≡ v % 256
    → rd_u16 xs i ≡ v
unfolding rd_u16
rd_u16-be16 xs i v word a b = omega (arith, a, b, word)

pub rd_u32-be32 :
    (xs : List ℕ) (i v : ℕ)
    → v < 2 ^ 32
    → byte xs i ≡ v / 16777216 % 256
    → byte xs (i + 1) ≡ v / 65536 % 256
    → byte xs (i + 2) ≡ v / 256 % 256
    → byte xs (i + 3) ≡ v % 256
    → rd_u32 xs i ≡ v
unfolding rd_u32
rd_u32-be32 xs i v word a b c d = omega (arith, a, b, c, d, word)

-- Eight bytes are two words of four.
pub rd_u64-halves :
    (xs : List ℕ) (i : ℕ) → rd_u64 xs i ≡ rd_u32 xs i * 4294967296 + rd_u32 xs (i + 4)
unfolding rd_u64 rd_u32 rd_bytes
rd_u64-halves xs i = omega (
  arith,
  same 2 (i + 1 + 1) (omega arith),
  same 3 (i + 1 + 1 + 1) (omega arith),
  same 4 (i + 1 + 1 + 1 + 1) (omega arith),
  same 5 (i + 1 + 1 + 1 + 1 + 1) (omega arith),
  same 6 (i + 1 + 1 + 1 + 1 + 1 + 1) (omega arith),
  same 7 (i + 1 + 1 + 1 + 1 + 1 + 1 + 1) (omega arith),
  same 5 (i + 4 + 1) (omega arith),
  same 6 (i + 4 + 2) (omega arith),
  same 7 (i + 4 + 3) (omega arith),
)
  where
    same : (k j : ℕ) → j ≡ i + k → byte xs j ≡ byte xs (i + k)
    same k j e = ap (byte xs) e

add-fields :
    (m : List ℕ) (out : ItchEvent) (symbols : SymbolMap)
    → 36 ≤ length m
    → byte m 0 ≡ 65
    → feed m out symbols ≡ (
      true,
      record out {
        type = add;
        locate = rd_u16 m 1;
        order_ref = rd_u64 m 11;
        side = if byte m 19 == 83 then sell else buy;
        shares = rd_u32 m 20;
        price = rd_u32 m 32 / 100;
      },
      symbols,
    )
unfolding feed feed_event itch_to_cents
add-fields m out symbols long head =
    let a : ltb (length m) 3 ≡ false = ground (arith, long) in
    let b : ltb (length m) 36 ≡ false = ground (arith, long) in rw (feed, a, head, b) refl

-- An Add Order message: its type, locate, tracking number, time stamp, reference, side, shares,
-- stock and price, and whatever follows.
abbrev pub add_message :
    (type locate track0 track1 : ℕ)
    → (t0 t1 t2 t3 t4 t5 : ℕ) → (ref side shares : ℕ) → (s0 s1 s2 s3 s4 s5 s6 s7 : ℕ) → (price : ℕ)
    → List ℕ
    → List ℕ
add_message type locate track0 track1 t0 t1 t2 t3 t4 t5 ref side shares s0 s1 s2 s3 s4 s5 s6 s7
      price rest =
    type ∷ be16 locate
    ++ (track0 ∷ track1 ∷ t0 ∷ t1 ∷ t2 ∷ t3 ∷ t4 ∷ t5 ∷ be64 ref)
    ++ (side ∷ be32 shares)
    ++ (s0 ∷ s1 ∷ s2 ∷ s3 ∷ s4 ∷ s5 ∷ s6 ∷ s7 ∷ be32 price)
    ++ rest

-- An Add Order message, whatever its other fields and trailing bytes are, is read back as an ADD
-- event with its locate, reference, side, shares and price in cents; the symbols stay.
pub feed-add :
    (locate track0 track1 t0 t1 t2 t3 t4 t5 ref side shares : ℕ) (s0 s1 s2 s3 s4 s5 s6 s7 price : ℕ)
    (rest : List ℕ) (out : ItchEvent) (symbols : SymbolMap)
    → locate < 2 ^ 16
    → ref < 2 ^ 64
    → shares < 2 ^ 32
    → price < 2 ^ 32
    → feed
        (add_message 65 locate track0 track1 t0 t1 t2 t3 t4 t5 ref side shares s0 s1 s2 s3 s4 s5 s6
          s7 price rest)
        out
        symbols
      ≡ (
        true,
        record out {
          type = add;
          locate = locate;
          order_ref = ref;
          side = if side == 83 then sell else buy;
          shares = shares;
          price = price / 100;
        },
        symbols,
      )
unfolding feed feed_event rd_u16 rd_u32 rd_u64 rd_bytes itch_to_cents
feed-add locate track0 track1 t0 t1 t2 t3 t4 t5 ref side shares s0 s1 s2 s3 s4 s5 s6 s7 price rest
      out symbols hl hr hs hp =
    let m =
      add_message 65 locate track0 track1 t0 t1 t2 t3 t4 t5 ref side shares s0 s1 s2 s3 s4 s5 s6 s7
        price rest in
    let whole : ref / 4294967296 * 4294967296 + ref % 4294967296 ≡ ref = omega arith in
    add-fields m out symbols (omega arith) refl
    ∙ rw
        (
          rd_u16-be16 m 1 locate hl refl refl,
          rd_u64-halves m 11,
          rd_u32-be32 m 11 (ref / 4294967296) (omega (arith, hr)) refl refl refl refl,
          rd_u32-be32 m 15 (ref % 4294967296) (omega arith) refl refl refl refl,
          rd_u32-be32 m 20 shares hs refl refl refl refl,
          rd_u32-be32 m 32 price hp refl refl refl refl,
          whole,
        )
        refl
