-- ===== src/Itch.antt =====
-- include/itch_parser.h and src/itch_parser.cpp: ITCH messages into order events. A message is the
-- list of its bytes; a field is read only where the length was checked first. Since each byte is
-- below 256, `(v << 8) | b` is `v * 256 + b`.
pub mod Fields
pub mod Bounds
use nebula_x.Base.{
  ℕ, zero, suc, ◌+◌, ◌*◌, ◌/◌, ◌&&◌, Bool, true, false, Option, none, some, List, [], ◌∷◌, ◌++◌,
  get_or, length, ltb, ◌==◌, if◌then◌else◌,
}
use nebula_x.Order.{Side, invalid, buy, sell}

pub data EventType : Type 0 where
  add : EventType
  delete : EventType
  cancel : EventType
  replace : EventType
  book : EventType

pub record ItchEvent : Type 0 where
  pub type : EventType
  pub locate : ℕ
  pub order_ref : ℕ
  pub new_order_ref : ℕ
  pub side : Side
  pub price : ℕ
  pub shares : ℕ
  pub user_id : ℕ

-- The map from symbols, as their bytes, to locates.
abbrev pub SymbolMap : Type 0
SymbolMap = List (List ℕ × ℕ)

abbrev pub same_symbol : List ℕ → List ℕ → Bool
same_symbol [] [] = true
same_symbol [] (_ ∷ _) = false
same_symbol (_ ∷ _) [] = false
same_symbol (a ∷ s) (b ∷ t) = (a == b) && same_symbol s t

unfoldable pub set_symbol : List ℕ → ℕ → SymbolMap → SymbolMap
set_symbol s locate [] = (s, locate) ∷ []
set_symbol s locate ((t, l) ∷ m) =
    let rest = set_symbol s locate m in if same_symbol t s then (t, locate) ∷ m else (t, l) ∷ rest

-- UINT16_MAX where the symbol is not known.
unfoldable pub locate_for_symbol : List ℕ → SymbolMap → ℕ
locate_for_symbol s [] = 65535
locate_for_symbol s ((t, l) ∷ m) =
    let rest = locate_for_symbol s m in if same_symbol t s then l else rest

abbrev pub byte : List ℕ → ℕ → ℕ
byte m i = get_or m i 0

unfoldable pub rd_u16 : List ℕ → ℕ → ℕ
rd_u16 m i = byte m i * 256 + byte m (i + 1)

unfoldable pub rd_u32 : List ℕ → ℕ → ℕ
rd_u32 m i = byte m i * 16777216 + byte m (i + 1) * 65536 + byte m (i + 2) * 256 + byte m (i + 3)

-- The loop over `n` bytes, onto what was read before.
unfoldable pub rd_bytes : ℕ → List ℕ → ℕ → ℕ → ℕ
rd_bytes zero m i v = v
rd_bytes (suc n) m i v = rd_bytes n m (i + 1) (v * 256 + byte m i)

unfoldable pub rd_u64 : List ℕ → ℕ → ℕ
unfolding rd_bytes
rd_u64 m i = rd_bytes 8 m i 0

unfoldable pub itch_to_cents : ℕ → ℕ
itch_to_cents p = p / 100

-- `std::string(sym)`: up to the first null byte.
unfoldable pub c_string : List ℕ → List ℕ
c_string [] = []
c_string (b ∷ bs) = let rest = c_string bs in if b == 0 then [] else b ∷ rest

-- The trailing blanks off.
unfoldable pub trim : List ℕ → List ℕ
trim [] = []
trim (b ∷ bs) = elim (trim bs) [
  | [] ↦ if b == 32 then [] else if b == 0 then [] else b ∷ []
  | (c ∷ cs) ↦ b ∷ c ∷ cs
]

abbrev pub symbol_bytes : List ℕ → List ℕ
symbol_bytes m =
    byte m 11
    ∷ byte m 12
    ∷ byte m 13
    ∷ byte m 14
    ∷ byte m 15
    ∷ byte m 16
    ∷ byte m 17
    ∷ byte m 18
    ∷ []

abbrev set_if_named : List ℕ → ℕ → SymbolMap → SymbolMap
set_if_named [] locate symbols = symbols
set_if_named (b ∷ bs) locate symbols = set_symbol (b ∷ bs) locate symbols

-- The Stock Directory message.
unfoldable pub feed_directory : List ℕ → SymbolMap → SymbolMap
unfolding c_string trim rd_u16 set_symbol
feed_directory m symbols =
    if ltb (length m) 19
    then symbols
    else set_if_named (trim (c_string (symbol_bytes m))) (rd_u16 m 1) symbols

abbrev is_add : ℕ → Bool
is_add mt = if mt == 65 then true else mt == 70

-- The order events, by the message type: 'A' 65, 'F' 70, 'D' 68, 'X' 88, 'U' 85, 'Q' 81. Fields
-- that a message does not have keep what the caller's event held.
unfoldable pub feed_event : List ℕ → ItchEvent → Bool × ItchEvent
unfolding rd_u16 rd_u32 rd_u64 itch_to_cents
feed_event m out =
    let mt = byte m 0 in
    if is_add mt
    then (if ltb (length m) 36 then (false, out) else (
      true,
      record out {
        type = add;
        locate = rd_u16 m 1;
        order_ref = rd_u64 m 11;
        side = if byte m 19 == 83 then sell else buy;
        shares = rd_u32 m 20;
        price = itch_to_cents (rd_u32 m 32);
      },
    ))
    else if mt == 68
    then (if ltb (length m) 19 then (false, out) else (
      true,
      record out { type = delete; locate = rd_u16 m 1; order_ref = rd_u64 m 11; side = invalid },
    ))
    else if mt == 88
    then (if ltb (length m) 23 then (false, out) else (
      true,
      record out {
        type = cancel;
        locate = rd_u16 m 1;
        order_ref = rd_u64 m 11;
        shares = rd_u32 m 19;
        side = invalid;
      },
    ))
    else if mt == 85
    then (if ltb (length m) 35 then (false, out) else (
      true,
      record out {
        type = replace;
        locate = rd_u16 m 1;
        order_ref = rd_u64 m 11;
        new_order_ref = rd_u64 m 19;
        shares = rd_u32 m 27;
        price = itch_to_cents (rd_u32 m 31);
        side = invalid;
      },
    ))
    else if mt == 81
    then (true, record out { type = book; locate = rd_u16 m 1 })
    else (false, out)

-- `feed`: the answer, the event and the symbols; 'R' is 82.
unfoldable pub feed : List ℕ → ItchEvent → SymbolMap → Bool × ItchEvent × SymbolMap
unfolding feed_directory feed_event
feed m out symbols =
    if ltb (length m) 3
    then (false, out, symbols)
    else if byte m 0 == 82
    then (false, out, feed_directory m symbols)
    else let (found, event) = feed_event m out in (found, event, symbols)
