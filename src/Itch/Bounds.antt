-- ===== src/Itch/Bounds.antt =====
-- The parser's event fits the widths of its fields.
use nebula_x.Base.{
  ℕ, ◌+◌, ◌^◌, ◌<◌, inl, inr, List, [], ◌∷◌, All, arith, zero, suc, length, ltb, ◌==◌, Bool-cases,
  get_or,
}
use nebula_x.Itch.{
  ItchEvent, SymbolMap, byte, rd_u16, rd_u32, rd_u64, itch_to_cents, feed, feed_event, is_add,
}
use nebula_x.Itch.Fields.{rd_u64-halves}

abbrev pub Bytes : List ℕ → Type 0
Bytes = All (λ b. b < 256)

-- The widths of the event's fields, and a side where it is read.
pub record IsEvent (ev : ItchEvent) : Type 0 where
  pub locate : ev.locate < 2 ^ 16
  pub order_ref : ev.order_ref < 2 ^ 64
  pub new_order_ref : ev.new_order_ref < 2 ^ 64
  pub price : ev.price < 2 ^ 32
  pub shares : ev.shares < 2 ^ 32

module _ (m : List ℕ) (bytes : Bytes m) where
  byte_bound : (i : ℕ) → byte m i < 256
  byte_bound i = go m bytes i
    where
      go : (l : List ℕ) → Bytes l → (j : ℕ) → get_or l j 0 < 256
      go [] b j = omega arith
      go (x ∷ xs) b zero = b.0
      go (x ∷ xs) b (suc j) = go xs b.1 j

  u16_bound : (i : ℕ) → rd_u16 m i < 2 ^ 16
  unfolding rd_u16
  u16_bound i = omega (arith, byte_bound i, byte_bound (i + 1))

  u32_bound : (i : ℕ) → rd_u32 m i < 2 ^ 32
  unfolding rd_u32
  u32_bound i =
      omega (arith, byte_bound i, byte_bound (i + 1), byte_bound (i + 2), byte_bound (i + 3))

  u64_bound : (i : ℕ) → rd_u64 m i < 2 ^ 64
  u64_bound i = omega (arith, rd_u64-halves m i, u32_bound i, u32_bound (i + 4))

  cents_bound : (i : ℕ) → itch_to_cents (rd_u32 m i) < 2 ^ 32
  unfolding itch_to_cents
  cents_bound i = omega (arith, u32_bound i)

  feed_event-IsEvent : (ev : ItchEvent) → IsEvent ev → IsEvent (feed_event m ev).1
  unfolding feed_event
  feed_event-IsEvent ev h = elim (Bool-cases (is_add (byte m 0))) [
    | inl a ↦ elim (Bool-cases (ltb (length m) 36)) [
      | inl s ↦ rw (feed_event, a, s) h
      | inr s ↦
          rw (feed_event, a, s)
            (record {
              locate = u16_bound 1;
              order_ref = u64_bound 11;
              new_order_ref = h.new_order_ref;
              price = cents_bound 32;
              shares = u32_bound 20;
            })
    ]
    | inr a ↦ elim (Bool-cases (byte m 0 == 68)) [
      | inl d ↦ elim (Bool-cases (ltb (length m) 19)) [
        | inl s ↦ rw (feed_event, a, d, s) h
        | inr s ↦
            rw (feed_event, a, d, s)
              (record {
                locate = u16_bound 1;
                order_ref = u64_bound 11;
                new_order_ref = h.new_order_ref;
                price = h.price;
                shares = h.shares;
              })
      ]
      | inr d ↦ elim (Bool-cases (byte m 0 == 88)) [
        | inl x ↦ elim (Bool-cases (ltb (length m) 23)) [
          | inl s ↦ rw (feed_event, a, d, x, s) h
          | inr s ↦
              rw (feed_event, a, d, x, s)
                (record {
                  locate = u16_bound 1;
                  order_ref = u64_bound 11;
                  new_order_ref = h.new_order_ref;
                  price = h.price;
                  shares = u32_bound 19;
                })
        ]
        | inr x ↦ elim (Bool-cases (byte m 0 == 85)) [
          | inl u ↦ elim (Bool-cases (ltb (length m) 35)) [
            | inl s ↦ rw (feed_event, a, d, x, u, s) h
            | inr s ↦
                rw (feed_event, a, d, x, u, s)
                  (record {
                    locate = u16_bound 1;
                    order_ref = u64_bound 11;
                    new_order_ref = u64_bound 19;
                    price = cents_bound 31;
                    shares = u32_bound 27;
                  })
          ]
          | inr u ↦ elim (Bool-cases (byte m 0 == 81)) [
            | inl q ↦
                rw (feed_event, a, d, x, u, q)
                  (record {
                    locate = u16_bound 1;
                    order_ref = h.order_ref;
                    new_order_ref = h.new_order_ref;
                    price = h.price;
                    shares = h.shares;
                  })
            | inr q ↦ rw (feed_event, a, d, x, u, q) h
          ]
        ]
      ]
    ]
  ]

-- From a message of bytes and an event whose fields fit their types, whatever the message is, the
-- parser leaves an event whose fields fit: 16 bits of locate, 64 of each reference, 32 of price and
-- of shares.
pub feed-IsEvent :
    (m : List ℕ) (ev : ItchEvent) (symbols : SymbolMap)
    → Bytes m
    → IsEvent ev
    → IsEvent (feed m ev symbols).1
unfolding feed
feed-IsEvent m ev symbols bytes h = elim (Bool-cases (ltb (length m) 3)) [
  | inl s ↦ rw (feed, s) h
  | inr s ↦ elim (Bool-cases (byte m 0 == 82)) [
    | inl r ↦ rw (feed, s, r) h
    | inr r ↦ rw (feed, s, r) (feed_event-IsEvent m bytes ev h)
  ]
]
