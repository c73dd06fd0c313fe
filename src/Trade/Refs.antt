-- ===== src/Trade/Refs.antt =====
-- The exchange's references of src/tcp_trade_server.cpp.
use nebula_x.Base.{
  ℕ, ◌+◌, ◌<◌, ◌^◌, ◌≡◌, refl, sym, ap, ◌∙◌, inl, inr, ◌⊎◌, Bool, none, some, List, arith, ◌==◌,
  ==_refl, eq_of_==, if◌then◌else◌, lookup, lookup-put, put, add64, Bool-cases, Option-cases, true,
  false,
}
use nebula_x.Trade.{TradeServer, any_order, ref_for}

-- Every reference in the table was given out, and no two ids have the same.
pub record IsRefTable (sv : TradeServer) : Type 0 where
  pub given : (i r : ℕ) → lookup i sv.id_to_ref ≡ some r → r < sv.next_ref
  pub apart : (i j r : ℕ) → lookup i sv.id_to_ref ≡ some r → lookup j sv.id_to_ref ≡ some r → i ≡ j

-- What a call of `ref_for` does to the references.
pub record Referred (id : ℕ) (sv : TradeServer) (answer : ℕ × TradeServer) : Type 0 where
  pub table : IsRefTable answer.1
  pub here : lookup id answer.1.id_to_ref ≡ some answer.0
  pub others : (j r : ℕ) → lookup j sv.id_to_ref ≡ some r → lookup j answer.1.id_to_ref ≡ some r

module _ (id : ℕ) (sv : TradeServer) (t : IsRefTable sv) (room : sv.next_ref + 1 < 2 ^ 64)
    (new : lookup id sv.id_to_ref ≡ none) where
  abbrev m : List (ℕ × ℕ)
  m = put any_order id sv.next_ref sv.id_to_ref

  -- What the new table has.
  known :
      (j r : ℕ)
      → lookup j m ≡ some r
      → ((j ≡ id) × (r ≡ sv.next_ref)) ⊎ (lookup j sv.id_to_ref ≡ some r)
  known j r e =
      let at = sym (lookup-put any_order id j sv.next_ref sv.id_to_ref) ∙ e in
      elim (Bool-cases (id == j)) [
        | inl z ↦ inl (sym (eq_of_== id j z), same (sym (found_side (id == j) z) ∙ at))
        | inr z ↦ inr (sym (missing_side (id == j) z) ∙ at)
      ]
    where
      same : some sv.next_ref ≡ some r → r ≡ sv.next_ref
      same q = cc

      found_side :
          (b : Bool)
          → b ≡ true
          → (if b then some sv.next_ref else lookup j sv.id_to_ref) ≡ some sv.next_ref
      found_side b q = rw q refl

      missing_side :
          (b : Bool)
          → b ≡ false
          → (if b then some sv.next_ref else lookup j sv.id_to_ref) ≡ lookup j sv.id_to_ref
      missing_side b q = rw q refl

  apart : (i j r : ℕ) → lookup i m ≡ some r → lookup j m ≡ some r → i ≡ j
  apart i j r p q = both (known i r p) (known j r q)
    where
      both :
          ((i ≡ id) × (r ≡ sv.next_ref)) ⊎ (lookup i sv.id_to_ref ≡ some r)
          → ((j ≡ id) × (r ≡ sv.next_ref)) ⊎ (lookup j sv.id_to_ref ≡ some r)
          → i ≡ j
      both (inl a) (inl b) = a.0 ∙ sym b.0
      both (inl a) (inr b) = absurd (omega (arith, a.1, t.given j r b))
      both (inr a) (inl b) = absurd (omega (arith, b.1, t.given i r a))
      both (inr a) (inr b) = t.apart i j r a b

  given : (i r : ℕ) → lookup i m ≡ some r → r < add64 sv.next_ref 1
  given i r p = elim (known i r p) [
    | inl a ↦ omega (arith, a.1, room)
    | inr a ↦ omega (arith, t.given i r a, room)
  ]

  kept : (j r : ℕ) → lookup j sv.id_to_ref ≡ some r → lookup j m ≡ some r
  kept j r p = lookup-put any_order id j sv.next_ref sv.id_to_ref ∙ (elim (Bool-cases (id == j)) [
    | inl z ↦ absurd (nothing (sym new ∙ ap (λ k. lookup k sv.id_to_ref) (eq_of_== id j z) ∙ p))
    | inr z ↦ rw z p
  ])
    where
      nothing : none ≡ some r → ⊥
      nothing q = absurd cc

  new-Referred :
      Referred id sv (sv.next_ref, record sv { next_ref = add64 sv.next_ref 1; id_to_ref = m })
  new-Referred = record {
    table = record { given = given; apart = apart };
    here = lookup-put any_order id id sv.next_ref sv.id_to_ref ∙ rw (==_refl id) refl;
    others = kept;
  }

-- With fewer than 2^64 - 1 references given out, an id gets the reference that it has, or a new one;
-- the other ids keep theirs, and no two ids ever have the same.
pub ref_for-Referred :
    (id : ℕ) (sv : TradeServer)
    → IsRefTable sv
    → sv.next_ref + 1 < 2 ^ 64
    → Referred id sv (ref_for id sv)
unfolding ref_for
ref_for-Referred id sv t room = elim (Option-cases (lookup id sv.id_to_ref)) [
  | inl e ↦ rw (ref_for, e) (new-Referred id sv t room e)
  | inr (r, e) ↦ rw (ref_for, e) (record { table = t; here = e; others = λ j q p. p })
]
