-- ===== src/Book/Lower.antt =====
-- A level whose total and whose order's remainder go down together.
use nebula_x.Base.{
  ℕ, ◌+◌, ◌^◌, ◌<◌, ◌≡◌, ◌≢◌, refl, sym, ap, ◌∙◌, ◌⊎◌, inl, inr, true, false, some, List, [], ◌∷◌,
  ◌++◌, arith, nil_idx, sub32, update, ◌==◌, has, has-append, lookup, put, Bool-cases, Distinct,
  ==_refl, ==_ne, eq_of_==, ne_of_==,
}
use nebula_x.Order.{Order, Side}
use nebula_x.Chain.{Linked-frame}
use nebula_x.Book.{PriceLevel, Levels, before}
use nebula_x.Book.Rep.{
  LevelRep, Member, SideBut, SideRep, Chains, Ordered, SameAt, same_of-eq, qty_of, qty_of-frame,
  All-Member, prv, nxt,
}
use nebula_x.Book.Sides.{SideBut-all, lookup-absent, Keys-after, Keys-past}
use nebula_x.Book.Unlink.{own}

-- A slot's order with another remainder: the links, the price and the side stay.
pub record Lowered (old new : Order) (amount : ℕ) : Type 0 where
  pub prev : new.prev_idx ≡ old.prev_idx
  pub next : new.next_idx ≡ old.next_idx
  pub price : new.price ≡ old.price
  pub side : new.side ≡ old.side
  pub free : new.pool_next_free ≡ old.pool_next_free
  pub left : new.remaining_qty + amount ≡ old.remaining_qty

qty_of-lower :
    (s : ℕ → Order) (i amount : ℕ) (o : Order) (is : List ℕ)
    → Distinct is
    → has i is ≡ true
    → o.remaining_qty + amount ≡ (s i).remaining_qty
    → qty_of (update s i o) is + amount ≡ qty_of s is
qty_of-lower s i amount o [] d m e = absurd (ground arith)
qty_of-lower s i amount o (j ∷ is) d m e = elim (Bool-cases (j == i)) [
  | inl q ↦
      let same : j ≡ i = eq_of_== j i q in
      let rest =
        qty_of-frame s (update s i o) is (λ k n. rw (==_ne k i (λ z. ground (arith, d.0))) refl) in
      rw (q, rest) (omega (arith, rw (← same) at e))
  | inr n ↦ rw n (omega (arith, qty_of-lower s i amount o is d.1 (ground arith) e))
]

-- Writing a level whose chain stays.
pub SideRep-write :
    (s : ℕ → Order) (side : Side) (outside : List ℕ) (k : ℕ) (lvl0 lvl : PriceLevel) (is : List ℕ)
    (l : Levels) (c : Chains)
    → Ordered side l
    → SideBut s side outside k l c
    → lookup k l ≡ some lvl0
    → lookup k c ≡ some is
    → LevelRep s side outside k lvl is
    → SideRep s side outside (put (before side) k lvl l) c
unfolding put lookup
SideRep-write s side outside k lvl0 lvl is [] [] o h e f r = absurd cc
SideRep-write s side outside k lvl0 lvl is [] (_ ∷ _) o h e f r = absurd h
SideRep-write s side outside k lvl0 lvl is (_ ∷ _) [] o h e f r = absurd h
SideRep-write s side outside k lvl0 lvl is ((p, w) ∷ l) ((q, js) ∷ c) o h e f r =
    elim (Bool-cases (p == k)) [
      | inl z ↦
          let same : p ≡ k = eq_of_== p k z in
          let found : some js ≡ some is = (rw (← h.0, z) at f) in
          let chain : js ≡ is = cc in
          rw (z, chain)
            (
              sym same ∙ h.0,
              r,
              SideBut-all s side outside k l c (Keys-after side k p l same o.0) h.2,
            )
      | inr n ↦ elim (Bool-cases (before side k p)) [
        | inl b ↦
            let gone = lookup-absent k l (Keys-past side k p l b o.0) in
            let there : lookup k l ≡ some lvl0 = (rw n at e) in absurd cc
        | inr nb ↦
            rw (n, nb)
              (
                h.0,
                h.1 (ne_of_== p k n),
                SideRep-write s side outside k lvl0 lvl is l c o.1 h.2 (rw n at e)
                    (rw (← h.0, n) at f) r,
              )
      ]
    ]

module _ (s : ℕ → Order) (sd : Side) (outside : List ℕ) (p : ℕ) (lvl : PriceLevel) (xs ys : List ℕ)
    (i amount : ℕ) (o : Order) (r : LevelRep s sd outside p lvl (xs ++ i ∷ ys))
    (low : Lowered (s i) o amount) where
  pub lower-away :
      (j : ℕ) (side : Side) (q : ℕ)
      → (q ≢ p) ⊎ (side ≢ sd)
      → Member s side outside q j
      → SameAt s (update s i o) j × (has j outside ≡ false)
  lower-away j side q away h =
      (same_of-eq s (update s i o) j (rw (==_ne j i (apart away)) refl), h.2)
    where
      mine : Member s sd outside p i
      mine = own s sd outside p lvl xs ys i r

      apart : (q ≢ p) ⊎ (side ≢ sd) → j ≢ i
      apart (inl n) e = n (sym h.0 ∙ ap (λ k. (s k).price) e ∙ mine.0)
      apart (inr n) e = n (sym h.1 ∙ ap (λ k. (s k).side) e ∙ mine.1)

  lower-links : (j : ℕ) → (prv (update s i o) j ≡ prv s j) × (nxt (update s i o) j ≡ nxt s j)
  lower-links j = elim (Bool-cases (j == i)) [
    | inl e ↦ rw (prv, nxt, e, eq_of_== j i e) (low.prev, low.next)
    | inr n ↦ rw (prv, nxt, n) (refl, refl)
  ]

  lower-Member : (j : ℕ) → Member s sd outside p j → Member (update s i o) sd outside p j
  lower-Member j h = elim (Bool-cases (j == i)) [
    | inl e ↦
        let same : j ≡ i = eq_of_== j i e in
        let k : Member s sd outside p i = rw same at h in
        rw (e, same) (low.price ∙ k.0, low.side ∙ k.1, k.2, omega (arith, low.left, k.3))
    | inr n ↦ rw n h
  ]

  pub lower-level :
      amount < 2 ^ 32
      → LevelRep
          (update s i o)
          sd
          outside
          p
          (record lvl { total_qty = sub32 lvl.total_qty amount })
          (xs ++ i ∷ ys)
  lower-level word = record {
    linked =
        Linked-frame (prv s) (nxt s) (prv (update s i o)) (nxt (update s i o)) nil_idx lvl.head_idx
          (xs ++ i ∷ ys) lvl.tail_idx (λ j m. lower-links j) r.linked;
    distinct = r.distinct;
    counted = r.counted;
    total = omega (
      arith,
      r.total,
      qty_of-lower s i amount o (xs ++ i ∷ ys) r.distinct
          (ground (arith, has-append i xs (i ∷ ys), ==_refl i)) low.left,
    );
    members =
        All-Member s (update s i o) sd outside outside p (xs ++ i ∷ ys) (λ j m. lower-Member j)
          r.members;
    occupied = r.occupied;
  }
