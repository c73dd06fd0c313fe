-- ===== src/Book/Enqueue.antt =====
-- The storage behind `addOrder`: the level with the slot behind it, and the others as they were.
use nebula_x.Base.{
  ℕ, ◌+◌, ◌^◌, ◌<◌, ◌≡◌, ◌≢◌, sym, ap, ◌∙◌, ◌⊎◌, inl, inr, false, List, [], ◌∷◌, ◌++◌, arith,
  nil_idx, update, has, put, ==_ne,
}
use nebula_x.Order.{Order, Side}
use nebula_x.Book.{
  PriceLevel, Levels, before, default_level, level_at, resting, link_slot, append_level,
}
use nebula_x.Book.Rep.{
  LevelRep, Member, Member-of, SideRep, Chains, chain_at, Ordered, SameAt, same_of-eq,
}
use nebula_x.Book.Sides.{SideRep-but, SideRep-frame, SideRep-put, SideRep-lookup, count-le-resting}
use nebula_x.Book.Append.{append-first, append-behind, linked-other, tail-has}

module _ (s : ℕ → Order) (order : Order) (idx : ℕ) (ne : idx ≢ nil_idx) (outside : List ℕ)
    (free : has idx outside ≡ false) (word : order.remaining_qty < 2 ^ 32) where
  first-other : (j : ℕ) → j ≢ idx → link_slot (update s idx order) default_level idx j ≡ s j
  unfolding link_slot
  first-other j n = rw (==_ne j idx n)

  -- The other slots: those of another price or side than the order's.
  append-other :
      (lvl : PriceLevel) (is : List ℕ) (side : Side) (p j : ℕ)
      → LevelRep s order.side (idx ∷ outside) order.price lvl is
      → (p ≢ order.price) ⊎ (side ≢ order.side)
      → Member s side (idx ∷ outside) p j
      → SameAt s (link_slot (update s idx order) lvl idx) j × (has j outside ≡ false)
  append-other lvl [] side p j r away h = absurd (omega (arith, r.occupied, r.counted))
  append-other lvl (i ∷ is) side p j r away h = (
    same_of-eq s (link_slot (update s idx order) lvl idx) j (
        linked-other s order idx ne outside free word lvl i is r j (λ e. ground arith)
          (λ e. tail-away e away)),
    ground arith,
  )
    where
      tail : Member s order.side (idx ∷ outside) order.price lvl.tail_idx
      tail =
          Member-of s order.side (idx ∷ outside) order.price (i ∷ is) lvl.tail_idx r.members
            (tail-has s order idx ne outside free word lvl i is r)

      tail-away : j ≡ lvl.tail_idx → (p ≢ order.price) ⊎ (side ≢ order.side) → ⊥
      tail-away e (inl n) = n (sym h.0 ∙ ap (λ k. (s k).price) e ∙ tail.0)
      tail-away e (inr n) = n (sym h.1 ∙ ap (λ k. (s k).side) e ∙ tail.1)

  append-level :
      (lvl : PriceLevel) (is : List ℕ)
      → LevelRep s order.side (idx ∷ outside) order.price lvl is
      → lvl.count + 1 < 2 ^ 32
      → LevelRep
          (link_slot (update s idx order) lvl idx)
          order.side
          outside
          order.price
          (append_level lvl idx order.remaining_qty)
          (is ++ idx ∷ [])
  append-level lvl [] r small = absurd (omega (arith, r.occupied, r.counted))
  append-level lvl (i ∷ is) r small =
      append-behind s order idx ne outside free word lvl i is r (omega (arith, r.counted))

  -- The side of the order: the level at its price gets the slot, the others stay.
  pub append-side :
      (l : Levels) (c : Chains)
      → SideRep s order.side (idx ∷ outside) l c
      → Ordered order.side l
      → resting l + 1 < 2 ^ 32
      → SideRep
          (link_slot (update s idx order) (level_at order.price l) idx)
          order.side
          outside
          (put
            (before order.side)
            order.price
            (append_level (level_at order.price l) idx order.remaining_qty)
            l)
          (put (before order.side) order.price (chain_at order.price c ++ idx ∷ []) c)
  append-side l c h o small = elim (SideRep-lookup s order.side (idx ∷ outside) order.price l c h) [
    | inl (e, f) ↦
        rw (level_at, chain_at, e, f)
          (SideRep-put _ order.side outside order.price _ (idx ∷ []) l c o
            (SideRep-but s _ order.side (idx ∷ outside) outside order.price l c
              (λ p j n m. (
                same_of-eq s (link_slot (update s idx order) default_level idx) j
                    (first-other j (λ e'. ground arith)),
                ground arith,
              ))
              h)
            (append-first s order idx ne outside free word))
    | inr (lvl, is, e, f, r) ↦
        rw (level_at, chain_at, e, f)
          (SideRep-put _ order.side outside order.price _ (is ++ idx ∷ []) l c o
            (SideRep-but s _ order.side (idx ∷ outside) outside order.price l c
              (λ p j n m. append-other lvl is order.side p j r (inl n) m) h)
            (append-level lvl is r
              (omega (arith, rw (level_at, e) at (count-le-resting order.price l)))))
  ]

  -- The other side stays.
  pub append-other-side :
      (side : Side) (l l' : Levels) (c c' : Chains)
      → side ≢ order.side
      → SideRep s order.side (idx ∷ outside) l c
      → SideRep s side (idx ∷ outside) l' c'
      → SideRep (link_slot (update s idx order) (level_at order.price l) idx) side outside l' c'
  append-other-side side l l' c c' away h k =
      elim (SideRep-lookup s order.side (idx ∷ outside) order.price l c h) [
        | inl (e, f) ↦
            rw (level_at, e)
              (SideRep-frame s _ side (idx ∷ outside) outside l' c'
                (λ p j m. (
                  same_of-eq s (link_slot (update s idx order) default_level idx) j
                      (first-other j (λ e'. ground arith)),
                  ground arith,
                ))
                k)
        | inr (lvl, is, e, f, r) ↦
            rw (level_at, e)
              (SideRep-frame s _ side (idx ∷ outside) outside l' c'
                (λ p j m. append-other lvl is side p j r (inr away) m) k)
      ]
