-- ===== src/Book/Freed.antt =====
-- The storage behind `removeOrder`: the level without the slot, and the others as they were.
use mathlib.Core.Path.{subst}
use nebula_x.Base.{
  ℕ, suc, ◌+◌, ◌^◌, ◌<◌, ◌≡◌, ◌≢◌, sym, ap, ◌∙◌, ◌⊎◌, inl, inr, true, false, List, [], ◌∷◌, ◌++◌,
  arith, sub32, ◌==◌, has, length, length-append, Bool-cases, ==_ne, eq_of_==,
}
use nebula_x.Order.{Order, Side}
use nebula_x.Pool.{link_free}
use nebula_x.Book.{PriceLevel, Levels, level_at, resting, unlink, shrink_level, drop_or_put}
use nebula_x.Book.Rep.{LevelRep, Member, SideBut, SideRep, Chains, Ordered, SameAt, same_of-eq}
use nebula_x.Book.Sides.{
  SideRep-but, SideRep-frame, SideRep-put, SideRep-erase, resting-put, resting-erase,
}
use nebula_x.Book.Unlink.{own, unlink-level, unlink-away}
use nebula_x.Book.Invariant.{without, drop_chain}

-- A list around one of its members.
pub has-split :
    (i : ℕ) (is : List ℕ)
    → has i is ≡ true
    → (xs : List ℕ) × (ys : List ℕ) × (is ≡ xs ++ i ∷ ys) × (without i is ≡ xs ++ ys)
unfolding without
has-split i [] h = cc
has-split i (j ∷ js) h = elim (Bool-cases (j == i)) [
  | inl e ↦ ([], js, rw (eq_of_== j i e), rw e)
  | inr ne ↦ let (xs, ys, p, q) = has-split i js (ground arith) in (j ∷ xs, ys, rw p, rw (ne, q))
]

-- The storage behind `removeOrder`.
abbrev pub freed : (ℕ → Order) → ℕ → ℕ → ℕ → Order
freed s i fh = link_free (unlink s i) i fh

module _ (s : ℕ → Order) (sd : Side) (outside : List ℕ) (p : ℕ) (lvl : PriceLevel) (xs ys : List ℕ)
    (i fh : ℕ) (r : LevelRep s sd outside p lvl (xs ++ i ∷ ys)) where
  freed-away :
      (j : ℕ) (side : Side) (q : ℕ)
      → (q ≢ p) ⊎ (side ≢ sd)
      → Member s side outside q j
      → SameAt s (freed s i fh) j × (has j (i ∷ outside) ≡ false)
  freed-away j side q away h =
      let n : j ≢ i = apart away in
      (
        same_of-eq s (freed s i fh) j
            (rw (==_ne j i n) (unlink-away s sd outside p lvl xs ys i r j side q away h)),
        ground arith,
      )
    where
      apart : (q ≢ p) ⊎ (side ≢ sd) → j ≢ i
      apart (inl n) e = n (sym h.0 ∙ ap (λ k. (s k).price) e ∙ (own s sd outside p lvl xs ys i r).0)
      apart (inr n) e = n (sym h.1 ∙ ap (λ k. (s k).side) e ∙ (own s sd outside p lvl xs ys i r).1)

  others-stay :
      (l : Levels) (c : Chains)
      → SideRep s sd outside l c
      → SideBut (freed s i fh) sd (i ∷ outside) p l c
  others-stay l c h =
      SideRep-but s (freed s i fh) sd outside (i ∷ outside) p l c
        (λ q j n m. freed-away j sd q (inl n) m) h

  level-count : (zs : List ℕ) → xs ++ ys ≡ zs → lvl.count ≡ suc (length zs)
  level-count zs e =
      omega (arith, r.counted, length-append xs (i ∷ ys), length-append xs ys, ap length e)

  shrunk-level :
      (z : ℕ) (zs : List ℕ)
      → xs ++ ys ≡ z ∷ zs
      → lvl.count < 2 ^ 32
      → LevelRep (freed s i fh) sd (i ∷ outside) p (shrink_level lvl i (unlink s i i)) (z ∷ zs)
  shrunk-level z zs e word =
      subst (LevelRep (freed s i fh) sd (i ∷ outside) p (shrink_level lvl i (unlink s i i))) e (
        unlink-level s sd outside p lvl xs ys i r (freed s i fh) (i ∷ outside)
          (λ j n. rw (==_ne j i n)) (λ j n m. rw (==_ne j i n) m)
          (omega (arith, level-count (z ∷ zs) e)) word)

  -- The side of the order: its slot leaves its level, and an empty level goes.
  pub remove-side :
      (l : Levels) (c : Chains) (zs : List ℕ)
      → xs ++ ys ≡ zs
      → SideRep s sd outside l c
      → Ordered sd l
      → lvl.count < 2 ^ 32
      → SideRep
          (freed s i fh)
          sd
          (i ∷ outside)
          (drop_or_put sd p (shrink_level lvl i (unlink s i i)) l)
          (drop_chain sd p zs c)
  unfolding shrink_level
  remove-side l c [] e h o word =
      let one : (sub32 lvl.count 1 == 0) ≡ true = ground (arith, level-count [] e) in
      rw (drop_or_put, one)
        (SideRep-erase (freed s i fh) sd (i ∷ outside) p l c (others-stay l c h))
  remove-side l c (z ∷ zs) e h o word =
      let more : (sub32 lvl.count 1 == 0) ≡ false = ground (arith, level-count (z ∷ zs) e) in
      rw (drop_or_put, more)
        (SideRep-put (freed s i fh) sd (i ∷ outside) p _ (z ∷ zs) l c o (others-stay l c h)
          (shrunk-level z zs e word))

  -- The other side stays.
  pub remove-other-side :
      (side : Side) (l : Levels) (c : Chains)
      → side ≢ sd
      → SideRep s side outside l c
      → SideRep (freed s i fh) side (i ∷ outside) l c
  remove-other-side side l c n h =
      SideRep-frame s (freed s i fh) side outside (i ∷ outside) l c
        (λ q j m. freed-away j side q (inr n) m) h

  -- One order less rests on the side.
  pub resting-drop :
      (l : Levels)
      → Ordered sd l
      → level_at p l ≡ lvl
      → lvl.count < 2 ^ 32
      → resting (drop_or_put sd p (shrink_level lvl i (unlink s i i)) l) + 1 ≡ resting l
  unfolding shrink_level
  resting-drop l o e word = elim (Bool-cases (sub32 lvl.count 1 == 0)) [
    | inl f ↦
        rw (drop_or_put, f)
          (omega (
            arith,
            resting-erase sd p l o,
            ap (λ (v : PriceLevel). v.count) e,
            eq_of_== (sub32 lvl.count 1) 0 f,
            r.occupied,
          ))
    | inr f ↦
        rw (drop_or_put, f)
          (omega (
            arith,
            resting-put sd p (shrink_level lvl i (unlink s i i)) l o,
            ap (λ (v : PriceLevel). v.count) e,
            r.occupied,
          ))
  ]
