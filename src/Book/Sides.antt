-- ===== src/Book/Sides.antt =====
-- A side's map and its chains under the map operations: the same `put` and `erase` on both keep
-- them in step, and keep the keys in order.
use nebula_x.Base.{
  ℕ, ◌+◌, ◌≤◌, ◌≡◌, ◌≢◌, refl, sym, ◌∙◌, ◌⊎◌, true, false, none, some, List, [], ◌∷◌, arith, ◌==◌,
  has, lookup, put, erase, Bool-cases, inl, inr, ==_ne, eq_of_==, ne_of_==,
}
use nebula_x.Order.{Order, Side, buy, sell, invalid}
use nebula_x.Book.{PriceLevel, Levels, before, default_level, level_at, resting}
use nebula_x.Book.Rep.{
  LevelRep, LevelRep-frame, SideBut, SideRep, Chains, Keys, Ordered, Member, SameAt,
}

before-ne : (side : Side) (p q : ℕ) → before side p q ≡ true → p ≢ q
before-ne buy p q h e = ground arith
before-ne sell p q h e = ground arith
before-ne invalid p q h e = ground arith

before_trans :
    (side : Side) (p q r : ℕ)
    → before side p q ≡ true
    → before side q r ≡ true
    → before side p r ≡ true
before_trans buy p q r h k = ground arith
before_trans sell p q r h k = ground arith
before_trans invalid p q r h k = ground arith

before-total :
    (side : Side) (p q : ℕ) → (q == p) ≡ false → before side p q ≡ false → before side q p ≡ true
before-total buy p q h k = ground arith
before-total sell p q h k = ground arith
before-total invalid p q h k = ground arith

module _ {ℓ} {V : Type ℓ} where
  Keys-map : (P Q : ℕ → Type 0) (m : List (ℕ × V)) → ((j : ℕ) → P j → Q j) → Keys P m → Keys Q m
  Keys-map P Q [] f h = tt
  Keys-map P Q ((k, v) ∷ m) f h = (f k h.0, Keys-map P Q m f h.1)

  Keys-put :
      (P : ℕ → Type 0) (side : Side) (k : ℕ) (v : V) (m : List (ℕ × V))
      → P k
      → Keys P m
      → Keys P (put (before side) k v m)
  unfolding put
  Keys-put P side k v [] p h = (p, tt)
  Keys-put P side k v ((j, w) ∷ m) p h = elim (Bool-cases (j == k)) [
    | inl e ↦ rw e (p, h.1)
    | inr ne ↦ elim (Bool-cases (before side k j)) [
      | inl b ↦ rw (ne, b) (p, h)
      | inr nb ↦ rw (ne, nb) (h.0, Keys-put P side k v m p h.1)
    ]
  ]

  Keys-erase : (P : ℕ → Type 0) (k : ℕ) (m : List (ℕ × V)) → Keys P m → Keys P (erase k m)
  unfolding erase
  Keys-erase P k [] h = tt
  Keys-erase P k ((j, w) ∷ m) h = elim (Bool-cases (j == k)) [
    | inl e ↦ rw e (Keys-erase P k m h.1)
    | inr ne ↦ rw ne (h.0, Keys-erase P k m h.1)
  ]

  pub Ordered-put :
      (side : Side) (k : ℕ) (v : V) (m : List (ℕ × V))
      → Ordered side m
      → Ordered side (put (before side) k v m)
  unfolding put
  Ordered-put side k v [] h = (tt, tt)
  Ordered-put side k v ((j, w) ∷ m) h = elim (Bool-cases (j == k)) [
    | inl e ↦ let same : j ≡ k = eq_of_== j k e in rw (e, ← same) h
    | inr ne ↦ elim (Bool-cases (before side k j)) [
      | inl b ↦
          rw (ne, b)
            (
              (b, Keys-map _ (λ i. before side k i ≡ true) m (λ i. before_trans side k j i b) h.0),
              h,
            )
      | inr nb ↦
          rw (ne, nb)
            (
              Keys-put (λ i. before side j i ≡ true) side k v m (before-total side k j ne nb) h.0,
              Ordered-put side k v m h.1,
            )
    ]
  ]

  pub Ordered-erase :
      (side : Side) (k : ℕ) (m : List (ℕ × V)) → Ordered side m → Ordered side (erase k m)
  unfolding erase
  Ordered-erase side k [] h = tt
  Ordered-erase side k ((j, w) ∷ m) h = elim (Bool-cases (j == k)) [
    | inl e ↦ rw e (Ordered-erase side k m h.1)
    | inr ne ↦ rw ne (Keys-erase (λ i. before side j i ≡ true) k m h.0, Ordered-erase side k m h.1)
  ]

-- A change that spares the slots of every other price leaves those levels as they were.
pub SideRep-but :
    (s t : ℕ → Order) (side : Side) (outside outside' : List ℕ) (k : ℕ) (l : Levels) (c : Chains)
    → ((p j : ℕ) → p ≢ k → Member s side outside p j → SameAt s t j × (has j outside' ≡ false))
    → SideRep s side outside l c
    → SideBut t side outside' k l c
SideRep-but s t side outside outside' k [] [] same h = tt
SideRep-but s t side outside outside' k [] (_ ∷ _) same h = h
SideRep-but s t side outside outside' k (_ ∷ _) [] same h = h
SideRep-but s t side outside outside' k ((p, lvl) ∷ l) ((q, is) ∷ c) same h = (
  h.0,
  (λ ne. LevelRep-frame s t side outside outside' p lvl is (λ j. same p j ne) h.1),
  SideRep-but s t side outside outside' k l c same h.2,
)

-- The same where it spares every slot of the side.
pub SideRep-frame :
    (s t : ℕ → Order) (side : Side) (outside outside' : List ℕ) (l : Levels) (c : Chains)
    → ((p j : ℕ) → Member s side outside p j → SameAt s t j × (has j outside' ≡ false))
    → SideRep s side outside l c
    → SideRep t side outside' l c
SideRep-frame s t side outside outside' [] [] same h = tt
SideRep-frame s t side outside outside' [] (_ ∷ _) same h = h
SideRep-frame s t side outside outside' (_ ∷ _) [] same h = h
SideRep-frame s t side outside outside' ((p, lvl) ∷ l) ((q, is) ∷ c) same h = (
  h.0,
  LevelRep-frame s t side outside outside' p lvl is (same p) h.1,
  SideRep-frame s t side outside outside' l c same h.2,
)

module _ (s : ℕ → Order) (side : Side) (outside : List ℕ) (k : ℕ) where
  pub SideBut-all :
      (l : Levels) (c : Chains)
      → Keys (λ j. j ≢ k) l
      → SideBut s side outside k l c
      → SideRep s side outside l c
  SideBut-all [] [] o h = tt
  SideBut-all [] (_ ∷ _) o h = h
  SideBut-all (_ ∷ _) [] o h = h
  SideBut-all ((p, lvl) ∷ l) ((q, is) ∷ c) o h = (h.0, h.1 o.0, SideBut-all l c o.1 h.2)

  pub SideRep-put :
      (lvl : PriceLevel) (is : List ℕ) (l : Levels) (c : Chains)
      → Ordered side l
      → SideBut s side outside k l c
      → LevelRep s side outside k lvl is
      → SideRep s side outside (put (before side) k lvl l) (put (before side) k is c)
  unfolding put
  SideRep-put lvl is [] [] o h r = (refl, r, tt)
  SideRep-put lvl is [] (_ ∷ _) o h r = absurd h
  SideRep-put lvl is (_ ∷ _) [] o h r = absurd h
  SideRep-put lvl is ((p, v) ∷ l) ((q, js) ∷ c) o h r = elim (Bool-cases (p == k)) [
    | inl e ↦
        let same : p ≡ k = eq_of_== p k e in
        rw (← h.0, e)
          (
            refl,
            r,
            SideBut-all l c
                (Keys-map (λ j. before side p j ≡ true) (λ j. j ≢ k) l
                  (λ j b q. before-ne side p j b (same ∙ sym q)) o.0)
                h.2,
          )
    | inr ne ↦ elim (Bool-cases (before side k p)) [
      | inl b ↦
          rw (← h.0, ne, b)
            (
              refl,
              r,
              (
                refl,
                h.1 (ne_of_== p k ne),
                SideBut-all l c
                    (Keys-map (λ j. before side p j ≡ true) (λ j. j ≢ k) l
                      (λ j b' q. before-ne side k j (before_trans side k p j b b') (sym q)) o.0)
                    h.2,
              ),
            )
      | inr nb ↦ rw (← h.0, ne, nb) (refl, h.1 (ne_of_== p k ne), SideRep-put lvl is l c o.1 h.2 r)
    ]
  ]

  pub SideRep-erase :
      (l : Levels) (c : Chains)
      → SideBut s side outside k l c
      → SideRep s side outside (erase k l) (erase k c)
  unfolding erase
  SideRep-erase [] [] h = tt
  SideRep-erase [] (_ ∷ _) h = absurd h
  SideRep-erase (_ ∷ _) [] h = absurd h
  SideRep-erase ((p, v) ∷ l) ((q, js) ∷ c) h = elim (Bool-cases (p == k)) [
    | inl e ↦ rw (← h.0, e) (SideRep-erase l c h.2)
    | inr ne ↦ rw (← h.0, ne) (refl, h.1 (ne_of_== p k ne), SideRep-erase l c h.2)
  ]

  -- The level at a price and the chain at that price: both are there, or neither.
  pub SideRep-lookup :
      (l : Levels) (c : Chains)
      → SideRep s side outside l c
      → ((lookup k l ≡ none) × (lookup k c ≡ none))
        ⊎ ((lvl : PriceLevel) × (is : List ℕ) × (lookup k l ≡ some lvl)
            × (lookup k c ≡ some is)
            × LevelRep s side outside k lvl is)
  unfolding lookup
  SideRep-lookup [] [] h = inl (refl, refl)
  SideRep-lookup [] (_ ∷ _) h = absurd h
  SideRep-lookup (_ ∷ _) [] h = absurd h
  SideRep-lookup ((p, v) ∷ l) ((q, js) ∷ c) h = elim (Bool-cases (p == k)) [
    | inl e ↦
        let same : p ≡ k = eq_of_== p k e in rw (← h.0, e) (inr (v, js, refl, refl, rw same at h.1))
    | inr ne ↦ rw (← h.0, ne) (SideRep-lookup l c h.2)
  ]

-- A price that no key has is not found.
pub lookup-absent {ℓ} :
    {V : Type ℓ} (k : ℕ) (m : List (ℕ × V)) → Keys (λ j. j ≢ k) m → lookup k m ≡ none
unfolding lookup
lookup-absent k [] h = refl
lookup-absent k ((j, v) ∷ m) h = rw (==_ne j k h.0) (lookup-absent k m h.1)

erase-absent {ℓ} : {V : Type ℓ} (k : ℕ) (m : List (ℕ × V)) → Keys (λ j. j ≢ k) m → erase k m ≡ m
unfolding erase
erase-absent k [] h = refl
erase-absent k ((j, v) ∷ m) h = rw (==_ne j k h.0, erase-absent k m h.1)

pub Keys-after {ℓ} :
    {V : Type ℓ} (side : Side) (k p : ℕ) (l : List (ℕ × V))
    → p ≡ k
    → Keys (λ j. before side p j ≡ true) l
    → Keys (λ j. j ≢ k) l
Keys-after side k p l e h = Keys-map _ (λ j. j ≢ k) l (λ j b q. before-ne side p j b (e ∙ sym q)) h

pub Keys-past :
    (side : Side) (k p : ℕ) (l : Levels)
    → before side k p ≡ true
    → Keys (λ j. before side p j ≡ true) l
    → Keys (λ j. j ≢ k) l
Keys-past side k p l b h =
    Keys-map _ (λ j. j ≢ k) l (λ j b' q. before-ne side k j (before_trans side k p j b b') (sym q))
      h

level_at-hit :
    (k p : ℕ) (w : PriceLevel) (l : Levels) → (p == k) ≡ true → level_at k ((p, w) ∷ l) ≡ w
unfolding lookup
level_at-hit k p w l e = rw (e, level_at)

level_at-miss :
    (k p : ℕ) (w : PriceLevel) (l : Levels)
    → (p == k) ≡ false
    → level_at k ((p, w) ∷ l) ≡ level_at k l
unfolding lookup
level_at-miss k p w l e = rw (e, level_at)

level_at-absent : (k : ℕ) (l : Levels) → Keys (λ j. j ≢ k) l → level_at k l ≡ default_level
level_at-absent k l h = rw (lookup-absent k l h, level_at)

-- The number of orders on a side, when one level is written or goes.
pub resting-put :
    (side : Side) (k : ℕ) (v : PriceLevel) (l : Levels)
    → Ordered side l
    → resting (put (before side) k v l) + (level_at k l).count ≡ resting l + v.count
unfolding put lookup
resting-put side k v [] o = omega arith
resting-put side k v ((p, w) ∷ l) o = elim (Bool-cases (p == k)) [
  | inl e ↦ rw (level_at-hit k p w l e, e) (omega arith)
  | inr ne ↦ elim (Bool-cases (before side k p)) [
    | inl b ↦
        rw (level_at-miss k p w l ne, level_at-absent k l (Keys-past side k p l b o.0), ne, b)
          (omega arith)
    | inr nb ↦ rw (level_at-miss k p w l ne, ne, nb) (omega (arith, resting-put side k v l o.1))
  ]
]

pub resting-erase :
    (side : Side) (k : ℕ) (l : Levels)
    → Ordered side l
    → resting (erase k l) + (level_at k l).count ≡ resting l
unfolding erase lookup
resting-erase side k [] o = omega arith
resting-erase side k ((p, w) ∷ l) o = elim (Bool-cases (p == k)) [
  | inl e ↦
      rw (level_at-hit k p w l e, e, erase-absent k l (Keys-after side k p l (eq_of_== p k e) o.0))
        (omega arith)
  | inr ne ↦ rw (level_at-miss k p w l ne, ne) (omega (arith, resting-erase side k l o.1))
]

pub count-le-resting : (k : ℕ) (l : Levels) → (level_at k l).count ≤ resting l
unfolding lookup
count-le-resting k [] = omega arith
count-le-resting k ((p, w) ∷ l) = elim (Bool-cases (p == k)) [
  | inl e ↦ rw (level_at-hit k p w l e) (omega arith)
  | inr ne ↦ rw (level_at-miss k p w l ne) (omega (arith, count-le-resting k l))
]
