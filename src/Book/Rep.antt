-- ===== src/Book/Rep.antt =====
-- What the price levels stand for: each level is the list of its slots in arrival order, and a side
-- is the map from its prices to those lists, in the order of the side.
use nebula_x.Base.{
  ℕ, ◌+◌, ◌%◌, ◌^◌, ◌<◌, ◌≡◌, ◌≢◌, refl, ap, ◌∙◌, true, false, none, some, List, [], ◌∷◌, arith,
  nil_idx, ◌==◌, has, length, Distinct, All, lookup, Bool-cases, inl, inr, ==_refl, eq_of_==,
}
use nebula_x.Order.{Order, Side}
use nebula_x.Chain.{Linked, Linked-frame}
use nebula_x.Book.{PriceLevel, Levels, before}

abbrev pub prv : (ℕ → Order) → ℕ → ℕ
prv s j = (s j).prev_idx

abbrev pub nxt : (ℕ → Order) → ℕ → ℕ
nxt s j = (s j).next_idx

-- What is left of the orders in some slots, together.
abbrev pub qty_of : (ℕ → Order) → List ℕ → ℕ
qty_of s [] = 0
qty_of s (i ∷ is) = (s i).remaining_qty + qty_of s is

-- A slot of a level holds an order of the level's price and side, with a 32-bit remainder, and is
-- not among the slots that belong to others.
abbrev pub Member : (ℕ → Order) → Side → List ℕ → ℕ → ℕ → Type 0
Member s side outside price i =
    ((s i).price ≡ price)
    × ((s i).side ≡ side)
    × (has i outside ≡ false)
    × ((s i).remaining_qty < 2 ^ 32)

-- The level at `price` holds the slots `is`, first come first.
pub record LevelRep (s : ℕ → Order) (side : Side) (outside : List ℕ) (price : ℕ) (lvl : PriceLevel)
    (is : List ℕ) : Type 0 where
  pub linked : Linked (prv s) (nxt s) nil_idx lvl.head_idx is lvl.tail_idx
  pub distinct : Distinct is
  pub counted : lvl.count ≡ length is
  pub total : lvl.total_qty ≡ qty_of s is % 2 ^ 32
  pub members : All (Member s side outside price) is
  pub occupied : 0 < lvl.count

abbrev pub Chains : Type 0
Chains = List (ℕ × List ℕ)

abbrev pub chain_at : ℕ → Chains → List ℕ
chain_at p c = elim (lookup p c) [ none ↦ [] | some is ↦ is ]

-- A side's levels hold the chains, price by price, with one price left out of account.
abbrev pub SideBut : (ℕ → Order) → Side → List ℕ → ℕ → Levels → Chains → Type 0
SideBut s side outside k [] [] = Unit
SideBut s side outside k [] (_ ∷ _) = ⊥
SideBut s side outside k (_ ∷ _) [] = ⊥
SideBut s side outside k ((p, lvl) ∷ l) ((q, is) ∷ c) =
    (p ≡ q) × (p ≢ k → LevelRep s side outside p lvl is) × SideBut s side outside k l c

abbrev pub SideRep : (ℕ → Order) → Side → List ℕ → Levels → Chains → Type 0
SideRep s side outside [] [] = Unit
SideRep s side outside [] (_ ∷ _) = ⊥
SideRep s side outside (_ ∷ _) [] = ⊥
SideRep s side outside ((p, lvl) ∷ l) ((q, is) ∷ c) =
    (p ≡ q) × LevelRep s side outside p lvl is × SideRep s side outside l c

-- The keys of a map follow its comparator.
abbrev pub Keys {ℓ} : {V : Type ℓ} → (ℕ → Type 0) → List (ℕ × V) → Type 0
Keys P [] = Unit
Keys P ((k, _) ∷ m) = P k × Keys P m

abbrev pub Ordered {ℓ} : {V : Type ℓ} → Side → List (ℕ × V) → Type 0
Ordered side [] = Unit
Ordered side ((k, _) ∷ m) = Keys (λ j. before side k j ≡ true) m × Ordered side m

-- Two storages agree at a slot on all that a level depends on.
abbrev pub SameAt : (ℕ → Order) → (ℕ → Order) → ℕ → Type 0
SameAt s t j =
    ((t j).prev_idx ≡ (s j).prev_idx)
    × ((t j).next_idx ≡ (s j).next_idx)
    × ((t j).price ≡ (s j).price)
    × ((t j).side ≡ (s j).side)
    × ((t j).remaining_qty ≡ (s j).remaining_qty)

pub same_of-eq : (s t : ℕ → Order) (j : ℕ) → t j ≡ s j → SameAt s t j
same_of-eq s t j e = (
  ap (λ (o : Order). o.prev_idx) e,
  ap (λ (o : Order). o.next_idx) e,
  ap (λ (o : Order). o.price) e,
  ap (λ (o : Order). o.side) e,
  ap (λ (o : Order). o.remaining_qty) e,
)

pub qty_of-frame :
    (s t : ℕ → Order) (is : List ℕ)
    → ((j : ℕ) → has j is ≡ true → (t j).remaining_qty ≡ (s j).remaining_qty)
    → qty_of t is ≡ qty_of s is
qty_of-frame s t [] same = refl
qty_of-frame s t (i ∷ is) same =
    omega (arith, same i (rw (==_refl i)), qty_of-frame s t is (λ j m. same j (ground arith)))

pub All-Member :
    (s t : ℕ → Order) (side : Side) (outside outside' : List ℕ) (price : ℕ) (is : List ℕ)
    → ((j : ℕ) → has j is ≡ true → Member s side outside price j → Member t side outside' price j)
    → All (Member s side outside price) is
    → All (Member t side outside' price) is
All-Member s t side outside outside' price [] keep h = tt
All-Member s t side outside outside' price (i ∷ is) keep h = (
  keep i (rw (==_refl i)) h.0,
  All-Member s t side outside outside' price is (λ j m. keep j (ground arith)) h.1,
)

pub Member-of :
    (s : ℕ → Order) (side : Side) (outside : List ℕ) (price : ℕ) (is : List ℕ) (j : ℕ)
    → All (Member s side outside price) is
    → has j is ≡ true
    → Member s side outside price j
Member-of s side outside price [] j h m = absurd (ground arith)
Member-of s side outside price (i ∷ is) j h m = elim (Bool-cases (j == i)) [
  | inl e ↦ let same : j ≡ i = eq_of_== j i e in rw same h.0
  | inr ne ↦ Member-of s side outside price is j h.1 (rw ne at m)
]

-- A level does not see changes of slots that are not its own.
pub LevelRep-frame :
    (s t : ℕ → Order) (side : Side) (outside outside' : List ℕ) (price : ℕ) (lvl : PriceLevel)
    (is : List ℕ)
    → ((j : ℕ) → Member s side outside price j → SameAt s t j × (has j outside' ≡ false))
    → LevelRep s side outside price lvl is
    → LevelRep t side outside' price lvl is
LevelRep-frame s t side outside outside' price lvl is same r =
    let at =
      λ (j : ℕ) (m : has j is ≡ true). same j (Member-of s side outside price is j r.members m) in
    record {
      linked =
          Linked-frame (prv s) (nxt s) (prv t) (nxt t) nil_idx lvl.head_idx is lvl.tail_idx
            (λ j m. ((at j m).0.0, (at j m).0.1)) r.linked;
      distinct = r.distinct;
      counted = r.counted;
      total = rw (qty_of-frame s t is (λ j m. (at j m).0.4)) r.total;
      members =
          All-Member s t side outside outside' price is
            (λ j m h. (
              (at j m).0.2 ∙ h.0,
              (at j m).0.3 ∙ h.1,
              (at j m).1,
              omega (arith, (at j m).0.4, h.3),
            ))
            r.members;
      occupied = r.occupied;
    }
