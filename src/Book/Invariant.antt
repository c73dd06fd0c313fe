-- ===== src/Book/Invariant.antt =====
-- The invariant of a book over the shared pool, and the abstract book that it stands for.
use nebula_x.Base.{
  ℕ, ◌+◌, ◌<◌, ◌≡◌, lookup, ◌==◌, Bool-cases, inl, inr, if◌then◌else◌, false, List, [], ◌∷◌, ◌++◌,
  has, All, length, put, erase,
}
use nebula_x.Order.{Order, Side, buy, sell}
use nebula_x.Pool.Free.{IsPool}
use nebula_x.Book.{Store, before, resting}
use nebula_x.Book.Rep.{Chains, SideRep, Ordered, chain_at}

-- The book as its users think of it: for each side and price, the slots in order of arrival.
pub record View : Type 0 where
  pub bids : Chains
  pub asks : Chains

abbrev pub chains : Side → View → Chains
chains buy v = v.bids
chains _ v = v.asks

abbrev pub set_chains : Side → Chains → View → View
set_chains buy c v = record v { bids = c }
set_chains _ c v = record v { asks = c }

-- A predicate of every slot of a side.
abbrev pub AllSlots : (ℕ → Type 0) → Chains → Type 0
AllSlots P [] = Unit
AllSlots P ((k, is) ∷ c) = All P is × AllSlots P c

pub AllSlots-put :
    (P : ℕ → Type 0) (side : Side) (k : ℕ) (is : List ℕ) (c : Chains)
    → All P is
    → AllSlots P c
    → AllSlots P (put (before side) k is c)
unfolding put
AllSlots-put P side k is [] h a = (h, tt)
AllSlots-put P side k is ((q, js) ∷ c) h a = elim (Bool-cases (q == k)) [
  | inl e ↦ rw e (h, a.1)
  | inr ne ↦ elim (Bool-cases (before side k q)) [
    | inl b ↦ rw (ne, b) (h, a)
    | inr nb ↦ rw (ne, nb) (a.0, AllSlots-put P side k is c h a.1)
  ]
]

pub AllSlots-erase : (P : ℕ → Type 0) (k : ℕ) (c : Chains) → AllSlots P c → AllSlots P (erase k c)
unfolding erase
AllSlots-erase P k [] a = tt
AllSlots-erase P k ((q, js) ∷ c) a = elim (Bool-cases (q == k)) [
  | inl e ↦ rw e (AllSlots-erase P k c a.1)
  | inr ne ↦ rw ne (a.0, AllSlots-erase P k c a.1)
]

pub AllSlots-at : (P : ℕ → Type 0) (k : ℕ) (c : Chains) → AllSlots P c → All P (chain_at k c)
unfolding lookup
AllSlots-at P k [] a = tt
AllSlots-at P k ((q, js) ∷ c) a = elim (Bool-cases (q == k)) [
  | inl e ↦ rw (chain_at, e) a.0
  | inr ne ↦ rw (chain_at, ne) (AllSlots-at P k c a.1)
]

-- The book shows the view; its slots are apart from the free slots and from those of other books,
-- and every slot is free, the book's or another's.
pub record StoreRep (st : Store) (v : View) (free others : List ℕ) : Type 0 where
  pub bids : SideRep st.pool.storage buy (free ++ others) st.book.bids v.bids
  pub asks : SideRep st.pool.storage sell (free ++ others) st.book.asks v.asks
  pub bids_ordered : Ordered buy st.book.bids
  pub asks_ordered : Ordered sell st.book.asks
  pub pool : IsPool st.pool free
  pub apart : All (λ i. has i others ≡ false) free
  pub bids_within : AllSlots (λ i. i < st.pool.capacity) v.bids
  pub asks_within : AllSlots (λ i. i < st.pool.capacity) v.asks
  pub counted : resting st.book.bids + resting st.book.asks + length others ≡ st.pool.size

-- An order enters behind the others of its side and price.
abbrev pub enter : Order → ℕ → View → View
enter o i v =
    set_chains o.side
      (put (before o.side) o.price (chain_at o.price (chains o.side v) ++ i ∷ []) (chains o.side v))
      v

-- A list without the first occurrence of a slot.
unfoldable pub without : ℕ → List ℕ → List ℕ
without i [] = []
without i (j ∷ js) = if j == i then js else j ∷ without i js

-- A price with no slots left has no level.
abbrev pub drop_chain : Side → ℕ → List ℕ → Chains → Chains
drop_chain side p [] c = erase p c
drop_chain side p (i ∷ is) c = put (before side) p (i ∷ is) c

-- An order leaves its price, and the others keep their order.
abbrev pub leave : Side → ℕ → ℕ → View → View
leave side p i v =
    set_chains side (drop_chain side p (without i (chain_at p (chains side v))) (chains side v)) v
