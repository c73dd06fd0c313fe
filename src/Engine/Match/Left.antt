-- ===== src/Engine/Match/Left.antt =====
-- What the match loops of src/matching_engine.cpp leave on the other side when they end.
use nebula_x.Base.{
  ℕ, ◌<◌, ◌≡◌, ◌≢◌, sym, ◌∙◌, ◌⊎◌, inl, inr, true, none, some, List, [], ◌∷◌, ◌++◌, arith, ◌==◌,
  ◌&&◌, not, has, has-append, Bool-cases, Option-cases, eq_of_==,
}
use nebula_x.Order.{Order, Side, buy, sell, invalid}
use nebula_x.Book.{Store, Levels, slot, levels, opposite, past, get_best}
use nebula_x.Book.Rep.{SideRep, Chains, Keys, Ordered, Member-of}
use nebula_x.Book.AddOrder.{IsSide}
use nebula_x.Book.Invariant.{View, StoreRep, chains}
use nebula_x.Book.RemoveOrder.{side-rep}
use nebula_x.Book.Best.{
  queue, first_other, first_other-append, first_other-has, get_best-first, side-Ordered,
}
use nebula_x.Book.Quote.{past-before, Keys-imp}

-- A price with which an order of this side and limit must not trade.
abbrev pub Beyond : Side → ℕ → ℕ → Type 0
Beyond buy limit price = limit < price
Beyond sell limit price = price < limit
Beyond invalid limit price = ⊥

past-Beyond :
    (side : Side) (limit price : ℕ)
    → IsSide side
    → past side limit price ≡ true
    → Beyond side limit price
past-Beyond buy limit price h e = ground arith
past-Beyond sell limit price h e = ground arith
past-Beyond invalid limit price (inl h) e = absurd cc
past-Beyond invalid limit price (inr h) e = absurd cc

-- No slot of a list can trade: each is the user's own, or its price is past the limit.
abbrev pub Closed : Side → ℕ → ℕ → (ℕ → Order) → List ℕ → Type 0
Closed side limit user s is =
    (i : ℕ)
    → has i is ≡ true
    → ((user ≢ 0) × ((s i).user_id ≡ user)) ⊎ (past side limit (s i).price ≡ true)

Closed-append :
    (side : Side) (limit user : ℕ) (s : ℕ → Order) (xs ys : List ℕ)
    → Closed side limit user s xs
    → Closed side limit user s ys
    → Closed side limit user s (xs ++ ys)
Closed-append side limit user s xs ys a b i e = elim (Bool-cases (has i xs)) [
  | inl x ↦ a i x
  | inr n ↦ b i (ground (arith, e, has-append i xs ys))
]

first_other-Closed :
    (side : Side) (limit user : ℕ) (s : ℕ → Order) (is : List ℕ)
    → first_other user s is ≡ none
    → Closed side limit user s is
unfolding first_other
first_other-Closed side limit user s [] h i e = absurd cc
first_other-Closed side limit user s (j ∷ is) h i e =
    elim (Bool-cases (not (user == 0) && ((s j).user_id == user))) [
      | inl own ↦ elim (Bool-cases (i == j)) [
        | inl z ↦ inl (ground (arith, own), rw (eq_of_== i j z) (ground (arith, own)))
        | inr z ↦ first_other-Closed side limit user s is (rw own at h) i (ground (arith, e, z))
      ]
      | inr n ↦ absurd (found (rw n at h))
    ]
  where
    found : some j ≡ none → ⊥
    found q = absurd cc

-- The slots of levels that are all past the limit.
past-Closed :
    (side sd : Side) (limit user : ℕ) (s : ℕ → Order) (outside : List ℕ) (l : Levels) (c : Chains)
    → SideRep s sd outside l c
    → Keys (λ q. past side limit q ≡ true) l
    → Closed side limit user s (queue c)
past-Closed side sd limit user s outside [] [] h k = λ i e. absurd cc
past-Closed side sd limit user s outside [] (_ ∷ _) h k = absurd h
past-Closed side sd limit user s outside (_ ∷ _) [] h k = absurd h
past-Closed side sd limit user s outside ((p, lvl) ∷ l) ((q, is) ∷ c) h k =
    Closed-append side limit user s is (queue c)
      (λ i e. inr (rw (Member-of s sd outside p is i h.1.members e).0 k.0))
      (past-Closed side sd limit user s outside l c h.2 k.1)

-- Behind the first slot of another user, where that one is past the limit, all are.
queue-Closed :
    (side : Side) (limit user j : ℕ) (s : ℕ → Order) (outside : List ℕ) (l : Levels) (c : Chains)
    → SideRep s (opposite side) outside l c
    → Ordered (opposite side) l
    → first_other user s (queue c) ≡ some j
    → past side limit (s j).price ≡ true
    → Closed side limit user s (queue c)
queue-Closed side limit user j s outside [] [] h o first b = λ i e. absurd cc
queue-Closed side limit user j s outside [] (_ ∷ _) h o first b = absurd h
queue-Closed side limit user j s outside (_ ∷ _) [] h o first b = absurd h
queue-Closed side limit user j s outside ((p, lvl) ∷ l) ((q, is) ∷ c) h o first b =
    let split = sym (first_other-append user s is (queue c)) ∙ first in
    elim (Option-cases (first_other user s is)) [
      | inl z ↦
          Closed-append side limit user s is (queue c) (first_other-Closed side limit user s is z)
            (queue-Closed side limit user j s outside l c h.2 o.1 (rw z at split) b)
      | inr (k, z) ↦
          let same : some k ≡ some j = rw z at split in
          let here =
            (Member-of s (opposite side) outside p is k h.1.members
              (first_other-has user s is k z).0).0 in
          let over : past side limit p ≡ true = rw (← here, one same) b in
          past-Closed side (opposite side) limit user s outside ((p, lvl) ∷ l) ((q, is) ∷ c) h
            (over, Keys-imp l o.0 (λ r. past-before side limit p r over))
    ]
  where
    one : {k : ℕ} → some k ≡ some j → k ≡ j
    one e = cc

-- What rests on a side when an order must not trade with any of it.
pub get_best-Closed :
    (st : Store) (v : View) (free others : List ℕ) (side : Side) (limit user : ℕ)
    → StoreRep st v free others
    → IsSide (opposite side)
    → ((j : ℕ)
        → get_best (opposite side) st user ≡ some j
        → past side limit (slot st j).price ≡ true)
    → Closed side limit user st.pool.storage (queue (chains (opposite side) v))
get_best-Closed st v free others side limit user r valid stops =
    let first = get_best-first st v free others (opposite side) user r valid in
    let q = queue (chains (opposite side) v) in
    elim (Option-cases (first_other user st.pool.storage q)) [
      | inl z ↦ first_other-Closed side limit user st.pool.storage q z
      | inr (j, z) ↦
          queue-Closed side limit user j st.pool.storage (free ++ others)
            (levels (opposite side) st.book) (chains (opposite side) v)
            (side-rep st v free others (opposite side) r valid)
            (side-Ordered st v free others (opposite side) r valid) z (stops j (first ∙ z))
    ]

-- No order of another user is left within the order's limit; user 0 is nobody's own.
abbrev pub NoneLeft : Side → Order → (ℕ → Order) → List ℕ → Type 0
NoneLeft side order s is =
    (i : ℕ)
    → has i is ≡ true
    → ((order.user_id ≢ 0) × ((s i).user_id ≡ order.user_id)) ⊎ Beyond side order.price (s i).price

pub Closed-NoneLeft :
    (side : Side) (order : Order) (s : ℕ → Order) (is : List ℕ)
    → IsSide side
    → Closed side order.price order.user_id s is
    → NoneLeft side order s is
Closed-NoneLeft side order s is valid c i e = elim (c i e) [
  | inl own ↦ inl own
  | inr b ↦ inr (past-Beyond side order.price (s i).price valid b)
]
