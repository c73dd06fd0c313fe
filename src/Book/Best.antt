-- ===== src/Book/Best.antt =====
-- `getBestBid` and `getBestAsk` on a book that shows a view: the first order in the order of price
-- and then of arrival.
use mathlib.Core.Bool.{false≢true}
use nebula_x.Base.{
  ℕ, suc, zero, ◌+◌, ◌<◌, ◌≡◌, ◌≢◌, refl, sym, ap, ◌∙◌, ◌⊎◌, inl, inr, true, false, not, ◌&&◌,
  Option, none, some, List, [], ◌∷◌, ◌++◌, arith, nil_idx, ◌==◌, if◌then◌else◌, has, has-append,
  length, length-append, lookup, Bool-cases, ==_refl, ==_ne, eq_of_==, ne_of_==,
}
use nebula_x.Order.{Order, Side, buy, sell, invalid}
use nebula_x.Chain.{Linked}
use nebula_x.Book.{
  Store, Levels, levels, resting, slot, other_user, best_other, best_head, get_best,
}
use nebula_x.Book.Rep.{Member-of, SideRep, Chains, chain_at, Keys, Ordered, prv, nxt}
use nebula_x.Book.Sides.{lookup-absent, Keys-after}
use nebula_x.Book.AddOrder.{IsSide}
use nebula_x.Book.Invariant.{View, StoreRep, chains}
use nebula_x.Book.RemoveOrder.{side-rep}

-- All slots of a side in the order in which they trade.
abbrev pub queue : Chains → List ℕ
queue [] = []
queue ((p, is) ∷ c) = is ++ queue c

-- The first slot whose order is not the excluded user's; user 0 excludes nobody.
unfoldable pub first_other : ℕ → (ℕ → Order) → List ℕ → Option ℕ
first_other exclude s [] = none
first_other exclude s (i ∷ is) =
    if not (exclude == 0) && ((s i).user_id == exclude) then first_other exclude s is else some i

pub first_other-append :
    (exclude : ℕ) (s : ℕ → Order) (xs ys : List ℕ)
    → first_other exclude s (xs ++ ys)
      ≡ elim (first_other exclude s xs) [ none ↦ first_other exclude s ys | some i ↦ some i ]
unfolding first_other
first_other-append exclude s [] ys = refl
first_other-append exclude s (x ∷ xs) ys =
    elim (Bool-cases (not (exclude == 0) && ((s x).user_id == exclude))) [
      | inl e ↦ rw e (first_other-append exclude s xs ys)
      | inr n ↦ rw n refl
    ]

other_user-first :
    (f exclude : ℕ) (s : ℕ → Order) (prev cur : ℕ) (is : List ℕ) (tail : ℕ)
    → length is < f
    → exclude ≢ 0
    → Linked (prv s) (nxt s) prev cur is tail
    → other_user f s exclude cur ≡ first_other exclude s is
unfolding other_user first_other
other_user-first zero exclude s prev cur is tail lt ne h = absurd (omega (arith, lt))
other_user-first (suc f) exclude s prev cur [] tail lt ne h = rw h.0 refl
other_user-first (suc f) exclude s prev cur (i ∷ is) tail lt ne h =
    rw
      (
        h.0,
        ==_ne i nil_idx h.1,
        ==_ne exclude 0 ne,
        other_user-first f exclude s i (nxt s i) is tail (omega (arith, lt)) ne h.3,
      )
      refl

best_other-first :
    (exclude : ℕ) (s : ℕ → Order) (side : Side) (outside : List ℕ) (l : Levels) (c : Chains)
    → exclude ≢ 0
    → SideRep s side outside l c
    → best_other s exclude l ≡ first_other exclude s (queue c)
unfolding best_other first_other
best_other-first exclude s side outside [] [] ne h = refl
best_other-first exclude s side outside [] (_ ∷ _) ne h = absurd h
best_other-first exclude s side outside (_ ∷ _) [] ne h = absurd h
best_other-first exclude s side outside ((p, lvl) ∷ l) ((q, is) ∷ c) ne h =
    rw
      (
        first_other-append exclude s is (queue c),
        ← other_user-first (lvl.count + 1) exclude s nil_idx lvl.head_idx is lvl.tail_idx
            (omega (arith, h.1.counted)) ne h.1.linked,
      )
      (ap
        (λ (z : Option ℕ). elim (other_user (lvl.count + 1) s exclude lvl.head_idx) [
          | none ↦ z
          | some i ↦ some i
        ])
        (best_other-first exclude s side outside l c ne h.2))

best_head-first :
    (s : ℕ → Order) (side : Side) (outside : List ℕ) (l : Levels) (c : Chains)
    → SideRep s side outside l c
    → best_head l ≡ first_other 0 s (queue c)
unfolding best_head first_other
best_head-first s side outside [] [] h = refl
best_head-first s side outside [] (_ ∷ _) h = absurd h
best_head-first s side outside (_ ∷ _) [] h = absurd h
best_head-first s side outside ((p, lvl) ∷ l) ((q, []) ∷ c) h =
    absurd (omega (arith, h.1.counted, h.1.occupied))
best_head-first s side outside ((p, lvl) ∷ l) ((q, i ∷ is) ∷ c) h =
    rw (==_ne lvl.count 0 (omega (arith, h.1.counted)), h.1.linked.0) refl

-- On a well-formed book, the best order of a side is the first, in the order of price and then of arrival, that is not the
-- excluded user's; user 0 excludes nobody.
pub get_best-first :
    (st : Store) (v : View) (free others : List ℕ) (sd : Side) (exclude : ℕ)
    → StoreRep st v free others
    → IsSide sd
    → get_best sd st exclude ≡ first_other exclude st.pool.storage (queue (chains sd v))
unfolding get_best
get_best-first st v free others sd exclude r h = elim (Bool-cases (exclude == 0)) [
  | inl e ↦
      rw (e, eq_of_== exclude 0 e)
        (best_head-first st.pool.storage sd (free ++ others) (levels sd st.book) (chains sd v)
          (side-rep st v free others sd r h))
  | inr n ↦ rw n (
      best_other-first exclude st.pool.storage sd (free ++ others) (levels sd st.book) (chains sd v)
        (ne_of_== exclude 0 n) (side-rep st v free others sd r h))
]

pub first_other-has :
    (exclude : ℕ) (s : ℕ → Order) (is : List ℕ) (i : ℕ)
    → first_other exclude s is ≡ some i
    → (has i is ≡ true) × ((exclude ≡ 0) ⊎ ((s i).user_id ≢ exclude))
unfolding first_other
first_other-has exclude s [] i h = absurd cc
first_other-has exclude s (j ∷ is) i h =
    elim (Bool-cases (not (exclude == 0) && ((s j).user_id == exclude))) [
      | inl e ↦ let (m, n) = first_other-has exclude s is i (rw e at h) in (ground (arith, m), n)
      | inr n ↦
          let found : some j ≡ some i = rw n at h in
          let same : j ≡ i = cc in (rw (← same, ==_refl j) refl, rw (← same) (ground (arith, n)))
    ]

Keys-chains :
    (P : ℕ → Type 0) (s : ℕ → Order) (side : Side) (outside : List ℕ) (l : Levels) (c : Chains)
    → SideRep s side outside l c
    → Keys P l
    → Keys P c
Keys-chains P s side outside [] [] h k = tt
Keys-chains P s side outside [] (_ ∷ _) h k = absurd h
Keys-chains P s side outside (_ ∷ _) [] h k = absurd h
Keys-chains P s side outside ((p, lvl) ∷ l) ((q, is) ∷ c) h k =
    (rw (← h.0) k.0, Keys-chains P s side outside l c h.2 k.1)

chain_at-none : (p : ℕ) (c : Chains) (i : ℕ) → lookup p c ≡ none → has i (chain_at p c) ≡ false
chain_at-none p c i e = rw (chain_at, e) refl

-- A slot of a side's queue stands at its order's price.
pub queue-at :
    (s : ℕ → Order) (side : Side) (outside : List ℕ) (l : Levels) (c : Chains) (i : ℕ)
    → SideRep s side outside l c
    → Ordered side l
    → has i (queue c) ≡ true
    → has i (chain_at (s i).price c) ≡ true
unfolding lookup
queue-at s side outside [] [] i h o m = absurd cc
queue-at s side outside [] (_ ∷ _) i h o m = absurd h
queue-at s side outside (_ ∷ _) [] i h o m = absurd h
queue-at s side outside ((p, lvl) ∷ l) ((q, is) ∷ c) i h o m = elim (Bool-cases (has i is)) [
  | inl e ↦
      let mine = Member-of s side outside p is i h.1.members e in
      rw (chain_at, mine.0, ← h.0, ==_refl p) e
  | inr n ↦
      let later =
        queue-at s side outside l c i h.2 o.1 (ground (arith, m, has-append i is (queue c))) in
      elim (Bool-cases (q == (s i).price)) [
        | inl e ↦
            let same = eq_of_== q (s i).price e in
            let keys = Keys-chains _ s side outside l c h.2 o.0 in
            let gone =
              lookup-absent (s i).price c (Keys-after side (s i).price p c (h.0 ∙ same) keys) in
            absurd (false≢true (sym (chain_at-none (s i).price c i gone) ∙ later))
        | inr z ↦ rw (chain_at, z) later
      ]
]

pub side-Ordered :
    (st : Store) (v : View) (free others : List ℕ) (sd : Side)
    → StoreRep st v free others
    → IsSide sd
    → Ordered sd (levels sd st.book)
side-Ordered st v free others invalid r (inl h) = cc
side-Ordered st v free others invalid r (inr h) = cc
side-Ordered st v free others buy r h = r.bids_ordered
side-Ordered st v free others sell r h = r.asks_ordered

-- On a well-formed book, the best order of a side rests there at its own price, and is not the
-- excluded user's unless that user is 0.
pub get_best-rests :
    (st : Store) (v : View) (free others : List ℕ) (sd : Side) (exclude i : ℕ)
    → StoreRep st v free others
    → IsSide sd
    → get_best sd st exclude ≡ some i
    → (has i (chain_at (slot st i).price (chains sd v)) ≡ true)
      × ((exclude ≡ 0) ⊎ ((slot st i).user_id ≢ exclude))
get_best-rests st v free others sd exclude i r h e =
    let first = sym (get_best-first st v free others sd exclude r h) ∙ e in
    let (m, n) = first_other-has exclude st.pool.storage (queue (chains sd v)) i first in
    (
      queue-at st.pool.storage sd (free ++ others) (levels sd st.book) (chains sd v) i
          (side-rep st v free others sd r h) (side-Ordered st v free others sd r h) m,
      n,
    )

-- The counts of a side's levels add up to the length of its queue.
pub resting-queue :
    (s : ℕ → Order) (side : Side) (outside : List ℕ) (l : Levels) (c : Chains)
    → SideRep s side outside l c
    → resting l ≡ length (queue c)
resting-queue s side outside [] [] h = refl
resting-queue s side outside [] (_ ∷ _) h = absurd h
resting-queue s side outside (_ ∷ _) [] h = absurd h
resting-queue s side outside ((p, lvl) ∷ l) ((q, is) ∷ c) h =
    omega (arith, length-append is (queue c), h.1.counted, resting-queue s side outside l c h.2)
