-- ===== src/Engine/Match/Loop.antt =====
-- The match loop on a book that shows a view: each round keeps the invariant, and the loop ends
-- because no resting order is left to trade with, not because its rounds run out.
use nebula_x.Base.{
  ℕ, suc, zero, ◌+◌, ◌<◌, ◌≡◌, ◌∙◌, ◌≢◌, refl, ◌⊎◌, inl, inr, true, false, none, some, List, ◌∷◌,
  ◌++◌, arith, ◌==◌, has, length, ltb, Bool-cases, Option-cases, eq_of_==, ne_of_==,
}
use nebula_x.Order.{Side, buy, sell, invalid}
use nebula_x.Book.{Store, levels, resting, slot, opposite, past, get_best}
use nebula_x.Book.Rep.{chain_at}
use nebula_x.Book.AddOrder.{IsSide}
use nebula_x.Book.Invariant.{View, StoreRep, chains, leave}
use nebula_x.Book.RemoveOrder.{side-rep}
use nebula_x.Book.Best.{queue, get_best-rests, resting-queue}
use nebula_x.Engine.Match.Left.{NoneLeft, get_best-Closed, Closed-NoneLeft}
use nebula_x.Engine.Match.{Match, trade, candidate, match_loop, match_order}
use nebula_x.Engine.Match.Trade.{opposite-IsSide, rests, trade-capacity, trade-part, trade-whole}

-- A resting order that leaves makes the queue of its side one shorter.
leave-shrinks :
    (side : Side) (st st' : Store) (v : View) (free others : List ℕ) (p i : ℕ)
    → IsSide side
    → StoreRep st v free others
    → StoreRep st' (leave (opposite side) p i v) (i ∷ free) others
    → st'.pool.capacity ≡ st.pool.capacity
    → length (queue (chains (opposite side) (leave (opposite side) p i v))) + 1
      ≡ length (queue (chains (opposite side) v))
leave-shrinks invalid st st' v free others p i (inl h) r r' e = cc
leave-shrinks invalid st st' v free others p i (inr h) r r' e = cc
leave-shrinks buy st st' v free others p i h r r' e =
    omega (arith, rests st v free others r, rests st' (leave sell p i v) (i ∷ free) others r', e)
leave-shrinks sell st st' v free others p i h r r' e =
    omega (arith, rests st v free others r, rests st' (leave buy p i v) (i ∷ free) others r', e)

-- Nothing leaves the incoming order's own side.
leave-own :
    (side : Side) (v : View) (p i : ℕ)
    → IsSide side
    → chains side (leave (opposite side) p i v) ≡ chains side v
leave-own invalid v p i (inl h) = cc
leave-own invalid v p i (inr h) = cc
leave-own buy v p i h = refl
leave-own sell v p i h = refl

-- What a round of the loop leaves: the invariant, with the order filled or the queue shorter.
record Round (side : Side) (m : Match) (v : View) (others : List ℕ) : Type 0 where
  view : View
  free : List ℕ
  rep : StoreRep m.store view free others
  own : chains side view ≡ chains side v
  progress :
      (m.order.remaining_qty ≡ 0)
      ⊎ (length (queue (chains (opposite side) view)) + 1
          ≡ length (queue (chains (opposite side) v)))

trade-Round :
    (side : Side) (loc i : ℕ) (m : Match) (v : View) (free others : List ℕ)
    → StoreRep m.store v free others
    → IsSide side
    → has i (chain_at (slot m.store i).price (chains (opposite side) v)) ≡ true
    → Round side (trade side loc i m) v others
trade-Round side loc i m v free others r valid there =
    elim (Bool-cases (ltb m.order.remaining_qty (slot m.store i).remaining_qty)) [
      | inl e ↦
          let part = trade-part side loc m v free others i r valid there (ground arith) in
          record { view = v; free = free; rep = part.0; own = refl; progress = inl part.1 }
      | inr n ↦
          let whole = trade-whole side loc m v free others i r valid there (ground arith) in
          record {
            view = leave (opposite side) (slot m.store i).price i v;
            free = i ∷ free;
            rep = whole;
            own = leave-own side v (slot m.store i).price i valid;
            progress = inr (
                leave-shrinks side m.store _ v free others _ i valid r whole
                  (trade-capacity side loc i m));
          }
    ]

pub candidate-best :
    (side : Side) (m : Match) (i : ℕ)
    → candidate side m ≡ some i
    → (m.order.remaining_qty ≢ 0)
      × (get_best (opposite side) m.store m.order.user_id ≡ some i)
      × (past side m.order.price (slot m.store i).price ≡ false)
unfolding candidate
candidate-best side m i h = elim (Bool-cases (m.order.remaining_qty == 0)) [
  | inl e ↦ absurd (none-some i (rw e at h))
  | inr n ↦ elim (Option-cases (get_best (opposite side) m.store m.order.user_id)) [
    | inl e ↦ absurd (none-some i (rw (n, e) at h))
    | inr (j, e) ↦ elim (Bool-cases (past side m.order.price (slot m.store j).price)) [
      | inl b ↦ absurd (none-some i (rw (n, e, b) at h))
      | inr b ↦
          let found : some j ≡ some i = rw (n, e, b) at h in
          let same : j ≡ i = cc in
          (ne_of_== m.order.remaining_qty 0 n, rw (← same) e, rw (← same) b)
    ]
  ]
]
  where
    none-some : (j : ℕ) → none ≡ some j → ⊥
    none-some j e = absurd cc

-- Where the loop finds no candidate, the order is filled, or none that it may trade with is left.
candidate-none :
    (side : Side) (m : Match) (v : View) (free others : List ℕ)
    → StoreRep m.store v free others
    → IsSide side
    → candidate side m ≡ none
    → (m.order.remaining_qty ≡ 0)
      ⊎ NoneLeft side m.order m.store.pool.storage (queue (chains (opposite side) v))
unfolding candidate
candidate-none side m v free others r valid h = elim (Bool-cases (m.order.remaining_qty == 0)) [
  | inl e ↦ inl (eq_of_== m.order.remaining_qty 0 e)
  | inr n ↦ inr (
      Closed-NoneLeft side m.order m.store.pool.storage (queue (chains (opposite side) v)) valid (
        get_best-Closed m.store v free others side m.order.price m.order.user_id r
          (opposite-IsSide side valid)
          (λ j e. elim (Bool-cases (past side m.order.price (slot m.store j).price)) [
            | inl b ↦ b
            | inr b ↦ absurd (goes (rw (n, e, b) at h))
          ])))
]
  where
    goes : {j : ℕ} → some j ≡ none → ⊥
    goes e = absurd cc

-- The state that the loop ends in.
pub record Ended (side : Side) (m : Match) (v : View) (others : List ℕ) : Type 0 where
  pub view : View
  pub free : List ℕ
  pub rep : StoreRep m.store view free others
  pub own : chains side view ≡ chains side v
  pub nothing_left :
      (m.order.remaining_qty ≡ 0)
      ⊎ NoneLeft side m.order m.store.pool.storage (queue (chains (opposite side) view))

fewer : {a b c d f : ℕ} → (c ≡ 0) ⊎ (a + 1 ≡ b) → (d ≡ 0) ⊎ (b < suc f) → d ≢ 0 → (c ≡ 0) ⊎ (a < f)
fewer (inl e) h n = inl e
fewer (inr e) (inl z) n = absurd (n z)
fewer (inr e) (inr lt) n = inr (omega (arith, e, lt))

match_loop-Ended :
    (f : ℕ) (side : Side) (loc : ℕ) (m : Match) (v : View) (free others : List ℕ)
    → StoreRep m.store v free others
    → IsSide side
    → (m.order.remaining_qty ≡ 0) ⊎ (length (queue (chains (opposite side) v)) < f)
    → Ended side (match_loop f side loc m) v others
unfolding match_loop
match_loop-Ended zero side loc m v free others r valid (inl e) = record {
  view = v;
  free = free;
  rep = r;
  own = refl;
  nothing_left = inl e;
}
match_loop-Ended zero side loc m v free others r valid (inr lt) = absurd (omega (arith, lt))
match_loop-Ended (suc f) side loc m v free others r valid h =
    elim (Option-cases (candidate side m)) [
      | inl e ↦
          rw (match_loop, e)
            (record {
              view = v;
              free = free;
              rep = r;
              own = refl;
              nothing_left = candidate-none side m v free others r valid e;
            })
      | inr (i, e) ↦
          let best = candidate-best side m i e in
          let there =
            (get_best-rests m.store v free others (opposite side) m.order.user_id i r
              (opposite-IsSide side valid) best.1).0 in
          let next = trade-Round side loc i m v free others r valid there in
          let later =
            match_loop-Ended f side loc (trade side loc i m) next.view next.free others next.rep
              valid (fewer next.progress h best.0) in
          rw (match_loop, e)
            (record {
              view = later.view;
              free = later.free;
              rep = later.rep;
              own = later.own ∙ next.own;
              nothing_left = later.nothing_left;
            })
    ]

-- On a well-formed book, for a buy or sell order, matching ends only when the order is filled or each
-- order of the other side's queue is the user's own, which user 0 has none of, or is priced strictly
-- beyond the order's limit; the book is then still well formed, and the order's own side is as it
-- was.
pub match_order-Ended :
    (side : Side) (loc : ℕ) (m : Match) (v : View) (free others : List ℕ)
    → StoreRep m.store v free others
    → IsSide side
    → Ended side (match_order side loc m) v others
unfolding match_order
match_order-Ended side loc m v free others r valid =
    match_loop-Ended (resting (levels (opposite side) m.store.book) + 1) side loc m v free others r
      valid
      (inr (
        omega (
          arith,
          resting-queue m.store.pool.storage (opposite side) (free ++ others)
              (levels (opposite side) m.store.book) (chains (opposite side) v)
              (side-rep m.store v free others (opposite side) r (opposite-IsSide side valid)),
        )))
