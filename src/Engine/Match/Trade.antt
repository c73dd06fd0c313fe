-- ===== src/Engine/Match/Trade.antt =====
-- One round of the match loop on a book that shows a view.
use nebula_x.Base.{
  ℕ, ◌+◌, ◌%◌, ◌^◌, ◌<◌, ◌≤◌, ◌≡◌, ◌≢◌, refl, sym, ap, ◌∙◌, inl, inr, true, List, ◌∷◌, ◌++◌, arith,
  sub32, min, ◌==◌, has, length, lookup, Bool-cases, Option-cases, ==_refl, ==_ne,
}
use nebula_x.Order.{Order, Side, buy, sell, invalid, filled, partially_filled}
use nebula_x.Pool.{deallocate}
use nebula_x.Book.{
  Store, levels, slot, opposite, reduce_order_qty, lower_level, remove_slot, remove_from,
}
use nebula_x.Book.Rep.{Member, chain_at}
use nebula_x.Book.AddOrder.{IsSide}
use nebula_x.Book.Invariant.{View, StoreRep, chains, leave}
use nebula_x.Book.RemoveOrder.{locate, remove_slot-StoreRep}
use nebula_x.Book.Quantity.{Located-Member, reduce_order_qty-StoreRep, write-StoreRep}
use nebula_x.Book.Best.{queue, resting-queue}
use nebula_x.Engine.Match.{Match, settle, set_status, trade}

pub opposite-IsSide : (sd : Side) → IsSide sd → IsSide (opposite sd)
opposite-IsSide invalid (inl h) = cc
opposite-IsSide invalid (inr h) = cc
opposite-IsSide buy h = inr refl
opposite-IsSide sell h = inl refl

reduce-slot :
    (st : Store) (i amount : ℕ)
    → slot (reduce_order_qty st i amount) i ≡ record (slot st i) {
      remaining_qty = sub32 (slot st i).remaining_qty amount;
      filled_qty = ((slot st i).filled_qty + amount) % 2 ^ 32;
    }
unfolding reduce_order_qty lower_level
reduce-slot st i amount = rw (==_refl i) refl

remove-capacity : (st : Store) (i : ℕ) → (remove_slot st i).pool.capacity ≡ st.pool.capacity
unfolding remove_slot remove_from deallocate
remove-capacity st i =
    elim (Option-cases (lookup (slot st i).price (levels (slot st i).side st.book))) [
      | inl e ↦ rw (remove_slot, e) refl
      | inr (lvl, e) ↦ rw (remove_slot, e) refl
    ]

-- The orders of both sides and of the other books, and the free slots, fill the pool.
pub rests :
    (st : Store) (v : View) (free others : List ℕ)
    → StoreRep st v free others
    → length (queue v.bids) + length (queue v.asks) + length others + length free ≡ st.pool.capacity
rests st v free others r = omega (
  arith,
  resting-queue _ _ _ _ _ r.bids,
  resting-queue _ _ _ _ _ r.asks,
  r.counted,
  r.pool.counted,
)

settle-part :
    (st : Store) (v : View) (free others : List ℕ) (i : ℕ)
    → StoreRep st v free others
    → (slot st i).remaining_qty ≢ 0
    → StoreRep (settle st i) v free others
unfolding settle
settle-part st v free others i r n = rw (==_ne (slot st i).remaining_qty 0 n) (
    write-StoreRep st v free others i (record (slot st i) { status = partially_filled }) r
      (record {
        prev = refl;
        next = refl;
        price = refl;
        side = refl;
        free = refl;
        left = omega arith;
      }))

settle-whole :
    (st : Store) (v : View) (free others : List ℕ) (sd : Side) (p i : ℕ)
    → StoreRep st v free others
    → IsSide sd
    → has i (chain_at p (chains sd v)) ≡ true
    → (slot st i).remaining_qty ≡ 0
    → StoreRep (settle st i) (leave sd p i v) (i ∷ free) others
unfolding settle
settle-whole st v free others sd p i r h there e =
    let zero_left : ((slot st i).remaining_qty == 0) ≡ true = rw e refl in
    rw zero_left (
      remove_slot-StoreRep _ v free others sd p i
        (write-StoreRep st v free others i (record (slot st i) { status = filled }) r
          (record {
            prev = refl;
            next = refl;
            price = refl;
            side = refl;
            free = refl;
            left = omega arith;
          }))
        h there)

module _ (side : Side) (loc : ℕ) (m : Match) (v : View) (free others : List ℕ) (i : ℕ)
    (r : StoreRep m.store v free others) (valid : IsSide side)
    (there : has i (chain_at (slot m.store i).price (chains (opposite side) v)) ≡ true) where
  abbrev qty : ℕ
  qty = min m.order.remaining_qty (slot m.store i).remaining_qty

  mine : Member m.store.pool.storage (opposite side) (free ++ others) (slot m.store i).price i
  mine = Located-Member m.store v (free ++ others) (opposite side) (slot m.store i).price i (
      locate m.store v free others (opposite side) (slot m.store i).price i r
        (opposite-IsSide side valid) there)

  reduced : StoreRep (reduce_order_qty m.store i qty) v free others
  reduced =
      reduce_order_qty-StoreRep m.store v free others (opposite side) (slot m.store i).price i qty r
        (opposite-IsSide side valid) there (omega arith)

  -- The incoming order takes a part of the resting one, which keeps its place.
  pub trade-part :
      m.order.remaining_qty < (slot m.store i).remaining_qty
      → StoreRep (trade side loc i m).store v free others
        × ((trade side loc i m).order.remaining_qty ≡ 0)
  unfolding trade
  trade-part lt = (
    settle-part (reduce_order_qty m.store i qty) v free others i reduced (λ e. omega (
      arith,
      lt,
      mine.3,
      sym (ap (λ (o : Order). o.remaining_qty) (reduce-slot m.store i qty)) ∙ e,
    )),
    omega (arith, lt),
  )

  -- The incoming order takes all of the resting one, which leaves.
  pub trade-whole :
      (slot m.store i).remaining_qty ≤ m.order.remaining_qty
      → StoreRep
          (trade side loc i m).store
          (leave (opposite side) (slot m.store i).price i v)
          (i ∷ free)
          others
  unfolding trade
  trade-whole le =
      settle-whole (reduce_order_qty m.store i qty) v free others (opposite side)
        (slot m.store i).price i reduced (opposite-IsSide side valid) there
        (ap (λ (o : Order). o.remaining_qty) (reduce-slot m.store i qty)
          ∙ omega (arith, le, mine.3))

reduce-capacity :
    (st : Store) (j amount : ℕ) → (reduce_order_qty st j amount).pool.capacity ≡ st.pool.capacity
unfolding reduce_order_qty lower_level
reduce-capacity st j amount = refl

settle-capacity : (st : Store) (j : ℕ) → (settle st j).pool.capacity ≡ st.pool.capacity
unfolding settle
settle-capacity st j = elim (Bool-cases ((slot st j).remaining_qty == 0)) [
  | inl e ↦ rw e (remove-capacity (set_status st j (record (slot st j) { status = filled })) j)
  | inr n ↦ rw n refl
]

pub trade-capacity :
    (side : Side) (loc i : ℕ) (m : Match)
    → (trade side loc i m).store.pool.capacity ≡ m.store.pool.capacity
unfolding trade
trade-capacity side loc i m =
    let qty = min m.order.remaining_qty (slot m.store i).remaining_qty in
    settle-capacity (reduce_order_qty m.store i qty) i ∙ reduce-capacity m.store i qty
