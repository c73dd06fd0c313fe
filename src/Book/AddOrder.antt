-- ===== src/Book/AddOrder.antt =====
-- `addOrder` on a book that shows a view.
use nebula_x.Base.{
  ℕ, ◌+◌, ◌^◌, ◌<◌, ◌≡◌, ◌≢◌, refl, sym, ap, ◌∙◌, ◌⊎◌, inl, inr, true, false, List, [], ◌∷◌, ◌++◌,
  arith, nil_idx, u32, add64, retag, update, ◌==◌, has, has-append, All-append, put, Bool-cases,
  ==_ne, eq_of_==,
}
use nebula_x.Order.{Order, Side, buy, sell, invalid}
use nebula_x.Pool.{Pool, allocate}
use nebula_x.Pool.Free.{IsPool, Free-frame, allocate-IsPool, allocate-full, allocate-pop}
use nebula_x.Book.{
  Store, PriceLevel, Levels, before, level_at, resting, link_slot, append_level, append_order,
  add_allocated, add_order,
}
use nebula_x.Book.Rep.{chain_at, Ordered}
use nebula_x.Book.Sides.{Ordered-put, resting-put, count-le-resting}
use nebula_x.Book.Invariant.{View, StoreRep, AllSlots-put, AllSlots-at, enter}
use nebula_x.Book.Enqueue.{append-side, append-other-side}

-- The link writes leave the free list's links alone, but for the slot that was taken.
link-free :
    (s : ℕ → Order) (order : Order) (lvl : PriceLevel) (idx j : ℕ)
    → j ≢ idx
    → (link_slot (update s idx order) lvl idx j).pool_next_free ≡ (s j).pool_next_free
unfolding link_slot
link-free s order lvl idx j n = elim (Bool-cases (lvl.count == 0)) [
  | inl e ↦ rw (e, ==_ne j idx n)
  | inr e ↦ elim (Bool-cases (j == lvl.tail_idx)) [
    | inl f ↦
        let same = eq_of_== j lvl.tail_idx f in
        rw (e, f, ==_ne lvl.tail_idx idx (λ q. n (same ∙ q)))
          (ap (λ k. (s k).pool_next_free) (sym same))
    | inr f ↦ rw (e, f, ==_ne j idx n)
  ]
]

-- The state behind the allocation, for an order of a side.
abbrev taken : Store → ℕ → Pool
taken st i = record (st.pool) {
  free_head = retag st.pool.free_head (st.pool.storage i).pool_next_free;
  size = add64 st.pool.size 1;
}

-- The sides that an order can rest on.
abbrev pub IsSide : Side → Type 0
IsSide sd = (sd ≡ buy) ⊎ (sd ≡ sell)

add_order-side :
    (st : Store) (order : Order) (sd : Side)
    → IsSide sd
    → add_order st (record order { side = sd })
      ≡ add_allocated st (record order { side = sd }) (allocate st.pool)
unfolding add_order
add_order-side st order invalid (inl h) = cc
add_order-side st order invalid (inr h) = cc
add_order-side st order buy h = refl
add_order-side st order sell h = refl

-- With a slot left, the order is appended to its level.
add_order-append :
    (st : Store) (order : Order) (i : ℕ)
    → IsSide order.side
    → u32 st.pool.free_head ≡ i
    → i ≢ nil_idx
    → add_order st order ≡ (true, append_order (record st { pool = taken st i }) order i)
unfolding add_allocated
add_order-append st order i valid e n =
    add_order-side st order order.side valid ∙ rw (allocate-pop st.pool i e n)

taken-IsPool :
    (st : Store) (i : ℕ) (free : List ℕ) → IsPool st.pool (i ∷ free) → IsPool (taken st i) free
taken-IsPool st i free v =
    rw (allocate-pop st.pool i v.chain.0 (omega arith)) at (allocate-IsPool st.pool i free v).1

module _ (st : Store) (order : Order) (v : View) (i : ℕ) (free others : List ℕ)
    (r : StoreRep st v (i ∷ free) others) (word : order.remaining_qty < 2 ^ 32) where
  small : (resting st.book.bids + 1 < 2 ^ 32) × (resting st.book.asks + 1 < 2 ^ 32)
  small = omega (arith, r.pool, r.counted)

  unowned : has i (free ++ others) ≡ false
  unowned = rw (has-append i free others) (ground (arith, r.pool.distinct.0, r.apart.0))

  inner : i ≢ nil_idx
  inner = omega (arith, r.pool)

  IsPool-after :
      (lvl : PriceLevel)
      → IsPool
          (record (taken st i) { storage = link_slot (update st.pool.storage i order) lvl i })
          free
  IsPool-after lvl =
      let t = taken-IsPool st i free r.pool in
      record {
        chain =
            Free-frame st.pool.storage (link_slot (update st.pool.storage i order) lvl i)
              st.pool.capacity _ free
              (λ j m.
                link-free st.pool.storage order lvl i j (λ e. ground (arith, r.pool.distinct.0)))
              t.chain;
        distinct = t.distinct;
        small = t.small;
        counted = t.counted;
      }

resting-append :
    (sd : Side) (k idx qty : ℕ) (l : Levels)
    → Ordered sd l
    → resting l + 1 < 2 ^ 32
    → resting (put (before sd) k (append_level (level_at k l) idx qty) l) ≡ resting l + 1
unfolding append_level
resting-append sd k idx qty l o h =
    omega (arith, resting-put sd k (append_level (level_at k l) idx qty) l o, count-le-resting k l)

append-StoreRep :
    (st : Store) (order : Order) (v : View) (i : ℕ) (free others : List ℕ) (sd : Side)
    → IsSide sd
    → order.remaining_qty < 2 ^ 32
    → StoreRep st v (i ∷ free) others
    → StoreRep
        (append_order (record st { pool = taken st i }) (record order { side = sd }) i)
        (enter (record order { side = sd }) i v)
        free
        others
unfolding append_order
append-StoreRep st order v i free others invalid (inl e) word r = cc
append-StoreRep st order v i free others invalid (inr e) word r = cc
append-StoreRep st order v i free others buy h word r =
    let o : Order = record order { side = buy } in
    let lvl = level_at o.price st.book.bids in
    record {
      bids =
          append-side st.pool.storage o i (inner st o v i free others r word) (free ++ others)
            (unowned st o v i free others r word) word st.book.bids v.bids r.bids r.bids_ordered
            (small st o v i free others r word).0;
      asks =
          append-other-side st.pool.storage o i (inner st o v i free others r word) (free ++ others)
            (unowned st o v i free others r word) word sell st.book.bids st.book.asks v.bids v.asks
            (λ e. cc) r.bids r.asks;
      bids_ordered = Ordered-put buy o.price _ st.book.bids r.bids_ordered;
      asks_ordered = r.asks_ordered;
      pool = IsPool-after st o v i free others r word lvl;
      apart = r.apart.1;
      bids_within =
          AllSlots-put _ buy o.price _ v.bids
            (All-append _ (chain_at o.price v.bids) (i ∷ [])
              (AllSlots-at _ o.price v.bids r.bids_within) (r.pool.chain.1, tt))
            r.bids_within;
      asks_within = r.asks_within;
      counted = omega (
        arith,
        resting-append buy o.price i o.remaining_qty st.book.bids r.bids_ordered
            (small st o v i free others r word).0,
        r.counted,
        r.pool,
      );
    }
append-StoreRep st order v i free others sell h word r =
    let o : Order = record order { side = sell } in
    let lvl = level_at o.price st.book.asks in
    record {
      bids =
          append-other-side st.pool.storage o i (inner st o v i free others r word) (free ++ others)
            (unowned st o v i free others r word) word buy st.book.asks st.book.bids v.asks v.bids
            (λ e. cc) r.asks r.bids;
      asks =
          append-side st.pool.storage o i (inner st o v i free others r word) (free ++ others)
            (unowned st o v i free others r word) word st.book.asks v.asks r.asks r.asks_ordered
            (small st o v i free others r word).1;
      bids_ordered = r.bids_ordered;
      asks_ordered = Ordered-put sell o.price _ st.book.asks r.asks_ordered;
      pool = IsPool-after st o v i free others r word lvl;
      apart = r.apart.1;
      bids_within = r.bids_within;
      asks_within =
          AllSlots-put _ sell o.price _ v.asks
            (All-append _ (chain_at o.price v.asks) (i ∷ [])
              (AllSlots-at _ o.price v.asks r.asks_within) (r.pool.chain.1, tt))
            r.asks_within;
      counted = omega (
        arith,
        resting-append sell o.price i o.remaining_qty st.book.asks r.asks_ordered
            (small st o v i free others r word).1,
        r.counted,
        r.pool,
      );
    }

-- On a well-formed book with a slot left, adding a buy or sell order with a 32-bit remainder
-- succeeds, takes the top free slot, and puts the order behind all others of its side and price,
-- with every other queue as it was.
pub add_order-StoreRep :
    (st : Store) (order : Order) (v : View) (i : ℕ) (free others : List ℕ)
    → StoreRep st v (i ∷ free) others
    → IsSide order.side
    → order.remaining_qty < 2 ^ 32
    → ((add_order st order).0 ≡ true)
      × StoreRep (add_order st order).1 (enter order i v) free others
add_order-StoreRep st order v i free others r valid word =
    rw (add_order-append st order i valid r.pool.chain.0 (omega (arith, r.pool)))
      (refl, append-StoreRep st order v i free others order.side valid word r)

add_order_none :
    (st : Store) (order : Order) (sd : Side)
    → IsPool st.pool []
    → add_order st (record order { side = sd }) ≡ (false, st)
unfolding add_order add_allocated
add_order_none st order invalid r = refl
add_order_none st order buy r = rw (allocate-full st.pool r)
add_order_none st order sell r = rw (allocate-full st.pool r)

-- On a well-formed book with no slot left, adding fails and changes nothing.
pub add_order_full :
    (st : Store) (order : Order) (v : View) (others : List ℕ)
    → StoreRep st v [] others
    → add_order st order ≡ (false, st)
add_order_full st order v others r = add_order_none st order order.side r.pool
