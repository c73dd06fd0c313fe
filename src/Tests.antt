-- ===== src/Tests.antt =====
-- The theorems at small books: a pool of three slots, with one buyer's order resting.
pub mod Engines
pub mod Answers
pub mod Servers
pub mod Trading
pub mod Rings
use nebula_x.Base.{
  ℕ, zero, suc, ◌+◌, ◌<◌, ◌≤◌, ◌⊎◌, ◌≡◌, ◌≢◌, refl, sym, ap, ◌∙◌, inl, inr, true, false, Option,
  none, some, List, [], ◌∷◌, ◌++◌, arith, has, length, nil_idx, put, lookup,
}
use nebula_x.Order.{Order, Side, buy, sell, default_order}
use nebula_x.Pool.{Pool, allocate, deallocate}
use nebula_x.Pool.Free.{IsPool, allocate-IsPool, deallocate-IsPool}
use nebula_x.OrderMap.{
  Node, OrderMap, new_order_map, round_pow2, round_pow2_loop, ctz, thread_nodes, hash, alloc_node,
  treeify, insert, insert_linked, link_node, find, find_walk,
}
use nebula_x.Book.{
  Book, Store, empty_book, add_order, add_allocated, append_order, slot, get_best, best_other,
  other_user, link_slot, append_level, reduce_order_qty, reduce_qty_cancel, remove_slot,
}
use nebula_x.Book.Rep.{chain_at}
use nebula_x.Book.Invariant.{View, StoreRep, enter, leave, chains}
use nebula_x.Book.AddOrder.{IsSide, add_order-StoreRep}
use nebula_x.Book.Quantity.{reduce_order_qty-StoreRep, reduce_qty_cancel-StoreRep}
use nebula_x.Book.Best.{queue, first_other, get_best-first, get_best-rests}
use nebula_x.Book.RemoveOrder.{remove_slot-StoreRep}

-- Slots 0, 1 and 2 on the free stack.
abbrev pub three_slots : ℕ → Order
three_slots zero = record default_order { pool_next_free = 1 }
three_slots (suc zero) = record default_order { pool_next_free = 2 }
three_slots (suc (suc n)) = default_order

abbrev pub small_pool : Pool
small_pool = record { storage = three_slots; capacity = 3; free_head = 0; size = 0 }

small_pool-IsPool : IsPool small_pool (0 ∷ 1 ∷ 2 ∷ [])
small_pool-IsPool = record {
  chain = (refl, omega arith, (refl, omega arith, (refl, omega arith, refl)));
  distinct = (refl, (refl, (refl, tt)));
  small = omega arith;
  counted = refl;
}

abbrev pub raw_nodes : ℕ → Node
raw_nodes i = record { order_id = 0; order = 0; next_idx = nil_idx; bucket = 0 }

abbrev pub empty_store : Store
empty_store = record { book = empty_book; pool = small_pool; index = new_order_map raw_nodes 4 }

abbrev pub empty_view : View
empty_view = record { bids = []; asks = [] }

pub empty_store-StoreRep : StoreRep empty_store empty_view (0 ∷ 1 ∷ 2 ∷ []) []
empty_store-StoreRep = record {
  bids = tt;
  asks = tt;
  bids_ordered = tt;
  asks_ordered = tt;
  pool = small_pool-IsPool;
  apart = (refl, (refl, (refl, tt)));
  bids_within = tt;
  asks_within = tt;
  counted = refl;
}

-- A buyer's order for five at 100.
abbrev pub bid : Order
bid = record default_order {
  user_id = 7;
  order_id = 11;
  side = buy;
  price = 100;
  original_qty = 5;
  remaining_qty = 5;
}

abbrev pub one_bid : Store
one_bid = (add_order empty_store bid).1

abbrev pub one_view : View
one_view = enter bid 0 empty_view

add_order-StoreRep_example :
    ((add_order empty_store bid).0 ≡ true) × StoreRep one_bid one_view (1 ∷ 2 ∷ []) []
add_order-StoreRep_example =
    add_order-StoreRep empty_store bid empty_view 0 (1 ∷ 2 ∷ []) [] empty_store-StoreRep (inl refl)
      (omega arith)

pub one_bid-StoreRep : StoreRep one_bid one_view (1 ∷ 2 ∷ []) []
one_bid-StoreRep =
    (add_order-StoreRep empty_store bid empty_view 0 (1 ∷ 2 ∷ []) [] empty_store-StoreRep (inl refl)
      (omega arith)).1

pub one_bid-index : find one_bid.index 11 ≡ some 0
unfolding add_order add_allocated append_order allocate new_order_map round_pow2 round_pow2_loop ctz
    thread_nodes hash alloc_node treeify insert insert_linked link_node find find_walk
one_bid-index = refl

-- The bid rests at 100, with five left.
one_bid-there : has 0 (chain_at 100 (chains buy one_view)) ≡ true
unfolding put lookup
one_bid-there = refl

one_bid-two : 2 ≤ (slot one_bid 0).remaining_qty
unfolding add_order add_allocated append_order allocate link_slot lookup
one_bid-two = omega arith

remove_slot-StoreRep_example :
    StoreRep (remove_slot one_bid 0) (leave buy 100 0 one_view) (0 ∷ 1 ∷ 2 ∷ []) []
remove_slot-StoreRep_example =
    remove_slot-StoreRep one_bid one_view (1 ∷ 2 ∷ []) [] buy 100 0 one_bid-StoreRep (inl refl)
      one_bid-there

get_best-first_example :
    get_best buy one_bid 8 ≡ first_other 8 one_bid.pool.storage (queue (chains buy one_view))
get_best-first_example =
    get_best-first one_bid one_view (1 ∷ 2 ∷ []) [] buy 8 one_bid-StoreRep (inl refl)

one_bid-best : get_best buy one_bid 8 ≡ some 0
unfolding get_best best_other other_user add_order add_allocated append_order allocate link_slot
    append_level put lookup
one_bid-best = refl

-- The other user.
abbrev asker : ℕ
asker = 8

get_best-rests_example :
    (has 0 (chain_at (slot one_bid 0).price (chains buy one_view)) ≡ true)
    × ((asker ≡ 0) ⊎ ((slot one_bid 0).user_id ≢ asker))
get_best-rests_example =
    get_best-rests one_bid one_view (1 ∷ 2 ∷ []) [] buy asker 0 one_bid-StoreRep (inl refl)
      one_bid-best

reduce_order_qty-StoreRep_example : StoreRep (reduce_order_qty one_bid 0 2) one_view (1 ∷ 2 ∷ []) []
reduce_order_qty-StoreRep_example =
    reduce_order_qty-StoreRep one_bid one_view (1 ∷ 2 ∷ []) [] buy 100 0 2 one_bid-StoreRep
      (inl refl) one_bid-there one_bid-two

reduce_qty_cancel-StoreRep_example :
    StoreRep (reduce_qty_cancel one_bid 0 2) one_view (1 ∷ 2 ∷ []) []
reduce_qty_cancel-StoreRep_example =
    reduce_qty_cancel-StoreRep one_bid one_view (1 ∷ 2 ∷ []) [] buy 100 0 2 one_bid-StoreRep
      (inl refl) one_bid-there one_bid-two

-- A pool with no slot at all, over an empty book.

allocate-IsPool_example :
    ((allocate small_pool).0 ≡ some 0)
    × IsPool (allocate small_pool).1 (1 ∷ 2 ∷ [])
    × (0 < small_pool.capacity)
allocate-IsPool_example = allocate-IsPool small_pool 0 (1 ∷ 2 ∷ []) small_pool-IsPool

deallocate-IsPool_example : IsPool (deallocate (allocate small_pool).1 0) (0 ∷ 1 ∷ 2 ∷ [])
unfolding allocate
deallocate-IsPool_example =
    deallocate-IsPool (allocate small_pool).1 0 (1 ∷ 2 ∷ [])
      (allocate-IsPool small_pool 0 (1 ∷ 2 ∷ []) small_pool-IsPool).1 (omega arith) refl
      (omega arith)

-- Slot 0 stands where its order says.
pub one_bid-slot :
    (i : ℕ)
    → some 0 ≡ some i
    → IsSide (slot one_bid i).side
      × (has i (chain_at (slot one_bid i).price (chains (slot one_bid i).side one_view)) ≡ true)
unfolding put lookup add_order add_allocated append_order allocate link_slot
one_bid-slot i e = let same : 0 ≡ i = cc in rw (← same) (inl refl, refl)
