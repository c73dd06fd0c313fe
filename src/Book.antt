-- ===== src/Book.antt =====
-- include/order_book.h and src/order_book.cpp: two sides of price levels over a shared pool of
-- orders and a shared index. A `Store` is a book with what its two pointers lead to. An `Order*`
-- is the index of its slot. A walk along a level is given the level's count plus one rounds.
pub mod Rep
pub mod Sides
pub mod Append
pub mod Invariant
pub mod Enqueue
pub mod AddOrder
pub mod Unlink
pub mod Freed
pub mod RemoveOrder
pub mod Lower
pub mod Quantity
pub mod Best
pub mod Quote
use nebula_x.Base.{
  ℕ, zero, suc, ◌+◌, Bool, true, false, Option, none, some, List, [], ◌∷◌, ◌++◌, nil_idx, add32,
  sub32, update, ltb, ◌==◌, if◌then◌else◌, lookup, put, erase,
}
use nebula_x.Order.{Order, Side, invalid, buy, sell}
use nebula_x.Pool.{Pool, allocate, deallocate, write_slot}
use nebula_x.OrderMap.{OrderMap, find, insert, erase_id}

pub record TopOfBook : Type 0 where
  pub bid_price : ℕ
  pub bid_volume : ℕ
  pub ask_price : ℕ
  pub ask_volume : ℕ

pub record PriceLevel : Type 0 where
  pub head_idx : ℕ
  pub tail_idx : ℕ
  pub count : ℕ
  pub total_qty : ℕ

abbrev pub default_level : PriceLevel
default_level = record { head_idx = nil_idx; tail_idx = nil_idx; count = 0; total_qty = 0 }

abbrev pub Levels : Type 0
Levels = List (ℕ × PriceLevel)

-- The number of orders on a side, by its levels' counts.
abbrev pub resting : Levels → ℕ
resting [] = 0
resting ((price, level) ∷ l) = level.count + resting l

pub record Book : Type 0 where
  pub bids : Levels
  pub asks : Levels

pub record Store : Type 0 where
  pub book : Book
  pub pool : Pool
  pub index : OrderMap

abbrev pub empty_book : Book
empty_book = record { bids = []; asks = [] }

-- `(side == Side::BUY) ? bids_ : asks_`.
abbrev pub levels : Side → Book → Levels
levels buy b = b.bids
levels _ b = b.asks

abbrev pub set_levels : Side → Levels → Book → Book
set_levels buy l b = record b { bids = l }
set_levels _ l b = record b { asks = l }

-- The order of a side's map: bids fall, asks rise.
abbrev pub before : Side → ℕ → ℕ → Bool
before buy p q = ltb q p
before _ p q = ltb p q

-- `map[price]`, where a missing level is a new one.
abbrev pub level_at : ℕ → Levels → PriceLevel
level_at price l = elim (lookup price l) [ none ↦ default_level | some v ↦ v ]

abbrev pub slot : Store → ℕ → Order
slot st i = st.pool.storage i

-- The link writes of `addOrder`: the new slot goes behind the tail of its level.
unfoldable pub link_slot : (ℕ → Order) → PriceLevel → ℕ → ℕ → Order
link_slot s level idx =
    if level.count == 0
    then update s idx (record (s idx) { prev_idx = nil_idx; next_idx = nil_idx })
    else let s1 = update s idx (record (s idx) { prev_idx = level.tail_idx; next_idx = nil_idx }) in
      update s1 level.tail_idx (record (s1 level.tail_idx) { next_idx = idx })

unfoldable pub append_level : PriceLevel → ℕ → ℕ → PriceLevel
append_level level idx qty = record {
  head_idx = if level.count == 0 then idx else level.head_idx;
  tail_idx = idx;
  count = add32 level.count 1;
  total_qty = add32 level.total_qty qty;
}

-- `addOrder` from the allocated slot on. The answer of the index is not looked at.
unfoldable pub append_order : Store → Order → ℕ → Store
unfolding link_slot append_level
append_order st order idx =
    let l = levels order.side st.book in
    let level : PriceLevel = level_at order.price l in
    record {
      book =
          set_levels order.side
            (put (before order.side) order.price (append_level level idx order.remaining_qty) l)
            st.book;
      pool = record (st.pool) { storage = link_slot (update st.pool.storage idx order) level idx };
      index = (insert st.index order.order_id idx).1;
    }

unfoldable pub add_allocated : Store → Order → Option ℕ × Pool → Bool × Store
add_allocated st order (none, p) = (false, record st { pool = p })
add_allocated st order (some idx, p) = (true, append_order (record st { pool = p }) order idx)

unfoldable pub add_order : Store → Order → Bool × Store
add_order st order = elim order.side [
  | invalid ↦ (false, st)
  | _ ↦ add_allocated st order (allocate st.pool)
]

-- Both quantity updates: the order's fields, then the level's total.
unfoldable pub lower_level : Store → ℕ → ℕ → Store
lower_level st i amount =
    let o : Order = slot st i in
    let l = levels o.side st.book in
    let level : PriceLevel = level_at o.price l in
    record st {
      book =
          set_levels o.side
            (put (before o.side) o.price (record level { total_qty = sub32 level.total_qty amount })
              l)
            st.book;
    }

unfoldable pub reduce_order_qty : Store → ℕ → ℕ → Store
unfolding lower_level
reduce_order_qty st i amount =
    let o : Order = slot st i in
    lower_level
      (record st {
        pool = write_slot st.pool i (record o {
          remaining_qty = sub32 o.remaining_qty amount;
          filled_qty = add32 o.filled_qty amount;
        });
      })
      i amount

unfoldable pub reduce_qty_cancel : Store → ℕ → ℕ → Store
unfolding lower_level
reduce_qty_cancel st i amount =
    let o : Order = slot st i in
    lower_level
      (record st {
        pool = write_slot st.pool i (record o { remaining_qty = sub32 o.remaining_qty amount });
      })
      i amount

-- The two link writes of `removeOrder`.
unfoldable pub unlink : (ℕ → Order) → ℕ → ℕ → Order
unlink s i =
    let p = (s i).prev_idx in
    let s1 = if p == nil_idx then s else update s p (record (s p) { next_idx = (s i).next_idx }) in
    let n = (s1 i).next_idx in
    if n == nil_idx then s1 else update s1 n (record (s1 n) { prev_idx = (s1 i).prev_idx })

-- The level without slot `i`, whose order is `o`.
unfoldable pub shrink_level : PriceLevel → ℕ → Order → PriceLevel
shrink_level lvl i o = record {
  head_idx = if lvl.head_idx == i then o.next_idx else lvl.head_idx;
  tail_idx = if lvl.tail_idx == i then o.prev_idx else lvl.tail_idx;
  count = sub32 lvl.count 1;
  total_qty = sub32 lvl.total_qty o.remaining_qty;
}

abbrev pub drop_or_put : Side → ℕ → PriceLevel → Levels → Levels
drop_or_put side price lvl l =
    if lvl.count == 0 then erase price l else put (before side) price lvl l

-- `removeOrder(Order*)` from the level that it found on.
unfoldable pub remove_from : Store → ℕ → PriceLevel → Store
remove_from st i lvl =
    let s = unlink st.pool.storage i in
    let o : Order = s i in
    record {
      book =
          set_levels o.side
            (drop_or_put o.side o.price (shrink_level lvl i o) (levels o.side st.book)) st.book;
      pool = deallocate (record (st.pool) { storage = s }) i;
      index = erase_id st.index o.order_id;
    }

-- `removeOrder(Order*)`: nothing happens where this book has no level at the order's price.
unfoldable pub remove_slot : Store → ℕ → Store
remove_slot st i = elim (lookup (slot st i).price (levels (slot st i).side st.book)) [
  | none ↦ st
  | some lvl ↦ remove_from st i lvl
]

-- `removeOrder(order_id, user_id)`.
unfoldable pub remove_order : Store → ℕ → ℕ → Bool × Store
remove_order st order_id user_id = elim (find st.index order_id) [
  | none ↦ (false, st)
  | some i ↦ if (slot st i).user_id == user_id then (true, remove_slot st i) else (false, st)
]

-- The first order of a level that is not the excluded user's.
unfoldable pub other_user : ℕ → (ℕ → Order) → ℕ → ℕ → Option ℕ
other_user zero s exclude idx = none
other_user (suc f) s exclude idx =
    let rest = other_user f s exclude (s idx).next_idx in
    if idx == nil_idx then none else if (s idx).user_id == exclude then rest else some idx

unfoldable pub best_other : (ℕ → Order) → ℕ → Levels → Option ℕ
unfolding other_user
best_other s exclude [] = none
best_other s exclude ((price, level) ∷ l) =
    elim (other_user (level.count + 1) s exclude level.head_idx) [
      | some i ↦ some i
      | none ↦ best_other s exclude l
    ]

unfoldable pub best_head : Levels → Option ℕ
best_head [] = none
best_head ((price, level) ∷ l) = if level.count == 0 then none else some level.head_idx

-- `getBestBid` and `getBestAsk`, with their common text.
unfoldable pub get_best : Side → Store → ℕ → Option ℕ
unfolding best_other best_head
get_best side st exclude =
    let l = levels side st.book in
    if exclude == 0 then best_head l else best_other st.pool.storage exclude l

-- The sum of what is left of a level's orders, onto a 32-bit total.
unfoldable pub level_qty : ℕ → (ℕ → Order) → ℕ → ℕ → ℕ
level_qty zero s idx total = total
level_qty (suc f) s idx total =
    let rest = level_qty f s (s idx).next_idx (add32 total (s idx).remaining_qty) in
    if idx == nil_idx then total else rest

-- The side that an order of the given side trades against.
abbrev pub opposite : Side → Side
opposite buy = sell
opposite _ = buy

-- `p > price` for a buyer, `p < price` for a seller: the price is past the limit.
abbrev pub past : Side → ℕ → ℕ → Bool
past buy price p = ltb price p
past _ price p = ltb p price

unfoldable pub available_from : Side → (ℕ → Order) → ℕ → Levels → ℕ → ℕ
unfolding level_qty
available_from side s price [] total = total
available_from side s price ((p, level) ∷ l) total =
    let rest = available_from side s price l (level_qty (level.count + 1) s level.head_idx total) in
    if past side price p then total else rest

unfoldable pub available_qty : Store → Side → ℕ → ℕ
unfolding available_from
available_qty st side price =
    available_from side st.pool.storage price (levels (opposite side) st.book) 0

abbrev pub top_of : Levels → ℕ × ℕ
top_of [] = (0, 0)
top_of ((price, level) ∷ l) = (price, level.total_qty)

unfoldable pub get_top_of_book : Book → TopOfBook
get_top_of_book b = record {
  bid_price = (top_of b.bids).0;
  bid_volume = (top_of b.bids).1;
  ask_price = (top_of b.asks).0;
  ask_volume = (top_of b.asks).1;
}

unfoldable pub find_order : Store → ℕ → Option ℕ
find_order st order_id = find st.index order_id
