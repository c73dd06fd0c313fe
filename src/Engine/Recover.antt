-- ===== src/Engine/Recover.antt =====
-- `recoverFromWal`, `recoverFromShared` and `loadSnapshot` of
-- src/matching_engine.cpp, with the snapshots of src/order_book.cpp. A file is what was read from it:
-- the entries of the log, or the orders of a snapshot.
use nebula_x.Base.{
  ℕ, zero, suc, ◌+◌, Bool, true, false, Option, none, some, List, [], ◌∷◌, ◌++◌, nil_idx, ltb, leb,
  add64, ◌==◌, if◌then◌else◌,
}
use nebula_x.Order.{
  Order, OrderStatus, buy, sell, open_, partially_filled, filled, cancelled, default_order,
}
use nebula_x.Pool.{rebuild_freelist}
use nebula_x.Book.{
  Store, Levels, slot, add_order, remove_order, remove_slot, reduce_qty_cancel, find_order,
}
use nebula_x.Wal.{WalEntry}
use nebula_x.Engine.{Engine, Env, book_for, take_out, put_back, count, pool_used}
use nebula_x.Engine.Match.{Match, match_order}

-- The order that a NEW entry stands for.
unfoldable pub replayed : WalEntry → Order
replayed entry = record default_order {
  user_id = entry.user_id;
  order_id = entry.order_id;
  side = if entry.side == 0x01 then buy else sell;
  price = entry.price;
  original_qty = entry.quantity;
  remaining_qty = entry.quantity;
  sequence = entry.wal_seq;
  status = open_;
}

abbrev pub is_live : OrderStatus → Bool
is_live open_ = true
is_live partially_filled = true
is_live _ = false

-- Matching again; the answers are thrown away.
unfoldable pub replay_new : WalEntry → Store → Env → Store × Env
unfolding replayed
replay_new entry st env =
    let order = replayed entry in
    let m : Match =
      match_order order.side entry.locate
        (record { store = st; order = order; env = env; out = [] }) in
    (if is_live m.order.status then (add_order m.store m.order).1 else m.store, m.env)

unfoldable pub replay_cancel_shares : WalEntry → Store → Store
replay_cancel_shares entry st = elim (find_order st entry.order_id) [
  | none ↦ st
  | some i ↦
      if ltb 0 entry.quantity
      then (if leb (slot st i).remaining_qty entry.quantity
          then remove_slot st i
          else reduce_qty_cancel st i entry.quantity)
      else st
]

unfoldable pub replay_replace : WalEntry → Store → Store
replay_replace entry st = elim (find_order st entry.order_id) [
  | none ↦ st
  | some i ↦ if (slot st i).user_id == entry.user_id then remove_slot st i else st
]

-- The part of the loop that looks at the type; `none` where a NEW entry is skipped, since its order
-- is known.
unfoldable pub replay_type : WalEntry → Store → Env → Option (Store × Env)
unfolding replay_new replay_cancel_shares replay_replace
replay_type entry st env =
    if entry.type == 0x01
    then elim (find_order st entry.order_id) [
      | some _ ↦ none
      | none ↦ some (replay_new entry st env)
    ]
    else if entry.type == 0x02
    then some ((remove_order st entry.order_id entry.user_id).1, env)
    else if entry.type == 0x03
    then some (replay_cancel_shares entry st, env)
    else if entry.type == 0x04
    then some (replay_replace entry st, env)
    else some (st, env)

-- The numbers go past those that were seen.
unfoldable pub pass_numbers : ℕ → ℕ → Env → Env
pass_numbers seq id env = record env {
  next_sequence = if leb env.next_sequence seq then add64 seq 1 else env.next_sequence;
  next_order_id = if leb env.next_order_id id then add64 id 1 else env.next_order_id;
}

unfoldable pub replay_entry : WalEntry → Engine → Engine
unfolding replay_type pass_numbers
replay_entry entry e = elim (book_for e entry.locate) [
  | none ↦ e
  | some b ↦ elim (replay_type entry (take_out e b) e.env) [
    | none ↦ put_back e entry.locate (take_out e b) e.env
    | some next ↦ put_back e entry.locate next.0 (pass_numbers entry.wal_seq entry.order_id next.1)
  ]
]

unfoldable pub replay_entries : List WalEntry → Engine → Engine
unfolding replay_entry
replay_entries [] e = e
replay_entries (entry ∷ entries) e = replay_entries entries (replay_entry entry e)

-- `recoverFromWal` over the entries of the log.
unfoldable pub recover_from_wal : List WalEntry → Engine → Engine
unfolding replay_entries
recover_from_wal entries e0 =
    let e = replay_entries entries e0 in record e { env = count (pool_used e.pool.size) e.env }

abbrev pub is_closed : OrderStatus → Bool
is_closed filled = true
is_closed cancelled = true
is_closed _ = false

-- One slot of `recoverFromShared`.
unfoldable pub recover_slot : ℕ → Store → Env → Store × Env
unfolding pass_numbers
recover_slot i st env =
    let o : Order = slot st i in
    let st' = (add_order st (record o { prev_idx = nil_idx; next_idx = nil_idx })).1 in
    let o' : Order = slot st' i in
    if o.order_id == 0
    then (st, env)
    else if is_closed o.status
    then (st, env)
    else (st', pass_numbers o'.sequence o'.order_id env)

unfoldable pub recover_slots : ℕ → ℕ → Store → Env → Store × Env
unfolding recover_slot
recover_slots zero i st env = (st, env)
recover_slots (suc n) i st env =
    let next = recover_slot i st env in recover_slots n (i + 1) next.0 next.1

-- `recoverFromShared`: everything goes to the book of locate 0.
unfoldable pub recover_from_shared : ℕ → Engine → Engine
unfolding recover_slots
recover_from_shared capacity e0 =
    let e : Engine = record e0 { pool = rebuild_freelist e0.pool } in
    elim (book_for e 0) [
      | none ↦ e
      | some b ↦
          let (st, env) = recover_slots capacity 0 (take_out e b) e.env in
          put_back e 0 st (count (pool_used st.pool.size) env)
    ]

-- The orders of a level, of a side and of a book, as `saveSnapshot` writes them.
unfoldable pub level_orders : ℕ → (ℕ → Order) → ℕ → List Order
level_orders zero s idx = []
level_orders (suc f) s idx =
    let rest = level_orders f s (s idx).next_idx in if idx == nil_idx then [] else s idx ∷ rest

unfoldable pub side_orders : (ℕ → Order) → Levels → List Order
unfolding level_orders
side_orders s [] = []
side_orders s ((price, level) ∷ l) =
    level_orders (level.count + 1) s level.head_idx ++ side_orders s l

unfoldable pub save_snapshot : Store → List Order
unfolding side_orders
save_snapshot st =
    side_orders st.pool.storage st.book.bids ++ side_orders st.pool.storage st.book.asks

abbrev pub larger : ℕ → ℕ → ℕ
larger a b = if ltb b a then a else b

-- `OrderBook::loadSnapshot`: the book, and the largest sequence and order number.
unfoldable pub load_orders : List Order → Store → ℕ → ℕ → Store × ℕ × ℕ
load_orders [] st max_seq max_id = (st, max_seq, max_id)
load_orders (o ∷ orders) st max_seq max_id =
    load_orders orders
      (add_order st
        (record o { prev_idx = nil_idx; next_idx = nil_idx; pool_next_free = nil_idx })).1
      (larger o.sequence max_seq) (larger o.order_id max_id)

-- `MatchingEngine::loadSnapshot`.
unfoldable pub load_snapshot : List Order → Engine → Engine
unfolding load_orders
load_snapshot orders e = elim (book_for e 0) [
  | none ↦ e
  | some b ↦
      let (st, max_seq, max_id) = load_orders orders (take_out e b) 0 0 in
      let env : Env = record (e.env) {
        next_sequence = if ltb 0 max_seq then add64 max_seq 1 else e.env.next_sequence;
        next_order_id = if ltb 0 max_id then add64 max_id 1 else e.env.next_order_id;
      } in
      put_back e 0 st (count (pool_used st.pool.size) env)
]
