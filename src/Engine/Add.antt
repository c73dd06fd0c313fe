-- ===== src/Engine/Add.antt =====
-- `processAdd` of src/matching_engine.cpp.
pub mod Keeps
pub mod Discards
use nebula_x.Base.{
  ℕ, Bool, true, false, ◌&&◌, ◌||◌, not, Option, none, some, List, nil_idx, ltb, leb, ◌==◌,
  if◌then◌else◌, add64, u32, ◌%◌, ◌^◌,
}
use nebula_x.Order.{Order, OrderStatus, Side, invalid, buy, sell, open_, filled, default_order}
use nebula_x.Book.{Book, Store, add_order, available_qty}
use nebula_x.Protocol.{
  BinaryResponse, rsp_ok, rsp_filled, rsp_error, OrderTif, day, ioc, fok, ErrorCode, invalid_side,
  invalid_price_qty_user, invalid_command_type, pool_full, mkt_no_liquidity, fok_no_full_fill,
}
use nebula_x.Wal.{WalEntry}
use nebula_x.Engine.{
  Engine, Env, book_for, take_out, put_back, count, one_new_order, one_error, pool_used, log_entry,
  emit,
}
use nebula_x.Engine.Match.{Match, match_order}

-- `can_full_fill`: enough on the other side within the price.
unfoldable pub can_full_fill : Store → Side → ℕ → ℕ → Bool
can_full_fill st side price quantity = leb quantity (available_qty st side price)

-- The request's fields.
pub record Request : Type 0 where
  pub locate : ℕ
  pub order_ref : ℕ
  pub side : Side
  pub price : ℕ
  pub quantity : ℕ
  pub user_id : ℕ
  pub tif : OrderTif

abbrev pub is_day : OrderTif → Bool
is_day day = true
is_day _ = false

abbrev pub is_fok : OrderTif → Bool
is_fok fok = true
is_fok _ = false

abbrev pub is_ioc : OrderTif → Bool
is_ioc ioc = true
is_ioc _ = false

abbrev pub is_buy : Side → Bool
is_buy buy = true
is_buy _ = false

abbrev pub is_filled : OrderStatus → Bool
is_filled filled = true
is_filled _ = false

unfoldable pub is_market : Request → Bool
is_market r = (is_ioc r.tif || is_fok r.tif) && (r.price == 0)

-- A market order gets the price that crosses everything.
unfoldable pub effective_price : Request → ℕ
unfolding is_market
effective_price r = if is_market r then (if is_buy r.side then nil_idx else 0) else r.price

-- The checks before matching; the first that fails is the answer.
unfoldable pub reject : Request → Store → Option ErrorCode
unfolding is_market effective_price can_full_fill
reject r st = elim r.side [
  | invalid ↦ some invalid_side
  | _ ↦
      if (not (is_market r) && (r.price == 0))
        || (r.quantity == 0)
        || (r.user_id == 0)
        || (r.order_ref == 0)
      then some invalid_price_qty_user
      else if is_fok r.tif && not (can_full_fill st r.side (effective_price r) r.quantity)
      then some fok_no_full_fill
      else none
]

unfoldable pub incoming : Request → ℕ → Order
unfolding effective_price
incoming r seq = record default_order {
  user_id = r.user_id;
  order_id = r.order_ref;
  side = r.side;
  price = effective_price r;
  original_qty = r.quantity;
  remaining_qty = r.quantity;
  filled_qty = 0;
  sequence = seq;
  status = open_;
}

-- The log entry carries the sequence number after the order's own, since it is read after the
-- increment.
unfoldable pub add_entry : Request → ℕ → ℕ → WalEntry
add_entry r price seq = record {
  type = 0x01;
  side = if is_buy r.side then 0x01 else 0x02;
  locate = r.locate % 2 ^ 16;
  price = price;
  quantity = r.quantity;
  user_id = r.user_id;
  order_id = r.order_ref;
  wal_seq = seq;
}

abbrev pub fail : ErrorCode → Match → Match
fail code m = record m { out = emit (rsp_error code) m.out; env = count one_error m.env }

abbrev pub use_count : Match → ℕ
use_count m = m.store.pool.size

-- Resting the remainder of a DAY order, or of a replacement.
unfoldable pub rest_order : ℕ → Match → Match
rest_order order_ref m =
    let (done, st) = add_order m.store m.order in
    let used = count (pool_used st.pool.size) in
    if done
    then record m { store = st; out = emit (rsp_ok order_ref) m.out; env = used m.env }
    else record m {
      store = st;
      out = emit (rsp_error pool_full) m.out;
      env = used (count one_error m.env);
    }

-- What follows the matching of an order that is not filled.
unfoldable pub finish_unfilled : Request → OrderTif → Match → Match
unfolding rest_order
finish_unfilled r ioc m = if m.order.filled_qty == 0 then fail mkt_no_liquidity m else m
finish_unfilled r fok m = if ltb m.order.filled_qty r.quantity then fail fok_no_full_fill m else m
finish_unfilled r day m = rest_order r.order_ref m

-- What follows the matching.
unfoldable pub finish : Request → Match → Match
unfolding finish_unfilled
finish r m =
    if is_filled m.order.status
    then record m {
      out = emit (rsp_filled r.order_ref) m.out;
      env = count (pool_used (use_count m)) m.env;
    }
    else finish_unfilled r r.tif m

-- The state that the matching starts from.
unfoldable pub start : Request → Store → Env → List BinaryResponse → Match
unfolding incoming add_entry
start r st env out =
    let seq = env.next_sequence in
    let order = incoming r seq in
    let env' : Env = record env { next_sequence = add64 seq 1 } in
    record {
      store = st;
      order = order;
      env = log_entry (add_entry r order.price env'.next_sequence) env';
      out = out;
    }

unfoldable pub add_to : Request → Engine → Book → List BinaryResponse → Engine × List BinaryResponse
unfolding reject start finish
add_to r e b out =
    let st = take_out e b in
    elim (reject r st) [
      | some code ↦ (put_back e r.locate st (count one_error e.env), emit (rsp_error code) out)
      | none ↦
          let m = finish r (match_order r.side r.locate (start r st e.env out)) in
          (put_back e r.locate m.store m.env, m.out)
    ]

unfoldable pub process_add : Request → Engine → List BinaryResponse → Engine × List BinaryResponse
unfolding add_to book_for
process_add r e0 out =
    let e : Engine = record e0 { env = count one_new_order e0.env } in
    elim (book_for e r.locate) [
      | none ↦ (record e { env = count one_error e.env }, emit (rsp_error invalid_command_type) out)
      | some b ↦ add_to r e b out
    ]
