-- ===== src/Engine/Match.antt =====
-- The match loops of src/matching_engine.cpp. `matchBuyOrder` and `matchSellOrder` have one text but
-- for the side, so one loop takes the side of the incoming order. The levels' counts on the other
-- side, plus one, bound its rounds: a round that does not fill the order removes a resting one.
pub mod Trade
pub mod Left
pub mod Loop
pub mod Limit
use nebula_x.Base.{
  ℕ, zero, suc, ◌+◌, ◌%◌, Bool, Option, none, some, List, [], ◌∷◌, nil_idx, min, add32, sub32,
  add64, update, ltb, ◌==◌, if◌then◌else◌,
}
use nebula_x.Order.{Order, Side, invalid, buy, sell, filled, partially_filled}
use nebula_x.Pool.{Pool, write_slot}
use nebula_x.Book.{
  Store, resting, slot, levels, opposite, past, get_best, reduce_order_qty, remove_slot,
}
use nebula_x.Protocol.{BinaryResponse, rsp_trade, side_buy, side_sell}
use nebula_x.Engine.{Env, TradePool, TradeEntry, trade_capacity, count, one_trade, emit}

-- What the loop works on.
pub record Match : Type 0 where
  pub store : Store
  pub order : Order
  pub env : Env
  pub out : List BinaryResponse

-- The wire name of the resting order's side.
abbrev pub resting_side : Side → ℕ
resting_side buy = side_sell
resting_side _ = side_buy

abbrev pub trade_id_of : Side → Env → ℕ
trade_id_of buy env = env.buy_trade_id
trade_id_of _ env = env.sell_trade_id

abbrev pub set_trade_id : Side → ℕ → Env → Env
set_trade_id buy n env = record env { buy_trade_id = n }
set_trade_id _ n env = record env { sell_trade_id = n }

-- The entry of the trade pool; its time stamp is never written.
unfoldable pub trade_entry : Side → ℕ → TradeEntry → Order → Order → ℕ → ℕ → TradeEntry
trade_entry buy id t order best qty seq = record {
  trade_id = id;
  buy_order_id = order.order_id;
  sell_order_id = best.order_id;
  price = best.price;
  quantity = qty;
  buyer_id = order.user_id;
  seller_id = best.user_id;
  timestamp = t.timestamp;
  seq = seq;
}
trade_entry _ id t order best qty seq = record {
  trade_id = id;
  buy_order_id = best.order_id;
  sell_order_id = order.order_id;
  price = best.price;
  quantity = qty;
  buyer_id = best.user_id;
  seller_id = order.user_id;
  timestamp = t.timestamp;
  seq = seq;
}

unfoldable pub record_trade : Side → Order → Order → ℕ → Env → Env
unfolding trade_entry
record_trade side order best qty env = elim env.trade_pool [
  | none ↦ env
  | some p ↦
      let idx = p.write_idx % trade_capacity in
      let id = add64 (trade_id_of side env) 1 in
      set_trade_id side id (record env {
        trade_pool = some (record {
          entries =
              update p.entries idx
                (trade_entry side id (p.entries idx) order best qty env.next_sequence);
          write_idx = add64 p.write_idx 1;
        });
      })
]

abbrev pub set_status : Store → ℕ → Order → Store
set_status st i o = record st { pool = write_slot st.pool i o }

-- The resting order after the trade: removed if nothing is left of it.
unfoldable pub settle : Store → ℕ → Store
settle st i =
    let o : Order = slot st i in
    if o.remaining_qty == 0
    then remove_slot (set_status st i (record o { status = filled })) i
    else set_status st i (record o { status = partially_filled })

-- One trade of the incoming order with the resting order in slot `i`.
unfoldable pub trade : Side → ℕ → ℕ → Match → Match
unfolding record_trade settle
trade side locate i m =
    let best0 : Order = slot m.store i in
    let qty = min m.order.remaining_qty best0.remaining_qty in
    let left = sub32 m.order.remaining_qty qty in
    let st : Store = reduce_order_qty m.store i qty in
    let best : Order = slot st i in
    let moved : Order = record (m.order) {
      remaining_qty = left;
      filled_qty = add32 m.order.filled_qty qty;
    } in
    record {
      store = settle st i;
      order = record moved { status = if left == 0 then filled else partially_filled };
      env = record_trade side moved best qty (count one_trade m.env);
      out =
          emit
            (rsp_trade (record {
              locate = locate;
              order_ref = best.order_id;
              side = resting_side side;
              price = best.price;
              quantity = qty;
            }))
            m.out;
    }

-- The resting order of the next round, if there is one.
unfoldable pub candidate : Side → Match → Option ℕ
candidate side m =
    if m.order.remaining_qty == 0
    then none
    else elim (get_best (opposite side) m.store m.order.user_id) [
      | none ↦ none
      | some i ↦ if past side m.order.price (slot m.store i).price then none else some i
    ]

unfoldable pub match_loop : ℕ → Side → ℕ → Match → Match
unfolding candidate trade
match_loop zero side locate m = m
match_loop (suc f) side locate m = elim (candidate side m) [
  | none ↦ m
  | some i ↦ match_loop f side locate (trade side locate i m)
]

unfoldable pub match_order : Side → ℕ → Match → Match
unfolding match_loop
match_order side locate m =
    match_loop (resting (levels (opposite side) m.store.book) + 1) side locate m

unfoldable pub match_buy_order : ℕ → Match → Match
unfolding match_order
match_buy_order locate m = match_order buy locate m

unfoldable pub match_sell_order : ℕ → Match → Match
unfolding match_order
match_sell_order locate m = match_order sell locate m
