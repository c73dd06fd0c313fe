-- ===== src/Order.antt =====
-- include/order.h: the order and its enumerations.
use nebula_x.Base.{ℕ, nil_idx}

pub data Side : Type 0 where
  invalid buy sell : Side

pub data OrderStatus : Type 0 where
  open_ partially_filled filled cancelled : OrderStatus

-- A slot of the pool. The two links chain the orders of one price level; `pool_next_free` chains the
-- free slots.
pub record Order : Type 0 where
  pub user_id : ℕ
  pub order_id : ℕ
  pub side : Side
  pub price : ℕ
  pub original_qty : ℕ
  pub remaining_qty : ℕ
  pub filled_qty : ℕ
  pub sequence : ℕ
  pub status : OrderStatus
  pub prev_idx : ℕ
  pub next_idx : ℕ
  pub pool_next_free : ℕ

-- The default member initialisers.
abbrev pub default_order : Order
default_order = record {
  user_id = 0;
  order_id = 0;
  side = invalid;
  price = 0;
  original_qty = 0;
  remaining_qty = 0;
  filled_qty = 0;
  sequence = 0;
  status = open_;
  prev_idx = nil_idx;
  next_idx = nil_idx;
  pool_next_free = nil_idx;
}
