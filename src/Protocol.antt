-- ===== src/Protocol.antt =====
-- include/protocol.h and src/protocol.cpp: the binary commands, responses and error codes.
use nebula_x.Base.{ℕ, Bool, ◌&&◌, ◌||◌, ltb, ◌==◌, if◌then◌else◌}

abbrev pub cmd_new : ℕ
cmd_new = 0x01

abbrev pub cmd_cancel : ℕ
cmd_cancel = 0x02

abbrev pub cmd_book : ℕ
cmd_book = 0x03

abbrev pub side_buy : ℕ
side_buy = 0x01

abbrev pub side_sell : ℕ
side_sell = 0x02

pub record BinaryCommand : Type 0 where
  pub type : ℕ
  pub side : ℕ
  pub price : ℕ
  pub quantity : ℕ
  pub user_id : ℕ
  pub order_id : ℕ

pub data ErrorCode : Type 0 where
  invalid_side invalid_price_qty_user order_not_found invalid_command_type pool_full : ErrorCode
  mkt_no_liquidity fok_no_full_fill : ErrorCode

-- The numbers that go over the wire.
unfoldable pub error_number : ErrorCode → ℕ
error_number invalid_side = 1
error_number invalid_price_qty_user = 2
error_number order_not_found = 3
error_number invalid_command_type = 4
error_number pool_full = 5
error_number mkt_no_liquidity = 6
error_number fok_no_full_fill = 7

pub data OrderTif : Type 0 where
  day ioc fok : OrderTif

pub record TradeReport : Type 0 where
  pub locate : ℕ
  pub order_ref : ℕ
  pub side : ℕ
  pub price : ℕ
  pub quantity : ℕ

pub record BookReport : Type 0 where
  pub locate : ℕ
  pub bid_price : ℕ
  pub bid_volume : ℕ
  pub ask_price : ℕ
  pub ask_volume : ℕ

-- The tagged union by its discriminator; RSP_HEADER and RSP_CLOSE pass between threads only.
pub data BinaryResponse : Type 0 where
  rsp_trade : TradeReport → BinaryResponse
  rsp_ok : ℕ → BinaryResponse
  rsp_filled : ℕ → BinaryResponse
  rsp_cancelled : ℕ → BinaryResponse
  rsp_error : ErrorCode → BinaryResponse
  rsp_book : BookReport → BinaryResponse

unfoldable pub validate_command : BinaryCommand → Bool
validate_command cmd =
    if cmd.type == cmd_new
    then ((cmd.side == side_buy) || (cmd.side == side_sell))
      && ltb 0 cmd.price
      && ltb 0 cmd.quantity
      && ltb 0 cmd.user_id
    else if cmd.type == cmd_cancel
    then ltb 0 cmd.order_id && ltb 0 cmd.user_id
    else cmd.type == cmd_book
