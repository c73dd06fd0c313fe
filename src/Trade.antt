-- ===== src/Trade.antt =====
-- include/tcp_trade_server.h and src/tcp_trade_server.cpp: the trading protocol's server. A client's
-- connection is the bytes that come before its end; what is sent back is the list of messages. The
-- thread, the socket and the lock around the engine's calls are left out.
pub mod Refs
pub mod Orders
pub mod Stream
use nebula_x.Base.{
  ℕ, zero, suc, ◌+◌, ◌-◌, Bool, true, false, ◌&&◌, ◌||◌, not, Option, none, some, List, [], ◌∷◌,
  ◌++◌, take, drop, length, ltb, ◌==◌, if◌then◌else◌, lookup, put, add64, u32,
}
use nebula_x.Order.{buy, sell}
use nebula_x.Protocol.{
  BinaryResponse, TradeReport, BookReport, rsp_trade, rsp_ok, rsp_filled, rsp_cancelled, rsp_error,
  rsp_book, ErrorCode, fok_no_full_fill, error_number, OrderTif, day, ioc, fok,
}
use nebula_x.Itch.{byte}
use nebula_x.Engine.{Engine}
use nebula_x.Engine.Add.{process_add, is_fok, is_day, Request}
use nebula_x.Engine.Cancel.{process_cancel, get_book}
use nebula_x.Ouch.{
  OuchEnter, slice, strtoull, decode_enter, decode_book_req, read_from, encode_book,
  encode_accepted, encode_executed, encode_canceled, encode_rejected, msg_order, msg_cancel_req,
  msg_book_req, order_msg_len, cancel_req_len, book_req_len, ack_msg_len, exec_msg_len,
  cancel_msg_len, reject_msg_len, book_msg_len,
}

pub record TradeServer : Type 0 where
  pub engine : Engine
  pub id_to_ref : List (ℕ × ℕ)
  pub order_locate : List (ℕ × ℕ)
  pub next_ref : ℕ
  pub sent : List (List ℕ)

abbrev pub new_server : Engine → TradeServer
new_server engine = record {
  engine = engine;
  id_to_ref = [];
  order_locate = [];
  next_ref = 1;
  sent = [];
}

-- The order of an unordered map is never read.
abbrev pub any_order : ℕ → ℕ → Bool
any_order a b = false

unfoldable pub ref_for : ℕ → TradeServer → ℕ × TradeServer
ref_for order_id sv = elim (lookup order_id sv.id_to_ref) [
  | some ref ↦ (ref, sv)
  | none ↦ (
    sv.next_ref,
    record sv {
      next_ref = add64 sv.next_ref 1;
      id_to_ref = put any_order order_id sv.next_ref sv.id_to_ref;
    },
  )
]

-- A message of `n` bytes that the handler wrote into its buffer, whose bytes from before are all
-- overwritten.
abbrev pub send_message : ℕ → ((ℕ → ℕ) → ℕ → ℕ) → TradeServer → TradeServer
send_message n encode sv = record sv { sent = sv.sent ++ (read_from (encode (λ _. 0)) 0 n ∷ []) }

-- 'D' 68, 'I' 73, 'F' 70; everything else is immediate or cancel.
unfoldable pub tif_of : ℕ → OrderTif
tif_of c = if c == 68 then day else if c == 73 then ioc else if c == 70 then fok else ioc

unfoldable pub is_unfillable : BinaryResponse → Bool
unfolding error_number
is_unfillable (rsp_error code) = error_number code == error_number fok_no_full_fill
is_unfillable _ = false

abbrev pub any_unfillable : List BinaryResponse → Bool
any_unfillable [] = false
any_unfillable (r ∷ rs) = is_unfillable r || any_unfillable rs

-- The trades among the answers of the engine.
unfoldable pub trades_of : List BinaryResponse → List TradeReport
trades_of [] = []
trades_of (r ∷ rs) = let rest = trades_of rs in elim r [ rsp_trade t ↦ t ∷ rest | _ ↦ rest ]

-- An 'E' for the quantity and the price of a trade.
abbrev pub send_executed : ℕ → OuchEnter → ℕ → ℕ → TradeServer → TradeServer
send_executed ref ord quantity price sv =
    send_message exec_msg_len
      (encode_executed ref ord.order_id ord.side ord.shares (u32 ord.price) quantity price) sv

unfoldable pub send_trades : ℕ → OuchEnter → List TradeReport → TradeServer → TradeServer
send_trades ref ord [] sv = sv
send_trades ref ord (t ∷ ts) sv =
    send_trades ref ord ts (send_executed ref ord t.quantity t.price sv)

-- "FOKNOFILL".
abbrev pub no_fill_reason : List ℕ
no_fill_reason = 70 ∷ 79 ∷ 75 ∷ 78 ∷ 79 ∷ 70 ∷ 73 ∷ 76 ∷ 76 ∷ []

-- The messages after the engine's answers.
unfoldable pub report : ℕ → OuchEnter → OrderTif → List BinaryResponse → TradeServer → TradeServer
unfolding trades_of send_trades is_unfillable
report ref ord tif out sv =
    let accepted =
      send_message ack_msg_len (encode_accepted ref ord.order_id ord.side ord.shares ord.symbol_id)
        sv in
    let executed = send_trades ref ord (trades_of out) accepted in
    if is_fok tif && any_unfillable out
    then send_message reject_msg_len (encode_rejected ref ord.order_id ord.side no_fill_reason) sv
    else if (length (trades_of out) == 0) && not (is_day tif)
    then send_executed ref ord 0 0 executed
    else executed

-- The request that an Enter Order makes of the engine.
abbrev pub request_of : OuchEnter → Request
request_of ord = record {
  locate = ord.symbol_id;
  order_ref = ord.order_id;
  side = if ord.side == 83 then sell else buy;
  price = u32 ord.price;
  quantity = ord.shares;
  user_id = ord.order_id;
  tif = tif_of ord.tif;
}

unfoldable pub handle_enter : OuchEnter → TradeServer → TradeServer
unfolding ref_for tif_of report
handle_enter ord sv =
    let (ref, sv1) = ref_for ord.order_id sv in
    let (e, out) = process_add (request_of ord) sv1.engine [] in
    report ref ord (tif_of ord.tif) out (record sv1 {
      order_locate = put any_order ord.order_id ord.symbol_id sv1.order_locate;
      engine = e;
    })

unfoldable pub is_cancelled : BinaryResponse → Bool
is_cancelled (rsp_cancelled _) = true
is_cancelled _ = false

-- A 'C' for each answer CANCELLED; the side and the quantity are fixed.
unfoldable pub send_cancels : ℕ → ℕ → ℕ → List BinaryResponse → TradeServer → TradeServer
unfolding is_cancelled
send_cancels ref order_id locate [] sv = sv
send_cancels ref order_id locate (r ∷ rs) sv = send_cancels ref order_id locate rs (
    if is_cancelled r
    then send_message cancel_msg_len (encode_canceled ref order_id 66 0 locate) sv
    else sv)

-- The shares of the request are not read.
unfoldable pub handle_cancel : ℕ → ℕ → TradeServer → TradeServer
unfolding ref_for send_cancels
handle_cancel order_id shares sv =
    let (ref, sv1) = ref_for order_id sv in
    elim (lookup order_id sv1.order_locate) [
      | none ↦ sv1
      | some locate ↦
          let (e, out) = process_cancel locate order_id order_id sv1.engine [] in
          send_cancels ref order_id locate out (record sv1 { engine = e })
    ]

abbrev pub book_fields : BinaryResponse → BookReport
book_fields (rsp_book b) = b
book_fields _ = record { locate = 0; bid_price = 0; bid_volume = 0; ask_price = 0; ask_volume = 0 }

unfoldable pub handle_book_req : ℕ → TradeServer → TradeServer
handle_book_req locate sv =
    let (e, rsp) = get_book locate sv.engine in
    let b : BookReport = book_fields rsp in
    send_message book_msg_len (encode_book locate b.bid_price b.bid_volume b.ask_price b.ask_volume)
      (record sv { engine = e })

-- The length of a message by its first byte; `none` closes the connection.
unfoldable pub message_len : ℕ → Option ℕ
message_len c =
    if c == msg_order
    then some order_msg_len
    else if c == msg_cancel_req
    then some cancel_req_len
    else if c == msg_book_req
    then some book_req_len
    else none

unfoldable pub handle_message : List ℕ → TradeServer → TradeServer
unfolding handle_enter handle_cancel handle_book_req
handle_message m sv =
    if byte m 0 == msg_order
    then elim (decode_enter m) [ none ↦ sv | some ord ↦ handle_enter ord sv ]
    else if byte m 0 == msg_book_req
    then elim (decode_book_req m) [ none ↦ sv | some locate ↦ handle_book_req locate sv ]
    else handle_cancel (strtoull (slice m 1 14)) 0 sv

-- The loop over the bytes of a connection up to its end; each round takes a byte at least.
unfoldable pub handle_client : ℕ → List ℕ → TradeServer → TradeServer
unfolding message_len handle_message
handle_client zero bytes sv = sv
handle_client (suc f) [] sv = sv
handle_client (suc f) (c ∷ bytes) sv = elim (message_len c) [
  | none ↦ sv
  | some n ↦ elim (ltb (length (c ∷ bytes)) n) [
    | true ↦ sv
    | false ↦ handle_client f (drop n (c ∷ bytes)) (handle_message (take n (c ∷ bytes)) sv)
  ]
]
