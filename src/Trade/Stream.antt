-- ===== src/Trade/Stream.antt =====
-- The Enter Orders that come over one connection of src/tcp_trade_server.cpp.
use nebula_x.Base.{
  ℕ, zero, suc, ◌/◌, ◌%◌, ◌^◌, ◌≡◌, ◌<◌, ◌≤◌, refl, ◌∙◌, true, false, some, List, [], ◌∷◌, ◌++◌,
  arith, length, length-append, take, ltb, ◌==◌, All,
}
use nebula_x.Server.Frames.{take-append, drop-append}
use nebula_x.Ouch.{OuchEnter, decode_enter, sum_bytes}
use nebula_x.Ouch.Enter.{enter_message, decode_enter-message, length-enter_message}
use nebula_x.Trade.{TradeServer, handle_enter, handle_message, handle_client, message_len}

-- What a client puts into an Enter Order.
pub record Order49 : Type 0 where
  pub order_id : ℕ
  pub side : ℕ
  pub shares : ℕ
  pub symbol_id : ℕ
  pub price : ℕ
  pub tif : ℕ
  pub others : List ℕ
  pub last : ℕ

abbrev pub wire : Order49 → List ℕ
wire o = enter_message o.order_id o.side o.shares o.symbol_id o.price o.tif o.others o.last

-- The fields fit, and the last byte is the checksum.
pub record Valid (o : Order49) : Type 0 where
  pub id_fits : o.order_id < 10 ^ 14
  pub shares_fit : o.shares < 2 ^ 32
  pub symbol_fits : o.symbol_id < 10 ^ 10
  pub price_fits : o.price < 2 ^ 32
  pub size : length o.others ≡ 13
  pub sum : o.last ≡ sum_bytes (take 48 (wire o)) % 256

-- The order as the server reads it.
abbrev pub read_order : Order49 → OuchEnter
read_order o = record {
  order_id = o.order_id;
  side = o.side;
  shares = o.shares;
  symbol_id = o.symbol_id;
  price = o.price / 100;
  tif = o.tif;
}

abbrev pub wires : List Order49 → List ℕ
wires [] = []
wires (o ∷ os) = wire o ++ wires os

-- The orders one after another.
abbrev pub enters : List Order49 → TradeServer → TradeServer
enters [] sv = sv
enters (o ∷ os) sv = enters os (handle_enter (read_order o) sv)

decoded : (o : Order49) → Valid o → decode_enter (wire o) ≡ some (read_order o)
decoded o v =
    decode_enter-message o.order_id o.side o.shares o.symbol_id o.price o.tif o.others o.last
      v.id_fits v.shares_fit v.symbol_fits v.price_fits v.size
    ∙ rw (same o.last (sum_bytes (take 48 (wire o)) % 256) v.sum) refl
  where
    same : (a b : ℕ) → a ≡ b → (a == b) ≡ true
    same a b e = ground arith

handle_message-wire :
    (o : Order49) (sv : TradeServer)
    → Valid o
    → handle_message (wire o) sv ≡ handle_enter (read_order o) sv
unfolding handle_message
handle_message-wire o sv v = rw (handle_message, decoded o v) refl

length-wire : (o : Order49) → Valid o → length (wire o) ≡ 49
length-wire o v =
    length-enter_message o.order_id o.side o.shares o.symbol_id o.price o.tif o.others o.last
      v.id_fits v.shares_fit v.symbol_fits v.price_fits v.size

within :
    (f : ℕ) (os : List Order49) (sv : TradeServer)
    → All Valid os
    → length (wires os) ≤ f
    → handle_client f (wires os) sv ≡ enters os sv
unfolding handle_client message_len
within zero [] sv ok le = refl
within (suc f) [] sv ok le = refl
within zero (o ∷ os) sv ok le = absurd (omega (arith, le))
within (suc f) (o ∷ os) sv ok le =
    let long : ltb (length (wire o ++ wires os)) 49 ≡ false =
      ground (arith, length-append (wire o) (wires os), length-wire o ok.0) in
    rw
      (
        handle_client,
        long,
        take-append 49 (wire o) (wires os) (length-wire o ok.0),
        drop-append 49 (wire o) (wires os) (length-wire o ok.0),
        handle_message-wire o sv ok.0,
      )
      (within f os (handle_enter (read_order o) sv) ok.1
        (omega (arith, le, length-append (wire o) (wires os), length-wire o ok.0)))

-- Enter Orders whose fields fit and whose checksums are right, one behind another on a connection,
-- are handled each once, in their order, with the fields that the client put in and the price
-- divided by 100.
pub handle_client-enters :
    (os : List Order49) (sv : TradeServer)
    → All Valid os
    → handle_client (length (wires os)) (wires os) sv ≡ enters os sv
handle_client-enters os sv ok = within (length (wires os)) os sv ok (omega arith)
