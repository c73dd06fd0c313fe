-- ===== src/Server.antt =====
-- include/tcp_server.h and src/tcp_server.cpp: the receive buffer of a connection, the framing of
-- ITCH messages in it, and what a message does to the engine. What the server's event loop does with
-- its connections is in Server/Conns.
pub mod Frames
pub mod Receive
pub mod Message
pub mod Conns
pub mod Sending
pub mod Held
pub mod Closing
pub mod Accepting
pub mod Turns
pub mod Shutdown
pub mod Shut
pub mod Told
pub mod Entries
pub mod Cleared
use nebula_x.Base.{
  ℕ, zero, suc, ◌+◌, ◌-◌, ◌*◌, Bool, true, false, ◌||◌, Option, none, some, List, [], ◌∷◌, ◌++◌,
  take, drop, length, ltb, ◌==◌, if◌then◌else◌, nil_idx,
}
use nebula_x.Order.{Order, invalid}
use nebula_x.Book.{find_order, slot}
use nebula_x.Protocol.{BinaryResponse, rsp_error, order_not_found, day}
use nebula_x.Itch.{ItchEvent, SymbolMap, byte, feed, add, delete, cancel, replace, book}
use nebula_x.Engine.{Engine, book_for, take_out, put_back, emit}
use nebula_x.Engine.Add.{process_add}
use nebula_x.Engine.Cancel.{process_cancel, process_cancel_shares, process_replace, get_book}

-- `read_buf` is the buffer that `buf_idx` names; what a receive left in it is handed to
-- `append_read`.
pub record ConnContext : Type 0 where
  pub fd : ℕ
  pub buf_idx : ℕ
  pub pending : ℕ
  pub consumed : ℕ
  pub accum_buf : List ℕ
  pub closing : Bool
  pub close_acked : Bool

abbrev pub default_conn : ConnContext
default_conn = record {
  fd = 0;
  buf_idx = nil_idx;
  pending = 0;
  consumed = 0;
  accum_buf = [];
  closing = false;
  close_acked = false;
}

unfoldable pub append_read : List ℕ → ConnContext → ConnContext
append_read bytes conn = record conn {
  accum_buf = conn.accum_buf ++ bytes;
  pending = length (conn.accum_buf ++ bytes);
}

unfoldable pub compact : ConnContext → ConnContext
compact conn =
    let remaining = conn.pending - conn.consumed in
    if conn.consumed == 0 then conn else record conn {
      accum_buf = take remaining (drop conn.consumed conn.accum_buf);
      pending = remaining;
      consumed = 0;
    }

-- What the messages of a receive work on.
pub record Session : Type 0 where
  pub engine : Engine
  pub symbols : SymbolMap
  pub out : List BinaryResponse

abbrev pub with_engine : Session → Engine × List BinaryResponse → Session
with_engine s (e, out) = record s { engine = e; out = out }

-- `ItchEvent ev;`: the event before the parser fills it in, whose values are not read.
abbrev pub blank_event : ItchEvent
blank_event = record {
  type = book;
  locate = 0;
  order_ref = 0;
  new_order_ref = 0;
  side = invalid;
  price = 0;
  shares = 0;
  user_id = 0;
}

-- The replacement takes the old order's side; `book_for` makes the book of the locate.
unfoldable pub replace_event : ItchEvent → Session → Session
replace_event ev s = elim (book_for s.engine ev.locate) [
  | none ↦ record s { out = emit (rsp_error order_not_found) s.out }
  | some b ↦
      let e = put_back s.engine ev.locate (take_out s.engine b) s.engine.env in
      elim (find_order (take_out s.engine b) ev.order_ref) [
        | none ↦ record s { engine = e; out = emit (rsp_error order_not_found) s.out }
        | some i ↦ with_engine s (
            process_replace ev.locate ev.order_ref ev.new_order_ref
              (slot (take_out s.engine b) i).side ev.price ev.shares ev.order_ref e s.out)
      ]
]

-- The `switch` over the event's type; the user is the order's own reference.
unfoldable pub handle_event : ItchEvent → Session → Session
unfolding replace_event
handle_event ev s = elim ev.type [
  | add ↦ with_engine s (
      process_add
        (record {
          locate = ev.locate;
          order_ref = ev.order_ref;
          side = ev.side;
          price = ev.price;
          quantity = ev.shares;
          user_id = ev.order_ref;
          tif = day;
        })
        s.engine s.out)
  | delete ↦ with_engine s (process_cancel ev.locate ev.order_ref ev.order_ref s.engine s.out)
  | cancel ↦
      with_engine s
        (process_cancel_shares ev.locate ev.order_ref ev.shares ev.order_ref s.engine s.out)
  | replace ↦ replace_event ev s
  | book ↦ let (e, rsp) = get_book ev.locate s.engine in with_engine s (e, emit rsp s.out)
]

unfoldable pub process_itch_message : List ℕ → Session → Session
unfolding handle_event
process_itch_message msg s =
    let (found, ev, symbols) = feed msg blank_event s.symbols in
    let s' : Session = record s { symbols = symbols } in
    elim found [ false ↦ s' | true ↦ handle_event ev s' ]

-- What is at the front of the bytes from `p` on.
pub data Front : Type 0 where
  wait : Front
  skip : Front
  frame : ℕ → Front

abbrev pub body_len : List ℕ → ℕ
body_len p = byte p 0 * 256 + byte p 1

-- The tests of the loop, with `avail` bytes to read.
unfoldable pub front : List ℕ → ℕ → Front
front p avail =
    if ltb avail 2
    then wait
    else if ltb (body_len p) 1 || ltb 4096 (body_len p)
    then skip
    else if ltb avail (2 + body_len p)
    then wait
    else frame (body_len p)

-- The loop, over the bytes from `p` on; each round takes at least one byte, so as many rounds as
-- there are bytes are enough.
unfoldable pub drain_loop : ℕ → List ℕ → ℕ → ℕ → Session → ℕ × Session
unfolding front
drain_loop zero p avail consumed s = (consumed, s)
drain_loop (suc f) p avail consumed s = elim (front p avail) [
  | wait ↦ (consumed, s)
  | skip ↦ drain_loop f (drop 1 p) (avail - 1) (consumed + 1) s
  | frame n ↦
      drain_loop f (drop (2 + n) p) (avail - (2 + n)) (consumed + (2 + n))
        (process_itch_message (take n (drop 2 p)) s)
]

unfoldable pub drain_buffered : ConnContext → Session → ConnContext × Session
unfolding drain_loop compact
drain_buffered conn s =
    let avail = conn.pending - conn.consumed in
    let (consumed, s') =
      drain_loop avail (drop conn.consumed conn.accum_buf) avail conn.consumed s in
    (compact (record conn { consumed = consumed }), s')

-- The part of `onRecv` between the receive and the answers.
unfoldable pub receive : List ℕ → ConnContext → Session → ConnContext × Session
unfolding append_read drain_buffered
receive bytes conn s = drain_buffered (append_read bytes conn) s
