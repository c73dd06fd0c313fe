-- ===== src/Tests/Servers.antt =====
-- The theorems on the server at a connection, messages and completions.
use nebula_x.Base.{
  true, false, get_or, ℕ, ◌*◌, ◌≡◌, refl, sym, ◌∙◌, some, List, [], ◌∷◌, arith, lookup, take, drop,
}
use nebula_x.Itch.{feed, feed_event, rd_u16, rd_u64, rd_bytes}
use nebula_x.Itch.Bounds.{Bytes}
use nebula_x.Itch.Fields.{add_message}
use nebula_x.Engine.{take_out}
use nebula_x.Engine.Add.Keeps.{SoundAt}
use nebula_x.Engine.Cancel.Keeps.{Indexed}
use nebula_x.Pool.Fresh.{slots_from}
use nebula_x.Ouch.{copies}
use nebula_x.Poller.{new_buffers, new_buffers-Shared, max_buffers}
use nebula_x.Server.{default_conn, Session, receive, process_itch_message}
use nebula_x.Server.Frames.{run}
use nebula_x.Server.Receive.{receive-chunks, receives, receives-stream, stream}
use nebula_x.Server.Message.{event_of, process_itch_message-SoundAt}
use nebula_x.Server.Conns.{
  World, Server, took, Completion, accepted, recv_done, bytes, turn, send_direct, on_accept,
  RingFrame, answer, rsp_header, rsp_close, ask, close_fd,
}
use nebula_x.Server.Sending.{Finished, send_direct-Finished}
use nebula_x.Server.Held.{Held}
use nebula_x.Server.Turns.{NewFds, turn-Held}
use nebula_x.Server.Shutdown.{Thread, flush_all}
use nebula_x.Sender.{zc_took}
use nebula_x.Server.Cleared.{Cleared}
use nebula_x.Tests.{one_bid, one_view, one_bid-StoreRep, one_bid-index, one_bid-slot}
use nebula_x.Tests.Engines.{one_engine}

-- An Add Order for 500 at locate 0, a delete of order 11 and a book query.
abbrev sell_order : List ℕ
sell_order = add_message 65 0 0 0 0 0 0 0 0 0 99 83 500 65 66 32 32 32 32 32 32 1012500 []

abbrev delete_order : List ℕ
delete_order = 68 ∷ 0 ∷ 0 ∷ 0 ∷ 0 ∷ 0 ∷ 0 ∷ 0 ∷ 0 ∷ 0 ∷ 0 ∷ 0 ∷ 0 ∷ 0 ∷ 0 ∷ 0 ∷ 0 ∷ 0 ∷ 11 ∷ []

abbrev query : List ℕ
query = 81 ∷ 0 ∷ 0 ∷ []

abbrev session : Session
session = record { engine = one_engine; symbols = []; out = [] }

-- The bytes of two messages cut inside the first length and inside the second message.
abbrev cut : List (List ℕ)
cut =
    take 1 (stream (sell_order ∷ query ∷ []))
    ∷ take 39 (drop 1 (stream (sell_order ∷ query ∷ [])))
    ∷ drop 40 (stream (sell_order ∷ query ∷ []))
    ∷ []

receives-stream_example :
    receives cut default_conn session ≡ (default_conn, run (sell_order ∷ query ∷ []) session)
receives-stream_example =
    receives-stream (sell_order ∷ query ∷ []) cut default_conn session refl
      (
        record { nonempty = omega arith; bounded = omega arith },
        (record { nonempty = omega arith; bounded = omega arith }, tt),
      )
      refl

receive-chunks_example :
    receive
      (81 ∷ 0 ∷ 0 ∷ [])
      (receive (0 ∷ 3 ∷ []) default_conn session).0
      (receive (0 ∷ 3 ∷ []) default_conn session).1
    ≡ receive (0 ∷ 3 ∷ 81 ∷ 0 ∷ 0 ∷ []) default_conn session
receive-chunks_example =
    receive-chunks (0 ∷ 3 ∷ []) (81 ∷ 0 ∷ 0 ∷ []) default_conn session
      (record { consumed = refl; pending = refl })

bid-Indexed : Indexed (take_out one_engine one_bid.book) 11 []
bid-Indexed = record {
  view = one_view;
  free = 1 ∷ 2 ∷ [];
  rep = one_bid-StoreRep;
  here = λ i e. one_bid-slot i (sym one_bid-index ∙ e);
}

delete_event :
    ((event_of delete_order session).locate ≡ 0) × ((event_of delete_order session).order_ref ≡ 11)
unfolding feed feed_event rd_u16 rd_u64 rd_bytes
delete_event = (refl, refl)

all_small : Bytes delete_order
all_small = (
  omega arith,
  (
    omega arith,
    (
      omega arith,
      (
        omega arith,
        (
          omega arith,
          (
            omega arith,
            (
              omega arith,
              (
                omega arith,
                (
                  omega arith,
                  (
                    omega arith,
                    (
                      omega arith,
                      (
                        omega arith,
                        (
                          omega arith,
                          (
                            omega arith,
                            (
                              omega arith,
                              (omega arith, (omega arith, (omega arith, (omega arith, tt)))),
                            ),
                          ),
                        ),
                      ),
                    ),
                  ),
                ),
              ),
            ),
          ),
        ),
      ),
    ),
  ),
)

process_itch_message-SoundAt_example :
    SoundAt
      (process_itch_message delete_order session).engine
      (event_of delete_order session).locate
      []
process_itch_message-SoundAt_example =
    process_itch_message-SoundAt delete_order session one_bid.book [] all_small
      (rw delete_event.0 refl) (rw delete_event.1 bid-Indexed)

-- A world in which `send` takes one byte at a time.
abbrev slow_world : World
slow_world = record { image = λ _. 1 ∷ 2 ∷ []; drained = λ _. 0; send_answer = λ _. took 1 }

send_direct-Finished_example :
    Finished (7 ∷ 8 ∷ 9 ∷ []) (send_direct (500 * 3) slow_world 0 (7 ∷ 8 ∷ 9 ∷ []) 0)
send_direct-Finished_example = send_direct-Finished slow_world 0 (7 ∷ 8 ∷ 9 ∷ [])

abbrev pub idle_server : Server
idle_server = record {
  engine = one_engine;
  symbols = [];
  ring = record { tail = 0; head = 0; buf = λ _. 0 };
  poller = new_buffers;
  conns = [];
  heap = λ _. default_conn;
  next_addr = 0;
  pending_closes = [];
  effects = [];
}

idle_server-Held : Held idle_server
unfolding lookup
idle_server-Held = record {
  free = slots_from 0 max_buffers;
  shared = new_buffers-Shared;
  single = tt;
  below = tt;
  known = λ fd a e. absurd cc;
  waiting = λ a e. absurd cc;
  marked = λ fd a e. absurd cc;
  once = tt;
}

-- A client that connects and leaves again.
abbrev visit : List Completion
visit = accepted 5 ∷ recv_done 5 (bytes []) ∷ []

visit_new : NewFds slow_world visit idle_server
unfolding lookup
visit_new = (refl, tt)

turn-Held_example : Held (turn slow_world visit idle_server)
turn-Held_example = turn-Held slow_world visit idle_server visit_new idle_server-Held

-- A world whose frames are 48 numbers, and a send thread that reads RSP_CLOSE back and sets its last
-- flag late.
abbrev close_image : RingFrame → List ℕ
close_image (answer r) = 0 ∷ 0 ∷ 0 ∷ copies 45 0
close_image (rsp_header fd n) = 1 ∷ fd ∷ n ∷ copies 45 0
close_image (rsp_close fd a) = 2 ∷ fd ∷ a ∷ copies 45 0

abbrev close_world : World
close_world = record { image = close_image; drained = λ _. 0; send_answer = λ _. took 1 }

abbrev late_thread : Thread
late_thread = record {
  zc = λ _. zc_took 0;
  frame_of = λ l. some (rsp_close (get_or l 1 0) (get_or l 2 0));
  zc_ok = false;
  late = true;
}

-- Two clients are connected when the loop ends.
abbrev visited : Server
visited = on_accept 6 (on_accept 5 idle_server)

abbrev flushed : Server
flushed = flush_all close_world visited.conns (ask (close_fd 3) visited)
