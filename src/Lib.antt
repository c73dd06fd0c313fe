-- ===== src/Lib.antt =====
-- NebulaX: a matching engine for limit orders.
--
-- A request comes in over TCP, as an ITCH message (include/itch_parser.h) or a binary command
-- (include/protocol.h), and goes to the matching engine (src/matching_engine.cpp). The engine has
-- an order book for each locate (src/order_book.cpp). All books share one pool of orders
-- (include/order_pool.h) and one index from references to orders (include/order_map.h). Each
-- handler logs what it does (src/wal.cpp), and the log is replayed after a crash.
--
-- The files:
--   Base           machine words, lists, maps as association lists, Boolean tests
--   Order, Pool    include/order.h, include/order_pool.h: `allocate`, `deallocate`, `rebuildFreelist`
--   Pool/Free, Pool/Fresh
--                  the free stack as a list of slots, and a new pool's
--   OrderMap       include/order_map.h: `insert`, `find`, `erase` with the overflow map
--   Chain          doubly linked lists of slots: what appending and unlinking do to them
--   Book           src/order_book.cpp: each `Order*` is the index of a slot, each method a function
--                  on a `Store`, the book with the pool and the index that it points to
--   Book/Rep, Book/Invariant
--                  the abstract book: for each side and price the slots in order of arrival, and
--                  the invariant that ties the links, counts, totals and the free stack to it
--   Book/Sides, Book/Append, Book/Enqueue, Book/Unlink, Book/Freed, Book/Lower
--                  what the writes of a method do to the levels and their links
--   Book/AddOrder, Book/RemoveOrder, Book/Quantity, Book/Best, Book/Quote
--                  what each method does to the abstract book, or reads from it
--   Protocol, Wal  include/protocol.h, src/protocol.cpp; include/wal.h, src/wal.cpp
--   Engine         the state of src/matching_engine.cpp, its counters and its trade pool
--   Engine/Match   `matchBuyOrder` and `matchSellOrder`; Engine/Add `processAdd`; Engine/Cancel
--                  `processCancel`, `processCancelShares`, `processReplace`, `getBook`;
--                  Engine/Recover the replay of the log, shared memory and snapshots
--   Itch, Ring     src/itch_parser.cpp; include/spsc_byte_ring.h; Itch/Bounds the widths of the fields
--   Poller         include/io_uring_poller.h: the stack of receive buffers
--   Server         src/tcp_server.cpp: `drainBuffered`, `processItchMessage`; Server/Conns its event
--                  loop: `onAccept`, `onRecv`, `closeConnection`, `drainPendingClose`,
--                  `pushResponses`, on a heap of connections and a list of effects
--   Server/Frames, Server/Receive, Server/Message
--                  the framing as a relation, receives in pieces, and the engine behind a message
--   Server/Held, Server/Accepting, Server/Closing, Server/Turns, Server/Sending
--                  the owner of each buffer over a turn of the loop; the end of the direct sending
--   Server/Shutdown, Server/Shut, Server/Told, Server/Entries, Server/Cleared
--                  `start` after its loop, and what it leaves
--   Ouch           src/ouch_protocol.cpp; Ouch/Numbers decimal numbers, Ouch/Enter, Ouch/Answers the
--                  messages
--   Trade          src/tcp_trade_server.cpp: `handleClient`, `handleEnter`, `handleCancel`, `ref_for`;
--                  Trade/Refs, Trade/Stream, Trade/Orders what they do
--   Mpsc           include/mpsc_ring.h as steps of its callers; Mpsc/Window what the slots show,
--                  Mpsc/Fifo the queue
--   Sender         the send thread of src/main.cpp and src/send_uring.cpp; Sender/Delivered a round of
--                  it, Sender/Pushed the way from the server's push to the client, Sender/Closes the
--                  RSP_CLOSE frames of the shutdown
--   Tests          the theorems at concrete books, engines, rings and messages
--
-- Numbers are natural numbers, with the wrap-around of the source's types written out. A walk along
-- a price level is given the level's count plus one rounds, a walk along a bucket its length plus
-- one, and the match loop one round more than there are orders on the other side: a round that does
-- not fill the incoming order removes one of them.
--
-- The framing loop is given a round for each byte, the loop of a trading connection too, and the
-- direct sending 500 rounds for each byte; a round of the send thread is given one for each byte
-- of its answers, and the wait of the shutdown a round for each connection. What the kernel, the
-- send thread and the representation of a frame contribute to the server is a parameter, `World`
-- of Server/Conns.
--
-- Not modelled: sockets and their set-up, the submissions of io_uring, threads and their
-- interleavings but for the ring of several producers (elsewhere a compare-and-swap succeeds at once),
-- the logger and the process set-up. What a zero-copy send comes to is a parameter. At the shutdown
-- the send thread makes its rounds while the server waits, and its last flag may come after that. A
-- file is what was read from it.
pub mod Base
pub mod Order
pub mod Pool
pub mod Poller
pub mod Chain
pub mod OrderMap
pub mod Book
pub mod Protocol
pub mod Wal
pub mod Engine
pub mod Itch
pub mod Ring
pub mod Server
pub mod Ouch
pub mod Trade
pub mod Mpsc
pub mod Sender
pub mod Tests
