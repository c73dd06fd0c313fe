-- ===== src/Server/Conns.antt =====
-- The event loop of src/tcp_server.cpp: accepted connections, receives, answers and closing. What
-- the server asks of the kernel is a list of effects. `World` is what others do: the representation
-- of a frame as bytes, what the send thread takes out of the ring between two tries, and what `send`
-- returns.
use nebula_x.Base.{
  ℕ, zero, suc, ◌+◌, ◌-◌, ◌*◌, Bool, true, false, none, some, List, [], ◌∷◌, ◌++◌, take, drop,
  length, update, leb, ◌==◌, if◌then◌else◌, nil_idx, lookup, put, erase, add64,
}
use nebula_x.Protocol.{BinaryResponse}
use nebula_x.Itch.{SymbolMap}
use nebula_x.Engine.{Engine, IoCounters, count, one_error}
use nebula_x.Ring.{SpscByteRing, push, free_space, read_release}
use nebula_x.Poller.{BufferStack, alloc_buffer, free_buffer}
use nebula_x.Server.{ConnContext, default_conn, receive}

-- What goes through the ring: an answer, RSP_HEADER with its count, RSP_CLOSE with the connection
-- whose flag the send thread sets.
pub data RingFrame : Type 0 where
  answer : BinaryResponse → RingFrame
  rsp_header : ℕ → ℕ → RingFrame
  rsp_close : ℕ → ℕ → RingFrame

-- What a call of `send` returns: a number of bytes, EAGAIN, or anything else.
pub data SendAnswer : Type 0 where
  took : ℕ → SendAnswer
  busy : SendAnswer
  refused : SendAnswer

pub record World : Type 0 where
  pub image : RingFrame → List ℕ
  pub drained : ℕ → ℕ
  pub send_answer : ℕ → SendAnswer

pub data Effect : Type 0 where
  submit_recv : ℕ → ℕ → Effect
  submit_accept : Effect
  close_fd : ℕ → Effect
  notify : Effect
  sent : ℕ → List ℕ → Effect

-- `ConnContext*` is an address in `heap`.
pub record Server : Type 0 where
  pub engine : Engine
  pub symbols : SymbolMap
  pub ring : SpscByteRing
  pub poller : BufferStack
  pub conns : List (ℕ × ℕ)
  pub heap : ℕ → ConnContext
  pub next_addr : ℕ
  pub pending_closes : List ℕ
  pub effects : List Effect

abbrev pub ask : Effect → Server → Server
ask x sv = record sv { effects = sv.effects ++ (x ∷ []) }

abbrev pub response_size : ℕ
response_size = 48

-- The map's order is never read.
abbrev pub unordered : ℕ → ℕ → Bool
unordered a b = false

unfoldable pub on_accept : ℕ → Server → Server
on_accept client_fd sv =
    let (buf_idx, poller) = alloc_buffer sv.poller in
    if buf_idx == nil_idx
    then ask (close_fd client_fd) (record sv { poller = poller })
    else ask (submit_recv client_fd buf_idx) (record sv {
      poller = poller;
      heap =
          update sv.heap sv.next_addr (record default_conn { fd = client_fd; buf_idx = buf_idx });
      next_addr = sv.next_addr + 1;
      conns = put unordered client_fd sv.next_addr sv.conns;
    })

-- The tries until something is pushed; each that fails wakes the send thread. At the last, the loop
-- breaks off.
unfoldable pub retry_push : ℕ → World → ℕ → SpscByteRing → List ℕ → ℕ × SpscByteRing
retry_push zero w i r xs = (i, r)
retry_push (suc f) w i r xs = elim ((push r xs).0 == 0) [
  | true ↦ retry_push f w (i + 1) (read_release (push r xs).1 (w.drained i)) xs
  | false ↦ (i, (push r xs).1)
]

abbrev pub max_tries : ℕ
max_tries = 10001

abbrev pub notifies : ℕ → List Effect
notifies zero = notify ∷ []
notifies (suc n) = notify ∷ notifies n

unfoldable pub close_connection : World → ℕ → Server → Server
unfolding retry_push
close_connection w a sv =
    let (tries, r) = retry_push max_tries w 0 sv.ring (w.image (rsp_close (sv.heap a).fd a)) in
    record sv {
      heap = update sv.heap a (record (sv.heap a) { closing = true; close_acked = false });
      ring = r;
      pending_closes = sv.pending_closes ++ (a ∷ []);
      effects = sv.effects ++ notifies tries;
    }

-- How the direct sending ends: all sent, some given up, or no rounds left.
pub data Sending : Type 0 where
  all_sent : Sending
  given_up : List ℕ → Sending
  no_rounds : Sending

-- `send` until all is sent; 500 tries in a row that find the socket full give up.
unfoldable pub send_direct : ℕ → World → ℕ → List ℕ → ℕ → Sending
send_direct f w t [] spins = all_sent
send_direct zero w t (x ∷ xs) spins = no_rounds
send_direct (suc f) w t (x ∷ xs) spins = elim (w.send_answer t) [
  | took n ↦ elim (n == 0) [
    | true ↦ given_up (x ∷ xs)
    | false ↦ send_direct f w (t + 1) (drop n (x ∷ xs)) 0
  ]
  | busy ↦ elim (leb 500 (spins + 1)) [
    | true ↦ given_up (x ∷ xs)
    | false ↦ send_direct f w (t + 1) (x ∷ xs) (spins + 1)
  ]
  | refused ↦ given_up (x ∷ xs)
]

abbrev unsent : Sending → ℕ
unsent all_sent = 0
unsent (given_up xs) = length xs
unsent no_rounds = 0

abbrev pub images : World → List BinaryResponse → List ℕ
images w [] = []
images w (r ∷ rs) = w.image (answer r) ++ images w rs

unfoldable pub push_responses : World → ℕ → List BinaryResponse → Server → Server
unfolding send_direct
push_responses w fd [] sv = sv
push_responses w fd (r ∷ rs) sv =
    let data_bytes = images w (r ∷ rs) in
    let n = length (r ∷ rs) in
    if leb (response_size + n * response_size) (free_space sv.ring)
    then ask notify
        (record sv { ring = (push (push sv.ring (w.image (rsp_header fd n))).1 data_bytes).1 })
    else ask
        (sent fd (
          take (length data_bytes - unsent (send_direct (500 * length data_bytes) w 0 data_bytes 0))
            data_bytes))
        sv

-- `onRecv`; no bytes stand for a result that is not positive.
unfoldable pub on_recv : World → ℕ → List ℕ → Server → Server
unfolding close_connection push_responses
on_recv w a [] sv = close_connection w a sv
on_recv w a (x ∷ xs) sv =
    let (conn, s) =
      receive (x ∷ xs) (sv.heap a)
        (record { engine = sv.engine; symbols = sv.symbols; out = [] }) in
    push_responses w conn.fd s.out
      (record sv { engine = s.engine; symbols = s.symbols; heap = update sv.heap a conn })

-- The result of a receive: bytes, none of them at the end of the stream; EAGAIN; ECONNRESET or
-- EPIPE; another error.
pub data Received : Type 0 where
  bytes : List ℕ → Received
  again : Received
  reset : Received
  failed : Received

abbrev pub one_frame : IoCounters → IoCounters
one_frame c = record c { recv_frames = add64 c.recv_frames 1 }

abbrev pub counted : (IoCounters → IoCounters) → Server → Server
counted f sv = record sv { engine = record (sv.engine) { env = count f sv.engine.env } }

-- Another receive, if the connection is still open.
unfoldable pub re_arm : ℕ → Server → Server
re_arm fd sv = elim (lookup fd sv.conns) [
  | none ↦ sv
  | some a ↦ if (sv.heap a).closing then sv else ask (submit_recv fd (sv.heap a).buf_idx) sv
]

unfoldable pub received : World → ℕ → ℕ → Received → Server → Server
unfolding on_recv re_arm
received w fd a (bytes xs) sv = re_arm fd (on_recv w a xs sv)
received w fd a again sv = ask (submit_recv fd (sv.heap a).buf_idx) sv
received w fd a reset sv = re_arm fd (on_recv w a [] sv)
received w fd a failed sv = re_arm fd (on_recv w a [] (counted one_error sv))

-- The second callback of `start`.
unfoldable pub on_completion : World → ℕ → Received → Server → Server
unfolding received
on_completion w fd r sv = elim (lookup fd sv.conns) [
  | none ↦ sv
  | some a ↦ if (sv.heap a).closing then sv else received w fd a r (counted one_frame sv)
]

-- `drainPendingClose`: over the list, with those that stay.
unfoldable pub drain_closes : List ℕ → List ℕ → Server → Server
drain_closes [] kept sv = record sv { pending_closes = kept }
drain_closes (a ∷ rest) kept sv = elim (sv.heap a).close_acked [
  | true ↦ drain_closes rest kept (record sv {
    poller = free_buffer sv.poller (sv.heap a).buf_idx;
    conns = erase (sv.heap a).fd sv.conns;
  })
  | false ↦ drain_closes rest (kept ++ (a ∷ [])) sv
]

unfoldable pub drain_pending_close : Server → Server
unfolding drain_closes
drain_pending_close sv = drain_closes sv.pending_closes [] sv

-- A completion, and the round of the event loop over those at hand.
pub data Completion : Type 0 where
  accepted : ℕ → Completion
  timed_out : Completion
  recv_done : ℕ → Received → Completion

unfoldable pub process_cqe : World → Completion → Server → Server
unfolding on_accept on_completion
process_cqe w (accepted fd) sv = ask submit_accept (on_accept fd sv)
process_cqe w timed_out sv = sv
process_cqe w (recv_done fd r) sv = on_completion w fd r sv

unfoldable pub process_cqes : World → List Completion → Server → Server
unfolding process_cqe
process_cqes w [] sv = sv
process_cqes w (c ∷ cs) sv = process_cqes w cs (process_cqe w c sv)

-- One turn of the loop, less its heartbeats and its summary.
unfoldable pub turn : World → List Completion → Server → Server
unfolding process_cqes drain_pending_close
turn w cs sv = drain_pending_close (process_cqes w cs sv)
