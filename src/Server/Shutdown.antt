-- ===== src/Server/Shutdown.antt =====
-- The end of `start` in src/tcp_server.cpp: what it does with the connections once the loop is left.
-- The passes go over the map in the order of its entries.
use nebula_x.Base.{
  ℕ, Bool, Option, none, some, ◌+◌, ◌-◌, ◌*◌, leb, refl, ◌∙◌, inl, inr, true, false, List, [], ◌∷◌,
  ◌++◌, ltb, if◌then◌else◌, update, Bool-cases, drop, length,
}
use nebula_x.Ring.{SpscByteRing, free_space}
use nebula_x.Engine.{Engine}
use nebula_x.Itch.{SymbolMap}
use nebula_x.Protocol.{BinaryResponse}
use nebula_x.Sender.{Sender, ZcAnswer, send_rounds}
use nebula_x.Server.{ConnContext, drain_buffered, drain_loop}
use nebula_x.Server.Conns.{
  World, Server, ask, close_fd, notifies, max_tries, retry_push, rsp_close, push_responses,
  drain_pending_close, Effect, RingFrame, response_size,
}
use nebula_x.Server.Held.{Alike}
use nebula_x.Server.Closing.{compact-kept, with_cell-Alike}

-- The first pass at a connection: what is left in its buffer.
unfoldable pub flush_conn : World → ℕ → ℕ → Server → Server
unfolding push_responses drain_buffered
flush_conn w fd a sv =
    if ltb (sv.heap a).consumed (sv.heap a).pending
    then (let (conn, s) =
          drain_buffered (sv.heap a)
            (record { engine = sv.engine; symbols = sv.symbols; out = [] }) in
        push_responses w fd s.out
          (record sv { engine = s.engine; symbols = s.symbols; heap = update sv.heap a conn }))
    else sv

unfoldable pub flush_all : World → List (ℕ × ℕ) → Server → Server
unfolding flush_conn
flush_all w [] sv = sv
flush_all w ((fd, a) ∷ m) sv = flush_all w m (flush_conn w fd a sv)

-- The second pass at a connection: RSP_CLOSE, unless it is being closed.
unfoldable pub shut_conn : World → ℕ → ℕ → Server → Server
unfolding retry_push
shut_conn w fd a sv =
    if (sv.heap a).closing
    then sv
    else (let (tries, r) = retry_push max_tries w 0 sv.ring (w.image (rsp_close fd a)) in
        record sv {
          heap = update sv.heap a (record (sv.heap a) { closing = true; close_acked = false });
          ring = r;
          pending_closes = sv.pending_closes ++ (a ∷ []);
          effects = sv.effects ++ notifies tries;
        })

unfoldable pub shut_all : World → List (ℕ × ℕ) → Server → Server
unfolding shut_conn
shut_all w [] sv = sv
shut_all w ((fd, a) ∷ m) sv = shut_all w m (shut_conn w fd a sv)

-- What the send thread meets at the wait: the zero-copy sends, the frames that it reads, whether it
-- still tries zero-copy, and whether the flag of the last frame that it takes out is set only after
-- the server has looked.
pub record Thread : Type 0 where
  pub zc : ℕ → ZcAnswer
  pub frame_of : List ℕ → Option RingFrame
  pub zc_ok : Bool
  pub late : Bool

-- The flags that are set: all, or all but the last.
unfoldable pub store_acks : Bool → List ℕ → (ℕ → ConnContext) → (ℕ → ConnContext)
store_acks late [] h = h
store_acks late (a ∷ []) h = if late then h else update h a (record (h a) { close_acked = true })
store_acks late (a ∷ b ∷ acks) h =
    store_acks late (b ∷ acks) (update h a (record (h a) { close_acked = true }))

-- The wait for an empty ring, while the send thread makes its rounds. It looks at the ring only: the
-- send thread takes a frame out of it before it sets the flag.
unfoldable pub wait_drained : ℕ → ℕ → World → Thread → Server → Option Server
unfolding send_rounds store_acks
wait_drained rounds f w th sv =
    let s0 : Sender = record {
      ring = sv.ring;
      effects = sv.effects;
      acked = [];
      zc_ok = th.zc_ok;
    } in
    elim (send_rounds rounds f w th.zc th.frame_of s0) [
      | none ↦ none
      | some s ↦ some (record sv {
        ring = s.ring;
        effects = s.effects;
        heap = store_acks th.late s.acked sv.heap;
      })
    ]

-- `start` after its loop.
unfoldable pub shut_down : ℕ → ℕ → World → Thread → ℕ → Server → Option Server
unfolding flush_all shut_all wait_drained drain_pending_close
shut_down rounds f w th server_fd sv =
    let flushed = flush_all w sv.conns (ask (close_fd server_fd) sv) in
    elim (wait_drained rounds f w th (shut_all w flushed.conns flushed)) [
      | none ↦ none
      | some sv' ↦ some (drain_pending_close sv')
    ]

-- The addresses of a list of entries, their RSP_CLOSE frames, and the ends of their descriptors.
abbrev pub addresses : List (ℕ × ℕ) → List ℕ
addresses [] = []
addresses ((fd, a) ∷ m) = a ∷ addresses m

abbrev pub close_frames : World → List (ℕ × ℕ) → List ℕ
close_frames w [] = []
close_frames w ((fd, a) ∷ m) = w.image (rsp_close fd a) ++ close_frames w m

abbrev pub close_fds : List (ℕ × ℕ) → List Effect
close_fds [] = []
close_fds ((fd, a) ∷ m) = close_fd fd ∷ close_fds m

pub Alike-trans : (x y z : Server) → Alike x y → Alike y z → Alike x z
Alike-trans x y z p q = record {
  poller = q.poller ∙ p.poller;
  conns = q.conns ∙ p.conns;
  next_addr = q.next_addr ∙ p.next_addr;
  pending = q.pending ∙ p.pending;
  fds = λ a. q.fds a ∙ p.fds a;
  bufs = λ a. q.bufs a ∙ p.bufs a;
  flags = λ a. q.flags a ∙ p.flags a;
}

-- The engine, the symbols, the ring and the effects are another matter.
pub aside :
    (x : Server) (e : Engine) (s : SymbolMap) (r : SpscByteRing) (fs : List Effect)
    → Alike x (record x { engine = e; symbols = s; ring = r; effects = fs })
aside x e s r fs = record {
  poller = refl;
  conns = refl;
  next_addr = refl;
  pending = refl;
  fds = λ a. refl;
  bufs = λ a. refl;
  flags = λ a. refl;
}

push_responses-Alike :
    (w : World) (fd : ℕ) (rs : List BinaryResponse) (sv : Server)
    → Alike sv (push_responses w fd rs sv)
unfolding push_responses
push_responses-Alike w fd [] sv = aside sv _ _ _ _
push_responses-Alike w fd (r ∷ rs) sv =
    elim (Bool-cases (leb (response_size + length (r ∷ rs) * response_size) (free_space sv.ring))) [
      | inl z ↦ rw (push_responses, z) (aside sv _ _ _ _)
      | inr z ↦ rw (push_responses, z) (aside sv _ _ _ _)
    ]

flush_conn-Alike : (w : World) (fd a : ℕ) (sv : Server) → Alike sv (flush_conn w fd a sv)
unfolding flush_conn drain_buffered
flush_conn-Alike w fd a sv = elim (Bool-cases (ltb (sv.heap a).consumed (sv.heap a).pending)) [
  | inl z ↦
      let d =
        drain_buffered (sv.heap a)
          (record { engine = sv.engine; symbols = sv.symbols; out = [] }) in
      let k = compact-kept (record (sv.heap a) {
        consumed =
            (drain_loop ((sv.heap a).pending - (sv.heap a).consumed)
              (drop (sv.heap a).consumed (sv.heap a).accum_buf)
              ((sv.heap a).pending - (sv.heap a).consumed) (sv.heap a).consumed
              (record { engine = sv.engine; symbols = sv.symbols; out = [] })).0;
      }) in
      let cell : Server = record sv { heap = update sv.heap a d.0 } in
      let read : Server = record cell { engine = d.1.engine; symbols = d.1.symbols } in
      rw (flush_conn, z)
        (Alike-trans sv cell _ (with_cell-Alike a d.0 sv k.0 k.1 k.2)
          (Alike-trans cell read _ (aside cell _ _ _ _) (push_responses-Alike w fd d.1.out read)))
  | inr z ↦ rw (flush_conn, z) (aside sv _ _ _ _)
]

pub flush_all-Alike : (w : World) (m : List (ℕ × ℕ)) (sv : Server) → Alike sv (flush_all w m sv)
unfolding flush_all
flush_all-Alike w [] sv = aside sv _ _ _ _
flush_all-Alike w ((fd, a) ∷ m) sv =
    Alike-trans sv (flush_conn w fd a sv) _ (flush_conn-Alike w fd a sv)
      (flush_all-Alike w m (flush_conn w fd a sv))

pub store_acks-Alike :
    (late : Bool) (acks : List ℕ) (sv : Server)
    → Alike sv (record sv { heap = store_acks late acks sv.heap })
unfolding store_acks
store_acks-Alike late [] sv = aside sv _ _ _ _
store_acks-Alike true (a ∷ []) sv = aside sv _ _ _ _
store_acks-Alike false (a ∷ []) sv = with_cell-Alike a _ sv refl refl refl
store_acks-Alike late (a ∷ b ∷ acks) sv =
    let next : Server = record sv {
      heap = update sv.heap a (record (sv.heap a) { close_acked = true });
    } in
    Alike-trans sv next _ (with_cell-Alike a _ sv refl refl refl)
      (store_acks-Alike late (b ∷ acks) next)
