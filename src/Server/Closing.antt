-- ===== src/Server/Closing.antt =====
-- Receives and the end of connections in src/tcp_server.cpp keep the buffers in order.
use mathlib.Core.Bool.{or-false, or-true}
use nebula_x.Base.{
  ℕ, ◌+◌, ◌-◌, ◌*◌, ◌≡◌, refl, sym, ap, ◌∙◌, inl, inr, ◌⊎◌, true, false, some, List, [], ◌∷◌, ◌++◌,
  length, drop, update, leb, ◌==◌, ==_refl, eq_of_==, if◌then◌else◌, has, has-append, lookup,
  Bool-cases, Option-cases,
}
use nebula_x.Ring.{SpscByteRing, free_space}
use nebula_x.Book.Append.{Distinct-snoc}
use nebula_x.Engine.{Engine, one_error}
use nebula_x.Itch.{SymbolMap}
use nebula_x.Protocol.{BinaryResponse}
use nebula_x.Server.{
  ConnContext, Session, append_read, compact, drain_buffered, drain_loop, receive,
}
use nebula_x.Server.Conns.{
  World, Server, Effect, Received, bytes, again, reset, failed, close_connection, push_responses,
  on_recv, re_arm, received, counted, one_frame, on_completion, response_size,
}
use nebula_x.Server.Held.{Held, Alike, Alike-Held, asked, buffers-same}

pub compact-kept :
    (k : ConnContext)
    → ((compact k).fd ≡ k.fd)
      × ((compact k).buf_idx ≡ k.buf_idx)
      × ((compact k).closing ≡ k.closing)
unfolding compact
compact-kept k = elim (Bool-cases (k.consumed == 0)) [
  | inl z ↦ rw (compact, z) (refl, refl, refl)
  | inr z ↦ rw (compact, z) (refl, refl, refl)
]

-- A receive changes the bytes of the connection only.
receive-kept :
    (xs : List ℕ) (c : ConnContext) (s : Session)
    → ((receive xs c s).0.fd ≡ c.fd)
      × ((receive xs c s).0.buf_idx ≡ c.buf_idx)
      × ((receive xs c s).0.closing ≡ c.closing)
unfolding receive append_read drain_buffered
receive-kept xs c s = compact-kept (record c {
  accum_buf = c.accum_buf ++ xs;
  pending = length (c.accum_buf ++ xs);
  consumed =
      (drain_loop (length (c.accum_buf ++ xs) - c.consumed) (drop c.consumed (c.accum_buf ++ xs))
        (length (c.accum_buf ++ xs) - c.consumed) c.consumed s).0;
})

-- The engine, the symbols, the ring and the effects are another matter.
pub aside-Held :
    (engine : Engine) (symbols : SymbolMap) (ring : SpscByteRing) (effects : List Effect)
    (sv : Server)
    → Held sv
    → Held (record sv { engine = engine; symbols = symbols; ring = ring; effects = effects })
aside-Held engine symbols ring effects sv h =
    Alike-Held sv (record sv { engine = engine; symbols = symbols; ring = ring; effects = effects })
      (record {
        poller = refl;
        conns = refl;
        next_addr = refl;
        pending = refl;
        fds = λ a. refl;
        bufs = λ a. refl;
        flags = λ a. refl;
      })
      h

pub push_responses-Held :
    (w : World) (fd : ℕ) (rs : List BinaryResponse) (sv : Server)
    → Held sv
    → Held (push_responses w fd rs sv)
unfolding push_responses
push_responses-Held w fd [] sv h = h
push_responses-Held w fd (r ∷ rs) sv h =
    elim (Bool-cases (leb (response_size + length (r ∷ rs) * response_size) (free_space sv.ring))) [
      | inl z ↦ rw (push_responses, z) (aside-Held _ _ _ _ sv h)
      | inr z ↦ rw (push_responses, z) (Alike-Held sv _ (asked _ sv) h)
    ]

-- What a cell keeps when it is written.
cell_kept :
    {B : Type 0} (h : ℕ → ConnContext) (a : ℕ) (c : ConnContext) (g : ConnContext → B)
    → g c ≡ g (h a)
    → (x : ℕ) → g (update h a c x) ≡ g (h x)
cell_kept h a c g e x = elim (Bool-cases (x == a)) [
  | inl z ↦ rw z (e ∙ ap (λ y. g (h y)) (sym (eq_of_== x a z)))
  | inr z ↦ rw z refl
]

-- A connection of the map gets other bytes and flags.
pub with_cell-Alike :
    (a : ℕ) (c : ConnContext) (sv : Server)
    → c.fd ≡ (sv.heap a).fd
    → c.buf_idx ≡ (sv.heap a).buf_idx
    → c.closing ≡ (sv.heap a).closing
    → Alike sv (record sv { heap = update sv.heap a c })
with_cell-Alike a c sv f b k = record {
  poller = refl;
  conns = refl;
  next_addr = refl;
  pending = refl;
  fds = cell_kept sv.heap a c (λ x. x.fd) f;
  bufs = cell_kept sv.heap a c (λ x. x.buf_idx) b;
  flags = cell_kept sv.heap a c (λ x. x.closing) k;
}

-- The end of an open connection leaves the buffers as they are.
pub close_connection-Held :
    (w : World) (fd a : ℕ) (sv : Server)
    → lookup fd sv.conns ≡ some a
    → (sv.heap a).closing ≡ false
    → Held sv
    → Held (close_connection w a sv)
unfolding close_connection
close_connection-Held w fd a sv e live h = record {
  free = h.free;
  shared =
      rw (buffers-same sv.heap heap' sv.conns (cell_kept sv.heap a c (λ x. x.buf_idx) refl))
        h.shared;
  single = h.single;
  below = h.below;
  known =
      λ k b q. (cell_kept sv.heap a c (λ x. x.fd) refl b ∙ (h.known k b q).0, (h.known k b q).1);
  waiting = λ b q. waits b q (Bool-cases (b == a));
  marked = λ k b q r. later k b q r (Bool-cases (b == a));
  once = Distinct-snoc sv.pending_closes a h.once fresh;
}
  where
    c : ConnContext
    c = record (sv.heap a) { closing = true; close_acked = false }

    heap' : ℕ → ConnContext
    heap' = update sv.heap a c

    fresh : has a sv.pending_closes ≡ false
    fresh = elim (Bool-cases (has a sv.pending_closes)) [
      | inl z ↦ absurd (contrary (sym (h.waiting a z).0 ∙ live))
      | inr z ↦ z
    ]
      where
        contrary : true ≡ false → ⊥
        contrary q = absurd cc

    last : has a (sv.pending_closes ++ (a ∷ [])) ≡ true
    last =
        has-append a sv.pending_closes (a ∷ []) ∙ rw (==_refl a) (or-true (has a sv.pending_closes))

    later :
        (k b : ℕ)
        → lookup k sv.conns ≡ some b
        → (heap' b).closing ≡ true
        → ((b == a) ≡ true) ⊎ ((b == a) ≡ false)
        → has b (sv.pending_closes ++ (a ∷ [])) ≡ true
    later k b q r (inl z) = ap (λ x. has x (sv.pending_closes ++ (a ∷ []))) (eq_of_== b a z) ∙ last
    later k b q r (inr z) =
        has-append b sv.pending_closes (a ∷ [])
        ∙ rw (h.marked k b q (sym (ap (λ t. (if t then c else sv.heap b).closing) z) ∙ r)) refl

    waits :
        (b : ℕ)
        → has b (sv.pending_closes ++ (a ∷ [])) ≡ true
        → ((b == a) ≡ true) ⊎ ((b == a) ≡ false)
        → ((heap' b).closing ≡ true) × (lookup (heap' b).fd sv.conns ≡ some b)
    waits b q (inl z) =
        let same = eq_of_== b a z in
        rw z
          (refl, ap (λ k. lookup k sv.conns) (h.known fd a e).0 ∙ e ∙ ap (λ x. some x) (sym same))
    waits b q (inr z) =
        let old = h.waiting b (
          sym (has-append b sv.pending_closes (a ∷ []) ∙ rw z (or-false (has b sv.pending_closes)))
          ∙ q) in
        rw z old

with_cell-Held :
    (a : ℕ) (c : ConnContext) (sv : Server)
    → c.fd ≡ (sv.heap a).fd
    → c.buf_idx ≡ (sv.heap a).buf_idx
    → c.closing ≡ (sv.heap a).closing
    → Held sv
    → Held (record sv { heap = update sv.heap a c })
with_cell-Held a c sv f b k h =
    Alike-Held sv (record sv { heap = update sv.heap a c }) (with_cell-Alike a c sv f b k) h

on_recv-Held :
    (w : World) (fd a : ℕ) (xs : List ℕ) (sv : Server)
    → lookup fd sv.conns ≡ some a
    → (sv.heap a).closing ≡ false
    → Held sv
    → Held (on_recv w a xs sv)
unfolding on_recv
on_recv-Held w fd a [] sv e live h = close_connection-Held w fd a sv e live h
on_recv-Held w fd a (x ∷ xs) sv e live h =
    let s : Session = record { engine = sv.engine; symbols = sv.symbols; out = [] } in
    let k = receive-kept (x ∷ xs) (sv.heap a) s in
    let r = receive (x ∷ xs) (sv.heap a) s in
    push_responses-Held w r.0.fd r.1.out _ (
      aside-Held _ _ _ _ (record sv { heap = update sv.heap a r.0 })
        (with_cell-Held a r.0 sv k.0 k.1 k.2 h))

re_arm-Held : (fd : ℕ) (sv : Server) → Held sv → Held (re_arm fd sv)
unfolding re_arm
re_arm-Held fd sv h = elim (Option-cases (lookup fd sv.conns)) [
  | inl z ↦ rw (re_arm, z) h
  | inr (a, z) ↦ elim (Bool-cases (sv.heap a).closing) [
    | inl y ↦ rw (re_arm, z, y) h
    | inr y ↦ rw (re_arm, z, y) (Alike-Held sv _ (asked _ sv) h)
  ]
]

received-Held :
    (w : World) (fd a : ℕ) (r : Received) (sv : Server)
    → lookup fd sv.conns ≡ some a
    → (sv.heap a).closing ≡ false
    → Held sv
    → Held (received w fd a r sv)
unfolding received
received-Held w fd a (bytes xs) sv e live h = re_arm-Held fd _ (on_recv-Held w fd a xs sv e live h)
received-Held w fd a again sv e live h = Alike-Held sv _ (asked _ sv) h
received-Held w fd a reset sv e live h = re_arm-Held fd _ (on_recv-Held w fd a [] sv e live h)
received-Held w fd a failed sv e live h =
    re_arm-Held fd _
      (on_recv-Held w fd a [] (counted one_error sv) e live (aside-Held _ _ _ _ sv h))

-- Whatever comes of a receive, the buffers are as they were.
pub on_completion-Held :
    (w : World) (fd : ℕ) (r : Received) (sv : Server) → Held sv → Held (on_completion w fd r sv)
unfolding on_completion
on_completion-Held w fd r sv h = elim (Option-cases (lookup fd sv.conns)) [
  | inl z ↦ rw (on_completion, z) h
  | inr (a, z) ↦ elim (Bool-cases (sv.heap a).closing) [
    | inl y ↦ rw (on_completion, z, y) h
    | inr y ↦
        rw (on_completion, z, y)
          (received-Held w fd a r (counted one_frame sv) z y (aside-Held _ _ _ _ sv h))
  ]
]
