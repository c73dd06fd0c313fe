-- ===== src/Server/Turns.antt =====
-- The turns of the event loop of src/tcp_server.cpp.
use mathlib.Core.Path.{subst}
use mathlib.Core.List.{append-nil, append_assoc}
use nebula_x.Base.{
  ℕ, ◌<◌, ◌≡◌, refl, sym, ap, ◌∙◌, inl, inr, true, false, none, some, List, [], ◌∷◌, ◌++◌, arith,
  length, ◌||◌, ◌==◌, ==_refl, eq_of_==, if◌then◌else◌, has, has-append, Distinct, lookup, erase,
  lookup-erase, All, Bool-cases, suc,
}
use nebula_x.Book.Unlink.{Distinct-mid}
use nebula_x.Poller.{times, free_buffer, free_buffer-Shared}
use nebula_x.Server.{ConnContext}
use nebula_x.Server.Conns.{
  World, Server, ask, submit_accept, Completion, accepted, timed_out, recv_done, drain_closes,
  drain_pending_close, process_cqe, process_cqes, turn, on_accept,
}
use nebula_x.Server.Held.{Held, Alike-Held, asked, buffers, length-buffers, keys}
use nebula_x.Server.Accepting.{on_accept-Held}
use nebula_x.Server.Closing.{on_completion-Held}

-- A key that the map does not have.
pub erase_missing : (k : ℕ) (m : List (ℕ × ℕ)) → has k (keys m) ≡ false → erase k m ≡ m
unfolding erase
erase_missing k [] e = refl
erase_missing k ((i, a) ∷ m) e =
    let other : (i == k) ≡ false = ground (arith, e) in
    rw other (ap (λ l. (i, a) ∷ l) (erase_missing k m (ground (arith, e))))

has-erase : (k j : ℕ) (m : List (ℕ × ℕ)) → has j (keys m) ≡ false → has j (keys (erase k m)) ≡ false
unfolding erase
has-erase k j [] e = refl
has-erase k j ((i, a) ∷ m) e = elim (Bool-cases (i == k)) [
  | inl z ↦ rw z (has-erase k j m (ground (arith, e)))
  | inr z ↦ rw z (ground (arith, e, has-erase k j m (ground (arith, e))))
]

Distinct-erase : (k : ℕ) (m : List (ℕ × ℕ)) → Distinct (keys m) → Distinct (keys (erase k m))
unfolding erase
Distinct-erase k [] d = tt
Distinct-erase k ((i, a) ∷ m) d = elim (Bool-cases (i == k)) [
  | inl z ↦ rw z (Distinct-erase k m d.1)
  | inr z ↦ rw z (has-erase k i m d.0, Distinct-erase k m d.1)
]

below-erase : (n k : ℕ) (m : List (ℕ × ℕ)) → All (λ e. e.1 < n) m → All (λ e. e.1 < n) (erase k m)
unfolding erase
below-erase n k [] b = tt
below-erase n k ((i, a) ∷ m) b = elim (Bool-cases (i == k)) [
  | inl z ↦ rw z (below-erase n k m b.1)
  | inr z ↦ rw z (b.0, below-erase n k m b.1)
]

-- Erasing a connection takes its buffer out.
buffers-erase :
    (h : ℕ → ConnContext) (k a j : ℕ) (m : List (ℕ × ℕ))
    → lookup k m ≡ some a
    → Distinct (keys m)
    → (times j (buffers h m) ≡ times j ((h a).buf_idx ∷ buffers h (erase k m)))
      × (length m ≡ suc (length (erase k m)))
unfolding lookup erase
buffers-erase h k a j [] e d = absurd cc
buffers-erase h k a j ((i, b) ∷ m) e d = elim (Bool-cases (i == k)) [
  | inl z ↦
      let same : b ≡ a = found (ap (λ t. if t then some b else lookup k m) (sym z) ∙ e) in
      let gone = erase_missing k m (ap (λ t. has t (keys m)) (sym (eq_of_== i k z)) ∙ d.0) in
      rw (z, gone, same) (refl, refl)
  | inr z ↦
      let r =
        buffers-erase h k a j m (ap (λ t. if t then some b else lookup k m) (sym z) ∙ e) d.1 in
      rw z (omega (arith, r), omega (arith, r))
]
  where
    found : some b ≡ some a → b ≡ a
    found q = cc

-- A connection whose end is acknowledged gives its buffer back.
module _ (a : ℕ) (kept rest : List ℕ) (sv : Server)
    (h : Held (record sv { pending_closes = kept ++ a ∷ rest })) where
  abbrev fd : ℕ
  fd = (sv.heap a).fd

  abbrev released : Server
  released = record sv {
    poller = free_buffer sv.poller (sv.heap a).buf_idx;
    conns = erase fd sv.conns;
    pending_closes = kept ++ rest;
  }

  has-mid : (b : ℕ) → has b (kept ++ a ∷ rest) ≡ ((b == a) || has b (kept ++ rest))
  has-mid b = ground (arith, has-append b kept (a ∷ rest), has-append b kept rest)

  there : lookup fd sv.conns ≡ some a
  there = (h.waiting a (rw (has-mid a, ==_refl a) refl)).1

  still : (k b : ℕ) → (fd == k) ≡ false → lookup k (erase fd sv.conns) ≡ lookup k sv.conns
  still k b z = lookup-erase fd k sv.conns ∙ rw z refl

  released-known :
      (k b : ℕ) → lookup k released.conns ≡ some b → ((sv.heap b).fd ≡ k) × (b < sv.next_addr)
  released-known k b e = elim (Bool-cases (fd == k)) [
    | inl z ↦ absurd (nothing (sym (lookup-erase fd k sv.conns ∙ rw z refl) ∙ e))
    | inr z ↦ h.known k b (sym (still k b z) ∙ e)
  ]
    where
      nothing : none ≡ some b → ⊥
      nothing q = absurd cc

  released-waiting :
      (b : ℕ)
      → has b (kept ++ rest) ≡ true
      → ((sv.heap b).closing ≡ true) × (lookup (sv.heap b).fd released.conns ≡ some b)
  released-waiting b e =
      let w = h.waiting b (has-mid b ∙ ground (arith, e)) in
      (w.0, still (sv.heap b).fd b (other w.1) ∙ w.1)
    where
      same : some a ≡ some b → a ≡ b
      same q = cc

      twice : false ≡ true → ⊥
      twice q = absurd cc

      other : lookup (sv.heap b).fd sv.conns ≡ some b → (fd == (sv.heap b).fd) ≡ false
      other q = elim (Bool-cases (fd == (sv.heap b).fd)) [
        | inl z ↦
            let one =
              same (sym there ∙ ap (λ k. lookup k sv.conns) (eq_of_== fd (sv.heap b).fd z) ∙ q) in
            absurd (
              twice
                (sym (Distinct-mid kept rest a h.once).1 ∙ ap (λ k. has k (kept ++ rest)) one ∙ e))
        | inr z ↦ z
      ]

  released-marked :
      (k b : ℕ)
      → lookup k released.conns ≡ some b
      → (sv.heap b).closing ≡ true
      → has b (kept ++ rest) ≡ true
  released-marked k b e c = elim (Bool-cases (fd == k)) [
    | inl z ↦ absurd (nothing (sym (lookup-erase fd k sv.conns ∙ rw z refl) ∙ e))
    | inr z ↦
        let old = sym (still k b z) ∙ e in
        elim (Bool-cases (b == a)) [
          | inl y ↦
              absurd (apart (sym z ∙ rw (sym (h.known k b old).0, eq_of_== b a y) (==_refl fd)))
          | inr y ↦
              sym (ap (λ t. t || has b (kept ++ rest)) y) ∙ sym (has-mid b) ∙ h.marked k b old c
        ]
  ]
    where
      nothing : none ≡ some b → ⊥
      nothing q = absurd cc

      apart : false ≡ true → ⊥
      apart q = absurd cc

  released-Held : Held released
  released-Held = record {
    free = (sv.heap a).buf_idx ∷ h.free;
    shared =
        free_buffer-Shared sv.poller (sv.heap a).buf_idx h.free (buffers sv.heap sv.conns)
          (buffers sv.heap (erase fd sv.conns)) h.shared
          (omega (
            arith,
            length-buffers sv.heap sv.conns,
            length-buffers sv.heap (erase fd sv.conns),
            (buffers-erase sv.heap fd a 0 sv.conns there h.single).1,
          ))
          (λ j. (buffers-erase sv.heap fd a j sv.conns there h.single).0);
    single = Distinct-erase fd sv.conns h.single;
    below = below-erase sv.next_addr fd sv.conns h.below;
    known = released-known;
    waiting = released-waiting;
    marked = released-marked;
    once = (Distinct-mid kept rest a h.once).0;
  }

pub drain_closes-Held :
    (rest kept : List ℕ) (sv : Server)
    → Held (record sv { pending_closes = kept ++ rest })
    → Held (drain_closes rest kept sv)
unfolding drain_closes
drain_closes-Held [] kept sv h =
    Alike-Held (record sv { pending_closes = kept ++ [] }) (record sv { pending_closes = kept })
      (record {
        poller = refl;
        conns = refl;
        next_addr = refl;
        pending = sym (append-nil kept);
        fds = λ a. refl;
        bufs = λ a. refl;
        flags = λ a. refl;
      })
      h
drain_closes-Held (a ∷ rest) kept sv h = elim (Bool-cases (sv.heap a).close_acked) [
  | inl z ↦ rw (drain_closes, z) (drain_closes-Held rest kept _ (released-Held a kept rest sv h))
  | inr z ↦
      rw (drain_closes, z)
        (drain_closes-Held rest (kept ++ (a ∷ [])) sv (
          subst (λ l. Held (record sv { pending_closes = l }))
            (sym (append_assoc kept (a ∷ []) rest)) h))
]

-- The descriptors that the kernel accepts are none that the map has at that time.
abbrev pub NewFds : World → List Completion → Server → Type 0
NewFds w [] sv = Unit
NewFds w (accepted fd ∷ cs) sv =
    (lookup fd sv.conns ≡ none) × NewFds w cs (process_cqe w (accepted fd) sv)
NewFds w (timed_out ∷ cs) sv = NewFds w cs (process_cqe w timed_out sv)
NewFds w (recv_done fd r ∷ cs) sv = NewFds w cs (process_cqe w (recv_done fd r) sv)

process_cqes-Held :
    (w : World) (cs : List Completion) (sv : Server)
    → NewFds w cs sv
    → Held sv
    → Held (process_cqes w cs sv)
unfolding process_cqes process_cqe
process_cqes-Held w [] sv new h = h
process_cqes-Held w (accepted fd ∷ cs) sv new h =
    let opened = on_accept fd sv in
    process_cqes-Held w cs (ask submit_accept opened) new.1 (
      Alike-Held opened (ask submit_accept opened) (asked submit_accept opened)
        (on_accept-Held fd sv new.0 h))
process_cqes-Held w (timed_out ∷ cs) sv new h = process_cqes-Held w cs sv new h
process_cqes-Held w (recv_done fd r ∷ cs) sv new h =
    process_cqes-Held w cs _ new (on_completion-Held w fd r sv h)

-- Where the accepted descriptors are none that the map still has, a turn of the event loop over any
-- completions keeps the connections in order: each of the 64 buffers is free or belongs to one
-- connection of the map, and the connections that wait for their end are those of the map that are
-- being closed, each once.
pub turn-Held :
    (w : World) (cs : List Completion) (sv : Server)
    → NewFds w cs sv
    → Held sv
    → Held (turn w cs sv)
unfolding turn drain_pending_close
turn-Held w cs sv new h =
    drain_closes-Held (process_cqes w cs sv).pending_closes [] (process_cqes w cs sv)
      (process_cqes-Held w cs sv new h)
