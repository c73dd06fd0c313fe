-- ===== src/Server/Held.antt =====
-- The buffers of src/tcp_server.cpp: each is free or belongs to one connection of the map.
use nebula_x.Base.{
  ℕ, ◌<◌, ◌≡◌, refl, sym, ap, ◌∙◌, true, some, List, [], ◌∷◌, arith, length, All, has, Distinct,
  lookup,
}
use nebula_x.Poller.{Shared}
use nebula_x.Server.{ConnContext}
use nebula_x.Server.Conns.{Server, Effect, ask}

abbrev pub keys : List (ℕ × ℕ) → List ℕ
keys [] = []
keys ((k, a) ∷ m) = k ∷ keys m

-- The buffers of the connections in the map.
abbrev pub buffers : (ℕ → ConnContext) → List (ℕ × ℕ) → List ℕ
buffers h [] = []
buffers h ((k, a) ∷ m) = (h a).buf_idx ∷ buffers h m

pub length-buffers : (h : ℕ → ConnContext) (m : List (ℕ × ℕ)) → length (buffers h m) ≡ length m
length-buffers h [] = refl
length-buffers h ((k, a) ∷ m) = omega (arith, length-buffers h m)

-- Every buffer is free or belongs to one connection; a connection stands in the map under its
-- descriptor; those that wait for the end of their closing are the marked ones of the
-- map, and each waits once.
pub record Held (sv : Server) : Type 0 where
  pub free : List ℕ
  pub shared : Shared sv.poller free (buffers sv.heap sv.conns)
  pub single : Distinct (keys sv.conns)
  pub below : All (λ e. e.1 < sv.next_addr) sv.conns
  pub known : (fd a : ℕ) → lookup fd sv.conns ≡ some a → ((sv.heap a).fd ≡ fd) × (a < sv.next_addr)
  pub waiting :
      (a : ℕ)
      → has a sv.pending_closes ≡ true
      → ((sv.heap a).closing ≡ true) × (lookup (sv.heap a).fd sv.conns ≡ some a)
  pub marked :
      (fd a : ℕ)
      → lookup fd sv.conns ≡ some a
      → (sv.heap a).closing ≡ true
      → has a sv.pending_closes ≡ true
  pub once : Distinct sv.pending_closes

-- The connections are the same but for their bytes and flags.
pub record Alike (sv sv' : Server) : Type 0 where
  pub poller : sv'.poller ≡ sv.poller
  pub conns : sv'.conns ≡ sv.conns
  pub next_addr : sv'.next_addr ≡ sv.next_addr
  pub pending : sv'.pending_closes ≡ sv.pending_closes
  pub fds : (a : ℕ) → (sv'.heap a).fd ≡ (sv.heap a).fd
  pub bufs : (a : ℕ) → (sv'.heap a).buf_idx ≡ (sv.heap a).buf_idx
  pub flags : (a : ℕ) → (sv'.heap a).closing ≡ (sv.heap a).closing

pub buffers-same :
    (h h' : ℕ → ConnContext) (m : List (ℕ × ℕ))
    → ((a : ℕ) → (h' a).buf_idx ≡ (h a).buf_idx)
    → buffers h' m ≡ buffers h m
buffers-same h h' [] e = refl
buffers-same h h' ((k, a) ∷ m) e = rw (e a) (ap (λ l. (h a).buf_idx ∷ l) (buffers-same h h' m e))

pub Alike-Held : (sv sv' : Server) → Alike sv sv' → Held sv → Held sv'
Alike-Held sv sv' k h = record {
  free = h.free;
  shared = rw (k.poller, k.conns, buffers-same sv.heap sv'.heap sv.conns k.bufs) h.shared;
  single = rw k.conns h.single;
  below = rw (k.conns, k.next_addr) h.below;
  known = λ fd a e. rw (k.fds a, k.next_addr) (h.known fd a (ap (lookup fd) (sym k.conns) ∙ e));
  waiting = λ a e. rw (k.flags a, k.fds a, k.conns) (h.waiting a (ap (has a) (sym k.pending) ∙ e));
  marked = λ fd a e c.
      ap (has a) k.pending ∙ h.marked fd a (ap (lookup fd) (sym k.conns) ∙ e) (sym (k.flags a) ∙ c);
  once = rw k.pending h.once;
}

pub asked : (x : Effect) (sv : Server) → Alike sv (ask x sv)
asked x sv = record {
  poller = refl;
  conns = refl;
  next_addr = refl;
  pending = refl;
  fds = λ a. refl;
  bufs = λ a. refl;
  flags = λ a. refl;
}
