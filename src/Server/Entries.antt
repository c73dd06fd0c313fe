-- ===== src/Server/Entries.antt =====
-- The entries of the map of connections in src/tcp_server.cpp, and the last drain over all of them.
use mathlib.Core.Bool.{or-true}
use mathlib.Core.List.{append-nil}
use nebula_x.Base.{
  ℕ, ◌≡◌, refl, sym, ap, ◌∙◌, inl, inr, true, false, Bool, ◌||◌, List, [], ◌∷◌, ◌++◌, ◌==◌, ==_refl,
  eq_of_==, has, erase, Distinct, All, Bool-cases,
}
use nebula_x.Poller.{free_buffer}
use nebula_x.Server.{ConnContext}
use nebula_x.Server.Conns.{Server, drain_closes}
use nebula_x.Server.Held.{Held, keys}
use nebula_x.Server.Turns.{erase_missing}
use nebula_x.Server.Shutdown.{addresses}
use nebula_x.Server.Shut.{Within}
use nebula_x.Server.Told.{unstored, AckedBut}

-- The entries stand under their descriptors.
abbrev pub Named : List (ℕ × ℕ) → (ℕ → ConnContext) → Type 0
Named m h = All (λ e. (h e.1).fd ≡ e.0) m

pub Within-Named : (m : List (ℕ × ℕ)) (sv : Server) → Held sv → Within m sv → Named m sv.heap
Within-Named [] sv h i = tt
Within-Named ((fd, a) ∷ m) sv h i = ((h.known fd a i.0).0, Within-Named m sv h i.1)

-- What a map without waiting closes is open.
pub Within-open :
    (m : List (ℕ × ℕ)) (sv : Server)
    → Held sv
    → sv.pending_closes ≡ []
    → Within m sv
    → All (λ e. (sv.heap e.1).closing ≡ false) m
Within-open [] sv h e i = tt
Within-open ((fd, a) ∷ m) sv h e i = (
  elim (Bool-cases (sv.heap a).closing) [
    | inl z ↦ absurd (none_waits (sym (h.marked fd a i.0 z) ∙ ap (has a) e))
    | inr z ↦ z
  ],
  Within-open m sv h e i.1,
)
  where
    none_waits : true ≡ false → ⊥
    none_waits q = absurd cc

has-keys :
    (m : List (ℕ × ℕ)) (h : ℕ → ConnContext) (a : ℕ)
    → Named m h
    → has a (addresses m) ≡ true
    → has (h a).fd (keys m) ≡ true
has-keys [] h a n e = absurd cc
has-keys ((fd, b) ∷ m) h a n e = elim (Bool-cases (a == b)) [
  | inl z ↦ rw (eq_of_== a b z, n.0, ==_refl fd) refl
  | inr z ↦
      rw (has-keys m h a n.1 (sym (ap (λ t. t || has a (addresses m)) z) ∙ e))
        (or-true ((h a).fd == fd))
]

-- Connections under different descriptors are different.
pub Distinct-addresses :
    (m : List (ℕ × ℕ)) (h : ℕ → ConnContext)
    → Named m h
    → Distinct (keys m)
    → Distinct (addresses m)
Distinct-addresses [] h n d = tt
Distinct-addresses ((fd, a) ∷ m) h n d = (
  elim (Bool-cases (has a (addresses m))) [
    | inl z ↦ absurd (twice (sym (has-keys m h a n.1 z) ∙ ap (λ k. has k (keys m)) n.0 ∙ d.0))
    | inr z ↦ z
  ],
  Distinct-addresses m h n.1 d.1,
)
  where
    twice : true ≡ false → ⊥
    twice q = absurd cc

erase_first : (fd a : ℕ) (m : List (ℕ × ℕ)) → has fd (keys m) ≡ false → erase fd ((fd, a) ∷ m) ≡ m
unfolding erase
erase_first fd a m d = rw (==_refl fd) (erase_missing fd m d)

-- `drainPendingClose` over all entries of the map leaves those whose flag is not set.
pub drain_closes-unstored :
    (late : Bool) (m : List (ℕ × ℕ)) (kept : List ℕ) (sv : Server)
    → sv.conns ≡ m
    → Distinct (keys m)
    → Named m sv.heap
    → AckedBut late m sv.heap
    → ((drain_closes (addresses m) kept sv).conns ≡ unstored late m)
      × ((drain_closes (addresses m) kept sv).pending_closes ≡ kept ++ addresses (unstored late m))
      × ((drain_closes (addresses m) kept sv).ring ≡ sv.ring)
      × ((drain_closes (addresses m) kept sv).effects ≡ sv.effects)
unfolding drain_closes erase
drain_closes-unstored late [] kept sv e d n k = (e, sym (append-nil kept), refl, refl)
drain_closes-unstored true ((fd, a) ∷ []) kept sv e d n k =
    rw (drain_closes, k) (e, refl, refl, refl)
drain_closes-unstored false ((fd, a) ∷ []) kept sv e d n k =
    rw (drain_closes, k, e, n.0, ==_refl fd) (refl, sym (append-nil kept), refl, refl)
drain_closes-unstored late ((fd, a) ∷ y ∷ m) kept sv e d n k =
    rw (drain_closes, k.0)
      (drain_closes-unstored late (y ∷ m) kept
        (record sv {
          poller = free_buffer sv.poller (sv.heap a).buf_idx;
          conns = erase (sv.heap a).fd sv.conns;
        })
        (ap (erase (sv.heap a).fd) e
          ∙ ap (λ x. erase x ((fd, a) ∷ y ∷ m)) n.0
          ∙ erase_first fd a (y ∷ m) d.0)
        d.1 n.1 k.1)
