-- ===== src/Server/Shut.antt =====
-- The pass of `start` in src/tcp_server.cpp that ends the connections.
use mathlib.Core.Bool.{or-true}
use nebula_x.Base.{
  ℕ, ◌≡◌, refl, sym, ap, ◌∙◌, inl, inr, true, false, some, List, [], ◌∷◌, ◌++◌, ◌==◌, ==_refl,
  eq_of_==, if◌then◌else◌, has, has-append, Distinct, lookup, Bool-cases,
}
use nebula_x.Server.Conns.{World, Server, close_connection}
use nebula_x.Server.Held.{Held, keys}
use nebula_x.Server.Closing.{close_connection-Held}
use nebula_x.Server.Shutdown.{shut_conn, shut_all}

-- What the second pass keeps.
pub record Shut (sv sv' : Server) : Type 0 where
  pub conns : sv'.conns ≡ sv.conns
  pub held : Held sv'
  pub more : (b : ℕ) → has b sv.pending_closes ≡ true → has b sv'.pending_closes ≡ true

shut_conn-Shut :
    (w : World) (fd a : ℕ) (sv : Server)
    → lookup fd sv.conns ≡ some a
    → Held sv
    → Shut sv (shut_conn w fd a sv) × (has a (shut_conn w fd a sv).pending_closes ≡ true)
unfolding shut_conn close_connection
shut_conn-Shut w fd a sv e h = elim (Bool-cases (sv.heap a).closing) [
  | inl z ↦
      rw (shut_conn, z) (record { conns = refl; held = h; more = λ b q. q }, h.marked fd a e z)
  | inr z ↦
      let same : (sv.heap a).fd ≡ fd = (h.known fd a e).0 in
      let held = close_connection-Held w fd a sv e z h in
      rw (shut_conn, z, sym same)
        (
          record {
            conns = refl;
            held = held;
            more = λ b q. has-append b sv.pending_closes (a ∷ []) ∙ rw q refl;
          },
          last,
        )
]
  where
    last : has a (sv.pending_closes ++ (a ∷ [])) ≡ true
    last =
        has-append a sv.pending_closes (a ∷ []) ∙ rw (==_refl a) (or-true (has a sv.pending_closes))

-- The entries of a list are entries of the map.
abbrev pub Within : List (ℕ × ℕ) → Server → Type 0
Within [] sv = Unit
Within ((fd, a) ∷ m) sv = (lookup fd sv.conns ≡ some a) × Within m sv

Within-same : (m : List (ℕ × ℕ)) (x y : Server) → y.conns ≡ x.conns → Within m x → Within m y
Within-same [] x y e i = tt
Within-same ((fd, a) ∷ m) x y e i = (ap (lookup fd) e ∙ i.0, Within-same m x y e i.1)

pub shut_all-Shut :
    (w : World) (m : List (ℕ × ℕ)) (sv : Server)
    → Within m sv
    → Held sv
    → Shut sv (shut_all w m sv)
      × ((k b : ℕ) → lookup k m ≡ some b → has b (shut_all w m sv).pending_closes ≡ true)
unfolding shut_all lookup
shut_all-Shut w [] sv i h = (record { conns = refl; held = h; more = λ b q. q }, λ k b e. absurd cc)
shut_all-Shut w ((fd, a) ∷ m) sv i h =
    let one = shut_conn-Shut w fd a sv i.0 h in
    let next = shut_conn w fd a sv in
    let r = shut_all-Shut w m next (Within-same m sv next one.0.conns i.1) one.0.held in
    (
      record {
        conns = r.0.conns ∙ one.0.conns;
        held = r.0.held;
        more = λ b q. r.0.more b (one.0.more b q);
      },
      λ k b e. elim (Bool-cases (fd == k)) [
        | inl z ↦
            let it = found (ap (λ t. if t then some a else lookup k m) (sym z) ∙ e) in
            r.0.more b (ap (λ x. has x next.pending_closes) (sym it) ∙ one.1)
        | inr z ↦ r.1 k b (ap (λ t. if t then some a else lookup k m) (sym z) ∙ e)
      ],
    )
  where
    found : {b : ℕ} → some a ≡ some b → a ≡ b
    found q = cc

lookup-has : (k b : ℕ) (m : List (ℕ × ℕ)) → lookup k m ≡ some b → has k (keys m) ≡ true
unfolding lookup
lookup-has k b [] e = absurd cc
lookup-has k b ((i, a) ∷ m) e = elim (Bool-cases (i == k)) [
  | inl z ↦ rw (sym (eq_of_== i k z), ==_refl i) refl
  | inr z ↦
      rw (lookup-has k b m (ap (λ t. if t then some a else lookup k m) (sym z) ∙ e))
        (or-true (k == i))
]

pub Distinct-Within :
    (m : List (ℕ × ℕ)) (sv : Server)
    → Distinct (keys m)
    → ((k b : ℕ) → lookup k m ≡ some b → lookup k sv.conns ≡ some b)
    → Within m sv
unfolding lookup
Distinct-Within [] sv d sub = tt
Distinct-Within ((fd, a) ∷ m) sv d sub = (
  sub fd a (rw (==_refl fd) refl),
  Distinct-Within m sv d.1 (λ k b e. sub k b (elim (Bool-cases (fd == k)) [
    | inl z ↦
        absurd (twice (sym d.0 ∙ ap (λ x. has x (keys m)) (eq_of_== fd k z) ∙ lookup-has k b m e))
    | inr z ↦ rw z e
  ])),
)
  where
    twice : false ≡ true → ⊥
    twice q = absurd cc
