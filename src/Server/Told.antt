-- ===== src/Server/Told.antt =====
-- The RSP_CLOSE frames of the shutdown in src/tcp_server.cpp.
use mathlib.Core.List.{append-nil, append_assoc}
use nebula_x.Base.{
  ℕ, suc, ◌+◌, ◌*◌, ◌≤◌, ◌≡◌, refl, sym, ap, ◌∙◌, true, false, Bool, not, List, [], ◌∷◌, ◌++◌,
  arith, length, ◌==◌, ==_refl, if◌then◌else◌, update, has, Distinct, All,
}
use nebula_x.Ring.{SpscByteRing, ring_size, used, push}
use nebula_x.Ring.Bytes.{contents}
use nebula_x.Ring.Pop.{Fits}
use nebula_x.Server.{ConnContext}
use nebula_x.Server.Conns.{World, Server, RingFrame, rsp_close, response_size, retry_push, notifies}
use nebula_x.Server.Shutdown.{shut_conn, shut_all, store_acks, addresses, close_frames}
use nebula_x.Sender.Pushed.{push-whole}

-- The first try succeeds where there is room.
retry_push-first :
    (f : ℕ) (w : World) (r : SpscByteRing) (xs : List ℕ)
    → ((push r xs).0 == 0) ≡ false
    → retry_push (suc f) w 0 r xs ≡ (0, (push r xs).1)
unfolding retry_push
retry_push-first f w r xs e = rw (retry_push, e) refl

-- A cell that no entry has may be written.
All-update :
    (P : ConnContext → Type 0) (h : ℕ → ConnContext) (a : ℕ) (c : ConnContext) (m : List (ℕ × ℕ))
    → has a (addresses m) ≡ false
    → All (λ e. P (h e.1)) m
    → All (λ e. P (update h a c e.1)) m
All-update P h a c [] d k = tt
All-update P h a c ((fd, b) ∷ m) d k =
    let other : (b == a) ≡ false = ground (arith, d) in
    (rw other k.0, All-update P h a c m (ground (arith, d)) k.1)

abbrev pub next_server : World → ℕ → ℕ → Server → Server
next_server w fd a sv = record sv {
  heap = update sv.heap a (record (sv.heap a) { closing = true; close_acked = false });
  ring = (push sv.ring (w.image (rsp_close fd a))).1;
  pending_closes = sv.pending_closes ++ (a ∷ []);
  effects = sv.effects ++ notifies 0;
}

shut_conn-next :
    (w : World) (fd a : ℕ) (sv : Server)
    → (sv.heap a).closing ≡ false
    → ((push sv.ring (w.image (rsp_close fd a))).0 == 0) ≡ false
    → shut_conn w fd a sv ≡ next_server w fd a sv
unfolding shut_conn
shut_conn-next w fd a sv open_still room =
    rw (shut_conn, open_still, retry_push-first 10000 w sv.ring (w.image (rsp_close fd a)) room)
      refl

-- What the second pass leaves: a frame for each entry in the ring, the entries behind those that
-- wait already, and their flags cleared.
pub record Told (w : World) (m : List (ℕ × ℕ)) (sv sv' : Server) : Type 0 where
  pub ring : contents sv'.ring ≡ contents sv.ring ++ close_frames w m
  pub fits : Fits sv'.ring
  pub pending : sv'.pending_closes ≡ sv.pending_closes ++ addresses m
  pub clear : All (λ e. (sv'.heap e.1).close_acked ≡ false) m
  pub others : (b : ℕ) → has b (addresses m) ≡ false → sv'.heap b ≡ sv.heap b

pub shut_all-Told :
    (w : World) (m : List (ℕ × ℕ)) (sv : Server)
    → ((x : RingFrame) → length (w.image x) ≡ response_size)
    → Fits sv.ring
    → used sv.ring + length m * 48 ≤ ring_size
    → Distinct (addresses m)
    → All (λ e. (sv.heap e.1).closing ≡ false) m
    → Told w m sv (shut_all w m sv)
unfolding shut_all
shut_all-Told w [] sv size fits room d live = record {
  ring = sym (append-nil (contents sv.ring));
  fits = fits;
  pending = sym (append-nil sv.pending_closes);
  clear = tt;
  others = λ b e. refl;
}
shut_all-Told w ((fd, a) ∷ m) sv size fits room d live =
    let image = w.image (rsp_close fd a) in
    let long = size (rsp_close fd a) in
    let pushed = push-whole sv.ring image fits (omega (arith, long, room)) in
    let step = shut_conn-next w fd a sv live.0 (ground (arith, pushed.3, long)) in
    let next = next_server w fd a sv in
    let later =
      shut_all-Told w m next size pushed.1 (omega (arith, pushed.2, long, room)) d.1
        (All-update (λ c. c.closing ≡ false) sv.heap a _ m d.0 live.1) in
    rw (shut_all, step)
      (record {
        ring = later.ring ∙ rw pushed.0 (append_assoc (contents sv.ring) image (close_frames w m));
        fits = later.fits;
        pending = later.pending ∙ append_assoc sv.pending_closes (a ∷ []) (addresses m);
        clear = (ap (λ c. c.close_acked) (later.others a d.0) ∙ rw (==_refl a) refl, later.clear);
        others = λ b e.
            let other : (b == a) ≡ false = ground (arith, e) in
            later.others b (ground (arith, e)) ∙ rw other refl;
      })

-- The entries whose flag is set late: the last, or none.
abbrev pub unstored : Bool → List (ℕ × ℕ) → List (ℕ × ℕ)
unstored late [] = []
unstored late (x ∷ []) = if late then x ∷ [] else []
unstored late (x ∷ y ∷ m) = unstored late (y ∷ m)

-- The flags of all entries but those are set.
abbrev pub AckedBut : Bool → List (ℕ × ℕ) → (ℕ → ConnContext) → Type 0
AckedBut late [] h = Unit
AckedBut late ((fd, a) ∷ []) h = (h a).close_acked ≡ not late
AckedBut late ((fd, a) ∷ y ∷ m) h = ((h a).close_acked ≡ true) × AckedBut late (y ∷ m) h

store_acks-other :
    (late : Bool) (acks : List ℕ) (h : ℕ → ConnContext) (b : ℕ)
    → has b acks ≡ false
    → store_acks late acks h b ≡ h b
unfolding store_acks
store_acks-other late [] h b e = refl
store_acks-other true (a ∷ []) h b e = refl
store_acks-other false (a ∷ []) h b e =
    let other : (b == a) ≡ false = ground (arith, e) in rw other refl
store_acks-other late (a ∷ c ∷ acks) h b e =
    let other : (b == a) ≡ false = ground (arith, e) in
    store_acks-other late (c ∷ acks) _ b (ground (arith, e)) ∙ rw other refl

pub store_acks-AckedBut :
    (late : Bool) (m : List (ℕ × ℕ)) (h : ℕ → ConnContext)
    → Distinct (addresses m)
    → All (λ e. (h e.1).close_acked ≡ false) m
    → AckedBut late m (store_acks late (addresses m) h)
unfolding store_acks
store_acks-AckedBut late [] h d k = tt
store_acks-AckedBut true ((fd, a) ∷ []) h d k = k.0
store_acks-AckedBut false ((fd, a) ∷ []) h d k = rw (==_refl a) refl
store_acks-AckedBut late ((fd, a) ∷ (fd', b) ∷ m) h d k =
    let c : ConnContext = record (h a) { close_acked = true } in
    (
      ap (λ x. x.close_acked) (store_acks-other late (b ∷ addresses m) (update h a c) a d.0)
          ∙ rw (==_refl a) refl,
      store_acks-AckedBut late ((fd', b) ∷ m) (update h a c) d.1
          (All-update (λ x. x.close_acked ≡ false) h a c ((fd', b) ∷ m) d.0 k.1),
    )
