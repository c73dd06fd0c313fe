-- ===== src/Server/Accepting.antt =====
-- A connection that src/tcp_server.cpp accepts gets a buffer of its own.
use nebula_x.Base.{
  ℕ, ◌+◌, ◌<◌, ◌≡◌, refl, sym, ap, ◌∙◌, inl, inr, Bool, true, false, none, some, List, [], ◌∷◌,
  arith, length, All, lookup-put, update, ◌||◌, ◌==◌, ==_refl, ==_ne, eq_of_==, if◌then◌else◌, has,
  Distinct, lookup, put, Bool-cases, nil_idx, suc,
}
use nebula_x.Poller.{
  BufferStack, times, Shared, alloc_buffer, alloc_buffer-Shared, alloc_buffer_empty,
}
use nebula_x.Server.{ConnContext, default_conn}
use nebula_x.Server.Conns.{Server, unordered, on_accept, ask, close_fd, submit_recv}
use nebula_x.Server.Held.{Held, Alike-Held, asked, keys, buffers, length-buffers}

-- A missing key is not the first one, nor in the rest.
miss :
    (k i a : ℕ) (m : List (ℕ × ℕ))
    → lookup k ((i, a) ∷ m) ≡ none
    → ((i == k) ≡ false) × (lookup k m ≡ none)
unfolding lookup
miss k i a m e = elim (Bool-cases (i == k)) [
  | inl z ↦ absurd (absent (ap (λ b. if b then some a else lookup k m) (sym z) ∙ e))
  | inr z ↦ (z, ap (λ b. if b then some a else lookup k m) (sym z) ∙ e)
]
  where
    absent : some a ≡ none → ⊥
    absent q = absurd cc

-- A new descriptor at the end of the map.
module _ (k v : ℕ) where
  buffers-put :
      (h : ℕ → ConnContext) (j : ℕ) (m : List (ℕ × ℕ))
      → lookup k m ≡ none
      → (times j (buffers h (put unordered k v m)) ≡ times j ((h v).buf_idx ∷ buffers h m))
        × (length (put unordered k v m) ≡ suc (length m))
  unfolding put
  buffers-put h j [] e = (refl, refl)
  buffers-put h j ((i, a) ∷ m) e =
      let here = miss k i a m e in
      let r = buffers-put h j m here.1 in rw here.0 (omega (arith, r), omega (arith, r))

  keys-put :
      (j : ℕ) (m : List (ℕ × ℕ))
      → lookup k m ≡ none
      → has j (keys (put unordered k v m)) ≡ ((j == k) || has j (keys m))
  unfolding put
  keys-put j [] e = refl
  keys-put j ((i, a) ∷ m) e =
      let here = miss k i a m e in
      rw (here.0, keys-put j m here.1) (swap (j == i) (j == k) (has j (keys m)))
    where
      swap : (a b c : Bool) → (a || (b || c)) ≡ (b || (a || c))
      swap true true c = refl
      swap true false c = refl
      swap false true c = refl
      swap false false c = refl

  Distinct-put :
      (m : List (ℕ × ℕ))
      → lookup k m ≡ none
      → Distinct (keys m)
      → Distinct (keys (put unordered k v m))
  unfolding put
  Distinct-put [] e d = (refl, tt)
  Distinct-put ((i, a) ∷ m) e d =
      let here = miss k i a m e in
      rw here.0 (keys-put i m here.1 ∙ rw (here.0, d.0) refl, Distinct-put m here.1 d.1)

  below-put :
      (n : ℕ) (m : List (ℕ × ℕ))
      → v < n + 1
      → All (λ e. e.1 < n) m
      → All (λ e. e.1 < n + 1) (put unordered k v m)
  unfolding put
  below-put n [] lt all = (lt, tt)
  below-put n ((i, a) ∷ m) lt all = elim (Bool-cases (i == k)) [
    | inl z ↦ rw z (lt, below_more m all.1)
    | inr z ↦ rw z (omega (arith, all), below-put n m lt all.1)
  ]
    where
      below_more : (l : List (ℕ × ℕ)) → All (λ e. e.1 < n) l → All (λ e. e.1 < n + 1) l
      below_more [] b = tt
      below_more (x ∷ l) b = (omega (arith, b), below_more l b.1)

pub Shared-reordered :
    (b : BufferStack) (free owned owned' : List ℕ)
    → Shared b free owned
    → length owned' ≡ length owned
    → ((j : ℕ) → times j owned' ≡ times j owned)
    → Shared b free owned'
Shared-reordered b free owned owned' h len same = record {
  shown = h.shown;
  counted = omega (arith, h.counted, len);
  single = λ j. omega (arith, h.single j, same j);
}

-- A heap cell that no connection of the map has may be written.
buffers-fresh :
    (h : ℕ → ConnContext) (n : ℕ) (c : ConnContext) (m : List (ℕ × ℕ))
    → All (λ e. e.1 < n) m
    → buffers (update h n c) m ≡ buffers h m
buffers-fresh h n c [] low = refl
buffers-fresh h n c ((k, a) ∷ m) low =
    rw (==_ne a n (omega (arith, low)), buffers-fresh h n c m low.1) refl

module _ (fd i : ℕ) (sv : Server) (poller : BufferStack) (h : Held sv)
    (new : lookup fd sv.conns ≡ none) where
  abbrev conn : ConnContext
  conn = record default_conn { fd = fd; buf_idx = i }

  abbrev opened : Server
  opened = record sv {
    poller = poller;
    heap = update sv.heap sv.next_addr conn;
    next_addr = sv.next_addr + 1;
    conns = put unordered fd sv.next_addr sv.conns;
  }

  old_cell : (a : ℕ) → a < sv.next_addr → opened.heap a ≡ sv.heap a
  old_cell a lt = rw (==_ne a sv.next_addr (λ e. omega (arith, e, lt))) refl

  new_key : (k a : ℕ) → lookup k sv.conns ≡ some a → (fd == k) ≡ false
  new_key k a e = elim (Bool-cases (fd == k)) [
    | inl z ↦ absurd (nothing (sym new ∙ ap (λ l. lookup l sv.conns) (eq_of_== fd k z) ∙ e))
    | inr z ↦ z
  ]
    where
      nothing : none ≡ some a → ⊥
      nothing q = absurd cc

  opened-known :
      (k a : ℕ) → lookup k opened.conns ≡ some a → ((opened.heap a).fd ≡ k) × (a < opened.next_addr)
  opened-known k a e = elim (Bool-cases (fd == k)) [
    | inl z ↦
        let at : sv.next_addr ≡ a = same_addr (
          sym (put_found (fd == k) z)
          ∙ sym (lookup-put unordered fd k sv.next_addr sv.conns)
          ∙ e) in
        rw (sym at, ==_refl sv.next_addr) (eq_of_== fd k z, omega arith)
    | inr z ↦
        let old = h.known k a (
          sym (put_missed (fd == k) z)
          ∙ sym (lookup-put unordered fd k sv.next_addr sv.conns)
          ∙ e) in
        rw (old_cell a old.1) (old.0, omega (arith, old.1))
  ]
    where
      same_addr : {x y : ℕ} → some x ≡ some y → x ≡ y
      same_addr q = cc

      put_found :
          (b : Bool)
          → b ≡ true
          → (if b then some sv.next_addr else lookup k sv.conns) ≡ some sv.next_addr
      put_found b q = rw q refl

      put_missed :
          (b : Bool)
          → b ≡ false
          → (if b then some sv.next_addr else lookup k sv.conns) ≡ lookup k sv.conns
      put_missed b q = rw q refl

  opened-waiting :
      (a : ℕ)
      → has a sv.pending_closes ≡ true
      → ((opened.heap a).closing ≡ true) × (lookup (opened.heap a).fd opened.conns ≡ some a)
  opened-waiting a e =
      let w = h.waiting a e in
      let lt = (h.known (sv.heap a).fd a w.1).1 in
      rw (old_cell a lt) (
        w.0,
        lookup-put unordered fd (sv.heap a).fd sv.next_addr sv.conns
            ∙ rw (new_key (sv.heap a).fd a w.1) w.1,
      )

  opened-marked :
      (k a : ℕ)
      → lookup k opened.conns ≡ some a
      → (opened.heap a).closing ≡ true
      → has a sv.pending_closes ≡ true
  opened-marked k a e c = elim (Bool-cases (fd == k)) [
    | inl z ↦
        let at : sv.next_addr ≡ a = same_addr (sym (found z) ∙ e) in
        absurd (
          unmarked (
            sym
              (ap (λ b. (if b then conn else sv.heap a).closing) (ap (λ x. a == x) at ∙ ==_refl a))
            ∙ c))
    | inr z ↦
        let q = sym (missed z) ∙ e in
        h.marked k a q (ap (λ x. x.closing) (sym (old_cell a (h.known k a q).1)) ∙ c)
  ]
    where
      same_addr : {x y : ℕ} → some x ≡ some y → x ≡ y
      same_addr q = cc

      unmarked : false ≡ true → ⊥
      unmarked q = absurd cc

      found : (fd == k) ≡ true → lookup k opened.conns ≡ some sv.next_addr
      found z = lookup-put unordered fd k sv.next_addr sv.conns ∙ rw z refl

      missed : (fd == k) ≡ false → lookup k opened.conns ≡ lookup k sv.conns
      missed z = lookup-put unordered fd k sv.next_addr sv.conns ∙ rw z refl

  reordered :
      (j : ℕ) → times j (buffers opened.heap opened.conns) ≡ times j (i ∷ buffers sv.heap sv.conns)
  reordered j =
      (buffers-put fd sv.next_addr opened.heap j sv.conns new).0
      ∙ rw (==_refl sv.next_addr, buffers-fresh sv.heap sv.next_addr conn sv.conns h.below) refl

  opened-Held : (free : List ℕ) → Shared poller free (i ∷ buffers sv.heap sv.conns) → Held opened
  opened-Held free sh = record {
    free = free;
    shared =
        Shared-reordered poller free (i ∷ buffers sv.heap sv.conns)
          (buffers opened.heap opened.conns) sh
          (omega (
            arith,
            length-buffers opened.heap opened.conns,
            length-buffers sv.heap sv.conns,
            (buffers-put fd sv.next_addr opened.heap 0 sv.conns new).1,
          ))
          reordered;
    single = Distinct-put fd sv.next_addr sv.conns new h.single;
    below = below-put fd sv.next_addr sv.next_addr sv.conns (omega arith) h.below;
    known = opened-known;
    waiting = opened-waiting;
    marked = opened-marked;
    once = h.once;
  }

-- A connection that is accepted under a descriptor that is not in the map gets a buffer of its own,
-- or none is free and nothing changes.
pub on_accept-Held :
    (fd : ℕ) (sv : Server) → lookup fd sv.conns ≡ none → Held sv → Held (on_accept fd sv)
unfolding on_accept
on_accept-Held fd sv new h = go h.free h.shared
  where
    go : (free : List ℕ) → Shared sv.poller free (buffers sv.heap sv.conns) → Held (on_accept fd sv)
    go [] sh =
        rw (on_accept, alloc_buffer_empty sv.poller (buffers sv.heap sv.conns) sh)
          (Alike-Held sv (ask (close_fd fd) sv) (asked (close_fd fd) sv) h)
    go (i ∷ free) sh =
        let a = alloc_buffer-Shared sv.poller i free (buffers sv.heap sv.conns) sh in
        let real : (i == nil_idx) ≡ false = ground (arith, a.1) in
        let poller = (alloc_buffer sv.poller).1 in
        rw (on_accept, a.0, real)
          (Alike-Held (opened fd i sv poller h new)
            (ask (submit_recv fd i) (opened fd i sv poller h new))
            (asked (submit_recv fd i) (opened fd i sv poller h new))
            (opened-Held fd i sv poller h new free a.2))
