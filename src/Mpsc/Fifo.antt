-- ===== src/Mpsc/Fifo.antt =====
-- Without a lap, include/mpsc_ring.h is a queue.
use native.Mathlib.Nat.{add-mod_right}
use nebula_x.Base.{
  ℕ, suc, ◌+◌, ◌-◌, ◌%◌, ◌≡◌, ◌≢◌, ◌<◌, ◌≤◌, refl, sym, ap, ◌∙◌, inl, inr, true, false, Bool, arith,
  update, ltb, ◌==◌, ==_refl, ==_ne, eq_of_==, ne_of_==, Bool-cases,
}
use nebula_x.Mpsc.{
  Phase, unborn, waiting, seen, marked, filled, committed, MpscRing, busy_mark, new_mpsc, slot_of,
  read_slot, consume, Step, fetch, look, mark, write, commit, take_front, NoLap, Reach, begin,
  later,
}
use nebula_x.Mpsc.Window.{
  expected, has_data, first_written, Queue, slots_differ, Access-Queue, in_window,
}

-- A new index, which is not a lap ahead.
fetch-Queue :
    (c : ℕ) (r : MpscRing)
    → Queue c r
    → r.claim_idx + 1 < r.read_cursor + c
    → r.claim_idx + 1 < busy_mark
    → Queue c (record r { claim_idx = r.claim_idx + 1; phase = update r.phase r.claim_idx waiting })
fetch-Queue c r q room few = record {
  base = q.base;
  at = q.at;
  low = omega (arith, q.low);
  in_lap = omega (arith, q.at, room);
  few = few;
  fresh =
      λ i le. rw (==_ne i r.claim_idx (λ e. omega (arith, e, le))) (q.fresh i (omega (arith, le)));
  born = λ i lt. elim (Bool-cases (i == r.claim_idx)) [
    | inl z ↦ rw z (λ e. absurd cc)
    | inr z ↦ rw z (q.born i (omega (arith, lt, ne_of_== i r.claim_idx z)))
  ];
  done = λ i lt. rw (==_ne i r.claim_idx (λ e. omega (arith, e, lt, q.low))) (q.done i lt);
  seqs = λ i lo hi. q.seqs i lo hi ∙ same i;
  data_there = λ i lo hi d. q.data_there i lo hi (data_same i d);
  out = q.out;
}
  where
    same : (i : ℕ) → expected (r.phase i) i ≡ expected (update r.phase r.claim_idx waiting i) i
    same i = elim (Bool-cases (i == r.claim_idx)) [
      | inl z ↦
          rw (z, ap r.phase (eq_of_== i r.claim_idx z) ∙ q.fresh r.claim_idx (omega arith)) refl
      | inr z ↦ rw z refl
    ]

    data_same :
        (i : ℕ)
        → has_data (update r.phase r.claim_idx waiting i) ≡ true
        → has_data (r.phase i) ≡ true
    data_same i = elim (Bool-cases (i == r.claim_idx)) [
      | inl z ↦ rw z (λ d. absurd cc)
      | inr z ↦ rw z (λ d. d)
    ]

module _ (c : ℕ) (r : MpscRing) (q : Queue c r) (some_slots : 0 < c)
    (ready : r.seq (read_slot c r) ≡ r.read_cursor) where
  front_slot : r.read_cursor - 1 ≡ q.base
  front_slot = omega (arith, q.at)

  front_seq : expected (r.phase q.base) q.base ≡ q.base + 1
  front_seq =
      sym (q.seqs q.base (omega arith) (omega (arith, some_slots)))
      ∙ ap (λ k. r.seq (k % c)) (sym front_slot)
      ∙ ready
      ∙ q.at

  is_committed : (p : Phase) → p ≡ r.phase q.base → expected p q.base ≡ q.base + 1 → p ≡ committed
  is_committed unborn e k = absurd (omega (arith, k))
  is_committed waiting e k = absurd (omega (arith, k))
  is_committed seen e k = absurd (omega (arith, k))
  is_committed marked e k = absurd (
      omega (
        arith,
        k,
        q.few,
        (in_window c r q.base marked q (sym e) (λ n. absurd cc) (λ n. absurd cc)).1,
      ))
  is_committed filled e k = absurd (
      omega (
        arith,
        k,
        q.few,
        (in_window c r q.base filled q (sym e) (λ n. absurd cc) (λ n. absurd cc)).1,
      ))
  is_committed committed e k = refl

  front_committed : r.phase q.base ≡ committed
  front_committed = is_committed (r.phase q.base) refl front_seq

  front_born : q.base < r.claim_idx
  front_born = elim (Bool-cases (ltb q.base r.claim_idx)) [
    | inl z ↦ ground (arith, z)
    | inr z ↦ absurd (apart (sym (q.fresh q.base (ground (arith, z))) ∙ front_committed))
  ]
    where
      apart : unborn ≡ committed → ⊥
      apart e = absurd cc

  -- The slot of the index a lap ahead.
  lap_slot : (q.base + c) % c ≡ q.base % c
  lap_slot = add-mod_right q.base c

  lap_unborn : r.phase (q.base + c) ≡ unborn
  lap_unborn = q.fresh (q.base + c) q.in_lap

  front_cell : r.cells (q.base % c) ≡ r.written q.base
  front_cell =
      q.data_there q.base (omega arith) (omega (arith, some_slots)) (ap has_data front_committed)

  empty : false ≡ true → ⊥
  empty e = absurd cc

  pop-Queue : Queue c (consume c r)
  pop-Queue = record {
    base = q.base + 1;
    at = omega (arith, q.at);
    low = omega (arith, front_born);
    in_lap = omega (arith, q.in_lap);
    few = q.few;
    fresh = q.fresh;
    born = q.born;
    done = λ i lt. elim (Bool-cases (i == q.base)) [
      | inl z ↦ ap r.phase (eq_of_== i q.base z) ∙ front_committed
      | inr z ↦ q.done i (omega (arith, lt, ne_of_== i q.base z))
    ];
    seqs = λ i lo hi. elim (Bool-cases (i == q.base + c)) [
      | inl z ↦
          rw (eq_of_== i (q.base + c) z, front_slot, lap_slot, ==_refl (q.base % c), lap_unborn)
            refl
      | inr z ↦
          let inside : i < q.base + c = omega (arith, hi, ne_of_== i (q.base + c) z) in
          let apart =
            slots_differ c q.base i q.base (omega (arith, lo)) inside (omega arith)
              (omega (arith, some_slots)) (λ e. omega (arith, e, lo)) in
          rw (front_slot, ==_ne (i % c) (q.base % c) apart) (q.seqs i (omega (arith, lo)) inside)
    ];
    data_there = λ i lo hi d. elim (Bool-cases (i == q.base + c)) [
      | inl z ↦ absurd (
          empty (
            sym (ap has_data lap_unborn)
            ∙ ap (λ k. has_data (r.phase k)) (sym (eq_of_== i (q.base + c) z))
            ∙ d))
      | inr z ↦ q.data_there i (omega (arith, lo)) (omega (arith, hi, ne_of_== i (q.base + c) z)) d
    ];
    out =
        (let next : q.base + 1 ≡ suc q.base = omega arith in
          rw (front_slot, front_cell, q.out, next) refl);
  }

new_mpsc-Queue : (c : ℕ) → Queue c new_mpsc
new_mpsc-Queue c = record {
  base = 0;
  at = refl;
  low = omega arith;
  in_lap = omega arith;
  few = omega arith;
  fresh = λ i le. refl;
  born = λ i lt. absurd (omega (arith, lt));
  done = λ i lt. absurd (omega (arith, lt));
  seqs = λ i lo hi. refl;
  data_there = λ i lo hi d. absurd cc;
  out = refl;
}

update-there : (f : ℕ → ℕ) (k v s : ℕ) → s ≢ k → update f k v s ≡ f s
update-there f k v s ne = rw (==_ne s k ne) refl

update-here : (f : ℕ → ℕ) (k v : ℕ) → update f k v k ≡ v
update-here f k v = rw (==_refl k) refl

-- The step of a producer at work.
module _ (c : ℕ) (r : MpscRing) (q : Queue c r) (i : ℕ) (p p' : Phase) (e : r.phase i ≡ p)
    (real : p ≢ unborn) (working : p ≢ committed) (real' : p' ≢ unborn) where
  stepped :
      (seq' cells' written' : ℕ → ℕ)
      → seq' (i % c) ≡ expected p' i
      → ((s : ℕ) → s ≢ i % c → seq' s ≡ r.seq s)
      → (has_data p' ≡ true → cells' (i % c) ≡ written' i)
      → ((s : ℕ) → s ≢ i % c → cells' s ≡ r.cells s)
      → ((j : ℕ) → j ≢ i → written' j ≡ r.written j)
      → Queue c
          (record r { seq = seq'; cells = cells'; phase = update r.phase i p'; written = written' })
  stepped seq' cells' written' sh st ch ct wt =
      let w = in_window c r i p q e real working in
      Access-Queue c r _ i p' q
        (record {
          phases = refl;
          real = real';
          cursor = refl;
          claim = refl;
          popped = refl;
          seq_here = sh;
          seq_there = st;
          cell_here = ch;
          cell_there = ct;
          written_there = wt;
        })
        w.0 w.1

  -- What the slot shows before the step.
  slot_shows : r.seq (i % c) ≡ expected p i
  slot_shows =
      let w = in_window c r i p q e real working in
      q.seqs i w.0 (omega (arith, w.1, q.in_lap)) ∙ ap (λ k. expected k i) e

  slot_holds : has_data p ≡ true → r.cells (i % c) ≡ r.written i
  slot_holds d =
      let w = in_window c r i p q e real working in
      q.data_there i w.0 (omega (arith, w.1, q.in_lap)) (ap has_data e ∙ d)

Step-Queue : (c : ℕ) (r t : MpscRing) → 0 < c → Queue c r → Step c r t → NoLap c t → Queue c t
Step-Queue c r _ pos q fetch free = fetch-Queue c r q free.in_lap free.few
Step-Queue c r _ pos q (look i e z) free =
    stepped c r q i waiting seen e (λ n. absurd cc) (λ n. absurd cc) (λ n. absurd cc) r.seq r.cells
      r.written z (λ s ne. refl) (λ d. absurd cc) (λ s ne. refl) (λ j ne. refl)
Step-Queue c r _ pos q (mark i e) free =
    stepped c r q i seen marked e (λ n. absurd cc) (λ n. absurd cc) (λ n. absurd cc)
      (update r.seq (i % c) busy_mark) r.cells r.written (update-here r.seq (i % c) busy_mark)
      (update-there r.seq (i % c) busy_mark) (λ d. absurd cc) (λ s ne. refl) (λ j ne. refl)
Step-Queue c r _ pos q (write i v e) free =
    stepped c r q i marked filled e (λ n. absurd cc) (λ n. absurd cc) (λ n. absurd cc) r.seq
      (update r.cells (i % c) v) (update r.written i v)
      (slot_shows c r q i marked filled e (λ n. absurd cc) (λ n. absurd cc) (λ n. absurd cc))
      (λ s ne. refl) (λ d. update-here r.cells (i % c) v ∙ sym (update-here r.written i v))
      (update-there r.cells (i % c) v) (update-there r.written i v)
Step-Queue c r _ pos q (commit i e) free =
    stepped c r q i filled committed e (λ n. absurd cc) (λ n. absurd cc) (λ n. absurd cc)
      (update r.seq (i % c) (i + 1)) r.cells r.written (update-here r.seq (i % c) (i + 1))
      (update-there r.seq (i % c) (i + 1))
      (λ d.
        slot_holds c r q i filled committed e (λ n. absurd cc) (λ n. absurd cc) (λ n. absurd cc)
          refl)
      (λ s ne. refl) (λ j ne. refl)
Step-Queue c r _ pos q (take_front ready) free = pop-Queue c r q pos ready

pub Reach-Queue : (c : ℕ) {r : MpscRing} → 0 < c → Reach c r → Queue c r
Reach-Queue c pos begin = new_mpsc-Queue c
Reach-Queue c pos (later {r} {t} h s free) = Step-Queue c r t pos (Reach-Queue c pos h) s free

-- The producer of an index holds its slot.
abbrev pub holds : Phase → Bool
holds marked = true
holds filled = true
holds _ = false

-- What the ring promises.
pub record Fifo (capacity : ℕ) (r : MpscRing) : Type 0 where
  pub in_order : r.popped ≡ first_written r.written (r.read_cursor - 1)
  pub exclusive :
      (i j : ℕ)
      → holds (r.phase i) ≡ true
      → holds (r.phase j) ≡ true
      → i ≢ j
      → slot_of capacity i ≢ slot_of capacity j
  pub ready : r.phase (r.read_cursor - 1) ≡ committed → r.seq (read_slot capacity r) ≡ r.read_cursor

holds-window :
    (c : ℕ) (r : MpscRing) (q : Queue c r) (i : ℕ) (p : Phase)
    → r.phase i ≡ p
    → holds p ≡ true
    → (q.base ≤ i) × (i < r.claim_idx)
holds-window c r q i unborn e h = absurd cc
holds-window c r q i waiting e h = absurd cc
holds-window c r q i seen e h = absurd cc
holds-window c r q i marked e h = in_window c r i marked q e (λ n. absurd cc) (λ n. absurd cc)
holds-window c r q i filled e h = in_window c r i filled q e (λ n. absurd cc) (λ n. absurd cc)
holds-window c r q i committed e h = absurd cc

-- With any number of producers, in whatever order their accesses and the consumer's come, as long as
-- no allocation is a lap ahead of the consumer and fewer than 2^64 - 1 were made: the consumer gets
-- what the producers wrote, each index once and in the order of the indices; no two producers hold a
-- slot together; and a front index that is committed is ready for the consumer.
pub Reach-Fifo : (capacity : ℕ) {r : MpscRing} → 0 < capacity → Reach capacity r → Fifo capacity r
Reach-Fifo c {r} pos reach = record {
  in_order = q.out ∙ ap (first_written r.written) base_front;
  exclusive = λ i j hi hj ne.
      (let wi = holds-window c r q i (r.phase i) refl hi in
        let wj = holds-window c r q j (r.phase j) refl hj in
        slots_differ c q.base i j wi.0 (omega (arith, wi.1, q.in_lap)) wj.0
          (omega (arith, wj.1, q.in_lap)) ne);
  ready = λ e.
      (let shown : expected (r.phase q.base) q.base ≡ q.base + 1 =
          ap (λ k. expected (r.phase k) q.base) base_front ∙ ap (λ p. expected p q.base) e in
        ap (λ k. r.seq (k % c)) (sym base_front)
        ∙ q.seqs q.base (omega arith) (omega (arith, pos))
        ∙ shown
        ∙ sym q.at);
}
  where
    q : Queue c r
    q = Reach-Queue c pos reach

    base_front : q.base ≡ r.read_cursor - 1
    base_front = omega (arith, q.at)
