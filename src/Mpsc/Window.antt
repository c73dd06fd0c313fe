-- ===== src/Mpsc/Window.antt =====
-- What the slots of include/mpsc_ring.h show, for the indices of one lap from the consumer on.
use native.Mathlib.Nat.{div-add-mod, mul-le-mul_left}
use nebula_x.Base.{
  ℕ, zero, suc, ◌+◌, ◌*◌, ◌/◌, ◌%◌, ◌≡◌, ◌≢◌, ◌<◌, ◌≤◌, refl, sym, ap, ◌∙◌, inl, inr, true, false,
  Bool, List, [], ◌∷◌, ◌++◌, arith, update, ltb, leb, ◌==◌, ==_refl, ==_ne, eq_of_==, ne_of_==,
  Bool-cases,
}
use nebula_x.Mpsc.{Phase, unborn, waiting, seen, marked, filled, committed, MpscRing, busy_mark}

-- Two indices less than a lap apart have different slots.
slots_apart : (c i j : ℕ) → i < j → j < i + c → i % c ≢ j % c
slots_apart c i j lt near e = elim (Bool-cases (leb (j / c) (i / c))) [
  | inl z ↦ omega (
    arith,
    lt,
    e,
    div-add-mod i c,
    div-add-mod j c,
    mul-le-mul_left {m = j / c} {n = i / c} c (ground (arith, z)),
  )
  | inr z ↦ omega (
    arith,
    near,
    e,
    div-add-mod i c,
    div-add-mod j c,
    step (i / c),
    mul-le-mul_left {m = i / c + 1} {n = j / c} c (ground (arith, z)),
  )
]
  where
    step : (q : ℕ) → c * (q + 1) ≡ c * q + c
    step q = grind arith

-- The sequence number that a slot shows for an index.
abbrev pub expected : Phase → ℕ → ℕ
expected unborn i = 0
expected waiting i = 0
expected seen i = 0
expected marked i = busy_mark
expected filled i = busy_mark
expected committed i = i + 1

abbrev pub has_data : Phase → Bool
has_data filled = true
has_data committed = true
has_data _ = false

-- What the producers of the first indices wrote, in the order of the indices.
abbrev pub first_written : (ℕ → ℕ) → ℕ → List ℕ
first_written w zero = []
first_written w (suc n) = first_written w n ++ (w n ∷ [])

-- The window of a lap from the consumer's index `base` on: each slot shows how far the producer of
-- its index is.
pub record Queue (capacity : ℕ) (r : MpscRing) : Type 0 where
  pub base : ℕ
  pub at : r.read_cursor ≡ base + 1
  pub low : base ≤ r.claim_idx
  pub in_lap : r.claim_idx ≤ base + capacity
  pub few : r.claim_idx < busy_mark
  pub fresh : (i : ℕ) → r.claim_idx ≤ i → r.phase i ≡ unborn
  pub born : (i : ℕ) → i < r.claim_idx → r.phase i ≢ unborn
  pub done : (i : ℕ) → i < base → r.phase i ≡ committed
  pub seqs :
      (i : ℕ) → base ≤ i → i < base + capacity → r.seq (i % capacity) ≡ expected (r.phase i) i
  pub data_there :
      (i : ℕ)
      → base ≤ i
      → i < base + capacity
      → has_data (r.phase i) ≡ true
      → r.cells (i % capacity) ≡ r.written i
  pub out : r.popped ≡ first_written r.written base

pub first_written-same :
    (w w' : ℕ → ℕ) (n : ℕ) → ((i : ℕ) → i < n → w' i ≡ w i) → first_written w' n ≡ first_written w n
first_written-same w w' zero e = refl
first_written-same w w' (suc n) e =
    rw (e n (omega arith))
      (ap (λ l. l ++ (w n ∷ [])) (first_written-same w w' n (λ i lt. e i (omega (arith, lt)))))

pub slots_differ :
    (c base i j : ℕ) → base ≤ i → i < base + c → base ≤ j → j < base + c → i ≢ j → i % c ≢ j % c
slots_differ c base i j bi ic bj jc ne e = elim (Bool-cases (ltb i j)) [
  | inl z ↦ slots_apart c i j (ground (arith, z)) (omega (arith, bi, jc)) e
  | inr z ↦ slots_apart c j i (ground (arith, z, ne)) (omega (arith, bj, ic)) (sym e)
]

-- One producer's access: its phase changes, and its slot, and what it wrote.
pub record Access (c : ℕ) (r t : MpscRing) (i : ℕ) (p : Phase) : Type 0 where
  pub phases : t.phase ≡ update r.phase i p
  pub real : p ≢ unborn
  pub cursor : t.read_cursor ≡ r.read_cursor
  pub claim : t.claim_idx ≡ r.claim_idx
  pub popped : t.popped ≡ r.popped
  pub seq_here : t.seq (i % c) ≡ expected p i
  pub seq_there : (s : ℕ) → s ≢ i % c → t.seq s ≡ r.seq s
  pub cell_here : has_data p ≡ true → t.cells (i % c) ≡ t.written i
  pub cell_there : (s : ℕ) → s ≢ i % c → t.cells s ≡ r.cells s
  pub written_there : (j : ℕ) → j ≢ i → t.written j ≡ r.written j

module _ (c : ℕ) (r t : MpscRing) (i : ℕ) (p : Phase) (q : Queue c r) (a : Access c r t i p)
    (after : q.base ≤ i) (before : i < r.claim_idx) where
  other_phase : (j : ℕ) → j ≢ i → t.phase j ≡ r.phase j
  other_phase j ne = rw (a.phases, ==_ne j i ne) refl

  this_phase : t.phase i ≡ p
  this_phase = rw (a.phases, ==_refl i) refl

  within : i < q.base + c
  within = omega (arith, before, q.in_lap)

  pub Access-Queue : Queue c t
  Access-Queue = record {
    base = q.base;
    at = a.cursor ∙ q.at;
    low = omega (arith, a.claim, q.low);
    in_lap = omega (arith, a.claim, q.in_lap);
    few = omega (arith, a.claim, q.few);
    fresh = λ j le.
        other_phase j (λ e. omega (arith, e, le, a.claim, before))
        ∙ q.fresh j (omega (arith, le, a.claim));
    born = λ j lt. elim (Bool-cases (j == i)) [
      | inl z ↦ (λ e. a.real (sym this_phase ∙ ap t.phase (sym (eq_of_== j i z)) ∙ e))
      | inr z ↦
          (λ e. q.born j (omega (arith, lt, a.claim)) (sym (other_phase j (ne_of_== j i z)) ∙ e))
    ];
    done = λ j lt. other_phase j (λ e. omega (arith, e, lt, after)) ∙ q.done j lt;
    seqs = λ j lo hi. elim (Bool-cases (j == i)) [
      | inl z ↦ let same = eq_of_== j i z in rw (same, this_phase) a.seq_here
      | inr z ↦
          let ne = ne_of_== j i z in
          rw (other_phase j ne)
            (a.seq_there (j % c) (slots_differ c q.base j i lo hi after within ne) ∙ q.seqs j lo hi)
    ];
    data_there = λ j lo hi d. elim (Bool-cases (j == i)) [
      | inl z ↦
          let same = eq_of_== j i z in
          rw same (
            a.cell_here
              (sym (ap has_data this_phase) ∙ ap (λ k. has_data (t.phase k)) (sym same) ∙ d))
      | inr z ↦
          let ne = ne_of_== j i z in
          a.cell_there (j % c) (slots_differ c q.base j i lo hi after within ne)
          ∙ q.data_there j lo hi (ap has_data (sym (other_phase j ne)) ∙ d)
          ∙ sym (a.written_there j ne)
    ];
    out =
        a.popped
        ∙ q.out
        ∙ sym (
            first_written-same r.written t.written q.base
              (λ j lt. a.written_there j (λ e. omega (arith, e, lt, after))));
  }

-- A producer at work is in the window.
pub in_window :
    (c : ℕ) (r : MpscRing) (i : ℕ) (p : Phase) (q : Queue c r)
    → r.phase i ≡ p
    → p ≢ unborn
    → p ≢ committed
    → (q.base ≤ i) × (i < r.claim_idx)
in_window c r i p q e real working = (
  elim (Bool-cases (ltb i q.base)) [
    | inl z ↦ absurd (working (sym e ∙ q.done i (ground (arith, z))))
    | inr z ↦ ground (arith, z)
  ],
  elim (Bool-cases (ltb i r.claim_idx)) [
    | inl z ↦ ground (arith, z)
    | inr z ↦ absurd (real (sym e ∙ q.fresh i (ground (arith, z))))
  ],
)
