-- ===== src/Mpsc.antt =====
-- include/mpsc_ring.h: the ring for several producers and one consumer, as steps of its callers in any
-- order. A call of `alloc` is named by the index that its `fetch_add` returned; `seq` and `cells` are
-- the slots' fields. `written` is not in the program: what the producer of each index wrote.
pub mod Window
pub mod Fifo
use nebula_x.Base.{ℕ, ◌+◌, ◌-◌, ◌%◌, ◌^◌, ◌≡◌, ◌<◌, ◌≤◌, List, [], ◌∷◌, ◌++◌, update}

-- How far the producer of an index is: before `fetch_add`, in the loop that waits for the slot, past
-- it, past the mark, past the write of its data, past `commit`.
pub data Phase : Type 0 where
  unborn waiting seen marked filled committed : Phase

pub record MpscRing : Type 0 where
  pub seq : ℕ → ℕ
  pub cells : ℕ → ℕ
  pub claim_idx : ℕ
  pub read_cursor : ℕ
  pub phase : ℕ → Phase
  pub written : ℕ → ℕ
  pub popped : List ℕ

-- UINT64_MAX, the mark of a slot that is taken.
abbrev pub busy_mark : ℕ
busy_mark = 18446744073709551615

abbrev pub new_mpsc : MpscRing
new_mpsc = record {
  seq = λ _. 0;
  cells = λ _. 0;
  claim_idx = 0;
  read_cursor = 1;
  phase = λ _. unborn;
  written = λ _. 0;
  popped = [];
}

-- The slot of an index.
abbrev pub slot_of : ℕ → ℕ → ℕ
slot_of capacity idx = idx % capacity

-- The slot that the consumer looks at.
abbrev pub read_slot : ℕ → MpscRing → ℕ
read_slot capacity r = (r.read_cursor - 1) % capacity

-- `consume` after `tryPop`, with the data that it found.
abbrev pub consume : ℕ → MpscRing → MpscRing
consume capacity r = record r {
  seq = update r.seq (read_slot capacity r) 0;
  read_cursor = r.read_cursor + 1;
  popped = r.popped ++ (r.cells (read_slot capacity r) ∷ []);
}

-- `alloc` in its three accesses, the write through `handleData`, `commit`, and a `tryPop` that finds
-- its sequence number, with `consume`. A look that finds the slot in use changes nothing, so it is
-- no step.
pub data Step (capacity : ℕ) (r : MpscRing) : MpscRing → Type 0 where
  fetch :
      Step capacity r
        (record r { claim_idx = r.claim_idx + 1; phase = update r.phase r.claim_idx waiting })
  look :
      (i : ℕ)
      → r.phase i ≡ waiting
      → r.seq (slot_of capacity i) ≡ 0
      → Step capacity r (record r { phase = update r.phase i seen })
  mark :
      (i : ℕ)
      → r.phase i ≡ seen
      → Step capacity r (record r {
        seq = update r.seq (slot_of capacity i) busy_mark;
        phase = update r.phase i marked;
      })
  write :
      (i v : ℕ)
      → r.phase i ≡ marked
      → Step capacity r (record r {
        cells = update r.cells (slot_of capacity i) v;
        phase = update r.phase i filled;
        written = update r.written i v;
      })
  commit :
      (i : ℕ)
      → r.phase i ≡ filled
      → Step capacity r (record r {
        seq = update r.seq (slot_of capacity i) (i + 1);
        phase = update r.phase i committed;
      })
  take_front : r.seq (read_slot capacity r) ≡ r.read_cursor → Step capacity r (consume capacity r)

-- No allocation is a lap ahead of the consumer, and fewer than 2^64 - 1 were made.
pub record NoLap (capacity : ℕ) (r : MpscRing) : Type 0 where
  pub in_lap : r.claim_idx < r.read_cursor + capacity
  pub few : r.claim_idx < busy_mark

pub data Reach (capacity : ℕ) : MpscRing → Type 0 where
  begin : Reach capacity new_mpsc
  later :
      {r t : MpscRing} → Reach capacity r → Step capacity r t → NoLap capacity t → Reach capacity t
