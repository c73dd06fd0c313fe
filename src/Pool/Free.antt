-- ===== src/Pool/Free.antt =====
-- The free stack as a list of slots.
use nebula_x.Base.{
  ℕ, ◌+◌, ◌<◌, ◌≡◌, refl, false, none, some, List, [], ◌∷◌, arith, nil_idx, u32, add64, retag,
  length, has, Distinct, ==_ne, ==_refl, ◌≤◌, ◌≢◌, true,
}
use nebula_x.Order.{Order}
use nebula_x.Pool.{Pool, link_free, allocate, deallocate}

-- From `i` the free links lead through the slots `is`, each in range, to the null index.
abbrev pub Free : (ℕ → Order) → ℕ → ℕ → List ℕ → Type 0
Free s cap i [] = i ≡ nil_idx
Free s cap i (j ∷ js) = (i ≡ j) × (j < cap) × Free s cap (s j).pool_next_free js

-- The pool's free slots are `is`, none twice, and its counter is the number of the others.
pub record IsPool (p : Pool) (is : List ℕ) : Type 0 where
  pub chain : Free p.storage p.capacity (u32 p.free_head) is
  pub distinct : Distinct is
  pub small : p.capacity < nil_idx
  pub counted : p.size + length is ≡ p.capacity

-- A change of orders that leaves the free links of free slots alone does not disturb the stack.
pub Free-frame :
    (s t : ℕ → Order) (cap i : ℕ) (is : List ℕ)
    → ((j : ℕ) → has j is ≡ true → (t j).pool_next_free ≡ (s j).pool_next_free)
    → Free s cap i is
    → Free t cap i is
Free-frame s t cap i [] same h = h
Free-frame s t cap i (j ∷ js) same h = (
  h.0,
  h.1,
  rw (same j (ground arith)) (Free-frame s t cap _ js (λ k m. same k (ground arith)) h.2),
)

-- The head of a free chain fits in 32 bits.
Free-lt : (s : ℕ → Order) (cap i : ℕ) (is : List ℕ) → cap < nil_idx → Free s cap i is → i ≤ nil_idx
Free-lt s cap i [] small h = omega arith
Free-lt s cap i (j ∷ js) small h = omega arith

u32-retag : (fh i : ℕ) → i ≤ nil_idx → u32 (retag fh i) ≡ i
u32-retag fh i h = omega arith

pub allocate-pop :
    (p : Pool) (i : ℕ)
    → u32 p.free_head ≡ i
    → i ≢ nil_idx
    → allocate p ≡ (
      some i,
      record p {
        free_head = retag p.free_head (p.storage i).pool_next_free;
        size = add64 p.size 1;
      },
    )
unfolding allocate
allocate-pop p i e ne = rw (e, ==_ne i nil_idx ne)

-- On a well-formed pool with a slot left, allocation hands out the top slot, which is in range and no
-- longer free.
pub allocate-IsPool :
    (p : Pool) (i : ℕ) (is : List ℕ)
    → IsPool p (i ∷ is)
    → ((allocate p).0 ≡ some i) × IsPool (allocate p).1 is × (i < p.capacity)
allocate-IsPool p i is v = rw (allocate-pop p i v.chain.0 (omega arith)) (
  refl,
  record {
    chain =
        rw
          (u32-retag p.free_head (p.storage i).pool_next_free
            (Free-lt p.storage p.capacity _ is v.small v.chain.2))
          v.chain.2;
    distinct = v.distinct.1;
    small = v.small;
    counted = omega arith;
  },
  v.chain.1,
)

pub allocate-full : (p : Pool) → IsPool p [] → allocate p ≡ (none, p)
unfolding allocate
allocate-full p v = rw v.chain

-- On a well-formed pool in use, deallocation of a slot in range that is not free puts it on top of
-- the free slots.
pub deallocate-IsPool :
    (p : Pool) (i : ℕ) (is : List ℕ)
    → IsPool p is
    → i < p.capacity
    → has i is ≡ false
    → 0 < p.size
    → IsPool (deallocate p i) (i ∷ is)
unfolding deallocate
deallocate-IsPool p i is v lt out pos = record {
  chain = (
    u32-retag p.free_head i (omega arith),
    lt,
    rw (==_refl i) (
        Free-frame p.storage (link_free p.storage i (u32 p.free_head)) p.capacity _ is
          (λ j m. ground arith) v.chain),
  );
  distinct = (out, v.distinct);
  small = v.small;
  counted = omega arith;
}
