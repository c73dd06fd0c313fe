-- ===== src/Pool/Fresh.antt =====
-- A new pool: every slot is free, in the order of the array.
use nebula_x.Base.{
  ℕ, zero, suc, ◌+◌, ◌-◌, ◌<◌, ◌≤◌, ◌≡◌, refl, ◌∙◌, ap, false, List, [], ◌∷◌, arith, nil_idx, ◌==◌,
  ==_refl, ==_ne, has, length, Distinct, inl, inr, Bool-cases,
}
use nebula_x.Order.{Order}
use nebula_x.Pool.{link_free, thread, init_free_list, new_pool}
use nebula_x.Pool.Free.{Free, IsPool}

-- `n` slots from `i` on.
abbrev pub slots_from : ℕ → ℕ → List ℕ
slots_from i zero = []
slots_from i (suc n) = i ∷ slots_from (i + 1) n

length-slots_from : (i n : ℕ) → length (slots_from i n) ≡ n
length-slots_from i zero = refl
length-slots_from i (suc n) = omega (arith, length-slots_from (i + 1) n)

slots_from-above : (i j n : ℕ) → j < i → has j (slots_from i n) ≡ false
slots_from-above i j zero lt = refl
slots_from-above i j (suc n) lt = ground (arith, slots_from-above (i + 1) j n (omega (arith, lt)))

slots_from-Distinct : (i n : ℕ) → Distinct (slots_from i n)
slots_from-Distinct i zero = tt
slots_from-Distinct i (suc n) =
    (slots_from-above (i + 1) i n (omega arith), slots_from-Distinct (i + 1) n)

-- The loop leaves the links before it alone.
thread-before :
    (n i j : ℕ) (s : ℕ → Order) → j < i → (thread n i s j).pool_next_free ≡ (s j).pool_next_free
unfolding thread
thread-before zero i j s lt = refl
thread-before (suc n) i j s lt =
    thread-before n (i + 1) j (link_free s i (i + 1)) (omega (arith, lt))
    ∙ rw (==_ne j i (λ e. omega (arith, e, lt))) refl

thread-links :
    (n i j : ℕ) (s : ℕ → Order) → i ≤ j → j < i + n → (thread n i s j).pool_next_free ≡ j + 1
unfolding thread
thread-links zero i j s le lt = absurd (omega (arith, le, lt))
thread-links (suc n) i j s le lt = elim (Bool-cases (j == i)) [
  | inl e ↦ thread-before n (i + 1) j (link_free s i (i + 1)) (ground arith) ∙ rw e (ground arith)
  | inr ne ↦ thread-links n (i + 1) j (link_free s i (i + 1)) (ground arith) (omega (arith, lt))
]

-- The slots from `i` to the end of the array are a chain of free links.
fresh-Free :
    (t : ℕ → Order) (cap i n : ℕ)
    → i + suc n ≡ cap
    → ((j : ℕ) → j + 1 < cap → (t j).pool_next_free ≡ j + 1)
    → (t (cap - 1)).pool_next_free ≡ nil_idx
    → Free t cap i (slots_from i (suc n))
fresh-Free t cap i zero e links last =
    (refl, omega (arith, e), ap (λ k. (t k).pool_next_free) (omega (arith, e)) ∙ last)
fresh-Free t cap i (suc n) e links last = (
  refl,
  omega (arith, e),
  rw (links i (omega (arith, e))) (fresh-Free t cap (i + 1) n (omega (arith, e)) links last),
)

-- A new pool of at least one slot and fewer than 2^32 - 1 has all its slots free, the first on top.
pub new_pool-IsPool :
    (s : ℕ → Order) (capacity : ℕ)
    → 0 < capacity
    → capacity < nil_idx
    → IsPool (new_pool s capacity) (slots_from 0 capacity)
unfolding new_pool init_free_list
new_pool-IsPool s zero pos small = absurd (omega (arith, pos))
new_pool-IsPool s (suc n) pos small = record {
  chain =
      fresh-Free (link_free (thread (suc n - 1) 0 s) (suc n - 1) nil_idx) (suc n) 0 n (omega arith)
        (λ j lt.
          rw (==_ne j (suc n - 1) (λ e. omega (arith, e, lt)))
            (thread-links (suc n - 1) 0 j s (omega arith) (omega (arith, lt))))
        (rw (==_refl (suc n - 1)) refl);
  distinct = slots_from-Distinct 0 (suc n);
  small = small;
  counted = omega (arith, length-slots_from 0 (suc n));
}
