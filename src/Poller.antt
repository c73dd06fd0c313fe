-- ===== src/Poller.antt =====
-- include/io_uring_poller.h: the stack of receive buffers. The submissions and completions are the
-- kernel's interface; what the server does with them is in Server.
use nebula_x.Base.{
  ℕ, zero, suc, ◌+◌, ◌-◌, ◌≡◌, ◌<◌, ◌≤◌, refl, ap, ◌∙◌, false, List, [], ◌∷◌, arith, nil_idx,
  update, ltb, ◌==◌, if◌then◌else◌, ==_ne, ==_refl, length, get_or, drop, true, leb, ◌&&◌,
}
use nebula_x.Pool.Fresh.{slots_from}

abbrev pub max_buffers : ℕ
max_buffers = 64

pub record BufferStack : Type 0 where
  pub buf_free_stack : ℕ → ℕ
  pub buf_free_top : ℕ

-- The constructor's loop: `buf_free_stack_[i] = MAX_BUFFERS - 1 - i`.
unfoldable pub stack_buffers : ℕ → ℕ → (ℕ → ℕ) → ℕ → ℕ
stack_buffers zero i s = s
stack_buffers (suc n) i s = stack_buffers n (i + 1) (update s i (max_buffers - 1 - i))

unfoldable pub new_buffers : BufferStack
unfolding stack_buffers
new_buffers = record {
  buf_free_stack = stack_buffers max_buffers 0 (λ _. 0);
  buf_free_top = max_buffers;
}

-- `alloc_buffer`: the index, UINT32_MAX for none.
unfoldable pub alloc_buffer : BufferStack → ℕ × BufferStack
alloc_buffer b =
    if b.buf_free_top == 0
    then (nil_idx, b)
    else (b.buf_free_stack (b.buf_free_top - 1), record b { buf_free_top = b.buf_free_top - 1 })

unfoldable pub free_buffer : BufferStack → ℕ → BufferStack
free_buffer b idx =
    if ltb b.buf_free_top max_buffers
    then record b {
      buf_free_stack = update b.buf_free_stack b.buf_free_top idx;
      buf_free_top = b.buf_free_top + 1;
    }
    else b

-- The stack from its top down.
abbrev pub stacked : (ℕ → ℕ) → ℕ → List ℕ
stacked s zero = []
stacked s (suc n) = s n ∷ stacked s n

-- How often a number is in a list.
abbrev pub times : ℕ → List ℕ → ℕ
times i [] = 0
times i (x ∷ xs) = (if i == x then 1 else 0) + times i xs

-- Every buffer is once on the stack or once with an owner.
pub record Shared (b : BufferStack) (free owned : List ℕ) : Type 0 where
  pub shown : stacked b.buf_free_stack b.buf_free_top ≡ free
  pub counted : length free + length owned ≡ max_buffers
  pub single : (i : ℕ) → times i free + times i owned ≡ (if ltb i max_buffers then 1 else 0)

stacked-update : (s : ℕ → ℕ) (n t v : ℕ) → n ≤ t → stacked (update s t v) n ≡ stacked s n
stacked-update s zero t v le = refl
stacked-update s (suc n) t v le =
    rw (==_ne n t (omega (arith, le)))
      (ap (λ l. s n ∷ l) (stacked-update s n t v (omega (arith, le))))

length-stacked : (s : ℕ → ℕ) (n : ℕ) → length (stacked s n) ≡ n
length-stacked s zero = refl
length-stacked s (suc n) = omega (arith, length-stacked s n)

stacked-cons :
    (s : ℕ → ℕ) (t i : ℕ) (l : List ℕ)
    → stacked s t ≡ i ∷ l
    → ((t == 0) ≡ false) × (s (t - 1) ≡ i) × (stacked s (t - 1) ≡ l)
stacked-cons s zero i l e = absurd cc
stacked-cons s (suc n) i l e =
    let back : suc n - 1 ≡ n = omega arith in
    rw back (ground arith, ap (λ l. get_or l 0 0) e, ap (drop 1) e)

-- With a buffer on the stack, an allocation takes the one on top and hands it to an owner, and the
-- others stay as they are.
pub alloc_buffer-Shared :
    (b : BufferStack) (i : ℕ) (free owned : List ℕ)
    → Shared b (i ∷ free) owned
    → ((alloc_buffer b).0 ≡ i) × (i < max_buffers) × Shared (alloc_buffer b).1 free (i ∷ owned)
unfolding alloc_buffer
alloc_buffer-Shared b i free owned h =
    let top = stacked-cons b.buf_free_stack b.buf_free_top i free h.shown in
    let one = h.single i in
    rw (alloc_buffer, top.0)
      (
        top.1,
        ground (arith, one, ==_refl i),
        record {
          shown = top.2;
          counted = omega (arith, h.counted);
          single = λ j. omega (arith, h.single j);
        },
      )

pub alloc_buffer_empty :
    (b : BufferStack) (owned : List ℕ) → Shared b [] owned → alloc_buffer b ≡ (nil_idx, b)
unfolding alloc_buffer
alloc_buffer_empty b owned h =
    let none_left : b.buf_free_top ≡ 0 =
      omega (arith, ap length h.shown, length-stacked b.buf_free_stack b.buf_free_top) in
    rw none_left refl

-- A buffer that its owner gives back goes on top of the stack: there is always room for it.
pub free_buffer-Shared :
    (b : BufferStack) (i : ℕ) (free owned owned' : List ℕ)
    → Shared b free owned
    → length owned ≡ suc (length owned')
    → ((j : ℕ) → times j owned ≡ times j (i ∷ owned'))
    → Shared (free_buffer b i) (i ∷ free) owned'
unfolding free_buffer
free_buffer-Shared b i free owned owned' h fewer same =
    let room : ltb b.buf_free_top max_buffers ≡ true = ground (
      arith,
      ap length h.shown,
      length-stacked b.buf_free_stack b.buf_free_top,
      h.counted,
      fewer,
    ) in
    rw (free_buffer, room)
      (record {
        shown =
            (let next : b.buf_free_top + 1 ≡ suc b.buf_free_top = omega arith in
              rw (next, ==_refl b.buf_free_top)
                (ap (λ l. i ∷ l)
                  (stacked-update b.buf_free_stack b.buf_free_top b.buf_free_top i (omega arith)
                    ∙ h.shown)));
        counted = omega (arith, h.counted, fewer);
        single = λ j. omega (arith, h.single j, same j);
      })

times-slots_from :
    (j i n : ℕ) → times j (slots_from i n) ≡ (if leb i j && ltb j (i + n) then 1 else 0)
times-slots_from j i zero = ground arith
times-slots_from j i (suc n) = ground (arith, times-slots_from j (i + 1) n)

first_slots : (j n : ℕ) → times j (slots_from 0 n) + 0 ≡ (if ltb j n then 1 else 0)
first_slots j n = ground (arith, times-slots_from j 0 n)

-- The constructor leaves all 64 buffers on the stack, the first on top, and none with an owner.
pub new_buffers-Shared : Shared new_buffers (slots_from 0 max_buffers) []
unfolding new_buffers stack_buffers
new_buffers-Shared = record {
  shown = refl;
  counted = refl;
  single = λ j. first_slots j max_buffers;
}
