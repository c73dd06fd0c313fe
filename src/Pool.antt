-- ===== src/Pool.antt =====
-- include/order_pool.h: a fixed array of orders and a stack of free slots threaded through it.
-- One thread at a time is modelled, so each compare-and-swap succeeds at its first try. A pointer
-- into the array is its index; `free_head` is the 64-bit word `(tag << 32) | index`.
pub mod Free
pub mod Fresh
use nebula_x.Base.{
  ℕ, zero, suc, ◌+◌, ◌-◌, ◌%◌, ◌^◌, Option, none, some, nil_idx, u32, add64, sub64, retag, update,
  ◌==◌, if◌then◌else◌,
}
use nebula_x.Order.{Order}

pub record Pool : Type 0 where
  pub storage : ℕ → Order
  pub capacity : ℕ
  pub free_head : ℕ
  pub size : ℕ

-- `storage_[i].pool_next_free.store(v)`
abbrev pub link_free : (ℕ → Order) → ℕ → ℕ → ℕ → Order
link_free s i v = update s i (record (s i) { pool_next_free = v })

-- `for (i = 0; i < n; ++i) storage_[i].pool_next_free.store(i + 1)`, given the rounds left.
unfoldable pub thread : ℕ → ℕ → (ℕ → Order) → ℕ → Order
thread zero i s = s
thread (suc n) i s = thread n (i + 1) (link_free s i (i + 1))

-- `initFreeList`, and `rebuildFreelist` with the same text.
unfoldable pub init_free_list : Pool → Pool
unfolding thread
init_free_list p = record p {
  storage = link_free (thread (p.capacity - 1) 0 p.storage) (p.capacity - 1) nil_idx;
  free_head = 0;
  size = 0;
}

unfoldable pub rebuild_freelist : Pool → Pool
unfolding init_free_list
rebuild_freelist p = init_free_list p

-- The constructors: over storage of its own, and over storage that the caller maps.
unfoldable pub new_pool : (ℕ → Order) → ℕ → Pool
unfolding init_free_list
new_pool s capacity =
    init_free_list (record { storage = s; capacity = capacity; free_head = 0; size = 0 })

-- The slot taken off the stack, or `none` for `nullptr`.
unfoldable pub allocate : Pool → Option ℕ × Pool
allocate p =
    let head = u32 p.free_head in
    if head == nil_idx then (none, p) else (
      some head,
      record p {
        free_head = retag p.free_head (p.storage head).pool_next_free;
        size = add64 p.size 1;
      },
    )

unfoldable pub deallocate : Pool → ℕ → Pool
deallocate p idx = record p {
  storage = link_free p.storage idx (u32 p.free_head);
  free_head = retag p.free_head idx;
  size = sub64 p.size 1;
}

-- `*slot = o` through a pointer into the array.
abbrev pub write_slot : Pool → ℕ → Order → Pool
write_slot p i o = record p { storage = update p.storage i o }
