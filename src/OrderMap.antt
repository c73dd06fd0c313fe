-- ===== src/OrderMap.antt =====
-- include/order_map.h: the hash index from order ids to slots, with chains in a pool of nodes and
-- an ordered map for the buckets that grew long. One thread at a time is modelled: each
-- compare-and-swap succeeds, and the jump back to `retry` is a round of the same loop on fuel.
-- A bucket's length plus one bounds the rounds of a walk over its chain.
use nebula_x.Base.{
  ℕ, zero, suc, ◌+◌, ◌-◌, ◌*◌, ◌/◌, ◌%◌, ◌^◌, Bool, true, false, ◌||◌, not, Option, none, some,
  List, [], nil_idx, u32, u64, add64, sub64, retag, update, ltb, leb, ◌==◌, if◌then◌else◌, lookup,
  put, erase,
}

pub record Node : Type 0 where
  pub order_id : ℕ
  pub order : ℕ
  pub next_idx : ℕ
  pub bucket : ℕ

pub record OrderMap : Type 0 where
  pub nodes : ℕ → Node
  pub buckets : ℕ → ℕ
  pub bucket_len : ℕ → ℕ
  pub state : ℕ → ℕ
  pub bucket_mask : ℕ
  pub hash_shift : ℕ
  pub capacity : ℕ
  pub free_head : ℕ
  pub size : ℕ
  pub overflow : List (ℕ × ℕ)

abbrev pub treeify_threshold : ℕ
treeify_threshold = 8

-- `while (p < n) p <<= 1`; 64 rounds reach any `size_t`.
unfoldable pub round_pow2_loop : ℕ → ℕ → ℕ → ℕ
round_pow2_loop zero n p = p
round_pow2_loop (suc f) n p = let rest = round_pow2_loop f n (2 * p) in if ltb p n then rest else p

unfoldable pub round_pow2 : ℕ → ℕ
unfolding round_pow2_loop
round_pow2 n = u32 (round_pow2_loop 64 n 1)

-- `__builtin_ctz`: the zeros at the low end of a word that is not 0.
unfoldable pub ctz : ℕ → ℕ → ℕ
ctz zero x = 0
ctz (suc f) x = let rest = ctz f (x / 2) in if x % 2 == 0 then rest + 1 else 0

-- The links of the free nodes: `nodes_[i].next_idx = i + 1`.
unfoldable pub thread_nodes : ℕ → ℕ → (ℕ → Node) → ℕ → Node
thread_nodes zero i ns = ns
thread_nodes (suc n) i ns =
    thread_nodes n (i + 1) (update ns i (record (ns i) { next_idx = i + 1 }))

-- The constructor, over nodes with any contents.
unfoldable pub new_order_map : (ℕ → Node) → ℕ → OrderMap
unfolding round_pow2 ctz thread_nodes
new_order_map raw capacity =
    let threaded = thread_nodes (capacity - 1) 0 raw in
    let last = capacity - 1 in
    let mask = round_pow2 capacity - 1 in
    record {
      nodes = update threaded last (record (threaded last) { next_idx = nil_idx });
      buckets = λ _. nil_idx;
      bucket_len = λ _. 0;
      state = λ _. 0;
      bucket_mask = mask;
      hash_shift = 64 - ctz 32 (mask + 1);
      capacity = capacity;
      free_head = 0;
      size = 0;
      overflow = [];
    }

-- The top bits of the product with the golden constant.
unfoldable pub hash : OrderMap → ℕ → ℕ
hash m id = u64 (id * 0x9E3779B97F4A7C15) / 2 ^ m.hash_shift

abbrev pub set_next : (ℕ → Node) → ℕ → ℕ → ℕ → Node
set_next ns i v = update ns i (record (ns i) { next_idx = v })

unfoldable pub alloc_node : OrderMap → Option ℕ × OrderMap
alloc_node m =
    let head = u32 m.free_head in
    if head == nil_idx
    then (none, m)
    else (some head, record m { free_head = retag m.free_head (m.nodes head).next_idx })

unfoldable pub free_node : OrderMap → ℕ → OrderMap
free_node m idx = record m {
  nodes = set_next m.nodes idx (u32 m.free_head);
  free_head = retag m.free_head idx;
}

-- The copy of a chain into the ordered map, from node `cur` on.
unfoldable pub copy_chain : ℕ → (ℕ → Node) → ℕ → List (ℕ × ℕ) → List (ℕ × ℕ)
copy_chain zero ns cur ov = ov
copy_chain (suc f) ns cur ov =
    let rest = copy_chain f ns (ns cur).next_idx (put ltb (ns cur).order_id (ns cur).order ov) in
    if cur == nil_idx then ov else rest

unfoldable pub treeify : OrderMap → ℕ → OrderMap
unfolding copy_chain
treeify m b =
    if m.state b == 0
    then record m {
      overflow = copy_chain (m.bucket_len b + 1) m.nodes (m.buckets b) m.overflow;
      state = update m.state b 2;
    }
    else m

-- `overflow_[order_id] = order; size_ += 1`, the way of each branch that goes to the map.
unfoldable pub insert_overflow : OrderMap → ℕ → ℕ → OrderMap
insert_overflow m id slot = record m {
  overflow = put ltb id slot m.overflow;
  size = add64 m.size 1;
}

-- The chain path of `insert` behind its node's allocation.
unfoldable pub link_node : OrderMap → ℕ → ℕ → ℕ → ℕ → OrderMap
unfolding treeify
link_node m b idx id slot =
    let linked : OrderMap = record m {
      nodes =
          update m.nodes idx
            (record { order_id = id; order = slot; next_idx = m.buckets b; bucket = b });
      buckets = update m.buckets b idx;
      bucket_len = update m.bucket_len b ((m.bucket_len b + 1) % 2 ^ 16);
      size = add64 m.size 1;
    } in
    if leb treeify_threshold (linked.bucket_len b) then treeify linked b else linked

unfoldable pub insert_linked : ℕ → ℕ → ℕ → Option ℕ × OrderMap → Bool × OrderMap
unfolding link_node
insert_linked b id slot (none, m) = (false, m)
insert_linked b id slot (some idx, m) = (true, link_node m b idx id slot)

-- The state of a bucket does not change between the two tests of one call, when no other thread
-- runs; so the second test, behind the allocation, never finds a converted bucket.
unfoldable pub insert : OrderMap → ℕ → ℕ → Bool × OrderMap
unfolding hash alloc_node treeify insert_overflow insert_linked
insert m id slot =
    let b = hash m id in
    if not (m.state b == 0)
    then (true, insert_overflow m id slot)
    else if leb treeify_threshold (m.bucket_len b) || m.free_head == nil_idx
    then (true, insert_overflow (treeify m b) id slot)
    else insert_linked b id slot (alloc_node m)

-- The lock-free walk: a node of another bucket sends it back to the head.
unfoldable pub find_walk : ℕ → OrderMap → ℕ → ℕ → ℕ → Option ℕ
find_walk zero m b id idx = none
find_walk (suc f) m b id idx =
    let again = find_walk f m b id (m.buckets b) in
    let rest = find_walk f m b id (m.nodes idx).next_idx in
    if idx == nil_idx
    then none
    else if not ((m.nodes idx).bucket == b)
    then again
    else if (m.nodes idx).order_id == id
    then some (m.nodes idx).order
    else rest

unfoldable pub find : OrderMap → ℕ → Option ℕ
unfolding hash find_walk
find m id =
    let b = hash m id in
    if not (m.state b == 0)
    then lookup id m.overflow
    else find_walk (m.bucket_len b + 1) m b id (m.buckets b)

-- What `erase` does with a node once it is out of its chain.
unfoldable pub drop_node : OrderMap → ℕ → ℕ → OrderMap
unfolding free_node
drop_node m b idx =
    let m' : OrderMap = free_node m idx in
    record m' {
      bucket_len = update m'.bucket_len b ((m'.bucket_len b + 2 ^ 16 - 1) % 2 ^ 16);
      size = sub64 m'.size 1;
    }

-- The search for the predecessor of the node with the id.
unfoldable pub erase_walk : ℕ → OrderMap → ℕ → ℕ → ℕ → OrderMap
unfolding drop_node
erase_walk zero m b id idx = m
erase_walk (suc f) m b id idx =
    let next = (m.nodes idx).next_idx in
    let again = erase_walk f m b id (m.buckets b) in
    let rest = erase_walk f m b id next in
    if idx == nil_idx
    then m
    else if not ((m.nodes idx).bucket == b)
    then again
    else if next == nil_idx
    then m
    else if (m.nodes next).order_id == id
    then drop_node (record m { nodes = set_next m.nodes idx (m.nodes next).next_idx }) b next
    else rest

unfoldable pub erase_overflow : OrderMap → ℕ → OrderMap
erase_overflow m id = elim (lookup id m.overflow) [
  | none ↦ m
  | some _ ↦ record m { overflow = erase id m.overflow; size = sub64 m.size 1 }
]

unfoldable pub erase_id : OrderMap → ℕ → OrderMap
unfolding hash drop_node erase_walk erase_overflow
erase_id m id =
    let b = hash m id in
    let idx = m.buckets b in
    if not (m.state b == 0)
    then erase_overflow m id
    else if idx == nil_idx
    then m
    else if (m.nodes idx).order_id == id
    then drop_node (record m { buckets = update m.buckets b (m.nodes idx).next_idx }) b idx
    else erase_walk (m.bucket_len b + 1) m b id idx

unfoldable pub contains : OrderMap → ℕ → Bool
contains m id = elim (find m id) [ none ↦ false | some _ ↦ true ]
