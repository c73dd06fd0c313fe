-- ===== src/Book/RemoveOrder.antt =====
-- `removeOrder` on a book that shows a view.
use mathlib.Core.Bool.{false≢true}
use mathlib.Core.Path.{subst}
use nebula_x.Base.{
  ℕ, ◌^◌, ◌<◌, ◌≤◌, ◌≡◌, refl, ap, ◌∙◌, inl, inr, true, false, none, some, List, [], ◌∷◌, ◌++◌,
  arith, u32, ◌==◌, has, has-append, All, lookup, Bool-cases,
}
use nebula_x.Order.{Side, buy, sell, invalid}
use nebula_x.OrderMap.{erase_id}
use nebula_x.Pool.{deallocate}
use nebula_x.Pool.Free.{IsPool, Free-frame, deallocate-IsPool}
use nebula_x.Book.{
  Store, PriceLevel, Levels, level_at, levels, set_levels, resting, unlink, shrink_level,
  drop_or_put, remove_from, remove_slot, slot,
}
use nebula_x.Book.Rep.{LevelRep, SideRep, Chains, chain_at, Ordered}
use nebula_x.Book.Sides.{SideRep-lookup, Ordered-put, Ordered-erase, count-le-resting}
use nebula_x.Book.Unlink.{own, unlink-kept, unlink_self, prev-ne, All-mid}
use nebula_x.Book.AddOrder.{IsSide}
use nebula_x.Book.Invariant.{
  View, StoreRep, AllSlots, AllSlots-put, AllSlots-erase, AllSlots-at, without, drop_chain, leave,
  chains, set_chains,
}
use nebula_x.Book.Freed.{has-split, remove-side, remove-other-side, resting-drop}

-- The store behind `removeOrder`, for an order of known side and price.
abbrev pub removed : Store → ℕ → Side → ℕ → PriceLevel → Store
removed st i sd p lvl = record {
  book =
      set_levels sd
        (drop_or_put sd p (shrink_level lvl i (unlink st.pool.storage i i)) (levels sd st.book))
        st.book;
  pool = deallocate (record (st.pool) { storage = unlink st.pool.storage i }) i;
  index = erase_id st.index (slot st i).order_id;
}

remove_slot-removed :
    (st : Store) (i : ℕ) (sd : Side) (p : ℕ) (lvl : PriceLevel)
    → (slot st i).side ≡ sd
    → (slot st i).price ≡ p
    → lookup p (levels sd st.book) ≡ some lvl
    → unlink st.pool.storage i i ≡ slot st i
    → remove_slot st i ≡ removed st i sd p lvl
unfolding remove_slot remove_from
remove_slot-removed st i sd p lvl e f g u = rw (e, f, g, remove_slot) (rw (u, e, f, remove_from))

pub level_at-some :
    (p : ℕ) (l : Levels) (lvl : PriceLevel) → lookup p l ≡ some lvl → level_at p l ≡ lvl
level_at-some p l lvl e = rw (level_at, e)

-- Once more as the storage's free list sees it: the slot goes back on top.
freed-IsPool :
    (st : Store) (free others : List ℕ) (side : Side) (p : ℕ) (lvl : PriceLevel) (xs ys : List ℕ)
    (i : ℕ)
    → LevelRep st.pool.storage side (free ++ others) p lvl (xs ++ i ∷ ys)
    → IsPool st.pool free
    → i < st.pool.capacity
    → 0 < st.pool.size
    → IsPool (deallocate (record (st.pool) { storage = unlink st.pool.storage i }) i) (i ∷ free)
freed-IsPool st free others side p lvl xs ys i r v lt pos =
    deallocate-IsPool (record (st.pool) { storage = unlink st.pool.storage i }) i free
      (record {
        chain =
            Free-frame st.pool.storage (unlink st.pool.storage i) st.pool.capacity _ free
              (λ j m.
                (unlink-kept st.pool.storage i
                  (prev-ne st.pool.storage side (free ++ others) p lvl xs ys i r) j).3)
              v.chain;
        distinct = v.distinct;
        small = v.small;
        counted = v.counted;
      })
      lt
      (ground (
        arith,
        has-append i free others,
        (own st.pool.storage side (free ++ others) p lvl xs ys i r).2,
      ))
      pos

AllSlots-drop :
    (P : ℕ → Type 0) (sd : Side) (p : ℕ) (zs : List ℕ) (c : Chains)
    → All P zs
    → AllSlots P c
    → AllSlots P (drop_chain sd p zs c)
AllSlots-drop P sd p [] c h a = AllSlots-erase P p c a
AllSlots-drop P sd p (z ∷ zs) c h a = AllSlots-put P sd p (z ∷ zs) c h a

Ordered-drop :
    (sd : Side) (p : ℕ) (lvl : PriceLevel) (l : Levels)
    → Ordered sd l
    → Ordered sd (drop_or_put sd p lvl l)
Ordered-drop sd p lvl l o = elim (Bool-cases (lvl.count == 0)) [
  | inl e ↦ rw (drop_or_put, e) (Ordered-erase sd p l o)
  | inr e ↦ rw (drop_or_put, e) (Ordered-put sd p lvl l o)
]

-- What the invariant says of the slot that goes.
record Leaving (st : Store) (others : List ℕ) (lvl : PriceLevel) (zs : List ℕ) (i : ℕ)
    : Type 0 where
  word : lvl.count < 2 ^ 32
  lt : i < st.pool.capacity
  pos : 0 < st.pool.size
  apart : has i others ≡ false
  rest : All (λ j. j < st.pool.capacity) zs

leaving :
    (st : Store) (free others : List ℕ) (side : Side) (p : ℕ) (lvl : PriceLevel) (xs ys : List ℕ)
    (i : ℕ) (l : Levels) (c : Chains)
    → lookup p l ≡ some lvl
    → lookup p c ≡ some (xs ++ i ∷ ys)
    → AllSlots (λ j. j < st.pool.capacity) c
    → resting l ≤ st.pool.size
    → IsPool st.pool free
    → LevelRep st.pool.storage side (free ++ others) p lvl (xs ++ i ∷ ys)
    → Leaving st others lvl (xs ++ ys) i
leaving st free others side p lvl xs ys i l c e f a few v r =
    let count = ap (λ (w : PriceLevel). w.count) (level_at-some p l lvl e) in
    let le = count-le-resting p l in
    let within = All-mid _ xs ys i (rw (chain_at, f) at (AllSlots-at _ p c a)) in
    let apart = (own st.pool.storage side (free ++ others) p lvl xs ys i r).2 in
    record {
      word = omega (arith, le, count, few, v);
      lt = within.1;
      pos = omega (arith, le, count, few, r.occupied);
      apart = ground (arith, has-append i free others, apart);
      rest = within.0;
    }

removed-StoreRep :
    (st : Store) (v : View) (free others : List ℕ) (sd : Side) (p : ℕ) (lvl : PriceLevel)
    (xs ys : List ℕ) (i : ℕ)
    → StoreRep st v free others
    → IsSide sd
    → lookup p (levels sd st.book) ≡ some lvl
    → lookup p (chains sd v) ≡ some (xs ++ i ∷ ys)
    → LevelRep st.pool.storage sd (free ++ others) p lvl (xs ++ i ∷ ys)
    → StoreRep
        (removed st i sd p lvl)
        (set_chains sd (drop_chain sd p (xs ++ ys) (chains sd v)) v)
        (i ∷ free)
        others
unfolding deallocate
removed-StoreRep st v free others invalid p lvl xs ys i r (inl h) e f lr = cc
removed-StoreRep st v free others invalid p lvl xs ys i r (inr h) e f lr = cc
removed-StoreRep st v free others buy p lvl xs ys i r h e f lr =
    let s = st.pool.storage in
    let fh = u32 st.pool.free_head in
    let a =
      leaving st free others buy p lvl xs ys i st.book.bids v.bids e f r.bids_within
        (omega (arith, r.counted)) r.pool lr in
    record {
      bids =
          remove-side s buy (free ++ others) p lvl xs ys i fh lr st.book.bids v.bids (xs ++ ys) refl
            r.bids r.bids_ordered a.word;
      asks =
          remove-other-side s buy (free ++ others) p lvl xs ys i fh lr sell st.book.asks v.asks
            (λ q. cc) r.asks;
      bids_ordered = Ordered-drop buy p _ st.book.bids r.bids_ordered;
      asks_ordered = r.asks_ordered;
      pool = freed-IsPool st free others buy p lvl xs ys i lr r.pool a.lt a.pos;
      apart = (a.apart, r.apart);
      bids_within = AllSlots-drop _ buy p (xs ++ ys) v.bids a.rest r.bids_within;
      asks_within = r.asks_within;
      counted = omega (
        arith,
        resting-drop s buy (free ++ others) p lvl xs ys i fh lr st.book.bids r.bids_ordered
            (level_at-some p st.book.bids lvl e) a.word,
        r.counted,
        r.pool,
      );
    }
removed-StoreRep st v free others sell p lvl xs ys i r h e f lr =
    let s = st.pool.storage in
    let fh = u32 st.pool.free_head in
    let a =
      leaving st free others sell p lvl xs ys i st.book.asks v.asks e f r.asks_within
        (omega (arith, r.counted)) r.pool lr in
    record {
      bids =
          remove-other-side s sell (free ++ others) p lvl xs ys i fh lr buy st.book.bids v.bids
            (λ q. cc) r.bids;
      asks =
          remove-side s sell (free ++ others) p lvl xs ys i fh lr st.book.asks v.asks (xs ++ ys)
            refl r.asks r.asks_ordered a.word;
      bids_ordered = r.bids_ordered;
      asks_ordered = Ordered-drop sell p _ st.book.asks r.asks_ordered;
      pool = freed-IsPool st free others sell p lvl xs ys i lr r.pool a.lt a.pos;
      apart = (a.apart, r.apart);
      bids_within = r.bids_within;
      asks_within = AllSlots-drop _ sell p (xs ++ ys) v.asks a.rest r.asks_within;
      counted = omega (
        arith,
        resting-drop s sell (free ++ others) p lvl xs ys i fh lr st.book.asks r.asks_ordered
            (level_at-some p st.book.asks lvl e) a.word,
        r.counted,
        r.pool,
      );
    }

-- The levels and chains of a side, as the invariant has them.
pub side-rep :
    (st : Store) (v : View) (free others : List ℕ) (sd : Side)
    → StoreRep st v free others
    → IsSide sd
    → SideRep st.pool.storage sd (free ++ others) (levels sd st.book) (chains sd v)
side-rep st v free others invalid r (inl h) = cc
side-rep st v free others invalid r (inr h) = cc
side-rep st v free others buy r h = r.bids
side-rep st v free others sell r h = r.asks

-- Where a resting order stands: its level, and the slots before and behind it.
pub record Located (st : Store) (v : View) (outside : List ℕ) (sd : Side) (p i : ℕ) : Type 0 where
  pub lvl : PriceLevel
  pub xs : List ℕ
  pub ys : List ℕ
  pub level : lookup p (levels sd st.book) ≡ some lvl
  pub chain : lookup p (chains sd v) ≡ some (xs ++ i ∷ ys)
  pub left : without i (chain_at p (chains sd v)) ≡ xs ++ ys
  pub rep : LevelRep st.pool.storage sd outside p lvl (xs ++ i ∷ ys)

pub locate :
    (st : Store) (v : View) (free others : List ℕ) (sd : Side) (p i : ℕ)
    → StoreRep st v free others
    → IsSide sd
    → has i (chain_at p (chains sd v)) ≡ true
    → Located st v (free ++ others) sd p i
locate st v free others sd p i r h m =
    elim (SideRep-lookup st.pool.storage sd (free ++ others) p (levels sd st.book) (chains sd v)
      (side-rep st v free others sd r h)) [
        | inl (e, f) ↦
            absurd
              (false≢true (subst (λ o. has i (elim o [ none ↦ [] | some is ↦ is ]) ≡ true) f m))
        | inr (lvl, is, e, f, lr) ↦
            let at : chain_at p (chains sd v) ≡ is = rw (chain_at, f) in
            let (xs, ys, q, w) = has-split i is (rw at at m) in
            record {
              lvl = lvl;
              xs = xs;
              ys = ys;
              level = e;
              chain = f ∙ ap some q;
              left = ap (without i) at ∙ w;
              rep = subst (LevelRep st.pool.storage sd (free ++ others) p lvl) q lr;
            }
      ]

-- On a well-formed book, removing an order that rests there takes its slot out of its price, keeps the others in
-- order, and gives the slot back to the pool.
pub remove_slot-StoreRep :
    (st : Store) (v : View) (free others : List ℕ) (sd : Side) (p i : ℕ)
    → StoreRep st v free others
    → IsSide sd
    → has i (chain_at p (chains sd v)) ≡ true
    → StoreRep (remove_slot st i) (leave sd p i v) (i ∷ free) others
remove_slot-StoreRep st v free others sd p i r h m =
    let a = locate st v free others sd p i r h m in
    let mine = own st.pool.storage sd (free ++ others) p a.lvl a.xs a.ys i a.rep in
    let self = unlink_self st.pool.storage sd (free ++ others) p a.lvl a.xs a.ys i a.rep in
    rw (remove_slot-removed st i sd p a.lvl mine.1 mine.0 a.level self, a.left)
      (removed-StoreRep st v free others sd p a.lvl a.xs a.ys i r h a.level a.chain a.rep)
