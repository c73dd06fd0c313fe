-- ===== src/Book/Quantity.antt =====
-- The quantity updates of src/order_book.cpp and status writes on a book that shows a view: the
-- view stays.
use mathlib.Core.Path.{subst}
use nebula_x.Base.{
  ℕ, ◌^◌, ◌<◌, ◌≤◌, ◌≡◌, ◌≢◌, refl, sym, ap, ◌⊎◌, inl, inr, true, some, List, ◌∷◌, ◌++◌, arith,
  sub32, add32, update, ◌==◌, has, lookup, put, Bool-cases, ==_refl, eq_of_==,
}
use nebula_x.Order.{Order, Side, buy, sell, invalid}
use nebula_x.Pool.{Pool, write_slot}
use nebula_x.Pool.Free.{IsPool, Free-frame}
use nebula_x.Book.{
  Store, PriceLevel, Levels, before, levels, set_levels, resting, slot, lower_level,
  reduce_order_qty, reduce_qty_cancel,
}
use nebula_x.Book.Rep.{Member, chain_at, Ordered, SameAt, same_of-eq}
use nebula_x.Book.Sides.{SideRep-but, SideRep-frame, Ordered-put, resting-put}
use nebula_x.Book.Unlink.{own}
use nebula_x.Book.AddOrder.{IsSide}
use nebula_x.Book.Invariant.{View, StoreRep, chains}
use nebula_x.Book.RemoveOrder.{Located, locate, level_at-some}
use nebula_x.Book.Lower.{Lowered, SideRep-write, lower-away, lower-level}

-- The store behind a quantity update of slot `i`, which holds an order of side `sd`.
abbrev lowered : Store → ℕ → Order → ℕ → Side → ℕ → PriceLevel → Store
lowered st i o amount sd p lvl = record st {
  pool = write_slot st.pool i o;
  book =
      set_levels sd
        (put (before sd) p (record lvl { total_qty = sub32 lvl.total_qty amount })
          (levels sd st.book))
        st.book;
}

lower_level-lowered :
    (st : Store) (i amount : ℕ) (o : Order) (sd : Side) (p : ℕ) (lvl : PriceLevel)
    → o.side ≡ sd
    → o.price ≡ p
    → lookup p (levels sd st.book) ≡ some lvl
    → lower_level (record st { pool = write_slot st.pool i o }) i amount
      ≡ lowered st i o amount sd p lvl
unfolding lower_level
lower_level-lowered st i amount o sd p lvl e f g =
    rw (==_refl i, e, f, level_at-some p (levels sd st.book) lvl g) refl

write-IsPool :
    (q : Pool) (i : ℕ) (o : Order) (free : List ℕ)
    → o.pool_next_free ≡ (q.storage i).pool_next_free
    → IsPool q free
    → IsPool (write_slot q i o) free
write-IsPool q i o free e v = record {
  chain = Free-frame q.storage (update q.storage i o) q.capacity _ free (λ j m. same j) v.chain;
  distinct = v.distinct;
  small = v.small;
  counted = v.counted;
}
  where
    same : (j : ℕ) → (update q.storage i o j).pool_next_free ≡ (q.storage j).pool_next_free
    same j = elim (Bool-cases (j == i)) [ inl z ↦ rw (z, eq_of_== j i z) e | inr n ↦ rw n refl ]

resting-lower :
    (sd : Side) (p amount : ℕ) (lvl : PriceLevel) (l : Levels)
    → Ordered sd l
    → lookup p l ≡ some lvl
    → resting (put (before sd) p (record lvl { total_qty = sub32 lvl.total_qty amount }) l)
      ≡ resting l
resting-lower sd p amount lvl l o e =
    let w : PriceLevel = record lvl { total_qty = sub32 lvl.total_qty amount } in
    omega
      (arith, resting-put sd p w l o, ap (λ (z : PriceLevel). z.count) (level_at-some p l lvl e))

lowered-StoreRep :
    (st : Store) (v : View) (free others : List ℕ) (sd : Side) (p i amount : ℕ) (o : Order)
    → StoreRep st v free others
    → IsSide sd
    → (a : Located st v (free ++ others) sd p i) → Lowered (slot st i) o amount
    → amount < 2 ^ 32
    → StoreRep (lowered st i o amount sd p a.lvl) v free others
lowered-StoreRep st v free others invalid p i amount o r (inl h) a low word = cc
lowered-StoreRep st v free others invalid p i amount o r (inr h) a low word = cc
lowered-StoreRep st v free others buy p i amount o r h a low word =
    let s = st.pool.storage in
    let away =
      λ (side : Side) (q j : ℕ) (n : (q ≢ p) ⊎ (side ≢ buy))
          (m : Member s side (free ++ others) q j).
        lower-away s buy (free ++ others) p a.lvl a.xs a.ys i amount o a.rep low j side q n m in
    record {
      apart = r.apart;
      bids_within = r.bids_within;
      asks_within = r.asks_within;
      asks_ordered = r.asks_ordered;
      bids =
          SideRep-write (update s i o) buy (free ++ others) p a.lvl _ (a.xs ++ i ∷ a.ys)
            st.book.bids v.bids r.bids_ordered
            (SideRep-but s (update s i o) buy (free ++ others) (free ++ others) p st.book.bids
              v.bids (λ q j n m. away buy q j (inl n) m) r.bids)
            a.level a.chain
            (lower-level s buy (free ++ others) p a.lvl a.xs a.ys i amount o a.rep low word);
      asks =
          SideRep-frame s (update s i o) sell (free ++ others) (free ++ others) st.book.asks v.asks
            (λ q j m. away sell q j (inr (λ e. cc)) m) r.asks;
      bids_ordered = Ordered-put buy p _ st.book.bids r.bids_ordered;
      pool = write-IsPool st.pool i o free low.free r.pool;
      counted =
          omega (
            arith,
            r.counted,
            resting-lower buy p amount a.lvl st.book.bids r.bids_ordered a.level,
          );
    }
lowered-StoreRep st v free others sell p i amount o r h a low word =
    let s = st.pool.storage in
    let away =
      λ (side : Side) (q j : ℕ) (n : (q ≢ p) ⊎ (side ≢ sell))
          (m : Member s side (free ++ others) q j).
        lower-away s sell (free ++ others) p a.lvl a.xs a.ys i amount o a.rep low j side q n m in
    record {
      apart = r.apart;
      bids_within = r.bids_within;
      asks_within = r.asks_within;
      bids_ordered = r.bids_ordered;
      asks =
          SideRep-write (update s i o) sell (free ++ others) p a.lvl _ (a.xs ++ i ∷ a.ys)
            st.book.asks v.asks r.asks_ordered
            (SideRep-but s (update s i o) sell (free ++ others) (free ++ others) p st.book.asks
              v.asks (λ q j n m. away sell q j (inl n) m) r.asks)
            a.level a.chain
            (lower-level s sell (free ++ others) p a.lvl a.xs a.ys i amount o a.rep low word);
      bids =
          SideRep-frame s (update s i o) buy (free ++ others) (free ++ others) st.book.bids v.bids
            (λ q j m. away buy q j (inr (λ e. cc)) m) r.bids;
      asks_ordered = Ordered-put sell p _ st.book.asks r.asks_ordered;
      pool = write-IsPool st.pool i o free low.free r.pool;
      counted =
          omega (
            arith,
            r.counted,
            resting-lower sell p amount a.lvl st.book.asks r.asks_ordered a.level,
          );
    }

-- The order in a slot has the price and the side of where it stands, and a 32-bit remainder.
pub Located-Member :
    (st : Store) (v : View) (outside : List ℕ) (sd : Side) (p i : ℕ)
    → Located st v outside sd p i
    → Member st.pool.storage sd outside p i
Located-Member st v outside sd p i a = own st.pool.storage sd outside p a.lvl a.xs a.ys i a.rep

-- On a well-formed book, filling a resting order by at most what is left of it keeps every queue,
-- and the level's total in step with its orders.
pub reduce_order_qty-StoreRep :
    (st : Store) (v : View) (free others : List ℕ) (sd : Side) (p i amount : ℕ)
    → StoreRep st v free others
    → IsSide sd
    → has i (chain_at p (chains sd v)) ≡ true
    → amount ≤ (slot st i).remaining_qty
    → StoreRep (reduce_order_qty st i amount) v free others
unfolding reduce_order_qty
reduce_order_qty-StoreRep st v free others sd p i amount r h m le =
    let a = locate st v free others sd p i r h m in
    let mine = Located-Member st v (free ++ others) sd p i a in
    let o : Order = record (slot st i) {
      remaining_qty = sub32 (slot st i).remaining_qty amount;
      filled_qty = add32 (slot st i).filled_qty amount;
    } in
    subst (λ w. StoreRep w v free others)
      (sym (lower_level-lowered st i amount o sd p a.lvl mine.1 mine.0 a.level))
      (lowered-StoreRep st v free others sd p i amount o r h a
        (record {
          prev = refl;
          next = refl;
          price = refl;
          side = refl;
          free = refl;
          left = omega (arith, mine.3, le);
        })
        (omega (arith, mine.3, le)))

-- On a well-formed book, taking at most what is left off a resting order keeps every queue, and the
-- level's total in step with its orders.
pub reduce_qty_cancel-StoreRep :
    (st : Store) (v : View) (free others : List ℕ) (sd : Side) (p i amount : ℕ)
    → StoreRep st v free others
    → IsSide sd
    → has i (chain_at p (chains sd v)) ≡ true
    → amount ≤ (slot st i).remaining_qty
    → StoreRep (reduce_qty_cancel st i amount) v free others
unfolding reduce_qty_cancel
reduce_qty_cancel-StoreRep st v free others sd p i amount r h m le =
    let a = locate st v free others sd p i r h m in
    let mine = Located-Member st v (free ++ others) sd p i a in
    let o : Order = record (slot st i) { remaining_qty = sub32 (slot st i).remaining_qty amount } in
    subst (λ w. StoreRep w v free others)
      (sym (lower_level-lowered st i amount o sd p a.lvl mine.1 mine.0 a.level))
      (lowered-StoreRep st v free others sd p i amount o r h a
        (record {
          prev = refl;
          next = refl;
          price = refl;
          side = refl;
          free = refl;
          left = omega (arith, mine.3, le);
        })
        (omega (arith, mine.3, le)))

same-write :
    (s : ℕ → Order) (i : ℕ) (o : Order) (j : ℕ) → Lowered (s i) o 0 → SameAt s (update s i o) j
same-write s i o j low = elim (Bool-cases (j == i)) [
  | inl e ↦
      rw (e, eq_of_== j i e) (low.prev, low.next, low.price, low.side, omega (arith, low.left))
  | inr n ↦ same_of-eq s (update s i o) j (rw n refl)
]

-- A write that keeps an order's links, price, side and remainder changes nothing of the view.
pub write-StoreRep :
    (st : Store) (v : View) (free others : List ℕ) (i : ℕ) (o : Order)
    → StoreRep st v free others
    → Lowered (slot st i) o 0
    → StoreRep (record st { pool = write_slot st.pool i o }) v free others
write-StoreRep st v free others i o r low = record {
  bids =
      SideRep-frame _ _ buy (free ++ others) (free ++ others) st.book.bids v.bids
        (λ p j m. (same-write st.pool.storage i o j low, m.2)) r.bids;
  asks =
      SideRep-frame _ _ sell (free ++ others) (free ++ others) st.book.asks v.asks
        (λ p j m. (same-write st.pool.storage i o j low, m.2)) r.asks;
  bids_ordered = r.bids_ordered;
  asks_ordered = r.asks_ordered;
  pool = write-IsPool st.pool i o free low.free r.pool;
  apart = r.apart;
  bids_within = r.bids_within;
  asks_within = r.asks_within;
  counted = r.counted;
}
