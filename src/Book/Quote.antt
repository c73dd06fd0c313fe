-- ===== src/Book/Quote.antt =====
-- `availableQty` and `getTopOfBook` on a book that shows a view.
use nebula_x.Base.{
  ℕ, suc, zero, ◌+◌, ◌%◌, ◌^◌, ◌<◌, ◌≡◌, refl, ◌∙◌, inl, inr, true, List, [], ◌∷◌, ◌++◌, arith,
  nil_idx, add32, ==_ne, if◌then◌else◌, length, Bool-cases,
}
use nebula_x.Order.{Order, Side, buy, sell, invalid}
use nebula_x.Chain.{Linked}
use nebula_x.Book.{
  Store, Levels, before, levels, opposite, past, level_qty, available_from, available_qty, top_of,
  get_top_of_book,
}
use nebula_x.Book.Rep.{SideRep, Chains, Keys, Ordered, qty_of, prv, nxt}
use nebula_x.Book.AddOrder.{IsSide}
use nebula_x.Book.Invariant.{View, StoreRep, chains}
use nebula_x.Book.RemoveOrder.{side-rep}
use nebula_x.Book.Best.{side-Ordered}

-- The slots of a side's chains whose price is not past a limit.
abbrev pub eligible : Side → ℕ → Chains → List ℕ
eligible side limit [] = []
eligible side limit ((p, is) ∷ c) = (if past side limit p then [] else is) ++ eligible side limit c

qty_of-both : (s : ℕ → Order) (xs ys : List ℕ) → qty_of s (xs ++ ys) ≡ qty_of s xs + qty_of s ys
qty_of-both s [] ys = omega arith
qty_of-both s (x ∷ xs) ys = omega (arith, qty_of-both s xs ys)

level_qty-sum :
    (f : ℕ) (s : ℕ → Order) (prev cur total : ℕ) (is : List ℕ) (tail : ℕ)
    → length is < f
    → total < 2 ^ 32
    → Linked (prv s) (nxt s) prev cur is tail
    → level_qty f s cur total ≡ (total + qty_of s is) % 2 ^ 32
unfolding level_qty
level_qty-sum zero s prev cur total is tail lt word h = absurd (omega (arith, lt))
level_qty-sum (suc f) s prev cur total [] tail lt word h = rw h.0 (omega (arith, word))
level_qty-sum (suc f) s prev cur total (i ∷ is) tail lt word h =
    let rest =
      level_qty-sum f s i (nxt s i) (add32 total (s i).remaining_qty) is tail (omega (arith, lt))
        (omega arith) h.3 in
    rw (h.0, ==_ne i nil_idx h.1) (rest ∙ omega arith)

pub Keys-imp : {P Q : ℕ → Type 0} (m : Levels) → Keys P m → ((j : ℕ) → P j → Q j) → Keys Q m
Keys-imp [] k f = tt
Keys-imp ((j, v) ∷ m) k f = (f j k.0, Keys-imp m k.1 f)

-- Behind a price that is past the limit there are only prices past it.
pub past-before :
    (side : Side) (limit p q : ℕ)
    → past side limit p ≡ true
    → before (opposite side) p q ≡ true
    → past side limit q ≡ true
past-before buy limit p q a b = ground arith
past-before sell limit p q a b = ground arith
past-before invalid limit p q a b = ground arith

eligible-none :
    (s : ℕ → Order) (side sd : Side) (outside : List ℕ) (limit : ℕ) (l : Levels) (c : Chains)
    → SideRep s sd outside l c
    → Keys (λ q. past side limit q ≡ true) l
    → eligible side limit c ≡ []
eligible-none s side sd outside limit [] [] h k = refl
eligible-none s side sd outside limit [] (_ ∷ _) h k = absurd h
eligible-none s side sd outside limit (_ ∷ _) [] h k = absurd h
eligible-none s side sd outside limit ((p, lvl) ∷ l) ((q, is) ∷ c) h k =
    rw (← h.0, k.0) (eligible-none s side sd outside limit l c h.2 k.1)

available_from-sum :
    (s : ℕ → Order) (side : Side) (outside : List ℕ) (limit total : ℕ) (l : Levels) (c : Chains)
    → total < 2 ^ 32
    → SideRep s (opposite side) outside l c
    → Ordered (opposite side) l
    → available_from side s limit l total ≡ (total + qty_of s (eligible side limit c)) % 2 ^ 32
unfolding available_from
available_from-sum s side outside limit total [] [] word h o = omega (arith, word)
available_from-sum s side outside limit total [] (_ ∷ _) word h o = absurd h
available_from-sum s side outside limit total (_ ∷ _) [] word h o = absurd h
available_from-sum s side outside limit total ((p, lvl) ∷ l) ((q, is) ∷ c) word h o =
    elim (Bool-cases (past side limit p)) [
      | inl e ↦
          rw
            (
              ← h.0,
              e,
              eligible-none s side (opposite side) outside limit l c h.2
                  (Keys-imp l o.0 (λ j. past-before side limit p j e)),
            )
            (omega (arith, word))
      | inr n ↦
          let level =
            level_qty-sum (lvl.count + 1) s nil_idx lvl.head_idx total is lvl.tail_idx
              (omega (arith, h.1.counted)) word h.1.linked in
          let rest =
            available_from-sum s side outside limit (level_qty (lvl.count + 1) s lvl.head_idx total)
              l c (omega (arith, level)) h.2 o.1 in
          rw (← h.0, n) (rest ∙ omega (arith, level, qty_of-both s is (eligible side limit c)))
    ]

-- On a well-formed book, the available quantity is what is left of all orders of the other side
-- that are within the price, in 32 bits.
pub available_qty-eligible :
    (st : Store) (v : View) (free others : List ℕ) (side : Side) (limit : ℕ)
    → StoreRep st v free others
    → IsSide (opposite side)
    → available_qty st side limit
      ≡ qty_of st.pool.storage (eligible side limit (chains (opposite side) v)) % 2 ^ 32
unfolding available_qty
available_qty-eligible st v free others side limit r valid =
    available_from-sum st.pool.storage side (free ++ others) limit 0
      (levels (opposite side) st.book) (chains (opposite side) v) (omega arith)
      (side-rep st v free others (opposite side) r valid)
      (side-Ordered st v free others (opposite side) r valid)
    ∙ omega arith

-- The first price of a side, with what is left of its orders in 32 bits; zeros for an empty side.
abbrev pub quote : (ℕ → Order) → Chains → ℕ × ℕ
quote s [] = (0, 0)
quote s ((p, is) ∷ c) = (p, qty_of s is % 2 ^ 32)

top_of-quote :
    (s : ℕ → Order) (sd : Side) (outside : List ℕ) (l : Levels) (c : Chains)
    → SideRep s sd outside l c
    → top_of l ≡ quote s c
top_of-quote s sd outside [] [] h = refl
top_of-quote s sd outside [] (_ ∷ _) h = absurd h
top_of-quote s sd outside (_ ∷ _) [] h = absurd h
top_of-quote s sd outside ((p, lvl) ∷ l) ((q, is) ∷ c) h = rw (← h.0, h.1.total) refl

-- On a well-formed book, the top of the book is the quote of each side.
pub get_top_of_book-quote :
    (st : Store) (v : View) (free others : List ℕ)
    → StoreRep st v free others
    → get_top_of_book st.book ≡ record {
      bid_price = (quote st.pool.storage v.bids).0;
      bid_volume = (quote st.pool.storage v.bids).1;
      ask_price = (quote st.pool.storage v.asks).0;
      ask_volume = (quote st.pool.storage v.asks).1;
    }
unfolding get_top_of_book
get_top_of_book-quote st v free others r =
    let b = top_of-quote st.pool.storage buy (free ++ others) st.book.bids v.bids r.bids in
    let a = top_of-quote st.pool.storage sell (free ++ others) st.book.asks v.asks r.asks in
    rw (b, a) refl
