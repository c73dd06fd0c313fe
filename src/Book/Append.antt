-- ===== src/Book/Append.antt =====
-- What the link writes of `addOrder` do to the level of the order.
use nebula_x.Base.{
  ℕ, ◌+◌, ◌^◌, ◌<◌, ◌≡◌, ◌≢◌, refl, sym, ap, ◌∙◌, true, false, List, [], ◌∷◌, ◌++◌, arith, nil_idx,
  update, ◌==◌, has, has-append, length, length-append, Distinct, All-append, Bool-cases, inl, inr,
  ==_refl, ==_ne, eq_of_==, ne_of_==,
}
use mathlib.Core.Path.{subst}
use nebula_x.Order.{Order}
use nebula_x.Chain.{Linked-snoc, tail-eq-last_or, has-last_or}
use nebula_x.Book.{PriceLevel, default_level, link_slot, append_level}
use nebula_x.Book.Rep.{LevelRep, Member-of, All-Member, qty_of, qty_of-frame, prv, nxt}

pub qty_of-append :
    (s : ℕ → Order) (is js : List ℕ) → qty_of s (is ++ js) ≡ qty_of s is + qty_of s js
qty_of-append s [] js = omega arith
qty_of-append s (i ∷ is) js = omega (arith, qty_of-append s is js)

pub Distinct-snoc : (is : List ℕ) (i : ℕ) → Distinct is → has i is ≡ false → Distinct (is ++ i ∷ [])
Distinct-snoc [] i d out = (refl, tt)
Distinct-snoc (j ∷ js) i d out =
    (ground (arith, has-append j js (i ∷ [])), Distinct-snoc js i d.1 (ground arith))

module _ (s : ℕ → Order) (order : Order) (idx : ℕ) (ne : idx ≢ nil_idx) (outside : List ℕ)
    (free : has idx outside ≡ false) (word : order.remaining_qty < 2 ^ 32) where
  -- The storage after the copy of the order into its slot.
  abbrev copied : ℕ → Order
  copied = update s idx order

  -- A level of its own for the first order at a price.
  pub append-first :
      LevelRep
        (link_slot copied default_level idx)
        order.side
        outside
        order.price
        (append_level default_level idx order.remaining_qty)
        (idx ∷ [])
  unfolding link_slot append_level
  append-first = record {
    linked = (refl, ne, ground arith, (ground arith, refl));
    distinct = (refl, tt);
    counted = refl;
    total = ground arith;
    members = ((ground arith, ground arith, free, ground arith), tt);
    occupied = omega arith;
  }

  module _ (lvl : PriceLevel) (i : ℕ) (is : List ℕ)
      (r : LevelRep s order.side (idx ∷ outside) order.price lvl (i ∷ is)) where
    abbrev linked : ℕ → Order
    linked = link_slot copied lvl idx

    fresh : has idx (i ∷ is) ≡ false
    fresh = elim (Bool-cases (has idx (i ∷ is))) [
      | inl m ↦
          let own = Member-of s order.side (idx ∷ outside) order.price (i ∷ is) idx r.members m in
          absurd (ground arith)
      | inr m ↦ m
    ]

    pub tail-has : has lvl.tail_idx (i ∷ is) ≡ true
    tail-has =
        let e =
          tail-eq-last_or (prv s) (nxt s) nil_idx lvl.head_idx (i ∷ is) lvl.tail_idx r.linked in
        subst (λ t. has t (i ∷ is) ≡ true) (sym e) (has-last_or i is)

    -- The three kinds of slot after the writes.
    pub linked-other : (j : ℕ) → j ≢ idx → j ≢ lvl.tail_idx → linked j ≡ s j
    unfolding link_slot
    linked-other j ne' nt = rw (
      ==_ne lvl.count 0 (λ e. omega (arith, r.occupied)),
      ==_ne j idx ne',
      ==_ne j lvl.tail_idx nt,
    )

    idx-tail : idx ≢ lvl.tail_idx
    idx-tail e = ground (arith, ap (λ j. has j (i ∷ is)) e, fresh, tail-has)

    linked-tail : linked lvl.tail_idx ≡ record (s lvl.tail_idx) { next_idx = idx }
    unfolding link_slot
    linked-tail = rw (
      ==_ne lvl.count 0 (λ e. omega (arith, r.occupied)),
      ==_refl lvl.tail_idx,
      ==_ne lvl.tail_idx idx (λ e. idx-tail (sym e)),
    )

    linked-new : linked idx ≡ record order { prev_idx = lvl.tail_idx; next_idx = nil_idx }
    unfolding link_slot
    linked-new = rw (
      ==_ne lvl.count 0 (λ e. omega (arith, r.occupied)),
      ==_ne idx lvl.tail_idx idx-tail,
      ==_refl idx,
    )

    -- A slot of the level keeps all but, at the tail, its forward link.
    kept :
        (j : ℕ)
        → has j (i ∷ is) ≡ true
        → ((linked j).prev_idx ≡ (s j).prev_idx)
          × ((linked j).price ≡ (s j).price)
          × ((linked j).side ≡ (s j).side)
          × ((linked j).remaining_qty ≡ (s j).remaining_qty)
    kept j m = elim (Bool-cases (j == lvl.tail_idx)) [
      | inl e ↦ rw (eq_of_== j lvl.tail_idx e, linked-tail) (refl, refl, refl, refl)
      | inr nt ↦
          rw (linked-other j (λ e. ground (arith, fresh)) (ne_of_== j lvl.tail_idx nt))
            (refl, refl, refl, refl)
    ]

    -- The new order stands behind all those of its level: price, then time.
    pub append-behind :
        length (i ∷ is) + 1 < 2 ^ 32
        → LevelRep linked order.side outside order.price
            (append_level lvl idx order.remaining_qty)
            (i ∷ is ++ idx ∷ [])
    unfolding append_level
    append-behind small = record {
      linked = rw (==_ne lvl.count 0 (λ e. omega (arith, r.occupied))) (
          Linked-snoc (prv s) (nxt s) (prv linked) (nxt linked) nil_idx lvl.head_idx i is
            lvl.tail_idx idx r.linked r.distinct (λ j m. (kept j m).0)
            (λ j m nt.
              ap (λ (o : Order). o.next_idx) (linked-other j (λ e. ground (arith, fresh)) nt))
            ne (ap (λ (o : Order). o.next_idx) linked-tail)
            (ap (λ (o : Order). o.prev_idx) linked-new)
            (ap (λ (o : Order). o.next_idx) linked-new));
      distinct = Distinct-snoc (i ∷ is) idx r.distinct fresh;
      counted = omega (arith, r.counted, length-append (i ∷ is) (idx ∷ []));
      total = omega (
        arith,
        r.total,
        qty_of-append linked (i ∷ is) (idx ∷ []),
        qty_of-frame s linked (i ∷ is) (λ j m. (kept j m).3),
        ap (λ (o : Order). o.remaining_qty) linked-new,
      );
      members =
          All-append _ (i ∷ is) (idx ∷ [])
            (All-Member s linked order.side (idx ∷ outside) outside order.price (i ∷ is)
              (λ j m h. (
                (kept j m).1 ∙ h.0,
                (kept j m).2 ∙ h.1,
                ground arith,
                omega (arith, (kept j m).3, h.3),
              ))
              r.members)
            (
              (
                ap (λ (o : Order). o.price) linked-new,
                ap (λ (o : Order). o.side) linked-new,
                free,
                omega (arith, ap (λ (o : Order). o.remaining_qty) linked-new),
              ),
              tt,
            );
      occupied = omega (arith, r.counted);
    }
