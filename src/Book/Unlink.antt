-- ===== src/Book/Unlink.antt =====
-- What the link writes of `removeOrder` do to the storage and to the level of the order.
use nebula_x.Base.{
  ℕ, ◌+◌, ◌^◌, ◌<◌, ◌≡◌, ◌≢◌, sym, ap, ◌∙◌, ◌⊎◌, inl, inr, true, false, List, [], ◌∷◌, ◌++◌, arith,
  nil_idx, ◌==◌, has, has-append, length-append, Distinct, All, Bool-cases, ==_ne, eq_of_==,
  ne_of_==,
}
use mathlib.Core.Path.{subst}
use nebula_x.Order.{Order, Side}
use nebula_x.Chain.{
  Linked-frame, Linked-unlink, unlink_nxt, unlink_prv, prev-of-mid, next-of-mid, last_or,
  has-last_or, nil-not-has,
}
use nebula_x.Book.{PriceLevel, unlink, shrink_level}
use nebula_x.Book.Rep.{LevelRep, Member, Member-of, All-Member, qty_of, qty_of-frame, prv, nxt}

module _ (s : ℕ → Order) (i : ℕ) (np : (s i).prev_idx ≢ i) where
  -- The fields that the writes do not touch.
  pub unlink-kept :
      (j : ℕ)
      → ((unlink s i j).price ≡ (s j).price)
        × ((unlink s i j).side ≡ (s j).side)
        × ((unlink s i j).remaining_qty ≡ (s j).remaining_qty)
        × ((unlink s i j).pool_next_free ≡ (s j).pool_next_free)
        × ((unlink s i j).order_id ≡ (s j).order_id)
        × ((unlink s i j).user_id ≡ (s j).user_id)
  unfolding unlink
  unlink-kept j = ground arith

  pub unlink-nxt : (j : ℕ) → (unlink s i j).next_idx ≡ unlink_nxt (prv s) (nxt s) i j
  unfolding unlink
  unlink-nxt j = ground arith

  pub unlink-prv : (j : ℕ) → (unlink s i j).prev_idx ≡ unlink_prv (prv s) (nxt s) i j
  unfolding unlink
  unlink-prv j = ground arith

  next-apart :
      (j : ℕ)
      → ((s i).next_idx ≡ nil_idx) ⊎ (j ≢ (s i).next_idx)
      → ((s i).next_idx == nil_idx) ≡ false
      → j ≢ (s i).next_idx
  next-apart j (inl f) e = absurd (ne_of_== (s i).next_idx nil_idx e f)
  next-apart j (inr m) e = m

  unlink-first :
      (j : ℕ)
      → (s i).prev_idx ≡ nil_idx
      → ((s i).next_idx ≡ nil_idx) ⊎ (j ≢ (s i).next_idx)
      → unlink s i j ≡ s j
  unfolding unlink
  unlink-first j e (inl f) = rw (e, f)
  unlink-first j e (inr m) = elim (Bool-cases ((s i).next_idx == nil_idx)) [
    | inl f ↦ rw (e, f)
    | inr f ↦ rw (e, f, ==_ne j (s i).next_idx m)
  ]

  unlink-inner :
      (j : ℕ)
      → j ≢ (s i).prev_idx
      → ((s i).prev_idx == nil_idx) ≡ false
      → ((s i).next_idx ≡ nil_idx) ⊎ (j ≢ (s i).next_idx)
      → unlink s i j ≡ s j
  unfolding unlink
  unlink-inner j n e next = elim (Bool-cases ((s i).next_idx == nil_idx)) [
    | inl f ↦ rw (e, ==_ne i (s i).prev_idx (λ q. np (sym q)), f, ==_ne j (s i).prev_idx n)
    | inr f ↦ rw (
      e,
      ==_ne i (s i).prev_idx (λ q. np (sym q)),
      f,
      ==_ne j (s i).next_idx (next-apart j next f),
      ==_ne j (s i).prev_idx n,
    )
  ]

  -- The writes go to the two neighbours, where they are not null.
  pub unlink-other :
      (j : ℕ)
      → ((s i).prev_idx ≡ nil_idx) ⊎ (j ≢ (s i).prev_idx)
      → ((s i).next_idx ≡ nil_idx) ⊎ (j ≢ (s i).next_idx)
      → unlink s i j ≡ s j
  unlink-other j (inl e) next = unlink-first j e next
  unlink-other j (inr n) next = elim (Bool-cases ((s i).prev_idx == nil_idx)) [
    | inl e ↦ unlink-first j (eq_of_== (s i).prev_idx nil_idx e) next
    | inr e ↦ unlink-inner j n e next
  ]

-- The slots around one slot of a level.
pub Distinct-mid :
    (xs ys : List ℕ) (i : ℕ)
    → Distinct (xs ++ i ∷ ys)
    → Distinct (xs ++ ys) × (has i (xs ++ ys) ≡ false)
Distinct-mid [] ys i d = (d.1, d.0)
Distinct-mid (x ∷ xs) ys i d =
    let rest = Distinct-mid xs ys i d.1 in
    (
      (ground (arith, has-append x xs (i ∷ ys), has-append x xs ys), rest.0),
      ground (arith, rest.1, has-append x xs (i ∷ ys)),
    )

pub has-mid : (xs ys : List ℕ) (i j : ℕ) → has j (xs ++ ys) ≡ true → has j (xs ++ i ∷ ys) ≡ true
has-mid xs ys i j h = ground (arith, has-append j xs ys, has-append j xs (i ∷ ys))

pub All-mid :
    (P : ℕ → Type 0) (xs ys : List ℕ) (i : ℕ) → All P (xs ++ i ∷ ys) → All P (xs ++ ys) × P i
All-mid P [] ys i h = (h.1, h.0)
All-mid P (x ∷ xs) ys i h = let rest = All-mid P xs ys i h.1 in ((h.0, rest.0), rest.1)

qty_of-mid :
    (s : ℕ → Order) (xs ys : List ℕ) (i : ℕ)
    → qty_of s (xs ++ i ∷ ys) ≡ qty_of s (xs ++ ys) + (s i).remaining_qty
qty_of-mid s [] ys i = omega arith
qty_of-mid s (x ∷ xs) ys i = omega (arith, qty_of-mid s xs ys i)

module _ (s : ℕ → Order) (side : Side) (outside : List ℕ) (price : ℕ) (lvl : PriceLevel)
    (xs ys : List ℕ) (i : ℕ) (r : LevelRep s side outside price lvl (xs ++ i ∷ ys)) where
  pub own : Member s side outside price i
  own = (All-mid _ xs ys i r.members).1

  not-nil : i ≢ nil_idx
  not-nil e = ground (
    arith,
    nil-not-has (prv s) (nxt s) nil_idx lvl.head_idx (xs ++ i ∷ ys) lvl.tail_idx r.linked,
    has-append nil_idx xs (i ∷ ys),
  )

  -- The predecessor of a slot is another slot of the level, or none; so is its successor.
  pub prev-Member : ((s i).prev_idx ≡ nil_idx) ⊎ (has (s i).prev_idx (xs ++ ys) ≡ true)
  prev-Member =
      go xs (prev-of-mid (prv s) (nxt s) i nil_idx lvl.head_idx xs ys lvl.tail_idx r.linked)
    where
      go :
          (zs : List ℕ)
          → (s i).prev_idx ≡ last_or nil_idx zs
          → ((s i).prev_idx ≡ nil_idx) ⊎ (has (s i).prev_idx (zs ++ ys) ≡ true)
      go [] e = inl e
      go (z ∷ zs) e = inr (
          subst (λ t. has t (z ∷ zs ++ ys) ≡ true) (sym e)
            (ground (arith, has-append (last_or z zs) (z ∷ zs) ys, has-last_or z zs)))

  pub next-Member : ((s i).next_idx ≡ nil_idx) ⊎ (has (s i).next_idx (xs ++ ys) ≡ true)
  next-Member = ground (
    arith,
    next-of-mid (prv s) (nxt s) i nil_idx lvl.head_idx xs ys lvl.tail_idx r.linked,
    has-append (s i).next_idx xs ys,
  )

  pub prev-ne : (s i).prev_idx ≢ i
  prev-ne e = ground (
    arith,
    prev-Member,
    (Distinct-mid xs ys i r.distinct).1,
    ap (λ k. has k (xs ++ ys)) e,
    not-nil,
  )

  pub next-ne : (s i).next_idx ≢ i
  next-ne e = ground (
    arith,
    next-Member,
    (Distinct-mid xs ys i r.distinct).1,
    ap (λ k. has k (xs ++ ys)) e,
    not-nil,
  )

  pub unlink_self : unlink s i i ≡ s i
  unlink_self = unlink-other s i prev-ne i (inr (λ e. prev-ne (sym e))) (inr (λ e. next-ne (sym e)))

  -- A slot that stays in the level is not the one that goes.
  stays-ne : (j : ℕ) → has j (xs ++ ys) ≡ true → j ≢ i
  stays-ne j m e = ground (arith, (Distinct-mid xs ys i r.distinct).1, ap (λ k. has k (xs ++ ys)) e)

  -- The level behind the writes: slot `i` is out, the rest is as before. The storage may differ from
  -- the unlinked one at slot `i`.
  pub unlink-level :
      (t : ℕ → Order) (outside' : List ℕ)
      → ((j : ℕ) → j ≢ i → t j ≡ unlink s i j)
      → ((j : ℕ) → j ≢ i → has j outside ≡ false → has j outside' ≡ false)
      → 1 < lvl.count
      → lvl.count < 2 ^ 32
      → LevelRep t side outside' price (shrink_level lvl i (unlink s i i)) (xs ++ ys)
  unfolding shrink_level
  unlink-level t outside' same out more word = record {
    linked = rw unlink_self (
        Linked-frame (unlink_prv (prv s) (nxt s) i) (unlink_nxt (prv s) (nxt s) i) (prv t) (nxt t)
          nil_idx _ (xs ++ ys) _
          (λ j m. (
            ap (λ (o : Order). o.prev_idx) (same j (stays-ne j m)) ∙ unlink-prv s i prev-ne j,
            ap (λ (o : Order). o.next_idx) (same j (stays-ne j m)) ∙ unlink-nxt s i prev-ne j,
          ))
          (Linked-unlink (prv s) (nxt s) i nil_idx lvl.head_idx xs ys lvl.tail_idx r.linked
            r.distinct
            (nil-not-has (prv s) (nxt s) nil_idx lvl.head_idx (xs ++ i ∷ ys) lvl.tail_idx
              r.linked)));
    distinct = (Distinct-mid xs ys i r.distinct).0;
    counted = omega (arith, r.counted, length-append xs (i ∷ ys), length-append xs ys);
    total = omega (
      arith,
      r.total,
      own.3,
      ap (λ (o : Order). o.remaining_qty) unlink_self,
      qty_of-mid s xs ys i,
      qty_of-frame s t (xs ++ ys) (λ j m.
          ap (λ (o : Order). o.remaining_qty) (same j (stays-ne j m))
          ∙ (unlink-kept s i prev-ne j).2),
    );
    members =
        All-Member s t side outside outside' price (xs ++ ys)
          (λ j m h.
            let e = same j (stays-ne j m) in
            let k = unlink-kept s i prev-ne j in
            (
              ap (λ (o : Order). o.price) e ∙ k.0 ∙ h.0,
              ap (λ (o : Order). o.side) e ∙ k.1 ∙ h.1,
              out j (stays-ne j m) h.2,
              omega (arith, ap (λ (o : Order). o.remaining_qty) e, k.2, h.3),
            ))
          (All-mid _ xs ys i r.members).0;
    occupied = omega arith;
  }

  -- The slots that the writes touch are the level's.
  pub unlink-away :
      (j : ℕ) (side' : Side) (p : ℕ)
      → (p ≢ price) ⊎ (side' ≢ side)
      → Member s side' outside p j
      → unlink s i j ≡ s j
  unlink-away j side' p away h =
      unlink-other s i prev-ne j (near (s i).prev_idx prev-Member) (near (s i).next_idx next-Member)
    where
      apart : (k : ℕ) → (p ≢ price) ⊎ (side' ≢ side) → Member s side outside price k → j ≢ k
      apart k (inl n) m e = n (sym h.0 ∙ ap (λ q. (s q).price) e ∙ m.0)
      apart k (inr n) m e = n (sym h.1 ∙ ap (λ q. (s q).side) e ∙ m.1)

      near : (k : ℕ) → (k ≡ nil_idx) ⊎ (has k (xs ++ ys) ≡ true) → (k ≡ nil_idx) ⊎ (j ≢ k)
      near k (inl e) = inl e
      near k (inr m) = inr (
          apart k away
            (Member-of s side outside price (xs ++ i ∷ ys) k r.members (has-mid xs ys i k m)))
