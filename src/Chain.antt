-- ===== src/Chain.antt =====
-- Doubly linked chains of slots, as the orders of one price level are linked: the arrays of links,
-- the list of slots they lead through, and what appending and unlinking do to that list.
use nebula_x.Base.{
  ℕ, ◌≡◌, ◌≢◌, ◌∙◌, refl, sym, ap, ◌⊎◌, true, false, List, [], ◌∷◌, ◌++◌, arith, nil_idx, ◌==◌,
  if◌then◌else◌, has, has-append, Distinct, inl, inr, ==_refl, ==_ne,
}

-- From `cur`, whose predecessor is `prev`, the links lead through the slots `xs`; `tail` is the last.
abbrev pub Linked : (ℕ → ℕ) → (ℕ → ℕ) → ℕ → ℕ → List ℕ → ℕ → Type 0
Linked prv nxt prev cur [] tail = (cur ≡ nil_idx) × (tail ≡ prev)
Linked prv nxt prev cur (x ∷ xs) tail =
    (cur ≡ x) × (x ≢ nil_idx) × (prv x ≡ prev) × Linked prv nxt x (nxt x) xs tail

-- A chain does not see a change of links outside its slots.
pub Linked-frame :
    (prv nxt prv' nxt' : ℕ → ℕ) (prev cur : ℕ) (xs : List ℕ) (tail : ℕ)
    → ((j : ℕ) → has j xs ≡ true → (prv' j ≡ prv j) × (nxt' j ≡ nxt j))
    → Linked prv nxt prev cur xs tail
    → Linked prv' nxt' prev cur xs tail
Linked-frame prv nxt prv' nxt' prev cur [] tail same h = h
Linked-frame prv nxt prv' nxt' prev cur (x ∷ xs) tail same h =
    let here = same x (rw (==_refl x)) in
    (
      h.0,
      h.1,
      here.0 ∙ h.2,
      rw here.1
          (Linked-frame prv nxt prv' nxt' x (nxt x) xs tail (λ j m. same j (ground arith)) h.3),
    )

-- No chain goes through the null index.
pub nil-not-has :
    (prv nxt : ℕ → ℕ) (prev cur : ℕ) (xs : List ℕ) (tail : ℕ)
    → Linked prv nxt prev cur xs tail
    → has nil_idx xs ≡ false
nil-not-has prv nxt prev cur [] tail h = refl
nil-not-has prv nxt prev cur (x ∷ xs) tail h =
    ground (arith, nil-not-has prv nxt x (nxt x) xs tail h.3)

-- The last slot, or the predecessor of an empty chain.
abbrev pub last_or : ℕ → List ℕ → ℕ
last_or p [] = p
last_or p (x ∷ xs) = last_or x xs

pub tail-eq-last_or :
    (prv nxt : ℕ → ℕ) (prev cur : ℕ) (xs : List ℕ) (tail : ℕ)
    → Linked prv nxt prev cur xs tail
    → tail ≡ last_or prev xs
tail-eq-last_or prv nxt prev cur [] tail h = h.1
tail-eq-last_or prv nxt prev cur (x ∷ xs) tail h = tail-eq-last_or prv nxt x (nxt x) xs tail h.3

pub has-last_or : (x : ℕ) (xs : List ℕ) → has (last_or x xs) (x ∷ xs) ≡ true
has-last_or x [] = rw (==_refl x)
has-last_or x (y ∷ ys) = ground (arith, has-last_or y ys)

-- Linking a slot behind the tail of a chain that is not empty.
pub Linked-snoc :
    (prv nxt prv' nxt' : ℕ → ℕ) (prev cur x : ℕ) (xs : List ℕ) (tail idx : ℕ)
    → Linked prv nxt prev cur (x ∷ xs) tail
    → Distinct (x ∷ xs)
    → ((j : ℕ) → has j (x ∷ xs) ≡ true → prv' j ≡ prv j)
    → ((j : ℕ) → has j (x ∷ xs) ≡ true → j ≢ tail → nxt' j ≡ nxt j)
    → idx ≢ nil_idx
    → nxt' tail ≡ idx
    → prv' idx ≡ tail
    → nxt' idx ≡ nil_idx
    → Linked prv' nxt' prev cur (x ∷ xs ++ idx ∷ []) idx
Linked-snoc prv nxt prv' nxt' prev cur x [] tail idx h d pv nx ne lk bk end =
    (h.0, h.1, pv x (rw (==_refl x)) ∙ h.2, (ap nxt' (sym h.3.1) ∙ lk, ne, bk ∙ h.3.1, (end, refl)))
Linked-snoc prv nxt prv' nxt' prev cur x (y ∷ ys) tail idx h d pv nx ne lk bk end =
    let inside = has-last_or y ys in
    let last = tail-eq-last_or prv nxt x (nxt x) (y ∷ ys) tail h.3 in
    (
      h.0,
      h.1,
      pv x (rw (==_refl x)) ∙ h.2,
      rw (nx x (rw (==_refl x)) (λ e. ground arith)) (
          Linked-snoc prv nxt prv' nxt' x (nxt x) y ys tail idx h.3 d.1 (λ j m. pv j (ground arith))
            (λ j m. nx j (ground arith)) ne lk bk end),
    )

-- What unlinking slot `i` from a chain writes: the forward link of its predecessor and the backward
-- link of its successor, where they are not null.
abbrev pub unlink_nxt : (ℕ → ℕ) → (ℕ → ℕ) → ℕ → ℕ → ℕ
unlink_nxt prv nxt i j = if j == prv i then (if prv i == nil_idx then nxt j else nxt i) else nxt j

abbrev pub unlink_prv : (ℕ → ℕ) → (ℕ → ℕ) → ℕ → ℕ → ℕ
unlink_prv prv nxt i j = if j == nxt i then (if nxt i == nil_idx then prv j else prv i) else prv j

module _ (prv nxt : ℕ → ℕ) (i : ℕ) where
  -- The part of a chain behind the unlinked slot: its head gets the predecessor of that slot.
  Linked-after :
      (ys : List ℕ) (tail : ℕ)
      → Linked prv nxt i (nxt i) ys tail
      → i ≢ nil_idx
      → has i ys ≡ false
      → has (prv i) ys ≡ false
      → Distinct ys
      → Linked
          (unlink_prv prv nxt i)
          (unlink_nxt prv nxt i)
          (prv i)
          (nxt i)
          ys
          (if tail == i then prv i else tail)
  Linked-after [] tail h ne out out' d = (h.0, ground arith)
  Linked-after (y ∷ ys) tail h ne out out' d =
      let inside = has-last_or y ys in
      let last = tail-eq-last_or prv nxt i (nxt i) (y ∷ ys) tail h in
      let apart : tail ≢ i = λ e. ground arith in
      rw (==_ne tail i apart) (
        h.0,
        h.1,
        ground arith,
        rw (==_ne y (prv i) (λ e. ground arith))
            (Linked-frame prv nxt _ _ y (nxt y) ys tail (λ j m. (ground arith, ground arith)) h.3),
      )

  -- The neighbours of a slot of a chain.
  pub prev-of-mid :
      (prev cur : ℕ) (xs ys : List ℕ) (tail : ℕ)
      → Linked prv nxt prev cur (xs ++ i ∷ ys) tail
      → prv i ≡ last_or prev xs
  prev-of-mid prev cur [] ys tail h = h.2
  prev-of-mid prev cur (x ∷ xs) ys tail h = prev-of-mid x (nxt x) xs ys tail h.3

  next-of-last :
      (ys : List ℕ) (tail : ℕ)
      → Linked prv nxt i (nxt i) ys tail
      → (nxt i ≡ nil_idx) ⊎ (has (nxt i) ys ≡ true)
  next-of-last [] tail h = inl h.0
  next-of-last (y ∷ ys) tail h = inr (rw (h.0, ==_refl y))

  pub next-of-mid :
      (prev cur : ℕ) (xs ys : List ℕ) (tail : ℕ)
      → Linked prv nxt prev cur (xs ++ i ∷ ys) tail
      → (nxt i ≡ nil_idx) ⊎ (has (nxt i) ys ≡ true)
  next-of-mid prev cur [] ys tail h = next-of-last ys tail h.3
  next-of-mid prev cur (x ∷ xs) ys tail h = next-of-mid x (nxt x) xs ys tail h.3

  -- The forward link of the slot before the rest of the chain.
  unlink-head :
      (x : ℕ) (xs ys : List ℕ) (tail : ℕ)
      → Linked prv nxt x (nxt x) (xs ++ i ∷ ys) tail
      → Distinct (xs ++ i ∷ ys)
      → has x (xs ++ i ∷ ys) ≡ false
      → x ≢ nil_idx
      → unlink_nxt prv nxt i x ≡ (if nxt x == i then nxt i else nxt x)
  unlink-head x [] ys tail h d out ne = ground arith
  unlink-head x (y ∷ ys) zs tail h d out ne = ground (
    arith,
    prev-of-mid x (nxt x) (y ∷ ys) zs tail h,
    has-last_or y ys,
    has-append x (y ∷ ys) (i ∷ zs),
    has-append y ys (i ∷ zs),
  )

  -- Unlinking slot `i` takes it out of the slots, and leaves the others linked in order.
  pub Linked-unlink :
      (prev cur : ℕ) (xs ys : List ℕ) (tail : ℕ)
      → Linked prv nxt prev cur (xs ++ i ∷ ys) tail
      → Distinct (xs ++ i ∷ ys)
      → has prev (xs ++ i ∷ ys) ≡ false
      → Linked
          (unlink_prv prv nxt i)
          (unlink_nxt prv nxt i)
          prev
          (if cur == i then nxt i else cur)
          (xs ++ ys)
          (if tail == i then prv i else tail)
  Linked-unlink prev cur [] ys tail h d out =
      let back : prv i ≡ prev = h.2 in
      rw (h.0, ==_refl i, ← back) (Linked-after ys tail h.3 h.1 d.0 (rw back (ground arith)) d.1)
  Linked-unlink prev cur (x ∷ xs) ys tail h d out =
      let mid = has-append x xs (i ∷ ys) in
      let apart : (x == i) ≡ false = ground arith in
      let behind = next-of-mid prev cur (x ∷ xs) ys tail h in
      (
        rw (h.0, apart),
        h.1,
        ground arith,
        rw (unlink-head x xs ys tail h.3 d.1 d.0 h.1)
            (Linked-unlink x (nxt x) xs ys tail h.3 d.1 d.0),
      )
