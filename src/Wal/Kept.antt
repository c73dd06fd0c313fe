-- ===== src/Wal/Kept.antt =====
-- What the log holds after a run of appends.
use nebula_x.Base.{
  ℕ, suc, zero, ◌+◌, ◌%◌, ◌^◌, ◌<◌, ◌≤◌, ◌≡◌, refl, ap, ◌∙◌, true, List, [], ◌∷◌, arith, length,
  get_or, ◌==◌, ==_ne, if◌then◌else◌,
}
use nebula_x.Wal.{WalWriter, WalEntry, wal_entries, append, cur_position}

-- The appends of a list of entries.
abbrev pub append_all : WalWriter → List WalEntry → WalWriter
append_all w [] = w
append_all w (e ∷ es) = append_all (append w e) es

append-total :
    (w : WalWriter) (e : WalEntry) → w.total + 1 < 2 ^ 64 → (append w e).total ≡ w.total + 1
unfolding append
append-total w e h = omega (arith, h)

append-at :
    (w : WalWriter) (e : WalEntry) (j : ℕ)
    → (append w e).base j ≡ (if j == w.total % wal_entries then e else w.base j)
unfolding append
append-at w e j = refl

append_all-total :
    (w : WalWriter) (es : List WalEntry)
    → w.total + length es < 2 ^ 64
    → (append_all w es).total ≡ w.total + length es
append_all-total w [] h = omega arith
append_all-total w (e ∷ es) h =
    let one = append-total w e (omega (arith, h)) in
    append_all-total (append w e) es (omega (arith, h, one)) ∙ omega (arith, one)

-- An entry stays until the log has come round to it.
append_all-before :
    (w : WalWriter) (es : List WalEntry) (k : ℕ)
    → w.total + length es < 2 ^ 64
    → k < w.total
    → w.total + length es ≤ k + wal_entries
    → (append_all w es).base (k % wal_entries) ≡ w.base (k % wal_entries)
append_all-before w [] k h lt le = refl
append_all-before w (e ∷ es) k h lt le =
    let one = append-total w e (omega (arith, h)) in
    append_all-before (append w e) es k (omega (arith, h, one)) (omega (arith, lt, one))
      (omega (arith, le, one))
    ∙ rw
        (
          append-at w e (k % wal_entries),
          ==_ne (k % wal_entries) (w.total % wal_entries) (λ q. omega (arith, q, lt, le)),
        )
        refl

same_place : (w : WalWriter) → ((w.total + 0) % wal_entries == w.total % wal_entries) ≡ true
same_place w = ground arith

-- After appending no more entries than the log has room for, the log has each of them in its place,
-- counted on from where it stood, and its position is right behind them.
pub append_all-kept :
    (w : WalWriter) (es : List WalEntry) (j : ℕ) (d : WalEntry)
    → w.total + length es < 2 ^ 64
    → length es ≤ wal_entries
    → j < length es
    → ((append_all w es).base ((w.total + j) % wal_entries) ≡ get_or es j d)
      × (cur_position (append_all w es) ≡ (w.total + length es) % wal_entries)
unfolding cur_position
append_all-kept w es j d h le lt = (kept w es j h le lt, position)
  where
    position : cur_position (append_all w es) ≡ (w.total + length es) % wal_entries
    position = ap (λ t. t % wal_entries) (append_all-total w es h)

    kept :
        (u : WalWriter) (xs : List WalEntry) (i : ℕ)
        → u.total + length xs < 2 ^ 64
        → length xs ≤ wal_entries
        → i < length xs
        → (append_all u xs).base ((u.total + i) % wal_entries) ≡ get_or xs i d
    kept u [] i hw fits below = absurd (omega (arith, below))
    kept u (x ∷ xs) zero hw fits below =
        let one = append-total u x (omega (arith, hw)) in
        append_all-before (append u x) xs (u.total + 0) (omega (arith, hw, one))
          (omega (arith, one)) (omega (arith, one, fits))
        ∙ rw (append-at u x ((u.total + 0) % wal_entries), same_place u) refl
    kept u (x ∷ xs) (suc i) hw fits below =
        let one = append-total u x (omega (arith, hw)) in
        ap (λ t. (append_all (append u x) xs).base (t % wal_entries)) (omega (arith, one))
        ∙ kept (append u x) xs i (omega (arith, hw, one)) (omega (arith, fits))
            (omega (arith, below))
