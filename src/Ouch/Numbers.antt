-- ===== src/Ouch/Numbers.antt =====
-- Decimal numbers printed and read back.
use nebula_x.Base.{
  ℕ, zero, suc, ◌+◌, ◌-◌, ◌*◌, ◌/◌, ◌%◌, ◌^◌, ◌≡◌, ◌<◌, ◌≤◌, refl, ap, ◌∙◌, inl, inr, true, List,
  [], ◌∷◌, ◌++◌, arith, length, length-append, ltb, All, All-append, Bool-cases,
}
use nebula_x.Ouch.{decimal, padded, copies, is_digit, digits_value, after_sign, strtoull}

abbrev pub Digits : List ℕ → Type 0
Digits = All (λ c. (48 ≤ c) × (c ≤ 57))

digits_value-append :
    (v : ℕ) (xs ys : List ℕ)
    → Digits xs
    → digits_value v (xs ++ ys) ≡ digits_value (digits_value v xs) ys
unfolding digits_value
digits_value-append v [] ys d = refl
digits_value-append v (c ∷ cs) ys d =
    let digit : is_digit c ≡ true = ground (arith, d.0) in
    rw digit (digits_value-append (v * 10 + (c - 48)) cs ys d.1)

decimal-Digits : (f n : ℕ) → Digits (decimal f n)
unfolding decimal
decimal-Digits zero n = tt
decimal-Digits (suc f) n = elim (Bool-cases (ltb n 10)) [
  | inl e ↦ rw e ((omega arith, omega arith), tt)
  | inr e ↦ rw e (
      All-append _ (decimal f (n / 10)) _ (decimal-Digits f (n / 10))
        ((omega arith, omega arith), tt))
]

abbrev pub pow10 : ℕ → ℕ
pow10 zero = 1
pow10 (suc f) = 10 * pow10 f

last_digit : (v d : ℕ) → d < 10 → digits_value v ((48 + d) ∷ []) ≡ v * 10 + d
unfolding digits_value
last_digit v d lt = ground arith

-- A number below 10^f is read back from its digits.
digits_value-decimal : (f n : ℕ) → n < pow10 f → digits_value 0 (decimal f n) ≡ n
unfolding decimal digits_value
digits_value-decimal zero n lt = omega (arith, lt)
digits_value-decimal (suc f) n lt = elim (Bool-cases (ltb n 10)) [
  | inl e ↦ rw (decimal, e) (last_digit 0 (n % 10) (omega arith) ∙ ground (arith, e))
  | inr e ↦
      rw (decimal, e)
        (digits_value-append 0 (decimal f (n / 10)) ((48 + n % 10) ∷ []) (decimal-Digits f (n / 10))
          ∙ ap (λ v. digits_value v ((48 + n % 10) ∷ []))
              (digits_value-decimal f (n / 10) (omega (arith, lt)))
          ∙ last_digit (n / 10) (n % 10) (omega arith)
          ∙ omega arith)
]

pub length-decimal : (f k n : ℕ) → n < pow10 (suc k) → length (decimal f n) ≤ suc k
unfolding decimal
length-decimal zero k n lt = omega arith
length-decimal (suc f) zero n lt =
    let small : ltb n 10 ≡ true = ground (arith, lt) in rw (decimal, small) (omega arith)
length-decimal (suc f) (suc k) n lt = elim (Bool-cases (ltb n 10)) [
  | inl e ↦ rw (decimal, e) (omega arith)
  | inr e ↦
      rw (decimal, e)
        (omega (
          arith,
          length-append (decimal f (n / 10)) ((48 + n % 10) ∷ []),
          length-decimal f k (n / 10) (omega (arith, lt)),
        ))
]

copies-Digits : (n : ℕ) → Digits (copies n 48)
copies-Digits zero = tt
copies-Digits (suc n) = ((omega arith, omega arith), copies-Digits n)

pub length-copies : (n v : ℕ) → length (copies n v) ≡ n
length-copies zero v = refl
length-copies (suc n) v = omega (arith, length-copies n v)

zeros : (n : ℕ) → digits_value 0 (copies n 48) ≡ 0
unfolding digits_value
zeros zero = refl
zeros (suc n) = zeros n

strtoull-Digits : (xs : List ℕ) → Digits xs → strtoull xs ≡ digits_value 0 xs
unfolding strtoull after_sign digits_value
strtoull-Digits [] d = refl
strtoull-Digits (c ∷ cs) d = ground (arith, d.0)

padded-Digits : (n : ℕ) → Digits (padded n)
unfolding padded
padded-Digits n =
    All-append _ (copies (14 - length (decimal 20 n)) 48) (decimal 20 n)
      (copies-Digits (14 - length (decimal 20 n))) (decimal-Digits 20 n)

-- The token of an order id below 10^14 has 14 characters.
pub length-padded : (n : ℕ) → n < 10 ^ 14 → length (padded n) ≡ 14
unfolding padded
length-padded n lt = omega (
  arith,
  length-append (copies (14 - length (decimal 20 n)) 48) (decimal 20 n),
  length-copies (14 - length (decimal 20 n)) 48,
  length-decimal 20 13 n (omega (arith, lt)),
)

-- The order id is read back from its token.
pub strtoull-padded : (n : ℕ) → n < 10 ^ 20 → strtoull (padded n) ≡ n
unfolding padded
strtoull-padded n lt =
    strtoull-Digits (padded n) (padded-Digits n)
    ∙ digits_value-append 0 (copies (14 - length (decimal 20 n)) 48) (decimal 20 n)
        (copies-Digits (14 - length (decimal 20 n)))
    ∙ ap (λ v. digits_value v (decimal 20 n)) (zeros (14 - length (decimal 20 n)))
    ∙ digits_value-decimal 20 n (omega (arith, lt))

blanks_after : (v k : ℕ) → digits_value v (copies k 32) ≡ v
unfolding digits_value
blanks_after v zero = refl
blanks_after v (suc k) = refl

strtoull-blanks : (k : ℕ) → strtoull (copies k 32) ≡ 0
unfolding strtoull
strtoull-blanks zero = refl
strtoull-blanks (suc k) = strtoull-blanks k

-- What a field of digits with blanks behind them is read as.
strtoull-field :
    (xs : List ℕ) (k : ℕ) → Digits xs → strtoull (xs ++ copies k 32) ≡ digits_value 0 xs
unfolding strtoull after_sign digits_value
strtoull-field [] k d = strtoull-blanks k
strtoull-field (c ∷ cs) k d = ground (
  arith,
  d.0,
  digits_value-append (0 * 10 + (c - 48)) cs (copies k 32) d.1,
  blanks_after (digits_value (0 * 10 + (c - 48)) cs) k,
)

-- A number is read back from its digits with blanks behind them.
pub strtoull-decimal : (n k : ℕ) → n < 10 ^ 20 → strtoull (decimal 20 n ++ copies k 32) ≡ n
strtoull-decimal n k lt =
    strtoull-field (decimal 20 n) k (decimal-Digits 20 n)
    ∙ digits_value-decimal 20 n (omega (arith, lt))
