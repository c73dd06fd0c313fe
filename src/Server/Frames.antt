-- ===== src/Server/Frames.antt =====
-- The framing of the receive buffer, as a relation between bytes and messages.
use mathlib.Core.Path.{subst}
use mathlib.Core.List.{append_assoc}
use nebula_x.Base.{
  ℕ, zero, suc, ◌+◌, ◌-◌, ◌*◌, ◌<◌, ◌≤◌, ◌≡◌, ◌⊎◌, refl, sym, ap, ◌∙◌, inl, inr, List, [], ◌∷◌,
  ◌++◌, arith, length, take, drop, length-append, Bool-cases, ltb,
}
use nebula_x.Ring.Bytes.{take-drop, length-take}
use nebula_x.Server.{wait, skip, frame, front, Session, drain_loop, process_itch_message}

-- A body of this length makes a message.
pub record Legal (n : ℕ) : Type 0 where
  pub nonempty : 1 ≤ n
  pub bounded : n ≤ 4096

-- The bytes `xs` hold the messages `ms` and end in the part `ys` of one: a message stands behind
-- two bytes with its length, and a byte that begins no legal length is passed over.
pub data Framed : List ℕ → List (List ℕ) → List ℕ → Type 0 where
  none_left : Framed [] [] []
  one_left : (x : ℕ) → Framed (x ∷ []) [] (x ∷ [])
  part_left :
      (h l : ℕ) (xs : List ℕ)
      → Legal (h * 256 + l)
      → length xs < h * 256 + l
      → Framed (h ∷ l ∷ xs) [] (h ∷ l ∷ xs)
  passed :
      {ms : List (List ℕ)} {ys : List ℕ} (h l : ℕ) (xs : List ℕ)
      → (h * 256 + l < 1) ⊎ (4096 < h * 256 + l)
      → Framed (l ∷ xs) ms ys
      → Framed (h ∷ l ∷ xs) ms ys
  message :
      {ms : List (List ℕ)} {ys : List ℕ} (h l : ℕ) (body xs : List ℕ)
      → length body ≡ h * 256 + l
      → Legal (h * 256 + l)
      → Framed xs ms ys
      → Framed (h ∷ l ∷ (body ++ xs)) (body ∷ ms) ys

-- More bytes go on where the first ended.
pub Framed-append :
    {xs ys ws : List ℕ} {ms ns : List (List ℕ)} (zs : List ℕ)
    → Framed xs ms ys
    → Framed (ys ++ zs) ns ws
    → Framed (xs ++ zs) (ms ++ ns) ws
Framed-append zs none_left k = k
Framed-append zs (one_left x) k = k
Framed-append zs (part_left h l xs legal short) k = k
Framed-append zs (passed h l xs bad f) k = passed h l (xs ++ zs) bad (Framed-append zs f k)
Framed-append zs (message h l body xs len legal f) k =
    rw (append_assoc body xs zs) (message h l body (xs ++ zs) len legal (Framed-append zs f k))

pub length-drop : (n : ℕ) (xs : List ℕ) → length (drop n xs) ≡ length xs - n
length-drop zero xs = omega arith
length-drop (suc n) [] = omega arith
length-drop (suc n) (x ∷ xs) = omega (arith, length-drop n xs)

-- Some bytes' messages and rest.
pub record Split (xs : List ℕ) : Type 0 where
  pub messages : List (List ℕ)
  pub rest : List ℕ
  pub framed : Framed xs messages rest

-- All bytes can be split.
within-Split : (n : ℕ) (xs : List ℕ) → length xs ≤ n → Split xs
within-Split n [] le = record { messages = []; rest = []; framed = none_left }
within-Split n (x ∷ []) le = record { messages = []; rest = x ∷ []; framed = one_left x }
within-Split zero (h ∷ l ∷ xs) le = absurd (omega (arith, le))
within-Split (suc n) (h ∷ l ∷ xs) le = elim (legal_or_not (h * 256 + l)) [
  | inl bad ↦
      let k = within-Split n (l ∷ xs) (omega (arith, le)) in
      record { messages = k.messages; rest = k.rest; framed = passed h l xs bad k.framed }
  | inr legal ↦ elim (short_or_not (length xs) (h * 256 + l)) [
    | inl short ↦ record { messages = []; rest = h ∷ l ∷ xs; framed = part_left h l xs legal short }
    | inr long ↦
        let body = take (h * 256 + l) xs in
        let more = drop (h * 256 + l) xs in
        let size : length body ≡ h * 256 + l = length-take (h * 256 + l) xs ∙ omega (arith, long) in
        let k = within-Split n more (omega (arith, length-drop (h * 256 + l) xs, le)) in
        record {
          messages = body ∷ k.messages;
          rest = k.rest;
          framed =
              subst (λ l'. Framed (h ∷ l ∷ l') (body ∷ k.messages) k.rest)
                (take-drop (h * 256 + l) xs) (message h l body more size legal k.framed);
        }
  ]
]
  where
    legal_or_not : (n : ℕ) → ((n < 1) ⊎ (4096 < n)) ⊎ Legal n
    legal_or_not n = elim (Bool-cases (ltb n 1)) [
      | inl e ↦ inl (inl (ground (arith, e)))
      | inr e ↦ elim (Bool-cases (ltb 4096 n)) [
        | inl z ↦ inl (inr (ground (arith, z)))
        | inr z ↦ inr (record { nonempty = ground (arith, e); bounded = ground (arith, z) })
      ]
    ]

    short_or_not : (a b : ℕ) → (a < b) ⊎ (b ≤ a)
    short_or_not a b = elim (Bool-cases (ltb a b)) [
      | inl e ↦ inl (ground (arith, e))
      | inr e ↦ inr (ground (arith, e))
    ]

pub split : (xs : List ℕ) → Split xs
split xs = within-Split (length xs) xs (omega arith)

-- The messages one after another.
abbrev pub run : List (List ℕ) → Session → Session
run [] s = s
run (m ∷ ms) s = run ms (process_itch_message m s)

pub run-append : (ms ns : List (List ℕ)) (s : Session) → run (ms ++ ns) s ≡ run ns (run ms s)
run-append [] ns s = refl
run-append (m ∷ ms) ns s = run-append ms ns (process_itch_message m s)

-- The rest is the end of the bytes.
pub record Suffix (xs ys : List ℕ) : Type 0 where
  pub before : List ℕ
  pub whole : xs ≡ before ++ ys

pub Framed-Suffix : {xs ys : List ℕ} {ms : List (List ℕ)} → Framed xs ms ys → Suffix xs ys
Framed-Suffix none_left = record { before = []; whole = refl }
Framed-Suffix (one_left x) = record { before = []; whole = refl }
Framed-Suffix (part_left h l xs legal short) = record { before = []; whole = refl }
Framed-Suffix (passed h l xs bad f) =
    let k = Framed-Suffix f in record { before = h ∷ k.before; whole = ap (λ t. h ∷ t) k.whole }
Framed-Suffix {ys} (message h l body xs len legal f) =
    let k = Framed-Suffix f in
    record {
      before = h ∷ l ∷ (body ++ k.before);
      whole =
          ap (λ t. h ∷ l ∷ (body ++ t)) k.whole
          ∙ sym (ap (λ t. h ∷ l ∷ t) (append_assoc body k.before ys));
    }

-- The rest is less than a message of the greatest length.
pub Framed-bounded : {xs ys : List ℕ} {ms : List (List ℕ)} → Framed xs ms ys → length ys < 4098
Framed-bounded none_left = omega arith
Framed-bounded (one_left x) = omega arith
Framed-bounded (part_left h l xs legal short) = omega (arith, short, legal.bounded)
Framed-bounded (passed h l xs bad f) = Framed-bounded f
Framed-bounded (message h l body xs len legal f) = Framed-bounded f

module _ (h l : ℕ) (xs : List ℕ) (avail : ℕ) where
  front_bad : 2 ≤ avail → (h * 256 + l < 1) ⊎ (4096 < h * 256 + l) → front (h ∷ l ∷ xs) avail ≡ skip
  unfolding front
  front_bad le bad = ground arith

  front_part : Legal (h * 256 + l) → avail < 2 + (h * 256 + l) → front (h ∷ l ∷ xs) avail ≡ wait
  unfolding front
  front_part legal short = ground (arith, legal.nonempty, legal.bounded)

  front_whole :
      Legal (h * 256 + l)
      → 2 + (h * 256 + l) ≤ avail
      → front (h ∷ l ∷ xs) avail ≡ frame (h * 256 + l)
  unfolding front
  front_whole legal long = ground (arith, legal.nonempty, legal.bounded)

pub take-append : (n : ℕ) (xs ys : List ℕ) → length xs ≡ n → take n (xs ++ ys) ≡ xs
take-append n [] ys e = rw (sym e) refl
take-append zero (x ∷ xs) ys e = absurd (omega (arith, e))
take-append (suc n) (x ∷ xs) ys e = ap (λ t. x ∷ t) (take-append n xs ys (omega (arith, e)))

pub drop-append : (n : ℕ) (xs ys : List ℕ) → length xs ≡ n → drop n (xs ++ ys) ≡ ys
drop-append n [] ys e = rw (sym e) refl
drop-append zero (x ∷ xs) ys e = absurd (omega (arith, e))
drop-append (suc n) (x ∷ xs) ys e = drop-append n xs ys (omega (arith, e))

drop_frame :
    (h l : ℕ) (body xs : List ℕ)
    → length body ≡ h * 256 + l
    → drop (2 + (h * 256 + l)) (h ∷ l ∷ (body ++ xs)) ≡ xs
drop_frame h l body xs e =
    let two : 2 + (h * 256 + l) ≡ suc (suc (h * 256 + l)) = omega arith in
    rw two (drop-append (h * 256 + l) body xs e)

-- What the loop ends with: the count of the bytes used up, and the session after the messages.
abbrev Drained : ℕ × Session → ℕ → List ℕ → List ℕ → List (List ℕ) → Session → Type 0
Drained (end, t) consumed xs ys ms s = (end + length ys ≡ consumed + length xs) × (t ≡ run ms s)

-- With a round for each byte, the loop handles the messages in their order and stops at the rest.
pub drain_loop-Framed :
    {xs ys : List ℕ} {ms : List (List ℕ)} (f consumed : ℕ) (s : Session)
    → Framed xs ms ys
    → length xs ≤ f
    → Drained (drain_loop f xs (length xs) consumed s) consumed xs ys ms s
unfolding drain_loop
drain_loop-Framed zero consumed s none_left le = (refl, refl)
drain_loop-Framed (suc f) consumed s none_left le = (refl, refl)
drain_loop-Framed (suc f) consumed s (one_left x) le = (refl, refl)
drain_loop-Framed (suc f) consumed s (part_left h l xs legal short) le =
    rw (drain_loop, front_part h l xs (length (h ∷ l ∷ xs)) legal (omega (arith, short)))
      (refl, refl)
drain_loop-Framed (suc f) consumed s (passed h l xs bad k) le =
    let less : length (h ∷ l ∷ xs) - 1 ≡ length (l ∷ xs) = omega arith in
    let rest = drain_loop-Framed f (consumed + 1) s k (omega (arith, le)) in
    rw (drain_loop, front_bad h l xs (length (h ∷ l ∷ xs)) (omega arith) bad, less)
      (omega (arith, rest), rest.1)
drain_loop-Framed (suc f) consumed s (message h l body xs len legal k) le =
    let size = length-append body xs in
    let n = h * 256 + l in
    let less : length (h ∷ l ∷ (body ++ xs)) - (2 + n) ≡ length xs = omega (arith, size, len) in
    let rest =
      drain_loop-Framed f (consumed + (2 + n)) (process_itch_message body s) k
        (omega (arith, size, le)) in
    rw
      (
        drain_loop,
        front_whole h l (body ++ xs) (length (h ∷ l ∷ (body ++ xs))) legal
            (omega (arith, size, len)),
        less,
        drop_frame h l body xs len,
        take-append (h * 256 + l) body xs len,
      )
      (omega (arith, rest, size, len), rest.1)
drain_loop-Framed zero consumed s (one_left x) le = absurd (omega (arith, le))
drain_loop-Framed zero consumed s (part_left h l xs legal short) le = absurd (omega (arith, le))
drain_loop-Framed zero consumed s (passed h l xs bad k) le = absurd (omega (arith, le))
drain_loop-Framed zero consumed s (message h l body xs len legal k) le = absurd (omega (arith, le))
