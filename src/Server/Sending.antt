-- ===== src/Server/Sending.antt =====
-- The direct sending of src/tcp_server.cpp ends.
use mathlib.Core.List.{append_assoc}
use nebula_x.Base.{
  ℕ, zero, suc, ◌+◌, ◌*◌, ◌≤◌, ◌<◌, ◌≡◌, ◌⊎◌, refl, sym, ap, ◌∙◌, inl, inr, true, false, List, [],
  ◌∷◌, ◌++◌, arith, length, take, drop, leb, ◌==◌, Bool-cases, ne_of_==,
}
use nebula_x.Ring.Bytes.{take-drop}
use nebula_x.Server.Frames.{Suffix, length-drop}
use nebula_x.Server.Conns.{
  World, SendAnswer, took, busy, refused, Sending, all_sent, given_up, send_direct,
}

-- All is sent, or what is given up is the end of the bytes and not empty.
pub record GivenUp (data_bytes : List ℕ) (s : Sending) : Type 0 where
  pub rest : List ℕ
  pub is_given_up : s ≡ given_up rest
  pub suffix : Suffix data_bytes rest
  pub some_left : 1 ≤ length rest

abbrev pub Finished : List ℕ → Sending → Type 0
Finished data_bytes s = (s ≡ all_sent) ⊎ GivenUp data_bytes s

longer : (n : ℕ) (xs : List ℕ) (s : Sending) → Finished (drop n xs) s → Finished xs s
longer n xs s (inl e) = inl e
longer n xs s (inr g) = inr (record {
  rest = g.rest;
  is_given_up = g.is_given_up;
  suffix = (record {
    before = take n xs ++ g.suffix.before;
    whole =
        sym (take-drop n xs)
        ∙ ap (λ l. take n xs ++ l) g.suffix.whole
        ∙ sym (append_assoc (take n xs) g.suffix.before g.rest);
  });
  some_left = g.some_left;
})

stopped : (x : ℕ) (xs : List ℕ) → Finished (x ∷ xs) (given_up (x ∷ xs))
stopped x xs = inr (record {
  rest = x ∷ xs;
  is_given_up = refl;
  suffix = (record { before = []; whole = refl });
  some_left = omega arith;
})

send_direct-within :
    (f : ℕ) (w : World) (t : ℕ) (xs : List ℕ) (spins : ℕ)
    → spins < 500
    → 500 * length xs ≤ f + spins
    → Finished xs (send_direct f w t xs spins)
unfolding send_direct
send_direct-within f w t [] spins lt le = inl refl
send_direct-within zero w t (x ∷ xs) spins lt le = absurd (omega (arith, lt, le))
send_direct-within (suc f) w t (x ∷ xs) spins lt le =
    by_answer (w.send_answer t) (λ ys k. send_direct-within f w (t + 1) ys k)
  where
    by_answer :
        (a : SendAnswer)
        → ((ys : List ℕ) (k : ℕ)
            → k < 500
            → 500 * length ys ≤ f + k
            → Finished ys (send_direct f w (t + 1) ys k))
        → Finished (x ∷ xs) (elim a [
          | took n ↦ elim (n == 0) [
            | true ↦ given_up (x ∷ xs)
            | false ↦ send_direct f w (t + 1) (drop n (x ∷ xs)) 0
          ]
          | busy ↦ elim (leb 500 (spins + 1)) [
            | true ↦ given_up (x ∷ xs)
            | false ↦ send_direct f w (t + 1) (x ∷ xs) (spins + 1)
          ]
          | refused ↦ given_up (x ∷ xs)
        ])
    by_answer (took n) shorter = elim (Bool-cases (n == 0)) [
      | inl z ↦ rw z (stopped x xs)
      | inr z ↦ rw z (
          longer n (x ∷ xs) (send_direct f w (t + 1) (drop n (x ∷ xs)) 0) (
            shorter (drop n (x ∷ xs)) 0 (omega arith)
              (grind (arith, length-drop n (x ∷ xs), ne_of_== n 0 z, le, lt))))
    ]
    by_answer busy shorter = elim (Bool-cases (leb 500 (spins + 1))) [
      | inl z ↦ rw z (stopped x xs)
      | inr z ↦ rw z (shorter (x ∷ xs) (spins + 1) (ground (arith, z)) (omega (arith, le)))
    ]
    by_answer refused shorter = stopped x xs

-- Whatever `send` returns, the loop of the direct sending ends within 500 calls for each byte: all
-- is sent, or an end of the bytes that is not empty is given up.
pub send_direct-Finished :
    (w : World) (t : ℕ) (xs : List ℕ) → Finished xs (send_direct (500 * length xs) w t xs 0)
send_direct-Finished w t xs =
    send_direct-within (500 * length xs) w t xs 0 (omega arith) (omega arith)
