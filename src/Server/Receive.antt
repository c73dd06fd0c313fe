-- ===== src/Server/Receive.antt =====
-- What the receives of a connection make of the bytes that come in.
use mathlib.Core.Path.{subst}
use mathlib.Core.List.{append-nil, append_assoc}
use nebula_x.Base.{
  ℕ, ◌+◌, ◌-◌, ◌*◌, ◌/◌, ◌%◌, ◌<◌, ◌≡◌, refl, sym, ap, ◌∙◌, List, [], ◌∷◌, ◌++◌, arith, length,
  take_all, suc, false, length-append, All, ◌==◌,
}
use nebula_x.Server.{
  ConnContext, Session, append_read, compact, drain_loop, drain_buffered, receive,
}
use nebula_x.Server.Frames.{
  Legal, Framed, none_left, message, Framed-append, Framed-Suffix, Framed-bounded, split, run,
  run-append, drain_loop-Framed, drop-append,
}

-- Nothing consumed is left in the buffer between two receives.
pub record Level (conn : ConnContext) : Type 0 where
  pub consumed : conn.consumed ≡ 0
  pub pending : conn.pending ≡ length conn.accum_buf

-- The connection with other bytes in its buffer.
abbrev pub holding : List ℕ → ConnContext → ConnContext
holding ys conn = record conn { accum_buf = ys; pending = length ys; consumed = 0 }

compact-rest :
    (conn : ConnContext) (before ys : List ℕ) (c : ℕ)
    → c ≡ length before
    → compact (record (holding (before ++ ys) conn) { consumed = c }) ≡ holding ys conn
unfolding compact
compact-rest conn [] ys c e = rw e refl
compact-rest conn (b ∷ before) ys c e =
    let left : length (b ∷ (before ++ ys)) - suc (length before) ≡ length ys =
      omega (arith, length-append before ys) in
    let more : suc (length before) == 0 ≡ false = ground arith in
    rw (e, more, left, drop-append (length before) before ys refl, take_all ys) refl

pair : {A B : Type 0} {x : A} {y : B} (p : A × B) → p.0 ≡ x → p.1 ≡ y → p ≡ (x, y)
pair p e f = λ i. (e i, f i)

drained-Framed :
    {xs ys : List ℕ} {ms : List (List ℕ)} (conn : ConnContext) (s : Session)
    → Framed xs ms ys
    → drain_buffered (holding xs conn) s ≡ (holding ys conn, run ms s)
unfolding drain_buffered
drained-Framed {xs} {ys} {ms} conn s f =
    let avail : length xs - 0 ≡ length xs = omega arith in
    let k = Framed-Suffix f in
    let d = drain_loop-Framed (length xs) 0 s f (omega arith) in
    let size = length-append k.before ys in
    let end : (drain_loop (length xs) xs (length xs) 0 s).0 ≡ length k.before =
      omega (arith, d, size, ap length k.whole) in
    rw (avail, pair (drain_loop (length xs) xs (length xs) 0 s) end d.1)
      (pair (compact (record (holding xs conn) { consumed = length k.before }), run ms s)
        (ap (λ l. compact (record (holding l conn) { consumed = length k.before })) k.whole
          ∙ compact-rest conn k.before ys (length k.before) refl)
        refl)

receive-Framed :
    {ys : List ℕ} {ms : List (List ℕ)} (bytes : List ℕ) (conn : ConnContext) (s : Session)
    → Level conn
    → Framed (conn.accum_buf ++ bytes) ms ys
    → receive bytes conn s ≡ (holding ys conn, run ms s)
unfolding receive append_read
receive-Framed bytes conn s lev f =
    ap (λ c. drain_buffered (record (holding (conn.accum_buf ++ bytes) conn) { consumed = c }) s)
      lev.consumed
    ∙ drained-Framed conn s f

-- From a buffer with nothing consumed, two receives come to the same as one of all their bytes: the
-- same buffer, engine, symbols and answers.
pub receive-chunks :
    (xs ys : List ℕ) (conn : ConnContext) (s : Session)
    → Level conn
    → receive ys (receive xs conn s).0 (receive xs conn s).1 ≡ receive (xs ++ ys) conn s
receive-chunks xs ys conn s lev =
    let a = split (conn.accum_buf ++ xs) in
    let b = split (a.rest ++ ys) in
    let both = Framed-append ys a.framed b.framed in
    rw (receive-Framed xs conn s lev a.framed) (
      receive-Framed ys (holding a.rest conn) (run a.messages s)
        (record { consumed = refl; pending = refl }) b.framed
      ∙ ap (λ t. (holding b.rest conn, t)) (sym (run-append a.messages b.messages s))
      ∙ sym (
          receive-Framed (xs ++ ys) conn s lev (
            subst (λ l. Framed l (a.messages ++ b.messages) b.rest)
              (append_assoc conn.accum_buf xs ys) both)))

-- After any receive into a buffer with nothing consumed, the buffer holds fewer than 4098 bytes, the
-- whole of it is pending and nothing of it is consumed.
pub receive-bounded :
    (bytes : List ℕ) (conn : ConnContext) (s : Session)
    → Level conn
    → Level (receive bytes conn s).0 × (length (receive bytes conn s).0.accum_buf < 4098)
receive-bounded bytes conn s lev =
    let a = split (conn.accum_buf ++ bytes) in
    rw (receive-Framed bytes conn s lev a.framed)
      (record { consumed = refl; pending = refl }, Framed-bounded a.framed)

-- Receives one after another.
abbrev pub receives : List (List ℕ) → ConnContext → Session → ConnContext × Session
receives [] conn s = (conn, s)
receives (p ∷ ps) conn s = receives ps (receive p conn s).0 (receive p conn s).1

abbrev pub concat : List (List ℕ) → List ℕ
concat [] = []
concat (p ∷ ps) = p ++ concat ps

-- A message as it is sent, behind the two bytes of its length.
abbrev pub prefixed : List ℕ → List ℕ
prefixed m = (length m / 256) ∷ (length m % 256) ∷ m

abbrev pub stream : List (List ℕ) → List ℕ
stream [] = []
stream (m ∷ ms) = prefixed m ++ stream ms

receives-concat :
    (p : List ℕ) (ps : List (List ℕ)) (conn : ConnContext) (s : Session)
    → Level conn
    → receives (p ∷ ps) conn s ≡ receive (p ++ concat ps) conn s
receives-concat p [] conn s lev = ap (λ l. receive l conn s) (sym (append-nil p))
receives-concat p (q ∷ ps) conn s lev =
    receives-concat q ps (receive p conn s).0 (receive p conn s).1 (receive-bounded p conn s lev).0
    ∙ receive-chunks p (q ++ concat ps) conn s lev

stream-Framed : (ms : List (List ℕ)) → All (λ m. Legal (length m)) ms → Framed (stream ms) ms []
stream-Framed [] ok = none_left
stream-Framed (m ∷ ms) ok =
    let value : length m / 256 * 256 + length m % 256 ≡ length m = omega arith in
    message (length m / 256) (length m % 256) m (stream ms) (omega arith)
      (subst Legal (sym value) ok.0) (stream-Framed ms ok.1)

-- Messages of 1 to 4096 bytes that a client sends behind their lengths are handled one after
-- another, each once and whole, however the bytes are cut into receives, and nothing is left over.
pub receives-stream :
    (ms pieces : List (List ℕ)) (conn : ConnContext) (s : Session)
    → conn ≡ holding [] conn
    → All (λ m. Legal (length m)) ms
    → concat pieces ≡ stream ms
    → receives pieces conn s ≡ (conn, run ms s)
receives-stream [] [] conn s empty ok cut = refl
receives-stream (m ∷ ms) [] conn s empty ok cut = absurd cc
receives-stream ms (p ∷ ps) conn s empty ok cut =
    let lev : Level conn = record {
      consumed = ap (λ (c : ConnContext). c.consumed) empty;
      pending =
          ap (λ (c : ConnContext). c.pending) empty
          ∙ sym (ap (λ (c : ConnContext). length c.accum_buf) empty);
    } in
    receives-concat p ps conn s lev
    ∙ receive-Framed (p ++ concat ps) conn s lev (
        subst (λ l. Framed l ms [])
          (sym cut ∙ sym (ap (λ (c : ConnContext). c.accum_buf ++ (p ++ concat ps)) empty))
          (stream-Framed ms ok))
    ∙ ap (λ c. (c, run ms s)) (sym empty)
