-- ===== src/Sender/Closes.antt =====
-- The send thread of src/main.cpp at a ring of RSP_CLOSE frames.
use mathlib.Core.List.{append-nil, append_assoc}
use nebula_x.Base.{
  ℕ, ◌+◌, ◌≡◌, refl, ap, ◌∙◌, false, some, Option, List, [], ◌∷◌, ◌++◌, arith, length,
  length-append, ◌==◌, ==_ne,
}
use nebula_x.Ring.{SpscByteRing, used, pop}
use nebula_x.Ring.Bytes.{contents}
use nebula_x.Ring.Pop.{Fits, pop-contents}
use nebula_x.Server.Conns.{World, RingFrame, rsp_close, close_fd, response_size}
use nebula_x.Server.Shutdown.{addresses, close_frames, close_fds}
use nebula_x.Sender.{Sender, ZcAnswer, send_round, send_rounds}
use nebula_x.Sender.Delivered.{pop-Fits, same_front, length-contents}

-- The frame at the front of the ring is taken out, the descriptor closed, and the flag owed.
send_round-close :
    (f : ℕ) (w : World) (zc : ℕ → ZcAnswer) (frame_of : List ℕ → Option RingFrame) (s : Sender)
    (fd a : ℕ) (rest : List ℕ)
    → Fits s.ring
    → length (w.image (rsp_close fd a)) ≡ response_size
    → frame_of (w.image (rsp_close fd a)) ≡ some (rsp_close fd a)
    → contents s.ring ≡ w.image (rsp_close fd a) ++ rest
    → ((used s.ring == 0) ≡ false)
      × (send_round f w zc frame_of s
          ≡ some (record s {
            ring = (pop s.ring 48).1;
            effects = s.effects ++ (close_fd fd ∷ []);
            acked = s.acked ++ (a ∷ []);
          }))
      × (contents (pop s.ring 48).1 ≡ rest)
      × Fits (pop s.ring 48).1
unfolding send_round
send_round-close f w zc frame_of s fd a rest fits size reads held =
    let image = w.image (rsp_close fd a) in
    let popped = pop-contents s.ring 48 fits in
    let total : used s.ring ≡ 48 + length rest =
      omega (arith, size, length-contents s.ring, ap length held, length-append image rest) in
    let parts =
      same_front (pop s.ring 48).0 image (contents (pop s.ring 48).1) rest
        (omega (arith, popped.1, total, size)) (popped.0 ∙ held) in
    (
      ==_ne (used s.ring) 0 (λ e. omega (arith, e, total)),
      rw (send_round, parts.0, size, reads) refl,
      parts.1,
      pop-Fits s.ring 48 fits,
    )

pub record AllClosed (m : List (ℕ × ℕ)) (s : Sender) (result : Option Sender) : Type 0 where
  pub after : SpscByteRing
  pub is_some :
      result
      ≡ some (record s {
        ring = after;
        effects = s.effects ++ close_fds m;
        acked = s.acked ++ addresses m;
      })
  pub empty : contents after ≡ []
  pub fits : Fits after

-- A ring that holds RSP_CLOSE frames: as many rounds take them all out, in their order.
pub send_rounds-AllClosed :
    (f : ℕ) (w : World) (zc : ℕ → ZcAnswer) (frame_of : List ℕ → Option RingFrame)
    (m : List (ℕ × ℕ)) (s : Sender)
    → ((x : RingFrame) → length (w.image x) ≡ response_size)
    → ((fd a : ℕ) → frame_of (w.image (rsp_close fd a)) ≡ some (rsp_close fd a))
    → Fits s.ring
    → contents s.ring ≡ close_frames w m
    → AllClosed m s (send_rounds (length m) f w zc frame_of s)
unfolding send_rounds
send_rounds-AllClosed f w zc frame_of [] s size reads fits held =
    let nothing : used s.ring ≡ 0 = omega (arith, length-contents s.ring, ap length held) in
    rw (send_rounds, nothing)
      (record {
        after = s.ring;
        is_some = rw (append-nil s.effects, append-nil s.acked) refl;
        empty = held;
        fits = fits;
      })
send_rounds-AllClosed f w zc frame_of ((fd, a) ∷ m) s size reads fits held =
    let one =
      send_round-close f w zc frame_of s fd a (close_frames w m) fits (size (rsp_close fd a))
        (reads fd a) held in
    let next : Sender = record s {
      ring = (pop s.ring 48).1;
      effects = s.effects ++ (close_fd fd ∷ []);
      acked = s.acked ++ (a ∷ []);
    } in
    let later = send_rounds-AllClosed f w zc frame_of m next size reads one.3 one.2 in
    rw (send_rounds, one.0, one.1)
      (record {
        after = later.after;
        is_some =
            later.is_some
            ∙ rw
                (
                  append_assoc s.effects (close_fd fd ∷ []) (close_fds m),
                  append_assoc s.acked (a ∷ []) (addresses m),
                )
                refl;
        empty = later.empty;
        fits = later.fits;
      })
