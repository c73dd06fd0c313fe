-- ===== src/Tests/Rings.antt =====
-- The ring for several producers at two runs, one in step and one in which a producer is lapped, and
-- the byte ring between the server and the send thread.
use nebula_x.Base.{
  List, [], ◌∷◌, Option, none, some, length, get_or, ◌==◌, if◌then◌else◌, ℕ, ◌+◌, ◌≡◌, ◌≢◌, refl,
  arith, update, true,
}
use nebula_x.Mpsc.{
  waiting, seen, marked, filled, committed, MpscRing, busy_mark, new_mpsc, slot_of, read_slot,
  consume, Step, fetch, look, mark, write, commit, take_front, NoLap, Reach, begin, later,
}
use nebula_x.Mpsc.Fifo.{Fifo, Reach-Fifo}
use nebula_x.Protocol.{BinaryResponse, rsp_ok}
use nebula_x.Ouch.{copies}
use nebula_x.Server.Conns.{
  World, Server, RingFrame, answer, rsp_header, rsp_close, took, images, response_size,
  push_responses,
}
use nebula_x.Sender.{Sender, zc_took, send_round}
use nebula_x.Sender.Delivered.{Delivered}
use nebula_x.Sender.Pushed.{push_responses-Delivered}
use nebula_x.Tests.Servers.{idle_server}

abbrev fetched : MpscRing → MpscRing
fetched r = record r { claim_idx = r.claim_idx + 1; phase = update r.phase r.claim_idx waiting }

abbrev looked : ℕ → MpscRing → MpscRing
looked i r = record r { phase = update r.phase i seen }

abbrev marked_at : ℕ → ℕ → MpscRing → MpscRing
marked_at c i r = record r {
  seq = update r.seq (slot_of c i) busy_mark;
  phase = update r.phase i marked;
}

abbrev wrote : ℕ → ℕ → ℕ → MpscRing → MpscRing
wrote c i v r = record r {
  cells = update r.cells (slot_of c i) v;
  phase = update r.phase i filled;
  written = update r.written i v;
}

abbrev committed_at : ℕ → ℕ → MpscRing → MpscRing
committed_at c i r = record r {
  seq = update r.seq (slot_of c i) (i + 1);
  phase = update r.phase i committed;
}

-- One element through a ring of two slots.
abbrev one_sent : MpscRing
one_sent = committed_at 2 0 (wrote 2 0 7 (marked_at 2 0 (looked 0 (fetched new_mpsc))))

free_of_laps : (r : MpscRing) → r.claim_idx ≡ 1 → r.read_cursor ≡ 1 → NoLap 2 r
free_of_laps r e k = record { in_lap = omega (arith, e, k); few = omega (arith, e) }

one_popped-Reach : Reach 2 (consume 2 one_sent)
one_popped-Reach =
    later
      (later
        (later
          (later
            (later (later begin fetch (free_of_laps _ refl refl)) (look 0 refl refl)
              (free_of_laps _ refl refl))
            (mark 0 refl) (free_of_laps _ refl refl))
          (write 0 7 refl) (free_of_laps _ refl refl))
        (commit 0 refl) (free_of_laps _ refl refl))
      (take_front refl) (record { in_lap = omega arith; few = omega arith })

Reach-Fifo_example : Fifo 2 (consume 2 one_sent)
Reach-Fifo_example = Reach-Fifo 2 (omega arith) one_popped-Reach

-- Any steps, laps included.
data Run (capacity : ℕ) : MpscRing → Type 0 where
  rest : Run capacity new_mpsc
  next : {r t : MpscRing} → Run capacity r → Step capacity r t → Run capacity t

-- Two producers of a ring of one slot that both find it free: the second covers the first's element.
abbrev both_look : MpscRing
both_look = looked 1 (looked 0 (fetched (fetched new_mpsc)))

abbrev covered : MpscRing
covered =
    committed_at 1 1
      (wrote 1 1 8 (marked_at 1 1 (committed_at 1 0 (wrote 1 0 7 (marked_at 1 0 both_look)))))

covered-Run : Run 1 covered
covered-Run =
    next
      (next
        (next
          (next
            (next
              (next
                (next (next (next (next rest fetch) fetch) (look 0 refl refl)) (look 1 refl refl))
                (mark 0 refl))
              (write 0 7 refl))
            (commit 0 refl))
          (mark 1 refl))
        (write 1 8 refl))
      (commit 1 refl)

-- Both have committed, and the consumer waits for a number that the slot will not show.
covered_stuck :
    (covered.phase 0 ≡ committed) × (covered.seq (read_slot 1 covered) ≢ covered.read_cursor)
covered_stuck = (refl, λ e. omega (arith, e))

-- A header as numbers that are read back, and answers that only have their size.
abbrev header_image : RingFrame → List ℕ
header_image (rsp_header fd n) = 135 ∷ fd ∷ n ∷ copies 45 0
header_image _ = copies 48 0

abbrev read_header : List ℕ → Option RingFrame
read_header l =
    if get_or l 0 0 == 135 then some (rsp_header (get_or l 1 0) (get_or l 2 0)) else none

-- `send` takes five bytes at a time.
abbrev steady : World
steady = record { image = header_image; drained = λ _. 0; send_answer = λ _. took 5 }

frames_sized : (x : RingFrame) → length (steady.image x) ≡ response_size
frames_sized (answer r) = refl
frames_sized (rsp_header fd n) = refl
frames_sized (rsp_close fd a) = refl

-- The last byte of the buffer comes next.
abbrev wrapping : Server
wrapping = record idle_server { ring = record { tail = 8388607; head = 8388607; buf = λ _. 0 } }

abbrev two_answers : List BinaryResponse
two_answers = rsp_ok 1 ∷ rsp_ok 2 ∷ []

abbrev waiting_sender : Sender
waiting_sender = record {
  ring = (push_responses steady 5 two_answers wrapping).ring;
  effects = [];
  acked = [];
  zc_ok = true;
}

push_responses-Delivered_example : Delivered waiting_sender 5 (images steady two_answers) [] (
    send_round
      (length (images steady two_answers))
      steady
      (λ _. zc_took 6)
      read_header
      waiting_sender)
push_responses-Delivered_example =
    push_responses-Delivered steady (λ _. zc_took 6) read_header 5 (rsp_ok 1) (rsp_ok 2 ∷ [])
      wrapping waiting_sender
      (record { amount = λ _. 4; takes = λ t. refl; zc_amount = λ _. 6; zc_takes = λ t. refl })
      frames_sized refl
      (record { head_word = omega arith; tail_word = omega arith; bounded = omega arith }) refl
      (omega arith) refl
