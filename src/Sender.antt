-- ===== src/Sender.antt =====
-- The send thread of src/main.cpp and `send_zc_all` of src/send_uring.cpp. `frame_of` reads a frame
-- back from its bytes; what a send takes is a number of the bytes that it is offered. The ring stays as it is
-- while a round of the loop runs, but for what the round itself takes out.
pub mod Delivered
pub mod Pushed
pub mod Closes
use nebula_x.Base.{
  ℕ, zero, suc, ◌+◌, ◌-◌, ◌*◌, Bool, true, false, Option, none, some, List, [], ◌∷◌, ◌++◌, length,
  min, leb, ◌&&◌, ◌==◌, if◌then◌else◌,
}
use nebula_x.Ring.{SpscByteRing, used, pop, read_acquire, read_release, read_bytes}
use nebula_x.Server.Conns.{
  RingFrame, answer, rsp_header, rsp_close, World, SendAnswer, took, busy, refused, Effect,
  close_fd, sent, response_size,
}

pub record Sender : Type 0 where
  pub ring : SpscByteRing
  pub effects : List Effect
  pub acked : List ℕ
  pub zc_ok : Bool

-- The loop of the plain sending: `need` bytes are left. It ends with the bytes sent and the ring;
-- `none` where it still waits.
unfoldable pub send_body :
    ℕ → World → ℕ → SpscByteRing → ℕ → List ℕ → Option (List ℕ × SpscByteRing)
send_body zero w t r zero done = some (done, r)
send_body zero w t r (suc need) done = none
send_body (suc f) w t r zero done = some (done, r)
send_body (suc f) w t r (suc need) done = elim (read_acquire r (suc need)) [
  | none ↦ send_body f w t r (suc need) done
  | some span ↦ elim (w.send_answer t) [
    | took n ↦ elim (min n span.1 == 0) [
      | true ↦ some (done, read_release r span.1)
      | false ↦
          send_body f w (t + 1) (read_release r (min n span.1)) (suc need - min n span.1)
            (done ++ read_bytes r.buf span.0 (min n span.1))
    ]
    | busy ↦ send_body f w (t + 1) r (suc need) done
    | refused ↦ some (done, read_release r span.1)
  ]
]

-- The plain path of a round.
unfoldable pub send_plain : ℕ → World → ℕ → ℕ → Sender → Option Sender
unfolding send_body
send_plain f w fd need s = elim (send_body f w 0 s.ring need []) [
  | none ↦ none
  | some (done, r) ↦ some (record s { ring = r; effects = s.effects ++ (sent fd done ∷ []) })
]

-- What a submission of a zero-copy send comes to: a number of bytes, more than none, as the number
-- before it; an error of the send; or no entry of the queue, or an error of the submission. An error
-- is EOPNOTSUPP or ENOSYS, or another.
pub data ZcAnswer : Type 0 where
  zc_took : ℕ → ZcAnswer
  zc_failed : Bool → ZcAnswer
  zc_unqueued : Bool → ZcAnswer

pub data ZcEnd : Type 0 where
  zc_done : ZcEnd
  zc_error : Bool → ZcEnd

-- `send_zc_all`: an error of the send gives up what remains of the ring's bytes.
unfoldable pub send_zc_all :
    ℕ → (ℕ → ZcAnswer) → ℕ → SpscByteRing → ℕ → List ℕ → Option (ZcEnd × List ℕ × SpscByteRing)
send_zc_all zero zc t r zero done = some (zc_done, done, r)
send_zc_all zero zc t r (suc remaining) done = none
send_zc_all (suc f) zc t r zero done = some (zc_done, done, r)
send_zc_all (suc f) zc t r (suc remaining) done = elim (read_acquire r (suc remaining)) [
  | none ↦ send_zc_all f zc t r (suc remaining) done
  | some span ↦ elim (zc t) [
    | zc_took n ↦
        send_zc_all f zc (t + 1) (read_release r (min (suc n) span.1))
          (suc remaining - min (suc n) span.1)
          (done ++ read_bytes r.buf span.0 (min (suc n) span.1))
    | zc_failed unsupported ↦ some (zc_error unsupported, done, read_release r (suc remaining))
    | zc_unqueued unsupported ↦ some (zc_error unsupported, done, r)
  ]
]

-- The zero-copy path of a round. Where it is not supported, it is not tried again, and the plain path
-- follows for the same number of bytes.
unfoldable pub send_zero_copy : ℕ → World → (ℕ → ZcAnswer) → ℕ → ℕ → Sender → Option Sender
unfolding send_zc_all send_plain
send_zero_copy f w zc fd need s = elim (send_zc_all f zc 0 s.ring need []) [
  | none ↦ none
  | some (end, done, r) ↦
      let s' : Sender = record s { ring = r; effects = s.effects ++ (sent fd done ∷ []) } in
      elim end [
        | zc_done ↦ some s'
        | zc_error unsupported ↦ elim unsupported [
          | true ↦ send_plain f w fd need (record s' { zc_ok = false })
          | false ↦ some s'
        ]
      ]
]

-- A round of the thread's loop, with so many rounds of the inner loops; `none` where an inner loop
-- still waits.
unfoldable pub send_round :
    ℕ → World → (ℕ → ZcAnswer) → (List ℕ → Option RingFrame) → Sender → Option Sender
unfolding send_plain send_zero_copy
send_round f w zc frame_of s =
    let (hdr, r) = pop s.ring response_size in
    if length hdr == 0 then some s else elim (frame_of hdr) [
      | none ↦ some (record s { ring = r })
      | some rsp ↦ elim rsp [
        | answer _ ↦ some (record s { ring = r })
        | rsp_close fd a ↦ some (record s {
          ring = r;
          effects = s.effects ++ (close_fd fd ∷ []);
          acked = s.acked ++ (a ∷ []);
        })
        | rsp_header fd n ↦ elim (s.zc_ok && leb 4096 (n * response_size)) [
          | true ↦ send_zero_copy f w zc fd (n * response_size) (record s { ring = r })
          | false ↦ send_plain f w fd (n * response_size) (record s { ring = r })
        ]
      ]
    ]

-- The rounds of the thread until the ring is empty; `none` where they are too few.
unfoldable pub send_rounds :
    ℕ → ℕ → World → (ℕ → ZcAnswer) → (List ℕ → Option RingFrame) → Sender → Option Sender
unfolding send_round
send_rounds zero f w zc frame_of s = elim (used s.ring == 0) [ true ↦ some s | false ↦ none ]
send_rounds (suc k) f w zc frame_of s = elim (used s.ring == 0) [
  | true ↦ some s
  | false ↦ elim (send_round f w zc frame_of s) [
    | none ↦ none
    | some s' ↦ send_rounds k f w zc frame_of s'
  ]
]
