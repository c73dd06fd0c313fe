-- ===== src/Server/Message.antt =====
-- What one message does to the books: the parser and the engine's handlers together.
use nebula_x.Base.{
  ℕ, ◌≡◌, refl, inl, inr, true, some, List, arith, ltb, ==_refl, Bool-cases, Option-cases,
}
use nebula_x.OrderMap.{find}
use nebula_x.Book.{Book, find_order, slot}
use nebula_x.Itch.{ItchEvent, EventType, feed, add, delete, cancel, replace, book}
use nebula_x.Itch.Bounds.{Bytes, IsEvent, feed-IsEvent}
use nebula_x.Engine.{book_for, take_out, put_back}
use nebula_x.Engine.Add.Keeps.{Sound, SoundAt, process_add-SoundAt}
use nebula_x.Engine.Cancel.{get_book}
use nebula_x.Engine.Cancel.Keeps.{
  Indexed, process_cancel-SoundAt, process_cancel_shares-SoundAt, process_replace-SoundAt,
}
use nebula_x.Server.{Session, blank_event, replace_event, handle_event, process_itch_message}

module _ (ev : ItchEvent) (s : Session) (b : Book) (others : List ℕ) (fits : IsEvent ev)
    (at : s.engine.books ev.locate ≡ some b)
    (h : Indexed (take_out s.engine b) ev.order_ref others) where
  known : book_for s.engine ev.locate ≡ some b
  unfolding book_for
  known =
      let low : ltb ev.locate 65536 ≡ true = ground (arith, fits.locate) in
      rw (book_for, low, at) refl

  sound : Sound (take_out s.engine b) others
  sound = record { view = h.view; free = h.free; rep = h.rep }

  as_is : SoundAt s.engine ev.locate others
  as_is = record { book = b; there = at; sound = sound }

  get_book-SoundAt : SoundAt (get_book ev.locate s.engine).0 ev.locate others
  unfolding get_book
  get_book-SoundAt =
      let low : ltb ev.locate 65536 ≡ true = ground (arith, fits.locate) in
      rw (get_book, low, at) (record { book = b; there = at; sound = sound })

  again :
      book_for (put_back s.engine ev.locate (take_out s.engine b) s.engine.env) ev.locate ≡ some b
  unfolding book_for
  again =
      let low : ltb ev.locate 65536 ≡ true = ground (arith, fits.locate) in
      rw (book_for, low, ==_refl ev.locate) refl

  replace_event-SoundAt : SoundAt (replace_event ev s).engine ev.locate others
  unfolding replace_event find_order book_for
  replace_event-SoundAt = elim (Option-cases (find s.engine.index ev.order_ref)) [
    | inl e ↦
        rw (replace_event, known, e)
          (record { book = b; there = rw (==_refl ev.locate) refl; sound = sound })
    | inr (i, e) ↦
        rw (replace_event, known, e)
          (process_replace-SoundAt ev.locate ev.order_ref ev.new_order_ref ev.price ev.shares
            ev.order_ref (slot (take_out s.engine b) i).side
            (put_back s.engine ev.locate (take_out s.engine b) s.engine.env) b s.out others again h
            (h.here i e).0 fits.shares)
  ]

  handle_event-SoundAt :
      (t : EventType) → SoundAt (handle_event (record ev { type = t }) s).engine ev.locate others
  unfolding handle_event
  handle_event-SoundAt add = process_add-SoundAt _ s.engine b s.out others known sound fits.shares
  handle_event-SoundAt delete =
      process_cancel-SoundAt ev.locate ev.order_ref ev.order_ref s.engine b s.out others known h
  handle_event-SoundAt cancel =
      process_cancel_shares-SoundAt ev.locate ev.order_ref ev.shares ev.order_ref s.engine b s.out
        others known h
  handle_event-SoundAt replace = replace_event-SoundAt
  handle_event-SoundAt book = get_book-SoundAt

-- The event that a message is parsed into.
abbrev pub event_of : List ℕ → Session → ItchEvent
event_of msg s = (feed msg blank_event s.symbols).1

-- Where the book of the event's locate is there and well formed and what the index holds for the
-- event's reference, if anything, is the slot of an order that rests in that book: whatever the
-- message of bytes is, the book is well formed after it is handled.
pub process_itch_message-SoundAt :
    (msg : List ℕ) (s : Session) (b : Book) (others : List ℕ)
    → Bytes msg
    → s.engine.books (event_of msg s).locate ≡ some b
    → Indexed (take_out s.engine b) (event_of msg s).order_ref others
    → SoundAt (process_itch_message msg s).engine (event_of msg s).locate others
unfolding process_itch_message
process_itch_message-SoundAt msg s b others bytes at h =
    let fits = feed-IsEvent msg blank_event s.symbols bytes (record {
      locate = omega arith;
      order_ref = omega arith;
      new_order_ref = omega arith;
      price = omega arith;
      shares = omega arith;
    }) in
    elim (Bool-cases (feed msg blank_event s.symbols).0) [
      | inl y ↦
          rw (process_itch_message, y)
            (handle_event-SoundAt (event_of msg s)
              (record s { symbols = (feed msg blank_event s.symbols).2 }) b others fits at h
              (event_of msg s).type)
      | inr n ↦ rw (process_itch_message, n) (as_is (event_of msg s) s b others fits at h)
    ]
