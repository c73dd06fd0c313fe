-- ===== src/Engine/Cancel.antt =====
-- `processCancel`, `processCancelShares`, `processReplace`, `getBook` and the handlers for one book
-- of src/matching_engine.cpp.
pub mod Keeps
pub mod Answers
use nebula_x.Base.{
  ℕ, Bool, true, false, not, ◌+◌, ◌%◌, ◌^◌, Option, none, some, List, ltb, leb, ◌==◌, if◌then◌else◌,
  add64,
}
use nebula_x.Order.{Order, Side, open_, default_order}
use nebula_x.Book.{
  Book, Store, TopOfBook, slot, remove_order, remove_slot, reduce_qty_cancel, find_order,
  get_top_of_book,
}
use nebula_x.Protocol.{
  BinaryResponse, BookReport, rsp_ok, rsp_filled, rsp_cancelled, rsp_error, rsp_book,
  order_not_found, day,
}
use nebula_x.Wal.{WalEntry}
use nebula_x.Engine.{
  Engine, Env, book_for, take_out, put_back, count, one_cancel, one_query, one_error, max_locate,
  log_entry, emit,
}
use nebula_x.Engine.Match.{Match, match_order}
use nebula_x.Engine.Add.{is_filled, rest_order, process_add}

-- The log entry of a handler: its type, price, quantity, user and order.
abbrev pub entry_of : ℕ → ℕ → ℕ → ℕ → ℕ → ℕ → ℕ → WalEntry
entry_of type locate price quantity user_id order_id seq = record {
  type = type;
  side = 0;
  locate = locate % 2 ^ 16;
  price = price;
  quantity = quantity;
  user_id = user_id;
  order_id = order_id;
  wal_seq = seq;
}

-- The common opening of the three handlers: the counter, the book, the log entry.
abbrev pub with_book :
    ℕ
    → (ℕ → WalEntry)
    → Engine
    → List BinaryResponse
    → (Store → Env → (Store × Env × List BinaryResponse))
    → Engine × List BinaryResponse
with_book locate entry e0 out body =
    let e : Engine = record e0 { env = count one_cancel e0.env } in
    elim (book_for e locate) [
      | none ↦ (record e { env = count one_error e.env }, emit (rsp_error order_not_found) out)
      | some b ↦
          let env = log_entry (entry e.env.next_sequence) e.env in
          let (st, env', out') = body (take_out e b) env in (put_back e locate st env', out')
    ]

abbrev pub not_found : Store → Env → List BinaryResponse → Store × Env × List BinaryResponse
not_found st env out = (st, count one_error env, emit (rsp_error order_not_found) out)

unfoldable pub cancel_in :
    ℕ → ℕ → List BinaryResponse → Store → Env → Store × Env × List BinaryResponse
cancel_in order_ref user_id out st env =
    let (removed, st') = remove_order st order_ref user_id in
    if removed then (st', env, emit (rsp_cancelled order_ref) out) else not_found st' env out

unfoldable pub process_cancel :
    (locate order_ref user_id : ℕ) → Engine → List BinaryResponse → Engine × List BinaryResponse
unfolding cancel_in book_for
process_cancel locate order_ref user_id e out =
    with_book locate (entry_of 0x02 locate 0 0 user_id order_ref) e out
      (cancel_in order_ref user_id out)

unfoldable pub cancel_shares_in :
    ℕ → ℕ → ℕ → List BinaryResponse → Store → Env → Store × Env × List BinaryResponse
cancel_shares_in order_ref shares user_id out st env = elim (find_order st order_ref) [
  | none ↦ not_found st env out
  | some i ↦
      if not ((slot st i).user_id == user_id)
      then not_found st env out
      else if leb (slot st i).remaining_qty shares
      then (remove_slot st i, env, emit (rsp_cancelled order_ref) out)
      else (reduce_qty_cancel st i shares, env, emit (rsp_ok order_ref) out)
]

unfoldable pub process_cancel_shares :
    (locate order_ref shares user_id : ℕ)
    → Engine
    → List BinaryResponse
    → Engine × List BinaryResponse
unfolding cancel_shares_in book_for
process_cancel_shares locate order_ref shares user_id e out =
    with_book locate (entry_of 0x03 locate 0 shares user_id order_ref) e out
      (cancel_shares_in order_ref shares user_id out)

-- The replacement; its user is its own reference.
unfoldable pub replacement : ℕ → Side → ℕ → ℕ → ℕ → Order
replacement new_ref side price quantity seq = record default_order {
  user_id = new_ref;
  order_id = new_ref;
  side = side;
  price = price;
  original_qty = quantity;
  remaining_qty = quantity;
  filled_qty = 0;
  sequence = seq;
  status = open_;
}

-- The old order goes, the new one is matched and what is left of it rests.
unfoldable pub replace_slot :
    ℕ → ℕ → ℕ → Side → ℕ → ℕ → List BinaryResponse → Store → Env → Store × Env × List BinaryResponse
unfolding replacement
replace_slot i locate new_ref side price quantity out st env =
    let m : Match = match_order side locate (record {
      store = remove_slot st i;
      order = replacement new_ref side price quantity env.next_sequence;
      env = record env { next_sequence = add64 env.next_sequence 1 };
      out = out;
    }) in
    let m' : Match =
      (if is_filled m.order.status
        then record m { out = emit (rsp_filled new_ref) m.out }
        else rest_order new_ref m) in
    (m'.store, m'.env, m'.out)

unfoldable pub replace_in :
    ℕ
    → ℕ
    → ℕ
    → Side
    → ℕ
    → ℕ
    → ℕ
    → List BinaryResponse
    → Store
    → Env
    → Store × Env × List BinaryResponse
unfolding replace_slot
replace_in locate old_ref new_ref side price quantity user_id out st env =
    elim (find_order st old_ref) [
      | none ↦ not_found st env out
      | some i ↦
          if not ((slot st i).user_id == user_id)
          then not_found st env out
          else replace_slot i locate new_ref side price quantity out st env
    ]

unfoldable pub process_replace :
    (locate old_ref new_ref : ℕ)
    → Side
    → (price quantity user_id : ℕ) → Engine
    → List BinaryResponse
    → Engine × List BinaryResponse
unfolding replace_in book_for
process_replace locate old_ref new_ref side price quantity user_id e out =
    with_book locate (entry_of 0x04 locate price quantity user_id new_ref) e out
      (replace_in locate old_ref new_ref side price quantity user_id out)

-- The top of a locate's book; all zero where there is none.
unfoldable pub get_book : ℕ → Engine → Engine × BinaryResponse
get_book locate e =
    let e' : Engine = record e { env = count one_query e.env } in
    let answer = λ (t : TopOfBook). rsp_book (record {
      locate = locate;
      bid_price = t.bid_price;
      bid_volume = t.bid_volume;
      ask_price = t.ask_price;
      ask_volume = t.ask_volume;
    }) in
    let nothing : TopOfBook = record {
      bid_price = 0;
      bid_volume = 0;
      ask_price = 0;
      ask_volume = 0;
    } in
    if ltb locate max_locate
    then elim (e.books locate) [
      | none ↦ (e', answer nothing)
      | some b ↦ (e', answer (get_top_of_book b))
    ]
    else (e', answer nothing)

-- The handlers for one book: locate 0, and references that the engine numbers.
unfoldable pub process_new_order :
    Side
    → (price quantity user_id : ℕ) → Engine
    → List BinaryResponse
    → Engine × List BinaryResponse
process_new_order side price quantity user_id e out =
    let id = e.env.next_order_id in
    process_add
      (record {
        locate = 0;
        order_ref = id;
        side = side;
        price = price;
        quantity = quantity;
        user_id = user_id;
        tif = day;
      })
      (record e { env = record (e.env) { next_order_id = add64 id 1 } }) out
