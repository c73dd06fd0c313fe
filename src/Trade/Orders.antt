-- ===== src/Trade/Orders.antt =====
-- What src/tcp_trade_server.cpp answers to a cancel.
use nebula_x.Base.{
  ℕ, ◌≡◌, refl, ap, ◌∙◌, inl, inr, true, some, List, [], ◌∷◌, ◌++◌, ==_refl, has, lookup,
  Option-cases,
}
use nebula_x.OrderMap.{find}
use nebula_x.Book.{Book, Store, slot}
use nebula_x.Book.Rep.{chain_at}
use nebula_x.Book.AddOrder.{IsSide}
use nebula_x.Book.Invariant.{View, StoreRep, chains, leave}
use nebula_x.Protocol.{rsp_cancelled}
use nebula_x.Engine.{Engine, Env, book_for, take_out, put_back, count, one_cancel, log_entry}
use nebula_x.Engine.Add.Keeps.{book_for-env}
use nebula_x.Engine.Cancel.{entry_of, with_book, cancel_in, process_cancel}
use nebula_x.Engine.Cancel.Answers.{cancel_in-answer}
use nebula_x.Ouch.{read_from, encode_canceled}
use nebula_x.Trade.{TradeServer, ref_for, handle_cancel, send_cancels, is_cancelled}

-- The 'C' for a cancel.
abbrev pub cancel_bytes : ℕ → ℕ → ℕ → List ℕ
cancel_bytes ref order_id locate =
    read_from (encode_canceled ref order_id 66 0 locate (λ _. 0)) 0 39

ref_for-rest :
    (id : ℕ) (sv : TradeServer)
    → ((ref_for id sv).1.engine ≡ sv.engine)
      × ((ref_for id sv).1.sent ≡ sv.sent)
      × ((ref_for id sv).1.order_locate ≡ sv.order_locate)
unfolding ref_for
ref_for-rest id sv = elim (Option-cases (lookup id sv.id_to_ref)) [
  | inl e ↦ rw (ref_for, e) (refl, refl, refl)
  | inr (r, e) ↦ rw (ref_for, e) (refl, refl, refl)
]

-- The messages for one answer CANCELLED.
send_cancels_one :
    (ref order_id locate ref' : ℕ) (sv : TradeServer)
    → ((send_cancels ref order_id locate (rsp_cancelled ref' ∷ []) sv).sent
        ≡ sv.sent ++ (cancel_bytes ref order_id locate ∷ []))
      × ((send_cancels ref order_id locate (rsp_cancelled ref' ∷ []) sv).engine ≡ sv.engine)
unfolding send_cancels is_cancelled
send_cancels_one ref order_id locate ref' sv = (refl, refl)

module _ (id shares locate i : ℕ) (sv : TradeServer) (b : Book) (v : View) (free others : List ℕ)
    (routed : lookup id sv.order_locate ≡ some locate) (at : book_for sv.engine locate ≡ some b)
    (r : StoreRep (take_out sv.engine b) v free others) (found : find sv.engine.index id ≡ some i)
    (owner : (slot (take_out sv.engine b) i).user_id ≡ id)
    (valid : IsSide (slot (take_out sv.engine b) i).side)
    (there : has i (
        chain_at
          (slot (take_out sv.engine b) i).price
          (chains (slot (take_out sv.engine b) i).side v))
      ≡ true) where
  abbrev st : Store
  st = take_out sv.engine b

  abbrev env : Env
  env =
      log_entry (entry_of 0x02 locate 0 0 id id (count one_cancel sv.engine.env).next_sequence)
        (count one_cancel sv.engine.env)

  answered : (cancel_in id id [] st env).2 ≡ rsp_cancelled id ∷ []
  answered = elim (cancel_in-answer st v free others id i r found valid there id [] env) [
    | inl k ↦ k.2
    | inr k ↦ absurd (k.0 owner)
  ]

  left :
      StoreRep
        (cancel_in id id [] st env).0
        (leave (slot st i).side (slot st i).price i v)
        (i ∷ free)
        others
  left = elim (cancel_in-answer st v free others id i r found valid there id [] env) [
    | inl k ↦ k.1
    | inr k ↦ absurd (k.0 owner)
  ]

  abbrev after : Engine
  after = put_back sv.engine locate (cancel_in id id [] st env).0 (cancel_in id id [] st env).1

  handled : process_cancel locate id id sv.engine [] ≡ (after, (cancel_in id id [] st env).2)
  unfolding process_cancel
  handled = rw (with_book, book_for-env sv.engine (count one_cancel sv.engine.env) locate ∙ at) refl

  -- A cancel of an order that rests in the book of its recorded locate, on a well-formed book, where
  -- the order's user is its id: the client gets one message, which says that the order is canceled,
  -- and the order is out of its queue.
  pub handle_cancel_rests :
      ((handle_cancel id shares sv).sent
        ≡ sv.sent ++ (cancel_bytes (ref_for id sv).0 id locate ∷ []))
      × StoreRep
          (take_out (handle_cancel id shares sv).engine (cancel_in id id [] st env).0.book)
          (leave (slot st i).side (slot st i).price i v)
          (i ∷ free)
          others
      × ((handle_cancel id shares sv).engine.books locate ≡ some (cancel_in id id [] st env).0.book)
  unfolding handle_cancel
  handle_cancel_rests =
      let same = ref_for-rest id sv in
      let messages =
        send_cancels_one (ref_for id sv).0 id locate id
          (record (ref_for id sv).1 { engine = after }) in
      rw (handle_cancel, same.2, routed, same.0, handled, answered)
        (
          messages.0 ∙ ap (λ l. l ++ (cancel_bytes (ref_for id sv).0 id locate ∷ [])) same.1,
          left,
          rw (==_refl locate) refl,
        )
