-- ===== src/Engine/Add/Discards.antt =====
-- An order that is not a DAY order never rests.
use nebula_x.Base.{
  ℕ, ◌≡◌, refl, ◌∙◌, false, some, List, ◌==◌, ==_refl, ltb, Bool-cases, Option-cases, inl, inr,
}
use nebula_x.Order.{Side}
use nebula_x.Book.{Book, Store}
use nebula_x.Book.AddOrder.{IsSide}
use nebula_x.Book.Invariant.{View, StoreRep, chains}
use nebula_x.Protocol.{BinaryResponse, OrderTif, day, ioc, fok}
use nebula_x.Engine.{Engine, Env, count, one_new_order, take_out, put_back, book_for}
use nebula_x.Engine.Match.{Match, match_order}
use nebula_x.Engine.Match.Loop.{match_order-Ended}
use nebula_x.Engine.Add.{
  Request, is_day, is_filled, reject, start, finish, finish_unfilled, add_to, process_add,
}
use nebula_x.Engine.Add.Keeps.{reject-IsSide, accepted, book_for-env}

unfilled-store :
    (r : Request) (tif : OrderTif) (m : Match)
    → is_day tif ≡ false
    → (finish_unfilled r tif m).store ≡ m.store
unfolding finish_unfilled
unfilled-store r day m e = absurd cc
unfilled-store r ioc m e = elim (Bool-cases (m.order.filled_qty == 0)) [
  | inl z ↦ rw z refl
  | inr z ↦ rw z refl
]
unfilled-store r fok m e = elim (Bool-cases (ltb m.order.filled_qty r.quantity)) [
  | inl z ↦ rw z refl
  | inr z ↦ rw z refl
]

finish-store : (r : Request) (m : Match) → is_day r.tif ≡ false → (finish r m).store ≡ m.store
unfolding finish
finish-store r m e = elim (Bool-cases (is_filled m.order.status)) [
  | inl z ↦ rw (finish, z) refl
  | inr z ↦ rw (finish, z) (unfilled-store r r.tif m e)
]

-- The engine's book at a locate shows a view with a side's queues as they were.
pub record SideKept (e : Engine) (locate : ℕ) (side : Side) (v : View) (others : List ℕ)
    : Type 0 where
  pub book : Book
  pub there : e.books locate ≡ some book
  pub view : View
  pub free : List ℕ
  pub rep : StoreRep (take_out e book) view free others
  pub kept : chains side view ≡ chains side v

accepted-store :
    (r : Request) (st : Store) (env : Env) (out : List BinaryResponse)
    → is_day r.tif ≡ false
    → (accepted r st env out).store ≡ (match_order r.side r.locate (start r st env out)).store
accepted-store r st env out e = finish-store r (match_order r.side r.locate (start r st env out)) e

accepted-SideKept :
    (r : Request) (e : Engine) (b : Book) (v : View) (free others : List ℕ)
    (out : List BinaryResponse)
    → StoreRep (take_out e b) v free others
    → IsSide r.side
    → is_day r.tif ≡ false
    → SideKept
        (put_back e r.locate
          (accepted r (take_out e b) e.env out).store
          (accepted r (take_out e b) e.env out).env)
        r.locate
        r.side
        v
        others
unfolding start
accepted-SideKept r e b v free others out h valid late =
    let ended =
      match_order-Ended r.side r.locate (start r (take_out e b) e.env out) v free others h valid in
    rw (accepted-store r (take_out e b) e.env out late) (record {
      book = (match_order r.side r.locate (start r (take_out e b) e.env out)).store.book;
      there = rw (==_refl r.locate) refl;
      view = ended.view;
      free = ended.free;
      rep = ended.rep;
      kept = ended.own;
    })

add_to-SideKept :
    (r : Request) (e : Engine) (b : Book) (v : View) (free others : List ℕ)
    (out : List BinaryResponse)
    → StoreRep (take_out e b) v free others
    → is_day r.tif ≡ false
    → SideKept (add_to r e b out).0 r.locate r.side v others
unfolding add_to
add_to-SideKept r e b v free others out h late = elim (Option-cases (reject r (take_out e b))) [
  | inl z ↦
      rw (add_to, z)
        (accepted-SideKept r e b v free others out h (reject-IsSide r (take_out e b) r.side z) late)
  | inr (code, z) ↦
      rw (add_to, z)
        (record {
          book = b;
          there = rw (==_refl r.locate) refl;
          view = v;
          free = free;
          rep = h;
          kept = refl;
        })
]

-- On a well-formed book, an IOC or FOK request never rests: whatever comes of it, the book is well
-- formed, and the queues of the request's own side are as they were.
pub process_add-SideKept :
    (r : Request) (e : Engine) (b : Book) (v : View) (free others : List ℕ)
    (out : List BinaryResponse)
    → book_for e r.locate ≡ some b
    → StoreRep (take_out e b) v free others
    → is_day r.tif ≡ false
    → SideKept (process_add r e out).0 r.locate r.side v others
unfolding process_add
process_add-SideKept r e b v free others out at h late =
    rw (process_add, book_for-env e (count one_new_order e.env) r.locate ∙ at)
      (add_to-SideKept r (record e { env = count one_new_order e.env }) b v free others out h late)
