-- ===== src/Engine/Add/Keeps.antt =====
-- `processAdd` keeps the invariant of the book it works on, on every branch.
use mathlib.Core.Path.{subst}
use nebula_x.Base.{
  ℕ, ◌^◌, ◌<◌, ◌≡◌, refl, sym, ◌∙◌, inl, inr, none, some, List, [], ◌∷◌, arith, ◌==◌, ==_refl, ltb,
  Bool-cases, Option-cases,
}
use nebula_x.Order.{Order, Side, buy, sell, invalid}
use nebula_x.Book.{Book, Store, add_order}
use nebula_x.Book.AddOrder.{IsSide, add_order-StoreRep, add_order_full}
use nebula_x.Book.Invariant.{View, StoreRep, enter}
use nebula_x.Protocol.{BinaryResponse, OrderTif, day, ioc, fok}
use nebula_x.Engine.{Engine, Env, count, one_new_order, take_out, book_for}
use nebula_x.Engine.Match.{Match, match_order}
use nebula_x.Engine.Match.Loop.{match_order-Ended}
use nebula_x.Engine.Match.Limit.{match_order-Filled}
use nebula_x.Engine.Add.{
  Request, reject, start, finish, rest_order, finish_unfilled, add_to, process_add, incoming,
  is_filled,
}

-- Some view that the store shows.
pub record Sound (st : Store) (others : List ℕ) : Type 0 where
  pub view : View
  pub free : List ℕ
  pub rep : StoreRep st view free others

pub add_order-Sound :
    (st : Store) (order : Order) (others : List ℕ)
    → Sound st others
    → IsSide order.side
    → order.remaining_qty < 2 ^ 32
    → Sound (add_order st order).1 others
add_order-Sound st order others h valid word = go h.free h.rep
  where
    go : (free : List ℕ) → StoreRep st h.view free others → Sound (add_order st order).1 others
    go [] r =
        rw (add_order_full st order h.view others r) (record { view = h.view; free = []; rep = r })
    go (i ∷ free) r = record {
      view = enter order i h.view;
      free = free;
      rep = (add_order-StoreRep st order h.view i free others r valid word).1;
    }

rest_order-store : (ref : ℕ) (m : Match) → (rest_order ref m).store ≡ (add_order m.store m.order).1
unfolding rest_order
rest_order-store ref m = elim (Bool-cases (add_order m.store m.order).0) [
  | inl e ↦ rw e refl
  | inr e ↦ rw e refl
]

pub rest_order-Sound :
    (ref : ℕ) (m : Match) (others : List ℕ)
    → Sound m.store others
    → IsSide m.order.side
    → m.order.remaining_qty < 2 ^ 32
    → Sound (rest_order ref m).store others
rest_order-Sound ref m others h valid word =
    rw (rest_order-store ref m) (add_order-Sound m.store m.order others h valid word)

finish_unfilled-Sound :
    (r : Request) (tif : OrderTif) (m : Match) (others : List ℕ)
    → Sound m.store others
    → IsSide m.order.side
    → m.order.remaining_qty < 2 ^ 32
    → Sound (finish_unfilled r tif m).store others
unfolding finish_unfilled
finish_unfilled-Sound r ioc m others h valid word = elim (Bool-cases (m.order.filled_qty == 0)) [
  | inl e ↦ rw e h
  | inr e ↦ rw e h
]
finish_unfilled-Sound r fok m others h valid word =
    elim (Bool-cases (ltb m.order.filled_qty r.quantity)) [ inl e ↦ rw e h | inr e ↦ rw e h ]
finish_unfilled-Sound r day m others h valid word =
    rest_order-Sound r.order_ref m others h valid word

finish-Sound :
    (r : Request) (m : Match) (others : List ℕ)
    → Sound m.store others
    → IsSide m.order.side
    → m.order.remaining_qty < 2 ^ 32
    → Sound (finish r m).store others
unfolding finish
finish-Sound r m others h valid word = elim (Bool-cases (is_filled m.order.status)) [
  | inl e ↦ rw (finish, e) h
  | inr e ↦ rw (finish, e) (finish_unfilled-Sound r r.tif m others h valid word)
]

-- A request that is not rejected is for a side.
pub reject-IsSide :
    (r : Request) (st : Store) (sd : Side) → reject (record r { side = sd }) st ≡ none → IsSide sd
unfolding reject
reject-IsSide r st invalid e = absurd cc
reject-IsSide r st buy e = inl refl
reject-IsSide r st sell e = inr refl

start-order :
    (r : Request) (st : Store) (env : Env) (out : List BinaryResponse)
    → ((start r st env out).store ≡ st)
      × ((start r st env out).order.side ≡ r.side)
      × ((start r st env out).order.remaining_qty ≡ r.quantity)
      × ((start r st env out).order.filled_qty ≡ 0)
unfolding start incoming
start-order r st env out = (refl, refl, refl, refl)

-- The store behind an accepted request.
abbrev pub accepted : Request → Store → Env → List BinaryResponse → Match
accepted r st env out = finish r (match_order r.side r.locate (start r st env out))

accepted-Sound :
    (r : Request) (st : Store) (env : Env) (out : List BinaryResponse) (others : List ℕ)
    → Sound st others
    → IsSide r.side
    → r.quantity < 2 ^ 32
    → Sound (accepted r st env out).store others
unfolding start
accepted-Sound r st env out others h valid word =
    let s = start-order r st env out in
    let m = start r st env out in
    let ended = match_order-Ended r.side r.locate m h.view h.free others h.rep valid in
    let fill = match_order-Filled r.side r.locate m (omega (arith, s, word)) in
    finish-Sound r (match_order r.side r.locate m) others
      (record { view = ended.view; free = ended.free; rep = ended.rep })
      (subst IsSide (sym (fill.side_kept ∙ s.1)) valid) (omega (arith, fill.left, s, word))

-- The engine has a sound book at a locate.
pub record SoundAt (e : Engine) (locate : ℕ) (others : List ℕ) : Type 0 where
  pub book : Book
  pub there : e.books locate ≡ some book
  pub sound : Sound (take_out e book) others

add_to-SoundAt :
    (r : Request) (e : Engine) (b : Book) (out : List BinaryResponse) (others : List ℕ)
    → Sound (take_out e b) others
    → r.quantity < 2 ^ 32
    → SoundAt (add_to r e b out).0 r.locate others
unfolding add_to
add_to-SoundAt r e b out others h word = elim (Option-cases (reject r (take_out e b))) [
  | inl z ↦
      rw (add_to, z)
        (record {
          book = (accepted r (take_out e b) e.env out).store.book;
          there = rw (==_refl r.locate) refl;
          sound =
              accepted-Sound r (take_out e b) e.env out others h
                (reject-IsSide r (take_out e b) r.side z) word;
        })
  | inr (code, z) ↦
      rw (add_to, z) (record { book = b; there = rw (==_refl r.locate) refl; sound = h })
]

pub book_for-env :
    (e : Engine) (env : Env) (l : ℕ) → book_for (record e { env = env }) l ≡ book_for e l
unfolding book_for
book_for-env e env l = refl

-- Whatever comes of a request for fewer than 2^32, the book of its locate, well formed before, is
-- well formed afterwards, over the shared pool and apart from the other books' slots.
pub process_add-SoundAt :
    (r : Request) (e : Engine) (b : Book) (out : List BinaryResponse) (others : List ℕ)
    → book_for e r.locate ≡ some b
    → Sound (take_out e b) others
    → r.quantity < 2 ^ 32
    → SoundAt (process_add r e out).0 r.locate others
unfolding process_add
process_add-SoundAt r e b out others at h word =
    rw (process_add, book_for-env e (count one_new_order e.env) r.locate ∙ at)
      (add_to-SoundAt r (record e { env = count one_new_order e.env }) b out others h word)
