-- ===== src/Engine/Match/Limit.antt =====
-- What a run of the match loop reports: every trade is within the order's price, and the traded
-- quantities are what the order gained.
use mathlib.Core.List.{append-nil, append_assoc}
use nebula_x.Base.{
  ℕ, suc, zero, ◌+◌, ◌^◌, ◌<◌, ◌≡◌, refl, sym, ap, ◌∙◌, inl, inr, false, List, [], ◌∷◌, ◌++◌, arith,
  min, All, All-append, Option-cases, ==_refl,
}
use nebula_x.Order.{Side}
use nebula_x.Book.{slot, past, levels, resting, opposite, reduce_order_qty, lower_level}
use nebula_x.Protocol.{
  BinaryResponse, rsp_ok, rsp_trade, rsp_filled, rsp_cancelled, rsp_book, rsp_error,
}
use nebula_x.Engine.Match.{Match, resting_side, trade, candidate, match_loop, match_order}
use nebula_x.Engine.Match.Loop.{candidate-best}

-- The quantity of the trades in a list of answers.
unfoldable pub traded : List BinaryResponse → ℕ
traded [] = 0
traded (rsp_trade t ∷ out) = t.quantity + traded out
traded (_ ∷ out) = traded out

-- A trade of the resting side, not past the limit.
abbrev pub Within : Side → ℕ → BinaryResponse → Type 0
Within side limit (rsp_trade t) = (past side limit t.price ≡ false) × (t.side ≡ resting_side side)
Within side limit _ = ⊥

-- The order is the one that came in, but for its quantities and its status; it reported trades
-- within its limit, which sum to what it gained.
pub record Filled (side : Side) (m m' : Match) : Type 0 where
  pub price : m'.order.price ≡ m.order.price
  pub user : m'.order.user_id ≡ m.order.user_id
  pub side_kept : m'.order.side ≡ m.order.side
  pub ref : m'.order.order_id ≡ m.order.order_id
  pub trades : List BinaryResponse
  pub reported : m'.out ≡ m.out ++ trades
  pub within : All (Within side m.order.price) trades
  pub left : m'.order.remaining_qty + traded trades ≡ m.order.remaining_qty
  pub gained : m'.order.filled_qty ≡ m.order.filled_qty + traded trades

reduce-head :
    (m : Match) (i amount : ℕ)
    → ((slot (reduce_order_qty m.store i amount) i).price ≡ (slot m.store i).price)
unfolding reduce_order_qty lower_level
reduce-head m i amount = rw (==_refl i) refl

-- One round.
trade-Filled :
    (side : Side) (loc i : ℕ) (m : Match)
    → m.order.remaining_qty + m.order.filled_qty < 2 ^ 32
    → past side m.order.price (slot m.store i).price ≡ false
    → Filled side m (trade side loc i m)
unfolding trade traded
trade-Filled side loc i m word lim = record {
  price = refl;
  user = refl;
  side_kept = refl;
  ref = refl;
  trades = _;
  reported = refl;
  within = (
    rw (reduce-head m i (min m.order.remaining_qty (slot m.store i).remaining_qty)) (lim, refl),
    tt,
  );
  left = omega (arith, word);
  gained = omega (arith, word);
}

Filled-refl : (side : Side) (m : Match) → Filled side m m
unfolding traded
Filled-refl side m = record {
  price = refl;
  user = refl;
  side_kept = refl;
  ref = refl;
  trades = [];
  reported = sym (append-nil m.out);
  within = tt;
  left = omega arith;
  gained = omega arith;
}

traded-append : (xs ys : List BinaryResponse) → traded (xs ++ ys) ≡ traded xs + traded ys
unfolding traded
traded-append [] ys = omega arith
traded-append (rsp_trade t ∷ xs) ys = omega (arith, traded-append xs ys)
traded-append (rsp_ok _ ∷ xs) ys = traded-append xs ys
traded-append (rsp_filled _ ∷ xs) ys = traded-append xs ys
traded-append (rsp_cancelled _ ∷ xs) ys = traded-append xs ys
traded-append (rsp_error _ ∷ xs) ys = traded-append xs ys
traded-append (rsp_book _ ∷ xs) ys = traded-append xs ys

Filled-trans : (side : Side) (a b c : Match) → Filled side a b → Filled side b c → Filled side a c
Filled-trans side a b c f g = record {
  price = g.price ∙ f.price;
  user = g.user ∙ f.user;
  side_kept = g.side_kept ∙ f.side_kept;
  ref = g.ref ∙ f.ref;
  trades = f.trades ++ g.trades;
  reported = g.reported ∙ ap (λ l. l ++ g.trades) f.reported ∙ append_assoc a.out f.trades g.trades;
  within = All-append _ f.trades g.trades f.within (rw f.price at g.within);
  left = omega (arith, f.left, g.left, traded-append f.trades g.trades);
  gained = omega (arith, f.gained, g.gained, traded-append f.trades g.trades);
}

match_loop-Filled :
    (f : ℕ) (side : Side) (loc : ℕ) (m : Match)
    → m.order.remaining_qty + m.order.filled_qty < 2 ^ 32
    → Filled side m (match_loop f side loc m)
unfolding match_loop
match_loop-Filled zero side loc m word = Filled-refl side m
match_loop-Filled (suc f) side loc m word = elim (Option-cases (candidate side m)) [
  | inl e ↦ rw (match_loop, e) (Filled-refl side m)
  | inr (i, e) ↦
      let one = trade-Filled side loc i m word (candidate-best side m i e).2 in
      let rest =
        match_loop-Filled f side loc (trade side loc i m)
          (omega (arith, word, one.left, one.gained)) in
      rw (match_loop, e) (Filled-trans side m _ _ one rest)
]

-- Where remaining and filled quantity fit in 32 bits together, matching keeps the order's price,
-- side, user and reference, reports trades only, each of the other side and within the order's
-- price, and their quantities sum to what the order gained and to what it has less.
pub match_order-Filled :
    (side : Side) (loc : ℕ) (m : Match)
    → m.order.remaining_qty + m.order.filled_qty < 2 ^ 32
    → Filled side m (match_order side loc m)
unfolding match_order
match_order-Filled side loc m word =
    match_loop-Filled (resting (levels (opposite side) m.store.book) + 1) side loc m word
