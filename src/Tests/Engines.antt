-- ===== src/Tests/Engines.antt =====
-- The theorems on the engine at an engine with one buyer's order resting at locate 0, and on the
-- byte ring and the messages at small ones.
use nebula_x.Base.{
  ◌-◌, ◌≡◌, refl, sym, ◌∙◌, inr, true, none, some, [], ◌∷◌, ◌++◌, arith, update, min, take,
}
use nebula_x.Order.{buy, sell, default_order}
use nebula_x.Protocol.{day}
use nebula_x.Engine.{Engine, Env, book_for, take_out}
use nebula_x.Engine.Match.{Match, match_order}
use nebula_x.Engine.Match.Loop.{Ended, match_order-Ended}
use nebula_x.Engine.Match.Limit.{Filled, match_order-Filled}
use nebula_x.Engine.Add.{Request, process_add}
use nebula_x.Engine.Add.Keeps.{Sound, SoundAt, process_add-SoundAt}
use nebula_x.Engine.Cancel.{process_cancel, process_cancel_shares, process_replace}
use nebula_x.Engine.Cancel.Keeps.{
  Indexed, process_cancel-SoundAt, process_cancel_shares-SoundAt, process_replace-SoundAt,
}
use nebula_x.Ring.{SpscByteRing, ring_size, used, push}
use nebula_x.Ring.Bytes.{contents, push-contents}
use nebula_x.Itch.{ItchEvent, add, book, feed}
use nebula_x.Itch.Fields.{add_message, feed-add}
use nebula_x.Tests.{one_bid, one_view, one_bid-StoreRep, one_bid-index, one_bid-slot}

abbrev pub plain_env : Env
plain_env = record {
  next_order_id = 1;
  next_sequence = 1;
  metrics = none;
  wal = none;
  trade_pool = none;
  buy_trade_id = 0;
  sell_trade_id = 0;
}

abbrev pub one_engine : Engine
one_engine = record {
  books = update (λ _. none) 0 (some one_bid.book);
  pool = one_bid.pool;
  index = one_bid.index;
  env = plain_env;
}

pub one_engine-book : book_for one_engine 0 ≡ some one_bid.book
unfolding book_for
one_engine-book = refl

one_engine-Sound : Sound (take_out one_engine one_bid.book) []
one_engine-Sound = record { view = one_view; free = 1 ∷ 2 ∷ []; rep = one_bid-StoreRep }

-- A seller's request for eight at 90.
abbrev ask : Request
ask = record {
  locate = 0;
  order_ref = 12;
  side = sell;
  price = 90;
  quantity = 8;
  user_id = 8;
  tif = day;
}

process_add-SoundAt_example : SoundAt (process_add ask one_engine []).0 0 []
process_add-SoundAt_example =
    process_add-SoundAt ask one_engine one_bid.book [] [] one_engine-book one_engine-Sound
      (omega arith)

abbrev seller : Match
seller = record {
  store = one_bid;
  order = record default_order {
    user_id = 8;
    order_id = 12;
    side = sell;
    price = 90;
    original_qty = 8;
    remaining_qty = 8;
  };
  env = plain_env;
  out = [];
}

match_order-Ended_example : Ended sell (match_order sell 0 seller) one_view []
match_order-Ended_example =
    match_order-Ended sell 0 seller one_view (1 ∷ 2 ∷ []) [] one_bid-StoreRep (inr refl)

match_order-Filled_example : Filled sell seller (match_order sell 0 seller)
match_order-Filled_example = match_order-Filled sell 0 seller (omega arith)

one_bid-Indexed : Indexed (take_out one_engine one_bid.book) 11 []
one_bid-Indexed = record {
  view = one_view;
  free = 1 ∷ 2 ∷ [];
  rep = one_bid-StoreRep;
  here = λ i e. one_bid-slot i (sym one_bid-index ∙ e);
}

process_cancel-SoundAt_example : SoundAt (process_cancel 0 11 7 one_engine []).0 0 []
process_cancel-SoundAt_example =
    process_cancel-SoundAt 0 11 7 one_engine one_bid.book [] [] one_engine-book one_bid-Indexed

process_cancel_shares-SoundAt_example :
    SoundAt (process_cancel_shares 0 11 2 7 one_engine []).0 0 []
process_cancel_shares-SoundAt_example =
    process_cancel_shares-SoundAt 0 11 2 7 one_engine one_bid.book [] [] one_engine-book
      one_bid-Indexed

process_replace-SoundAt_example : SoundAt (process_replace 0 11 13 sell 95 4 7 one_engine []).0 0 []
process_replace-SoundAt_example =
    process_replace-SoundAt 0 11 13 95 4 7 sell one_engine one_bid.book [] [] one_engine-book
      one_bid-Indexed (inr refl) (omega arith)

-- A ring whose next byte is the last of the buffer.
abbrev late_ring : SpscByteRing
late_ring = record { tail = 8388607; head = 8388607; buf = λ _. 0 }

push-contents_example :
    ((push late_ring (5 ∷ 6 ∷ [])).0 ≡ min 2 (ring_size - used late_ring))
    × (contents (push late_ring (5 ∷ 6 ∷ [])).1
        ≡ contents late_ring ++ take (push late_ring (5 ∷ 6 ∷ [])).0 (5 ∷ 6 ∷ []))
push-contents_example =
    push-contents late_ring (5 ∷ 6 ∷ []) (omega arith) (omega arith) (omega arith)

abbrev no_event : ItchEvent
no_event = record {
  type = book;
  locate = 0;
  order_ref = 0;
  new_order_ref = 0;
  side = buy;
  price = 0;
  shares = 0;
  user_id = 0;
}

feed-add_example :
    feed
      (add_message 65 300 0 0 0 0 0 0 0 0 99 83 500 65 66 32 32 32 32 32 32 1012500 [])
      no_event
      []
    ≡ (
      true,
      record no_event {
        type = add;
        locate = 300;
        order_ref = 99;
        side = sell;
        shares = 500;
        price = 10125;
      },
      [],
    )
feed-add_example =
    feed-add 300 0 0 0 0 0 0 0 0 99 83 500 65 66 32 32 32 32 32 32 1012500 [] no_event []
      (omega arith) (omega arith) (omega arith) (omega arith)
