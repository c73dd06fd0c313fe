-- ===== src/Tests/Answers.antt =====
-- The theorems on quotes, answers, discarded remainders, the log, the ring and new pools at small
-- inputs.
use nebula_x.Base.{
  ℕ, ◌+◌, ◌%◌, ◌^◌, ◌<◌, ◌≤◌, ◌≡◌, ◌≢◌, ◌⊎◌, refl, inl, [], ◌∷◌, ◌++◌, arith, length, min, get_or,
}
use nebula_x.Order.{buy, sell, default_order}
use nebula_x.Pool.{new_pool}
use nebula_x.Pool.Free.{IsPool}
use nebula_x.Pool.Fresh.{slots_from, new_pool-IsPool}
use nebula_x.Book.{slot, available_qty, get_top_of_book}
use nebula_x.Book.Rep.{qty_of}
use nebula_x.Book.Invariant.{StoreRep, chains, leave}
use nebula_x.Book.Quote.{eligible, quote, available_qty-eligible, get_top_of_book-quote}
use nebula_x.Protocol.{ioc, rsp_ok, rsp_cancelled, rsp_error, order_not_found}
use nebula_x.Wal.{WalEntry, WalWriter, wal_entries, cur_position}
use nebula_x.Wal.Kept.{append_all, append_all-kept}
use nebula_x.Ring.{SpscByteRing, used, pop}
use nebula_x.Ring.Bytes.{contents}
use nebula_x.Ring.Pop.{Fits, pop-contents}
use nebula_x.Engine.Add.{Request, process_add}
use nebula_x.Engine.Add.Discards.{SideKept, process_add-SideKept}
use nebula_x.Engine.Cancel.{cancel_in, cancel_shares_in}
use nebula_x.Engine.Cancel.Answers.{cancel_in-answer, cancel_shares_in-answer}
use nebula_x.Tests.{one_bid, one_view, one_bid-StoreRep, one_bid-index, one_bid-slot}
use nebula_x.Tests.Engines.{plain_env, one_engine, one_engine-book}

available_qty-eligible_example :
    available_qty one_bid sell 90
    ≡ qty_of one_bid.pool.storage (eligible sell 90 (chains buy one_view)) % 2 ^ 32
available_qty-eligible_example =
    available_qty-eligible one_bid one_view (1 ∷ 2 ∷ []) [] sell 90 one_bid-StoreRep (inl refl)

get_top_of_book-quote_example : get_top_of_book one_bid.book ≡ record {
  bid_price = (quote one_bid.pool.storage one_view.bids).0;
  bid_volume = (quote one_bid.pool.storage one_view.bids).1;
  ask_price = (quote one_bid.pool.storage one_view.asks).0;
  ask_volume = (quote one_bid.pool.storage one_view.asks).1;
}
get_top_of_book-quote_example =
    get_top_of_book-quote one_bid one_view (1 ∷ 2 ∷ []) [] one_bid-StoreRep

-- A seller's request that takes what there is and discards the rest.
abbrev ioc_ask : Request
ioc_ask = record {
  locate = 0;
  order_ref = 12;
  side = sell;
  price = 90;
  quantity = 8;
  user_id = 8;
  tif = ioc;
}

process_add-SideKept_example : SideKept (process_add ioc_ask one_engine []).0 0 sell one_view []
process_add-SideKept_example =
    process_add-SideKept ioc_ask one_engine one_bid.book one_view (1 ∷ 2 ∷ []) [] [] one_engine-book
      one_bid-StoreRep refl

cancel_in-answer_example :
    (((slot one_bid 0).user_id ≡ 7)
      × StoreRep
          (cancel_in 11 7 [] one_bid plain_env).0
          (leave (slot one_bid 0).side (slot one_bid 0).price 0 one_view)
          (0 ∷ 1 ∷ 2 ∷ [])
          []
      × ((cancel_in 11 7 [] one_bid plain_env).2 ≡ [] ++ rsp_cancelled 11 ∷ []))
    ⊎ (((slot one_bid 0).user_id ≢ 7)
        × ((cancel_in 11 7 [] one_bid plain_env).0 ≡ one_bid)
        × ((cancel_in 11 7 [] one_bid plain_env).2 ≡ [] ++ rsp_error order_not_found ∷ []))
cancel_in-answer_example =
    cancel_in-answer one_bid one_view (1 ∷ 2 ∷ []) [] 11 0 one_bid-StoreRep one_bid-index
      (one_bid-slot 0 refl).0 (one_bid-slot 0 refl).1 7 [] plain_env

cancel_shares_in-answer_example :
    (((slot one_bid 0).user_id ≢ 7)
      × ((cancel_shares_in 11 2 7 [] one_bid plain_env).0 ≡ one_bid)
      × ((cancel_shares_in 11 2 7 [] one_bid plain_env).2 ≡ [] ++ rsp_error order_not_found ∷ []))
    ⊎ ((((slot one_bid 0).user_id ≡ 7)
          × ((slot one_bid 0).remaining_qty ≤ 2)
          × StoreRep
              (cancel_shares_in 11 2 7 [] one_bid plain_env).0
              (leave (slot one_bid 0).side (slot one_bid 0).price 0 one_view)
              (0 ∷ 1 ∷ 2 ∷ [])
              []
          × ((cancel_shares_in 11 2 7 [] one_bid plain_env).2 ≡ [] ++ rsp_cancelled 11 ∷ []))
        ⊎ (((slot one_bid 0).user_id ≡ 7)
            × (2 < (slot one_bid 0).remaining_qty)
            × StoreRep (cancel_shares_in 11 2 7 [] one_bid plain_env).0 one_view (1 ∷ 2 ∷ []) []
            × ((cancel_shares_in 11 2 7 [] one_bid plain_env).2 ≡ [] ++ rsp_ok 11 ∷ [])))
cancel_shares_in-answer_example =
    cancel_shares_in-answer one_bid one_view (1 ∷ 2 ∷ []) [] 11 0 one_bid-StoreRep one_bid-index
      (one_bid-slot 0 refl).0 (one_bid-slot 0 refl).1 2 7 [] plain_env

abbrev entry : ℕ → WalEntry
entry seq = record {
  type = 2;
  side = 0;
  locate = 0;
  price = 0;
  quantity = 0;
  user_id = 7;
  order_id = 11;
  wal_seq = seq;
}

-- A log whose next entry is the last before it comes round.
abbrev late_log : WalWriter
late_log = record { base = λ _. entry 0; total = 13421771 }

append_all-kept_example :
    ((append_all late_log (entry 1 ∷ entry 2 ∷ [])).base ((13421771 + 1) % wal_entries)
      ≡ get_or (entry 1 ∷ entry 2 ∷ []) 1 (entry 0))
    × (cur_position (append_all late_log (entry 1 ∷ entry 2 ∷ [])) ≡ (13421771 + 2) % wal_entries)
append_all-kept_example =
    append_all-kept late_log (entry 1 ∷ entry 2 ∷ []) 1 (entry 0) (omega arith) (omega arith)
      (omega arith)

new_pool-IsPool_example : IsPool (new_pool (λ _. default_order) 3) (slots_from 0 3)
new_pool-IsPool_example = new_pool-IsPool (λ _. default_order) 3 (omega arith) (omega arith)

-- Three bytes across the end of the buffer.
abbrev wrapped_ring : SpscByteRing
wrapped_ring = record { tail = 8388609; head = 8388606; buf = λ i. i % 256 }

wrapped_ring-Fits : Fits wrapped_ring
wrapped_ring-Fits = record {
  head_word = omega arith;
  tail_word = omega arith;
  bounded = omega arith;
}

pop-contents_example :
    ((pop wrapped_ring 3).0 ++ contents (pop wrapped_ring 3).1 ≡ contents wrapped_ring)
    × (length (pop wrapped_ring 3).0 ≡ min 3 (used wrapped_ring))
pop-contents_example = pop-contents wrapped_ring 3 wrapped_ring-Fits
