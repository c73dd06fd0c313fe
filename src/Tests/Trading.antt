-- ===== src/Tests/Trading.antt =====
-- The theorems on the trading protocol at small orders.
use nebula_x.Base.{
  ℕ, ◌/◌, ◌%◌, ◌≡◌, refl, List, [], ◌∷◌, ◌++◌, arith, none, some, true, take, length, has, update,
  if◌then◌else◌, ◌==◌, lookup, put, inl,
}
use nebula_x.Order.{Order, buy, default_order}
use nebula_x.OrderMap.{
  new_order_map, round_pow2, round_pow2_loop, ctz, thread_nodes, hash, alloc_node, treeify, insert,
  insert_linked, link_node, find, find_walk,
}
use nebula_x.Pool.{allocate}
use nebula_x.Book.{Store, slot, add_order, add_allocated, append_order, link_slot}
use nebula_x.Book.Rep.{chain_at}
use nebula_x.Book.AddOrder.{IsSide, add_order-StoreRep}
use nebula_x.Book.Invariant.{View, StoreRep, enter, leave, chains}
use nebula_x.Engine.{book_for, take_out}
use nebula_x.Engine.Cancel.{cancel_in}
use nebula_x.Ouch.{
  decode_enter, encode_accepted, encode_executed, encode_canceled, encode_rejected, copies,
  sum_bytes, padded, decimal,
}
use nebula_x.Ouch.Enter.{enter_message, decode_enter-message}
use nebula_x.Ouch.Answers.{Head, Sealed, answers-Head}
use nebula_x.Trade.{TradeServer, new_server, ref_for, handle_client, handle_cancel}
use nebula_x.Trade.Refs.{IsRefTable, Referred, ref_for-Referred}
use nebula_x.Trade.Stream.{Order49, Valid, wire, wires, enters, handle_client-enters}
use nebula_x.Trade.Orders.{cancel_bytes, handle_cancel_rests}
use nebula_x.Tests.{empty_store, empty_view, empty_store-StoreRep}
use nebula_x.Tests.Engines.{plain_env, one_engine}

abbrev tail_bytes : List ℕ
tail_bytes = copies 13 78

decode_enter-message_example : decode_enter (enter_message 42 66 5 0 10000 68 tail_bytes 7) ≡ (
    if 7 == sum_bytes (take 48 (enter_message 42 66 5 0 10000 68 tail_bytes 7)) % 256
    then some (record {
      order_id = 42;
      side = 66;
      shares = 5;
      symbol_id = 0;
      price = 10000 / 100;
      tif = 68;
    })
    else none)
decode_enter-message_example =
    decode_enter-message 42 66 5 0 10000 68 tail_bytes 7 (omega arith) (omega arith) (omega arith)
      (omega arith) refl

answers-Head_example :
    (let a = encode_accepted 3 42 66 5 0 (λ _. 0) in Head a 65 3 42 66 × Sealed a 38)
    × (let e = encode_executed 3 42 66 5 100 2 99 (λ _. 0) in Head e 69 3 42 66 × Sealed e 41)
    × (let c = encode_canceled 3 42 66 5 0 (λ _. 0) in Head c 67 3 42 66 × Sealed c 38)
    × (let j = encode_rejected 3 42 66 (70 ∷ []) (λ _. 0) in Head j 74 3 42 66 × Sealed j 35)
answers-Head_example =
    answers-Head (λ _. 0) 3 42 66 5 0 100 2 99 (70 ∷ []) (omega arith) (omega arith)

abbrev exchange : TradeServer
exchange = new_server one_engine

exchange-IsRefTable : IsRefTable exchange
unfolding lookup
exchange-IsRefTable = record { given = λ i r e. absurd cc; apart = λ i j r e k. absurd cc }

ref_for-Referred_example : Referred 42 exchange (ref_for 42 exchange)
ref_for-Referred_example = ref_for-Referred 42 exchange exchange-IsRefTable (omega arith)

abbrev unsealed : Order49
unsealed = record {
  order_id = 42;
  side = 83;
  shares = 5;
  symbol_id = 0;
  price = 10000;
  tif = 68;
  others = tail_bytes;
  last = 0;
}

abbrev sell_five : Order49
sell_five = record unsealed { last = sum_bytes (take 48 (wire unsealed)) % 256 }

sell_five-Valid : Valid sell_five
unfolding padded decimal
sell_five-Valid = record {
  id_fits = omega arith;
  shares_fit = omega arith;
  symbol_fits = omega arith;
  price_fits = omega arith;
  size = refl;
  sum = refl;
}

handle_client-enters_example :
    handle_client (length (wires (sell_five ∷ []))) (wires (sell_five ∷ [])) exchange
    ≡ enters (sell_five ∷ []) exchange
handle_client-enters_example = handle_client-enters (sell_five ∷ []) exchange (sell_five-Valid, tt)

-- An order whose user is its id, as this server enters them.
abbrev own : Order
own = record default_order {
  user_id = 11;
  order_id = 11;
  side = buy;
  price = 100;
  original_qty = 5;
  remaining_qty = 5;
}

abbrev one_own : Store
one_own = (add_order empty_store own).1

abbrev own_view : View
own_view = enter own 0 empty_view

one_own-StoreRep : StoreRep one_own own_view (1 ∷ 2 ∷ []) []
one_own-StoreRep =
    (add_order-StoreRep empty_store own empty_view 0 (1 ∷ 2 ∷ []) [] empty_store-StoreRep (inl refl)
      (omega arith)).1

abbrev own_exchange : TradeServer
own_exchange =
    record (new_server (record {
      books = update (λ _. none) 0 (some one_own.book);
      pool = one_own.pool;
      index = one_own.index;
      env = plain_env;
    })) { order_locate = (11, 0) ∷ [] }

own_routed : lookup 11 own_exchange.order_locate ≡ some 0
unfolding lookup
own_routed = refl

own_book : book_for own_exchange.engine 0 ≡ some one_own.book
unfolding book_for
own_book = refl

own_index : find one_own.index 11 ≡ some 0
unfolding add_order add_allocated append_order allocate new_order_map round_pow2 round_pow2_loop ctz
    thread_nodes hash alloc_node treeify insert insert_linked link_node find find_walk
own_index = refl

own_slot :
    ((slot one_own 0).user_id ≡ 11)
    × IsSide (slot one_own 0).side
    × (has 0 (chain_at (slot one_own 0).price (chains (slot one_own 0).side own_view)) ≡ true)
unfolding put lookup add_order add_allocated append_order allocate link_slot
own_slot = (refl, inl refl, refl)

handle_cancel_rests_example :
    ((handle_cancel 11 0 own_exchange).sent
      ≡ [] ++ cancel_bytes (ref_for 11 own_exchange).0 11 0 ∷ [])
    × StoreRep
        (take_out
          (handle_cancel 11 0 own_exchange).engine
          (cancel_in 11 11 [] one_own plain_env).0.book)
        (leave (slot one_own 0).side (slot one_own 0).price 0 own_view)
        (0 ∷ 1 ∷ 2 ∷ [])
        []
    × ((handle_cancel 11 0 own_exchange).engine.books 0
        ≡ some (cancel_in 11 11 [] one_own plain_env).0.book)
handle_cancel_rests_example =
    handle_cancel_rests 11 0 0 0 own_exchange one_own.book own_view (1 ∷ 2 ∷ []) [] own_routed
      own_book one_own-StoreRep own_index own_slot.0 own_slot.1 own_slot.2
