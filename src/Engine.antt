-- ===== src/Engine.antt =====
-- include/matching_engine.h, include/trade_pool.h, include/metrics.h and the state of
-- src/matching_engine.cpp. The books share one pool and one index. A handler takes the book of its
-- locate out, works on it, and puts it back; `Env` is what else a handler reads and writes.
pub mod Match
pub mod Add
pub mod Cancel
pub mod Recover
use nebula_x.Base.{
  ℕ, ◌+◌, ◌%◌, Bool, Option, none, some, List, [], ◌∷◌, ◌++◌, update, ltb, add64, ◌==◌,
  if◌then◌else◌,
}
use nebula_x.Pool.{Pool}
use nebula_x.OrderMap.{OrderMap}
use nebula_x.Book.{Book, Store, empty_book}
use nebula_x.Wal.{WalWriter, WalEntry}
use nebula_x.Wal
use nebula_x.Protocol.{BinaryResponse}

-- The counters of the matching thread; the pool's capacity is set once.
pub record IoCounters : Type 0 where
  pub recv_frames : ℕ
  pub new_orders : ℕ
  pub cancels : ℕ
  pub book_queries : ℕ
  pub trades : ℕ
  pub errors : ℕ
  pub order_pool_used : ℕ
  pub order_pool_capacity : ℕ
  pub tick_counter : ℕ

pub record TradeEntry : Type 0 where
  pub trade_id : ℕ
  pub buy_order_id : ℕ
  pub sell_order_id : ℕ
  pub price : ℕ
  pub quantity : ℕ
  pub buyer_id : ℕ
  pub seller_id : ℕ
  pub timestamp : ℕ
  pub seq : ℕ

pub record TradePool : Type 0 where
  pub entries : ℕ → TradeEntry
  pub write_idx : ℕ

abbrev pub trade_capacity : ℕ
trade_capacity = 1048576

-- `none` stands for a null pointer. Each of the two match functions has a static trade counter.
pub record Env : Type 0 where
  pub next_order_id : ℕ
  pub next_sequence : ℕ
  pub metrics : Option IoCounters
  pub wal : Option WalWriter
  pub trade_pool : Option TradePool
  pub buy_trade_id : ℕ
  pub sell_trade_id : ℕ

pub record Engine : Type 0 where
  pub books : ℕ → Option Book
  pub pool : Pool
  pub index : OrderMap
  pub env : Env

abbrev pub max_locate : ℕ
max_locate = 65536

-- The constructors: no book yet, over a given pool and index.
unfoldable pub new_engine : Pool → OrderMap → Option IoCounters → Engine
new_engine pool index metrics = record {
  books = λ _. none;
  pool = pool;
  index = index;
  env = record {
    next_order_id = 1;
    next_sequence = 1;
    metrics = elim metrics [
      | none ↦ none
      | some c ↦ some (record c { order_pool_capacity = pool.capacity })
    ];
    wal = none;
    trade_pool = none;
    buy_trade_id = 0;
    sell_trade_id = 0;
  };
}

-- `book_for`: the book of a locate, a new one at first, `none` past the last locate.
unfoldable pub book_for : Engine → ℕ → Option Book
book_for e locate =
    if ltb locate max_locate
    then elim (e.books locate) [ none ↦ some empty_book | some b ↦ some b ]
    else none

abbrev pub take_out : Engine → Book → Store
take_out e b = record { book = b; pool = e.pool; index = e.index }

abbrev pub put_back : Engine → ℕ → Store → Env → Engine
put_back e locate st env = record {
  books = update e.books locate (some st.book);
  pool = st.pool;
  index = st.index;
  env = env;
}

-- `if (metrics_) …`.
abbrev pub count : (IoCounters → IoCounters) → Env → Env
count f env = record env { metrics = elim env.metrics [ none ↦ none | some c ↦ some (f c) ] }

abbrev pub one_new_order : IoCounters → IoCounters
one_new_order c = record c { new_orders = add64 c.new_orders 1 }

abbrev pub one_cancel : IoCounters → IoCounters
one_cancel c = record c { cancels = add64 c.cancels 1 }

abbrev pub one_query : IoCounters → IoCounters
one_query c = record c { book_queries = add64 c.book_queries 1 }

abbrev pub one_trade : IoCounters → IoCounters
one_trade c = record c { trades = add64 c.trades 1 }

abbrev pub one_error : IoCounters → IoCounters
one_error c = record c { errors = add64 c.errors 1 }

abbrev pub pool_used : ℕ → IoCounters → IoCounters
pool_used n c = record c { order_pool_used = n }

-- `if (wal_) wal_->append(e)`.
abbrev pub log_entry : WalEntry → Env → Env
log_entry entry env = record env {
  wal = elim env.wal [ none ↦ none | some w ↦ some (Wal.append w entry) ];
}

-- `out.emplace_back()` and its fields.
abbrev pub emit : BinaryResponse → List BinaryResponse → List BinaryResponse
emit r out = out ++ (r ∷ [])
