-- ===== src/Wal.antt =====
-- include/wal.h and src/wal.cpp: the ring of log entries in a mapped file. The file system and the
-- mapping are arguments: the length of the file, and the entries that it holds.
pub mod Kept
use nebula_x.Base.{
  ℕ, ◌/◌, ◌%◌, Bool, Option, none, some, ltb, ◌==◌, ◌&&◌, if◌then◌else◌, update, add64,
}

pub record WalEntry : Type 0 where
  pub type : ℕ
  pub side : ℕ
  pub locate : ℕ
  pub price : ℕ
  pub quantity : ℕ
  pub user_id : ℕ
  pub order_id : ℕ
  pub wal_seq : ℕ

-- 512 MB over entries of 40 bytes.
abbrev pub wal_size : ℕ
wal_size = 536870912

abbrev pub wal_entries : ℕ
wal_entries = 13421772

abbrev pub entry_size : ℕ
entry_size = 40

pub record WalWriter : Type 0 where
  pub base : ℕ → WalEntry
  pub total : ℕ

-- `init` on a file of `sz` bytes: an empty file is cut to size, another one sets the total.
unfoldable pub init : (ℕ → WalEntry) → ℕ → WalWriter
init file sz = record {
  base = file;
  total =
      if sz == 0
      then 0
      else if ltb wal_entries (sz / entry_size)
      then wal_entries
      else sz / entry_size;
}

unfoldable pub append : WalWriter → WalEntry → WalWriter
append w e = record { base = update w.base (w.total % wal_entries) e; total = add64 w.total 1 }

unfoldable pub need_checkpoint : WalWriter → Bool
need_checkpoint w = ltb 0 w.total && (w.total % wal_entries == 0)

unfoldable pub cur_position : WalWriter → ℕ
cur_position w = w.total % wal_entries

pub record WalReader : Type 0 where
  pub entries : ℕ → WalEntry
  pub count : ℕ

-- `none` for a file that is too short for one entry.
unfoldable pub open_reader : (ℕ → WalEntry) → ℕ → Option WalReader
open_reader file sz =
    if ltb sz entry_size
    then none
    else some (record {
      entries = file;
      count = if ltb wal_entries (sz / entry_size) then wal_entries else sz / entry_size;
    })

unfoldable pub entry_at : WalReader → ℕ → Option WalEntry
entry_at r i = if ltb i r.count then some (r.entries i) else none
