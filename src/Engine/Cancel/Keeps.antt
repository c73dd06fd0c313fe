-- ===== src/Engine/Cancel/Keeps.antt =====
-- The cancelling handlers keep the invariant of the book they work on, on every branch, where the
-- index leads to an order of that book.
use mathlib.Core.Path.{subst}
use nebula_x.Base.{
  ℕ, ◌^◌, ◌<◌, ◌≡◌, refl, sym, ◌∙◌, inl, inr, true, some, List, ◌∷◌, arith, ◌==◌, ==_refl, leb,
  add64, has, Bool-cases, Option-cases,
}
use nebula_x.Order.{Side}
use nebula_x.OrderMap.{find}
use nebula_x.Book.{Book, Store, slot, remove_order, remove_slot, find_order}
use nebula_x.Book.Rep.{chain_at}
use nebula_x.Book.AddOrder.{IsSide}
use nebula_x.Book.Invariant.{View, StoreRep, chains, leave}
use nebula_x.Book.RemoveOrder.{remove_slot-StoreRep}
use nebula_x.Book.Quantity.{reduce_qty_cancel-StoreRep}
use nebula_x.Protocol.{BinaryResponse}
use nebula_x.Engine.{Engine, Env, take_out, book_for, count, one_cancel, log_entry}
use nebula_x.Wal.{WalEntry}
use nebula_x.Engine.Match.{Match, match_order}
use nebula_x.Engine.Match.Loop.{Ended, match_order-Ended}
use nebula_x.Engine.Match.Limit.{Filled, match_order-Filled}
use nebula_x.Engine.Add.{is_filled}
use nebula_x.Engine.Add.Keeps.{Sound, SoundAt, rest_order-Sound, book_for-env}
use nebula_x.Engine.Cancel.{
  entry_of, with_book, cancel_in, cancel_shares_in, replace_in, replace_slot, replacement,
  process_cancel, process_cancel_shares, process_replace,
}

-- The book is sound, and what the index holds of a reference is an order that rests in this book.
pub record Indexed (st : Store) (ref : ℕ) (others : List ℕ) : Type 0 where
  pub view : View
  pub free : List ℕ
  pub rep : StoreRep st view free others
  pub here :
      (i : ℕ)
      → find st.index ref ≡ some i
      → IsSide (slot st i).side
        × (has i (chain_at (slot st i).price (chains (slot st i).side view)) ≡ true)

module _ (st : Store) (ref : ℕ) (others : List ℕ) (h : Indexed st ref others) where
  as_is : Sound st others
  as_is = record { view = h.view; free = h.free; rep = h.rep }

  removed_slot : (i : ℕ) → find st.index ref ≡ some i → Sound (remove_slot st i) others
  removed_slot i e =
      let at = h.here i e in
      record {
        view = leave (slot st i).side (slot st i).price i h.view;
        free = i ∷ h.free;
        rep =
            remove_slot-StoreRep st h.view h.free others (slot st i).side (slot st i).price i h.rep
              at.0 at.1;
      }

  cancel_in-Sound :
      (user : ℕ) (out : List BinaryResponse) (env : Env)
      → Sound (cancel_in ref user out st env).0 others
  unfolding cancel_in remove_order
  cancel_in-Sound user out env = elim (Option-cases (find st.index ref)) [
    | inl e ↦ rw (cancel_in, remove_order, e) as_is
    | inr (i, e) ↦ elim (Bool-cases ((slot st i).user_id == user)) [
      | inl u ↦ rw (cancel_in, remove_order, e, u) (removed_slot i e)
      | inr u ↦ rw (cancel_in, remove_order, e, u) as_is
    ]
  ]

  cancel_shares_in-Sound :
      (shares user : ℕ) (out : List BinaryResponse) (env : Env)
      → Sound (cancel_shares_in ref shares user out st env).0 others
  unfolding cancel_shares_in find_order
  cancel_shares_in-Sound shares user out env = elim (Option-cases (find st.index ref)) [
    | inl e ↦ rw (cancel_shares_in, find_order, e) as_is
    | inr (i, e) ↦ elim (Bool-cases ((slot st i).user_id == user)) [
      | inl u ↦ elim (Bool-cases (leb (slot st i).remaining_qty shares)) [
        | inl all ↦ rw (cancel_shares_in, find_order, e, u, all) (removed_slot i e)
        | inr part ↦
            rw (cancel_shares_in, find_order, e, u, part)
              (record {
                view = h.view;
                free = h.free;
                rep =
                    reduce_qty_cancel-StoreRep st h.view h.free others (slot st i).side
                      (slot st i).price i shares h.rep (h.here i e).0 (h.here i e).1 (ground arith);
              })
      ]
      | inr u ↦ rw (cancel_shares_in, find_order, e, u) as_is
    ]
  ]

  replace_slot-Sound :
      (i loc new_ref price quantity : ℕ) (side : Side) (out : List BinaryResponse) (env : Env)
      → find st.index ref ≡ some i
      → IsSide side
      → quantity < 2 ^ 32
      → Sound (replace_slot i loc new_ref side price quantity out st env).0 others
  unfolding replace_slot replacement
  replace_slot-Sound i loc new_ref price quantity side out env e valid word =
      elim (Bool-cases (is_filled (match_order side loc m).order.status)) [
        | inl z ↦ rw (replace_slot, z) sound
        | inr z ↦
            rw (replace_slot, z)
              (rest_order-Sound new_ref (match_order side loc m) others sound
                (subst IsSide (sym fill.side_kept) valid) (omega (arith, fill.left, word)))
      ]
    where
      m : Match
      m = record {
        store = remove_slot st i;
        order = replacement new_ref side price quantity env.next_sequence;
        env = record env { next_sequence = add64 env.next_sequence 1 };
        out = out;
      }

      begun : Sound (remove_slot st i) others
      begun = removed_slot i e

      ended : Ended side (match_order side loc m) begun.view others
      ended = match_order-Ended side loc m begun.view begun.free others begun.rep valid

      sound : Sound (match_order side loc m).store others
      sound = record { view = ended.view; free = ended.free; rep = ended.rep }

      fill : Filled side m (match_order side loc m)
      fill = match_order-Filled side loc m (omega (arith, word))

  replace_in-Sound :
      (loc new_ref price quantity user : ℕ) (side : Side) (out : List BinaryResponse) (env : Env)
      → IsSide side
      → quantity < 2 ^ 32
      → Sound (replace_in loc ref new_ref side price quantity user out st env).0 others
  unfolding replace_in find_order
  replace_in-Sound loc new_ref price quantity user side out env valid word =
      elim (Option-cases (find st.index ref)) [
        | inl e ↦ rw (replace_in, find_order, e) as_is
        | inr (i, e) ↦ elim (Bool-cases ((slot st i).user_id == user)) [
          | inl u ↦
              rw (replace_in, find_order, e, u)
                (replace_slot-Sound i loc new_ref price quantity side out env e valid word)
          | inr u ↦ rw (replace_in, find_order, e, u) as_is
        ]
      ]

with_book-SoundAt :
    (loc : ℕ) (entry : ℕ → WalEntry) (e : Engine) (b : Book) (out : List BinaryResponse)
    (others : List ℕ) (body : Store → Env → Store × Env × List BinaryResponse)
    → book_for e loc ≡ some b
    → ((env : Env) → Sound (body (take_out e b) env).0 others)
    → SoundAt (with_book loc entry e out body).0 loc others
with_book-SoundAt loc entry e b out others body at keeps =
    let env = count one_cancel e.env in
    rw (with_book, book_for-env e env loc ∙ at)
      (record {
        book = (body (take_out e b) (log_entry (entry env.next_sequence) env)).0.book;
        there = rw (==_refl loc) refl;
        sound = keeps (log_entry (entry env.next_sequence) env);
      })

-- Where the book of the locate is there and well formed and what the index holds for the reference,
-- if anything, is the slot of an order that rests in that book: whatever comes of processCancel,
-- the book is well formed afterwards.
pub process_cancel-SoundAt :
    (loc ref user : ℕ) (e : Engine) (b : Book) (out : List BinaryResponse) (others : List ℕ)
    → book_for e loc ≡ some b
    → Indexed (take_out e b) ref others
    → SoundAt (process_cancel loc ref user e out).0 loc others
unfolding process_cancel
process_cancel-SoundAt loc ref user e b out others at h =
    with_book-SoundAt loc (entry_of 0x02 loc 0 0 user ref) e b out others (cancel_in ref user out)
      at (cancel_in-Sound (take_out e b) ref others h user out)

-- Where the book of the locate is there and well formed and what the index holds for the reference,
-- if anything, is the slot of an order that rests in that book: whatever comes of
-- processCancelShares, the book is well formed afterwards.
pub process_cancel_shares-SoundAt :
    (loc ref shares user : ℕ) (e : Engine) (b : Book) (out : List BinaryResponse) (others : List ℕ)
    → book_for e loc ≡ some b
    → Indexed (take_out e b) ref others
    → SoundAt (process_cancel_shares loc ref shares user e out).0 loc others
unfolding process_cancel_shares
process_cancel_shares-SoundAt loc ref shares user e b out others at h =
    with_book-SoundAt loc (entry_of 0x03 loc 0 shares user ref) e b out others
      (cancel_shares_in ref shares user out) at
      (cancel_shares_in-Sound (take_out e b) ref others h shares user out)

-- Where the book of the locate is there and well formed and what the index holds for the old
-- reference, if anything, is the slot of an order that rests in that book: whatever comes of
-- processReplace for a buy or sell side and a quantity below 2^32, the book is well formed
-- afterwards.
pub process_replace-SoundAt :
    (loc old_ref new_ref price quantity user : ℕ) (side : Side) (e : Engine) (b : Book)
    (out : List BinaryResponse) (others : List ℕ)
    → book_for e loc ≡ some b
    → Indexed (take_out e b) old_ref others
    → IsSide side
    → quantity < 2 ^ 32
    → SoundAt (process_replace loc old_ref new_ref side price quantity user e out).0 loc others
unfolding process_replace
process_replace-SoundAt loc old_ref new_ref price quantity user side e b out others at h valid
      word =
    with_book-SoundAt loc (entry_of 0x04 loc price quantity user new_ref) e b out others
      (replace_in loc old_ref new_ref side price quantity user out) at
      (λ env.
        replace_in-Sound (take_out e b) old_ref others h loc new_ref price quantity user side out
          env valid word)
