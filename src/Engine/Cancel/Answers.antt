-- ===== src/Engine/Cancel/Answers.antt =====
-- What the cancelling handlers answer, and what they do to the queues, for an order that rests.
use nebula_x.Base.{
  ℕ, ◌<◌, ◌≤◌, ◌≡◌, ◌≢◌, refl, ◌⊎◌, inl, inr, true, some, List, [], ◌∷◌, ◌++◌, arith, ◌==◌, has,
  leb, Bool-cases, eq_of_==, ne_of_==,
}
use nebula_x.OrderMap.{find}
use nebula_x.Book.{Store, slot, remove_order, remove_slot, find_order}
use nebula_x.Book.Rep.{chain_at}
use nebula_x.Book.AddOrder.{IsSide}
use nebula_x.Book.Invariant.{View, StoreRep, chains, leave}
use nebula_x.Book.RemoveOrder.{remove_slot-StoreRep}
use nebula_x.Book.Quantity.{reduce_qty_cancel-StoreRep}
use nebula_x.Protocol.{BinaryResponse, rsp_ok, rsp_cancelled, rsp_error, order_not_found}
use nebula_x.Engine.{Env}
use nebula_x.Engine.Cancel.{cancel_in, cancel_shares_in}

module _ (st : Store) (v : View) (free others : List ℕ) (ref i : ℕ) (r : StoreRep st v free others)
    (found : find st.index ref ≡ some i) (valid : IsSide (slot st i).side)
    (there : has i (chain_at (slot st i).price (chains (slot st i).side v)) ≡ true) where
  gone :
      StoreRep (remove_slot st i) (leave (slot st i).side (slot st i).price i v) (i ∷ free) others
  gone = remove_slot-StoreRep st v free others (slot st i).side (slot st i).price i r valid there

  -- A cancel of a resting order, on a well-formed book: its owner gets it out of its queue and the
  -- answer CANCELLED; anyone else gets ORDER_NOT_FOUND, and nothing changes.
  pub cancel_in-answer :
      (user : ℕ) (out : List BinaryResponse) (env : Env)
      → (((slot st i).user_id ≡ user)
          × StoreRep
              (cancel_in ref user out st env).0
              (leave (slot st i).side (slot st i).price i v)
              (i ∷ free)
              others
          × ((cancel_in ref user out st env).2 ≡ out ++ rsp_cancelled ref ∷ []))
        ⊎ (((slot st i).user_id ≢ user)
            × ((cancel_in ref user out st env).0 ≡ st)
            × ((cancel_in ref user out st env).2 ≡ out ++ rsp_error order_not_found ∷ []))
  unfolding cancel_in remove_order
  cancel_in-answer user out env = elim (Bool-cases ((slot st i).user_id == user)) [
    | inl u ↦ inl (
      eq_of_== (slot st i).user_id user u,
      rw (cancel_in, remove_order, found, u) gone,
      rw (cancel_in, remove_order, found, u) refl,
    )
    | inr u ↦ inr (
      ne_of_== (slot st i).user_id user u,
      rw (cancel_in, remove_order, found, u) refl,
      rw (cancel_in, remove_order, found, u) refl,
    )
  ]

  -- A cancel of shares of a resting order, on a well-formed book. Anyone but its owner gets
  -- ORDER_NOT_FOUND, and nothing changes. For the owner, no fewer shares than are left take the
  -- order out of its queue and answer CANCELLED; fewer keep every queue and answer OK.
  pub cancel_shares_in-answer :
      (shares user : ℕ) (out : List BinaryResponse) (env : Env)
      → (((slot st i).user_id ≢ user)
          × ((cancel_shares_in ref shares user out st env).0 ≡ st)
          × ((cancel_shares_in ref shares user out st env).2
              ≡ out ++ rsp_error order_not_found ∷ []))
        ⊎ ((((slot st i).user_id ≡ user)
              × ((slot st i).remaining_qty ≤ shares)
              × StoreRep
                  (cancel_shares_in ref shares user out st env).0
                  (leave (slot st i).side (slot st i).price i v)
                  (i ∷ free)
                  others
              × ((cancel_shares_in ref shares user out st env).2 ≡ out ++ rsp_cancelled ref ∷ []))
            ⊎ (((slot st i).user_id ≡ user)
                × (shares < (slot st i).remaining_qty)
                × StoreRep (cancel_shares_in ref shares user out st env).0 v free others
                × ((cancel_shares_in ref shares user out st env).2 ≡ out ++ rsp_ok ref ∷ [])))
  unfolding cancel_shares_in find_order
  cancel_shares_in-answer shares user out env = elim (Bool-cases ((slot st i).user_id == user)) [
    | inr u ↦ inl (
      ne_of_== (slot st i).user_id user u,
      rw (cancel_shares_in, find_order, found, u) refl,
      rw (cancel_shares_in, find_order, found, u) refl,
    )
    | inl u ↦ elim (Bool-cases (leb (slot st i).remaining_qty shares)) [
      | inl all ↦ inr (
          inl (
            eq_of_== (slot st i).user_id user u,
            ground arith,
            rw (cancel_shares_in, find_order, found, u, all) gone,
            rw (cancel_shares_in, find_order, found, u, all) refl,
          ))
      | inr part ↦ inr (
          inr (
            eq_of_== (slot st i).user_id user u,
            ground arith,
            rw (cancel_shares_in, find_order, found, u, part)
                (reduce_qty_cancel-StoreRep st v free others (slot st i).side (slot st i).price i
                  shares r valid there (ground arith)),
            rw (cancel_shares_in, find_order, found, u, part) refl,
          ))
    ]
  ]
