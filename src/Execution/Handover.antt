-- ===== src/Execution/Handover.antt =====
-- From the risk engine to the executor: the order of an approved entry, and what happens if both ask
-- one store.
use nexocrypto.Prelude.{
  Bool-cases, Option, String, [], false, inl, inr, lt→ltb, none, ok, ok_injective, refl, some, true,
  ℕ, ◌<◌, ◌∙◌, ◌≡◌,
}
use nexocrypto.Execution.{
  order_of_qty, OrderRequest, Venue, entry_order, open_position, order_request_from_decision,
}
use nexocrypto.Decimal.{Decimal}
use nexocrypto.Risk.Idempotency.{IdempotencyStore, expiry}
use nexocrypto.Risk.Engine.{EntryRequest, authorize_new_entry, idempotency_ttl_seconds}
use nexocrypto.Execution.Safety.{open_position_sends}
use nexocrypto.Risk.Engine.Approval.{authorize-IsAuthorized}
use mathlib.Core.Path.{subst}
use nexocrypto.Shared.{Hashing, Mode, Side, TradeDecision}

-- What an order takes over from its decision: it is an entry for the whole quantity that was decided,
-- under the decision's key.
pub record IsOrderOf (d : TradeDecision) (pair : String) (side : Side) (req : OrderRequest)
    : Type 0 where
  pub approved_lem : d.approved ≡ true
  pub qty_lem : d.intended_qty ≡ some req.qty
  pub key_lem : req.idempotency_key ≡ d.idempotency_key
  pub leverage_lem : req.leverage ≡ d.intended_leverage
  pub stop_lem : req.stop_loss_price ≡ d.intended_stop_loss
  pub entry_lem : req.reduce_only ≡ false
  pub pair_lem : req.pair ≡ pair
  pub side_lem : req.side ≡ side

entry_order-IsOrderOf :
    (d : TradeDecision) (pair : String) (side : Side) (qty : Decimal)
    → d.approved ≡ true
    → d.intended_qty ≡ some qty
    → IsOrderOf d pair side (entry_order d pair side qty)
unfolding entry_order
entry_order-IsOrderOf d pair side qty h e = record {
  approved_lem = h;
  qty_lem = e;
  key_lem = refl;
  leverage_lem = refl;
  stop_lem = refl;
  entry_lem = refl;
  pair_lem = refl;
  side_lem = refl;
}

order_of_qty-IsOrderOf :
    (d : TradeDecision) (pair : String) (side : Side) (o : Option Decimal) (req : OrderRequest)
    → d.intended_qty ≡ o
    → order_of_qty d pair side o ≡ ok req
    → IsOrderOf d pair side req
unfolding order_of_qty entry_order
order_of_qty-IsOrderOf d pair side none req e h = cc
order_of_qty-IsOrderOf d pair side (some qty) req e h = elim (Bool-cases d.approved) [
  | inl was_approved ↦
      subst (IsOrderOf d pair side) (ok_injective (rw was_approved at h))
        (entry_order-IsOrderOf d pair side qty was_approved e)
  | inr refused ↦ cc (rw refused at h)
]

-- A decision that becomes an order is approved and has the order's quantity, and the order carries its
-- key, leverage and stop, for the given pair and side, and is no reduce-only order.
pub order_request-IsOrderOf :
    (d : TradeDecision) (pair : String) (side : Side) (req : OrderRequest)
    → order_request_from_decision d pair side ≡ ok req
    → IsOrderOf d pair side req
unfolding order_request_from_decision
order_request-IsOrderOf d pair side req h =
    order_of_qty-IsOrderOf d pair side d.intended_qty req refl h

module _ (hashing : Hashing) (store : IdempotencyStore) (venue : Venue) where
  open store use {State, is_claimed}

  -- If an entry's authorization returns a decision, the order of that decision is not sent on the same
  -- store before the window of 60 seconds has passed, in any mode: the authorization holds its key.
  pub shared_store_drops :
      (r : EntryRequest) (s s' : State) (d : TradeDecision) (pair : String) (side : Side)
      (req : OrderRequest) (clock : ℕ) (mode : Mode)
      → authorize_new_entry hashing store r s ≡ ok (d, s')
      → order_request_from_decision d pair side ≡ ok req
      → clock < expiry r.clock idempotency_ttl_seconds
      → (open_position store venue clock mode req s').sent ≡ []
  shared_store_drops r s s' d pair side req clock mode e order soon =
      let is_order = order_request-IsOrderOf d pair side req order in
      let auth = authorize-IsAuthorized hashing store r s d s' e is_order.approved_lem in
      let held = auth.claimed clock ∙ lt→ltb clock _ soon in
      elim (open_position_sends store venue clock mode req s') [
        | inl (may, went) ↦ cc (may.2, held, is_order.key_lem, auth.key)
        | inr (not_may, kept) ↦ kept.0
      ]
