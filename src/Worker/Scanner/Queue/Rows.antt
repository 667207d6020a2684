-- ===== src/Worker/Scanner/Queue/Rows.antt =====
-- What the rows of one decision of the scanner add to the approvals of the store.
use nexocrypto.Prelude.{
  Bool, ◌⊎◌, false, arith, Bool-cases, refl, ◌&&◌, Option, ◌++◌, ◌≡◌, none, some, [], ◌∷◌, inl, inr,
  true,
}
use nexocrypto.Api.State.{Approval, Store}
use nexocrypto.Api.Signals.{add_parsed_signal, add_validated_signal}
use nexocrypto.Api.Approvals.{add_approval, unless_zero}
use nexocrypto.Worker.Scanner.{persist}
use nexocrypto.Shared.{
  Signal, backtest, breakeven_protection, full_auto, manual_override, paper, Mode, TradeDecision,
  Uuid, is_semi_auto, semi_auto,
}

-- The approval of a decision on a signal: pending, under the signal's key, of the user, with the signal's prices
-- and the decision's quantity.
pub record IsApprovalOf (user : Uuid) (sig : Signal) (d : TradeDecision) (a : Approval)
    : Type 0 where
  pub pending : a.status ≡ "pending"
  pub owner : a.user_id ≡ user
  pub of_signal : a.signal_id ≡ sig.id
  pub own_key : a.idempotency_key ≡ sig.dedup_hash
  pub market : (a.pair ≡ sig.pair) × (a.side ≡ sig.side)
  pub prices :
      (a.entry ≡ sig.entry) × (a.stop_loss ≡ sig.stop_loss) × (a.take_profits ≡ sig.take_profits)
  pub sized : a.qty ≡ unless_zero d.intended_qty

semi_auto_of : (mode : Mode) → is_semi_auto mode ≡ true → mode ≡ semi_auto
semi_auto_of semi_auto h = refl
semi_auto_of backtest h = cc
semi_auto_of paper h = cc
semi_auto_of full_auto h = cc
semi_auto_of breakeven_protection h = cc
semi_auto_of manual_override h = cc

-- What the rows of a decision add to the approvals.
pub data Persisted (user : Option Uuid) (mode : Mode) (sig : Signal) (d : TradeDecision)
    (st st' : Store) : Type 0 where
  kept :
      (user ≡ none) ⊎ ((is_semi_auto mode ≡ false) ⊎ (d.approved ≡ false))
      → st'.approvals ≡ st.approvals
      → Persisted user mode sig d st st'
  added :
      (owner : Uuid) (a : Approval)
      → d.approved ≡ true
      → mode ≡ semi_auto
      → user ≡ some owner
      → IsApprovalOf owner sig d a
      → st'.approvals ≡ st.approvals ++ a ∷ []
      → Persisted user mode sig d st st'

blocked_by : (a b : Bool) → (a && b) ≡ false → (a ≡ false) ⊎ (b ≡ false)
blocked_by true b h = inr h
blocked_by false b h = inl refl

pub persist-Persisted :
    (user : Option Uuid) (mode : Mode) (sig : Signal) (d : TradeDecision) (st : Store)
    → (d.approved ≡ true → d.idempotency_key ≡ sig.dedup_hash)
    → Persisted user mode sig d st (persist user mode sig d st)
unfolding persist add_approval add_validated_signal add_parsed_signal
persist-Persisted none mode sig d st key = kept (inl refl) refl
persist-Persisted (some user) mode sig d st key =
    elim (Bool-cases (is_semi_auto mode && d.approved)) [
      | inl queue ↦
          let is_approved : d.approved ≡ true = ground arith in
          rw queue (
            added user _ is_approved (semi_auto_of mode (ground arith)) refl
              (record {
                pending = refl;
                owner = refl;
                of_signal = refl;
                own_key = key is_approved;
                market = (refl, refl);
                prices = (refl, refl, refl);
                sized = refl;
              })
              refl)
      | inr skip ↦ rw skip (kept (inr (blocked_by (is_semi_auto mode) d.approved skip)) refl)
    ]
