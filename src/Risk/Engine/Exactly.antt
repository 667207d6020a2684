-- ===== src/Risk/Engine/Exactly.antt =====
-- The risk engine approves exactly the entries that pass: soundness and completeness in one.
use nexocrypto.Prelude.{refl, >>=-eq-ok, Bool, Option, Result, ap, ◌↔◌, ◌∙◌, ◌≡◌, ok, true, false}
use nexocrypto.Shared.{Hashing, TradeDecision}
use nexocrypto.Risk.Engine.Completeness.{passing-approved}
use nexocrypto.Risk.Sizing.{SizeIntent, approved, size_position}
use nexocrypto.Risk.Idempotency.{IdempotencyStore}
use nexocrypto.Decimal.{Decimal, of_ℕ}
use nexocrypto.Risk.Engine.Approval.{after_distance_approved}
use nexocrypto.Risk.Engine.Approval.Claims.{approved_branch, reject-refused}
use nexocrypto.Risk.Types.{RejectReason, is_ok}
use nexocrypto.Risk.Engine.Guarded.{IsGuarded, entry_guards-IsGuarded, is_ok_eq}
use nexocrypto.Risk.Liquidation.{default_maintenance_margin_rate, passes_min_distance}
use nexocrypto.Risk.Ev.{ev_passes}
use nexocrypto.Risk.Engine.{
  Findings, approve_decision, authorize_new_entry, after_guards, EntryRequest, capped_leverage,
  entry_guards, after_distance, no_findings, reject_decision,
}

approves :
    (r : EntryRequest) (size : SizeIntent) (f : Findings)
    → (approve_decision r size f).approved ≡ true
unfolding approve_decision
approves r size f = refl

-- The gates, each read off its own function: the guards of the account, the liquidation distance, the size, the
-- expected value and the key.
pub record CanPass (store : IdempotencyStore) (r : EntryRequest) (s : store.State) : Type 0 where
  pub guarded : IsGuarded r
  pub liq : Option Decimal
  pub dist : Option Decimal
  pub far :
      passes_min_distance r.signal.side r.signal.entry
        (capped_leverage r)
        r.risk_profile.min_liquidation_distance_bps
        default_maintenance_margin_rate
      ≡ ok (true, liq, dist)
  pub size : SizeIntent
  pub sized : size_position r.signal r.account r.risk_profile (of_ℕ 0) ≡ ok size
  pub size_ok : approved size ≡ true
  pub why : RejectReason
  pub ev : Option Decimal
  pub judged :
      ev_passes r.strategy_stats r.ev_inputs r.mode
        r.risk_profile.min_expected_profit_after_fees_bps
      ≡ ok (true, why, ev)
  pub free : store.is_claimed s r.signal.dedup_hash r.clock ≡ false

module _ (hashing : Hashing) (store : IdempotencyStore) (r : EntryRequest) (s : store.State) where
  -- The call returns a decision that approves.
  abbrev pub Approves : Result (TradeDecision × store.State) → Type 0
  Approves m = (d : TradeDecision) × (s' : store.State) × (m ≡ ok (d, s')) × (d.approved ≡ true)

  passes_of_approval : Approves (authorize_new_entry hashing store r s) → CanPass store r s
  unfolding authorize_new_entry after_guards
  passes_of_approval (d, s', e, h) =
      let (why, guards, e₁) = >>=-eq-ok (entry_guards r) (after_guards hashing store r s) e in
      let (is_guarded, e₂) =
        approved_branch (is_ok why) _ (reject_decision hashing r why no_findings) d s s' e₁
          (reject-refused hashing store r why no_findings) h in
      let ((liq_ok, liq, dist), measured, e₃) =
        >>=-eq-ok
          (passes_min_distance r.signal.side r.signal.entry (capped_leverage r)
            r.risk_profile.min_liquidation_distance_bps default_maintenance_margin_rate)
          (after_distance hashing store r s) e₂ in
      let (far, t) = after_distance_approved hashing store r s liq_ok liq dist d s' e₃ h in
      record {
        guarded = entry_guards-IsGuarded r (guards ∙ ap ok (is_ok_eq why is_guarded));
        liq = liq;
        dist = dist;
        far = measured ∙ ap (λ (b : Bool). ok (b, liq, dist)) far;
        size = t.size;
        sized = t.sized;
        size_ok = t.size_ok;
        why = t.judged.0;
        ev = t.judged.1;
        judged = t.judged.2;
        free = t.was_free;
      }

  approval_of_passes : CanPass store r s → Approves (authorize_new_entry hashing store r s)
  approval_of_passes c = (
    _,
    _,
    passing-approved hashing store r s c.liq c.dist c.ev c.size c.why c.guarded c.far c.sized
        c.size_ok c.judged c.free,
    approves r c.size _,
  )

-- The risk engine returns an approval exactly if the entry's account passes the guards, its liquidation distance,
-- size and expected value pass, each by its own function, and its key is free.
pub authorize-CanPass :
    (hashing : Hashing) (store : IdempotencyStore) (r : EntryRequest) (s : store.State)
    → Approves hashing store r s (authorize_new_entry hashing store r s) ↔ CanPass store r s
authorize-CanPass hashing store r s =
    (passes_of_approval hashing store r s, approval_of_passes hashing store r s)
