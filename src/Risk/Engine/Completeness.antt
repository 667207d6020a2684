-- ===== src/Risk/Engine/Completeness.antt =====
-- The converse of an approval: an entry that passes every gate is approved, so no hidden test stands
-- between the gates and the decision.
use nexocrypto.Risk.Engine.{
  EntryRequest, after_distance, after_ev, after_guards, after_size, approve_decision,
  authorize_new_entry, capped_leverage, entry_guards, idempotency_ttl_seconds, then_check,
}
use nexocrypto.Risk.Idempotency.{IdempotencyStore}
use nexocrypto.Risk.Liquidation.{default_maintenance_margin_rate, passes_min_distance}
use nexocrypto.Risk.Guards.Passing.{
  check_account_lock_passes, check_cooldowns_passes, check_exposure_caps_passes,
  check_loss_guards_passes, check_paper_gate_passes, check_stale_price_passes,
}
use nexocrypto.Risk.Ev.{ev_passes}
use nexocrypto.Risk.Engine.Approval.Claims.{claim_free}
use nexocrypto.Risk.Sizing.{SizeIntent, approved, size_position}
use nexocrypto.Decimal.{Decimal, of_ℕ}
use nexocrypto.Shared.{Hashing}
use nexocrypto.Risk.Types.{RejectReason, reason_ok}
use nexocrypto.Risk.Engine.Guarded.{IsGuarded}
use nexocrypto.Prelude.{Option, ap, false, ok, true, ◌≡◌}

entry_guards_pass : (r : EntryRequest) → IsGuarded r → entry_guards r ≡ ok reason_ok
unfolding entry_guards then_check
entry_guards_pass r g = rw (
  (check_account_lock_passes r.account).1 g.unlocked,
  (check_paper_gate_passes r.account r.mode).1 g.gate,
  (check_stale_price_passes r.account r.now r.risk_profile.stale_price_max_seconds).1 g.fresh,
  (check_cooldowns_passes r.account r.risk_profile r.now).1 (g.cooled_loss, g.cooled_spike),
  (check_loss_guards_passes r.account r.risk_profile).1 g.losses,
  (check_exposure_caps_passes r.account r.risk_profile).1 (g.positions, g.trades),
)

module _ (hashing : Hashing) (store : IdempotencyStore) where
  open store use {State, try_acquire, is_claimed}

  -- An entry whose account passes the six guards, whose liquidation distance, size and expected value
  -- pass, and whose key is free, is approved: the decision carries the size and the figures of the
  -- gates, and the key is claimed.
  pub passing-approved :
      (r : EntryRequest) (s : State) (liq dist ev : Option Decimal) (size : SizeIntent)
      (why : RejectReason)
      → IsGuarded r
      → passes_min_distance r.signal.side r.signal.entry
          (capped_leverage r)
          r.risk_profile.min_liquidation_distance_bps
          default_maintenance_margin_rate
        ≡ ok (true, liq, dist)
      → size_position r.signal r.account r.risk_profile (of_ℕ 0) ≡ ok size
      → approved size ≡ true
      → ev_passes r.strategy_stats r.ev_inputs r.mode
          r.risk_profile.min_expected_profit_after_fees_bps
        ≡ ok (true, why, ev)
      → is_claimed s r.signal.dedup_hash r.clock ≡ false
      → authorize_new_entry hashing store r s
        ≡ ok (
          approve_decision r size (record {
            ev_net_bps = ev;
            liquidation_price = liq;
            liquidation_distance_bps = dist;
          }),
          (try_acquire r.clock r.signal.dedup_hash idempotency_ttl_seconds s).1,
        )
  unfolding authorize_new_entry after_guards after_distance after_size after_ev
  passing-approved r s liq dist ev size why g far sizing sized judged free =
      rw (entry_guards_pass r g, far, sizing, sized, judged)
        (ap ok (claim_free hashing store r size _ s free))
