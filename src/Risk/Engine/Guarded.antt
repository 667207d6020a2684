-- ===== src/Risk/Engine/Guarded.antt =====
-- What the account of an entry satisfies when the six guards before the gates let it through.
use nexocrypto.Prelude.{◌<◌, ◌≡◌, ◌∙◌, ap, ok_injective, refl, true, false, Result, ok, >>=-eq-ok}
use nexocrypto.Shared.{is_live}
use nexocrypto.Risk.Types.{RejectReason, is_ok, reason_ok}
use nexocrypto.Risk.Guards.{check_loss_guards}
use nexocrypto.Risk.Guards.Passing.{
  check_account_lock_passes, check_paper_gate_passes, IsFresh, check_stale_price_passes, HasCooled,
  check_cooldowns_passes, check_exposure_caps_passes, LossesWithin, check_loss_guards_passes,
}
use nexocrypto.Risk.Engine.{EntryRequest, then_check, entry_guards}

-- Steps 1 to 6 as one condition on the account.
pub record IsGuarded (r : EntryRequest) : Type 0 where
  pub unlocked : r.account.account_protection_lock ≡ false
  pub gate : is_live r.mode ≡ true → r.account.paper_gate_unlocked ≡ true
  pub fresh : IsFresh r.account.last_tick_at r.now r.risk_profile.stale_price_max_seconds
  pub cooled_loss :
      HasCooled r.account.last_loss_at r.now r.risk_profile.cooldown_after_loss_seconds
  pub cooled_spike :
      HasCooled r.account.last_volatility_spike_at r.now
        r.risk_profile.cooldown_after_volatility_spike_seconds
  pub losses : LossesWithin r.account r.risk_profile
  pub positions : r.account.open_positions_count < r.risk_profile.max_open_positions
  pub trades : r.account.trades_last_hour < r.risk_profile.max_trades_per_hour

pub is_ok_eq : (why : RejectReason) → is_ok why ≡ true → why ≡ reason_ok
is_ok_eq reason_ok h = refl
is_ok_eq _ h = cc

then_check_ok :
    (reason : RejectReason) (rest : Result RejectReason)
    → then_check reason rest ≡ ok reason_ok
    → (reason ≡ reason_ok) × (rest ≡ ok reason_ok)
unfolding then_check
then_check_ok reason_ok rest e = (refl, e)
then_check_ok _ rest e = cc

pub entry_guards-IsGuarded : (r : EntryRequest) → entry_guards r ≡ ok reason_ok → IsGuarded r
unfolding entry_guards
entry_guards-IsGuarded r e =
    let (lock, e₁) = then_check_ok _ _ e in
    let (gate, e₂) = then_check_ok _ _ e₁ in
    let (stale, e₃) = then_check_ok _ _ e₂ in
    let (cooling, e₄) = then_check_ok _ _ e₃ in
    let (why, guards, e₅) = >>=-eq-ok (check_loss_guards r.account r.risk_profile) _ e₄ in
    let (none_lost, e₆) = then_check_ok _ _ e₅ in
    let loss = guards ∙ ap ok none_lost in
    let caps = ok_injective e₆ in
    let cooled = (check_cooldowns_passes r.account r.risk_profile r.now).0 cooling in
    let counts = (check_exposure_caps_passes r.account r.risk_profile).0 caps in
    record {
      unlocked = (check_account_lock_passes r.account).0 lock;
      gate = (check_paper_gate_passes r.account r.mode).0 gate;
      fresh =
          (check_stale_price_passes r.account r.now r.risk_profile.stale_price_max_seconds).0 stale;
      cooled_loss = cooled.0;
      cooled_spike = cooled.1;
      losses = (check_loss_guards_passes r.account r.risk_profile).0 loss;
      positions = counts.0;
      trades = counts.1;
    }
