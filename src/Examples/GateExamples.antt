-- ===== src/Examples/GateExamples.antt =====
-- Examples for the gates of an entry, one by one.
use nexocrypto.Examples.RiskExamples.{decision, outcome}
use nexocrypto.Decimal.{Decimal, of_ℕ, is_zero, of_ℤ}
use nexocrypto.Risk.Ev.{EvVerdict, ev_passes}
use nexocrypto.Risk.Sizing.{SizeIntent, size_reject, approved, size_position}
use nexocrypto.Risk.Engine.{
  capped_leverage, idempotency_ttl_seconds, approve_decision, authorize_new_entry,
}
use nexocrypto.Risk.Guards.{elapsed, check_loss_guards}
use nexocrypto.Risk.Liquidation.{default_maintenance_margin_rate, passes_min_distance}
use nexocrypto.Risk.Idempotency.{is_held, in_memory_store, try_acquire_in_memory}
use nexocrypto.Examples.Data.{
  account, ev_inputs, profile, signal, stats, plain_hashing, request, value_or,
}
use nexocrypto.Shared.{long, semi_auto}
use nexocrypto.Risk.Types.{invalid_signal, reason_ok}
use nexocrypto.Risk.Engine.Guarded.{IsGuarded}
use nexocrypto.Risk.Liquidation.Distance.{IsFarEnough, passes_min_distance-IsFarEnough}
use nexocrypto.Risk.Guards.Passing.{LossesWithin, check_loss_guards_passes}
use nexocrypto.Risk.Engine.Completeness.{passing-approved}
use nexocrypto.Risk.Ev.Gate.{HasInterval, EvAccepts, ev_passes-EvAccepts}
use nexocrypto.Risk.Engine.Refusal.{authorize_total}
use nexocrypto.Risk.Sizing.Caps.{IsSized, size_position-IsSized}
use nexocrypto.Prelude.{
  Bool, Option, Returns, arith, false, none, ◌-ℤ◌, ◌↔◌, [], ok, refl, some, true, ◌≡◌,
}

has_interval : HasInterval ev_inputs
unfolding is_zero of_ℤ
has_interval = refl

authorize_total_example : Returns (authorize_new_entry plain_hashing in_memory_store request [])
authorize_total_example = authorize_total plain_hashing in_memory_store request [] has_interval

size : SizeIntent
unfolding outcome
size = value_or (size_reject invalid_signal) (size_position signal account profile (of_ℕ 0))

size_lem : size_position signal account profile (of_ℕ 0) ≡ ok size
unfolding size
size_lem = refl

size_approved : approved size ≡ true
unfolding size
size_approved = refl

size_position-IsSized_example : IsSized signal account profile size
size_position-IsSized_example =
    size_position-IsSized signal account profile (of_ℕ 0) size size_lem size_approved

check_loss_guards_passes_example :
    (check_loss_guards account profile ≡ ok reason_ok) ↔ LossesWithin account profile
check_loss_guards_passes_example = check_loss_guards_passes account profile

losses_within : LossesWithin account profile
unfolding outcome
losses_within = (check_loss_guards_passes account profile).0 refl

guarded : IsGuarded request
unfolding elapsed ◌-ℤ◌
guarded = record {
  unlocked = refl;
  gate = λ _. refl;
  fresh = omega arith;
  cooled_loss = omega arith;
  cooled_spike = tt;
  losses = losses_within;
  positions = omega arith;
  trades = omega arith;
}

distance : Bool × Option Decimal × Option Decimal
unfolding outcome
distance =
    value_or (false, none, none)
      (passes_min_distance long (of_ℕ 100) (capped_leverage request) (of_ℕ 500)
        default_maintenance_margin_rate)

verdict : EvVerdict
unfolding outcome
verdict = value_or (false, reason_ok, none) (ev_passes (some stats) ev_inputs semi_auto (of_ℕ 5))

passing-approved_example :
    authorize_new_entry plain_hashing in_memory_store request []
    ≡ ok (
      approve_decision request size (record {
        ev_net_bps = verdict.2;
        liquidation_price = distance.1;
        liquidation_distance_bps = distance.2;
      }),
      (try_acquire_in_memory 5000000 "k1" idempotency_ttl_seconds []).1,
    )
unfolding size verdict distance outcome is_held
passing-approved_example =
    passing-approved plain_hashing in_memory_store request [] distance.1 distance.2 verdict.2 size
      reason_ok guarded refl refl refl refl refl

passes_min_distance-IsFarEnough_example :
    IsFarEnough long
      (of_ℕ 100)
      (of_ℕ 5)
      (of_ℕ 500)
      default_maintenance_margin_rate
      decision.liquidation_price
      decision.liquidation_distance_bps
unfolding decision
passes_min_distance-IsFarEnough_example =
    passes_min_distance-IsFarEnough long (of_ℕ 100) (of_ℕ 5) (of_ℕ 500)
      default_maintenance_margin_rate {liq = decision.liquidation_price}
      {dist = decision.liquidation_distance_bps} refl

ev_passes-EvAccepts_example :
    EvAccepts (some stats) ev_inputs semi_auto (of_ℕ 5) decision.ev_net_bps
unfolding decision
ev_passes-EvAccepts_example =
    ev_passes-EvAccepts (some stats) ev_inputs semi_auto (of_ℕ 5) reason_ok decision.ev_net_bps refl
