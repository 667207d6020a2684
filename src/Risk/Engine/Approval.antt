-- ===== src/Risk/Engine/Approval.antt =====
-- `RiskEngine.authorize_new_entry` approves exactly the entries that pass every gate: what an
-- approval has established, in terms of the account, the profile and the store.
pub mod Claims
use mathlib.Core.Path.{subst₂}
use nexocrypto.Prelude.{
  ℕ, ◌≡◌, ◌∙◌, sym, ap, ok_injective, refl, Bool, true, false, Option, none, some, ltb, Result, ok,
  >>=-eq-ok, if◌then◌else◌, Bool-cases, inl, inr,
}
use nexocrypto.Decimal.{Decimal, of_ℕ}
use nexocrypto.Shared.{TradeDecision, Hashing}
use nexocrypto.Risk.Engine.Guarded.{IsGuarded, entry_guards-IsGuarded, is_ok_eq}
use nexocrypto.Risk.Types.{RejectReason, is_ok, duplicate_signal}
use nexocrypto.Risk.Liquidation.{passes_min_distance, default_maintenance_margin_rate}
use nexocrypto.Risk.Liquidation.Distance.{IsFarEnough, passes_min_distance-IsFarEnough}
use nexocrypto.Risk.Sizing.{SizeIntent, approved, size_position}
use nexocrypto.Risk.Sizing.Caps.{IsSized, size_position-IsSized}
use nexocrypto.Risk.Ev.{EvVerdict, ev_passes}
use nexocrypto.Risk.Ev.Gate.{EvAccepts, ev_passes-EvAccepts}
use nexocrypto.Risk.Idempotency.{IdempotencyStore, expiry}
use nexocrypto.Risk.Engine.{
  liquidation_too_close, EntryRequest, Findings, no_findings, idempotency_ttl_seconds,
  capped_leverage, entry_guards, reject_decision, approve_decision, claim_and_approve, after_ev,
  after_size, after_distance, after_guards, authorize_new_entry,
}
use nexocrypto.Risk.Engine.Approval.Claims.{
  after_ev_approved, approved_branch, reject-refused, claim_free, claim_held,
}

module _ (hashing : Hashing) (store : IdempotencyStore) where
  open store use {State, try_acquire, is_claimed, refused, granted, claims, keeps}

  -- What an approved entry `d` has established: every gate, the size it carries and the claim.
  pub record IsAuthorized (r : EntryRequest) (s : State) (d : TradeDecision) (s' : State)
      : Type 0 where
    pub guarded : IsGuarded r
    pub size : SizeIntent
    pub sized : IsSized r.signal r.account r.risk_profile size
    pub far :
        IsFarEnough r.signal.side r.signal.entry
          (capped_leverage r)
          r.risk_profile.min_liquidation_distance_bps
          default_maintenance_margin_rate
          d.liquidation_price
          d.liquidation_distance_bps
    pub accepted :
        EvAccepts r.strategy_stats r.ev_inputs r.mode
          r.risk_profile.min_expected_profit_after_fees_bps d.ev_net_bps
    pub qty : d.intended_qty ≡ some size.qty
    pub leverage : d.intended_leverage ≡ some size.leverage
    pub key : d.idempotency_key ≡ r.signal.dedup_hash
    pub was_free : is_claimed s r.signal.dedup_hash r.clock ≡ false
    pub store_lem : s' ≡ (try_acquire r.clock r.signal.dedup_hash idempotency_ttl_seconds s).1
    pub claimed :
        (later : ℕ)
        → is_claimed s' r.signal.dedup_hash later
          ≡ ltb later (expiry r.clock idempotency_ttl_seconds)

  -- An approval after the liquidation distance has a size, and a verdict on its expected value.
  pub record Traced (r : EntryRequest) (s : State) (liq dist : Option Decimal) (d : TradeDecision)
      (s' : State) : Type 0 where
    pub size : SizeIntent
    pub sized : size_position r.signal r.account r.risk_profile (of_ℕ 0) ≡ ok size
    pub size_ok : approved size ≡ true
    pub accepted :
        (ev : Option Decimal) × EvAccepts r.strategy_stats r.ev_inputs r.mode
          r.risk_profile.min_expected_profit_after_fees_bps ev
        × (approve_decision r size
              (record { ev_net_bps = ev; liquidation_price = liq; liquidation_distance_bps = dist })
            ≡ d)
    pub judged :
        (why : RejectReason) × (ev : Option Decimal) × (ev_passes r.strategy_stats r.ev_inputs
            r.mode r.risk_profile.min_expected_profit_after_fees_bps
          ≡ ok (true, why, ev))
    pub was_free : is_claimed s r.signal.dedup_hash r.clock ≡ false
    pub state : (try_acquire r.clock r.signal.dedup_hash idempotency_ttl_seconds s).1 ≡ s'

  accepts_of :
      (r : EntryRequest) (v : EvVerdict)
      → ev_passes r.strategy_stats r.ev_inputs r.mode
          r.risk_profile.min_expected_profit_after_fees_bps
        ≡ ok v
      → v.0 ≡ true
      → EvAccepts r.strategy_stats r.ev_inputs r.mode
          r.risk_profile.min_expected_profit_after_fees_bps v.2
  accepts_of r (true, why, ev) e h =
      ev_passes-EvAccepts r.strategy_stats r.ev_inputs r.mode
        r.risk_profile.min_expected_profit_after_fees_bps why ev e
  accepts_of r (false, why, ev) e h = cc

  pub after_distance_approved :
      (r : EntryRequest) (s : State) (liq_ok : Bool) (liq dist : Option Decimal) (d : TradeDecision)
      (s' : State)
      → after_distance hashing store r s (liq_ok, liq, dist) ≡ ok (d, s')
      → d.approved ≡ true
      → (liq_ok ≡ true) × Traced r s liq dist d s'
  unfolding after_distance after_size
  after_distance_approved r s liq_ok liq dist d s' e h =
      let f : Findings = record {
        ev_net_bps = none;
        liquidation_price = liq;
        liquidation_distance_bps = dist;
      } in
      let (far, e₁) =
        approved_branch liq_ok _ (reject_decision hashing r liquidation_too_close f) d s s' e
          (reject-refused hashing store r liquidation_too_close f) h in
      let (size, sizing, e₂) =
        >>=-eq-ok (size_position r.signal r.account r.risk_profile (of_ℕ 0))
          (after_size hashing store r s f) e₁ in
      let (sized, e₃) =
        approved_branch (approved size) _ (reject_decision hashing r size.reject f) d s s' e₂
          (reject-refused hashing store r size.reject f) h in
      let (v, judged, e₄) =
        >>=-eq-ok
          (ev_passes r.strategy_stats r.ev_inputs r.mode
            r.risk_profile.min_expected_profit_after_fees_bps)
          (λ v. ok (after_ev hashing store r s size f v)) e₃ in
      let (ev_ok, free, same, state) =
        after_ev_approved hashing store r s size f v d s' (ok_injective e₄) h in
      (
        far,
        record {
          size = size;
          sized = sizing;
          size_ok = sized;
          accepted = (v.2, accepts_of r v judged ev_ok, same);
          judged = (v.1, v.2, judged ∙ ap (λ (b : Bool). ok (b, v.1, v.2)) ev_ok);
          was_free = free;
          state = state;
        },
      )

  far_of :
      (r : EntryRequest) (v : Bool × Option Decimal × Option Decimal)
      → passes_min_distance r.signal.side r.signal.entry
          (capped_leverage r)
          r.risk_profile.min_liquidation_distance_bps
          default_maintenance_margin_rate
        ≡ ok v
      → v.0 ≡ true
      → IsFarEnough r.signal.side r.signal.entry
          (capped_leverage r)
          r.risk_profile.min_liquidation_distance_bps
          default_maintenance_margin_rate
          v.1
          v.2
  far_of r (true, liq, dist) e h =
      passes_min_distance-IsFarEnough r.signal.side r.signal.entry (capped_leverage r)
        r.risk_profile.min_liquidation_distance_bps default_maintenance_margin_rate e
  far_of r (false, liq, dist) e h = cc

  -- The approval of an entry whose parts are known.
  assemble :
      (r : EntryRequest) (s : State) (liq dist : Option Decimal) (d : TradeDecision) (s' : State)
      → IsGuarded r
      → IsFarEnough r.signal.side r.signal.entry
          (capped_leverage r)
          r.risk_profile.min_liquidation_distance_bps
          default_maintenance_margin_rate
          liq
          dist
      → Traced r s liq dist d s'
      → IsAuthorized r s d s'
  unfolding approve_decision
  assemble r s liq dist d s' g far t =
      let (ev, accepts, same) = t.accepted in
      subst₂ (λ d s'. IsAuthorized r s d s') same t.state
        (record {
          guarded = g;
          size = t.size;
          sized =
              size_position-IsSized r.signal r.account r.risk_profile (of_ℕ 0) t.size t.sized
                t.size_ok;
          far = far;
          accepted = accepts;
          qty = refl;
          leverage = refl;
          key = refl;
          was_free = t.was_free;
          store_lem = refl;
          claimed = λ later.
              claims r.clock later r.signal.dedup_hash idempotency_ttl_seconds s t.was_free;
        })

  -- An entry is approved only if every gate has passed, at the size that the sizing gate gave, and
  -- its deduplication key was free and is claimed for the window that opens at the clock reading.
  pub authorize-IsAuthorized :
      (r : EntryRequest) (s : State) (d : TradeDecision) (s' : State)
      → authorize_new_entry hashing store r s ≡ ok (d, s')
      → d.approved ≡ true
      → IsAuthorized r s d s'
  unfolding authorize_new_entry after_guards
  authorize-IsAuthorized r s d s' e h =
      let (why, guards, e₁) = >>=-eq-ok (entry_guards r) (after_guards hashing store r s) e in
      let (is_guarded, e₂) =
        approved_branch (is_ok why) _ (reject_decision hashing r why no_findings) d s s' e₁
          (reject-refused hashing store r why no_findings) h in
      let ((liq_ok, liq, dist), measured, e₃) =
        >>=-eq-ok
          (passes_min_distance r.signal.side r.signal.entry (capped_leverage r)
            r.risk_profile.min_liquidation_distance_bps default_maintenance_margin_rate)
          (after_distance hashing store r s) e₂ in
      let (far, traced) = after_distance_approved r s liq_ok liq dist d s' e₃ h in
      assemble r s liq dist d s'
        (entry_guards-IsGuarded r (guards ∙ ap ok (is_ok_eq why is_guarded)))
        (far_of r (liq_ok, liq, dist) measured far) traced
