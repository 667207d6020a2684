-- ===== src/Risk/Engine/Approval/Claims.antt =====
-- The end of an authorization, at the idempotency store: what an approval has found there.
use nexocrypto.Prelude.{
  ◌≡◌, ◌∙◌, sym, ap, ok_injective, refl, Bool, true, false, Result, ok, if◌then◌else◌, Bool-cases,
  inl, inr,
}
use nexocrypto.Shared.{TradeDecision, Hashing}
use nexocrypto.Risk.Types.{RejectReason, duplicate_signal}
use nexocrypto.Risk.Sizing.{SizeIntent}
use nexocrypto.Risk.Ev.{EvVerdict}
use nexocrypto.Risk.Idempotency.{IdempotencyStore}
use nexocrypto.Risk.Engine.{
  EntryRequest, Findings, no_findings, idempotency_ttl_seconds, reject_decision, approve_decision,
  claim_and_approve, after_ev,
}

-- A test that stands before an approval has passed.
pub approved_branch {ℓ} :
    {S : Type ℓ} (b : Bool) (rest : Result (TradeDecision × S)) (t d : TradeDecision) (s s' : S)
    → (if b then rest else ok (t, s)) ≡ ok (d, s')
    → t.approved ≡ false
    → d.approved ≡ true
    → (b ≡ true) × (rest ≡ ok (d, s'))
approved_branch true rest t d s s' e refused h = (refl, e)
approved_branch {S} false rest t d s s' e refused h =
    let same : t ≡ d = ap (λ (p : TradeDecision × S). p.0) (ok_injective e) in
    cc (ap (λ (p : TradeDecision). p.approved) same)

module _ (hashing : Hashing) (store : IdempotencyStore) where
  open store use {State, try_acquire, is_claimed, refused, granted, claims, keeps}

  pub claim_held :
      (r : EntryRequest) (size : SizeIntent) (f : Findings) (s : State)
      → is_claimed s r.signal.dedup_hash r.clock ≡ true
      → claim_and_approve hashing store r size f s
        ≡ (reject_decision hashing r duplicate_signal no_findings, s)
  unfolding claim_and_approve
  claim_held r size f s held =
      rw (refused r.clock r.signal.dedup_hash idempotency_ttl_seconds s held)

  pub claim_free :
      (r : EntryRequest) (size : SizeIntent) (f : Findings) (s : State)
      → is_claimed s r.signal.dedup_hash r.clock ≡ false
      → claim_and_approve hashing store r size f s ≡ (
        approve_decision r size f,
        (try_acquire r.clock r.signal.dedup_hash idempotency_ttl_seconds s).1,
      )
  unfolding claim_and_approve
  claim_free r size f s free =
      rw (granted r.clock r.signal.dedup_hash idempotency_ttl_seconds s free)

  claim_approved :
      (r : EntryRequest) (size : SizeIntent) (f : Findings) (s : State) (d : TradeDecision)
      (s' : State)
      → claim_and_approve hashing store r size f s ≡ (d, s')
      → d.approved ≡ true
      → (is_claimed s r.signal.dedup_hash r.clock ≡ false)
        × (approve_decision r size f ≡ d)
        × ((try_acquire r.clock r.signal.dedup_hash idempotency_ttl_seconds s).1 ≡ s')
  unfolding reject_decision
  claim_approved r size f s d s' e h =
      elim (Bool-cases (is_claimed s r.signal.dedup_hash r.clock)) [
        | inl held ↦
            let same = sym (claim_held r size f s held) ∙ e in
            cc (ap (λ (p : TradeDecision × State). (p.0).approved) same)
        | inr free ↦
            let same = sym (claim_free r size f s free) ∙ e in
            (
              free,
              ap (λ (p : TradeDecision × State). p.0) same,
              ap (λ (p : TradeDecision × State). p.1) same,
            )
      ]

  pub reject-refused :
      (r : EntryRequest) (why : RejectReason) (f : Findings)
      → (reject_decision hashing r why f).approved ≡ false
  unfolding reject_decision
  reject-refused r why f = refl

  pub after_ev_approved :
      (r : EntryRequest) (s : State) (size : SizeIntent) (f : Findings) (v : EvVerdict)
      (d : TradeDecision) (s' : State)
      → after_ev hashing store r s size f v ≡ (d, s')
      → d.approved ≡ true
      → (v.0 ≡ true)
        × (is_claimed s r.signal.dedup_hash r.clock ≡ false)
        × (approve_decision r size (record f { ev_net_bps = v.2 }) ≡ d)
        × ((try_acquire r.clock r.signal.dedup_hash idempotency_ttl_seconds s).1 ≡ s')
  unfolding after_ev
  after_ev_approved r s size f (true, why, ev) d s' e h =
      let (free, same, state) = claim_approved r size (record f { ev_net_bps = ev }) s d s' e h in
      (refl, free, same, state)
  after_ev_approved r s size f (false, why, ev) d s' e h = cc (
    ap (λ (p : TradeDecision × State). (p.0).approved) e,
    reject-refused r why (record f { ev_net_bps = ev }),
  )
