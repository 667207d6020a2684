-- ===== src/Risk/Engine/Refusal.antt =====
-- What an entry that is not approved leaves behind, when a call can raise, and that one key is
-- approved once in its window whatever is asked in between.
use mathlib.Core.Path.{subst}
use nexocrypto.Risk.Ev.Gate.{HasInterval, ev_passes_total, ev_refusal}
use nexocrypto.Prelude.{
  none, [], ◌∷◌, Returns, Returns-bind, Returns-if, arith, Bool, Bool-cases, Option, Result, false,
  if◌then◌else◌, inl, inr, ok, raised, refl, true, ◌>>=◌, ◌≡◌, ◌⊎◌,
}
use nexocrypto.Risk.Sizing.{SizeIntent, approved}
use nexocrypto.Risk.Types.{
  reason_value, RejectReason, duplicate_signal, is_ok, liquidation_too_close,
}
use nexocrypto.Shared.{dedup_hash, Hashing, TradeDecision}
use nexocrypto.Risk.Idempotency.{IdempotencyStore}
use nexocrypto.Risk.Ev.{EvVerdict}
use nexocrypto.Decimal.{of_ℕ, Decimal}
use nexocrypto.Risk.Sizing.Caps.{size_position_total}
use nexocrypto.Risk.Guards.Passing.{check_loss_guards_total}
use nexocrypto.Risk.Liquidation.Distance.{passes_min_distance_total}
use nexocrypto.Risk.Engine.Approval.Claims.{claim_free, claim_held}
use nexocrypto.Risk.Engine.{
  then_check, EntryRequest, Findings, after_distance, after_ev, after_guards, after_size,
  approve_decision, authorize_new_entry, claim_and_approve, entry_guards, no_findings,
  reject_decision,
}

then_check_total :
    (why : RejectReason) (rest : Result RejectReason) → Returns rest → Returns (then_check why rest)
unfolding then_check
then_check_total why rest h = ground arith

entry_guards_total : (r : EntryRequest) → Returns (entry_guards r)
unfolding entry_guards
entry_guards_total r = then_check_total _ _ (
    then_check_total _ _ (
      then_check_total _ _ (
        then_check_total _ _ (
          Returns-bind _ _ (check_loss_guards_total r.account r.risk_profile)
            (λ loss. then_check_total loss _ tt)))))

module _ (hashing : Hashing) (store : IdempotencyStore) where
  open store use {State, try_acquire, is_claimed, refused, granted}

  -- A rejection for a reason other than `reason_ok`: the decision names the reason, asks for nothing, has the hash of
  -- the signal's key and the reason as its key, and leaves the store as it was.
  pub record IsRefused (r : EntryRequest) (s : State) (d : TradeDecision) (s' : State)
      : Type 0 where
    pub why : RejectReason
    pub is_reason : is_ok why ≡ false
    pub names_reason : d.reason ≡ reason_value why
    pub is_not_approved : d.approved ≡ false
    pub asks_nothing : (d.intended_qty ≡ none) × (d.intended_order_type ≡ none)
    pub hashed_key :
        d.idempotency_key ≡ dedup_hash hashing (r.signal.dedup_hash ∷ reason_value why ∷ [])
    pub store_kept : s' ≡ s

  reject_decision-IsRefused :
      (r : EntryRequest) (s : State) (why : RejectReason) (f : Findings)
      → is_ok why ≡ false
      → IsRefused r s (reject_decision hashing r why f) s
  unfolding reject_decision
  reject_decision-IsRefused r s why f h = record {
    why = why;
    is_reason = h;
    names_reason = refl;
    is_not_approved = refl;
    asks_nothing = (refl, refl);
    hashed_key = refl;
    store_kept = refl;
  }

  abbrev Settles : EntryRequest → State → Result (TradeDecision × State) → Type 0
  Settles r s (ok (d, s')) = (d.approved ≡ true) ⊎ IsRefused r s d s'
  Settles r s (raised e) = Unit

  Settles-bind :
      {A : Type 0} (r : EntryRequest) (s : State) (m : Result A)
      (f : A → Result (TradeDecision × State))
      → ((a : A) → m ≡ ok a → Settles r s (f a))
      → Settles r s (m >>= f)
  Settles-bind r s (ok a) f h = h a refl
  Settles-bind r s (raised e) f h = tt

  Settles-branch :
      (r : EntryRequest) (s : State) (b : Bool) (rest : Result (TradeDecision × State))
      (why : RejectReason) (f : Findings)
      → (b ≡ false → is_ok why ≡ false)
      → (b ≡ true → Settles r s rest)
      → Settles r s (if b then rest else ok (reject_decision hashing r why f, s))
  Settles-branch r s true rest why f refuse go = go refl
  Settles-branch r s false rest why f refuse go =
      inr (reject_decision-IsRefused r s why f (refuse refl))

  Settles-claim :
      (r : EntryRequest) (s : State) (size : SizeIntent) (f : Findings)
      → Settles r s (ok (claim_and_approve hashing store r size f s))
  unfolding approve_decision
  Settles-claim r s size f = elim (Bool-cases (is_claimed s r.signal.dedup_hash r.clock)) [
    | inl held ↦
        rw (claim_held hashing store r size f s held)
          (inr (reject_decision-IsRefused r s duplicate_signal no_findings refl))
    | inr free ↦ rw (claim_free hashing store r size f s free) (inl refl)
  ]

  Settles-ev :
      (r : EntryRequest) (s : State) (size : SizeIntent) (f : Findings) (v : EvVerdict)
      → (v.0 ≡ false → is_ok v.1 ≡ false)
      → Settles r s (ok (after_ev hashing store r s size f v))
  unfolding after_ev
  Settles-ev r s size f (true, why, ev) refuse =
      Settles-claim r s size (record f { ev_net_bps = ev })
  Settles-ev r s size f (false, why, ev) refuse =
      inr (reject_decision-IsRefused r s why (record f { ev_net_bps = ev }) (refuse refl))

  Settles-size :
      (r : EntryRequest) (s : State) (f : Findings) (size : SizeIntent)
      → Settles r s (after_size hashing store r s f size)
  unfolding after_size
  Settles-size r s f size =
      Settles-branch r s (approved size) _ size.reject f (λ refuse. refuse)
        (λ go.
          Settles-bind r s _ (λ v. ok (after_ev hashing store r s size f v))
            (λ v e. Settles-ev r s size f v (ev_refusal _ _ _ _ v e)))

  Settles-distance :
      (r : EntryRequest) (s : State) (v : Bool × Option Decimal × Option Decimal)
      → Settles r s (after_distance hashing store r s v)
  unfolding after_distance
  Settles-distance r s (liq_ok, liq, dist) =
      Settles-branch r s liq_ok _ liquidation_too_close _ (λ _. refl)
        (λ go.
          Settles-bind r s _ (after_size hashing store r s _) (λ size e. Settles-size r s _ size))

  settles : (r : EntryRequest) (s : State) → Settles r s (authorize_new_entry hashing store r s)
  unfolding authorize_new_entry after_guards
  settles r s = Settles-bind r s (entry_guards r) (after_guards hashing store r s) (λ why e.
      Settles-branch r s (is_ok why) _ why no_findings (λ refuse. refuse)
        (λ go.
          Settles-bind r s _ (after_distance hashing store r s) (λ v _. Settles-distance r s v)))

  pub authorize-IsRefused :
      (r : EntryRequest) (s : State) (d : TradeDecision) (s' : State)
      → authorize_new_entry hashing store r s ≡ ok (d, s')
      → (d.approved ≡ true) ⊎ IsRefused r s d s'
  authorize-IsRefused r s d s' e = subst (Settles r s) e (settles r s)

  after_size_total :
      (r : EntryRequest) (s : State) (f : Findings) (size : SizeIntent)
      → HasInterval r.ev_inputs
      → Returns (after_size hashing store r s f size)
  unfolding after_size
  after_size_total r s f size h =
      Returns-if (approved size) _ _
        (Returns-bind _ _ (ev_passes_total r.strategy_stats r.ev_inputs r.mode _ h) (λ v. tt))

  after_guards_total :
      (r : EntryRequest) (s : State) (why : RejectReason)
      → HasInterval r.ev_inputs
      → Returns (after_guards hashing store r s why)
  unfolding after_guards after_distance
  after_guards_total r s why h = Returns-if (is_ok why) _ _ (
      Returns-bind _ _ (passes_min_distance_total r.signal.side _ _ _ _) (λ v. Returns-if v.0 _ _ (
        Returns-bind _ _ (size_position_total r.signal r.account r.risk_profile (of_ℕ 0))
          (λ size. after_size_total r s _ size h))))

  -- A call raises nothing, if the funding interval of its venue is not 0.
  pub authorize_total :
      (r : EntryRequest) (s : State)
      → HasInterval r.ev_inputs
      → Returns (authorize_new_entry hashing store r s)
  unfolding authorize_new_entry
  authorize_total r s h =
      Returns-bind (entry_guards r) _ (entry_guards_total r) (λ why. after_guards_total r s why h)
