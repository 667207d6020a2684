-- ===== src/Risk/Engine/Once.antt =====
-- One deduplication key is approved once in its window, whatever the engine is asked in between.
use nexocrypto.Prelude.{
  Bool-cases, false, lt→ltb, refl, ◌<◌, ◌∙◌, List, Result, String, [], inl, inr, ok, raised, true,
  ℕ, ◌∷◌, ◌≡◌, ◌≤◌,
}
use nexocrypto.Risk.Idempotency.{expiry, IdempotencyStore}
use nexocrypto.Risk.Engine.{idempotency_ttl_seconds, EntryRequest, authorize_new_entry}
use nexocrypto.Risk.Engine.Refusal.{authorize-IsRefused}
use nexocrypto.Risk.Engine.Approval.{authorize-IsAuthorized}
use nexocrypto.Risk.Idempotency.Window.{claim_stands}
use nexocrypto.Shared.{Hashing, TradeDecision}

module _ (hashing : Hashing) (store : IdempotencyStore) where
  open store use {State, try_acquire, is_claimed, refused, keeps, lasts}

  -- The store after a call; one that raises has not reached it.
  abbrev store_after : State → Result (TradeDecision × State) → State
  store_after s (ok (d, s')) = s'
  store_after s (raised e) = s

  -- A run of calls on one store, and the store that they leave.
  unfoldable pub serve : List EntryRequest → State → State
  serve [] s = s
  serve (r ∷ rs) s = serve rs (store_after s (authorize_new_entry hashing store r s))

  -- No call of the run reads the clock after `later`.
  abbrev pub AllBefore : List EntryRequest → ℕ → Type 0
  AllBefore [] later = Unit
  AllBefore (r ∷ rs) later = (r.clock ≤ later) × AllBefore rs later

  -- A claim that stands at `later` stands after a call made before.
  stands_of :
      (r : EntryRequest) (s : State) (key : String) (later : ℕ)
      → r.clock ≤ later
      → is_claimed s key later ≡ true
      → (m : Result (TradeDecision × State)) → authorize_new_entry hashing store r s ≡ m
      → is_claimed (store_after s m) key later ≡ true
  stands_of r s key later le h (raised e) eq = h
  stands_of r s key later le h (ok (d, s')) eq =
      elim (authorize-IsRefused hashing store r s d s' eq) [
        | inl accepted ↦ rw (authorize-IsAuthorized hashing store r s d s' eq accepted).store_lem (
            claim_stands store r.clock later key r.signal.dedup_hash idempotency_ttl_seconds s le h)
        | inr refusal ↦ rw refusal.store_kept h
      ]

  serve_stands :
      (rs : List EntryRequest) (s : State) (key : String) (later : ℕ)
      → AllBefore rs later
      → is_claimed s key later ≡ true
      → is_claimed (serve rs s) key later ≡ true
  unfolding serve
  serve_stands [] s key later before h = h
  serve_stands (r ∷ rs) s key later before h =
      serve_stands rs _ key later before.1 (stands_of r s key later before.0 h _ refl)

  -- After an approval no request with the same deduplication key is approved before the window of
  -- 60 seconds has passed, whatever other requests have been served in between.
  pub approved_once :
      (r again : EntryRequest) (rs : List EntryRequest) (s : State) (d d' : TradeDecision)
      (s₁ s₂ : State)
      → authorize_new_entry hashing store r s ≡ ok (d, s₁)
      → d.approved ≡ true
      → AllBefore rs again.clock
      → again.signal.dedup_hash ≡ r.signal.dedup_hash
      → again.clock < expiry r.clock idempotency_ttl_seconds
      → authorize_new_entry hashing store again (serve rs s₁) ≡ ok (d', s₂)
      → d'.approved ≡ false
  approved_once r again rs s d d' s₁ s₂ e h before same soon e' =
      let auth = authorize-IsAuthorized hashing store r s d s₁ e h in
      let held = auth.claimed again.clock ∙ lt→ltb again.clock _ soon in
      let stands = serve_stands rs s₁ r.signal.dedup_hash again.clock before held in
      elim (Bool-cases d'.approved) [
        | inl accepted ↦
            let auth' =
              authorize-IsAuthorized hashing store again (serve rs s₁) d' s₂ e' accepted in
            cc (auth'.was_free, stands, same)
        | inr refused ↦ refused
      ]
