-- ===== src/Execution/Once.antt =====
-- One idempotency key reaches the venue once in its window, over any run of entries and closes on one
-- store.
use nexocrypto.Execution.Safety.{close_position_sends, close_request, open_position_sends}
use nexocrypto.Risk.Idempotency.{IdempotencyStore, expiry}
use nexocrypto.Prelude.{
  List, Option, String, [], false, inl, inr, lt→ltb, true, ℕ, ◌<◌, ◌∙◌, ◌∷◌, ◌≡◌, ◌≢◌, ◌≤◌, ◌⊎◌,
}
use nexocrypto.Decimal.{Decimal, le}
use nexocrypto.Shared.{Hashing, Mode, Side}
use nexocrypto.Risk.Idempotency.Window.{claim_stands}
use nexocrypto.Execution.{
  Execution, OrderRequest, Venue, close_position, execution_ttl_seconds, open_position,
}

-- One call of the executor with the reading of the clock at which the store is asked, and the venue
-- that it is given.
pub data Call : Type 0 where
  opens : ℕ → Mode → OrderRequest → Venue → Call
  closes : ℕ → String → Side → Decimal → Option String → String → Venue → Call

abbrev pub clock_of : Call → ℕ
clock_of (opens clock mode req venue) = clock
clock_of (closes clock pair side qty given_key timestamp venue) = clock

module _ (hashing : Hashing) (store : IdempotencyStore) where
  open store use {State, try_acquire, is_claimed, claims}

  abbrev pub key_of : Call → String
  key_of (opens clock mode req venue) = req.idempotency_key
  key_of (closes clock pair side qty given_key timestamp venue) =
      (close_request hashing store venue pair side qty given_key timestamp).idempotency_key

  unfoldable pub perform : Call → State → Execution State
  perform (opens clock mode req venue) s = open_position store venue clock mode req s
  perform (closes clock pair side qty given_key timestamp venue) s =
      close_position hashing store venue clock pair side qty given_key timestamp s

  -- The store after a run of calls.
  unfoldable pub run : List Call → State → State
  run [] s = s
  run (c ∷ cs) s = run cs (perform c s).state

  abbrev pub AllBefore : List Call → ℕ → Type 0
  AllBefore [] later = Unit
  AllBefore (c ∷ cs) later = (clock_of c ≤ later) × AllBefore cs later

  -- A call either sends under a key that was free and claims it, or leaves the store as it was.
  abbrev Effect : Call → State → Execution State → Type 0
  Effect c s x =
      ((is_claimed s (key_of c) (clock_of c) ≡ false)
        × (x.state ≡ (try_acquire (clock_of c) (key_of c) execution_ttl_seconds s).1))
      ⊎ ((x.sent ≡ []) × (x.state ≡ s))

  perform-Effect : (c : Call) (s : State) → Effect c s (perform c s)
  unfolding perform
  perform-Effect (opens clock mode req venue) s =
      elim (open_position_sends store venue clock mode req s) [
        | inl (may, went) ↦ inl (may.2, went.2)
        | inr (not_may, kept) ↦ inr (kept.0, kept.2)
      ]
  perform-Effect (closes clock pair side qty given_key timestamp venue) s =
      elim (close_position_sends hashing store venue clock pair side qty given_key timestamp s).2 [
        | inl (may, went) ↦ inl (may.1, went.2)
        | inr (not_may, kept) ↦ inr (kept.0, kept.2)
      ]

  perform_stands :
      (c : Call) (s : State) (key : String) (later : ℕ)
      → clock_of c ≤ later
      → is_claimed s key later ≡ true
      → is_claimed (perform c s).state key later ≡ true
  perform_stands c s key later le h = elim (perform-Effect c s) [
    | inl (free, state) ↦
        rw state (claim_stands store (clock_of c) later key (key_of c) execution_ttl_seconds s le h)
    | inr (sent, state) ↦ rw state h
  ]

  run_stands :
      (cs : List Call) (s : State) (key : String) (later : ℕ)
      → AllBefore cs later
      → is_claimed s key later ≡ true
      → is_claimed (run cs s) key later ≡ true
  unfolding run
  run_stands [] s key later before h = h
  run_stands (c ∷ cs) s key later before h =
      run_stands cs _ key later before.1 (perform_stands c s key later before.0 h)

  -- After a call that sent an order under a key, no call under the same key sends one before the
  -- window of 60 seconds has passed, whatever calls have run in between.
  pub sent_once :
      (c again : Call) (cs : List Call) (s : State)
      → (perform c s).sent ≢ []
      → AllBefore cs (clock_of again)
      → key_of again ≡ key_of c
      → clock_of again < expiry (clock_of c) execution_ttl_seconds
      → (perform again (run cs (perform c s).state)).sent ≡ []
  sent_once c again cs s went before same soon = elim (perform-Effect c s) [
    | inr (silent, state) ↦ absurd (went silent)
    | inl (free, state) ↦
        let claimed =
          claims (clock_of c) (clock_of again) (key_of c) execution_ttl_seconds s free
          ∙ lt→ltb (clock_of again) _ soon in
        let stands =
          run_stands cs (perform c s).state (key_of c) (clock_of again) before (rw state claimed) in
        elim (perform-Effect again (run cs (perform c s).state)) [
          | inl (free_again, _) ↦ cc (free_again, stands, same)
          | inr (silent, _) ↦ silent
        ]
  ]
