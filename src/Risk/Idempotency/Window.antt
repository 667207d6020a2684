-- ===== src/Risk/Idempotency/Window.antt =====
-- The claim of a key outlasts every other call of the store inside its window.
use nexocrypto.Risk.Idempotency.{IdempotencyStore}
use nexocrypto.Prelude.{Bool-cases, String, eq_iff, inl, inr, str_eq, true, ℕ, ◌≡◌, ◌≤◌}

module _ (store : IdempotencyStore) where
  open store use {State, try_acquire, is_claimed, refused, keeps, lasts}

  -- A claim that stands at a later reading of the clock stands after any call made before it.
  pub claim_stands :
      (now later : ℕ) (key other : String) (ttl : ℕ) (s : State)
      → now ≤ later
      → is_claimed s key later ≡ true
      → is_claimed (try_acquire now other ttl s).1 key later ≡ true
  claim_stands now later key other ttl s le h = elim (Bool-cases (str_eq other key)) [
    | inl same ↦
        let eq : other ≡ key = (eq_iff other key).0 same in
        rw (eq, refused now key ttl s (lasts now later key s le h)) h
    | inr differ ↦ rw (keeps now later other key ttl s (λ eq. cc ((eq_iff other key).1 eq))) h
  ]
