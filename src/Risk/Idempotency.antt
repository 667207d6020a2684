-- ===== src/Risk/Idempotency.antt =====
-- services/engine/src/nexocrypto_engine/risk/idempotency.py: the store of claimed keys, as the
-- interface that its clients use and as the process-local dict. A clock reading is the count of
-- microseconds of `time.monotonic()`.
pub mod Window
use nexocrypto.Prelude.{
  ◌≤◌, ℕ, ◌+◌, ◌*◌, ◌≡◌, ◌≢◌, Bool, true, false, String, [], Option, none, some, ltb, if◌then◌else◌,
  Dict, lookup, insert, lookup-insert, arith, eq_iff, Bool-cases, inl, inr, ap,
}

-- The end of a window that opens now.
abbrev pub expiry : ℕ → ℕ → ℕ
expiry now ttl_seconds = now + ttl_seconds * 1000000

-- What a client relies on: a claimed key is refused and nothing changes, a free one is claimed until
-- its window has passed, and no other key is touched. A claim has no gaps.
pub record IdempotencyStore : Type 1 where
  pub State : Type 0
  pub try_acquire : ℕ → String → ℕ → State → Bool × State
  pub is_claimed : State → String → ℕ → Bool
  pub refused :
      (now : ℕ) (key : String) (ttl : ℕ) (s : State)
      → is_claimed s key now ≡ true
      → try_acquire now key ttl s ≡ (false, s)
  pub granted :
      (now : ℕ) (key : String) (ttl : ℕ) (s : State)
      → is_claimed s key now ≡ false
      → (try_acquire now key ttl s).0 ≡ true
  pub claims :
      (now later : ℕ) (key : String) (ttl : ℕ) (s : State)
      → is_claimed s key now ≡ false
      → is_claimed (try_acquire now key ttl s).1 key later ≡ ltb later (expiry now ttl)
  pub keeps :
      (now later : ℕ) (key other : String) (ttl : ℕ) (s : State)
      → key ≢ other
      → is_claimed (try_acquire now key ttl s).1 other later ≡ is_claimed s other later
  pub lasts :
      (earlier later : ℕ) (key : String) (s : State)
      → earlier ≤ later
      → is_claimed s key later ≡ true
      → is_claimed s key earlier ≡ true

-- `InMemoryIdempotencyStore.try_acquire`, on its dict from keys to expiry times.
unfoldable pub try_acquire_in_memory : ℕ → String → ℕ → Dict ℕ → Bool × Dict ℕ
try_acquire_in_memory now key ttl keys = elim (lookup key keys) [
  | none ↦ (true, insert key (expiry now ttl) keys)
  | some until ↦ if ltb now until then (false, keys) else (true, insert key (expiry now ttl) keys)
]

-- `clear`
unfoldable pub clear : Dict ℕ → Dict ℕ
clear keys = []

-- Whether an unexpired entry holds the key.
unfoldable pub is_held : Option ℕ → ℕ → Bool
is_held none now = false
is_held (some until) now = ltb now until

abbrev pub is_claimed_in_memory : Dict ℕ → String → ℕ → Bool
is_claimed_in_memory keys key now = is_held (lookup key keys) now

pub refused_in_memory :
    (now : ℕ) (key : String) (ttl : ℕ) (s : Dict ℕ)
    → is_claimed_in_memory s key now ≡ true
    → try_acquire_in_memory now key ttl s ≡ (false, s)
unfolding try_acquire_in_memory is_held
refused_in_memory now key ttl s h = ground arith

pub granted_in_memory :
    (now : ℕ) (key : String) (ttl : ℕ) (s : Dict ℕ)
    → is_claimed_in_memory s key now ≡ false
    → try_acquire_in_memory now key ttl s ≡ (true, insert key (expiry now ttl) s)
unfolding try_acquire_in_memory is_held
granted_in_memory now key ttl s h = ground arith

pub claims_in_memory :
    (now later : ℕ) (key : String) (ttl : ℕ) (s : Dict ℕ)
    → is_claimed_in_memory s key now ≡ false
    → is_claimed_in_memory (try_acquire_in_memory now key ttl s).1 key later
      ≡ ltb later (expiry now ttl)
unfolding is_held
claims_in_memory now later key ttl s h =
    rw (granted_in_memory now key ttl s h, lookup-insert key key (expiry now ttl) s)
      (ground (arith, eq_iff key key))

pub keeps_in_memory :
    (now later : ℕ) (key other : String) (ttl : ℕ) (s : Dict ℕ)
    → key ≢ other
    → is_claimed_in_memory (try_acquire_in_memory now key ttl s).1 other later
      ≡ is_claimed_in_memory s other later
unfolding is_held
keeps_in_memory now later key other ttl s ne = elim (Bool-cases (is_claimed_in_memory s key now)) [
  | inl held ↦ rw (refused_in_memory now key ttl s held)
  | inr free ↦
      rw (granted_in_memory now key ttl s free, lookup-insert key other (expiry now ttl) s)
        (ground (arith, eq_iff key other))
]

pub lasts_in_memory :
    (earlier later : ℕ) (key : String) (s : Dict ℕ)
    → earlier ≤ later
    → is_claimed_in_memory s key later ≡ true
    → is_claimed_in_memory s key earlier ≡ true
unfolding is_held
lasts_in_memory earlier later key s le h = ground arith

-- The dict meets the interface.
abbrev pub in_memory_store : IdempotencyStore
in_memory_store = record {
  State = Dict ℕ;
  try_acquire = try_acquire_in_memory;
  is_claimed = is_claimed_in_memory;
  refused = refused_in_memory;
  granted = λ now key ttl s h. ap (λ (r : Bool × Dict ℕ). r.0) (granted_in_memory now key ttl s h);
  claims = claims_in_memory;
  keeps = keeps_in_memory;
  lasts = lasts_in_memory;
}
