-- ===== src/Api/Coordinator/Course.antt =====
-- The four ways in which the coordinator's call can go.
use nexocrypto.Prelude.{
  Bool-cases, Exception, Option, Result, String, [], false, inl, inr, none, ok, raised, refl, some,
  true, ℕ, ◌≡◌, ◌⊎◌,
}
use nexocrypto.Decimal.{Decimal, le, of_ℕ}
use nexocrypto.Risk.Idempotency.{IdempotencyStore}
use nexocrypto.Shared.{Uuid}
use nexocrypto.Api.State.{Approval, Connection, Store}
use nexocrypto.Api.Modes.{get_mode}
use nexocrypto.Api.Connections.{get_exchange_connection_enc}
use nexocrypto.Execution.{Venue}
use nexocrypto.Api.Coordinator.{
  Handled, approval_order, block, carry_out, handle_approval_approve, no_exec, should_execute,
  with_connection, with_connector, with_qty,
}

module _ (store : IdempotencyStore) (connector_factory : Connection → Result Venue) where
  open store use {State}

  -- Live execution with a connector: what was found on the way, and the call that remains.
  pub record Carried (clock : ℕ) (user : Uuid) (a : Approval) (st : Store) (s : State)
      (h : Handled State) : Type 0 where
    pub qty : Decimal
    pub connection : Connection
    pub venue : Venue
    pub has_qty : a.qty ≡ some qty
    pub is_positive : le qty (of_ℕ 0) ≡ false
    pub is_connected : get_exchange_connection_enc user "bitunix" st ≡ some connection
    pub is_built : connector_factory connection ≡ ok venue
    pub goes :
        h
        ≡ carry_out store connector_factory clock user
            (get_mode user st).mode
            a
            (approval_order a qty)
            venue
            st
            s

  abbrev pub Course : ℕ → Uuid → Approval → Store → State → Handled State → Type 0
  Course clock user a st s h =
      ((reason : String) × (h ≡ block store connector_factory user a reason st s))
      ⊎ (((e : Exception) × (h ≡ record { sent = []; reply = raised e; api = st; state = s }))
          ⊎ Carried clock user a st s h)

  Course-with_connector :
      (clock : ℕ) (user : Uuid) (a : Approval) (c : Connection) (qty : Decimal) (m : Result Venue)
      (st : Store) (s : State)
      → a.qty ≡ some qty
      → le qty (of_ℕ 0) ≡ false
      → get_exchange_connection_enc user "bitunix" st ≡ some c
      → connector_factory c ≡ m
      → Course clock user a st s (
          with_connector store connector_factory clock user
            (get_mode user st).mode
            a
            (approval_order a qty)
            m
            st
            s)
  unfolding with_connector
  Course-with_connector clock user a c qty (raised e) st s h positive found built =
      inr (inl (e, refl))
  Course-with_connector clock user a c qty (ok venue) st s h positive found built = inr (
      inr (record {
        qty = qty;
        connection = c;
        venue = venue;
        has_qty = h;
        is_positive = positive;
        is_connected = found;
        is_built = built;
        goes = refl;
      }))

  Course-with_qty :
      (clock : ℕ) (user : Uuid) (a : Approval) (c : Connection) (o : Option Decimal) (st : Store)
      (s : State)
      → a.qty ≡ o
      → get_exchange_connection_enc user "bitunix" st ≡ some c
      → Course clock user a st s
          (with_qty store connector_factory clock user (get_mode user st).mode a c o st s)
  unfolding with_qty
  Course-with_qty clock user a c none st s h found = inl ("approval_missing_qty", refl)
  Course-with_qty clock user a c (some qty) st s h found = elim (Bool-cases (le qty (of_ℕ 0))) [
    | inl empty ↦ rw empty (inl ("approval_missing_qty", refl))
    | inr positive ↦
        rw positive (
          Course-with_connector clock user a c qty (connector_factory c) st s h positive found refl)
  ]

  Course-with_connection :
      (clock : ℕ) (user : Uuid) (a : Approval) (o : Option Connection) (st : Store) (s : State)
      → get_exchange_connection_enc user "bitunix" st ≡ o
      → Course clock user a st s
          (with_connection store connector_factory clock user (get_mode user st).mode a o st s)
  unfolding with_connection
  Course-with_connection clock user a none st s found = inl ("no_bitunix_connection", refl)
  Course-with_connection clock user a (some c) st s found =
      Course-with_qty clock user a c a.qty st s refl found

  -- Either the mode forbids execution and the approval is only recorded, or one of the three courses
  -- of a live approval is taken.
  pub handle_approval_cases :
      (clock : ℕ) (user : Uuid) (a : Approval) (st : Store) (s : State)
      → let h = handle_approval_approve store connector_factory clock user a st s in
        ((should_execute (get_mode user st) ≡ false)
          × (h ≡ no_exec store connector_factory user a (get_mode user st) st s))
        ⊎ ((should_execute (get_mode user st) ≡ true) × Course clock user a st s h)
  unfolding handle_approval_approve
  handle_approval_cases clock user a st s = elim (Bool-cases (should_execute (get_mode user st))) [
    | inl live ↦ rw live (
        inr (
          refl,
          Course-with_connection clock user a (get_exchange_connection_enc user "bitunix" st) st s
              refl,
        ))
    | inr inert ↦ rw inert (inl (refl, refl))
  ]
