-- ===== src/Api/Coordinator/Safety.antt =====
-- When an approval reaches the venue.
use nexocrypto.Prelude.{
  Bool-cases, ok, sym, Bool, not, ◌&&◌, Result, [], ap, false, inl, inr, refl, some, true, ℕ, ◌∙◌,
  ◌∷◌, ◌≡◌, ◌⊎◌,
}
use nexocrypto.Decimal.{le, Decimal, lt, of_ℕ}
use nexocrypto.Api.State.{Approval, Connection, ModeState, Store}
use nexocrypto.Api.Modes.{get_mode}
use nexocrypto.Execution.Safety.{is_accepted, send-placed, is_semi_auto_eq, open_position_sends}
use nexocrypto.Execution.{open_position, placed, OrderRequest, Venue}
use nexocrypto.Api.Connections.{get_exchange_connection_enc}
use nexocrypto.Api.Coordinator.{
  record_not_placed, record_placed, with_connection, with_connector, with_qty, is_semi_auto,
  Handled, approval_order, block, carry_out, handle_approval_approve, no_exec, should_execute,
}
use nexocrypto.Risk.Idempotency.{IdempotencyStore}
use nexocrypto.Shared.{Mode, Uuid, semi_auto}
use nexocrypto.Api.Coordinator.Records.{is_executed}
use nexocrypto.Decimal.Order.{lt-eq-not-le}
use nexocrypto.Api.Coordinator.Course.{Carried, handle_approval_cases}

and_parts : (x y : Bool) → (x && y) ≡ true → (x ≡ true) × (y ≡ true)
and_parts true y h = (refl, h)
and_parts false y h = cc

not-true : (x : Bool) → not x ≡ true → x ≡ false
not-true false h = refl
not-true true h = cc

should_execute_parts :
    (m : ModeState)
    → should_execute m ≡ true
    → (m.mode ≡ semi_auto) × (m.live_unlocked ≡ true) × (m.account_protection_lock ≡ false)
unfolding should_execute
should_execute_parts m h =
    let (semi, rest) = and_parts (is_semi_auto m.mode) _ h in
    let (unlocked, free) = and_parts m.live_unlocked _ rest in
    (is_semi_auto_eq m.mode semi, unlocked, not-true m.account_protection_lock free)

le_of_lt : (qty : Decimal) → lt (of_ℕ 0) qty ≡ true → le qty (of_ℕ 0) ≡ false
le_of_lt qty h = not-true (le qty (of_ℕ 0)) (sym (lt-eq-not-le (of_ℕ 0) qty) ∙ h)

module _ (store : IdempotencyStore) (connector_factory : Connection → Result Venue) where
  open store use {State, is_claimed}

  -- What stands when an approval sends an order: the mode, its two switches, the stored connection, a
  -- positive quantity and a free key.
  pub record IsLive (clock : ℕ) (user : Uuid) (a : Approval) (st : Store) (s : State)
      (req : OrderRequest) : Type 0 where
    pub qty : Decimal
    pub connection : Connection
    pub is_semi_auto : (get_mode user st).mode ≡ semi_auto
    pub is_unlocked : (get_mode user st).live_unlocked ≡ true
    pub is_not_locked : (get_mode user st).account_protection_lock ≡ false
    pub is_connected : get_exchange_connection_enc user "bitunix" st ≡ some connection
    pub has_qty : a.qty ≡ some qty
    pub is_positive : lt (of_ℕ 0) qty ≡ true
    pub is_free : is_claimed s a.idempotency_key clock ≡ false
    pub is_request : req ≡ approval_order a qty

  Carried-sends :
      (clock : ℕ) (user : Uuid) (a : Approval) (st : Store) (s : State) (h : Handled State)
      → should_execute (get_mode user st) ≡ true
      → Carried store connector_factory clock user a st s h
      → (h.sent ≡ []) ⊎ ((req : OrderRequest) × (h.sent ≡ req ∷ []) × IsLive clock user a st s req)
  unfolding carry_out approval_order
  Carried-sends clock user a st s h live c =
      let parts = should_execute_parts (get_mode user st) live in
      let req = approval_order a c.qty in
      elim (open_position_sends store c.venue clock (get_mode user st).mode req s) [
        | inl (may, went) ↦ inr (
          req,
          ap (λ x. x.sent) c.goes ∙ went.0,
          record {
            qty = c.qty;
            connection = c.connection;
            is_semi_auto = parts.0;
            is_unlocked = parts.1;
            is_not_locked = parts.2;
            is_connected = c.is_connected;
            has_qty = c.has_qty;
            is_positive = may.1;
            is_free = may.2;
            is_request = refl;
          },
        )
        | inr (_, kept) ↦ inl (ap (λ x. x.sent) c.goes ∙ kept.0)
      ]

  -- An approval sends nothing, or one order: the approval's own, in semi_auto mode with live trading
  -- unlocked and no protection lock, with a stored connection, a positive quantity and a free key.
  pub handle_approval_sends :
      (clock : ℕ) (user : Uuid) (a : Approval) (st : Store) (s : State)
      → let h = handle_approval_approve store connector_factory clock user a st s in
        (h.sent ≡ []) ⊎ ((req : OrderRequest) × (h.sent ≡ req ∷ []) × IsLive clock user a st s req)
  unfolding no_exec block
  handle_approval_sends clock user a st s =
      let h = handle_approval_approve store connector_factory clock user a st s in
      elim (handle_approval_cases store connector_factory clock user a st s) [
        | inl (inert, goes) ↦ inl (ap (λ x. x.sent) goes)
        | inr (live, inl (reason, goes)) ↦ inl (ap (λ x. x.sent) goes)
        | inr (live, inr (inl (e, goes))) ↦ inl (ap (λ x. x.sent) goes)
        | inr (live, inr (inr c)) ↦ Carried-sends clock user a st s h live c
      ]

  live_approval_carries :
      (clock : ℕ) (user : Uuid) (a : Approval) (st : Store) (s : State) (c : Connection)
      (qty : Decimal) (venue : Venue)
      → should_execute (get_mode user st) ≡ true
      → get_exchange_connection_enc user "bitunix" st ≡ some c
      → connector_factory c ≡ ok venue
      → a.qty ≡ some qty
      → le qty (of_ℕ 0) ≡ false
      → handle_approval_approve store connector_factory clock user a st s
        ≡ carry_out store connector_factory clock user
            (get_mode user st).mode
            a
            (approval_order a qty)
            venue
            st
            s
  unfolding handle_approval_approve with_connection with_qty with_connector
  live_approval_carries clock user a st s c qty venue live found built has positive =
      rw (live, found, has, positive, built) refl

  is_executed-placed :
      (clock : ℕ) (user : Uuid) (mode : Mode) (a : Approval) (req : OrderRequest) (venue : Venue)
      (st : Store) (s : State)
      → is_executed (carry_out store connector_factory clock user mode a req venue st s).reply
        ≡ placed (open_position store venue clock mode req s).outcome
  unfolding carry_out record_placed record_not_placed
  is_executed-placed clock user mode a req venue st s =
      elim (Bool-cases (placed (open_position store venue clock mode req s).outcome)) [
        | inl went ↦ rw went refl
        | inr not_placed ↦ rw not_placed refl
      ]

  -- Where live execution is allowed, the user has a connection of which the factory makes a venue, the
  -- quantity is positive and the key is free, the approval's order is sent, once, and the reply says
  -- that it was executed exactly if the venue accepted it.
  pub live_approval_sends :
      (clock : ℕ) (user : Uuid) (a : Approval) (st : Store) (s : State) (c : Connection)
      (qty : Decimal) (venue : Venue)
      → should_execute (get_mode user st) ≡ true
      → get_exchange_connection_enc user "bitunix" st ≡ some c
      → connector_factory c ≡ ok venue
      → a.qty ≡ some qty
      → lt (of_ℕ 0) qty ≡ true
      → is_claimed s a.idempotency_key clock ≡ false
      → let h = handle_approval_approve store connector_factory clock user a st s in
        (h.sent ≡ approval_order a qty ∷ [])
        × (is_executed h.reply ≡ is_accepted (venue (approval_order a qty)))
  unfolding carry_out approval_order
  live_approval_sends clock user a st s c qty venue live found built has positive free =
      let req = approval_order a qty in
      let mode = (get_mode user st).mode in
      let goes =
        live_approval_carries clock user a st s c qty venue live found built has
          (le_of_lt qty positive) in
      let parts = should_execute_parts (get_mode user st) live in
      elim (open_position_sends store venue clock mode req s) [
        | inl (may, went) ↦ (
          ap (λ x. x.sent) goes ∙ went.0,
          ap (λ x. is_executed x.reply) goes
              ∙ is_executed-placed clock user mode a req venue st s
              ∙ ap placed went.1
              ∙ (send-placed venue req).0,
        )
        | inr (not_may, _) ↦ absurd (not_may (parts.0, positive, free))
      ]
