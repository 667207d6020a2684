-- ===== src/Execution/Safety.antt =====
-- What reaches the venue: the conditions under which the executor sends an order, and what its report
-- says of the venue's reply.
use nexocrypto.Execution.{
  close_position, closing_key, closing_request, mode_refusal, rejected, report_reply, Execution,
  ExecutionStatus, OrderRequest, Venue, VenueReply, accepted, claim_and_send, connector_error,
  duplicate, execution_ttl_seconds, filled, open_position, placed, report, send, stop,
  unexpected_error,
}
use nexocrypto.Shared.{
  Hashing, Side, dedup_hash, long, short, side_value, is_semi_auto, Mode, semi_auto,
}
use nexocrypto.Decimal.{Decimal, le, lt, of_ℕ}
use nexocrypto.Risk.Idempotency.{IdempotencyStore}
use nexocrypto.Decimal.Order.{lt-eq-not-le, lt_of_not_le}
use nexocrypto.Prelude.{
  ◌≢◌, Bool, Bool-cases, Option, ap, inl, inr, none, some, String, [], false, refl, true, ℕ, ◌∷◌,
  ◌≡◌, ◌⊎◌,
}

-- The order id of a reply that accepts the order.
abbrev pub order_id : VenueReply → Option String
order_id (accepted result) = some result.exchange_order_id
order_id (connector_error e) = none
order_id (unexpected_error e) = none

abbrev pub is_accepted : VenueReply → Bool
is_accepted (accepted result) = true
is_accepted (connector_error e) = false
is_accepted (unexpected_error e) = false

report_reply_lem :
    (req : OrderRequest) (reply : VenueReply)
    → (placed (report_reply req reply) ≡ is_accepted reply)
      × ((report_reply req reply).exchange_order_id ≡ order_id reply)
unfolding report_reply report
report_reply_lem req (accepted result) = (refl, refl)
report_reply_lem req (connector_error e) = (refl, refl)
report_reply_lem req (unexpected_error e) = (refl, refl)

-- A sent order is reported as placed exactly if the venue accepted it, and the report carries an
-- exchange order id exactly then: an exception of any kind is a report of an order not placed.
pub send-placed :
    (venue : Venue) (req : OrderRequest)
    → (placed (send venue req) ≡ is_accepted (venue req))
      × ((send venue req).exchange_order_id ≡ order_id (venue req))
unfolding send
send-placed venue req = report_reply_lem req (venue req)

pub is_semi_auto_eq : (mode : Mode) → is_semi_auto mode ≡ true → mode ≡ semi_auto
is_semi_auto_eq semi_auto h = refl
is_semi_auto_eq _ h = cc

module _ (store : IdempotencyStore) (venue : Venue) where
  open store use {State, try_acquire, is_claimed, refused, granted}

  pub claim_and_send_held :
      (clock : ℕ) (req : OrderRequest) (s : State)
      → is_claimed s req.idempotency_key clock ≡ true
      → claim_and_send store venue clock req s
        ≡ stop store venue s req duplicate "idempotency_key_already_claimed"
  unfolding claim_and_send
  claim_and_send_held clock req s held =
      rw (refused clock req.idempotency_key execution_ttl_seconds s held)

  pub claim_and_send_free :
      (clock : ℕ) (req : OrderRequest) (s : State)
      → is_claimed s req.idempotency_key clock ≡ false
      → claim_and_send store venue clock req s ≡ record {
        sent = req ∷ [];
        outcome = send venue req;
        state = (try_acquire clock req.idempotency_key execution_ttl_seconds s).1;
      }
  unfolding claim_and_send
  claim_and_send_free clock req s free =
      rw (granted clock req.idempotency_key execution_ttl_seconds s free)

  -- An order that may go out: live mode, a positive quantity and a free key.
  abbrev pub MayOpen : ℕ → Mode → OrderRequest → State → Type 0
  MayOpen clock mode req s =
      (mode ≡ semi_auto)
      × (lt (of_ℕ 0) req.qty ≡ true)
      × (is_claimed s req.idempotency_key clock ≡ false)

  -- What a call has done: nothing and an unchanged store, or one order, sent as asked, and a claim.
  abbrev pub SentOnce : ℕ → OrderRequest → State → Execution State → Type 0
  SentOnce clock req s x =
      (x.sent ≡ req ∷ [])
      × (x.outcome ≡ send venue req)
      × (x.state ≡ (try_acquire clock req.idempotency_key execution_ttl_seconds s).1)

  abbrev pub HeldBack : State → Execution State → Type 0
  HeldBack s x = (x.sent ≡ []) × (placed x.outcome ≡ false) × (x.state ≡ s)

  HeldBack-stop :
      (s : State) (req : OrderRequest) (status : ExecutionStatus) (reason : String)
      → (elim status [ filled ↦ true | _ ↦ false ]) ≡ false
      → HeldBack s (stop store venue s req status reason)
  unfolding stop report
  HeldBack-stop s req status reason h = (refl, h, refl)

  claim_and_send_cases :
      (clock : ℕ) (req : OrderRequest) (s : State)
      → let x = claim_and_send store venue clock req s in
        ((is_claimed s req.idempotency_key clock ≡ false) × SentOnce clock req s x)
        ⊎ ((is_claimed s req.idempotency_key clock ≡ true) × HeldBack s x)
  claim_and_send_cases clock req s = elim (Bool-cases (is_claimed s req.idempotency_key clock)) [
    | inl held ↦ inr (
      held,
      rw (claim_and_send_held clock req s held)
          (HeldBack-stop s req duplicate "idempotency_key_already_claimed" refl),
    )
    | inr free ↦ inl (free, rw (claim_and_send_free clock req s free) (refl, refl, refl))
  ]

  -- An entry order is sent, once and as asked, exactly in semi_auto mode with a positive quantity and
  -- a free key; otherwise nothing is sent, nothing is reported as placed and the store is unchanged.
  pub open_position_sends :
      (clock : ℕ) (mode : Mode) (req : OrderRequest) (s : State)
      → let x = open_position store venue clock mode req s in
        (MayOpen clock mode req s × SentOnce clock req s x)
        ⊎ ((¬ MayOpen clock mode req s) × HeldBack s x)
  unfolding open_position
  open_position_sends clock mode req s = elim (Bool-cases (is_semi_auto mode)) [
    | inr other ↦ rw other (
        inr (
          λ may. cc (ap is_semi_auto may.0),
          HeldBack-stop s req rejected (mode_refusal mode) refl,
        ))
    | inl semi ↦ elim (Bool-cases (le req.qty (of_ℕ 0))) [
      | inl empty ↦
          rw (semi, empty)
            (inr (
              λ may. cc (may.1, lt-eq-not-le (of_ℕ 0) req.qty),
              HeldBack-stop s req rejected "non_positive_qty" refl,
            ))
      | inr positive ↦
          rw (semi, positive)
            (elim (claim_and_send_cases clock req s) [
              | inl (free, went) ↦
                  inl (
                    (is_semi_auto_eq mode semi, lt_of_not_le req.qty (of_ℕ 0) positive, free),
                    went,
                  )
              | inr (held, kept) ↦ inr (λ may. cc (may.2), kept)
            ])
    ]
  ]

other_side : (side : Side) → (elim side [ long ↦ short | short ↦ long ]) ≢ side
other_side long h = cc
other_side short h = cc

module _ (hashing : Hashing) (store : IdempotencyStore) (venue : Venue) where
  open store use {State, is_claimed}

  -- The order of one close, with the key that it is given or makes.
  abbrev pub close_request : String → Side → Decimal → Option String → String → OrderRequest
  close_request pair side qty given_key timestamp = closing_request pair side qty (
      closing_key given_key
        (dedup_hash hashing ("close" ∷ pair ∷ side_value side ∷ timestamp ∷ [])))

  -- A close is asked for in no mode, so none can block it: it is sent, once, reduce only and on the
  -- other side, exactly if the quantity is positive and the key is free.
  pub close_position_sends :
      (clock : ℕ) (pair : String) (side : Side) (qty : Decimal) (given_key : Option String)
      (timestamp : String) (s : State)
      → let req = close_request pair side qty given_key timestamp in
        let x = close_position hashing store venue clock pair side qty given_key timestamp s in
        let may = (lt (of_ℕ 0) qty ≡ true) × (is_claimed s req.idempotency_key clock ≡ false) in
        (req.reduce_only ≡ true)
        × (req.side ≢ side)
        × ((may × SentOnce store venue clock req s x) ⊎ ((¬ may) × HeldBack store venue s x))
  unfolding close_position closing_request
  close_position_sends clock pair side qty given_key timestamp s =
      let req = close_request pair side qty given_key timestamp in
      (
        refl,
        other_side side,
        elim (Bool-cases (le qty (of_ℕ 0))) [
          | inl empty ↦ rw empty (
              inr (
                λ may. cc (may.0, lt-eq-not-le (of_ℕ 0) qty),
                HeldBack-stop store venue s req rejected "non_positive_qty" refl,
              ))
          | inr positive ↦ rw positive (elim (claim_and_send_cases store venue clock req s) [
            | inl (free, went) ↦ inl ((lt_of_not_le qty (of_ℕ 0) positive, free), went)
            | inr (held, kept) ↦ inr (λ may. cc (may.1), kept)
          ])
        ],
      )
