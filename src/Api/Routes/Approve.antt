-- ===== src/Api/Routes/Approve.antt =====
-- A click on approve, and a second click.
use nexocrypto.Api.Routes.{
  respond, refuse, post_approval_decision, serve_approve, http_error, Response, body, server_error,
}
use nexocrypto.Prelude.{
  map_option, Bool-cases, ap, inl, inr, raised, str_eq, sym, ◌∙◌, Bool, Option, Result, String,
  false, none, ok, refl, some, true, ℕ, ◌≡◌,
}
use nexocrypto.Api.State.{Approval, Connection, Store}
use nexocrypto.Api.Approvals.{find_approval, resolved, get_approval, resolve_rows}
use nexocrypto.Shared.{Uuid}
use nexocrypto.Execution.{Venue}
use nexocrypto.Api.Coordinator.{handle_approval_approve, Reply}
use nexocrypto.Risk.Idempotency.{IdempotencyStore}
use nexocrypto.Api.Approvals.Resolution.{find_approval-resolve_rows, find_approval_ids}
use nexocrypto.Api.Coordinator.Records.{executed_resolves, is_executed}

-- The request was answered with an executed order.
abbrev pub tells_executed : Response Reply → Bool
tells_executed (body r) = is_executed (ok r)
tells_executed (http_error code) = false
tells_executed (server_error e) = false

tells_executed-respond : (r : Result Reply) → tells_executed (respond r) ≡ is_executed r
tells_executed-respond (ok r) = refl
tells_executed-respond (raised e) = refl

module _ (store : IdempotencyStore) (connector_factory : Connection → Result Venue) where
  open store use {State}

  post_approve :
      (clock : ℕ) (user id : Uuid) (reason : Option String) (st : Store) (s : State)
      → post_approval_decision store connector_factory clock user id "approve" reason st s
        ≡ serve_approve store connector_factory clock user (get_approval user id st) st s
  unfolding post_approval_decision
  post_approve clock user id reason st s = refl

  serve_pending :
      (clock : ℕ) (user : Uuid) (a : Approval) (st : Store) (s : State)
      → str_eq a.status "pending" ≡ true
      → let h = handle_approval_approve store connector_factory clock user a st s in
        serve_approve store connector_factory clock user (some a) st s
        ≡ record { sent = h.sent; response = respond h.reply; api = h.api; state = h.state }
  unfolding serve_approve
  serve_pending clock user a st s pending = rw pending refl

  serve_not_pending :
      (clock : ℕ) (user : Uuid) (a : Approval) (st : Store) (s : State)
      → str_eq a.status "pending" ≡ false
      → serve_approve store connector_factory clock user (some a) st s
        ≡ refuse store connector_factory 409 st s
  unfolding serve_approve
  serve_not_pending clock user a st s other = rw other refl

  serve_approve_executed :
      (clock : ℕ) (user : Uuid) (o : Option Approval) (st : Store) (s : State)
      → tells_executed (serve_approve store connector_factory clock user o st s).response ≡ true
      → (a : Approval) × (o ≡ some a)
        × ((serve_approve store connector_factory clock user o st s).api.approvals
            ≡ resolve_rows user a.id "approve" none st.approvals)
  unfolding serve_approve refuse
  serve_approve_executed clock user none st s h = cc
  serve_approve_executed clock user (some a) st s h =
      elim (Bool-cases (str_eq a.status "pending")) [
        | inl pending ↦
            let served = serve_pending clock user a st s pending in
            let done =
              sym (tells_executed-respond _)
              ∙ sym (ap (λ x. tells_executed x.response) served)
              ∙ h in
            (
              a,
              refl,
              ap (λ x. x.api.approvals) served
                  ∙ executed_resolves store connector_factory clock user a st s done,
            )
        | inr other ↦
            cc (ap (λ x. tells_executed x.response) (serve_not_pending clock user a st s other), h)
      ]

  get_approval_again :
      (user id : Uuid) (a : Approval) (before after : Store)
      → get_approval user id before ≡ some a
      → after.approvals ≡ resolve_rows user a.id "approve" none before.approvals
      → get_approval user id after ≡ some (record a { status = "approve" })
  unfolding get_approval
  get_approval_again user id a before after found done =
      ap (find_approval user id) done
      ∙ ap (λ i. find_approval user id (resolve_rows user i "approve" none before.approvals))
          (find_approval_ids user id before.approvals a found).0
      ∙ find_approval-resolve_rows user id "approve" none before.approvals
      ∙ ap (map_option (resolved "approve" none)) found

  -- Once an approve request was answered with an executed order, an approve request for the same
  -- approval, on the stores that the first one left, gets the error 409, sends nothing and changes
  -- nothing, whenever it comes.
  pub second_approve_conflicts :
      (clock later : ℕ) (user id : Uuid) (reason reason' : Option String) (st : Store) (s : State)
      → let first =
          post_approval_decision store connector_factory clock user id "approve" reason st s in
        tells_executed first.response ≡ true
        → post_approval_decision store connector_factory later user id "approve" reason' first.api
            first.state
          ≡ refuse store connector_factory 409 first.api first.state
  second_approve_conflicts clock later user id reason reason' st s h =
      let first =
        post_approval_decision store connector_factory clock user id "approve" reason st s in
      let same = post_approve clock user id reason st s in
      let (a, found, done) =
        serve_approve_executed clock user (get_approval user id st) st s
          (sym (ap (λ x. tells_executed x.response) same) ∙ h) in
      let again =
        get_approval_again user id a st first.api found (ap (λ x. x.api.approvals) same ∙ done) in
      post_approve later user id reason' first.api first.state
      ∙ ap (λ o. serve_approve store connector_factory later user o first.api first.state) again
      ∙ serve_not_pending later user (record a { status = "approve" }) first.api first.state refl
