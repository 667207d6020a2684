-- ===== src/Api/Coordinator/Records.antt =====
-- What an approval leaves in the store: its audit row, and the approval's own state.
use nexocrypto.Api.Coordinator.{
  Reply, block, carry_out, executed, handle_approval_approve, no_exec, no_exec_reason,
  record_not_placed, record_placed, should_execute,
}
use nexocrypto.Prelude.{
  Dict, lookup, some, Bool, Bool-cases, Result, String, [], arith, false, inl, inr, length,
  length-append, none, not, ok, raised, refl, suc, true, ℕ, ◌++◌, ◌==◌, ◌∙◌, ◌∷◌, ◌≡◌, ◌⊎◌,
}
use nexocrypto.Shared.{Mode, Uuid}
use nexocrypto.Api.State.{Approval, AuditLog, Detail, uuid_text, Connection, Store}
use nexocrypto.Execution.{ExecutionReport, OrderRequest, Venue, open_position, placed}
use nexocrypto.Api.Ledger.{add_audit_log, add_order, add_trade, list_audit_logs, list_trades}
use nexocrypto.Api.Approvals.{resolve_approval, resolve_rows}
use nexocrypto.Risk.Idempotency.{IdempotencyStore}
use nexocrypto.Api.Modes.{get_mode}
use nexocrypto.Execution.Safety.{order_id}
use nexocrypto.Api.Coordinator.Course.{handle_approval_cases}

-- One new audit row for the user, naming the approval in its details, and no row for anyone else.
pub record IsAudited (user approval : Uuid) (before after : Store) : Type 0 where
  pub row : AuditLog
  pub names : lookup "approval_id" row.details ≡ some (uuid_text approval)
  pub grows : list_audit_logs user after ≡ list_audit_logs user before ++ row ∷ []
  pub keeps_others :
      (other : Uuid)
      → (other == user) ≡ false
      → list_audit_logs other after ≡ list_audit_logs other before

-- The reply says that the order was executed.
abbrev pub is_executed : Result Reply → Bool
is_executed (ok (executed status order_id trade order pair side qty)) = true
is_executed _ = false

eq_refl : (n : ℕ) → (n == n) ≡ true
eq_refl n = ground arith

add_audit_log-IsAudited :
    (user : Uuid) (actor action reason : String) (approval : Uuid) (details : Dict Detail)
    (before st : Store)
    → lookup "approval_id" details ≡ some (uuid_text approval)
    → st.audit ≡ before.audit
    → IsAudited user approval before (add_audit_log user actor action reason details st)
unfolding add_audit_log list_audit_logs
add_audit_log-IsAudited user actor action reason approval details before st named same = record {
  row = record {
    id = st.next_uuid;
    actor = actor;
    action = action;
    reason = reason;
    details = details;
  };
  names = named;
  grows = rw (eq_refl user, same) refl;
  keeps_others = λ other h. rw (h, same) refl;
}

-- What a live approval leaves: resolved with one more trade if the order was executed, and otherwise
-- still as it was.
abbrev pub Settled : Uuid → Approval → Store → Result Reply → Store → Type 0
Settled user a st reply after =
    ((is_executed reply ≡ true)
      × (after.approvals ≡ resolve_rows user a.id "approve" none st.approvals)
      × (length (list_trades user after) ≡ suc (length (list_trades user st))))
    ⊎ ((is_executed reply ≡ false) × (after.approvals ≡ st.approvals) × (after.trades ≡ st.trades))

-- Every return of the coordinator leaves one audit row; an exception leaves the store as it was.
abbrev pub Audited : Uuid → Approval → Store → Result Reply → Store → Type 0
Audited user a st (ok reply) after = IsAudited user a.id st after
Audited user a st (raised e) after = after ≡ st

record_placed_lem :
    (user : Uuid) (mode : Mode) (a : Approval) (req : OrderRequest) (r : ExecutionReport)
    (st : Store)
    → let x = record_placed user mode a req r st in
      IsAudited user a.id st x.1 × Settled user a st (ok x.0) x.1
unfolding lookup record_placed add_trade add_order resolve_approval list_trades add_audit_log
record_placed_lem user mode a req r st = (
  add_audit_log-IsAudited user "execution_engine" "open_order" r.reason a.id _ st _ refl refl,
  inl (refl, refl, rw (eq_refl user) (length-append (st.trades user) _ ∙ omega arith)),
)

record_not_placed_lem :
    (user : Uuid) (a : Approval) (r : ExecutionReport) (st : Store)
    → let x = record_not_placed user a r st in
      IsAudited user a.id st x.1 × Settled user a st (ok x.0) x.1
unfolding lookup record_not_placed add_audit_log
record_not_placed_lem user a r st = (
  add_audit_log-IsAudited user "execution_engine" "open_order_failed" r.reason a.id _ st st refl
      refl,
  inr (refl, refl, refl),
)

module _ (store : IdempotencyStore) (connector_factory : Connection → Result Venue) where
  open store use {State}

  carry_out_lem :
      (clock : ℕ) (user : Uuid) (mode : Mode) (a : Approval) (req : OrderRequest) (venue : Venue)
      (st : Store) (s : State)
      → let h = carry_out store connector_factory clock user mode a req venue st s in
        Audited user a st h.reply h.api × Settled user a st h.reply h.api
  unfolding carry_out
  carry_out_lem clock user mode a req venue st s =
      let r = (open_position store venue clock mode req s).outcome in
      elim (Bool-cases (placed r)) [
        | inl went ↦ rw went (record_placed_lem user mode a req r st)
        | inr not ↦ rw not (record_not_placed_lem user a r st)
      ]

  -- Every return of the coordinator adds exactly one audit row for the user, which names the approval,
  -- and none for another user; an exception of the connector factory leaves the store as it was.
  pub handle_approval-Audited :
      (clock : ℕ) (user : Uuid) (a : Approval) (st : Store) (s : State)
      → let h = handle_approval_approve store connector_factory clock user a st s in
        Audited user a st h.reply h.api
  unfolding lookup no_exec block resolve_approval
  handle_approval-Audited clock user a st s =
      elim (handle_approval_cases store connector_factory clock user a st s) [
        | inl (inert, goes) ↦ rw goes (
            add_audit_log-IsAudited user "human" "approval_approved_no_exec"
              (no_exec_reason (get_mode user st)) a.id _ st _ refl refl)
        | inr (live, inl (reason, goes)) ↦ rw goes (
            add_audit_log-IsAudited user "execution_engine" "open_order_blocked" reason a.id _ st st
              refl refl)
        | inr (live, inr (inl (e, goes))) ↦ rw goes refl
        | inr (live, inr (inr c)) ↦ rw c.goes (carry_out_lem clock user _ a _ c.venue st s).0
      ]

  -- Where live execution is allowed, the approval is resolved, with one more trade on record, exactly
  -- if the reply says that the order was executed; otherwise approvals and trades are as before.
  pub live_approval-Settled :
      (clock : ℕ) (user : Uuid) (a : Approval) (st : Store) (s : State)
      → should_execute (get_mode user st) ≡ true
      → let h = handle_approval_approve store connector_factory clock user a st s in
        Settled user a st h.reply h.api
  unfolding block add_audit_log
  live_approval-Settled clock user a st s live =
      elim (handle_approval_cases store connector_factory clock user a st s) [
        | inl (inert, goes) ↦ cc
        | inr (_, inl (reason, goes)) ↦ rw goes (inr (refl, refl, refl))
        | inr (_, inr (inl (e, goes))) ↦ rw goes (inr (refl, refl, refl))
        | inr (_, inr (inr c)) ↦ rw c.goes (carry_out_lem clock user _ a _ c.venue st s).1
      ]

  -- An executed order's approval is resolved.
  pub executed_resolves :
      (clock : ℕ) (user : Uuid) (a : Approval) (st : Store) (s : State)
      → let h = handle_approval_approve store connector_factory clock user a st s in
        is_executed h.reply ≡ true
        → h.api.approvals ≡ resolve_rows user a.id "approve" none st.approvals
  unfolding no_exec
  executed_resolves clock user a st s done =
      let h = handle_approval_approve store connector_factory clock user a st s in
      elim (handle_approval_cases store connector_factory clock user a st s) [
        | inl (inert, goes) ↦ cc (goes, done)
        | inr (live, _) ↦ elim (live_approval-Settled clock user a st s live) [
          | inl settled ↦ settled.1
          | inr kept ↦ cc (kept.0, done)
        ]
      ]
