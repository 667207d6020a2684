-- ===== src/Examples/RefinementExamples.antt =====
-- Examples for the exact condition of an approval, and for the queue of approvals as a map.
use nexocrypto.Prelude.{[], arith, ◌↔◌, some}
use nexocrypto.Risk.Idempotency.{in_memory_store}
use nexocrypto.Examples.Data.{plain_hashing, request, signal}
use nexocrypto.Risk.Types.{duplicate_signal}
use nexocrypto.Risk.Engine.Exactly.{Approves, CanPass, authorize-CanPass}
use nexocrypto.Risk.Engine.{authorize_new_entry, no_findings, reject_decision}
use nexocrypto.Api.Approvals.Refinement.{IsNumbered, IsRefinement, shown-IsRefinement}
use nexocrypto.Api.Approvals.{add_approval}
use nexocrypto.Shared.{TradeDecision}
use nexocrypto.Api.State.{Store, empty_store}

authorize-CanPass_example :
    Approves plain_hashing in_memory_store request []
      (authorize_new_entry plain_hashing in_memory_store request [])
    ↔ CanPass in_memory_store request []
authorize-CanPass_example = authorize-CanPass plain_hashing in_memory_store request []

refusal : TradeDecision
refusal = reject_decision plain_hashing request duplicate_signal no_findings

one_row : Store
unfolding add_approval
one_row = (add_approval 1 signal refusal empty_store).1

one_row-IsNumbered : IsNumbered one_row
unfolding one_row
one_row-IsNumbered = (omega arith, tt)

shown-IsRefinement_example : IsRefinement one_row 2 signal refusal 0 "reject" (some "late")
shown-IsRefinement_example =
    shown-IsRefinement one_row 2 signal refusal 0 "reject" (some "late") one_row-IsNumbered
