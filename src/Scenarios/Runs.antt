-- ===== src/Scenarios/Runs.antt =====
-- Runs of the commands and stages, and what the theorems say of them.
use vkit_orbit.Base.{true, false, ◌≡◌, refl, ap, none, some, List, [], ◌∷◌, Memᴰ, arith}
use vkit_orbit.Json.{str}
use vkit_orbit.Store.Schema.{Database, ProcessingStatus, queued, canceled}
use vkit_orbit.Store.Client.{ok}
use vkit_orbit.Store.Command.{run as commands_run}
use vkit_orbit.Store.Reference.{client}
use vkit_orbit.Outbox.{enqueue_intent}
use vkit_orbit.Documents.{cancel_processing_run}
use vkit_orbit.Processing.{Stage, Target, claim_stage, complete_validation, complete_analysis}
use vkit_orbit.Processing.Handoff.{
  IsHandedOn, complete_validation-IsHandedOn, complete_analysis-IsHandedOn,
}
use vkit_orbit.Processing.Leases.{Claim, claims, claim_stage_exclusive}
use vkit_orbit.Lifecycle.Single.{RunsMoveOnce, perform-MovesOnce}
use vkit_orbit.Lifecycle.System.{Call, perform, perform_all, terminal_absorbs}
use vkit_orbit.Scenarios.Hosts.{host, scope, with_runs, run, target, single_unique}

abbrev in_validation : Database
in_validation = with_runs (run ProcessingStatus.validating (some 60100) ∷ [])

abbrev in_analysis : Database
in_analysis = with_runs (run ProcessingStatus.analyzing (some 60100) ∷ [])

claimed :
    (claim_stage client 100 target Stage.validating 60000 (with_runs (run queued none ∷ []))).0
    ≡ ok true
unfolding claim_stage commands_run client
claimed = refl

-- A worker that tries the next stage, and one that claims another run.
abbrev other_target : Target
other_target = record target { run_id = "run_2" }

abbrev other_claims : List Claim
other_claims =
    record { at = 150; target = target; stage = Stage.analyzing; lease = 60000 }
    ∷ record { at = 160; target = other_target; stage = Stage.validating; lease = 60000 }
    ∷ []

abbrev first_claimed : Database
first_claimed =
    (claim_stage client 100 target Stage.validating 60000 (with_runs (run queued none ∷ []))).1

claim_stage_exclusive_example :
    claim_stage client 200 target Stage.validating 60000 (claims client other_claims first_claimed)
    ≡ (ok false, claims client other_claims first_claimed)
claim_stage_exclusive_example =
    claim_stage_exclusive client (with_runs (run queued none ∷ [])) target Stage.validating
      Stage.validating 100 200 60000 60000 other_claims (single_unique (run queued none)) claimed
      (omega arith, (omega arith, tt)) (omega arith)

perform-MovesOnce_example :
    RunsMoveOnce
      (run ProcessingStatus.validating (some 60100) ∷ [])
      (perform host (Call.validated 200 target) in_validation).runs
perform-MovesOnce_example =
    perform-MovesOnce host (Call.validated 200 target) in_validation refl
      (single_unique (run ProcessingStatus.validating (some 60100)))

abbrev late_calls : List Call
late_calls = Call.cancel "log_1" scope "run_1" ∷ Call.claim 100 target Stage.validating 60000 ∷ []

still_there :
    Memᴰ (run canceled none) (perform_all host late_calls (with_runs (run canceled none ∷ []))).runs
unfolding perform_all perform claim_stage cancel_processing_run commands_run client
still_there = Memᴰ.head refl

terminal_absorbs_example : canceled ≡ canceled
terminal_absorbs_example =
    terminal_absorbs host late_calls (with_runs (run canceled none ∷ [])) (run canceled none)
      (run canceled none) (single_unique (run canceled none)) (Memᴰ.head refl) refl still_there refl

validated : (complete_validation host 200 target in_validation).0 ≡ ok true
unfolding complete_validation enqueue_intent commands_run client
validated = refl

analyzed : (complete_analysis host 200 target (str "report") in_analysis).0 ≡ ok true
unfolding complete_analysis enqueue_intent commands_run client
analyzed = refl

complete_validation-IsHandedOn_example :
    IsHandedOn ProcessingStatus.analyzing "document.analyze.v1" target
      (complete_validation host 200 target in_validation).1
complete_validation-IsHandedOn_example =
    complete_validation-IsHandedOn host 200 target in_validation
      (complete_validation host 200 target in_validation).1
      (ap (λ r. (r, (complete_validation host 200 target in_validation).1)) validated)

complete_analysis-IsHandedOn_example :
    IsHandedOn ProcessingStatus.finalizing "document.finalize.v1" target
      (complete_analysis host 200 target (str "report") in_analysis).1
complete_analysis-IsHandedOn_example =
    complete_analysis-IsHandedOn host 200 target (str "report") in_analysis
      (complete_analysis host 200 target (str "report") in_analysis).1
      (ap (λ r. (r, (complete_analysis host 200 target (str "report") in_analysis).1)) analyzed)
