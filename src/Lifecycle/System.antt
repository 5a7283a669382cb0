-- ===== src/Lifecycle/System.antt =====
-- The application's calls that can touch a run, in any order and any number, as the API, the worker and
-- the scheduler make them. The handlers of the analysis and of the finalization are made of the claim, the
-- completion and the failure of a stage, which are calls of their own.
use vkit_orbit.Base.{
  ℕ, String, ◌≡◌, refl, ap, subst, sym, Option, none, List, [], ◌∷◌, Memᴰ, ◌∙◌, true,
}
use vkit_orbit.Host.{Host}
use vkit_orbit.Audit.{Scope}
use vkit_orbit.Json.{Json}
use vkit_orbit.Store.Schema.{Database, ProcessingRun, ProcessingStatus}
use vkit_orbit.Store.Client.{Error, Result, ok}
use vkit_orbit.Store.Evolution.{Evolves-mem, HasUniqueIds}
use vkit_orbit.Documents.{
  is_terminal, Upload, SourceKey, cancel_processing_run, confirm_document_upload,
  create_document_upload, retry_processing_run, submit_processing_run,
}
use vkit_orbit.Documents.StateMachine.{processing_status, assert_transition}
use vkit_orbit.Outbox.{claim_outbox_batch}
use vkit_orbit.Processing.{
  Stage, Target, Finalization, claim_stage, complete_validation, complete_analysis,
  complete_finalization, fail_stage,
}
use vkit_orbit.Recovery.{recover_processing, recover_webhooks, cleanup_documents}
use vkit_orbit.Webhooks.{Response}
use vkit_orbit.Worker.Handlers.{
  handle_document_validate, DeliveryJob, handle_webhook_deliver, handle_document_recover,
  handle_document_cleanup,
}
use vkit_orbit.Lifecycle.Order.{
  Follows, here, next, Moves, IsStarted, run_id, RunsEvolve, RunsEvolve-refl, RunsEvolve-trans,
}
use vkit_orbit.Lifecycle.Commands.{
  cancel_processing_run-Steps, confirm_document_upload-Steps, create_document_upload-Steps,
  retry_processing_run-Steps, submit_processing_run-Steps,
}
use vkit_orbit.Lifecycle.Stages.{
  claim_stage-Steps, complete_validation-Steps, complete_analysis-Steps,
  complete_finalization-Steps, fail_stage-Steps,
}
use vkit_orbit.Lifecycle.Workers.{
  recover_processing-Steps, recover_webhooks-Steps, cleanup_documents-Steps,
  claim_outbox_batch-Steps, handle_document_validate-Steps, handle_document_recover-Steps,
  handle_document_cleanup-Steps, handle_webhook_deliver-Steps,
}

-- A call with its arguments.
pub data Call : Type 0 where
  cancel : (uuid : String) → Scope → (run_id : String) → Call
  confirm :
      (uuid : String) (head : String → Result (Option ℕ))
      → Scope
      → (document_id : String) → Option ℕ
      → Call
  upload : (uuid : String) → SourceKey → (now : ℕ) → Scope → String × String → Upload → Call
  retry : String × String → (now : ℕ) → Scope → (run_id : String) → Call
  submit :
      (ProcessingRun → Json)
      → (uuid : String) → String × String
      → (now : ℕ) → Scope
      → (document_id key : String) → Call
  claim : (now : ℕ) → Target → Stage → (lease : ℕ) → Call
  validated : (now : ℕ) → Target → Call
  analyzed : (now : ℕ) → Target → Json → Call
  finalized : (now : ℕ) → Finalization → Target → Call
  fail : Target → (error_code : String) → Call
  relay_claim : (now limit : ℕ) → Call
  validate_job : (Error → String) → (now later : ℕ) → Target → Call
  recover_job : (now : ℕ) → Target → Call
  cleanup_job : (day_before : ℕ) → (workspace_id document_id : String) → Call
  deliver_job : (now later : ℕ) → (String → Option Response) → DeliveryJob → Call
  recover_runs : (now : ℕ) → Option ℕ → Option String → Option String → Call
  recover_deliveries : (now : ℕ) → Option ℕ → Call
  clean : (before : ℕ) → Option ℕ → Option String → Option String → Call

-- The database that a call leaves, returned or thrown.
unfoldable pub perform : Host → Call → Database → Database
perform host (cancel uuid scope id) s = (cancel_processing_run host uuid scope id s).1
perform host (confirm uuid head scope id revision) s =
    (confirm_document_upload host uuid head scope id revision s).1
perform host (upload uuid key now scope made input) s =
    (create_document_upload host uuid key now scope made input s).1
perform host (retry made now scope id) s = (retry_processing_run host made now scope id s).1
perform host (submit to_json uuid made now scope id key) s =
    (submit_processing_run host to_json uuid made now scope id key s).1
perform host (claim now t stage lease) s = (claim_stage host.client now t stage lease s).1
perform host (validated now t) s = (complete_validation host now t s).1
perform host (analyzed now t report) s = (complete_analysis host now t report s).1
perform host (finalized now f t) s = (complete_finalization host now f t s).1
perform host (fail t code) s = (fail_stage host.client t code s).1
perform host (relay_claim now limit) s = (claim_outbox_batch host.client now limit s).1
perform host (validate_job name now later t) s =
    (handle_document_validate host name now later t s).1
perform host (recover_job now t) s = (handle_document_recover host now t s).1
perform host (cleanup_job before w d) s = (handle_document_cleanup host before w d s).1
perform host (deliver_job now later deliver job) s =
    (handle_webhook_deliver host now later deliver job s).1
perform host (recover_runs now limit w id) s = (recover_processing host now limit w id s).1
perform host (recover_deliveries now limit) s = (recover_webhooks host now limit s).1
perform host (clean before limit w d) s = (cleanup_documents host.client before limit w d s).1

unfoldable pub perform_all : Host → List Call → Database → Database
perform_all host [] s = s
perform_all host (call ∷ calls) s = perform_all host calls (perform host call s)

perform-RunsEvolve : (host : Host) (call : Call) (s : Database) → RunsEvolve s (perform host call s)
unfolding perform
perform-RunsEvolve host (cancel uuid scope id) s =
    (cancel_processing_run-Steps host uuid scope id).at s
perform-RunsEvolve host (confirm uuid head scope id revision) s =
    (confirm_document_upload-Steps host uuid head scope id revision).at s
perform-RunsEvolve host (upload uuid key now scope made input) s =
    (create_document_upload-Steps host uuid key now scope made input).at s
perform-RunsEvolve host (retry made now scope id) s =
    (retry_processing_run-Steps host made now scope id).at s
perform-RunsEvolve host (submit to_json uuid made now scope id key) s =
    (submit_processing_run-Steps host to_json uuid made now scope id key).at s
perform-RunsEvolve host (claim now t stage lease) s =
    (claim_stage-Steps host.client now t stage lease).at s
perform-RunsEvolve host (validated now t) s = (complete_validation-Steps host now t).at s
perform-RunsEvolve host (analyzed now t report) s = (complete_analysis-Steps host now t report).at s
perform-RunsEvolve host (finalized now f t) s = (complete_finalization-Steps host now f t).at s
perform-RunsEvolve host (fail t code) s = (fail_stage-Steps host.client t code).at s
perform-RunsEvolve host (relay_claim now limit) s =
    (claim_outbox_batch-Steps host.client now limit).at s
perform-RunsEvolve host (validate_job name now later t) s =
    (handle_document_validate-Steps host name now later t).at s
perform-RunsEvolve host (recover_job now t) s = (handle_document_recover-Steps host now t).at s
perform-RunsEvolve host (cleanup_job before w d) s =
    (handle_document_cleanup-Steps host before w d).at s
perform-RunsEvolve host (deliver_job now later deliver job) s =
    (handle_webhook_deliver-Steps host now later deliver job).at s
perform-RunsEvolve host (recover_runs now limit w id) s =
    (recover_processing-Steps host now limit w id).at s
perform-RunsEvolve host (recover_deliveries now limit) s =
    (recover_webhooks-Steps host now limit).at s
perform-RunsEvolve host (clean before limit w d) s =
    (cleanup_documents-Steps host.client before limit w d).at s

perform_all-RunsEvolve :
    (host : Host) (calls : List Call) (s : Database) → RunsEvolve s (perform_all host calls s)
unfolding perform_all
perform_all-RunsEvolve host [] s = RunsEvolve-refl s
perform_all-RunsEvolve host (call ∷ calls) s =
    RunsEvolve-trans s (perform host call s) (perform_all host calls (perform host call s))
      (perform-RunsEvolve host call s) (perform_all-RunsEvolve host calls (perform host call s))

no_exit :
    (a b : ProcessingStatus)
    → is_terminal a ≡ true
    → assert_transition (processing_status a) (processing_status b) none none ≡ ok tt
    → ⊥
unfolding assert_transition
no_exit ProcessingStatus.completed b h e = cc
no_exit ProcessingStatus.failed b h e = cc
no_exit ProcessingStatus.canceled b h e = cc
no_exit _ b h e = cc

Follows-is_terminal : {a b : ProcessingStatus} → Follows a b → is_terminal a ≡ true → b ≡ a
Follows-is_terminal here h = refl
Follows-is_terminal {a} (next {b} {c} f e) h =
    let back = Follows-is_terminal f h in
    absurd (no_exit b c (subst (λ x. is_terminal x ≡ true) (sym back) h) e)

-- Where no two runs have one id, a run that is COMPLETED, FAILED or CANCELED keeps its status through
-- any sequence of calls: the run with its id has the same status afterwards.
pub terminal_absorbs :
    (host : Host) (calls : List Call) (s : Database) (r n : ProcessingRun)
    → HasUniqueIds run_id s.runs
    → Memᴰ r s.runs
    → is_terminal r.status ≡ true
    → Memᴰ n (perform_all host calls s).runs
    → n.id ≡ r.id
    → n.status ≡ r.status
terminal_absorbs host calls s r n unique there ended after same =
    let (evolved, unique') = perform_all-RunsEvolve host calls s unique in
    let (m, there', went) = Evolves-mem Moves IsStarted _ _ r evolved there in
    ap (λ (x : ProcessingRun). x.status) (unique' n m after there' (same ∙ sym went.id))
    ∙ Follows-is_terminal went.status ended
