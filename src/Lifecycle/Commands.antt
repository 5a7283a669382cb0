-- ===== src/Lifecycle/Commands.antt =====
-- The commands of packages/application/src/documents keep to the life of a run.
use vkit_orbit.Base.{
  ℕ, String, Bool, false, ◌≡◌, refl, sym, Option, none, some, arith, ◌==◌, eq_iff, subst,
}
use vkit_orbit.Host.{Host}
use vkit_orbit.Json.{Json}
use vkit_orbit.Audit.{Scope}
use vkit_orbit.Store.Schema.{
  Database, Document, DocumentArtifact, ProcessingRun, ProcessingStatus, queued, canceled,
  IdempotencyRecord,
}
use vkit_orbit.Store.Client.{Client, Result}
use vkit_orbit.Store.Command.{
  Command, runs, documents, artifacts, idempotency_records, update, create,
}
use vkit_orbit.Store.Rules.{
  Steps, Steps->>=, Steps->>, Steps-branch, Steps-if_some, Steps-return, Steps-throw,
  Steps-throw_if, Steps-require, Steps-find_first, Steps-count, Steps-create, Steps-update,
  Steps-transaction, StepsAt->>=, StepsAt-found, StepsAt-require, StepsAt-throw_if, StepsAt-update,
  Steps-of_StepsAt,
}
use vkit_orbit.Store.Rows.{update_if}
use vkit_orbit.Idempotency.{fresh, execute_idempotent, settle}
use vkit_orbit.Documents.{
  is_terminal, cancel_processing_run, confirm_document_upload, Upload, create_document_upload,
  SourceKey, new_run, run_clash, retry_processing_run, submit_action, submit_processing_run,
}
use vkit_orbit.Documents.StateMachine.{assert_transition}
use vkit_orbit.Lifecycle.Order.{
  Follows, here, next, RunsEvolve, RunsEvolve-refl, RunsEvolve-update_if, RunsEvolve-append,
  lifecycle,
}
use vkit_orbit.Lifecycle.Stages.{enqueue_intent-lifecycle, write_audit_log-lifecycle, lift-Steps}

is_terminal-Follows : (a : ProcessingStatus) → is_terminal a ≡ false → Follows a canceled
unfolding assert_transition
is_terminal-Follows queued h = next here refl
is_terminal-Follows ProcessingStatus.validating h = next here refl
is_terminal-Follows ProcessingStatus.analyzing h = next here refl
is_terminal-Follows ProcessingStatus.finalizing h = next here refl
is_terminal-Follows _ h = cc

-- The row that is canceled is the one that was found, since ids are unique.
cancel-RunsEvolve :
    (client : Client) (s : Database) (p : ProcessingRun → Bool) (run : ProcessingRun)
    → client.find_first p s.runs ≡ some run
    → is_terminal run.status ≡ false
    → RunsEvolve s (record s {
      runs = update_if (λ r. r.id == run.id) (λ r. record r { status = canceled }) s.runs;
    })
cancel-RunsEvolve client s p run found open_ =
    RunsEvolve-update_if (λ r. r.id == run.id) (λ r. record r { status = canceled }) s (λ r. refl)
      (λ unique r m e. record {
        id = refl;
        workspace_id = refl;
        document_id = refl;
        revision = refl;
        stage_revision = refl;
        status =
            subst (λ (x : ProcessingRun). Follows x.status canceled)
              (unique run r (client.find_first_some p s.runs run found).0 m
                (sym ((eq_iff _ _).0 e)))
              (is_terminal-Follows run.status open_);
      })

pub cancel_processing_run-Steps :
    (host : Host) (uuid : String) (scope : Scope) (run_id : String)
    → Steps lifecycle (cancel_processing_run host uuid scope run_id)
unfolding cancel_processing_run
cancel_processing_run-Steps host uuid scope run_id = Steps-transaction lifecycle host.client _ (
    Steps-of_StepsAt lifecycle _ (λ s. StepsAt-found lifecycle s host.client runs _ _ (
      StepsAt-require lifecycle s _ _ _ (λ run found. StepsAt-throw_if lifecycle s _ _ _ (λ open_.
        StepsAt->>= lifecycle s _ _
          (StepsAt-update lifecycle s host.client runs _ _
            (cancel-RunsEvolve host.client s _ run found open_))
          (λ updated.
            Steps->>= lifecycle _ _ (write_audit_log-lifecycle host uuid _)
              (λ _. Steps-return lifecycle updated)))))))

ruleset rules = (
  Steps->>=, Steps->>, Steps-branch, Steps-if_some, Steps-return, Steps-throw, Steps-throw_if,
  Steps-require, Steps-transaction, Steps-find_first, Steps-count, lift-Steps,
  enqueue_intent-lifecycle, write_audit_log-lifecycle,
)

update_documents :
    (host : Host) (p : Document → Bool) (f : Document → Document)
    → Steps lifecycle (update host.client documents p f)
update_documents host p f =
    Steps-update lifecycle host.client documents p f (λ s. RunsEvolve-refl s)

create_document :
    (host : Host) (clash : Document → Bool) (r : Document)
    → Steps lifecycle (create host.client documents clash r)
create_document host clash r =
    Steps-create lifecycle host.client documents clash r (λ s _. RunsEvolve-refl s)

create_artifact :
    (host : Host) (clash : DocumentArtifact → Bool) (r : DocumentArtifact)
    → Steps lifecycle (create host.client artifacts clash r)
create_artifact host clash r =
    Steps-create lifecycle host.client artifacts clash r (λ s _. RunsEvolve-refl s)

create_run :
    (host : Host) (uuid workspace_id document_id : String) (revision now : ℕ)
    → Steps lifecycle (
        create host.client runs
          (run_clash (new_run uuid workspace_id document_id revision now))
          (new_run uuid workspace_id document_id revision now))
create_run host uuid workspace_id document_id revision now =
    Steps-create lifecycle host.client runs _ _ (λ s.
      RunsEvolve-append _ (new_run uuid workspace_id document_id revision now) s
        (λ r e.
          ground (arith, (eq_iff r.id (new_run uuid workspace_id document_id revision now).id).1 e))
        refl)

pub confirm_document_upload-Steps :
    (host : Host) (uuid : String) (head : String → Result (Option ℕ)) (scope : Scope)
    (document_id : String) (revision : Option ℕ)
    → Steps lifecycle (confirm_document_upload host uuid head scope document_id revision)
unfolding confirm_document_upload
confirm_document_upload-Steps host uuid head scope document_id revision =
    search (rules, update_documents) depth 20

pub create_document_upload-Steps :
    (host : Host) (uuid : String) (source_key : SourceKey) (now : ℕ) (scope : Scope)
    (made : String × String) (input : Upload)
    → Steps lifecycle (create_document_upload host uuid source_key now scope made input)
unfolding create_document_upload
create_document_upload-Steps host uuid source_key now scope made input =
    search (rules, create_document, create_artifact) depth 20

pub retry_processing_run-Steps :
    (host : Host) (made : String × String) (now : ℕ) (scope : Scope) (run_id : String)
    → Steps lifecycle (retry_processing_run host made now scope run_id)
unfolding retry_processing_run
retry_processing_run-Steps host made now scope run_id = search (rules, create_run) depth 20

submit_action-Steps :
    (host : Host) (made : String × String) (now : ℕ) (scope : Scope) (document_id : String)
    → Steps lifecycle (submit_action host made now scope document_id)
submit_action-Steps host made now scope document_id = search (rules, create_run) depth 20

module _ (host : Host) (uuid : String) (scope : Scope) (operation key : String)
    (request : Json) where
  module _ {T : Type 0} (to_json : T → Json) (action : Command T) (h : Steps lifecycle action) where
    settle-Steps :
        (o : Option IdempotencyRecord)
        → Steps lifecycle (settle host uuid scope operation key request to_json action o)
    unfolding settle
    settle-Steps (some raced) = search rules
    settle-Steps none = Steps->>= lifecycle _ _ h (λ result.
        Steps->>= lifecycle _ _
          (Steps-create lifecycle host.client idempotency_records _ _ (λ s _. RunsEvolve-refl s))
          (λ _. Steps-return lifecycle (fresh result)))

    pub execute_idempotent-Steps :
        Steps lifecycle (execute_idempotent host uuid scope operation key request to_json action)
    unfolding execute_idempotent
    execute_idempotent-Steps = Steps->> lifecycle _ _ (Steps-throw_if lifecycle _ _) (
        Steps-transaction lifecycle host.client _ (
          Steps->>= lifecycle _ _ (Steps-find_first lifecycle host.client idempotency_records _)
            settle-Steps))

pub submit_processing_run-Steps :
    (host : Host) (to_json : ProcessingRun → Json) (uuid : String) (made : String × String)
    (now : ℕ) (scope : Scope) (document_id key : String)
    → Steps lifecycle (submit_processing_run host to_json uuid made now scope document_id key)
unfolding submit_processing_run
submit_processing_run-Steps host to_json uuid made now scope document_id key =
    execute_idempotent-Steps host uuid scope "submit-processing" key _ to_json _
      (submit_action-Steps host made now scope document_id)
