-- ===== src/Documents/Submission.antt =====
-- Submitting a document under an idempotency key.
use vkit_orbit.Base.{ℕ, String, Bool, List, ◌++◌, ◌≡◌, refl, ◌∙◌, ◌==◌, if◌then◌else◌, ◌&&◌}
use vkit_orbit.Host.{Host}
use vkit_orbit.Audit.{Scope}
use vkit_orbit.Json.{Json, str, obj, end, field}
use vkit_orbit.Store.Schema.{Database, IdempotencyRecord, ProcessingRun}
use vkit_orbit.Store.Client.{ok, err, idempotency_conflict}
use vkit_orbit.Store.Command.{runs, create}
use vkit_orbit.Store.Rules.{
  Preorder, Steps, Steps->>=, Steps->>, Steps-throw_if, Steps-require, Steps-return,
  Steps-find_first, Steps-count, Steps-create,
}
use vkit_orbit.Outbox.Steps.{enqueue_intent-Steps, write_audit_log-Steps}
use vkit_orbit.Idempotency.{fresh, replayed, request_hash, is_record}
use vkit_orbit.Idempotency.Replay.{LeavesRecords, FitNone, execute_idempotent_once}
use vkit_orbit.Documents.{submit_action, submit_processing_run}

-- The idempotency records stay as they are.
abbrev records_kept : Preorder
records_kept = record {
  Rel = λ s t. t.idempotency_records ≡ s.idempotency_records;
  rel_refl = λ s. refl;
  rel_trans = λ s t u h k. k ∙ h;
}

create_run :
    (host : Host) (clash : ProcessingRun → Bool) (r : ProcessingRun)
    → Steps records_kept (create host.client runs clash r)
create_run host clash r = Steps-create records_kept host.client runs clash r (λ s _. refl)

submit_action-LeavesRecords :
    (host : Host) (made : String × String) (now : ℕ) (scope : Scope) (document_id : String)
    → LeavesRecords (submit_action host made now scope document_id)
submit_action-LeavesRecords host made now scope document_id =
    let queued = enqueue_intent-Steps records_kept host (λ s rows. refl) in
    let logged = write_audit_log-Steps records_kept host (λ s rows. refl) in
    let steps : Steps records_kept (submit_action host made now scope document_id) =
      search
        (
          Steps->>=, Steps->>, Steps-throw_if, Steps-require, Steps-return, Steps-find_first,
          Steps-count, create_run, queued, logged,
        )
        depth 20 in
    steps.at

-- Once a submission under a key has created a run: on any database that still has its idempotency
-- record, and besides those of then only records of other keys, whatever else has changed since, a
-- submission under that key in the workspace creates no run and changes nothing. It returns the stored
-- run where the hash of the request, which is the document's id, and the principal are the same, and a
-- conflict where not.
pub submit_processing_run_once :
    (host : Host) (to_json : ProcessingRun → Json) (uuid uuid' : String)
    (made made' : String × String) (now now' : ℕ) (scope : Scope)
    (principal_id document_id document_id' key : String) (s t v : Database)
    (more : List IdempotencyRecord) (run : ProcessingRun)
    → submit_processing_run host to_json uuid made now scope document_id key s ≡ (ok (fresh run), t)
    → v.idempotency_records ≡ t.idempotency_records ++ more
    → FitNone (is_record scope "submit-processing" key) more
    → submit_processing_run host to_json uuid' made' now'
        (record scope { principal_id = principal_id })
        document_id'
        key
        v
      ≡ (if request_hash host (obj (field "documentId" (str document_id) end))
              == request_hash host (obj (field "documentId" (str document_id') end))
            && scope.principal_id == principal_id
          then (ok (replayed (to_json run)), v)
          else (err idempotency_conflict, v))
unfolding submit_processing_run
submit_processing_run_once host to_json uuid uuid' made made' now now' scope principal_id
      document_id document_id' key s t v more run first later others =
    execute_idempotent_once host uuid uuid' scope principal_id "submit-processing" key _ _ to_json
      to_json _ _ s t v more run (submit_action-LeavesRecords host made now scope document_id) first
      later others
