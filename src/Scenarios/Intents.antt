-- ===== src/Scenarios/Intents.antt =====
-- Canonical texts, intents and submissions at concrete values.
use vkit_orbit.Base.{false, ◌≡◌, refl, ap, [], ◌∷◌, ◌++◌, Memᴰ, ◌==◌, ◌&&◌, if◌then◌else◌}
use vkit_orbit.Json.{Json, num, str, obj, end, field}
use vkit_orbit.Json.Print.{stringify, quote, decimal}
use vkit_orbit.Json.Canonical.{
  insert, put_member, is_index, index_of, from_entries, sort_value, stable_json,
}
use vkit_orbit.Json.Canonical.Order.{has_index, stable_json-sort_value}
use vkit_orbit.Audit.{write_audit_log}
use vkit_orbit.Store.Schema.{Database, ProcessingRun, QueueOutbox, IdempotencyRecord}
use vkit_orbit.Store.Client.{ok, err, idempotency_conflict}
use vkit_orbit.Store.Command.{run as commands_run}
use vkit_orbit.Store.Reference.{client}
use vkit_orbit.Outbox.{Intent, intent_row, enqueue_intent, claim_rows}
use vkit_orbit.Outbox.Laws.{IsQueued, enqueue_intent-IsQueued, claim_rows_once}
use vkit_orbit.Idempotency.{
  fresh, replayed, request_hash, is_record, idempotency_record, settle, execute_idempotent,
}
use vkit_orbit.Documents.{stage_intent, new_run, submit_processing_run}
use vkit_orbit.Documents.Submission.{submit_processing_run_once}
use vkit_orbit.Scenarios.Collation.{by_code}
use vkit_orbit.Scenarios.Hosts.{host, scope, with_runs}

abbrev one_way : Json
one_way = obj (field "a" (num 1) (field "b" (str "x") end))

abbrev other_way : Json
other_way = obj (field "b" (str "x") (field "a" (num 1) end))

stable_json-sort_value_example :
    stable_json by_code other_way ≡ stringify (sort_value by_code other_way)
unfolding has_index is_index
stable_json-sort_value_example = stable_json-sort_value by_code other_way refl

abbrev intent : Intent
intent = stage_intent "document.validate.v1" "ws_a" "run_1" 1

queued_row : (enqueue_intent host 100 intent (with_runs [])).0 ≡ ok (intent_row 100 intent)
unfolding enqueue_intent commands_run client
queued_row = refl

enqueue_intent-IsQueued_example :
    IsQueued host intent
      (with_runs [])
      (enqueue_intent host 100 intent (with_runs [])).1
      (intent_row 100 intent)
enqueue_intent-IsQueued_example =
    enqueue_intent-IsQueued host 100 intent (with_runs [])
      (enqueue_intent host 100 intent (with_runs [])).1 (intent_row 100 intent)
      (ap (λ r. (r, (enqueue_intent host 100 intent (with_runs [])).1)) queued_row)

abbrev one_row : Database
one_row = record (with_runs []) { outbox = intent_row 100 intent ∷ [] }

abbrev other_row : QueueOutbox
other_row = intent_row 100 (stage_intent "document.validate.v1" "ws_a" "run_2" 1)

abbrev two_rows : Database
two_rows = record (with_runs []) { outbox = intent_row 100 intent ∷ other_row ∷ [] }

claim_rows_once_example :
    claim_rows client 200
      (other_row ∷ intent_row 100 intent ∷ [])
      (claim_rows client 150 (intent_row 100 intent ∷ other_row ∷ []) two_rows).1
    ≡ (ok [], (claim_rows client 150 (intent_row 100 intent ∷ other_row ∷ []) two_rows).1)
claim_rows_once_example =
    claim_rows_once client 150 200 (intent_row 100 intent ∷ other_row ∷ [])
      (other_row ∷ intent_row 100 intent ∷ []) two_rows
      ((refl, Memᴰ.tail (Memᴰ.head refl)), ((refl, Memᴰ.head refl), tt))

abbrev run_json : ProcessingRun → Json
run_json r = str r.id

abbrev submitted_run : ProcessingRun
submitted_run = new_run "1" "ws_a" "doc_1" 1 100

submitted :
    (submit_processing_run host run_json "rec_1"
      ("1", "log_1")
      100
      scope
      "doc_1"
      "key"
      (with_runs [])).0
    ≡ ok (fresh submitted_run)
unfolding submit_processing_run execute_idempotent settle enqueue_intent write_audit_log
    commands_run client
submitted = refl

-- The database once the run is submitted.
abbrev after_submission : Database
after_submission =
    (submit_processing_run host run_json "rec_1" ("1", "log_1") 100 scope "doc_1" "key"
      (with_runs [])).1

-- Another member's record under the same key of another operation has come since, and the runs are gone.
abbrev later_record : IdempotencyRecord
later_record =
    idempotency_record host "rec_3" (record scope { principal_id = "usr_b" }) "document-upload"
      "key" (str "doc_1") (str "doc_1")

abbrev long_after : Database
long_after = record (with_runs []) {
  idempotency_records = after_submission.idempotency_records ++ later_record ∷ [];
}

submit_processing_run_once_example :
    submit_processing_run host run_json "rec_2"
      ("2", "log_2")
      200
      (record scope { principal_id = "usr_b" })
      "doc_1"
      "key"
      long_after
    ≡ (if request_hash host (obj (field "documentId" (str "doc_1") end))
            == request_hash host (obj (field "documentId" (str "doc_1") end))
          && scope.principal_id == "usr_b"
        then (ok (replayed (str "run_1")), long_after)
        else (err idempotency_conflict, long_after))
submit_processing_run_once_example =
    submit_processing_run_once host run_json "rec_1" "rec_2" ("1", "log_1") ("2", "log_2") 100 200
      scope "usr_b" "doc_1" "doc_1" "key" (with_runs []) after_submission long_after
      (later_record ∷ []) submitted_run (ap (λ r. (r, after_submission)) submitted) refl
      of_other_key
  where
    of_other_key :
        (r : IdempotencyRecord)
        → Memᴰ r (later_record ∷ [])
        → is_record scope "submit-processing" "key" r ≡ false
    of_other_key r (Memᴰ.head e) = rw e refl
    of_other_key r (Memᴰ.tail m) = elim m [ ]

-- `sortValue` moves integer-like keys to the front, `stableJson` does not.
sorted_indices :
    stringify
      (sort_value by_code (obj (field "b" (num 1) (field "10" (num 2) (field "9" (num 3) end)))))
    ≡ "{\"9\":3,\"10\":2,\"b\":1}"
unfolding insert put_member quote decimal sort_value from_entries is_index index_of by_code
    stringify
sorted_indices = refl
