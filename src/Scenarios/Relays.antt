-- ===== src/Scenarios/Relays.antt =====
-- The relay and the job ids at concrete rows.
use vkit_orbit.Base.{
  ℕ, String, true, false, ◌≡◌, refl, sym, ap, ◌∙◌, Memᴰ, eq_iff, none, some, List, [], ◌∷◌, map,
  arith, any, ◌==◌, if◌then◌else◌,
}
use vkit_orbit.Json.{Json, num, str, obj, end, field}
use vkit_orbit.Store.Schema.{Database, QueueOutbox, result, published, failed}
use vkit_orbit.Store.Client.{Result, ok, err, message}
use vkit_orbit.Store.Command.{run as commands_run}
use vkit_orbit.Store.Evolution.{Evolves, HasUniqueIds}
use vkit_orbit.Store.Reference.{client}
use vkit_orbit.Documents.{stage_intent, lift}
use vkit_orbit.Outbox.{
  intent_row, claim_row, claim_rows, claim_outbox_batch, mark_outbox_published, mark_outbox_failed,
}
use vkit_orbit.Processing.{Finalization}
use vkit_orbit.Queue.Contracts.{
  parse_payload, parse_job_payload, retry_delay, document_validate_v1, processing_recovery_v1,
}
use vkit_orbit.Queue.JobId.{create_job_id}
use vkit_orbit.Relay.{Queues, next, required, mark, send, relay_row, relay_rows, run_outbox_relay}
use vkit_orbit.Relay.Delivery.{IsDelivered, run_outbox_relay-AreDelivered}
use vkit_orbit.Relay.Settlement.{IsRelayed, run_outbox_relay-IsRelayed}
use vkit_orbit.Scenarios.Hosts.{with_runs}

abbrev trim : String → String
trim s = s

-- The ids of the jobs that were added, the last one first.
abbrev queues : Queues (List String)
queues = record {
  routed = true;
  configured = λ _. true;
  get_state = λ to id q. (ok (if any (λ x. x == id) q then some "completed" else none), q);
  remove = λ to id q. (ok tt, q);
  add = λ to name payload id q. (ok tt, id ∷ q);
}

abbrev good : QueueOutbox
good = intent_row 100 (stage_intent "document.validate.v1" "ws_a" "run_1" 1)

abbrev bad : QueueOutbox
bad = intent_row 100 (stage_intent "document.unknown.v1" "ws_a" "run_1" 1)

abbrev two_rows : Database
two_rows = record (with_runs []) { outbox = good ∷ bad ∷ [] }

abbrev at_200 : String → ℕ
at_200 id = 200

abbrev relayed : Result ℕ × (Database × List String)
relayed = run_outbox_relay queues trim client at_200 (ok tt) 200 100 (two_rows, [])

runs_relay :
    (relayed.0 ≡ ok 2)
    × (map (λ (r : QueueOutbox). r.status) relayed.1.0.outbox ≡ published ∷ failed ∷ [])
    × (relayed.1.1 ≡ "document.validate.v1__run_1__1" ∷ [])
unfolding run_outbox_relay relay_rows relay_row send mark next required lift parse_payload
    create_job_id vkit_orbit.Json.Print.decimal claim_outbox_batch claim_rows claim_row
    mark_outbox_published mark_outbox_failed commands_run client vkit_orbit.Outbox.outbox_id
runs_relay = (refl, refl, refl)

runs_job_id_colon :
    create_job_id trim "document.validate.v1" "a:b" 1 ≡ err (message "invalid business id")
unfolding create_job_id
runs_job_id_colon = refl

runs_job_id_name :
    create_job_id trim "document.v1x" "a" 1 ≡ err (message "invalid versioned job name")
unfolding create_job_id
runs_job_id_name = refl

runs_parse :
    parse_job_payload trim document_validate_v1
      (obj (field "runId" (str "r") (field "workspaceId" (str "w") (field "revision" (num 2) end))))
    ≡ some (
        obj
          (field "workspaceId" (str "w") (field "runId" (str "r") (field "revision" (num 2) end))))
unfolding parse_job_payload parse_payload
runs_parse = refl

runs_parse_strict :
    parse_job_payload trim processing_recovery_v1 (obj (field "limits" (num 2) end)) ≡ none
unfolding parse_job_payload parse_payload
runs_parse_strict = refl

runs_retry_delay :
    (retry_delay 0 1000 60000 ≡ none)
    × (retry_delay 3 1000 60000 ≡ some 4000)
    × (retry_delay 9 1000 60000 ≡ some 60000)
unfolding retry_delay
runs_retry_delay = (refl, refl, refl)

different : (a b : String) → a ≡ b → (a == b) ≡ false → ⊥
different a b e f = ground (arith, (eq_iff a b).1 e)

two_ids : HasUniqueIds (λ (r : QueueOutbox). r.id) two_rows.outbox
unfolding vkit_orbit.Outbox.outbox_id vkit_orbit.Json.Print.decimal
two_ids a b (Memᴰ.head e) (Memᴰ.head f) h = e ∙ sym f
two_ids a b (Memᴰ.head e) (Memᴰ.tail (Memᴰ.head f)) h = absurd (
    different _ _ (sym (ap (λ (r : QueueOutbox). r.id) e) ∙ h ∙ ap (λ (r : QueueOutbox). r.id) f)
      refl)
two_ids a b (Memᴰ.tail (Memᴰ.head e)) (Memᴰ.head f) h = absurd (
    different _ _ (sym (ap (λ (r : QueueOutbox). r.id) e) ∙ h ∙ ap (λ (r : QueueOutbox). r.id) f)
      refl)
two_ids a b (Memᴰ.tail (Memᴰ.head e)) (Memᴰ.tail (Memᴰ.head f)) h = e ∙ sym f
two_ids a b (Memᴰ.tail (Memᴰ.tail m)) n h = elim m [ ]
two_ids a b (Memᴰ.head e) (Memᴰ.tail (Memᴰ.tail n)) h = elim n [ ]
two_ids a b (Memᴰ.tail (Memᴰ.head e)) (Memᴰ.tail (Memᴰ.tail n)) h = elim n [ ]

run_outbox_relay-AreDelivered_example :
    Evolves (IsDelivered queues trim []) (λ _. ⊥) two_rows.outbox relayed.1.0.outbox
run_outbox_relay-AreDelivered_example =
    run_outbox_relay-AreDelivered queues trim client at_200 (ok tt) 200 100 two_rows [] two_ids

run_outbox_relay-IsRelayed_example : IsRelayed queues trim client at_200 (ok tt) 200 100 two_rows []
run_outbox_relay-IsRelayed_example =
    run_outbox_relay-IsRelayed queues trim client at_200 (ok tt) 200 100 two_rows []

abbrev finalization : Finalization
finalization = record {
  artifact = record {
    id = "art_1";
    workspace_id = "ws_a";
    document_id = "doc_1";
    processing_run_id = none;
    kind = result;
    object_key = "uploads/results";
    content_type = "application/json";
    byte_size = 2;
    checksum = none;
    created_at = 90;
  };
  event_id = "evt_1";
  occurred_at = "2026-01-01T00:00:00Z";
  delivery_uuid = λ endpoint. "1";
  decrypt = λ secret. ok secret;
}
