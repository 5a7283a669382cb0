-- ===== src/Documents/StateMachine.antt =====
-- packages/application/src/documents/state-machine.ts. The statuses are texts there, and the table
-- of transitions is looked up by them; `undefined` is `none`.
use vkit_orbit.Base.{
  ℕ, ◌*◌, String, Bool, false, not, Option, some, List, [], ◌∷◌, ltb, eqb, ◌==◌, includes,
  if◌then◌else◌,
}
use vkit_orbit.Json.Print.{◌<>◌}
use vkit_orbit.Store.Schema.{
  DocumentStatus, uploading, ready, ProcessingStatus, queued, validating, analyzing, finalizing,
  completed, failed, canceled,
}
use vkit_orbit.Store.Client.{Result, ok, err, message}

abbrev pub document_status : DocumentStatus → String
document_status uploading = "UPLOADING"
document_status ready = "READY"

abbrev pub processing_status : ProcessingStatus → String
processing_status queued = "QUEUED"
processing_status validating = "VALIDATING"
processing_status analyzing = "ANALYZING"
processing_status finalizing = "FINALIZING"
processing_status completed = "COMPLETED"
processing_status failed = "FAILED"
processing_status canceled = "CANCELED"

abbrev table : List (String × List String)
table =
    ("UPLOADING", "READY" ∷ [])
    ∷ ("READY", "QUEUED" ∷ [])
    ∷ ("QUEUED", "VALIDATING" ∷ "CANCELED" ∷ [])
    ∷ ("VALIDATING", "ANALYZING" ∷ "FAILED" ∷ "CANCELED" ∷ [])
    ∷ ("ANALYZING", "FINALIZING" ∷ "FAILED" ∷ "CANCELED" ∷ [])
    ∷ ("FINALIZING", "COMPLETED" ∷ "FAILED" ∷ "CANCELED" ∷ [])
    ∷ ("FAILED", [])
    ∷ ("COMPLETED", [])
    ∷ ("CANCELED", [])
    ∷ []

abbrev targets : String → List (String × List String) → List String
targets from [] = []
targets from ((status, next) ∷ rest) =
    let later = targets from rest in if status == from then next else later

-- `transitions[from]`; a text that is no status has no entry, and so no target.
abbrev pub transitions : String → List String
transitions from = targets from table

abbrev is_stale : Option ℕ → Option ℕ → Bool
is_stale (some expected) (some actual) = not (eqb expected actual)
is_stale _ _ = false

unfoldable pub assert_transition : String → String → Option ℕ → Option ℕ → Result (Unit {0})
assert_transition from to expected actual =
    if is_stale expected actual
    then err (message "stale revision")
    else if includes (transitions from) to
    then ok tt
    else err (message ("invalid transition: " <> from <> " -> " <> to))

-- A byte size is a natural number here, so it is an integer and not negative.
unfoldable pub assert_supported_upload : String → ℕ → Result (Unit {0})
assert_supported_upload content_type byte_size =
    if not (includes ("text/plain" ∷ "text/markdown" ∷ []) content_type)
    then err (message "unsupported content type")
    else if ltb (10 * 1024 * 1024) byte_size
    then err (message "upload is oversized")
    else ok tt
