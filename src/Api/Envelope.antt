-- ===== src/Api/Envelope.antt =====
-- apps/api/src/plugins/error-envelope.ts: what a client is answered. A handler's body has status 200,
-- or 404 when nothing was found.
use vkit_orbit.Base.{ℕ, String, Bool, if◌then◌else◌}
use vkit_orbit.Store.Client.{
  message, not_found, forbidden, unauthorized, idempotency_conflict, unique_violation,
  record_missing,
}
use vkit_orbit.Api.Requests.{Failure, app, thrown, Outcome, returned, failed}
use vkit_orbit.Api.Handlers.{Body, missing}

pub record Envelope : Type 0 where
  pub status : ℕ
  pub code : String
  pub text : String

abbrev internal : Bool → String → Envelope
internal production text = record {
  status = 500;
  code = "INTERNAL_ERROR";
  text = if production then "An unexpected error occurred" else text;
}

abbrev unavailable : ℕ → String → Envelope
unavailable status code = record { status = status; code = code; text = "Resource unavailable" }

-- The errors of Elysia itself (a route that does not exist, a body that does not validate) and the id of
-- the request are left out; the messages of the database client's own errors stand for theirs.
unfoldable pub error_envelope : Bool → Failure → Envelope
error_envelope production (app e) = record { status = e.status; code = e.code; text = e.message }
error_envelope production (thrown idempotency_conflict) = record {
  status = 409;
  code = "IDEMPOTENCY_CONFLICT";
  text = "idempotency key was reused by a different principal or request";
}
error_envelope production (thrown (unauthorized _)) = unavailable 401 "UNAUTHORIZED"
error_envelope production (thrown (forbidden _)) = unavailable 403 "FORBIDDEN"
error_envelope production (thrown (not_found _)) = unavailable 404 "NOT_FOUND"
error_envelope production (thrown (message text)) = internal production text
error_envelope production (thrown unique_violation) = internal production "Unique constraint failed"
error_envelope production (thrown record_missing) = internal production "Record not found"

abbrev pub body_status : Body → ℕ
body_status (missing _) = 404
body_status _ = 200

-- The status of the response.
unfoldable pub status_of : Bool → Outcome Body → ℕ
unfolding error_envelope
status_of production (returned body) = body_status body
status_of production (failed e) = (error_envelope production e).status
