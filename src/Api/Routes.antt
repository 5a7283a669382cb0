-- ===== src/Api/Routes.antt =====
-- What the routes have in common.
use vkit_orbit.Base.{String, ◌≡◌, refl}
use vkit_orbit.Audit.{Scope}
use vkit_orbit.Api.Requests.{Request, Served, with_scope}
use vkit_orbit.Api.Handlers.{
  Environment, Body, Call, confirm_upload, create_an_upload, read_document, submit_run, cancel_run,
  read_run, read_result, retry_run, handle,
}

-- The permission that a route asks for.
abbrev pub permission_of : Call → String
permission_of (confirm_upload _) = "documents:write"
permission_of (create_an_upload _) = "documents:write"
permission_of (read_document _) = "documents:read"
permission_of (submit_run _) = "documents:write"
permission_of (cancel_run _) = "documents:write"
permission_of (read_run _) = "documents:read"
permission_of (read_result _) = "documents:read"
permission_of (retry_run _) = "documents:write"

module _ (env : Environment) (r : Request) where
  -- Every handler starts in the same way.
  pub handle_lem :
      (call : Call)
      → (body : Scope → Served Body) × (handle env r call
          ≡ with_scope env.host env.now r (permission_of call) body)
  unfolding handle
  handle_lem (confirm_upload id) = (_, refl)
  handle_lem (create_an_upload input) = (_, refl)
  handle_lem (read_document id) = (_, refl)
  handle_lem (submit_run id) = (_, refl)
  handle_lem (cancel_run id) = (_, refl)
  handle_lem (read_run id) = (_, refl)
  handle_lem (read_result id) = (_, refl)
  handle_lem (retry_run id) = (_, refl)
