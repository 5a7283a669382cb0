-- ===== src/Access/Permissions.antt =====
-- packages/application/src/auth/permissions.ts, the scope check of apps/api/src/plugins/api-key.ts,
-- and packages/application/src/workspaces/change-membership.ts.
use vkit_orbit.Base.{
  if◌then◌else◌, String, Bool, true, false, ◌&&◌, ◌||◌, not, Option, none, some, List, [], ◌∷◌,
  includes, any, ◌==◌,
}
use vkit_orbit.Json.Print.{◌<>◌}
use vkit_orbit.Store.Schema.{Role, owner, admin, member, viewer, WorkspaceMember}
use vkit_orbit.Store.Client.{Client, forbidden}
use vkit_orbit.Store.Command.{Command, throw_if, members, upsert}

abbrev pub permissions : Role → List String
permissions owner =
    "workspace:read" ∷ "workspace:write" ∷ "documents:read" ∷ "documents:write"
    ∷ "documents:process" ∷ "documents:cancel" ∷ "audit:read" ∷ "keys:write" ∷ "webhooks:manage"
    ∷ []
permissions admin =
    "workspace:read" ∷ "workspace:write" ∷ "documents:read" ∷ "documents:write"
    ∷ "documents:process" ∷ "documents:cancel" ∷ "audit:read" ∷ "keys:write" ∷ "webhooks:manage"
    ∷ []
permissions member =
    "workspace:read" ∷ "documents:read" ∷ "documents:write" ∷ "documents:process"
    ∷ "documents:cancel" ∷ []
permissions viewer = "workspace:read" ∷ "documents:read" ∷ []

abbrev pub has_permission : Role → String → Bool
has_permission role permission = includes (permissions role) permission

unfoldable pub require_permission : Role → String → Command (Unit {0})
require_permission role permission =
    throw_if (not (has_permission role permission))
      (forbidden ("missing permission: " <> permission))

-- `AppError`: the code, the message, the status.
pub record AppError : Type 0 where
  pub code : String
  pub message : String
  pub status : vkit_orbit.Base.ℕ

-- What of the authenticated key the check reads.
pub record Principal : Type 0 where
  pub workspace_id : String
  pub user_id : String
  pub scopes : List String

-- `requireApiScope`: the error that it throws, if it throws one.
unfoldable pub require_api_scope : Option Principal → String → Option AppError
require_api_scope none scope =
    some
      (record { code = "UNAUTHORIZED"; message = "API key authentication required"; status = 401 })
require_api_scope (some principal) scope =
    if includes (principal.scopes) scope
      || includes (principal.scopes) "*"
      || includes (principal.scopes) "admin"
    then none
    else some (record { code = "FORBIDDEN"; message = "API key lacks " <> scope; status = 403 })

-- `{ workspaceId_userId: … }`
abbrev pub is_member : String → String → WorkspaceMember → Bool
is_member workspace_id user_id r = r.workspace_id == workspace_id && r.user_id == user_id

unfoldable pub change_workspace_membership : Client → WorkspaceMember → Command WorkspaceMember
change_workspace_membership client input =
    upsert client members (is_member input.workspace_id input.user_id)
      (λ r. record r { role = input.role }) (is_member input.workspace_id input.user_id) input
