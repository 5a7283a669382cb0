-- ===== src/Access/Queries.antt =====
-- packages/query/src/index.ts. The dates of a row are handed on as they are; the source prints them.
-- A list of documents is read through a cursor of the client, which is not modelled.
use vkit_orbit.Base.{ℕ, String, Bool, false, ◌&&◌, ◌||◌, not, Option, none, some, ltb, ◌==◌}
use vkit_orbit.Host.{Host}
use vkit_orbit.Audit.{Scope}
use vkit_orbit.Store.Schema.{Document, ProcessingRun}
use vkit_orbit.Store.Client.{forbidden, message}
use vkit_orbit.Store.Command.{
  Command, ◌>>=◌, ◌>>◌, return, throw_if, require, documents, runs, members, find_first,
}
use vkit_orbit.Documents.{is_document, is_run}
use vkit_orbit.Access.Permissions.{has_permission, is_member}

unfoldable pub authorize : Host → Scope → String → Command (Unit {0})
authorize host scope permission = do
  found ← find_first host.client members (is_member scope.workspace_id scope.principal_id)
  member ← require found (forbidden "Workspace access denied")
  throw_if (not (has_permission member.role permission)) (forbidden "Workspace access denied")

unfoldable pub get_document : Host → Scope → String → Command (Option Document)
get_document host scope document_id = do
  authorize host scope "documents:read"
  find_first host.client documents (is_document scope.workspace_id document_id)

unfoldable pub get_processing_run : Host → Scope → String → Command (Option ProcessingRun)
get_processing_run host scope run_id = do
  authorize host scope "documents:read"
  find_first host.client runs (is_run scope.workspace_id run_id)

pub record PageInput : Type 0 where
  pub size : ℕ
  pub after : Option String
  pub before : Option String

-- An empty cursor counts as none.
abbrev pub is_cursor : Option String → Bool
is_cursor none = false
is_cursor (some s) = not (s == "")

unfoldable pub page_input : PageInput → Command PageInput
page_input input = do
  throw_if (ltb input.size 1 || ltb 100 input.size) (message "page size must be 1..100")
  throw_if (is_cursor input.after && is_cursor input.before)
      (message "after and before are mutually exclusive")
  return input
