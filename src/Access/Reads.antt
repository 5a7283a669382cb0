-- ===== src/Access/Reads.antt =====
-- What a query of a workspace gives away.
use vkit_orbit.Base.{
  String, Bool, true, false, not, ◌≡◌, refl, sym, ap, ◌∙◌, subst, some, Memᴰ, eq_iff, &&-eq-true,
}
use vkit_orbit.Host.{Host}
use vkit_orbit.Audit.{Scope}
use vkit_orbit.Store.Schema.{Database, Document, ProcessingRun, WorkspaceMember}
use vkit_orbit.Store.Client.{ok, forbidden}
use vkit_orbit.Store.Command.{throw_if, commands, members, documents, runs}
use vkit_orbit.Store.Inversion.{>>=_inv, >>_inv, found_inv, find_first_inv}
use vkit_orbit.Access.Permissions.{has_permission, is_member}
use vkit_orbit.Access.Queries.{authorize, get_document, get_processing_run}

-- The scope's principal is a member of its workspace, in a role that has the permission.
pub record IsReader (scope : Scope) (permission : String) (s : Database) : Type 0 where
  pub user : WorkspaceMember
  pub user_listed : Memᴰ user s.members
  pub user_of : is_member scope.workspace_id scope.principal_id user ≡ true
  pub may : has_permission user.role permission ≡ true

throw_unless :
    (b : Bool) (s t : Database)
    → throw_if (not b) (forbidden "Workspace access denied") s ≡ (ok tt, t)
    → (b ≡ true) × (s ≡ t)
unfolding commands
throw_unless true s t h = (refl, ap (λ y. y.1) h)
throw_unless false s t h = absurd (cc (ap (λ y. y.0) h))

authorize-IsReader :
    (host : Host) (scope : Scope) (permission : String) (s t : Database)
    → authorize host scope permission s ≡ (ok tt, t)
    → IsReader scope permission s × (s ≡ t)
unfolding authorize
authorize-IsReader host scope permission s t h =
    let (o, u, looked, h₁) = >>=_inv _ _ tt s t h in
    let (w, v, required, h₂) = >>=_inv _ _ tt u t h₁ in
    let (listed, of_user, same) = found_inv host.client members _ o _ w s u v looked required in
    let (may, last) = throw_unless (has_permission w.role permission) v t h₂ in
    (record { user = w; user_listed = listed; user_of = of_user; may = may }, same ∙ last)

-- A document is read only by a member of the scope's workspace in a role with documents:read, and a
-- document that is returned is a stored one of that workspace, with the id asked for. Reading
-- changes nothing.
pub get_document-IsReader :
    (host : Host) (scope : Scope) (document_id : String) (s t : Database) (document : Document)
    → get_document host scope document_id s ≡ (ok (some document), t)
    → IsReader scope "documents:read" s
      × (t ≡ s)
      × Memᴰ document s.documents
      × (document.workspace_id ≡ scope.workspace_id)
      × (document.id ≡ document_id)
unfolding get_document
get_document-IsReader host scope document_id s t document h =
    let (_, u, allowed, h₁) = >>_inv _ _ (some document) s t h in
    let (reader, at_s) = authorize-IsReader host scope "documents:read" s u allowed in
    let (found, at_u) = find_first_inv host.client documents _ (some document) u t h₁ in
    let (m, fits) = host.client.find_first_some _ u.documents document found in
    let (w, i) = &&-eq-true fits in
    (
      reader,
      sym (at_s ∙ at_u),
      subst (λ (d : Database). Memᴰ document d.documents) (sym at_s) m,
      (eq_iff _ _).0 w,
      (eq_iff _ _).0 i,
    )

-- A processing run, with its result, is read only by a member of the scope's workspace in a role with
-- documents:read, and a run that is returned is a stored one of that workspace, with the id asked
-- for. Reading changes nothing.
pub get_processing_run-IsReader :
    (host : Host) (scope : Scope) (run_id : String) (s t : Database) (run : ProcessingRun)
    → get_processing_run host scope run_id s ≡ (ok (some run), t)
    → IsReader scope "documents:read" s
      × (t ≡ s)
      × Memᴰ run s.runs
      × (run.workspace_id ≡ scope.workspace_id)
      × (run.id ≡ run_id)
unfolding get_processing_run
get_processing_run-IsReader host scope run_id s t run h =
    let (_, u, allowed, h₁) = >>_inv _ _ (some run) s t h in
    let (reader, at_s) = authorize-IsReader host scope "documents:read" s u allowed in
    let (found, at_u) = find_first_inv host.client runs _ (some run) u t h₁ in
    let (m, fits) = host.client.find_first_some _ u.runs run found in
    let (w, i) = &&-eq-true fits in
    (
      reader,
      sym (at_s ∙ at_u),
      subst (λ (d : Database). Memᴰ run d.runs) (sym at_s) m,
      (eq_iff _ _).0 w,
      (eq_iff _ _).0 i,
    )
