-- ===== src/Api/Authorized.antt =====
-- Nothing is returned for a request without a live key of a member whose role has the permission.
use vkit_orbit.Base.{
  String, true, false, ◌≡◌, refl, sym, ap, ◌∙◌, subst, Option, none, some, List, Memᴰ,
}
use vkit_orbit.Audit.{Scope}
use vkit_orbit.Store.Schema.{Database, Document, ApiKey, WorkspaceMember}
use vkit_orbit.Store.Client.{Result, ok, err}
use vkit_orbit.Access.Permissions.{
  AppError, Principal, has_permission, is_member, require_api_scope,
}
use vkit_orbit.Access.ApiKeys.{has_secret, is_dead, authenticate_api_key}
use vkit_orbit.Access.Granted.{principal_of, api_key_allows}
use vkit_orbit.Api.Requests.{
  Request, credential, principal_or_null, authenticated_by, authenticated_principal, returned,
  Served, scope_of, checked, with_principal, with_scope, settled,
}
use vkit_orbit.Api.Handlers.{
  Environment, Body, Call, read_document, handle, get_document_handler, document, found_document,
}
use vkit_orbit.Access.Queries.{get_document}
use vkit_orbit.Access.Reads.{get_document-IsReader}
use vkit_orbit.Api.Routes.{permission_of, handle_lem}

module _ (env : Environment) (r : Request) where
  -- What stands behind an answer.
  pub record IsAllowed (permission : String) (s : Database) : Type 0 where
    pub secret : String
    pub given : credential r ≡ some secret
    pub key : ApiKey
    pub listed : Memᴰ key s.api_keys
    pub of_secret : has_secret env.host secret key ≡ true
    pub alive : is_dead env.now key ≡ false
    pub user : WorkspaceMember
    pub joined : Memᴰ user s.members
    pub of_user : is_member key.workspace_id key.user_id user ≡ true
    pub may : has_permission user.role permission ≡ true

  abbrev pub key_scope : ApiKey → Scope
  key_scope key = record { workspace_id = key.workspace_id; principal_id = key.user_id }

  -- A key that lets a request through, and the scope that the handler is given.
  abbrev Allows : String → Database → Scope → Type 0
  Allows permission s scope = (allowed : IsAllowed permission s) × (scope ≡ key_scope allowed.key)

  allowed_by :
      (o : Option String) (scope : String) (s t : Database) (p : Principal)
      → credential r ≡ o
      → authenticated_by env.host env.now o s ≡ (ok (some p), t)
      → require_api_scope (some p) scope ≡ none
      → Allows scope s (scope_of p)
  allowed_by none scope s t p given h k = absurd (cc (ap (λ x. x.0) h))
  allowed_by (some secret) scope s t p given h k =
      by_key (authenticate_api_key env.host env.now secret s) refl h
    where
      by_key :
          (result : Result (ApiKey × List String) × Database)
          → authenticate_api_key env.host env.now secret s ≡ result
          → principal_or_null result ≡ (ok (some p), t)
          → Allows scope s (scope_of p)
      by_key (err e, u) a b = absurd (cc (ap (λ x. x.0) b))
      by_key (ok (key, scopes), u) a b =
          let same : principal_of key scopes ≡ p = cc (ap (λ x. x.0) b) in
          let (listed, of_secret, alive, user, joined, of_user, may) =
            api_key_allows env.host env.now secret scope s u key scopes a
              (subst (λ x. require_api_scope (some x) scope ≡ none) (sym same) k) in
          (
            record {
              secret = secret;
              given = given;
              key = key;
              listed = listed;
              of_secret = of_secret;
              alive = alive;
              user = user;
              joined = joined;
              of_user = of_user;
              may = may;
            },
            sym (ap scope_of same),
          )

  -- The body of the handler has returned for the key's workspace and user.
  abbrev Ran : {A : Type 0} → A → (Scope → Served A) → String → Database → Type 0
  Ran a body permission s =
      (allowed : IsAllowed permission s) × ((t : Database) × ((body (key_scope allowed.key) t).0
          ≡ returned a))

  with_scope-Ran :
      {A : Type 0} (scope : String) (body : Scope → Served A) (s : Database) (a : A)
      → (with_scope env.host env.now r scope body s).0 ≡ returned a
      → Ran a body scope s
  unfolding with_scope authenticated_principal
  with_scope-Ran {A = A} scope body s a h =
      by_principal (authenticated_by env.host env.now (credential r) s) refl h
    where
      by_principal :
          (result : Result (Option Principal) × Database)
          → authenticated_by env.host env.now (credential r) s ≡ result
          → (with_principal scope result body).0 ≡ returned a
          → Ran a body scope s
      by_principal (err e, t) k b = absurd (cc b)
      by_principal (ok principal, t) k b =
          by_check (require_api_scope principal scope) principal refl k b
        where
          by_check :
              (e : Option AppError) (q : Option Principal)
              → require_api_scope q scope ≡ e
              → authenticated_by env.host env.now (credential r) s ≡ (ok q, t)
              → (checked e q body t).0 ≡ returned a
              → Ran a body scope s
          by_check (some e) q x y z = absurd (cc z)
          by_check none none x y z = absurd (cc z)
          by_check none (some p) x y z =
              (let (allowed, same) = allowed_by (credential r) scope s t p refl y x in
                (allowed, (t, subst (λ k. (body k t).0 ≡ returned a) same z)))

  -- A handler of version 1 returns a body, on any route, only for a request that carries the secret of a
  -- live API key whose user is a member of the key's workspace in a role with the permission of the
  -- route.
  pub handle-IsAllowed :
      (call : Call) (s : Database) (body : Body)
      → (handle env r call s).0 ≡ returned body
      → IsAllowed (permission_of call) s
  handle-IsAllowed call s body h =
      let (rest, is_scoped) = handle_lem env r call in
      (with_scope-Ran (permission_of call) rest s body
        (ap (λ (m : Served Body). (m s).0) (sym is_scoped) ∙ h)).0

  settled_inv :
      {A B : Type 0} (x : Result A × Database) (f : A → Served B) (b : B)
      → (settled x f).0 ≡ returned b
      → (a : A) × (t : Database) × (x ≡ (ok a, t)) × ((f a t).0 ≡ returned b)
  settled_inv (ok a, t) f b h = (a, t, refl, h)
  settled_inv (err e, t) f b h = absurd (cc h)

  -- A document that the route for reading one returns is one of the workspace of the request's key, with
  -- the id of the route, and the key's user may read documents there.
  pub read_own_document :
      (document_id : String) (s : Database) (d : Document)
      → (handle env r (read_document document_id) s).0 ≡ returned (document d)
      → (allowed : IsAllowed "documents:read" s) × (d.workspace_id ≡ allowed.key.workspace_id)
        × (d.id ≡ document_id)
  unfolding handle get_document_handler
  read_own_document document_id s d h =
      let (allowed, (t, ran)) = with_scope-Ran "documents:read" _ s (document d) h in
      let (o, u, read, found) = settled_inv _ (found_document env) (document d) ran in
      of_found allowed o t u read found
    where
      of_found :
          (allowed : IsAllowed "documents:read" s) (o : Option Document) (t u : Database)
          → get_document env.host (key_scope allowed.key) document_id t ≡ (ok o, u)
          → (found_document env o u).0 ≡ returned (document d)
          → (allowed : IsAllowed "documents:read" s) × (d.workspace_id ≡ allowed.key.workspace_id)
            × (d.id ≡ document_id)
      of_found allowed none t u read found = absurd (cc found)
      of_found allowed (some x) t u read found =
          let same : x ≡ d = cc found in
          let (_, _, _, workspace, id) =
            get_document-IsReader env.host (key_scope allowed.key) document_id t u x read in
          (
            allowed,
            subst (λ (y : Document). y.workspace_id ≡ allowed.key.workspace_id) same workspace,
            subst (λ (y : Document). y.id ≡ document_id) same id,
          )
