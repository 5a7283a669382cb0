-- ===== src/Access/Granted.antt =====
-- What an authenticated API key may do.
use vkit_orbit.Base.{
  ℕ, String, Bool, true, false, ◌||◌, ◌≡◌, refl, sym, ap, ◌∙◌, subst, none, some, List, [], ◌∷◌,
  Memᴰ, arith, ◌==◌, eq_iff, filter, includes, Bool-cases, inl, inr,
}
use vkit_orbit.Host.{Host}
use vkit_orbit.Store.Schema.{Database, Role, owner, admin, member, viewer, ApiKey, WorkspaceMember}
use vkit_orbit.Store.Client.{ok}
use vkit_orbit.Store.Command.{api_keys, members}
use vkit_orbit.Store.Inversion.{>>=_inv, throw_if_inv, return_inv, found_inv}
use vkit_orbit.Access.Permissions.{has_permission, is_member, Principal, require_api_scope}
use vkit_orbit.Access.ApiKeys.{has_secret, is_dead, stored_scopes, granted, authenticate_api_key}

-- What an authentication that returns has found.
pub record IsGranted (host : Host) (now : ℕ) (secret : String) (key : ApiKey) (scopes : List String)
    (s : Database) : Type 0 where
  pub key_listed : Memᴰ key s.api_keys
  pub key_of : has_secret host secret key ≡ true
  pub alive : is_dead now key ≡ false
  pub user : WorkspaceMember
  pub user_listed : Memᴰ user s.members
  pub user_of : is_member key.workspace_id key.user_id user ≡ true
  pub granted_are : scopes ≡ granted user.role (stored_scopes key.scopes)

pub authenticate_api_key-IsGranted :
    (host : Host) (now : ℕ) (secret : String) (s t : Database) (key : ApiKey) (scopes : List String)
    → authenticate_api_key host now secret s ≡ (ok (key, scopes), t)
    → IsGranted host now secret key scopes s
unfolding authenticate_api_key
authenticate_api_key-IsGranted host now secret s t key scopes h =
    let (o, u₁, looked, h₁) = >>=_inv _ _ (key, scopes) s t h in
    let (k, u₂, required, h₂) = >>=_inv _ _ (key, scopes) u₁ t h₁ in
    let (listed, of_secret, same₁) =
      found_inv host.client api_keys _ o _ k s u₁ u₂ looked required in
    let (alive, h₃) = throw_if_inv _ _ _ (key, scopes) u₂ t h₂ in
    let (j, u₃, joined, h₄) = >>=_inv _ _ (key, scopes) u₂ t h₃ in
    let (w, u₄, required', h₅) = >>=_inv _ _ (key, scopes) u₃ t h₄ in
    let (listed', of_user, same₂) =
      found_inv host.client members _ j _ w u₂ u₃ u₄ joined required' in
    let (used, u₅, updated, h₆) = >>=_inv _ _ (key, scopes) u₄ t h₅ in
    let (ends, last) = return_inv _ (key, scopes) u₅ t h₆ in
    let is_key : k ≡ key = ap (λ y. y.0) ends in
    record {
      key_listed = subst (λ x. Memᴰ x s.api_keys) is_key listed;
      key_of = subst (λ x. has_secret host secret x ≡ true) is_key of_secret;
      alive = subst (λ x. is_dead now x ≡ false) is_key alive;
      user = w;
      user_listed = subst (λ (x : Database). Memᴰ w x.members) (sym same₁) listed';
      user_of = subst (λ (x : ApiKey). is_member x.workspace_id x.user_id w ≡ true) is_key of_user;
      granted_are =
          sym (ap (λ y. y.1) ends)
          ∙ ap (λ (x : ApiKey). granted w.role (stored_scopes x.scopes)) is_key;
    }

filter-has_permission :
    (role : Role) (xs : List String) (s : String)
    → includes (filter (has_permission role) xs) s ≡ true
    → has_permission role s ≡ true
filter-has_permission role [] s h = cc
filter-has_permission role (x ∷ xs) s h =
    let ih = filter-has_permission role xs s in
    elim (Bool-cases (has_permission role x)) [
      | inl may ↦ elim (Bool-cases (x == s)) [
        | inl same ↦ subst (λ y. has_permission role y ≡ true) ((eq_iff x s).0 same) may
        | inr other ↦ ih (rw other at (rw may at h))
      ]
      | inr may_not ↦ ih (rw may_not at h)
    ]

granted-has_permission :
    (role : Role) (stored : List String) (s : String)
    → includes (granted role stored) s ≡ true
    → has_permission role s ≡ true
granted-has_permission role stored s h =
    elim (Bool-cases (includes stored "*" || includes stored "admin")) [
      | inl every ↦ rw every at h
      | inr some_ ↦ filter-has_permission role stored s (rw some_ at h)
    ]

-- No role has one of the two words that open everything.
no_wildcard :
    (role : Role) → (has_permission role "*" ≡ false) × (has_permission role "admin" ≡ false)
no_wildcard owner = (refl, refl)
no_wildcard admin = (refl, refl)
no_wildcard member = (refl, refl)
no_wildcard viewer = (refl, refl)

require_api_scope_cases :
    (p : Principal) (scope : String)
    → require_api_scope (some p) scope ≡ none
    → (includes p.scopes scope || includes p.scopes "*" || includes p.scopes "admin") ≡ true
unfolding require_api_scope
require_api_scope_cases p scope h = ground (arith, h)

abbrev pub principal_of : ApiKey → List String → Principal
principal_of key scopes = record {
  workspace_id = key.workspace_id;
  user_id = key.user_id;
  scopes = scopes;
}

granted_only :
    (role : Role) (stored : List String) (p : Principal) (scope : String)
    → p.scopes ≡ granted role stored
    → require_api_scope (some p) scope ≡ none
    → has_permission role scope ≡ true
granted_only role stored p scope e h =
    let passed = require_api_scope_cases p scope h in
    let no = no_wildcard role in
    let may = granted-has_permission role stored scope in
    let star = granted-has_permission role stored "*" in
    let adm = granted-has_permission role stored "admin" in
    let passed' : (includes (granted role stored) scope
          || includes (granted role stored) "*"
          || includes (granted role stored) "admin")
        ≡ true =
      subst (λ xs. (includes xs scope || includes xs "*" || includes xs "admin") ≡ true) e passed in
    elim (Bool-cases (includes (granted role stored) scope)) [
      | inl given ↦ may given
      | inr not_given ↦ elim (Bool-cases (includes (granted role stored) "*")) [
        | inl any_scope ↦ absurd (clash (star any_scope) no.0)
        | inr not_any ↦ absurd (clash (adm (rw (not_given, not_any) at passed')) no.1)
      ]
    ]
  where
    clash : {b : Bool} → b ≡ true → b ≡ false → ⊥
    clash p q = cc

-- A request whose API key is authenticated and that passes the check of a scope comes from a live key
-- with that secret, whose user is, when the key is authenticated, a member of the key's workspace in
-- a role that has the scope as a permission: whatever scopes are stored with the key, `*` and `admin`
-- included.
pub api_key_allows :
    (host : Host) (now : ℕ) (secret scope : String) (s t : Database) (key : ApiKey)
    (scopes : List String)
    → authenticate_api_key host now secret s ≡ (ok (key, scopes), t)
    → require_api_scope (some (principal_of key scopes)) scope ≡ none
    → Memᴰ key s.api_keys
      × (has_secret host secret key ≡ true)
      × (is_dead now key ≡ false)
      × (user : WorkspaceMember) × Memᴰ user s.members
      × (is_member key.workspace_id key.user_id user ≡ true)
      × (has_permission user.role scope ≡ true)
api_key_allows host now secret scope s t key scopes h allowed =
    let g = authenticate_api_key-IsGranted host now secret s t key scopes h in
    (
      g.key_listed,
      g.key_of,
      g.alive,
      g.user,
      g.user_listed,
      g.user_of,
      granted_only g.user.role (stored_scopes key.scopes) (principal_of key scopes) scope
          g.granted_are allowed,
    )
