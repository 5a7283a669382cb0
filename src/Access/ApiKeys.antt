-- ===== src/Access/ApiKeys.antt =====
-- packages/application/src/api-keys. The random parts of a new key are arguments.
use vkit_orbit.Base.{
  ℕ, String, Bool, false, ◌||◌, Option, none, some, List, [], ◌∷◌, filter, includes, is_some, leb,
  ◌==◌, if◌then◌else◌,
}
use vkit_orbit.Host.{Host}
use vkit_orbit.Json.{Json, str, arr, Items, nil, cons, items}
use vkit_orbit.Json.Print.{◌<>◌}
use vkit_orbit.Store.Schema.{Role, ApiKey}
use vkit_orbit.Store.Client.{Client, unauthorized}
use vkit_orbit.Store.Command.{
  Command, ◌>>=◌, ◌>>◌, return, throw_if, require, members, api_keys, find_first, update, create,
}
use vkit_orbit.Access.Permissions.{permissions, has_permission, is_member}

abbrev pub has_secret : Host → String → ApiKey → Bool
has_secret host secret r = r.secret_hash == host.sha256 secret

-- `key.expiresAt && key.expiresAt <= new Date()`
abbrev pub is_over : Option ℕ → ℕ → Bool
is_over none now = false
is_over (some t) now = leb t now

abbrev pub is_dead : ℕ → ApiKey → Bool
is_dead now r = is_some r.revoked_at || is_over r.expires_at now

-- `Array.isArray(key.scopes) ? key.scopes.filter(…) : []`
abbrev pub texts : List Json → List String
texts [] = []
texts (str s ∷ vs) = s ∷ texts vs
texts (_ ∷ vs) = texts vs

abbrev pub stored_scopes : Json → List String
stored_scopes (arr vs) = texts (items vs)
stored_scopes _ = []

abbrev pub granted : Role → List String → List String
granted role stored =
    if includes stored "*" || includes stored "admin"
    then permissions role
    else filter (has_permission role) stored

unfoldable pub authenticate_api_key : Host → ℕ → String → Command (ApiKey × List String)
authenticate_api_key host now secret = do
  found ← find_first host.client api_keys (has_secret host secret)
  key ← require found (unauthorized "invalid API key")
  throw_if (is_dead now key) (unauthorized "invalid API key")
  joined ← find_first host.client members (is_member key.workspace_id key.user_id)
  member ← require joined (unauthorized "invalid API key")
  _used ←
      update host.client api_keys (λ r. r.id == key.id) (λ r. record r { last_used_at = some now })
  return (key, granted member.role (stored_scopes key.scopes))

abbrev pub text_items : List String → Items
text_items [] = nil
text_items (s ∷ ss) = cons (str s) (text_items ss)

pub record NewKey : Type 0 where
  pub workspace_id : String
  pub user_id : String
  pub name : String
  pub scopes : List String
  pub expires_at : Option ℕ

abbrev pub key_row : Host → String → String → NewKey → ApiKey
key_row host hex bytes input = record {
  id = "key_" <> hex;
  workspace_id = input.workspace_id;
  user_id = input.user_id;
  name = input.name;
  secret_hash = host.sha256 ("dph_" <> bytes);
  scopes = arr (text_items input.scopes);
  expires_at = input.expires_at;
  revoked_at = none;
  last_used_at = none;
}

-- The unique indices of the keys.
abbrev pub key_clash : ApiKey → ApiKey → Bool
key_clash n r = r.id == n.id || r.secret_hash == n.secret_hash

-- The secret is handed out once; only its digest is stored.
unfoldable pub create_api_key : Host → String → String → NewKey → Command (ApiKey × String)
create_api_key host hex bytes input = do
  key ←
      create host.client api_keys (key_clash (key_row host hex bytes input))
        (key_row host hex bytes input)
  return (key, "dph_" <> bytes)

abbrev pub revoked : ℕ → ApiKey → ApiKey
revoked now r = record r { revoked_at = some now }

unfoldable pub revoke_api_key : Client → ℕ → String → Command ApiKey
revoke_api_key client now id = update client api_keys (λ r. r.id == id) (revoked now)
