-- ===== src/Api/Requests.antt =====
-- apps/api/src/plugins/api-key.ts: the principal of a request, and what a handler needs of it. An
-- outcome is what a handler returns or throws.
use Prim.Native.Char.{Char}
use Prim.Native.String as Text
use vkit_orbit.Base.{ℕ, String, Bool, ◌||◌, Option, none, some, List, [], ◌∷◌, ◌==◌, if◌then◌else◌}
use vkit_orbit.Base.Texts.{is_between, is_char, after}
use vkit_orbit.Host.{Host}
use vkit_orbit.Audit.{Scope}
use vkit_orbit.Store.Schema.{Database, ApiKey}
use vkit_orbit.Store.Client.{Result, ok, err, Error, message}
use vkit_orbit.Store.Command.{Command}
use vkit_orbit.Access.Permissions.{AppError, Principal, require_api_scope}
use vkit_orbit.Access.ApiKeys.{authenticate_api_key}
use vkit_orbit.Access.Granted.{principal_of}

-- The headers that the handlers read.
pub record Request : Type 0 where
  pub api_key : Option String
  pub authorization : Option String
  pub idempotency_key : Option String

-- A letter in either case.
abbrev letter : ℕ → ℕ → Char → Bool
letter lower upper c = is_char lower c || is_char upper c

-- `\s` among the characters of a header.
abbrev pub is_space : Char → Bool
is_space c = is_between 9 13 c || is_char b' ' c || is_char 160 c

abbrev pub drop_spaces : String → String
drop_spaces Text.[] = ""
drop_spaces (Text.◌∷◌ c s) = let rest = drop_spaces s in if is_space c then rest else Text.◌∷◌ c s

-- `replace(/^Bearer\s+/i, "")`
abbrev pub strip_bearer : String → String
strip_bearer value =
    elim (after
      (letter b'b' b'B'
        ∷ letter b'e' b'E'
        ∷ letter b'a' b'A'
        ∷ letter b'r' b'R'
        ∷ letter b'e' b'E'
        ∷ letter b'r' b'R'
        ∷ is_space
        ∷ [])
      value) [ none ↦ value | some rest ↦ drop_spaces rest ]

-- An empty value counts as none.
abbrev pub filled : Option String → Option String
filled none = none
filled (some value) = if value == "" then none else some value

abbrev pub header_or : Option String → Option String → Option String
header_or (some value) authorization = some value
header_or none none = none
header_or none (some value) = some (strip_bearer value)

-- `x-api-key`, else `authorization`.
unfoldable pub credential : Request → Option String
credential r = filled (header_or r.api_key r.authorization)

-- `try { return await authenticateApiKey(value) } catch { return null }`
abbrev pub principal_or_null :
    Result (ApiKey × List String) × Database → Result (Option Principal) × Database
principal_or_null (ok (key, scopes), s) = (ok (some (principal_of key scopes)), s)
principal_or_null (err e, s) = (ok none, s)

abbrev pub authenticated_by : Host → ℕ → Option String → Command (Option Principal)
authenticated_by host now none s = (ok none, s)
authenticated_by host now (some value) s = principal_or_null (authenticate_api_key host now value s)

-- `authenticatedPrincipal`
unfoldable pub authenticated_principal : Host → ℕ → Request → Command (Option Principal)
authenticated_principal host now r = authenticated_by host now (credential r)

pub data Failure : Type 0 where
  app : AppError → Failure
  thrown : Error → Failure

pub data Outcome (A : Type 0) : Type 0 where
  returned : A → Outcome A
  failed : Failure → Outcome A

abbrev pub Served : Type 0 → Type 0
Served A = Database → Outcome A × Database

-- A command's result, and how it goes on.
abbrev pub settled : {A B : Type 0} → Result A × Database → (A → Served B) → Outcome B × Database
settled (ok a, s) f = f a s
settled (err e, s) f = (failed (thrown e), s)

abbrev pub scope_of : Principal → Scope
scope_of p = record { workspace_id = p.workspace_id; principal_id = p.user_id }

-- Behind the check of the scope, `principal!` is not null.
abbrev pub checked :
    {A : Type 0} → Option AppError → Option Principal → (Scope → Served A) → Served A
checked (some e) principal body s = (failed (app e), s)
checked none none body s = (failed (thrown (message "principal is null")), s)
checked none (some p) body s = body (scope_of p) s

abbrev pub with_principal :
    {A : Type 0}
    → String
    → Result (Option Principal) × Database
    → (Scope → Served A)
    → Outcome A × Database
with_principal scope (ok principal, s) body =
    checked (require_api_scope principal scope) principal body s
with_principal scope (err e, s) body = (failed (thrown e), s)

-- The start of every handler: the principal, its scope, and the rest for the key's workspace and user.
unfoldable pub with_scope :
    {A : Type 0} → Host → ℕ → Request → String → (Scope → Served A) → Served A
with_scope host now r scope body s =
    with_principal scope (authenticated_principal host now r s) body
