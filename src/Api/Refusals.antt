-- ===== src/Api/Refusals.antt =====
-- A request without a key that authenticates is refused, and changes nothing.
use vkit_orbit.Base.{
  ℕ, String, Bool, true, false, ◌≡◌, refl, sym, ap, ◌∙◌, Option, none, some, List,
}
use vkit_orbit.Host.{Host}
use vkit_orbit.Audit.{Scope}
use vkit_orbit.Store.Schema.{Database, ApiKey}
use vkit_orbit.Store.Client.{Client, Result, ok, err, Error}
use vkit_orbit.Store.Command.{
  Command, Table, ◌>>=◌, ◌>>◌, return, throw_if, require, commands, find_first, update,
}
use vkit_orbit.Access.Permissions.{AppError, require_api_scope}
use vkit_orbit.Access.ApiKeys.{authenticate_api_key}
use vkit_orbit.Api.Requests.{
  Request, credential, principal_or_null, authenticated_by, authenticated_principal, app, failed,
  Served, with_principal, with_scope,
}
use vkit_orbit.Api.Handlers.{Environment, Body, Call, handle}
use vkit_orbit.Api.Envelope.{status_of}
use vkit_orbit.Api.Routes.{permission_of, handle_lem}

-- A command that throws has changed nothing.
abbrev IsUnchanged : {A : Type 0} → Database → Result A × Database → Type 0
IsUnchanged s (ok a, t) = Unit
IsUnchanged s (err e, t) = t ≡ s

module _ (s : Database) where
  find_first-IsUnchanged :
      {R B : Type 0} (client : Client) (table : Table R) (p : R → Bool) (f : Option R → Command B)
      → ((o : Option R) → IsUnchanged s (f o s))
      → IsUnchanged s ((find_first client table p >>= f) s)
  unfolding commands find_first
  find_first-IsUnchanged client table p f h = h (client.find_first p (table.rows s))

  require-IsUnchanged :
      {A B : Type 0} (o : Option A) (e : Error) (f : A → Command B)
      → ((a : A) → IsUnchanged s (f a s))
      → IsUnchanged s ((require o e >>= f) s)
  unfolding commands
  require-IsUnchanged none e f h = refl
  require-IsUnchanged (some a) e f h = h a

  throw_if-IsUnchanged :
      {B : Type 0} (b : Bool) (e : Error) (m : Command B)
      → IsUnchanged s (m s)
      → IsUnchanged s ((throw_if b e >> m) s)
  unfolding commands
  throw_if-IsUnchanged true e m h = refl
  throw_if-IsUnchanged false e m h = h

  update-IsUnchanged :
      {R B : Type 0} (client : Client) (table : Table R) (p : R → Bool) (f : R → R) (b : B)
      → IsUnchanged s ((update client table p f >>= λ _. return b) s)
  unfolding commands update
  update-IsUnchanged {R = R} {B = B} client table p f b = case (client.update p f (table.rows s))
    where
      case :
          (r : Result (List R × R))
          → IsUnchanged s (
              vkit_orbit.Store.Command.continue {A = R} {B = B}
                (elim r [ ok (rows, n) ↦ (ok n, table.put rows s) | err e ↦ (err e, s) ])
                (λ _ t. (ok b, t)))
      case (ok (rows, n)) = tt
      case (err e) = refl

  authenticate_api_key-IsUnchanged :
      (host : Host) (now : ℕ) (secret : String)
      → IsUnchanged s (authenticate_api_key host now secret s)
  unfolding authenticate_api_key
  authenticate_api_key-IsUnchanged host now secret =
      find_first-IsUnchanged host.client _ _ _ λ found. require-IsUnchanged found _ _ λ key.
        throw_if-IsUnchanged _ _ _ (
          find_first-IsUnchanged host.client _ _ _ λ joined.
            require-IsUnchanged joined _ _ λ member. update-IsUnchanged host.client _ _ _ _)

-- `new AppError("UNAUTHORIZED", "API key authentication required", 401)`
abbrev pub unauthorized_error : AppError
unauthorized_error = record {
  code = "UNAUTHORIZED";
  message = "API key authentication required";
  status = 401;
}

module _ (host : Host) (now : ℕ) (r : Request) (s : Database) where
  null_unchanged :
      (o : Option String) (t : Database) → authenticated_by host now o s ≡ (ok none, t) → t ≡ s
  null_unchanged none t h = sym (ap (λ x. x.1) h)
  null_unchanged (some value) t h =
      caught (authenticate_api_key host now value s)
        (authenticate_api_key-IsUnchanged s host now value) h
    where
      caught :
          (result : Result (ApiKey × List String) × Database)
          → IsUnchanged s result
          → principal_or_null result ≡ (ok none, t)
          → t ≡ s
      caught (ok (key, scopes), u) k e = absurd (cc (ap (λ x. x.0) e))
      caught (err x, u) k e = sym (ap (λ y. y.1) e) ∙ k

  with_scope-null :
      {A : Type 0} (scope : String) (body : Scope → Served A) (t : Database)
      → authenticated_principal host now r s ≡ (ok none, t)
      → with_scope host now r scope body s ≡ (failed (app unauthorized_error), s)
  unfolding with_scope authenticated_principal require_api_scope
  with_scope-null scope body t h =
      ap (λ p. with_principal scope p body) h
      ∙ ap (λ u. (failed (app unauthorized_error), u)) (null_unchanged (credential r) t h)

module _ (env : Environment) (r : Request) where
  -- Where the handler of one of the eight routes runs, so after the framework has accepted the request's
  -- headers and body: a request that does not authenticate, because no key is given or
  -- `authenticateApiKey` throws, is answered with 401, and the database stays as it was.
  pub handle_unauthorized :
      (call : Call) (production : Bool) (s t : Database)
      → authenticated_principal env.host env.now r s ≡ (ok none, t)
      → ((handle env r call s).1 ≡ s) × (status_of production (handle env r call s).0 ≡ 401)
  unfolding status_of
  handle_unauthorized call production s t h =
      let (body, is_scoped) = handle_lem env r call in
      let e =
        ap (λ (m : Served Body). m s) is_scoped
        ∙ with_scope-null env.host env.now r s (permission_of call) body t h in
      (ap (λ x. x.1) e, ap (λ x. status_of production x.0) e)
