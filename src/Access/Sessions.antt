-- ===== src/Access/Sessions.antt =====
-- packages/application/src/auth/session.ts. The random parts of a new session are arguments, and so is
-- the address of a user, which the source reads through the session's relation to it.
use Prim.Native.Char.{code}
use Prim.Native.String as Text
use vkit_orbit.Base.{
  ℕ, ◌+◌, ◌*◌, String, Bool, true, false, ◌&&◌, ◌||◌, not, Option, none, some, is_some, leb, eqb,
  ◌==◌,
}
use vkit_orbit.Host.{Host}
use vkit_orbit.Json.Print.{◌<>◌}
use vkit_orbit.Store.Schema.{Session}
use vkit_orbit.Store.Client.{unauthorized}
use vkit_orbit.Store.Command.{
  Command, ◌>>=◌, ◌>>◌, return, throw_if, require, sessions, find_first, update_many, create,
}

-- `s.startsWith(prefix)`
unfoldable pub starts_with : String → String → Bool
starts_with s Text.[] = true
starts_with Text.[] (Text.◌∷◌ c prefix) = false
starts_with (Text.◌∷◌ d s) (Text.◌∷◌ c prefix) = eqb (code d) (code c) && starts_with s prefix

pub record NewSession : Type 0 where
  pub user_id : String
  pub expires_at : Option ℕ
  pub user_agent : Option String
  pub ip_address : Option String

-- Thirty days, where no other end is given.
abbrev pub session_end : ℕ → Option ℕ → ℕ
session_end now none = now + 30 * 86400000
session_end now (some t) = t

abbrev pub session_row : Host → String → String → ℕ → NewSession → Session
session_row host bytes id_bytes now input = record {
  id = "sesid_" <> id_bytes;
  user_id = input.user_id;
  token_hash = host.sha256 ("ses_" <> bytes);
  expires_at = session_end now input.expires_at;
  revoked_at = none;
  user_agent = input.user_agent;
  ip_address = input.ip_address;
}

abbrev pub session_clash : Session → Session → Bool
session_clash n r = r.id == n.id || r.token_hash == n.token_hash

unfoldable pub create_session : Host → String → String → ℕ → NewSession → Command (Session × String)
create_session host bytes id_bytes now input = do
  session ←
      create host.client sessions (session_clash (session_row host bytes id_bytes now input))
        (session_row host bytes id_bytes now input)
  return (session, "ses_" <> bytes)

pub record Authenticated : Type 0 where
  pub user_id : String
  pub session_id : String
  pub email : String

abbrev pub has_token : Host → String → Session → Bool
has_token host secret r = r.token_hash == host.sha256 secret

abbrev pub is_ended : ℕ → Session → Bool
is_ended now r = is_some r.revoked_at || leb r.expires_at now

unfoldable pub authenticate_session :
    Host → (email_of : String → String) → ℕ → String → Command Authenticated
authenticate_session host email_of now secret = do
  throw_if (not (starts_with secret "ses_")) (unauthorized "invalid session")
  found ← find_first host.client sessions (has_token host secret)
  session ← require found (unauthorized "invalid session")
  throw_if (is_ended now session) (unauthorized "invalid session")
  return (record {
    user_id = session.user_id;
    session_id = session.id;
    email = email_of session.user_id;
  })

abbrev pub is_running : Host → String → Session → Bool
is_running host secret r = has_token host secret r && not (is_some r.revoked_at)

abbrev pub ended : ℕ → Session → Session
ended now r = record r { revoked_at = some now }

unfoldable pub revoke_session : Host → ℕ → String → Command (Unit {0})
revoke_session host now secret = do
  _count ← update_many host.client sessions (is_running host secret) (ended now)
  return tt
