-- ===== src/Realtime/Ticket.antt =====
-- packages/realtime/src/ticket.ts and wire-datetime.ts, apps/realtime/src/auth.ts. Base64url, JSON.parse,
-- the HMAC and Date are the platform's.
use Prim.Native.Char.{Char}
use Prim.Native.String as Text
use vkit_orbit.Base.{
  ℕ, String, Bool, true, false, not, ◌&&◌, ◌||◌, Option, none, some, List, [], ◌∷◌, leb, ◌==◌,
  if◌then◌else◌,
}
use vkit_orbit.Base.Texts.{is_between, is_char, is_digit, split_on, after}
use vkit_orbit.Json.{Json, str, obj, end, field}
use vkit_orbit.Json.Print.{◌<>◌, stringify}
use vkit_orbit.Store.Client.{Result, ok, err, message}
use vkit_orbit.Collection.Checks.{◌>>=◌, return}
use vkit_orbit.Collection.Cursor.{lookup}

pub record Platform : Type 0 where
  -- `Buffer.from(text).toString("base64url")`, and back
  pub encode : String → String
  pub decode : String → String
  -- `JSON.parse`, with none where it throws
  pub parse : String → Option Json
  -- `createHmac("sha256", secret).update(payload).digest("base64url")`, the secret first
  pub hmac : String → String → String
  -- `z.iso.date()` on the first ten characters
  pub is_date : String → Bool
  -- `new Date(text).getTime()`
  pub time : String → ℕ

-- `Z`, and nothing more.
abbrev pub is_zone : String → Bool
is_zone s = s == "Z"

-- `\d+Z`, with whether there was a digit.
abbrev pub is_fraction : Bool → String → Bool
is_fraction seen Text.[] = false
is_fraction seen (Text.◌∷◌ c s) =
    is_digit c && is_fraction true s || seen && is_char b'Z' c && s == ""

abbrev pub is_sixty : Char → Bool
is_sixty = is_between b'0' b'5'

-- `(?:\.\d+)?Z`
abbrev pub is_seconds_end : String → Bool
is_seconds_end s =
    is_zone s
    || elim (after (is_char b'.' ∷ []) s) [ none ↦ false | some rest ↦ is_fraction false rest ]

-- `(?::[0-5]\d(?:\.\d+)?)?Z`
abbrev pub is_minutes_end : String → Bool
is_minutes_end s = is_zone s || elim (after (is_char b':' ∷ is_sixty ∷ is_digit ∷ []) s) [
  | none ↦ false
  | some rest ↦ is_seconds_end rest
]

-- `:[0-5]\d`, behind the hours.
abbrev pub is_minutes : Option String → Bool
is_minutes none = false
is_minutes (some s) = elim (after (is_char b':' ∷ is_sixty ∷ is_digit ∷ []) s) [
  | none ↦ false
  | some rest ↦ is_minutes_end rest
]

-- `[01]\d|2[0-3]`
abbrev pub is_clock : String → Bool
is_clock s =
    is_minutes (after (is_between b'0' b'1' ∷ is_digit ∷ []) s)
    || is_minutes (after (is_char b'2' ∷ is_between b'0' b'3' ∷ []) s)

-- `\d{4}-\d{2}-\d{2}T`
abbrev pub day : List (Char → Bool)
day =
    is_digit
    ∷ is_digit
    ∷ is_digit
    ∷ is_digit
    ∷ is_char b'-'
    ∷ is_digit
    ∷ is_digit
    ∷ is_char b'-'
    ∷ is_digit
    ∷ is_digit
    ∷ is_char b'T'
    ∷ []

-- `wireDatetimeSchema`
unfoldable pub is_wire_datetime : Platform → String → Bool
is_wire_datetime platform value =
    elim (after day value) [ none ↦ false | some rest ↦ is_clock rest ] && platform.is_date value

pub record Claims : Type 0 where
  pub subject_id : String
  pub expires_at : String

-- `realtimeClaimsSchema`, on claims and on parsed JSON. Other keys are dropped.
abbrev pub is_claims : Platform → Claims → Bool
is_claims platform c = not (c.subject_id == "") && is_wire_datetime platform c.expires_at

abbrev pub read_claims : Option Json → Option Json → Option Claims
read_claims (some (str subject_id)) (some (str expires_at)) =
    some (record { subject_id = subject_id; expires_at = expires_at })
read_claims _ _ = none

abbrev pub claims_of : Json → Option Claims
claims_of (obj fs) = read_claims (lookup "subjectId" fs) (lookup "expiresAt" fs)
claims_of _ = none

abbrev pub checked : Platform → Option Claims → Option Claims
checked platform none = none
checked platform (some c) = if is_claims platform c then some c else none

abbrev pub claims_json : Claims → Json
claims_json c =
    obj (field "subjectId" (str c.subject_id) (field "expiresAt" (str c.expires_at) end))

-- `signRealtimeTicket`
unfoldable pub sign_realtime_ticket : Platform → Claims → String → Result String
sign_realtime_ticket platform claims secret =
    let payload = platform.encode (stringify (claims_json claims)) in
    if is_claims platform claims
    then ok (payload <> "." <> platform.hmac secret payload)
    else err (message "invalid claims")

abbrev pub invalid : Result Claims
invalid = err (message "Invalid realtime ticket")

-- `JSON.parse` and the schema; whatever is wrong, the error is the same.
abbrev pub parsed_claims : Platform → Option Json → Option Claims
parsed_claims platform none = none
parsed_claims platform (some v) = checked platform (claims_of v)

abbrev pub unexpired : Platform → ℕ → Option Claims → Result Claims
unexpired platform now none = invalid
unexpired platform now (some claims) =
    if leb (platform.time claims.expires_at) now
    then err (message "Expired realtime ticket")
    else ok claims

-- Two texts of the same bytes are the same text.
abbrev pub verify_parts : Platform → ℕ → String → String → String → Result Claims
verify_parts platform now secret payload received =
    if payload == "" || received == "" || not (received == platform.hmac secret payload)
    then invalid
    else unexpired platform now (parsed_claims platform (platform.parse (platform.decode payload)))

-- A ticket has two parts.
abbrev pub verify_split : Platform → ℕ → String → String → List String → Result Claims
verify_split platform now secret payload [] = invalid
verify_split platform now secret payload (received ∷ []) =
    verify_parts platform now secret payload received
verify_split platform now secret payload (received ∷ _ ∷ _) = invalid

-- `verifyRealtimeTicket`
unfoldable pub verify_realtime_ticket : Platform → ℕ → String → String → Result Claims
verify_realtime_ticket platform now ticket secret =
    let (payload, others) = split_on b'.' ticket in verify_split platform now secret payload others

-- `createTicketAuthenticator`: the subject's id.
unfoldable pub authenticate_ticket : Platform → String → ℕ → String → Result String
unfolding verify_realtime_ticket ◌>>=◌ return
authenticate_ticket platform secret now ticket = do
  claims ← verify_realtime_ticket platform now ticket secret
  return claims.subject_id
