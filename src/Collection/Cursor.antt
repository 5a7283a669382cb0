-- ===== src/Collection/Cursor.antt =====
-- apps/api/src/collection-query/cursor.ts. Base64url, `JSON.parse` and the digest are the platform's.
use vkit_orbit.Base.{
  String, Bool, true, false, ◌&&◌, Option, none, some, List, [], ◌∷◌, all, eqb, ◌==◌, if◌then◌else◌,
}
use vkit_orbit.Json.{Json, num, str, arr, obj, Items, nil, cons, Fields, end, field, entries}
use vkit_orbit.Json.Print.{◌<>◌, quote, stringify}
use vkit_orbit.Json.Canonical.{Collation, stable_json}
use vkit_orbit.Store.Client.{Result, ok, err, message}

pub record Codec : Type 0 where
  -- `Buffer.from(text).toString("base64url")`
  pub encode : String → String
  -- `Buffer.from(text, "base64url").toString("utf8")`
  pub decode : String → String
  -- whether every character is one of the alphabet, and there is one
  pub is_base64url : String → Bool
  -- `JSON.parse`, with none where it throws
  pub parse : String → Option Json
  -- `createHash("sha256").update(text).digest("base64url")`
  pub digest : String → String
  -- the order in which `sort()` puts texts
  pub before : Collation

abbrev pub cursor_payload : Json → String → Json
cursor_payload position fingerprint =
    obj (field "v" (num 1) (field "position" position (field "fingerprint" (str fingerprint) end)))

unfoldable pub encode_cursor : Codec → Json → String → String
encode_cursor codec position fingerprint =
    codec.encode (stringify (cursor_payload position fingerprint))

abbrev pub lookup : String → Fields → Option Json
lookup k end = none
lookup k (field j v fs) = let later = lookup k fs in if j == k then some v else later

abbrev pub is_record : Json → Bool
is_record (obj fs) = true
is_record _ = false

abbrev pub is_cursor_scalar : Json → Bool
is_cursor_scalar (arr vs) = false
is_cursor_scalar (obj fs) = false
is_cursor_scalar _ = true

abbrev pub is_position : Json → Bool
is_position (obj fs) = all (λ e. is_cursor_scalar e.1) (entries fs)
is_position _ = false

-- `value.v !== 1`
abbrev pub is_one : Option Json → Bool
is_one (some (num n)) = eqb n 1
is_one _ = false

-- The position of a payload with the expected fingerprint: `isCursorPayload` and the comparison.
abbrev pub position_if : String → Option Json → Option Json → Option Json → Option Json
position_if expected v (some (str fingerprint)) (some position) =
    if is_one v && is_position position && fingerprint == expected then some position else none
position_if expected v _ _ = none

abbrev pub payload_position : String → Json → Option Json
payload_position expected (obj fs) =
    position_if expected (lookup "v" fs) (lookup "fingerprint" fs) (lookup "position" fs)
payload_position expected _ = none

abbrev pub parsed_position : String → Option Json → Option Json
parsed_position expected none = none
parsed_position expected (some payload) = payload_position expected payload

abbrev pub or_invalid : Option Json → Result Json
or_invalid none = err (message "Invalid collection cursor")
or_invalid (some position) = ok position

-- Whatever is wrong, the error is the same.
unfoldable pub decode_cursor : Codec → String → String → Result Json
decode_cursor codec value expected = or_invalid (
    if codec.is_base64url value
    then parsed_position expected (codec.parse (codec.decode value))
    else none)

abbrev pub text_array : List String → Items
text_array [] = nil
text_array (t ∷ ts) = cons (str t) (text_array ts)

-- A missing search is printed as `undefined`.
abbrev pub search_text : Option String → String
search_text none = "undefined"
search_text (some s) = quote s

-- `createQueryFingerprint`: the three keys in order, each with its value as `stableSerialize` prints
-- it. A date is its ISO text.
unfoldable pub create_query_fingerprint : Codec → List String → Fields → Option String → String
create_query_fingerprint codec sort filters search = codec.digest (
    "{\"filters\":"
    <> stable_json codec.before (obj filters)
    <> ",\"search\":"
    <> search_text search
    <> ",\"sort\":"
    <> stable_json codec.before (arr (text_array sort))
    <> "}")
