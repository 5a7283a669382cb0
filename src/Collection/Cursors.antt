-- ===== src/Collection/Cursors.antt =====
-- A cursor is good for the query it was made for, and for no other.
use vkit_orbit.Base.{String, Bool, true, false, ◌≡◌, refl, none, some, ◌==◌, if◌then◌else◌}
use vkit_orbit.Json.{Json}
use vkit_orbit.Json.Print.{stringify}
use vkit_orbit.Store.Client.{ok, err, message}
use vkit_orbit.Collection.Cursor.{
  Codec, cursor_payload, encode_cursor, decode_cursor, is_position, or_invalid,
}

-- Where base64url and JSON give back what they have written, a cursor is decoded to its position under
-- the fingerprint with which it was made, and is refused under every other.
pub decode_cursor-encode_cursor :
    (codec : Codec) (position : Json) (fingerprint expected : String)
    → is_position position ≡ true
    → codec.is_base64url (encode_cursor codec position fingerprint) ≡ true
    → codec.decode (codec.encode (stringify (cursor_payload position fingerprint)))
      ≡ stringify (cursor_payload position fingerprint)
    → codec.parse (stringify (cursor_payload position fingerprint))
      ≡ some (cursor_payload position fingerprint)
    → decode_cursor codec (encode_cursor codec position fingerprint) expected
      ≡ (if fingerprint == expected then ok position else err (message "Invalid collection cursor"))
unfolding encode_cursor decode_cursor
decode_cursor-encode_cursor codec position fingerprint expected scalars url back parsed =
    rw (url, back, parsed) (rw scalars (answer (fingerprint == expected)))
  where
    answer :
        (b : Bool)
        → or_invalid (if b then some position else none)
          ≡ (if b then ok position else err (message "Invalid collection cursor"))
    answer true = refl
    answer false = refl
