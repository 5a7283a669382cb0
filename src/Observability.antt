-- ===== src/Observability.antt =====
-- packages/application/src/observability/redaction.ts: what is left out of the logs, of values that JSON
-- can hold.
use Prim.Native.Char.{Char, code}
use Prim.Native.String as Text
use vkit_orbit.Base.{
  ◌+◌, String, Bool, true, false, ◌&&◌, ◌||◌, ◌≡◌, ◌⊎◌, refl, List, [], ◌∷◌, ◌++◌, any, eqb,
  if◌then◌else◌, inl, inr, Bool-cases,
}
use vkit_orbit.Base.Texts.{is_between, is_char}
use vkit_orbit.Json.{Json, null, bool, num, str, arr, obj, Items, nil, cons, Fields, end, field}

-- A pattern: characters of a class, some of them optional.
pub data Part : Type 0 where
  one maybe : (Char → Bool) → Part

abbrev pub starts : List Part → String → Bool
starts [] s = true
starts (one p ∷ ps) Text.[] = false
starts (one p ∷ ps) (Text.◌∷◌ c s) = p c && starts ps s
starts (maybe p ∷ ps) Text.[] = starts ps ""
starts (maybe p ∷ ps) (Text.◌∷◌ c s) = starts ps (Text.◌∷◌ c s) || p c && starts ps s

-- `pattern.test(s)`: a match at any place.
abbrev pub test : List Part → String → Bool
test pattern Text.[] = starts pattern ""
test pattern (Text.◌∷◌ c s) = starts pattern (Text.◌∷◌ c s) || test pattern s

-- The flag `i`: a capital letter counts as its small one.
abbrev pub same_letter : Char → Char → Bool
same_letter a c = eqb (code c) (code a) || is_between b'a' b'z' a && eqb (code c + 32) (code a)

-- A word, in small letters.
abbrev pub word : String → List Part
word Text.[] = []
word (Text.◌∷◌ c s) = one (same_letter c) ∷ word s

-- `[-_]?`
abbrev pub hyphen : List Part
hyphen = maybe (λ c. is_char b'-' c || is_char b'_' c) ∷ []

-- `\s`
abbrev pub space : List Part
space =
    one (λ c.
      is_between 9 13 c
      || is_char 32 c
      || is_char 160 c
      || is_char 5760 c
      || is_between 8192 8202 c
      || is_between 8232 8233 c
      || is_char 8239 c
      || is_char 8287 c
      || is_char 12288 c
      || is_char 65279 c)
    ∷ []

abbrev key_patterns : List (List Part)
key_patterns =
    word "authorization"
    ∷ word "cookie"
    ∷ word "password"
    ∷ word "secret"
    ∷ word "token"
    ∷ (word "api" ++ hyphen ++ word "key")
    ∷ word "credential"
    ∷ (word "signed" ++ hyphen ++ word "url")
    ∷ (word "document" ++ hyphen ++ word "content")
    ∷ (word "raw" ++ hyphen ++ word "content")
    ∷ (word "database" ++ hyphen ++ word "url")
    ∷ (word "redis" ++ hyphen ++ word "url")
    ∷ word "storage"
    ∷ []

-- `bearer\s+` needs one space.
abbrev value_patterns : List (List Part)
value_patterns =
    word "postgres://"
    ∷ word "postgresql://"
    ∷ word "redis://"
    ∷ word "mysql://"
    ∷ word "x-amz-"
    ∷ word "signature="
    ∷ word "awsaccesskeyid="
    ∷ (word "bearer" ++ space)
    ∷ (word "api" ++ hyphen ++ word "key=")
    ∷ (word "webhook" ++ hyphen ++ word "secret=")
    ∷ word "session="
    ∷ []

unfoldable pub sensitive_key : String → Bool
sensitive_key key = any (λ p. test p key) key_patterns

unfoldable pub sensitive_value : String → Bool
sensitive_value value = any (λ p. test p value) value_patterns

abbrev pub redacted : String
redacted = "[REDACTED]"

unfoldable mutual
  pub redact : Json → Json
  redact (arr vs) = arr (redact_items vs)
  redact (obj fs) = obj (redact_fields fs)
  redact (str s) = if sensitive_value s then str redacted else str s
  redact null = null
  redact (bool b) = bool b
  redact (num n) = num n

  pub redact_items : Items → Items
  redact_items nil = nil
  redact_items (cons v vs) = cons (redact v) (redact_items vs)

  pub redact_fields : Fields → Fields
  redact_fields end = end
  redact_fields (field key v fs) =
      field key (if sensitive_key key then str redacted else redact v) (redact_fields fs)

-- No text is sensitive, and a sensitive key has nothing but the mark.
abbrev mutual
  pub IsClean : Json → Type 0
  IsClean (arr vs) = AreClean vs
  IsClean (obj fs) = HasClean fs
  IsClean (str s) = sensitive_value s ≡ false
  IsClean null = Unit
  IsClean (bool b) = Unit
  IsClean (num n) = Unit

  pub AreClean : Items → Type 0
  AreClean nil = Unit
  AreClean (cons v vs) = IsClean v × AreClean vs

  pub HasClean : Fields → Type 0
  HasClean end = Unit
  HasClean (field key v fs) =
      ((sensitive_key key ≡ false) ⊎ (v ≡ str redacted)) × IsClean v × HasClean fs

mark_plain : sensitive_value redacted ≡ false
unfolding sensitive_value
mark_plain = refl

field-IsClean :
    (key : String) (v : Json)
    → IsClean v
    → ((sensitive_key key ≡ false)
        ⊎ ((if sensitive_key key then str redacted else v) ≡ str redacted))
      × IsClean (if sensitive_key key then str redacted else v)
field-IsClean key v h = elim (Bool-cases (sensitive_key key)) [
  | inl e ↦ rw e (inr refl, mark_plain)
  | inr e ↦ rw e (inl refl, h)
]

mutual
  unfolding redact

  json-IsClean : (v : Json) → IsClean (redact v)
  json-IsClean (arr vs) = items-IsClean vs
  json-IsClean (obj fs) = fields-IsClean fs
  json-IsClean (str s) = elim (Bool-cases (sensitive_value s)) [
    | inl e ↦ rw e mark_plain
    | inr e ↦ rw e e
  ]
  json-IsClean null = tt
  json-IsClean (bool b) = tt
  json-IsClean (num n) = tt

  items-IsClean : (vs : Items) → AreClean (redact_items vs)
  items-IsClean nil = tt
  items-IsClean (cons v vs) = (json-IsClean v, items-IsClean vs)

  fields-IsClean : (fs : Fields) → HasClean (redact_fields fs)
  fields-IsClean end = tt
  fields-IsClean (field key v fs) =
      let (kept, cleaned) = field-IsClean key (redact v) (json-IsClean v) in
      (kept, cleaned, fields-IsClean fs)

-- A redacted value has no sensitive text in it, at any depth, and under a sensitive key it has only the
-- mark [REDACTED].
pub redact-IsClean : (v : Json) → IsClean (redact v)
redact-IsClean = json-IsClean
