-- ===== src/Collection/Definition.antt =====
-- apps/api/src/collection-query/definition.ts. `trim`, `Number` and `new Date` are the platform's. A
-- date is the text that `toISOString` gives for it. The schema for the documentation is left out,
-- except for the names of its parameters.
use Prim.Native.Char.{Char, code}
use Prim.Native.String as Text
use vkit_orbit.Base.{
  ℕ, String, Bool, true, false, ◌&&◌, ◌||◌, not, Option, none, some, List, [], ◌∷◌, ◌++◌, map,
  includes, eqb, ltb, ◌==◌, if◌then◌else◌,
}
use vkit_orbit.Json.Print.{◌<>◌, join}
use vkit_orbit.Store.Client.{Result, ok, err, message}
use vkit_orbit.Collection.Checks.{◌>>=◌, ◌>>◌, return, fail_if}
use vkit_orbit.Collection.Cursor.{Codec}

pub data Filter : Type 0 where
  enum : (values : List String) → Filter
  date_range : Filter

pub record Config : Type 0 where
  pub default_size : ℕ
  pub max_size : ℕ
  -- the keys of `sorts`
  pub sorts : List String
  pub default_sort : List String
  pub tie_breaker : String
  pub filters : List (String × Filter)
  pub search : Bool

-- The value of a parameter; what is no text carries the whole number that `Number` makes of it, if it
-- makes one that is not negative and safe.
pub data Raw : Type 0 where
  undefined : Raw
  words : String → Raw
  other : Option ℕ → Raw

pub record Platform : Type 0 where
  pub codec : Codec
  pub trim : String → String
  -- the whole number that `Number` makes of a text, if it is not negative and safe
  pub number_of : String → Option ℕ
  -- the ISO text of `new Date(text)`, with none for an invalid date
  pub date_of : String → Option String

-- `query[key]`
abbrev pub get : String → List (String × Raw) → Raw
get key [] = undefined
get key ((k, v) ∷ rest) = let later = get key rest in if k == key then v else later

abbrev pub filter_keys : String × Filter → List String
filter_keys (name, enum values) = ("filter[" <> name <> "]") ∷ []
filter_keys (name, date_range) =
    ("filter[" <> name <> "][gte]") ∷ ("filter[" <> name <> "][lte]") ∷ []

abbrev pub all_filter_keys : List (String × Filter) → List String
all_filter_keys [] = []
all_filter_keys (f ∷ fs) = filter_keys f ++ all_filter_keys fs

-- The keys of `createQuerySchema`'s properties.
abbrev pub known_keys : Config → List String
known_keys config =
    ("page[size]" ∷ "page[after]" ∷ "page[before]" ∷ "sort" ∷ all_filter_keys config.filters)
    ++ (if config.search then "q" ∷ [] else [])

abbrev pub is_undefined : Raw → Bool
is_undefined undefined = true
is_undefined _ = false

-- The first parameter that is given and not known.
abbrev pub unknown_key : Config → List (String × Raw) → Option String
unknown_key config [] = none
unknown_key config ((key, value) ∷ rest) =
    let later = unknown_key config rest in
    if not (is_undefined value) && not (includes (known_keys config) key) then some key else later

unfoldable pub assert_known : Option String → Result (Unit {0})
assert_known none = ok tt
assert_known (some key) = err (message ("Unknown collection query parameter: " <> key))

unfoldable pub as_string : Raw → String → Result String
as_string (words s) name = ok s
as_string _ name = err (message ("Invalid collection query parameter: " <> name))

abbrev pub size_if_valid : Option ℕ → ℕ → Result ℕ
size_if_valid none max_size = err (message "Invalid collection page size")
size_if_valid (some n) max_size =
    if ltb n 1 || ltb max_size n then err (message "Invalid collection page size") else ok n

unfoldable pub parse_page_size : Platform → Config → Raw → Result ℕ
parse_page_size platform config undefined = ok config.default_size
parse_page_size platform config (words s) = size_if_valid (platform.number_of s) config.max_size
parse_page_size platform config (other n) = size_if_valid n config.max_size

pub data Direction : Type 0 where
  ascending descending : Direction

pub record SortField : Type 0 where
  pub field : String
  pub direction : Direction

-- `token.startsWith("-")` and what the token says.
abbrev pub sort_field : String → SortField
sort_field Text.[] = record { field = ""; direction = ascending }
sort_field (Text.◌∷◌ c rest) =
    if eqb (code c) b'-'
    then record { field = rest; direction = descending }
    else record { field = Text.◌∷◌ c rest; direction = ascending }

abbrev add_char : Char → List String → List String
add_char c [] = (Text.◌∷◌ c "") ∷ []
add_char c (s ∷ rest) = (Text.◌∷◌ c s) ∷ rest

-- `text.split(",")`
unfoldable pub split : String → List String
split Text.[] = "" ∷ []
split (Text.◌∷◌ c rest) =
    let later = split rest in if eqb (code c) b',' then "" ∷ later else add_char c later

-- What an object has from `Object.prototype`, which `in` finds too.
abbrev pub inherited : List String
inherited =
    "constructor" ∷ "__defineGetter__" ∷ "__defineSetter__" ∷ "hasOwnProperty" ∷ "__lookupGetter__"
    ∷ "__lookupSetter__" ∷ "isPrototypeOf" ∷ "propertyIsEnumerable" ∷ "toString" ∷ "valueOf"
    ∷ "__proto__" ∷ "toLocaleString" ∷ []

-- `field in config.sorts`
abbrev pub in_sorts : Config → String → Bool
in_sorts config name = includes config.sorts name || includes inherited name

abbrev pub sort_fields_of : List SortField → List String
sort_fields_of sort = map (λ (x : SortField). x.field) sort

-- The `map` over the tokens, with the fields seen so far.
unfoldable pub parse_tokens : Config → List String → List String → Result (List SortField)
parse_tokens config seen [] = ok []
parse_tokens config seen (token ∷ rest) =
    fail_if
      ((sort_field token).field == ""
        || includes seen (sort_field token).field
        || not (in_sorts config (sort_field token).field))
      "Invalid collection sort"
    >> (parse_tokens config ((sort_field token).field ∷ seen) rest >>= λ later.
        return (sort_field token ∷ later))

abbrev pub with_tie_breaker : Config → List SortField → List SortField
with_tie_breaker config sort =
    if includes (sort_fields_of sort) config.tie_breaker
    then sort
    else sort ++ record { field = config.tie_breaker; direction = ascending } ∷ []

unfoldable pub sort_source : Config → Raw → Result (List String)
sort_source config undefined = ok config.default_sort
sort_source config (words s) = ok (split s)
sort_source config (other n) = as_string (other n) "sort" >>= λ s. return (split s)

unfoldable pub parse_sort : Config → Raw → Result (List SortField)
parse_sort config value = do
  source ← sort_source config value
  sort ← parse_tokens config [] source
  return (with_tie_breaker config sort)

-- `Number.MAX_SAFE_INTEGER`
abbrev pub max_safe : ℕ
max_safe = 9007199254740991

unfoldable pub assert_collection_config : Config → Result (Unit {0})
unfolding join
assert_collection_config config =
    fail_if (ltb max_safe config.default_size || ltb config.default_size 1)
      "Collection default page size must be a positive integer"
    >> (fail_if (ltb max_safe config.max_size || ltb config.max_size config.default_size)
          "Collection maximum page size must be an integer at least as large as the default"
        >> (fail_if (not (in_sorts config config.tie_breaker))
              "Collection tie breaker must be declared as sortable"
            >> (parse_sort config (words (join config.default_sort)) >>= λ _. return tt)))
