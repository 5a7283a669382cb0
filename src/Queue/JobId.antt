-- ===== src/Queue/JobId.antt =====
-- packages/queue/src/job-id.ts. `trim` is the language's.
use Prim.Native.Char.{Char}
use Prim.Native.String as Text
use vkit_orbit.Base.{
  ℕ, String, Bool, false, ◌&&◌, ◌||◌, not, List, [], ◌∷◌, ltb, ◌==◌, if◌then◌else◌,
}
use vkit_orbit.Base.Texts.{is_between, is_char, is_digit, is_run, has_char, split_on}
use vkit_orbit.Json.Print.{◌<>◌, decimal}
use vkit_orbit.Store.Client.{Result, ok, err, message}

-- `\w`
abbrev is_word_char : Char → Bool
is_word_char c = is_digit c || is_between b'A' b'Z' c || is_between b'a' b'z' c || is_char b'_' c

-- `\w+`
abbrev pub is_word : String → Bool
is_word = is_run is_word_char

-- `v\d+`
abbrev pub is_version : String → Bool
is_version (Text.◌∷◌ c s) = is_char b'v' c && is_run is_digit s
is_version Text.[] = false

-- `^\w+(?:\.\w+)*\.v\d+$`: words, and a version at the end.
abbrev pub are_versioned : String → List String → Bool
are_versioned first [] = false
are_versioned first (last ∷ []) = is_word first && is_version last
are_versioned first (second ∷ third ∷ others) =
    is_word first && are_versioned second (third ∷ others)

abbrev pub is_versioned : String → Bool
is_versioned name = let (first, others) = split_on b'.' name in are_versioned first others

-- `text.includes(":")`
abbrev pub has_colon : String → Bool
has_colon = has_char b':'

-- `replaceAll(".", ".")` gives the name as it is. The revision is an integer.
unfoldable pub create_job_id : (String → String) → String → String → ℕ → Result String
unfolding decimal
create_job_id trim name business_id revision =
    if not (is_versioned name) || has_colon name
    then err (message "invalid versioned job name")
    else if trim business_id == "" || has_colon business_id
    then err (message "invalid business id")
    else if ltb revision 1
    then err (message "invalid revision")
    else ok (name <> "__" <> business_id <> "__" <> decimal revision)
