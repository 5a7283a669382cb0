-- ===== src/Storage/Keys.antt =====
-- packages/storage/src/keys.ts. `trim` is the language's. A template is the list of its segments,
-- joined by slashes.
use Prim.Native.String as Text
use text.Mathlib.Text.{starts_with}
use vkit_orbit.Base.{String, Bool, not, ◌&&◌, ◌||◌, List, [], ◌∷◌, any, ◌==◌, if◌then◌else◌}
use vkit_orbit.Base.Texts.{is_char, has_char, split_on}
use vkit_orbit.Json.Print.{◌<>◌}
use vkit_orbit.Store.Client.{Result, ok, err, message}
use vkit_orbit.Collection.Checks.{◌>>=◌, return, fail_if}

abbrev pub join_slashes : String → List String → String
join_slashes first [] = first
join_slashes first (second ∷ others) = first <> Text.◌∷◌ "/" (join_slashes second others)

-- `identifier`: a part of a key.
abbrev pub is_bad_part : String → Bool
is_bad_part value =
    value == "" || has_char b'/' value || has_char b'\\' value || value == "." || value == ".."

unfoldable pub identifier : String → String → Result String
identifier value name =
    if is_bad_part value then err (message (name <> " is invalid")) else ok value

unfoldable pub source_object_key : String → String → String → Result String
source_object_key workspace_id document_id artifact_id = do
  w ← identifier workspace_id "workspaceId"
  d ← identifier document_id "documentId"
  a ← identifier artifact_id "artifactId"
  return (join_slashes "uploads" ("workspaces" ∷ w ∷ "documents" ∷ d ∷ "source" ∷ a ∷ []))

unfoldable pub result_object_key : String → String → String → String → Result String
result_object_key workspace_id document_id run_id artifact_id = do
  w ← identifier workspace_id "workspaceId"
  d ← identifier document_id "documentId"
  r ← identifier run_id "runId"
  a ← identifier artifact_id "artifactId"
  return (
      join_slashes "uploads"
        ("workspaces" ∷ w ∷ "documents" ∷ d ∷ "runs" ∷ r ∷ "results" ∷ (a <> ".json") ∷ []))

-- `replace(/^\/+|\/+$/g, "")`: the slashes in front, and those at the end.
abbrev pub drop_front : String → String
drop_front Text.[] = ""
drop_front (Text.◌∷◌ c s) = let rest = drop_front s in if is_char b'/' c then rest else Text.◌∷◌ c s

abbrev pub drop_end : String → String
drop_end Text.[] = ""
drop_end (Text.◌∷◌ c s) =
    let rest = drop_end s in if is_char b'/' c && rest == "" then "" else Text.◌∷◌ c rest

abbrev pub strip_slashes : String → String
strip_slashes s = drop_end (drop_front s)

abbrev pub has_segment : (String → Bool) → String → Bool
has_segment p s = let (first, others) = split_on b'/' s in any p (first ∷ others)

-- `normalizePrefix`
unfoldable pub normalize_prefix : (String → String) → String → Result String
normalize_prefix trim prefix =
    let value = strip_slashes (trim prefix) in
    if value == "" || has_segment (λ s. s == "..") value
    then err (message "Storage root prefix is invalid")
    else ok value

abbrev pub is_bad_segment : String → Bool
is_bad_segment s = s == ".." || s == ""

-- `assertObjectKey`
unfoldable pub assert_object_key : (String → String) → String → String → Result (Unit {0})
assert_object_key trim root_prefix key = do
  prefix ← normalize_prefix trim root_prefix
  fail_if (not (starts_with key (prefix <> "/")) || has_segment is_bad_segment key)
      "Object key is outside configured prefix"
