-- ===== src/Scenarios/Lists.antt =====
-- A list of documents: its configuration, a query, and the cursor of its next page.
use vkit_orbit.Base.{String, true, ◌≡◌, refl, none, some, List, [], ◌∷◌, ◌==◌, if◌then◌else◌}
use vkit_orbit.Json.{Json, str, obj, end, field}
use vkit_orbit.Json.Print.{stringify, quote, decimal}
use vkit_orbit.Store.Client.{ok, err, message}
use vkit_orbit.Collection.Checks.{◌>>=◌, ◌>>◌, return, fail_if}
use vkit_orbit.Collection.Cursor.{
  Codec, cursor_payload, encode_cursor, decode_cursor, create_query_fingerprint,
}
use vkit_orbit.Collection.Cursors.{decode_cursor-encode_cursor}
use vkit_orbit.Collection.Definition.{
  Config, enum, Raw, words, Platform, assert_known, as_string, parse_page_size, SortField,
  ascending, descending, split, parse_tokens, sort_source, parse_sort, assert_collection_config,
}
use vkit_orbit.Collection.Query.{
  Query, value, parse_enum, parse_filter, parse_filters, parse_search, parse_cursor, parse,
  create_cursor, create_fingerprint,
}
use vkit_orbit.Collection.Pages.{IsValid, parse-IsValid}
use vkit_orbit.Collection.Links.{parse-create_cursor}
use vkit_orbit.Scenarios.Collation.{by_code}

abbrev config : Config
config = record {
  default_size = 25;
  max_size = 100;
  sorts = "createdAt" ∷ "id" ∷ [];
  default_sort = "-createdAt" ∷ [];
  tie_breaker = "id";
  filters = ("status", enum ("READY" ∷ "UPLOADING" ∷ [])) ∷ [];
  search = true;
}

abbrev position : Json
position = obj (field "id" (str "doc_9") end)

-- Base64url that leaves a text as it is, a digest with one value, and a parser of one text.
abbrev codec : Codec
codec = record {
  encode = λ s. s;
  decode = λ s. s;
  is_base64url = λ s. true;
  parse = λ s.
      if s == stringify (cursor_payload position "fp")
      then some (cursor_payload position "fp")
      else none;
  digest = λ s. "fp";
  before = by_code;
}

abbrev platform : Platform
platform = record {
  codec = codec;
  trim = λ s. s;
  number_of = λ s. if s == "10" then some 10 else none;
  date_of = λ s. some s;
}

abbrev query : List (String × Raw)
query =
    ("sort", words "-createdAt")
    ∷ ("page[size]", words "10")
    ∷ ("filter[status]", words "READY")
    ∷ []

abbrev by_date : List SortField
by_date =
    record { field = "createdAt"; direction = descending }
    ∷ record { field = "id"; direction = ascending }
    ∷ []

abbrev first_page : Query
first_page = record {
  size = 10;
  after = none;
  before = none;
  sort = by_date;
  filters = ("status", value "READY") ∷ [];
  search = none;
}

accepted : assert_collection_config config ≡ ok tt
unfolding assert_collection_config parse_sort sort_source split parse_tokens fail_if ◌>>=◌ ◌>>◌
    return
accepted = refl

sorted : parse_sort config (words "-createdAt") ≡ ok by_date
unfolding parse_sort sort_source split parse_tokens fail_if ◌>>=◌ ◌>>◌ return
sorted = refl

parsed : parse platform config query ≡ ok first_page
unfolding parse assert_known parse_page_size parse_sort sort_source split parse_tokens parse_filters
    parse_filter parse_enum as_string parse_search parse_cursor fail_if ◌>>=◌ ◌>>◌ return
parsed = refl

one_fingerprint : create_fingerprint codec first_page.sort first_page.filters none ≡ "fp"
unfolding create_fingerprint create_query_fingerprint
one_fingerprint = refl

decode_cursor-encode_cursor_example :
    decode_cursor codec (encode_cursor codec position "fp") "other"
    ≡ (if "fp" == "other" then ok position else err (message "Invalid collection cursor"))
unfolding stringify quote decimal
decode_cursor-encode_cursor_example =
    decode_cursor-encode_cursor codec position "fp" "other" refl refl refl refl

parse-IsValid_example : IsValid config first_page
parse-IsValid_example = parse-IsValid platform config query first_page accepted parsed

parse-create_cursor_example :
    parse platform config (("page[after]", words (create_cursor codec first_page position)) ∷ query)
    ≡ ok (record first_page { after = some position })
unfolding create_fingerprint create_query_fingerprint stringify quote decimal
parse-create_cursor_example =
    parse-create_cursor platform config query first_page position refl parsed refl refl refl refl
