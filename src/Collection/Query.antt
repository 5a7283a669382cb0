-- ===== src/Collection/Query.antt =====
-- The rest of apps/api/src/collection-query/definition.ts: filters, search, and a query as a whole.
use vkit_orbit.Base.{
  ℕ, String, Bool, ◌&&◌, not, Option, none, some, List, [], ◌∷◌, map, includes, is_some, ◌==◌,
  if◌then◌else◌,
}
use vkit_orbit.Json.{Json, str, obj, Fields, end, field}
use vkit_orbit.Json.Print.{◌<>◌, decimal, join}
use vkit_orbit.Store.Client.{Result, ok}
use vkit_orbit.Collection.Checks.{◌>>=◌, ◌>>◌, return, fail_if}
use vkit_orbit.Collection.Cursor.{Codec, encode_cursor, decode_cursor, create_query_fingerprint}
use vkit_orbit.Collection.Definition.{
  Filter, enum, date_range, Config, Raw, undefined, Platform, get, is_undefined, unknown_key,
  assert_known, as_string, parse_page_size, SortField, Direction, ascending, descending, parse_sort,
}

-- A parsed filter: a value, or the bounds of a range.
pub data Parsed : Type 0 where
  value : String → Parsed
  range : (gte lte : Option String) → Parsed

unfoldable pub parse_date : Platform → Raw → String → Result (Option String)
parse_date platform undefined name = ok none
parse_date platform given name = do
  s ← as_string given name
  fail_if (not (is_some (platform.date_of s))) ("Invalid collection filter: " <> name)
  return (platform.date_of s)

abbrev pub range_if_any : Option String → Option String → Option Parsed
range_if_any none none = none
range_if_any gte lte = some (range gte lte)

unfoldable pub parse_enum : List String → String → Raw → Result (Option Parsed)
parse_enum values name undefined = ok none
parse_enum values name given = do
  s ← as_string given ("filter[" <> name <> "]")
  fail_if (not (includes values s)) ("Invalid collection filter: " <> name)
  return (some (value s))

unfoldable pub parse_filter :
    Platform → List (String × Raw) → String → Filter → Result (Option Parsed)
parse_filter platform query name (enum values) =
    parse_enum values name (get ("filter[" <> name <> "]") query)
parse_filter platform query name date_range = do
  gte ←
      parse_date platform (get ("filter[" <> name <> "][gte]") query)
        ("filter[" <> name <> "][gte]")
  lte ←
      parse_date platform (get ("filter[" <> name <> "][lte]") query)
        ("filter[" <> name <> "][lte]")
  return (range_if_any gte lte)

abbrev pub add_parsed : String → Option Parsed → List (String × Parsed) → List (String × Parsed)
add_parsed name none later = later
add_parsed name (some p) later = (name, p) ∷ later

unfoldable pub parse_filters :
    Platform → List (String × Raw) → List (String × Filter) → Result (List (String × Parsed))
parse_filters platform query [] = ok []
parse_filters platform query ((name, filter) ∷ rest) = do
  parsed ← parse_filter platform query name filter
  later ← parse_filters platform query rest
  return (add_parsed name parsed later)

unfoldable pub parse_search : Platform → Bool → Raw → Result (Option String)
parse_search platform supported undefined = ok none
parse_search platform supported given = do
  fail_if (not supported) "Collection search is not supported"
  s ← as_string given "q"
  fail_if (platform.trim s == "") "Collection search must not be empty"
  return (some (platform.trim s))

pub record Query : Type 0 where
  pub size : ℕ
  pub after : Option Json
  pub before : Option Json
  pub sort : List SortField
  pub filters : List (String × Parsed)
  pub search : Option String

-- `${direction === "desc" ? "-" : ""}${field}`
abbrev pub token_of : Direction → String → String
token_of ascending name = name
token_of descending name = "-" <> name

abbrev pub tokens_of : List SortField → List String
tokens_of sort = map (λ (x : SortField). token_of x.direction x.field) sort

abbrev pub bound : String → Option String → Fields → Fields
bound name none later = later
bound name (some date) later = field name (str date) later

abbrev pub parsed_json : Parsed → Json
parsed_json (value s) = str s
parsed_json (range gte lte) = obj (bound "gte" gte (bound "lte" lte end))

abbrev pub filters_json : List (String × Parsed) → Fields
filters_json [] = end
filters_json ((name, p) ∷ rest) = field name (parsed_json p) (filters_json rest)

unfoldable pub create_fingerprint :
    Codec → List SortField → List (String × Parsed) → Option String → String
create_fingerprint codec sort filters search =
    create_query_fingerprint codec (tokens_of sort) (filters_json filters) search

unfoldable pub parse_cursor : Codec → Raw → String → String → Result (Option Json)
parse_cursor codec undefined name fingerprint = ok none
parse_cursor codec given name fingerprint = do
  s ← as_string given name
  position ← decode_cursor codec s fingerprint
  return (some position)

unfoldable pub parse : Platform → Config → List (String × Raw) → Result Query
parse platform config query = do
  assert_known (unknown_key config query)
  size ← parse_page_size platform config (get "page[size]" query)
  sort ← parse_sort config (get "sort" query)
  filters ← parse_filters platform query config.filters
  search ← parse_search platform config.search (get "q" query)
  fail_if
      (not (is_undefined (get "page[after]" query))
        && not (is_undefined (get "page[before]" query)))
      "Only one cursor direction may be used"
  after ←
      parse_cursor platform.codec (get "page[after]" query) "page[after]"
        (create_fingerprint platform.codec sort filters search)
  before ←
      parse_cursor platform.codec (get "page[before]" query) "page[before]"
        (create_fingerprint platform.codec sort filters search)
  return (record {
    size = size;
    after = after;
    before = before;
    sort = sort;
    filters = filters;
    search = search;
  })

unfoldable pub create_cursor : Codec → Query → Json → String
create_cursor codec query position =
    encode_cursor codec position (create_fingerprint codec query.sort query.filters query.search)

-- `parameters.set(…)` where there is a value.
abbrev pub set_if : String → Option String → List (String × String) → List (String × String)
set_if name none later = later
set_if name (some v) later = (name, v) ∷ later

abbrev pub filter_parameters :
    String → Option Parsed → List (String × String) → List (String × String)
filter_parameters name none later = later
filter_parameters name (some (value s)) later = ("filter[" <> name <> "]", s) ∷ later
filter_parameters name (some (range gte lte)) later =
    set_if ("filter[" <> name <> "][gte]") gte (set_if ("filter[" <> name <> "][lte]") lte later)

abbrev pub parsed_of : String → List (String × Parsed) → Option Parsed
parsed_of name [] = none
parsed_of name ((k, p) ∷ rest) =
    let later = parsed_of name rest in if k == name then some p else later

abbrev pub all_filter_parameters :
    List (String × Filter)
    → List (String × Parsed)
    → List (String × String)
    → List (String × String)
all_filter_parameters [] parsed later = later
all_filter_parameters ((name, f) ∷ rest) parsed later =
    filter_parameters name (parsed_of name parsed) (all_filter_parameters rest parsed later)

abbrev pub cursor_of : Codec → Query → Option Json → Option String
cursor_of codec query none = none
cursor_of codec query (some position) = some (create_cursor codec query position)

-- `if (query.search)`
abbrev pub unless_empty : Option String → Option String
unless_empty none = none
unless_empty (some s) = if s == "" then none else some s

-- The parameters in the order in which they are set.
unfoldable pub serialize : Codec → Config → Query → List (String × String)
serialize codec config query =
    ("page[size]", decimal query.size)
    ∷ ("sort", join (tokens_of query.sort))
    ∷ all_filter_parameters config.filters query.filters (
        set_if "q" (unless_empty query.search) (
          set_if "page[after]" (cursor_of codec query query.after)
            (set_if "page[before]" (cursor_of codec query query.before) [])))
