-- ===== src/Collection/Links.antt =====
-- The link to the next page is a query that is parsed as the one it was made from.
use vkit_orbit.Base.{
  String, true, false, ◌≡◌, refl, sym, ap, ◌∙◌, subst, Option, none, some, List, [], ◌∷◌, ◌==◌,
  eq_iff, Bool-cases, inl, inr,
}
use text.Mathlib.Text.{starts_with}
use text.Mathlib.TextPositions.{eq_refl, starts_with-append}
use vkit_orbit.Json.{Json}
use vkit_orbit.Json.Print.{◌<>◌, stringify}
use vkit_orbit.Store.Client.{ok}
use vkit_orbit.Collection.Checks.{
  ◌>>=◌, ◌>>◌, return, >>_inv, >>=_inv, fail_if, fail_if_inv, return_inv,
}
use vkit_orbit.Collection.Cursor.{cursor_payload, decode_cursor, is_position}
use vkit_orbit.Collection.Cursors.{decode_cursor-encode_cursor}
use vkit_orbit.Collection.Definition.{
  Filter, enum, date_range, Config, Raw, undefined, words, Platform, get, unknown_key, assert_known,
  as_string, parse_page_size, parse_sort,
}
use vkit_orbit.Collection.Query.{
  Query, parse, parse_cursor, parse_filter, parse_filters, parse_search, create_fingerprint,
  create_cursor,
}

-- The name of a filter's parameter is not the cursor's.
filter_key : (rest : String) → ("page[after]" == ("filter[" <> rest)) ≡ false
filter_key rest = elim (Bool-cases ("page[after]" == ("filter[" <> rest))) [
  | inr other_ ↦ other_
  | inl same ↦
      let e = (eq_iff "page[after]" ("filter[" <> rest)).0 same in
      absurd (
        clash
          (subst (λ s. starts_with s "filter[" ≡ true) (sym e) (starts_with-append "filter[" rest)))
]
  where
    clash : starts_with "page[after]" "filter[" ≡ true → ⊥
    clash h = cc h

module _ (platform : Platform) (value : Raw) (query : List (String × Raw)) where
  abbrev extended : List (String × Raw)
  extended = ("page[after]", value) ∷ query

  parse_filter-extended :
      (name : String) (f : Filter)
      → parse_filter platform extended name f ≡ parse_filter platform query name f
  unfolding parse_filter
  parse_filter-extended name (enum values) = rw (filter_key (name <> "]"))
  parse_filter-extended name date_range =
      rw (filter_key (name <> "][gte]"), filter_key (name <> "][lte]"))

  parse_filters-extended :
      (fs : List (String × Filter))
      → parse_filters platform extended fs ≡ parse_filters platform query fs
  unfolding parse_filters
  parse_filters-extended [] = refl
  parse_filters-extended ((name, f) ∷ rest) =
      rw (parse_filter-extended name f, parse_filters-extended rest)

-- What a parsed query says of the code that parsed it.
record Traced (platform : Platform) (config : Config) (query : List (String × Raw)) (q : Query)
    : Type 0 where
  known : assert_known (unknown_key config query) ≡ ok tt
  sized : parse_page_size platform config (get "page[size]" query) ≡ ok q.size
  sorted : parse_sort config (get "sort" query) ≡ ok q.sort
  filtered : parse_filters platform query config.filters ≡ ok q.filters
  searched : parse_search platform config.search (get "q" query) ≡ ok q.search
  before :
      parse_cursor platform.codec
        (get "page[before]" query)
        "page[before]"
        (create_fingerprint platform.codec q.sort q.filters q.search)
      ≡ ok q.before

parse-Traced :
    (platform : Platform) (config : Config) (query : List (String × Raw)) (q : Query)
    → parse platform config query ≡ ok q
    → Traced platform config query q
unfolding parse
parse-Traced platform config query q h =
    let (_, known, h₁) = >>_inv _ _ q h in
    let (size, sized, h₂) = >>=_inv _ _ q h₁ in
    let (sort, sorted, h₃) = >>=_inv _ _ q h₂ in
    let (filters, filtered, h₄) = >>=_inv _ _ q h₃ in
    let (search, searched, h₅) = >>=_inv _ _ q h₄ in
    let (one, h₆) = fail_if_inv _ _ _ q h₅ in
    let (after, made_after, h₇) = >>=_inv _ _ q h₆ in
    let (before, made_before, h₈) = >>=_inv _ _ q h₇ in
    subst (Traced platform config query) (return_inv _ q h₈) (record {
      known = known;
      sized = sized;
      sorted = sorted;
      filtered = filtered;
      searched = searched;
      before = made_before;
    })

-- The other way round, with a cursor in front.
extended_parse :
    (platform : Platform) (config : Config) (query : List (String × Raw)) (q : Query)
    (position : Json) (cursor : String)
    → Traced platform config query q
    → get "page[before]" query ≡ undefined
    → decode_cursor platform.codec cursor
        (create_fingerprint platform.codec q.sort q.filters q.search)
      ≡ ok position
    → parse platform config (("page[after]", words cursor) ∷ query)
      ≡ ok (record q { after = some position })
unfolding parse parse_cursor as_string return fail_if ◌>>=◌ ◌>>◌
extended_parse platform config query q position cursor traced no_before decoded =
    rw
      (
        traced.known,
        traced.sized,
        traced.sorted,
        parse_filters-extended platform (words cursor) query config.filters,
        traced.filtered,
        traced.searched,
      )
      (rw no_before (
        rw decoded (
          ap (λ b. ok (record q { after = some position; before = b }))
            (before_none q.before (rw no_before at traced.before)))))
  where
    before_none : (o : Option Json) → ok none ≡ ok o → none ≡ o
    before_none o e = cc e

-- The cursor that `createCursor` makes for a parsed query that gives no `page[before]`, put in front of
-- the query's parameters, is accepted: the same query is parsed again, now after that position. The
-- cursor is base64url, which is decoded to what was encoded, and the payload's JSON is parsed to the
-- payload.
pub parse-create_cursor :
    (platform : Platform) (config : Config) (query : List (String × Raw)) (q : Query)
    (position : Json)
    → get "page[before]" query ≡ undefined
    → parse platform config query ≡ ok q
    → is_position position ≡ true
    → platform.codec.is_base64url (create_cursor platform.codec q position) ≡ true
    → platform.codec.decode (
        platform.codec.encode (
          stringify (
            cursor_payload position (create_fingerprint platform.codec q.sort q.filters q.search))))
      ≡ stringify
          (cursor_payload position (create_fingerprint platform.codec q.sort q.filters q.search))
    → platform.codec.parse (
        stringify
          (cursor_payload position (create_fingerprint platform.codec q.sort q.filters q.search)))
      ≡ some (cursor_payload position (create_fingerprint platform.codec q.sort q.filters q.search))
    → parse platform config
        (("page[after]", words (create_cursor platform.codec q position)) ∷ query)
      ≡ ok (record q { after = some position })
unfolding create_cursor
parse-create_cursor platform config query q position no_before h scalars url back parsed =
    let fingerprint = create_fingerprint platform.codec q.sort q.filters q.search in
    extended_parse platform config query q position (create_cursor platform.codec q position)
      (parse-Traced platform config query q h) no_before
      (decode_cursor-encode_cursor platform.codec position fingerprint fingerprint scalars url back
          parsed
        ∙ rw (eq_refl fingerprint))
