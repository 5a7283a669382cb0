-- ===== src/Collection/Pages.antt =====
-- What a query that is parsed asks for.
use vkit_orbit.Base.{
  ℕ, ◌≤◌, String, Bool, true, false, not, ◌&&◌, ◌||◌, ◌≡◌, ◌⊎◌, inl, inr, sym, subst, Option, none,
  some, List, arith, ltb, Bool-cases,
}
use vkit_orbit.Json.{Json}
use vkit_orbit.Store.Client.{ok, err, message}
use vkit_orbit.Collection.Checks.{>>_inv, >>=_inv, fail_if_inv, return_inv}
use vkit_orbit.Collection.Cursor.{Codec}
use vkit_orbit.Collection.Definition.{
  Config, Raw, undefined, words, other, Platform, is_undefined, size_if_valid, parse_page_size,
  assert_collection_config,
}
use vkit_orbit.Collection.Query.{Query, parse, parse_cursor}
use vkit_orbit.Collection.Sorting.{IsTotal, parse_sort-IsTotal}

pub record IsValid (config : Config) (q : Query) : Type 0 where
  pub at_least_one : 1 ≤ q.size
  pub at_most_max : q.size ≤ config.max_size
  pub sort_total : IsTotal config q.sort
  pub one_direction : (q.after ≡ none) ⊎ (q.before ≡ none)

default_size-bounds :
    (config : Config)
    → assert_collection_config config ≡ ok tt
    → (1 ≤ config.default_size) × (config.default_size ≤ config.max_size)
unfolding assert_collection_config
default_size-bounds config h =
    let (a, h₁) = fail_if_inv _ _ _ tt h in
    let (b, _) = fail_if_inv _ _ _ tt h₁ in (below _ _ _ a, below _ _ _ b)
  where
    below : (c : Bool) (n m : ℕ) → (c || ltb n m) ≡ false → m ≤ n
    below c n m p = ground (arith, p)

size_if_valid-bounds :
    (o : Option ℕ) (max_size n : ℕ) → size_if_valid o max_size ≡ ok n → (1 ≤ n) × (n ≤ max_size)
size_if_valid-bounds none max_size n h = absurd (cc h)
size_if_valid-bounds (some k) max_size n h = elim (Bool-cases (ltb k 1 || ltb max_size k)) [
  | inl bad ↦ absurd (refused (rw bad at h))
  | inr good ↦ subst (λ x. (1 ≤ x) × (x ≤ max_size)) (same (rw good at h)) (inside k max_size good)
]
  where
    refused : err (message "Invalid collection page size") ≡ ok n → ⊥
    refused e = cc e

    same : ok k ≡ ok n → k ≡ n
    same e = cc e

    inside : (k max_size : ℕ) → (ltb k 1 || ltb max_size k) ≡ false → (1 ≤ k) × (k ≤ max_size)
    inside k max_size e = (ground (arith, e), ground (arith, e))

parse_page_size-bounds :
    (platform : Platform) (config : Config) (value : Raw) (n : ℕ)
    → assert_collection_config config ≡ ok tt
    → parse_page_size platform config value ≡ ok n
    → (1 ≤ n) × (n ≤ config.max_size)
unfolding parse_page_size
parse_page_size-bounds platform config undefined n accepted h =
    subst (λ x. (1 ≤ x) × (x ≤ config.max_size)) (same h) (default_size-bounds config accepted)
  where
    same : {k : ℕ} → ok k ≡ ok n → k ≡ n
    same e = cc e
parse_page_size-bounds platform config (words s) n accepted h =
    size_if_valid-bounds (platform.number_of s) config.max_size n h
parse_page_size-bounds platform config (other o) n accepted h =
    size_if_valid-bounds o config.max_size n h

-- A cursor that is not given is none.
no_cursor :
    (codec : Codec) (value : Raw) (name fingerprint : String) (o : Option Json)
    → is_undefined value ≡ true
    → parse_cursor codec value name fingerprint ≡ ok o
    → o ≡ none
unfolding parse_cursor
no_cursor codec undefined name fingerprint o u h = sym (cc h)
no_cursor codec (words s) name fingerprint o u h = cc
no_cursor codec (other n) name fingerprint o u h = cc

not_both : (a b : Bool) → (not a && not b) ≡ false → (a ≡ true) ⊎ (b ≡ true)
not_both a b h = ground (arith, h)

-- Under a configuration that is accepted, a query that is parsed asks for between one row and the
-- maximum, in a sort whose fields are different and hold the tie breaker, each of them declared as
-- sortable or a name that every object inherits (`toString` and the like), and in one direction at most.
pub parse-IsValid :
    (platform : Platform) (config : Config) (query : List (String × Raw)) (q : Query)
    → assert_collection_config config ≡ ok tt
    → parse platform config query ≡ ok q
    → IsValid config q
unfolding parse
parse-IsValid platform config query q accepted h =
    let (_, _, h₁) = >>_inv _ _ q h in
    let (size, sized, h₂) = >>=_inv _ _ q h₁ in
    let (sort, sorted, h₃) = >>=_inv _ _ q h₂ in
    let (filters, _, h₄) = >>=_inv _ _ q h₃ in
    let (search, _, h₅) = >>=_inv _ _ q h₄ in
    let (one, h₆) = fail_if_inv _ _ _ q h₅ in
    let (after, made_after, h₇) = >>=_inv _ _ q h₆ in
    let (before, made_before, h₈) = >>=_inv _ _ q h₇ in
    let (least, most) = parse_page_size-bounds platform config _ size accepted sized in
    subst (IsValid config) (return_inv _ q h₈) (record {
      at_least_one = least;
      at_most_max = most;
      sort_total = parse_sort-IsTotal config _ sort accepted sorted;
      one_direction = elim (not_both _ _ one) [
        | inl u ↦ inl (no_cursor platform.codec _ _ _ after u made_after)
        | inr u ↦ inr (no_cursor platform.codec _ _ _ before u made_before)
      ];
    })
