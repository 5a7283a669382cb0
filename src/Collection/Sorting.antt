-- ===== src/Collection/Sorting.antt =====
-- The sort of a list is a total one: its fields are different, and the tie breaker is one of them.
use vkit_orbit.Base.{
  String, Bool, true, false, not, ◌||◌, ◌≡◌, refl, subst, List, [], ◌∷◌, ◌++◌, includes, ◌==◌,
  eq_iff, All, arith, Bool-cases, inl, inr,
}
use text.Mathlib.TextPositions.{eq_refl}
use vkit_orbit.Store.Client.{ok}
use vkit_orbit.Collection.Checks.{>>=_inv, fail_if_inv, return_inv}
use vkit_orbit.Collection.Definition.{
  Config, Raw, SortField, ascending, sort_field, in_sorts, sort_fields_of, parse_tokens,
  with_tie_breaker, parse_sort, assert_collection_config,
}

abbrev pub IsDistinct : List String → Type 0
IsDistinct [] = Unit
IsDistinct (x ∷ xs) = (includes xs x ≡ false) × IsDistinct xs

-- Of a list of tokens that is parsed, no field is one of those seen before.
record IsParsed (config : Config) (seen fields : List String) : Type 0 where
  distinct : IsDistinct fields
  declared : All (λ x. in_sorts config x ≡ true) fields
  unseen : All (λ x. includes seen x ≡ false) fields

later_unseen :
    (seen : List String) (x : String) (fields : List String)
    → All (λ y. includes (x ∷ seen) y ≡ false) fields
    → All (λ y. includes seen y ≡ false) fields × (includes fields x ≡ false)
later_unseen seen x [] h = (tt, refl)
later_unseen seen x (y ∷ fields) (p, h) =
    let (rest, missing) = later_unseen seen x fields h in
    let y_x : (y == x) ≡ false = ground (arith, eq_iff x y, eq_iff y x, p) in
    ((ground (arith, p), rest), ground (arith, y_x, missing))

valid_token : (a b c : Bool) → (a || b || not c) ≡ false → (b ≡ false) × (c ≡ true)
valid_token a b c h = ground arith

parse_tokens-IsParsed :
    (config : Config) (seen tokens : List String) (sort : List SortField)
    → parse_tokens config seen tokens ≡ ok sort
    → IsParsed config seen (sort_fields_of sort)
unfolding parse_tokens
parse_tokens-IsParsed config seen [] [] h = record { distinct = tt; declared = tt; unseen = tt }
parse_tokens-IsParsed config seen [] (f ∷ sort) h = absurd (cc h)
parse_tokens-IsParsed config seen (token ∷ rest) sort h =
    let ih = parse_tokens-IsParsed config ((sort_field token).field ∷ seen) rest in
    let (valid, h₁) = fail_if_inv _ _ _ sort h in
    let (new, known) = valid_token _ _ _ valid in
    let (later, parsed, h₂) = >>=_inv _ _ sort h₁ in
    let is_sort = return_inv (sort_field token ∷ later) sort h₂ in
    let of_rest = ih later parsed in
    let (unseen, first) =
      later_unseen seen (sort_field token).field (sort_fields_of later) of_rest.unseen in
    subst (λ x. IsParsed config seen (sort_fields_of x)) is_sort
      (record {
        distinct = (first, of_rest.distinct);
        declared = (known, of_rest.declared);
        unseen = (new, unseen);
      })

pub record IsTotal (config : Config) (sort : List SortField) : Type 0 where
  pub distinct : IsDistinct (sort_fields_of sort)
  pub declared : All (λ x. in_sorts config x ≡ true) (sort_fields_of sort)
  pub tie_broken : includes (sort_fields_of sort) config.tie_breaker ≡ true

-- A field put at the end of others that it is not one of.
appended :
    (config : Config) (sort : List SortField) (f : SortField)
    → IsDistinct (sort_fields_of sort)
    → All (λ x. in_sorts config x ≡ true) (sort_fields_of sort)
    → includes (sort_fields_of sort) f.field ≡ false
    → in_sorts config f.field ≡ true
    → IsDistinct (sort_fields_of (sort ++ f ∷ []))
      × All (λ x. in_sorts config x ≡ true) (sort_fields_of (sort ++ f ∷ []))
      × (includes (sort_fields_of (sort ++ f ∷ [])) f.field ≡ true)
      × ((x : String)
          → includes (sort_fields_of sort) x ≡ false
          → (f.field == x) ≡ false
          → includes (sort_fields_of (sort ++ f ∷ [])) x ≡ false)
appended config [] f d a n i = ((refl, tt), (i, tt), rw (eq_refl f.field), λ x h k. rw k)
appended config (g ∷ sort) f (p, d) (q, a) n i =
    let other : (g.field == f.field) ≡ false = ground (arith, n) in
    let (d', a', last, out) = appended config sort f d a (ground (arith, n)) i in
    let turned : (f.field == g.field) ≡ false = not_equal g.field f.field other in
    (
      (out g.field p turned, d'),
      (q, a'),
      rw (other, last),
      λ x h k. more (g.field == x) _ _ h (λ e. out x e k),
    )
  where
    not_equal : (a b : String) → (a == b) ≡ false → (b == a) ≡ false
    not_equal a b h = ground (arith, eq_iff a b, eq_iff b a)

    more : (a b c : Bool) → (a || b) ≡ false → (b ≡ false → c ≡ false) → (a || c) ≡ false
    more a b c h k = ground (arith, k)

with_tie_breaker-IsTotal :
    (config : Config) (sort : List SortField)
    → IsDistinct (sort_fields_of sort)
    → All (λ x. in_sorts config x ≡ true) (sort_fields_of sort)
    → in_sorts config config.tie_breaker ≡ true
    → IsTotal config (with_tie_breaker config sort)
with_tie_breaker-IsTotal config sort d a i =
    elim (Bool-cases (includes (sort_fields_of sort) config.tie_breaker)) [
      | inl there ↦ rw there (record { distinct = d; declared = a; tie_broken = there })
      | inr missing ↦
          let (d', a', last, _) =
            appended config sort (record { field = config.tie_breaker; direction = ascending }) d a
              missing i in
          rw missing (record { distinct = d'; declared = a'; tie_broken = last })
    ]

declared_tie_breaker :
    (config : Config)
    → assert_collection_config config ≡ ok tt
    → in_sorts config config.tie_breaker ≡ true
unfolding assert_collection_config
declared_tie_breaker config h =
    let (_, h₁) = fail_if_inv _ _ _ tt h in
    let (_, h₂) = fail_if_inv _ _ _ tt h₁ in
    let (declared, _) = fail_if_inv _ _ _ tt h₂ in ground (arith, declared)

-- Under a configuration that is accepted, a sort that is parsed has different fields, each of them
-- declared as sortable or a name that every object inherits, and the tie breaker among them.
pub parse_sort-IsTotal :
    (config : Config) (value : Raw) (sort : List SortField)
    → assert_collection_config config ≡ ok tt
    → parse_sort config value ≡ ok sort
    → IsTotal config sort
unfolding parse_sort
parse_sort-IsTotal config value sort accepted h =
    let (source, _, h₁) = >>=_inv _ _ sort h in
    let (tokens, parsed, h₂) = >>=_inv _ _ sort h₁ in
    let made = return_inv (with_tie_breaker config tokens) sort h₂ in
    let p = parse_tokens-IsParsed config [] source tokens parsed in
    subst (IsTotal config) made (
      with_tie_breaker-IsTotal config tokens p.distinct p.declared
        (declared_tie_breaker config accepted))
