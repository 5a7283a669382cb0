-- ===== src/Config/Interpolation.antt =====
-- packages/config/src/interpolation.ts: the texts of a value, at any depth, validated and interpolated.
use Prim.Native.String as Text
use vkit_orbit.Base.{
  ℕ, ◌+◌, String, Bool, true, false, none, some, List, [], ◌∷◌, ◌++◌, if◌then◌else◌,
}
use vkit_orbit.Json.{Json, null, bool, num, str, arr, obj, Items, nil, cons, Fields, end, field}
use vkit_orbit.Json.Print.{decimal}
use vkit_orbit.Config.Scan.{
  Outcome, Environment, after_open, both, made, scan_all, templated_keys, done, refused,
}

-- `Object.entries` gives the elements of an array under their indices, so `Object.fromEntries` makes an
-- object of an array.
unfoldable mutual
  pub interpolate_selected : Environment → List String → Json → Outcome Json
  interpolate_selected environment path (str value) =
      made str (scan_all (some environment) path value)
  interpolate_selected environment path (arr vs) =
      made obj (interpolate_items environment path 0 vs)
  interpolate_selected environment path (obj fs) = made obj (interpolate_fields environment path fs)
  interpolate_selected environment path null = done null
  interpolate_selected environment path (bool b) = done (bool b)
  interpolate_selected environment path (num n) = done (num n)

  pub interpolate_items : Environment → List String → ℕ → Items → Outcome Fields
  interpolate_items environment path i nil = done end
  interpolate_items environment path i (cons v vs) =
      both (field (decimal i)) (interpolate_selected environment (path ++ decimal i ∷ []) v)
        (interpolate_items environment path (i + 1) vs)

  pub interpolate_fields : Environment → List String → Fields → Outcome Fields
  interpolate_fields environment path end = done end
  interpolate_fields environment path (field key v fs) =
      both (field key) (interpolate_selected environment (path ++ key ∷ []) v)
        (interpolate_fields environment path fs)

-- `key.includes("${")`
abbrev pub has_template : String → Bool
has_template Text.[] = false
has_template (Text.◌∷◌ c s) = elim (after_open (Text.◌∷◌ c s)) [
  | some _ ↦ true
  | none ↦ has_template s
]

abbrev pub refuse_template : List String → String → Outcome (Unit {0})
refuse_template path key = if has_template key then refused path templated_keys else done tt

abbrev pub first : Unit {0} → Unit {0} → Unit {0}
first a b = tt

-- The index of an element has no `${`.
unfoldable mutual
  pub validate_templates : List String → Json → Outcome (Unit {0})
  validate_templates path (str value) = made (λ _. tt) (scan_all none path value)
  validate_templates path (arr vs) = validate_items path 0 vs
  validate_templates path (obj fs) = validate_fields path fs
  validate_templates path null = done tt
  validate_templates path (bool b) = done tt
  validate_templates path (num n) = done tt

  pub validate_items : List String → ℕ → Items → Outcome (Unit {0})
  validate_items path i nil = done tt
  validate_items path i (cons v vs) =
      both first (validate_templates (path ++ decimal i ∷ []) v) (validate_items path (i + 1) vs)

  pub validate_fields : List String → Fields → Outcome (Unit {0})
  validate_fields path end = done tt
  validate_fields path (field key v fs) =
      both first (refuse_template path key)
        (both first (validate_templates (path ++ key ∷ []) v) (validate_fields path fs))
