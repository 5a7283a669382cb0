-- ===== src/Json/Canonical/Order.antt =====
-- The canonical form does not depend on the order in which an object's members were written.
use vkit_orbit.Base.{String, Bool, true, false, ◌||◌, ◌≡◌, refl, ap, ◌∙◌, List, [], ◌∷◌, map, arith}
use vkit_orbit.Json.{Json, null, bool, num, str, arr, obj, Items, nil, cons, Fields, end, field}
use vkit_orbit.Json.Print.{◌<>◌, quote, stringify, stringify_items, stringify_fields, join}
use vkit_orbit.Json.Canonical.{
  Collation, IsOrder, insert, insert_entry, sort_value, sort_items, sort_fields, stable_json,
  stable_items, stable_entries, is_index, from_entries, put_member,
}

-- The same value but for the order of members: `swap` exchanges two neighbours whose keys do not compare
-- as equal.
mutual
  pub data SameValue (before : Collation) : Json → Json → Type 0 where
    same : {v : Json} → SameValue before v v
    array : {vs ws : Items} → SameItems before vs ws → SameValue before (arr vs) (arr ws)
    object : {fs gs : Fields} → SameFields before fs gs → SameValue before (obj fs) (obj gs)

  pub data SameItems (before : Collation) : Items → Items → Type 0 where
    none_left : SameItems before nil nil
    each :
        {v w : Json} {vs ws : Items}
        → SameValue before v w
        → SameItems before vs ws
        → SameItems before (cons v vs) (cons w ws)

  pub data SameFields (before : Collation) : Fields → Fields → Type 0 where
    last : SameFields before end end
    keep :
        {k : String} {v w : Json} {fs gs : Fields}
        → SameValue before v w
        → SameFields before fs gs
        → SameFields before (field k v fs) (field k w gs)
    swap :
        {k j : String} {v w : Json} {fs : Fields}
        → (before k j ≡ true → before j k ≡ true → ⊥)
        → SameFields before (field k v (field j w fs)) (field j w (field k v fs))
    chain :
        {fs gs hs : Fields}
        → SameFields before fs gs
        → SameFields before gs hs
        → SameFields before fs hs

module _ (before : Collation) (order : IsOrder before) where
  insert_comm :
      (k j : String) (v w : Json) (fs : Fields)
      → (before k j ≡ true → before j k ≡ true → ⊥)
      → insert before k v (insert before j w fs) ≡ insert before j w (insert before k v fs)
  unfolding insert
  insert_comm k j v w end ne = ground (arith, order.total k j, ne)
  insert_comm k j v w (field i u fs) ne =
      ground (
        arith,
        order.total k j,
        ne,
        order.trans k j i,
        order.trans j k i,
        insert_comm k j v w fs ne,
      )

  mutual
    unfolding sort_value

    sort_value_same :
        {v w : Json} → SameValue before v w → sort_value before v ≡ sort_value before w
    sort_value_same same = refl
    sort_value_same (array h) = ap arr (sort_items_same h)
    sort_value_same (object h) = ap (λ fs. obj (from_entries fs)) (sort_fields_same h)

    sort_items_same :
        {vs ws : Items} → SameItems before vs ws → sort_items before vs ≡ sort_items before ws
    sort_items_same none_left = refl
    sort_items_same (each h hs) = cc (sort_value_same h, sort_items_same hs)

    sort_fields_same :
        {fs gs : Fields} → SameFields before fs gs → sort_fields before fs ≡ sort_fields before gs
    sort_fields_same last = refl
    sort_fields_same (keep {k} h hs) = cc (sort_value_same h, sort_fields_same hs)
    sort_fields_same (swap {k} {j} {v} {w} {fs} ne) =
        insert_comm k j (sort_value before v) (sort_value before w) (sort_fields before fs) ne
    sort_fields_same (chain h hs) = sort_fields_same h ∙ sort_fields_same hs

-- What is printed of each member, with its key.
printed : Fields → List (String × String)
printed end = []
printed (field k v fs) = (k, quote k <> ":" <> stringify v) ∷ printed fs

join-printed : (fs : Fields) → join (map (λ e. e.1) (printed fs)) ≡ stringify_fields fs
unfolding join printed stringify
join-printed end = refl
join-printed (field k v end) = refl
join-printed (field k v (field j w fs)) =
    ap (λ t. (quote k <> ":" <> stringify v) <> "," <> t) (join-printed (field j w fs))

stringifieds : Items → List String
stringifieds nil = []
stringifieds (cons v vs) = stringify v ∷ stringifieds vs

join-stringifieds : (vs : Items) → join (stringifieds vs) ≡ stringify_items vs
unfolding join stringifieds stringify
join-stringifieds nil = refl
join-stringifieds (cons v nil) = refl
join-stringifieds (cons v (cons w vs)) =
    ap (λ t. stringify v <> "," <> t) (join-stringifieds (cons w vs))

-- Whether an object of the value has an integer-like key, at any depth.
unfoldable mutual
  pub has_index : Json → Bool
  has_index (arr vs) = items_have_index vs
  has_index (obj fs) = fields_have_index fs
  has_index _ = false

  pub items_have_index : Items → Bool
  items_have_index nil = false
  items_have_index (cons v vs) = has_index v || items_have_index vs

  pub fields_have_index : Fields → Bool
  fields_have_index end = false
  fields_have_index (field k v fs) = is_index k || (has_index v || fields_have_index fs)

module _ (before : Collation) where
  insert_entry-printed :
      (k : String) (v : Json) (fs : Fields)
      → insert_entry before k (quote k <> ":" <> stringify v) (printed fs)
        ≡ printed (insert before k v fs)
  unfolding insert_entry printed insert
  insert_entry-printed k v end = refl
  insert_entry-printed k v (field j w fs) = ground (arith, insert_entry-printed k v fs)

  both : (a b : Bool) → (a || b) ≡ false → (a ≡ false) × (b ≡ false)
  both false b h = (refl, h)
  both true b h = absurd (cc h)

  abbrev keys_have_index : Fields → Bool
  keys_have_index end = false
  keys_have_index (field k v fs) = is_index k || keys_have_index fs

  put_member-front :
      (k : String) (v : Json) (fs : Fields)
      → keys_have_index fs ≡ false
      → put_member k v fs ≡ field k v fs
  unfolding put_member
  put_member-front k v end h = refl
  put_member-front k v (field j w fs) h = ground arith

  from_entries-same : (fs : Fields) → keys_have_index fs ≡ false → from_entries fs ≡ fs
  unfolding from_entries
  from_entries-same end h = refl
  from_entries-same (field k v fs) h =
      rw (from_entries-same fs (ground arith)) (put_member-front k v fs (ground arith))

  keys-insert :
      (k : String) (v : Json) (fs : Fields)
      → is_index k ≡ false
      → keys_have_index fs ≡ false
      → keys_have_index (insert before k v fs) ≡ false
  unfolding insert
  keys-insert k v end h n = ground arith
  keys-insert k v (field j w fs) h n = ground (arith, keys-insert k v fs)

  keys-sort_fields :
      (fs : Fields) → fields_have_index fs ≡ false → keys_have_index (sort_fields before fs) ≡ false
  unfolding sort_value has_index
  keys-sort_fields end h = refl
  keys-sort_fields (field k v fs) h =
      let (plain, h₁) = both (is_index k) _ h in
      keys-insert k (sort_value before v) (sort_fields before fs) plain
        (keys-sort_fields fs (both (has_index v) _ h₁).1)

  mutual
    unfolding has_index sort_value stable_json stringify stringifieds printed

    stable_json-stringify :
        (v : Json) → has_index v ≡ false → stable_json before v ≡ stringify (sort_value before v)
    stable_json-stringify null h = refl
    stable_json-stringify (bool b) h = refl
    stable_json-stringify (num n) h = refl
    stable_json-stringify (str s) h = refl
    stable_json-stringify (arr vs) h =
        ap (λ t. "[" <> t <> "]")
          (ap join (stable_items-stringify vs h) ∙ join-stringifieds (sort_items before vs))
    stable_json-stringify (obj fs) h =
        rw (from_entries-same (sort_fields before fs) (keys-sort_fields fs h)) (
          ap (λ t. "{" <> t <> "}")
            (ap (λ es. join (map (λ e. e.1) es)) (stable_entries-printed fs h)
              ∙ join-printed (sort_fields before fs)))

    stable_items-stringify :
        (vs : Items)
        → items_have_index vs ≡ false
        → stable_items before vs ≡ stringifieds (sort_items before vs)
    stable_items-stringify nil h = refl
    stable_items-stringify (cons v vs) h =
        let (h₁, h₂) = both (has_index v) _ h in
        cc (stable_json-stringify v h₁, stable_items-stringify vs h₂)

    stable_entries-printed :
        (fs : Fields)
        → fields_have_index fs ≡ false
        → stable_entries before fs ≡ printed (sort_fields before fs)
    stable_entries-printed end h = refl
    stable_entries-printed (field k v fs) h =
        let (_, h₁) = both (is_index k) _ h in
        let (h₂, h₃) = both (has_index v) _ h₁ in
        rw (stable_json-stringify v h₂, stable_entries-printed fs h₃)
          (insert_entry-printed k (sort_value before v) (sort_fields before fs))

  -- On a value without integer-like keys, the text by which two outbox payloads are compared is the
  -- sorted value as `JSON.stringify` prints it: `stableJson` and `sortValue` agree.
  pub stable_json-sort_value :
      (v : Json) → has_index v ≡ false → stable_json before v ≡ stringify (sort_value before v)
  stable_json-sort_value = stable_json-stringify
