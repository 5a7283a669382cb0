-- ===== src/Json/Canonical.antt =====
-- The canonical form of a JSON value: `sortValue` and `canonicalRequestHash` of
-- packages/application/src/idempotency/execute-idempotent.ts, and `stableJson` of
-- packages/application/src/outbox/enqueue-intent.ts. The order of two keys, `localeCompare`, is a
-- parameter. An object lists its integer-like keys first, in ascending order, and the others as they were
-- added.
pub mod Order
use Prim.Native.Char.{code}
use Prim.Native.String as Text
use text.Mathlib.Text.{starts_with}
use vkit_orbit.Base.{
  ℕ, ◌+◌, ◌*◌, ◌-◌, String, Bool, true, false, not, ◌&&◌, ◌||◌, ◌≡◌, ◌⊎◌, if◌then◌else◌, List, [],
  ◌∷◌, map, ltb, ◌==◌,
}
use vkit_orbit.Base.Texts.{is_digit, is_run}
use vkit_orbit.Json.{Json, null, bool, num, str, arr, obj, Items, nil, cons, Fields, end, field}
use vkit_orbit.Json.Print.{◌<>◌, quote, stringify, join}

-- `a.localeCompare(b) <= 0`
abbrev pub Collation : Type 0
Collation = String → String → Bool

-- `localeCompare` is a total preorder: different texts, such as canonically equivalent ones, may compare
-- as equal.
pub record IsOrder (before : Collation) : Type 0 where
  pub total : (a b : String) → (before a b ≡ true) ⊎ (before b a ≡ true)
  pub trans : (a b c : String) → before a b ≡ true → before b c ≡ true → before a c ≡ true

abbrev number_from : String → ℕ → ℕ
number_from Text.[] n = n
number_from (Text.◌∷◌ c s) n = number_from s (n * 10 + (code c - b'0'))

-- An integer-like key: the decimal of a number below 2^32 - 1, as the language has it.
unfoldable pub is_index : String → Bool
is_index key =
    is_run is_digit key
    && (key == "0" || not (starts_with key "0"))
    && ltb (number_from key 0) 4294967295

unfoldable pub index_of : String → ℕ
index_of key = number_from key 0

-- A member takes its place in front of those that an object already lists: an integer-like key among
-- the integer-like ones, any other key behind them.
abbrev goes_behind : String → String → Bool
goes_behind key other =
    is_index other && (not (is_index key) || ltb (index_of other) (index_of key))

unfoldable pub put_member : String → Json → Fields → Fields
put_member k v end = field k v end
put_member k v (field j w fs) =
    let rest = put_member k v fs in
    if goes_behind k j then field j w rest else field k v (field j w fs)

-- `Object.fromEntries`, on entries of different keys.
unfoldable pub from_entries : Fields → Fields
from_entries end = end
from_entries (field k v fs) = put_member k v (from_entries fs)

module _ (before : Collation) where
  -- One round of the stable `sort`: the new entry stands before those that compare as equal.
  unfoldable pub insert : String → Json → Fields → Fields
  insert k v end = field k v end
  insert k v (field j w fs) =
      let rest = insert k v fs in if before k j then field k v (field j w fs) else field j w rest

  unfoldable mutual
    pub sort_value : Json → Json
    sort_value null = null
    sort_value (bool b) = bool b
    sort_value (num n) = num n
    sort_value (str s) = str s
    sort_value (arr vs) = arr (sort_items vs)
    sort_value (obj fs) = obj (from_entries (sort_fields fs))

    pub sort_items : Items → Items
    sort_items nil = nil
    sort_items (cons v vs) = cons (sort_value v) (sort_items vs)

    pub sort_fields : Fields → Fields
    sort_fields end = end
    sort_fields (field k v fs) = insert k (sort_value v) (sort_fields fs)

  -- `sha256` is node's `createHash("sha256")…digest("hex")`.
  unfoldable pub canonical_request_hash : (String → String) → Json → String
  canonical_request_hash sha256 request = sha256 (stringify (sort_value request))

  -- The printed entries of an object, each with the key that it is sorted by.
  unfoldable pub insert_entry : String → String → List (String × String) → List (String × String)
  insert_entry k text [] = (k, text) ∷ []
  insert_entry k text ((j, other) ∷ rest) =
      let later = insert_entry k text rest in
      if before k j then (k, text) ∷ (j, other) ∷ rest else (j, other) ∷ later

  -- Sorting looks at the keys alone, so an entry is printed before it is put in its place.
  unfoldable mutual
    pub stable_json : Json → String
    stable_json null = stringify null
    stable_json (bool b) = stringify (bool b)
    stable_json (num n) = stringify (num n)
    stable_json (str s) = stringify (str s)
    stable_json (arr vs) = "[" <> join (stable_items vs) <> "]"
    stable_json (obj fs) = "{" <> join (map (λ e. e.1) (stable_entries fs)) <> "}"

    pub stable_items : Items → List String
    stable_items nil = []
    stable_items (cons v vs) = stable_json v ∷ stable_items vs

    pub stable_entries : Fields → List (String × String)
    stable_entries end = []
    stable_entries (field k v fs) =
        insert_entry k (quote k <> ":" <> stable_json v) (stable_entries fs)
