-- ===== src/Json/Print.antt =====
-- `JSON.stringify` of the language's library: no spaces, members in the order of the object.
use Prim.Native.Char.{Char, code}
use Prim.Native.String as Text
use vkit_orbit.Base.{
  ℕ, zero, suc, ◌/◌, ◌%◌, String, List, [], ◌∷◌, true, false, ltb, eqb, if◌then◌else◌,
}
use vkit_orbit.Json.{Json, null, bool, num, str, arr, obj, Items, nil, cons, Fields, end, field}

infixr 66 ◌<>◌
abbrev pub ◌<>◌ : String → String → String
a <> b = Text.◌++◌ a b

abbrev pub digit : ℕ → String
digit n =
    if eqb n 0
    then "0"
    else if eqb n 1
    then "1"
    else if eqb n 2
    then "2"
    else if eqb n 3
    then "3"
    else if eqb n 4
    then "4"
    else if eqb n 5
    then "5"
    else if eqb n 6
    then "6"
    else if eqb n 7
    then "7"
    else if eqb n 8
    then "8"
    else "9"

decimal_from : ℕ → ℕ → String → String
decimal_from zero n tail = tail
decimal_from (suc fuel) n tail =
    let more = decimal_from fuel (n / 10) (digit (n % 10) <> tail) in
    if ltb n 10 then digit n <> tail else more

-- `String(n)`. A number has at most as many digits as its value and one.
unfoldable pub decimal : ℕ → String
unfolding decimal_from
decimal n = decimal_from (suc n) n ""

abbrev hex_digit : ℕ → String
hex_digit n =
    if ltb n 10
    then digit n
    else if eqb n 10
    then "a"
    else if eqb n 11
    then "b"
    else if eqb n 12
    then "c"
    else if eqb n 13
    then "d"
    else if eqb n 14
    then "e"
    else "f"

escape : Char → String
escape c =
    let n = code c in
    if eqb n b'"'
    then "\\\""
    else if eqb n b'\\'
    then "\\\\"
    else if eqb n 8
    then "\\b"
    else if eqb n 9
    then "\\t"
    else if eqb n 10
    then "\\n"
    else if eqb n 12
    then "\\f"
    else if eqb n 13
    then "\\r"
    else if ltb n 32
    then "\\u00" <> hex_digit (n / 16) <> hex_digit (n % 16)
    else Text.◌∷◌ c ""

escape_all : String → String
unfolding escape
escape_all String.[] = ""
escape_all (String.◌∷◌ c s) = escape c <> escape_all s

unfoldable pub quote : String → String
unfolding escape_all
quote s = "\"" <> escape_all s <> "\""

unfoldable mutual
  pub stringify : Json → String
  stringify null = "null"
  stringify (bool true) = "true"
  stringify (bool false) = "false"
  stringify (num n) = decimal n
  stringify (str s) = quote s
  stringify (arr vs) = "[" <> stringify_items vs <> "]"
  stringify (obj fs) = "{" <> stringify_fields fs <> "}"

  pub stringify_items : Items → String
  stringify_items nil = ""
  stringify_items (cons v nil) = stringify v
  stringify_items (cons v (cons w vs)) = stringify v <> "," <> stringify_items (cons w vs)

  pub stringify_fields : Fields → String
  stringify_fields end = ""
  stringify_fields (field k v end) = quote k <> ":" <> stringify v
  stringify_fields (field k v (field j w fs)) =
      (quote k <> ":" <> stringify v) <> "," <> stringify_fields (field j w fs)

-- `xs.join(",")`
unfoldable pub join : List String → String
join [] = ""
join (x ∷ []) = x
join (x ∷ y ∷ xs) = x <> "," <> join (y ∷ xs)
