-- ===== src/Base/Texts.antt =====
-- Texts character by character: the classes of characters and the splitting that patterns and `split`
-- need.
use Prim.Native.Char.{Char, code}
use Prim.Native.String as Text
use Prim.Native.String.{String}
use Prim.Native.Nat.{ℕ}
use mathlib.Core.Bool.{Bool, true, false, not, ◌&&◌, ◌||◌}
use mathlib.Core.Option.{Option, none, some}
use mathlib.Core.List.{List, [], ◌∷◌}
use text.Mathlib.Text.{◌==◌}
use vkit_orbit.Base.Tests.{leb, eqb, if◌then◌else◌}

-- `[a-b]`
abbrev pub is_between : ℕ → ℕ → Char → Bool
is_between a b c = leb a (code c) && leb (code c) b

abbrev pub is_char : ℕ → Char → Bool
is_char n c = eqb (code c) n

-- `\d`
abbrev pub is_digit : Char → Bool
is_digit = is_between b'0' b'9'

abbrev pub every : (Char → Bool) → String → Bool
every p Text.[] = true
every p (Text.◌∷◌ c s) = p c && every p s

-- `p+`
abbrev pub is_run : (Char → Bool) → String → Bool
is_run p s = not (s == "") && every p s

abbrev pub has_char : ℕ → String → Bool
has_char n Text.[] = false
has_char n (Text.◌∷◌ c s) = is_char n c || has_char n s

-- `split`, on one character: the first part and the others.
abbrev pub split_on : ℕ → String → String × List String
split_on n Text.[] = ("", [])
split_on n (Text.◌∷◌ c s) =
    let (first, others) = split_on n s in
    if is_char n c then ("", first ∷ others) else (Text.◌∷◌ c first, others)

-- What follows characters of these classes.
abbrev pub after : List (Char → Bool) → String → Option String
after [] s = some s
after (p ∷ ps) Text.[] = none
after (p ∷ ps) (Text.◌∷◌ c s) = let rest = after ps s in if p c then rest else none
