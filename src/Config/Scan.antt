-- ===== src/Config/Scan.antt =====
-- `scan` of packages/config/src/interpolation.ts, and errors.ts: `${NAME}` and `${NAME:-default}` in the
-- texts of the configuration, and `$${` for a plain `${`. The scan is a loop on fuel.
use Prim.Native.Char.{Char}
use Prim.Native.String as Text
use vkit_orbit.Base.{
  ℕ, zero, suc, String, Bool, false, not, ◌&&◌, ◌||◌, Option, none, some, List, [], ◌∷◌,
  if◌then◌else◌, ◌==◌,
}
use vkit_orbit.Base.Texts.{is_char, is_between}
use vkit_orbit.Json.Print.{◌<>◌, decimal}

pub data Reason : Type 0 where
  malformed_template : Reason
  templated_keys : Reason
  missing_variable : String → Reason

-- The error names the path in the document; `stuck` is a scan that is out of fuel.
pub data Outcome (A : Type 0) : Type 0 where
  done : A → Outcome A
  refused : List String → Reason → Outcome A
  stuck : Outcome A

pub record Diagnostic : Type 0 where
  pub file_path : String
  pub runtime : String

abbrev pub reason_text : Reason → String
reason_text malformed_template = "malformed template"
reason_text templated_keys = "templated keys are forbidden"
reason_text (missing_variable name) = "missing environment variable " <> name

-- `path.join(".")`
abbrev pub dotted : List String → String
dotted [] = ""
dotted (key ∷ []) = key
dotted (key ∷ path) = key <> "." <> dotted path

abbrev pub or_document : String → String
or_document path = if path == "" then "document" else path

unfoldable pub config_error : Diagnostic → List String → Reason → String
unfolding decimal
config_error d path reason =
    "Configuration "
    <> d.file_path
    <> " ["
    <> d.runtime
    <> "] "
    <> or_document (dotted path)
    <> ": "
    <> reason_text reason

-- A missing variable is none.
abbrev pub Environment : Type 0
Environment = String → Option String

-- `value.startsWith("$${", i)` and `value.startsWith("${", i)`, with what follows.
abbrev pub after_escape : String → Option String
after_escape (Text.◌∷◌ a (Text.◌∷◌ b (Text.◌∷◌ c s))) =
    if is_char b'$' a && is_char b'$' b && is_char b'{' c then some s else none
after_escape _ = none

abbrev pub after_open : String → Option String
after_open (Text.◌∷◌ a (Text.◌∷◌ b s)) = if is_char b'$' a && is_char b'{' b then some s else none
after_open _ = none

-- The text before the first `}`, and the text after it.
abbrev pub split_close : String → Option (String × String)
split_close Text.[] = none
split_close (Text.◌∷◌ c s) =
    let later = split_close s in
    if is_char b'}' c
    then some ("", s)
    else elim later [ none ↦ none | some (body, rest) ↦ some (Text.◌∷◌ c body, rest) ]

abbrev pub has_open : String → Bool
has_open Text.[] = false
has_open (Text.◌∷◌ c s) = is_char b'{' c || has_open s

-- `[A-Z_]` and `[A-Z0-9_]`
abbrev pub is_first : Char → Bool
is_first c = is_between b'A' b'Z' c || is_char b'_' c

abbrev pub is_later : Char → Bool
is_later c = is_first c || is_between b'0' b'9' c

-- The longest run of `[A-Z0-9_]`, and the rest.
abbrev pub take_name : String → String × String
take_name Text.[] = ("", "")
take_name (Text.◌∷◌ c s) =
    let (name, rest) = take_name s in
    if is_later c then (Text.◌∷◌ c name, rest) else ("", Text.◌∷◌ c s)

-- `(?::-(.*))?$`: nothing more, or a default.
abbrev pub with_default : String → String → Option (String × Option String)
with_default name Text.[] = some (name, none)
with_default name (Text.◌∷◌ a (Text.◌∷◌ b text)) =
    if is_char b':' a && is_char b'-' b then some (name, some text) else none
with_default name _ = none

-- The name and the default of `^([A-Z_][A-Z0-9_]*)(?::-(.*))?$`. The `${` that is refused in the body
-- has a `{`, which is refused too.
unfoldable pub variable : String → Option (String × Option String)
variable Text.[] = none
variable (Text.◌∷◌ c s) =
    let (name, rest) = take_name (Text.◌∷◌ c s) in
    if is_first c && not (has_open (Text.◌∷◌ c s)) then with_default name rest else none

-- `resolved !== undefined && resolved !== ""`
abbrev pub usable : Option String → Option String
usable none = none
usable (some text) = if text == "" then none else some text

-- The variable, else the default.
abbrev pub supplied : List String → String → Option String → Option String → Outcome String
supplied path name (some text) default = done text
supplied path name none (some text) = done text
supplied path name none none = refused path (missing_variable name)

-- Without an environment the scan only checks.
abbrev pub resolve : Option Environment → List String → String → Option String → Outcome String
resolve none path name default = done ""
resolve (some environment) path name default =
    supplied path name (usable (environment name)) default

abbrev pub replaced :
    Option Environment → List String → Option (String × Option String) → Outcome String
replaced environment path (some (name, default)) = resolve environment path name default
replaced environment path none = refused path malformed_template

abbrev pub insert : Option Environment → List String → String → Outcome String
insert environment path body = replaced environment path (variable body)

-- What the loop finds at its position.
pub data Piece : Type 0 where
  finished : Piece
  escaped : String → Piece
  plain : Char → String → Piece
  unclosed : Piece
  template : String → String → Piece

abbrev pub closed : Option (String × String) → Piece
closed none = unclosed
closed (some (body, rest)) = template body rest

abbrev pub opened : Char → String → Option String → Piece
opened c s none = plain c s
opened c s (some inner) = closed (split_close inner)

abbrev pub unescaped : Char → String → Option String → Piece
unescaped c s (some rest) = escaped rest
unescaped c s none = opened c s (after_open (Text.◌∷◌ c s))

unfoldable pub piece : String → Piece
piece Text.[] = finished
piece (Text.◌∷◌ c s) = unescaped c s (after_escape (Text.◌∷◌ c s))

-- Two parts in order: the first error is thrown.
unfoldable pub both : {A B C : Type 0} → (A → B → C) → Outcome A → Outcome B → Outcome C
both f (done a) (done b) = done (f a b)
both f (done a) (refused at reason) = refused at reason
both f (done a) stuck = stuck
both f (refused at reason) other = refused at reason
both f stuck other = stuck

unfoldable pub made : {A B : Type 0} → (A → B) → Outcome A → Outcome B
made f (done a) = done (f a)
made f (refused at reason) = refused at reason
made f stuck = stuck

-- One round: the output of the piece, and what the loop gives for the rest.
unfoldable pub read :
    Option Environment → List String → (String → Outcome String) → Piece → Outcome String
read environment path continue finished = done ""
read environment path continue (escaped rest) = both ◌<>◌ (done "${") (continue rest)
read environment path continue (plain c rest) = both ◌<>◌ (done (Text.◌∷◌ c "")) (continue rest)
read environment path continue unclosed = refused path malformed_template
read environment path continue (template body rest) =
    both ◌<>◌ (insert environment path body) (continue rest)

unfoldable pub scan : Option Environment → List String → ℕ → String → Outcome String
scan environment path zero value = stuck
scan environment path (suc fuel) value =
    read environment path (scan environment path fuel) (piece value)

abbrev pub size : String → ℕ
size Text.[] = 0
size (Text.◌∷◌ c s) = suc (size s)

-- One round for each character and one for the end.
unfoldable pub scan_all : Option Environment → List String → String → Outcome String
scan_all environment path value = scan environment path (suc (size value)) value
