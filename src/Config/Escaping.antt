-- ===== src/Config/Escaping.antt =====
-- Any text can be written as a template: with `$${` for each of its `${`.
use Prim.Native.Char.{Char}
use Prim.Native.String as Text
use text.Mathlib.TextEquality.{Char-path}
use text.Mathlib.TextLemmas.{cons-append, nil-append}
use vkit_orbit.Base.{
  ℕ, zero, suc, ◌<◌, String, Bool, true, false, ◌&&◌, ◌≡◌, refl, ap, subst, ◌∙◌, Option, none, List,
  arith, Bool-cases, inl, inr,
}
use vkit_orbit.Base.Texts.{is_char}
use vkit_orbit.Json.Print.{◌<>◌}
use vkit_orbit.Config.Scan.{
  Outcome, done, Environment, after_escape, after_open, plain, unescaped, opened, piece, both, read,
  scan, size, scan_all,
}

abbrev doubled : Bool → Char → String → String
doubled true c rest = Text.◌∷◌ c (Text.◌∷◌ c rest)
doubled false c rest = Text.◌∷◌ c rest

abbrev opens : Char → String → Bool
opens c Text.[] = false
opens c (Text.◌∷◌ d s) = is_char b'$' c && is_char b'{' d

-- A second `$` before each `${`.
abbrev pub escape : String → String
escape Text.[] = ""
escape (Text.◌∷◌ c s) = doubled (opens c s) c (escape s)

after_open-none :
    (c d : Char) (s : String)
    → (is_char b'$' c && is_char b'{' d) ≡ false
    → after_open (Text.◌∷◌ c (Text.◌∷◌ d s)) ≡ none
after_open-none c d s h = rw h refl

after_escape-none :
    (a b c : Char) (s : String)
    → (is_char b'$' a && is_char b'$' b && is_char b'{' c) ≡ false
    → after_escape (Text.◌∷◌ a (Text.◌∷◌ b (Text.◌∷◌ c s))) ≡ none
after_escape-none a b c s h = rw h refl

after_escape-escape :
    (c d : Char) (s : String) → after_escape (Text.◌∷◌ c (escape (Text.◌∷◌ d s))) ≡ none
after_escape-escape c d Text.[] = refl
after_escape-escape c d (Text.◌∷◌ x s) = elim (Bool-cases (opens d (Text.◌∷◌ x s))) [
  | inl e ↦ rw e (after_escape-none c d d _ (ground arith))
  | inr e ↦ rw e (elim (Bool-cases (opens x s)) [
    | inl f ↦ rw f (after_escape-none c d x _ (ground arith))
    | inr f ↦ rw f (after_escape-none c d x _ (ground arith))
  ])
]

piece-plain :
    (c : Char) (s : String)
    → after_escape (Text.◌∷◌ c s) ≡ none
    → after_open (Text.◌∷◌ c s) ≡ none
    → piece (Text.◌∷◌ c s) ≡ plain c s
unfolding piece
piece-plain c s e h = ap (unescaped c s) e ∙ ap (opened c s) h

after_open-escape :
    (c d : Char) (s : String)
    → opens c (Text.◌∷◌ d s) ≡ false
    → after_open (Text.◌∷◌ c (escape (Text.◌∷◌ d s))) ≡ none
after_open-escape c d s h = elim (Bool-cases (opens d s)) [
  | inl e ↦ rw e (after_open-none c d _ h)
  | inr e ↦ rw e (after_open-none c d _ h)
]

piece-escape_plain :
    (c : Char) (s : String) → opens c s ≡ false → piece (Text.◌∷◌ c (escape s)) ≡ plain c (escape s)
piece-escape_plain c Text.[] h = piece-plain c "" refl refl
piece-escape_plain c (Text.◌∷◌ d s) h =
    piece-plain c _ (after_escape-escape c d s) (after_open-escape c d s h)

open_text : (s : String) → "${" <> s ≡ Text.◌∷◌ "$" (Text.◌∷◌ "{" s)
open_text s =
    cons-append "$" "{" s
    ∙ ap (λ t. Text.◌∷◌ "$" t) (cons-append "{" "" s ∙ ap (λ t. Text.◌∷◌ "{" t) (nil-append s))

one_text : (c : Char) (s : String) → Text.◌∷◌ c "" <> s ≡ Text.◌∷◌ c s
one_text c s = cons-append c "" s ∙ ap (λ t. Text.◌∷◌ c t) (nil-append s)

opens_brace : (s : String) → opens "{" s ≡ false
opens_brace Text.[] = refl
opens_brace (Text.◌∷◌ d s) = refl

size_once :
    (n : ℕ) (c : Char) (s : String) → size (escape (Text.◌∷◌ c s)) < suc n → size (escape s) < n
size_once n c s h = elim (Bool-cases (opens c s)) [
  | inl e ↦ let k = rw e at h in omega arith
  | inr e ↦ let k = rw e at h in omega arith
]

size_twice :
    (n : ℕ) (c d : Char) (s : String)
    → size (escape (Text.◌∷◌ c (Text.◌∷◌ d s))) < suc n
    → size (escape s) < n
size_twice n c d s h = let k = size_once n c (Text.◌∷◌ d s) h in size_once n d s (omega arith)

module _ (environment : Option Environment) (path : List String) where
  -- A character, and the text that escapes the rest.
  read-plain :
      (k : String → Outcome String) (c : Char) (s : String)
      → opens c s ≡ false
      → k (escape s) ≡ done s
      → read environment path k (piece (Text.◌∷◌ c (escape s))) ≡ done (Text.◌∷◌ c s)
  unfolding read both
  read-plain k c s h e =
      ap (read environment path k) (piece-escape_plain c s h)
      ∙ ap (both ◌<>◌ (done (Text.◌∷◌ c ""))) e
      ∙ ap done (one_text c s)

  read-escaped :
      (k : String → Outcome String) (s : String)
      → k (escape s) ≡ done s
      → read environment path k (piece (escape (Text.◌∷◌ "$" (Text.◌∷◌ "{" s))))
        ≡ done (Text.◌∷◌ "$" (Text.◌∷◌ "{" s))
  unfolding read both piece
  read-escaped k s e =
      ap (λ b. read environment path k (piece (doubled true "$" (doubled b "{" (escape s)))))
        (opens_brace s)
      ∙ ap (both ◌<>◌ (done "${")) e
      ∙ ap done (open_text s)

  scan-escape_brace :
      (n : ℕ) (c d : Char) (s : String)
      → opens c (Text.◌∷◌ d s) ≡ true
      → scan environment path n (escape s) ≡ done s
      → scan environment path (suc n) (escape (Text.◌∷◌ c (Text.◌∷◌ d s)))
        ≡ done (Text.◌∷◌ c (Text.◌∷◌ d s))
  unfolding scan
  scan-escape_brace n c d s e h =
      let is_dollar : "$" ≡ c = Char-path "$" c (ground arith) in
      let is_brace : "{" ≡ d = Char-path "{" d (ground arith) in
      subst
        (λ x.
          scan environment path (suc n) (escape (Text.◌∷◌ x (Text.◌∷◌ d s)))
          ≡ done (Text.◌∷◌ x (Text.◌∷◌ d s)))
        is_dollar
        (subst
          (λ x.
            scan environment path (suc n) (escape (Text.◌∷◌ "$" (Text.◌∷◌ x s)))
            ≡ done (Text.◌∷◌ "$" (Text.◌∷◌ x s)))
          is_brace (read-escaped (scan environment path n) s h))

  scan-escape :
      (n : ℕ) (s : String) → size (escape s) < n → scan environment path n (escape s) ≡ done s
  unfolding scan read piece
  scan-escape zero s h = absurd (omega arith)
  scan-escape (suc n) Text.[] h = refl
  scan-escape (suc n) (Text.◌∷◌ c Text.[]) h =
      read-plain (scan environment path n) c "" refl (scan-escape n "" (omega arith))
  scan-escape (suc n) (Text.◌∷◌ c (Text.◌∷◌ d s)) h = elim (Bool-cases (opens c (Text.◌∷◌ d s))) [
    | inl e ↦ scan-escape_brace n c d s e (scan-escape n s (size_twice n c d s h))
    | inr e ↦
        ap
          (λ b.
            read environment path (scan environment path n)
              (piece (doubled b c (escape (Text.◌∷◌ d s)))))
          e
        ∙ read-plain (scan environment path n) c (Text.◌∷◌ d s) e
            (scan-escape n (Text.◌∷◌ d s) (size_once n c (Text.◌∷◌ d s) h))
  ]

  -- A text in which every `${` is written `$${` is given back as it was, in any environment: no text
  -- is out of reach of a template, and validation lets it pass.
  pub scan_all-escape : (s : String) → scan_all environment path (escape s) ≡ done s
  unfolding scan_all
  scan_all-escape s = scan-escape (suc (size (escape s))) s (omega arith)
