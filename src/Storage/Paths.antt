-- ===== src/Storage/Paths.antt =====
-- The keys that the application makes: where they lie, and which are the same.
use Prim.Native.String as Text
use text.Mathlib.Text.{starts_with}
use text.Mathlib.TextLemmas.{cons-append, nil-append, append_assoc}
use text.Mathlib.TextPositions.{starts_with-append}
use vkit_orbit.Base.{
  String, Bool, true, false, not, ◌&&◌, ◌||◌, ◌≡◌, refl, sym, ap, ◌∙◌, subst, List, [], ◌∷◌, any,
  All, arith, ◌==◌, eq_iff, if◌then◌else◌, inl, inr, Bool-cases,
}
use vkit_orbit.Base.Texts.{is_char, has_char, split_on}
use vkit_orbit.Json.Print.{◌<>◌}
use vkit_orbit.Store.Client.{ok}
use vkit_orbit.Collection.Checks.{◌>>=◌, >>=_inv, return_inv, fail_if}
use vkit_orbit.Storage.Keys.{
  join_slashes, is_bad_part, identifier, source_object_key, has_segment, is_bad_segment,
  normalize_prefix, assert_object_key,
}

split_on-none : (s : String) → has_char b'/' s ≡ false → split_on b'/' s ≡ (s, [])
split_on-none Text.[] h = refl
split_on-none (Text.◌∷◌ c s) h =
    let e = split_on-none s (ground arith) in
    let f : is_char b'/' c ≡ false = ground arith in rw (e, f) refl

split_on-slash :
    (p s : String)
    → has_char b'/' p ≡ false
    → split_on b'/' (p <> Text.◌∷◌ "/" s) ≡ (p, (split_on b'/' s).0 ∷ (split_on b'/' s).1)
split_on-slash Text.[] s h = ap (split_on b'/') (nil-append (Text.◌∷◌ "/" s))
split_on-slash (Text.◌∷◌ c p) s h =
    let e = split_on-slash p s (ground arith) in
    let f : is_char b'/' c ≡ false = ground arith in
    ap (split_on b'/') (cons-append c p _) ∙ rw (e, f) refl

abbrev IsPart : String → Type 0
IsPart s = has_char b'/' s ≡ false

-- Segments without a slash are found again.
split_on-join_slashes :
    (first : String) (others : List String)
    → IsPart first
    → All IsPart others
    → split_on b'/' (join_slashes first others) ≡ (first, others)
split_on-join_slashes first [] h hs = split_on-none first h
split_on-join_slashes first (second ∷ others) h (k, hs) =
    split_on-slash first (join_slashes second others) h
    ∙ rw (split_on-join_slashes second others k hs) refl

identifier_inv :
    (value name part : String)
    → identifier value name ≡ ok part
    → (is_bad_part value ≡ false) × (value ≡ part)
unfolding identifier
identifier_inv value name part h = elim (Bool-cases (is_bad_part value)) [
  | inl e ↦ absurd (cc (rw e at h))
  | inr e ↦ (e, cc (rw e at h))
]

plain-IsPart : (value : String) → is_bad_part value ≡ false → IsPart value
plain-IsPart value h = ground arith

plain_segment : (value : String) → is_bad_part value ≡ false → is_bad_segment value ≡ false
plain_segment value h = ground arith

abbrev source_path : String → String → String → String
source_path w d a = join_slashes "uploads" ("workspaces" ∷ w ∷ "documents" ∷ d ∷ "source" ∷ a ∷ [])

-- What a key that was made says of its parts.
record IsSource (workspace_id document_id artifact_id key : String) : Type 0 where
  workspace : is_bad_part workspace_id ≡ false
  document : is_bad_part document_id ≡ false
  artifact : is_bad_part artifact_id ≡ false
  joined : source_path workspace_id document_id artifact_id ≡ key

source_object_key-IsSource :
    (workspace_id document_id artifact_id key : String)
    → source_object_key workspace_id document_id artifact_id ≡ ok key
    → IsSource workspace_id document_id artifact_id key
unfolding source_object_key
source_object_key-IsSource w d a key h =
    let (p, first, h₁) = >>=_inv _ _ key h in
    let (q, second, h₂) = >>=_inv _ _ key h₁ in
    let (r, third, h₃) = >>=_inv _ _ key h₂ in
    let (good_w, same_w) = identifier_inv w _ p first in
    let (good_d, same_d) = identifier_inv d _ q second in
    let (good_a, same_a) = identifier_inv a _ r third in
    record {
      workspace = good_w;
      document = good_d;
      artifact = good_a;
      joined =
          ap (λ x. source_path x d a) same_w
          ∙ ap (λ x. source_path p x a) same_d
          ∙ ap (source_path p q) same_a
          ∙ return_inv (source_path p q r) key h₃;
    }

segments :
    (w d a key : String)
    → IsSource w d a key
    → split_on b'/' key ≡ ("uploads", "workspaces" ∷ w ∷ "documents" ∷ d ∷ "source" ∷ a ∷ [])
segments w d a key made =
    ap (split_on b'/') (sym made.joined)
    ∙ split_on-join_slashes "uploads" ("workspaces" ∷ w ∷ "documents" ∷ d ∷ "source" ∷ a ∷ []) refl
        (
          refl,
          (
            plain-IsPart w made.workspace,
            (refl, (plain-IsPart d made.document, (refl, (plain-IsPart a made.artifact, tt)))),
          ),
        )

-- Two keys for sources are the same only for the same workspace, document and artifact.
pub source_object_key_injective :
    (w d a v e b key : String)
    → source_object_key w d a ≡ ok key
    → source_object_key v e b ≡ ok key
    → (w ≡ v) × (d ≡ e) × (a ≡ b)
source_object_key_injective w d a v e b key h k =
    let one = segments w d a key (source_object_key-IsSource w d a key h) in
    let other = segments v e b key (source_object_key-IsSource v e b key k) in
    let parts = ap (λ x. x.1) (sym one ∙ other) in
    (ap (at 1) parts, ap (at 3) parts, ap (at 5) parts)
  where
    at : vkit_orbit.Base.ℕ → List String → String
    at n [] = ""
    at vkit_orbit.Base.zero (x ∷ xs) = x
    at (vkit_orbit.Base.suc n) (x ∷ xs) = at n xs

-- A key that is made for a source is one of the objects that the storage client accepts under the root
-- prefix `uploads`.
pub assert_object_key-source_object_key :
    (trim : String → String) (w d a key : String)
    → trim "uploads" ≡ "uploads"
    → source_object_key w d a ≡ ok key
    → assert_object_key trim "uploads" key ≡ ok tt
unfolding assert_object_key normalize_prefix ◌>>=◌ fail_if
assert_object_key-source_object_key trim w d a key trimmed h =
    let made = source_object_key-IsSource w d a key h in
    let inside : starts_with key ("uploads" <> "/") ≡ true =
      subst (λ k. starts_with k ("uploads" <> "/") ≡ true) made.joined
        (subst (λ k. starts_with k ("uploads" <> "/") ≡ true) (prefix_of _)
          (starts_with-append "uploads/" _)) in
    let clean : has_segment is_bad_segment key ≡ false =
      rw
        (
          segments w d a key made,
          plain_segment w made.workspace,
          plain_segment d made.document,
          plain_segment a made.artifact,
        )
        refl in
    rw (trimmed, inside, clean) refl
  where
    prefix_of : (s : String) → "uploads/" <> s ≡ "uploads" <> Text.◌∷◌ "/" s
    prefix_of s =
        append_assoc "uploads" "/" s
        ∙ ap (λ t. "uploads" <> t) (cons-append "/" "" s ∙ ap (λ t. Text.◌∷◌ "/" t) (nil-append s))
