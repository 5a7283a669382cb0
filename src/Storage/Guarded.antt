-- ===== src/Storage/Guarded.antt =====
-- The storage is called only for keys under the root prefix.
use text.Mathlib.Text.{starts_with}
use vkit_orbit.Base.{
  ℕ, String, Bool, true, false, not, ◌||◌, ◌≡◌, ◌≢◌, ◌⊎◌, refl, sym, subst, Option, inl, inr, List,
  [], ◌∷◌, All, any, eq_iff, arith, ◌==◌, Bool-cases, if◌then◌else◌,
}
use vkit_orbit.Base.Texts.{split_on}
use vkit_orbit.Json.Print.{◌<>◌}
use vkit_orbit.Store.Client.{Result, ok, err, Error, message}
use vkit_orbit.Collection.Checks.{>>=_inv, fail_if}
use vkit_orbit.Storage.Keys.{
  assert_object_key, normalize_prefix, strip_slashes, has_segment, is_bad_segment,
}
use vkit_orbit.Storage.Client.{
  ObjectStorage, StorageConfig, Content, create_download_url, presign_upload, put, get, head,
  delete,
}

abbrev pub IsPlain : String → Type 0
IsPlain segment = (segment ≢ "") × (segment ≢ "..")

segment-IsPlain : (s : String) → is_bad_segment s ≡ false → IsPlain s
segment-IsPlain s h =
    (λ e. ground (arith, (eq_iff s "").1 e), λ e. ground (arith, (eq_iff s "..").1 e))

segments-IsPlain : (xs : List String) → any is_bad_segment xs ≡ false → All IsPlain xs
segments-IsPlain [] h = tt
segments-IsPlain (x ∷ xs) h = (segment-IsPlain x (ground arith), segments-IsPlain xs (ground arith))

normal_inv :
    (value prefix : String)
    → (if value == "" || has_segment (λ s. s == "..") value
        then err (message "Storage root prefix is invalid")
        else ok value)
      ≡ ok prefix
    → (value ≢ "") × (value ≡ prefix)
normal_inv value prefix h = elim (Bool-cases (value == "" || has_segment (λ s. s == "..") value)) [
  | inl bad ↦ absurd (refused (rw bad at h))
  | inr good ↦ (λ e. ground (arith, (eq_iff value "").1 e, good), kept (rw good at h))
]
  where
    refused : err (message "Storage root prefix is invalid") ≡ ok prefix → ⊥
    refused e = cc e

    kept : ok value ≡ ok prefix → value ≡ prefix
    kept e = cc e

not_failed : (b : Bool) (text : String) → fail_if b text ≡ ok tt → b ≡ false
unfolding fail_if
not_failed true text h = absurd (cc h)
not_failed false text h = refl

inside_inv :
    (key prefix : String)
    → (not (starts_with key (prefix <> "/")) || has_segment is_bad_segment key) ≡ false
    → (starts_with key (prefix <> "/") ≡ true)
      × IsPlain (split_on b'/' key).0
      × All IsPlain (split_on b'/' key).1
inside_inv key prefix h =
    let (first, others) =
      segments-IsPlain ((split_on b'/' key).0 ∷ (split_on b'/' key).1) (ground arith) in
    (ground arith, first, others)

module _ {Q : Type 0} (storage : ObjectStorage Q) (trim : String → String)
    (config : StorageConfig) where
  -- The call throws and the storage is as it was.
  abbrev pub IsRefused : Q → Result String × Q → Type 0
  IsRefused q result = ((e : Error) × (result.0 ≡ err e)) × (result.1 ≡ q)

  abbrev pub AreRefused : String → Option ℕ → Content → Q → Type 0
  AreRefused key expires_in content q =
      IsRefused q (presign_upload storage trim config expires_in key q)
      × IsRefused q (create_download_url storage trim config key expires_in q)
      × IsRefused q (put storage trim config key content q)
      × IsRefused q (get storage trim config key q)
      × IsRefused q (head storage trim config key q)
      × IsRefused q (delete storage trim config key q)

  -- The key lies under the root prefix, without the spaces and slashes around that, and none of its
  -- segments is empty or `..`.
  pub record IsInside (key : String) : Type 0 where
    pub rooted : strip_slashes (trim config.root_prefix) ≢ ""
    pub under : starts_with key (strip_slashes (trim config.root_prefix) <> "/") ≡ true
    pub first_plain : IsPlain (split_on b'/' key).0
    pub others_plain : All IsPlain (split_on b'/' key).1

  accepted-IsInside :
      (key : String) → assert_object_key trim config.root_prefix key ≡ ok tt → IsInside key
  unfolding assert_object_key normalize_prefix
  accepted-IsInside key h =
      let (prefix, normal, h₁) = >>=_inv _ _ tt h in
      let (rooted, same) = normal_inv _ prefix normal in
      let inside = not_failed _ _ h₁ in
      let (under, first, others) = inside_inv key prefix inside in
      record {
        rooted = rooted;
        under = subst (λ p. starts_with key (p <> "/") ≡ true) (sym same) under;
        first_plain = first;
        others_plain = others;
      }

  -- Any key: it lies under the root prefix and none of its segments is empty or `..`, or every call of
  -- the client with it throws before the storage or its presigner is called: uploads, downloads, put,
  -- get, head, delete.
  pub calls-AreRefused :
      (key : String) (expires_in : Option ℕ) (content : Content) (q : Q)
      → IsInside key ⊎ AreRefused key expires_in content q
  unfolding create_download_url put get head delete
  calls-AreRefused key expires_in content q =
      case (assert_object_key trim config.root_prefix key) refl
    where
      case :
          (r : Result (Unit {0}))
          → assert_object_key trim config.root_prefix key ≡ r
          → IsInside key ⊎ AreRefused key expires_in content q
      case (ok u) e = inl (accepted-IsInside key e)
      case (err x) e = inr (
          rw e (
            ((x, refl), refl),
            ((x, refl), refl),
            ((x, refl), refl),
            ((x, refl), refl),
            ((x, refl), refl),
            ((x, refl), refl),
          ))
