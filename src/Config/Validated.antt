-- ===== src/Config/Validated.antt =====
-- A configuration that was validated fails only for want of a variable.
use vkit_orbit.Base.{
  ℕ, zero, suc, ◌+◌, String, ◌≡◌, refl, Option, none, some, List, [], ◌∷◌, ◌++◌, ◌⊎◌, inl, inr,
}
use vkit_orbit.Json.{Json, null, bool, num, str, arr, obj, Items, nil, cons, Fields, end, field}
use vkit_orbit.Json.Print.{decimal}
use vkit_orbit.Config.Scan.{
  missing_variable, Outcome, done, refused, stuck, Environment, variable, usable, supplied,
  replaced, Piece, finished, escaped, plain, unclosed, template, piece, both, made, read, scan,
  size, scan_all,
}
use vkit_orbit.Config.Interpolation.{
  interpolate_selected, interpolate_items, interpolate_fields, validate_templates, validate_items,
  validate_fields,
}

-- A value, or the error of a variable that the environment lacks.
abbrev pub IsResolved : {A : Type 0} → Environment → Outcome A → Type 0
IsResolved {A} environment o =
    ((a : A) × (o ≡ done a))
    ⊎ ((path : List String) × (name : String) × (o ≡ refused path (missing_variable name))
        × (usable (environment name) ≡ none))

both_inv :
    {A B C : Type 0} (f : A → B → C) (a : Outcome A) (b : Outcome B) (c : C)
    → both f a b ≡ done c
    → ((x : A) × (a ≡ done x)) × ((y : B) × (b ≡ done y))
unfolding both
both_inv f (done a) (done b) c h = ((a, refl), (b, refl))
both_inv f (done a) (refused at reason) c h = absurd (cc h)
both_inv f (done a) stuck c h = absurd (cc h)
both_inv f (refused at reason) b c h = absurd (cc h)
both_inv f stuck b c h = absurd (cc h)

made_inv :
    {A B : Type 0} (f : A → B) (a : Outcome A) (b : B) → made f a ≡ done b → (x : A) × (a ≡ done x)
unfolding made
made_inv f (done a) b h = (a, refl)
made_inv f (refused at reason) b h = absurd (cc h)
made_inv f stuck b h = absurd (cc h)

module _ (environment : Environment) where
  both-IsResolved :
      {A B C : Type 0} (f : A → B → C) (a : Outcome A) (b : Outcome B)
      → IsResolved environment a
      → IsResolved environment b
      → IsResolved environment (both f a b)
  unfolding both
  both-IsResolved f a b (inl (x, e)) (inl (y, k)) = inl (f x y, rw (e, k) refl)
  both-IsResolved f a b (inl (x, e)) (inr (at, name, k, u)) = inr (at, name, rw (e, k) refl, u)
  both-IsResolved f a b (inr (at, name, e, u)) h = inr (at, name, rw e refl, u)

  made-IsResolved :
      {A B : Type 0} (f : A → B) (a : Outcome A)
      → IsResolved environment a
      → IsResolved environment (made f a)
  unfolding made
  made-IsResolved f a (inl (x, e)) = inl (f x, rw e refl)
  made-IsResolved f a (inr (at, name, e, u)) = inr (at, name, rw e refl, u)

  done-IsResolved : {A : Type 0} (a : A) → IsResolved environment (done a)
  done-IsResolved a = inl (a, refl)

  supplied-IsResolved :
      (path : List String) (name : String) (value default : Option String)
      → usable (environment name) ≡ value
      → IsResolved environment (supplied path name value default)
  supplied-IsResolved path name (some text) default e = done-IsResolved text
  supplied-IsResolved path name none (some text) e = done-IsResolved text
  supplied-IsResolved path name none none e = inr (path, name, refl, e)

  replaced-IsResolved :
      (path at : List String) (found : Option (String × Option String)) (out : String)
      → replaced none at found ≡ done out
      → IsResolved environment (replaced (some environment) path found)
  replaced-IsResolved path at none out h = absurd (cc h)
  replaced-IsResolved path at (some (name, default)) out h =
      supplied-IsResolved path name (usable (environment name)) default refl

  read-IsResolved :
      (path at : List String) (j k : String → Outcome String) (p : Piece) (out : String)
      → ((rest out : String) → j rest ≡ done out → IsResolved environment (k rest))
      → read none at j p ≡ done out
      → IsResolved environment (read (some environment) path k p)
  unfolding read
  read-IsResolved path at j k finished out keep h = done-IsResolved ""
  read-IsResolved path at j k (escaped rest) out keep h =
      let (_, (o, e)) = both_inv _ _ _ out h in
      both-IsResolved _ _ _ (done-IsResolved _) (keep rest o e)
  read-IsResolved path at j k (plain c rest) out keep h =
      let (_, (o, e)) = both_inv _ _ _ out h in
      both-IsResolved _ _ _ (done-IsResolved _) (keep rest o e)
  read-IsResolved path at j k unclosed out keep h = absurd (cc h)
  read-IsResolved path at j k (template body rest) out keep h =
      let ((i, d), (o, e)) = both_inv _ _ _ out h in
      both-IsResolved _ _ _ (replaced-IsResolved path at (variable body) i d) (keep rest o e)

  scan-IsResolved :
      (path at : List String) (n : ℕ) (value out : String)
      → scan none at n value ≡ done out
      → IsResolved environment (scan (some environment) path n value)
  unfolding scan
  scan-IsResolved path at zero value out h = absurd (cc h)
  scan-IsResolved path at (suc n) value out h =
      read-IsResolved path at _ _ (piece value) out (scan-IsResolved path at n) h

  scan_all-IsResolved :
      (path at : List String) (value out : String)
      → scan_all none at value ≡ done out
      → IsResolved environment (scan_all (some environment) path value)
  unfolding scan_all
  scan_all-IsResolved path at value out = scan-IsResolved path at (suc (size value)) value out

  mutual
    unfolding validate_templates interpolate_selected

    resolved :
        (path at : List String) (v : Json)
        → validate_templates at v ≡ done tt
        → IsResolved environment (interpolate_selected environment path v)
    resolved path at (str value) h =
        let (out, e) = made_inv _ _ tt h in
        made-IsResolved str _ (scan_all-IsResolved path at value out e)
    resolved path at (arr vs) h = made-IsResolved obj _ (items-IsResolved path at 0 0 vs h)
    resolved path at (obj fs) h = made-IsResolved obj _ (fields-IsResolved path at fs h)
    resolved path at null h = done-IsResolved null
    resolved path at (bool b) h = done-IsResolved (bool b)
    resolved path at (num n) h = done-IsResolved (num n)

    items-IsResolved :
        (path at : List String) (i j : ℕ) (vs : Items)
        → validate_items at j vs ≡ done tt
        → IsResolved environment (interpolate_items environment path i vs)
    items-IsResolved path at i j nil h = done-IsResolved end
    items-IsResolved path at i j (cons v vs) h =
        let ((_, a), (_, b)) = both_inv _ _ _ tt h in
        both-IsResolved _ _ _ (resolved (path ++ decimal i ∷ []) (at ++ decimal j ∷ []) v a)
          (items-IsResolved path at (i + 1) (j + 1) vs b)

    fields-IsResolved :
        (path at : List String) (fs : Fields)
        → validate_fields at fs ≡ done tt
        → IsResolved environment (interpolate_fields environment path fs)
    fields-IsResolved path at end h = done-IsResolved end
    fields-IsResolved path at (field key v fs) h =
        let (_, (_, rest)) = both_inv _ _ _ tt h in
        let ((_, a), (_, b)) = both_inv _ _ _ tt rest in
        both-IsResolved _ _ _ (resolved (path ++ key ∷ []) (at ++ key ∷ []) v a)
          (fields-IsResolved path at fs b)

  -- Once `validateTemplates` has let a document pass, `interpolateSelected` returns, in any environment,
  -- a value of it, or throws the error of a variable that the environment does not have or has empty.
  -- The same holds of any part that passes.
  pub interpolate_selected-IsResolved :
      (path at : List String) (v : Json)
      → validate_templates at v ≡ done tt
      → IsResolved environment (interpolate_selected environment path v)
  interpolate_selected-IsResolved path at v h = resolved path at v h
