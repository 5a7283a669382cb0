-- ===== src/Store/Counting.antt =====
-- What the count of an update says of the rows.
use vkit_orbit.Base.{
  ◌<◌, Bool, true, false, ◌≡◌, refl, ap, subst, List, [], ◌∷◌, Memᴰ, arith, if◌then◌else◌,
  Bool-cases, inl, inr,
}
use vkit_orbit.Store.Rows.{update_if, count_if}

module _ {R : Type 0} (p : R → Bool) where
  -- A positive count has a row that fits.
  pub count_if-mem : (rows : List R) → 0 < count_if p rows → (r : R) × Memᴰ r rows × (p r ≡ true)
  count_if-mem [] h = absurd (omega arith)
  count_if-mem (r ∷ rows) h = elim (Bool-cases (p r)) [
    | inl e ↦ (r, Memᴰ.head refl, e)
    | inr e ↦ let (n, m, fits) = count_if-mem rows (ground arith) in (n, Memᴰ.tail m, fits)
  ]

  abbrev pub FitsNone : List R → Type 0
  FitsNone rows = (r : R) → Memᴰ r rows → p r ≡ false

  pub count_if-zero : (rows : List R) → FitsNone rows → count_if p rows ≡ 0
  count_if-zero [] h = refl
  count_if-zero (r ∷ rows) h =
      rw (h r (Memᴰ.head refl)) (omega (arith, count_if-zero rows (λ n m. h n (Memᴰ.tail m))))

  pub update_if-same : (f : R → R) (rows : List R) → FitsNone rows → update_if p f rows ≡ rows
  update_if-same f [] h = refl
  update_if-same f (r ∷ rows) h =
      rw (h r (Memᴰ.head refl))
        (ap (λ rest. r ∷ rest) (update_if-same f rows (λ n m. h n (Memᴰ.tail m))))

  -- A row that fits is in the table as the update makes it.
  pub update_if-mem :
      (f : R → R) (rows : List R) (r : R)
      → Memᴰ r rows
      → p r ≡ true
      → Memᴰ (f r) (update_if p f rows)
  update_if-mem f [] r m h = elim m [ ]
  update_if-mem f (x ∷ rows) r (Memᴰ.head e) h =
      Memᴰ.head (subst (λ y. f r ≡ (if p y then f y else y)) e (rw h))
  update_if-mem f (x ∷ rows) r (Memᴰ.tail m) h = Memᴰ.tail (update_if-mem f rows r m h)
