-- ===== src/Store/Rows.antt =====
-- The rows of one table under a conditional update, as the client's laws describe them.
use vkit_orbit.Base.{ℕ, ◌+◌, Bool, List, [], ◌∷◌, if◌then◌else◌}

module _ {R : Type 0} where
  abbrev pub update_if : (R → Bool) → (R → R) → List R → List R
  update_if p f [] = []
  update_if p f (r ∷ rows) = (if p r then f r else r) ∷ update_if p f rows

  abbrev pub count_if : (R → Bool) → List R → ℕ
  count_if p [] = 0
  count_if p (r ∷ rows) = (if p r then 1 else 0) + count_if p rows

  abbrev pub delete_if : (R → Bool) → List R → List R
  delete_if p [] = []
  delete_if p (r ∷ rows) = let rest = delete_if p rows in if p r then rest else r ∷ rest
