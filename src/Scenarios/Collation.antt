-- ===== src/Scenarios/Collation.antt =====
-- An order on texts, by their code points: a collation for which the laws hold.
use Prim.Native.Char.{code}
use Prim.Native.String.{[], ◌∷◌}
use vkit_orbit.Base.{String, true, false, ◌≡◌, ◌⊎◌, inl, inr, refl, ltb, eqb, if◌then◌else◌, arith}
use vkit_orbit.Json.Canonical.{Collation, IsOrder}

unfoldable pub by_code : Collation
by_code [] t = true
by_code (c ∷ s) [] = false
by_code (c ∷ s) (d ∷ t) =
    let rest = by_code s t in
    if ltb (code c) (code d) then true else if eqb (code c) (code d) then rest else false

total : (a b : String) → (by_code a b ≡ true) ⊎ (by_code b a ≡ true)
unfolding by_code
total [] b = inl refl
total (c ∷ s) [] = inr refl
total (c ∷ s) (d ∷ t) = ground (arith, total s t)

trans : (a b c : String) → by_code a b ≡ true → by_code b c ≡ true → by_code a c ≡ true
unfolding by_code
trans [] b c h k = refl
trans (x ∷ a) [] c h k = cc
trans (x ∷ a) (y ∷ b) [] h k = cc
trans (x ∷ a) (y ∷ b) (z ∷ c) h k = ground (arith, trans a b c)

pub by_code-IsOrder : IsOrder by_code
by_code-IsOrder = record { total = total; trans = trans }
