-- ===== src/Collection/Checks.antt =====
-- Code that returns or throws, with no database: the way in which the parsing of a query is put together.
use vkit_orbit.Base.{Bool, true, false, ◌≡◌, refl, String}
use vkit_orbit.Store.Client.{Result, ok, err, message}

infixl 5 ◌>>=◌
unfoldable pub ◌>>=◌ : {A B : Type 0} → Result A → (A → Result B) → Result B
◌>>=◌ (ok a) f = f a
◌>>=◌ (err e) f = err e

infixl 5 ◌>>◌
unfoldable pub ◌>>◌ : {A B : Type 0} → Result A → Result B → Result B
◌>>◌ (ok a) m = m
◌>>◌ (err e) m = err e

unfoldable pub return : {A : Type 0} → A → Result A
return a = ok a

-- `if (test) throw new Error(text)`
unfoldable pub fail_if : Bool → String → Result (Unit {0})
fail_if true text = err (message text)
fail_if false text = ok tt

pub >>=_inv :
    {A B : Type 0} (m : Result A) (f : A → Result B) (b : B)
    → (m >>= f) ≡ ok b
    → (a : A) × (m ≡ ok a) × (f a ≡ ok b)
unfolding ◌>>=◌
>>=_inv (ok a) f b h = (a, refl, h)
>>=_inv (err e) f b h = absurd (cc h)

pub fail_if_inv :
    {B : Type 0} (test : Bool) (text : String) (m : Result B) (b : B)
    → (fail_if test text >> m) ≡ ok b
    → (test ≡ false) × (m ≡ ok b)
unfolding ◌>>◌ fail_if
fail_if_inv true text m b h = absurd (cc h)
fail_if_inv false text m b h = (refl, h)

pub return_inv : {A : Type 0} (a b : A) → return a ≡ ok b → a ≡ b
unfolding return
return_inv a b h = cc

pub >>_inv :
    {A B : Type 0} (m : Result A) (k : Result B) (b : B)
    → (m >> k) ≡ ok b
    → (a : A) × (m ≡ ok a) × (k ≡ ok b)
unfolding ◌>>◌
>>_inv (ok a) k b h = (a, refl, h)
>>_inv (err e) k b h = absurd (cc h)
