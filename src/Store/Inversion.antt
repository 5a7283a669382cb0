-- ===== src/Store/Inversion.antt =====
-- What has happened in a command that returned.
use vkit_orbit.Base.{
  Bool, true, false, ◌≡◌, refl, sym, ap, ◌∙◌, [], ◌∷◌, ◌++◌, any, Bool-cases, inl, inr, none, some,
  Option, Memᴰ, Option-cases,
}
use vkit_orbit.Store.Schema.{Database}
use vkit_orbit.Store.Client.{Client, Error, Result, ok, err}
use vkit_orbit.Store.Command.{
  Command, continue, ◌>>=◌, ◌>>◌, return, throw, branch, throw_if, require, Table, find_first,
  update, create, transaction, commands,
}
use vkit_orbit.Store.Rows.{update_if}
use vkit_orbit.Store.Calls.{
  create_lem, update_none, update_some, transaction_commit, transaction_rollback,
}

module _ {A B : Type 0} where
  continue_inv :
      (r : Result A × Database) (f : A → Command B) (b : B) (t : Database)
      → continue r f ≡ (ok b, t)
      → (a : A) × (u : Database) × (r ≡ (ok a, u)) × (f a u ≡ (ok b, t))
  continue_inv (ok a, u) f b t h = (a, u, refl, h)
  continue_inv (err e, u) f b t h = absurd (cc (ap (λ x. x.0) h))

  pub >>=_inv :
      (m : Command A) (f : A → Command B) (b : B) (s t : Database)
      → (m >>= f) s ≡ (ok b, t)
      → (a : A) × (u : Database) × (m s ≡ (ok a, u)) × (f a u ≡ (ok b, t))
  unfolding commands
  >>=_inv m f b s t h = continue_inv (m s) f b t h

pub >>_inv :
    {A B : Type 0} (m : Command A) (k : Command B) (b : B) (s t : Database)
    → (m >> k) s ≡ (ok b, t)
    → (a : A) × (u : Database) × (m s ≡ (ok a, u)) × (k u ≡ (ok b, t))
unfolding commands
>>_inv m k b s t h = continue_inv (m s) (λ _. k) b t h

pub return_inv :
    {A : Type 0} (a b : A) (s t : Database) → return a s ≡ (ok b, t) → (a ≡ b) × (s ≡ t)
unfolding return
return_inv a b s t h = (cc (ap (λ y. y.0) h), ap (λ y. y.1) h)

pub branch-throw_inv :
    {A : Type 0} (test : Bool) (a b : A) (e : Error) (s t : Database)
    → branch test (return a) (throw e) s ≡ (ok b, t)
    → (test ≡ true) × (a ≡ b) × (s ≡ t)
unfolding commands
branch-throw_inv true a b e s t h = (refl, cc (ap (λ y. y.0) h), ap (λ y. y.1) h)
branch-throw_inv false a b e s t h = absurd (cc (ap (λ y. y.0) h))

pub branch-return_inv :
    {A : Type 0} (test : Bool) (m : Command A) (a b : A) (s t : Database)
    → branch test m (return a) s ≡ (ok b, t)
    → (a ≡ b → ⊥)
    → (test ≡ true) × (m s ≡ (ok b, t))
unfolding commands
branch-return_inv true m a b s t h ne = (refl, h)
branch-return_inv false m a b s t h ne = absurd (ne (cc (ap (λ y. y.0) h)))

pub throw_if_inv :
    {B : Type 0} (test : Bool) (e : Error) (m : Command B) (b : B) (s t : Database)
    → (throw_if test e >> m) s ≡ (ok b, t)
    → (test ≡ false) × (m s ≡ (ok b, t))
unfolding commands
throw_if_inv true e m b s t h = absurd (cc (ap (λ x. x.0) h))
throw_if_inv false e m b s t h = (refl, h)

module _ (client : Client) {A : Type 0} (body : Command A) where
  transaction_end :
      (s t : Database) (a : A) (r : Result A × Database)
      → body s ≡ r
      → transaction client body s ≡ (ok a, t)
      → body s ≡ (ok a, t)
  transaction_end s t a (ok b, u) e h = e ∙ sym (transaction_commit client body s u b e) ∙ h
  transaction_end s t a (err x, u) e h =
      absurd (cc (ap (λ y. y.0) (sym (transaction_rollback client body s u x e) ∙ h)))

  pub transaction_inv :
      (s t : Database) (a : A) → transaction client body s ≡ (ok a, t) → body s ≡ (ok a, t)
  transaction_inv s t a h = transaction_end s t a (body s) refl h

pub create_inv :
    {R : Type 0} (client : Client) (table : Table R) (clash : R → Bool) (r n : R) (s t : Database)
    → create client table clash r s ≡ (ok n, t)
    → (any clash (table.rows s) ≡ false) × (n ≡ r) × (t ≡ table.put (table.rows s ++ r ∷ []) s)
create_inv client table clash r n s t h =
    let e = sym (create_lem client table clash r s) ∙ h in
    elim (Bool-cases (any clash (table.rows s))) [
      | inl taken ↦ absurd (cc (ap (λ y. y.0) (rw taken at e)))
      | inr free ↦
          let made : (ok r, table.put (table.rows s ++ r ∷ []) s) ≡ (ok n, t) = rw free at e in
          (free, cc (ap (λ y. y.0) made), ap (λ y. y.1) (sym made))
    ]

pub require_inv :
    {A : Type 0} (o : Option A) (e : Error) (a : A) (s t : Database)
    → require o e s ≡ (ok a, t)
    → (o ≡ some a) × (s ≡ t)
unfolding commands
require_inv none e a s t h = absurd (cc (ap (λ y. y.0) h))
require_inv (some b) e a s t h = (cc (ap (λ y. y.0) h), ap (λ y. y.1) h)

pub find_first_inv :
    {R : Type 0} (client : Client) (table : Table R) (p : R → Bool) (o : Option R) (s t : Database)
    → find_first client table p s ≡ (ok o, t)
    → (client.find_first p (table.rows s) ≡ o) × (s ≡ t)
unfolding find_first
find_first_inv client table p o s t h = (cc (ap (λ y. y.0) h), ap (λ y. y.1) h)

-- A row that was looked up and required: it is listed, and it fits.
pub found_inv :
    {R : Type 0} (client : Client) (table : Table R) (p : R → Bool) (o : Option R) (e : Error)
    (r : R) (s u t : Database)
    → find_first client table p s ≡ (ok o, u)
    → require o e u ≡ (ok r, t)
    → Memᴰ r (table.rows s) × (p r ≡ true) × (s ≡ t)
found_inv client table p o e r s u t h k =
    let (looked, here) = find_first_inv client table p o s u h in
    let (there, kept) = require_inv o e r u t k in
    let (m, fits) = client.find_first_some p (table.rows s) r (looked ∙ there) in
    (m, fits, here ∙ kept)

pub update_inv :
    {R : Type 0} (client : Client) (table : Table R) (p : R → Bool) (f : R → R) (n : R)
    (s t : Database)
    → update client table p f s ≡ (ok n, t)
    → t ≡ table.put (update_if p f (table.rows s)) s
update_inv client table p f n s t h = elim (Option-cases (client.find_first p (table.rows s))) [
  | inl missing ↦ absurd (cc (ap (λ y. y.0) (sym (update_none client table p f s missing) ∙ h)))
  | inr (r, e) ↦ ap (λ y. y.1) (sym h ∙ update_some client table p f s r e)
]
