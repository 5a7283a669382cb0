-- ===== src/Store/Rules.antt =====
-- What a command does to the database, by rules: a preorder on databases holds from the start of a
-- command to its end, returned or thrown, when each call in it keeps to the preorder.
use vkit_orbit.Base.{
  ℕ, Bool, true, false, ◌≡◌, refl, Option, none, some, List, [], ◌∷◌, ◌++◌, inl, inr, any,
  Option-cases, Bool-cases,
}
use vkit_orbit.Store.Schema.{Database}
use vkit_orbit.Store.Client.{Client, Order, Result, ok, err, Error}
use vkit_orbit.Store.Rows.{update_if, delete_if}
use vkit_orbit.Store.Calls.{create_lem, update_none, update_some, delete_lem, update_many_lem}
use vkit_orbit.Store.Command.{
  Command, continue, ◌>>=◌, ◌>>◌, return, throw, throw_if, require, branch, if_some, for_each,
  Table, find_first, find_many, find_all, count, update_many, create, update, delete, upsert,
  transaction, commands,
}

pub record Preorder : Type 1 where
  pub Rel : Database → Database → Type 0
  pub rel_refl : (s : Database) → Rel s s
  pub rel_trans : (s t u : Database) → Rel s t → Rel t u → Rel s u

pub record Steps (order : Preorder) {A : Type 0} (m : Command A) : Type 0 where
  pub at : (s : Database) → order.Rel s (m s).1

module _ (order : Preorder) where
  open order use {Rel, rel_refl, rel_trans}

  pub Steps-return : {A : Type 0} (a : A) → Steps order (return a)
  unfolding commands
  Steps-return a = record { at = λ s. rel_refl s }

  pub Steps-throw : {A : Type 0} (e : Error) → Steps order (throw {A = A} e)
  unfolding commands
  Steps-throw e = record { at = λ s. rel_refl s }

  continue-Rel :
      {A B : Type 0} (s : Database) (r : Result A × Database) (f : A → Command B)
      → Rel s r.1
      → ((a : A) → Steps order (f a))
      → Rel s (continue r f).1
  continue-Rel s (ok a, t) f h k = rel_trans s t _ h ((k a).at t)
  continue-Rel s (err e, t) f h k = h

  pub Steps->>= :
      {A B : Type 0} (m : Command A) (f : A → Command B)
      → Steps order m
      → ((a : A) → Steps order (f a))
      → Steps order (m >>= f)
  unfolding commands
  Steps->>= m f h k = record { at = λ s. continue-Rel s (m s) f (h.at s) k }

  pub Steps->> :
      {A B : Type 0} (m : Command A) (k : Command B)
      → Steps order m
      → Steps order k
      → Steps order (m >> k)
  unfolding commands
  Steps->> m k h l = record { at = λ s. continue-Rel s (m s) (λ _. k) (h.at s) (λ _. l) }

  pub Steps-branch :
      {A : Type 0} (b : Bool) (m k : Command A)
      → Steps order m
      → Steps order k
      → Steps order (branch b m k)
  unfolding commands
  Steps-branch true m k h l = h
  Steps-branch false m k h l = l

  pub Steps-throw_if : (b : Bool) (e : Error) → Steps order (throw_if b e)
  unfolding commands
  Steps-throw_if true e = Steps-throw e
  Steps-throw_if false e = Steps-return tt

  pub Steps-require : {A : Type 0} (o : Option A) (e : Error) → Steps order (require o e)
  unfolding commands
  Steps-require none e = Steps-throw e
  Steps-require (some a) e = Steps-return a

  pub Steps-if_some :
      {A B : Type 0} (o : Option A) (f : A → Command B) (m : Command B)
      → ((a : A) → Steps order (f a))
      → Steps order m
      → Steps order (if_some o f m)
  unfolding commands
  Steps-if_some (some a) f m h k = h a
  Steps-if_some none f m h k = k

  pub Steps-for_each :
      {A : Type 0} (xs : List A) (body : A → Command (Unit {0}))
      → ((a : A) → Steps order (body a))
      → Steps order (for_each xs body)
  unfolding commands
  Steps-for_each [] body h = Steps-return tt
  Steps-for_each (x ∷ xs) body h =
      Steps->> (body x) (for_each xs body) (h x) (Steps-for_each xs body h)

  module _ (client : Client) where
    transaction-Rel :
        {A : Type 0} (m : Command A) (s : Database) (r : Result A × Database)
        → m s ≡ r
        → Rel s r.1
        → Rel s (client.transaction m s).1
    transaction-Rel m s (ok a, t) e h = rw (client.transaction_commit m s t a e) h
    transaction-Rel m s (err x, t) e h = rw (client.transaction_rollback m s t x e) (rel_refl s)

    pub Steps-transaction :
        {A : Type 0} (m : Command A) → Steps order m → Steps order (transaction client m)
    unfolding transaction
    Steps-transaction m h = record { at = λ s. transaction-Rel m s (m s) refl (h.at s) }

    module _ {R : Type 0} (table : Table R) where
      pub Steps-find_first : (p : R → Bool) → Steps order (find_first client table p)
      unfolding find_first
      Steps-find_first p = record { at = λ s. rel_refl s }

      pub Steps-find_many :
          (p : R → Bool) (o : Order R) (limit : ℕ) → Steps order (find_many client table p o limit)
      unfolding find_many
      Steps-find_many p o limit = record { at = λ s. rel_refl s }

      pub Steps-find_all : (p : R → Bool) → Steps order (find_all client table p)
      unfolding find_all
      Steps-find_all p = record { at = λ s. rel_refl s }

      pub Steps-count : (p : R → Bool) → Steps order (count client table p)
      unfolding count
      Steps-count p = record { at = λ s. rel_refl s }

      pub Steps-update_many :
          (p : R → Bool) (f : R → R)
          → ((s : Database) → Rel s (table.put (update_if p f (table.rows s)) s))
          → Steps order (update_many client table p f)
      Steps-update_many p f h = record { at = λ s. rw (update_many_lem client table p f s) (h s) }

      create-Rel :
          (clash : R → Bool) (r : R) (s : Database)
          → (any clash (table.rows s) ≡ false → Rel s (table.put (table.rows s ++ r ∷ []) s))
          → Rel s (create client table clash r s).1
      create-Rel clash r s h =
          rw (create_lem client table clash r s) (elim (Bool-cases (any clash (table.rows s))) [
            | inl e ↦ rw e (rel_refl s)
            | inr e ↦ rw e (h e)
          ])

      pub Steps-create :
          (clash : R → Bool) (r : R)
          → ((s : Database)
              → any clash (table.rows s) ≡ false
              → Rel s (table.put (table.rows s ++ r ∷ []) s))
          → Steps order (create client table clash r)
      Steps-create clash r h = record { at = λ s. create-Rel clash r s (h s) }

      update-Rel :
          (p : R → Bool) (f : R → R) (s : Database)
          → Rel s (table.put (update_if p f (table.rows s)) s)
          → Rel s (update client table p f s).1
      update-Rel p f s h = elim (Option-cases (client.find_first p (table.rows s))) [
        | inl e ↦ rw (update_none client table p f s e) (rel_refl s)
        | inr (r, e) ↦ rw (update_some client table p f s r e) h
      ]

      pub Steps-update :
          (p : R → Bool) (f : R → R)
          → ((s : Database) → Rel s (table.put (update_if p f (table.rows s)) s))
          → Steps order (update client table p f)
      Steps-update p f h = record { at = λ s. update-Rel p f s (h s) }

      delete-Rel :
          (p : R → Bool) (s : Database)
          → Rel s (table.put (delete_if p (table.rows s)) s)
          → Rel s (delete client table p s).1
      delete-Rel p s h =
          rw (delete_lem client table p s) (elim (Bool-cases (any p (table.rows s))) [
            | inl e ↦ rw e h
            | inr e ↦ rw e (rel_refl s)
          ])

      pub Steps-delete :
          (p : R → Bool)
          → ((s : Database) → Rel s (table.put (delete_if p (table.rows s)) s))
          → Steps order (delete client table p)
      Steps-delete p h = record { at = λ s. delete-Rel p s (h s) }

      pub Steps-upsert :
          (p : R → Bool) (f : R → R) (clash : R → Bool) (r : R)
          → Steps order (update client table p f)
          → Steps order (create client table clash r)
          → Steps order (upsert client table p f clash r)
      unfolding upsert commands
      Steps-upsert p f clash r h k =
          Steps->>= (find_first client table p) _ (Steps-find_first p)
            (λ o. Steps-if_some o _ _ (λ _. h) k)

-- The same from one database on, for a command that relies on what it has read there.
pub record StepsAt (order : Preorder) (s : Database) {A : Type 0} (m : Command A) : Type 0 where
  pub at : order.Rel s (m s).1

module _ (order : Preorder) (s : Database) where
  pub StepsAt-of_Steps : {A : Type 0} (m : Command A) → Steps order m → StepsAt order s m
  StepsAt-of_Steps m h = record { at = h.at s }

  pub StepsAt->>= :
      {A B : Type 0} (m : Command A) (f : A → Command B)
      → StepsAt order s m
      → ((a : A) → Steps order (f a))
      → StepsAt order s (m >>= f)
  unfolding commands
  StepsAt->>= m f h k = record { at = continue-Rel order s (m s) f h.at k }

  pub StepsAt-found :
      {R B : Type 0} (client : Client) (table : Table R) (p : R → Bool) (f : Option R → Command B)
      → StepsAt order s (f (client.find_first p (table.rows s)))
      → StepsAt order s (find_first client table p >>= f)
  unfolding commands find_first
  StepsAt-found client table p f h = record { at = h.at }

  pub StepsAt-require :
      {A B : Type 0} (o : Option A) (e : Error) (f : A → Command B)
      → ((a : A) → o ≡ some a → StepsAt order s (f a))
      → StepsAt order s (require o e >>= f)
  unfolding commands
  StepsAt-require none e f h = record { at = order.rel_refl s }
  StepsAt-require (some a) e f h = record { at = (h a refl).at }

  pub StepsAt-throw_if :
      {B : Type 0} (b : Bool) (e : Error) (m : Command B)
      → (b ≡ false → StepsAt order s m)
      → StepsAt order s (throw_if b e >> m)
  unfolding commands
  StepsAt-throw_if true e m h = record { at = order.rel_refl s }
  StepsAt-throw_if false e m h = record { at = (h refl).at }

  pub StepsAt-update :
      {R : Type 0} (client : Client) (table : Table R) (p : R → Bool) (f : R → R)
      → order.Rel s (table.put (update_if p f (table.rows s)) s)
      → StepsAt order s (update client table p f)
  StepsAt-update client table p f h = record { at = update-Rel order client table p f s h }

pub Steps-of_StepsAt :
    (order : Preorder) {A : Type 0} (m : Command A)
    → ((s : Database) → StepsAt order s m)
    → Steps order m
Steps-of_StepsAt order m h = record { at = λ s. (h s).at }
