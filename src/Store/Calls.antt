-- ===== src/Store/Calls.antt =====
-- Each call of the client as an equation on the database, by the client's laws.
use vkit_orbit.Base.{
  Bool, ◌≡◌, refl, none, some, [], ◌∷◌, ◌++◌, inl, inr, arith, any, if◌then◌else◌, Bool-cases,
}
use vkit_orbit.Store.Schema.{Database}
use vkit_orbit.Store.Client.{Client, Result, ok, err, Error, unique_violation, record_missing}
use vkit_orbit.Store.Rows.{update_if, count_if, delete_if}
use vkit_orbit.Store.Command.{
  Command, Table, find_first, update_many, create, update, delete, transaction,
}

module _ (client : Client) {R : Type 0} (table : Table R) where
  pub find_first_lem :
      (p : R → Bool) (s : Database)
      → find_first client table p s ≡ (ok (client.find_first p (table.rows s)), s)
  unfolding find_first
  find_first_lem p s = refl

  pub update_many_lem :
      (p : R → Bool) (f : R → R) (s : Database)
      → update_many client table p f s
        ≡ (ok (count_if p (table.rows s)), table.put (update_if p f (table.rows s)) s)
  unfolding update_many
  update_many_lem p f s = rw (client.update_many_lem p f (table.rows s))

  pub create_lem :
      (clash : R → Bool) (r : R) (s : Database)
      → create client table clash r s ≡ (
          if any clash (table.rows s)
          then (err unique_violation, s)
          else (ok r, table.put (table.rows s ++ r ∷ []) s))
  unfolding create
  create_lem clash r s = elim (Bool-cases (any clash (table.rows s))) [
    | inl e ↦ rw (client.create_lem clash r (table.rows s), create) (rw e)
    | inr e ↦ rw (client.create_lem clash r (table.rows s), create) (rw e)
  ]

  pub update_none :
      (p : R → Bool) (f : R → R) (s : Database)
      → client.find_first p (table.rows s) ≡ none
      → update client table p f s ≡ (err record_missing, s)
  unfolding update
  update_none p f s e = rw (client.update_none p f (table.rows s) e, update)

  pub update_some :
      (p : R → Bool) (f : R → R) (s : Database) (r : R)
      → client.find_first p (table.rows s) ≡ some r
      → update client table p f s ≡ (ok (f r), table.put (update_if p f (table.rows s)) s)
  unfolding update
  update_some p f s r e = rw (client.update_some p f (table.rows s) r e, update)

  pub delete_lem :
      (p : R → Bool) (s : Database)
      → delete client table p s ≡ (
          if any p (table.rows s)
          then (ok tt, table.put (delete_if p (table.rows s)) s)
          else (err record_missing, s))
  unfolding delete
  delete_lem p s = elim (Bool-cases (any p (table.rows s))) [
    | inl e ↦ rw (client.delete_lem p (table.rows s), delete) (rw e)
    | inr e ↦ rw (client.delete_lem p (table.rows s), delete) (rw e)
  ]

module _ (client : Client) {A : Type 0} (body : Command A) where
  pub transaction_commit :
      (s t : Database) (a : A) → body s ≡ (ok a, t) → transaction client body s ≡ (ok a, t)
  unfolding transaction
  transaction_commit s t a e = client.transaction_commit body s t a e

  pub transaction_rollback :
      (s t : Database) (x : Error) → body s ≡ (err x, t) → transaction client body s ≡ (err x, s)
  unfolding transaction
  transaction_rollback s t x e = client.transaction_rollback body s t x e

  -- A transaction that throws has changed nothing.
  settled :
      (s : Database) (r : Result A × Database) (x : Error)
      → body s ≡ r
      → (transaction client body s).0 ≡ err x
      → (transaction client body s).1 ≡ s
  settled s (ok a, t) x e h = absurd (ground (arith, transaction_commit s t a e))
  settled s (err y, t) x e h = rw (transaction_rollback s t y e)

  pub transaction_throws :
      (s : Database) (x : Error)
      → (transaction client body s).0 ≡ err x
      → (transaction client body s).1 ≡ s
  transaction_throws s x h = settled s (body s) x refl h
