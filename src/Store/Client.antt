-- ===== src/Store/Client.antt =====
-- The Prisma client (a third-party package) as an interface: what each call does to the rows of one
-- table. The laws are Prisma's documented behaviour: a `find` returns a row that fits the filter, or
-- none when no row does; `updateMany` changes the rows that fit and counts them; a unique index
-- refuses a second row; an `update` or `delete` of no row throws; `$transaction` keeps the writes of
-- a body that returns and drops those of a body that throws.
use vkit_orbit.Base.{
  ℕ, ◌≤◌, ◌<◌, Bool, true, false, ◌≡◌, ◌≢◌, Option, none, some, List, [], ◌∷◌, ◌++◌, Memᴰ, any,
  length, All, if◌then◌else◌,
}
use vkit_orbit.Store.Rows.{update_if, count_if, delete_if}

-- What the calls of the program can throw. `message m` is `new Error(m)`.
pub data Error : Type 0 where
  message : vkit_orbit.Base.String → Error
  not_found : vkit_orbit.Base.String → Error
  forbidden : vkit_orbit.Base.String → Error
  unauthorized : vkit_orbit.Base.String → Error
  idempotency_conflict : Error
  unique_violation : Error
  record_missing : Error

pub data Result {ℓ} (A : Type ℓ) : Type ℓ where
  ok : A → Result A
  err : Error → Result A

pub data Order (R : Type 0) : Type 0 where
  unordered : Order R
  asc desc : (R → ℕ) → Order R

abbrev pub Precedes : {R : Type 0} → Order R → R → R → Type 0
Precedes unordered a b = Unit
Precedes (asc key) a b = key a ≤ key b
Precedes (desc key) a b = key b ≤ key a

abbrev pub IsOrdered : {R : Type 0} → Order R → List R → Type 0
IsOrdered o [] = Unit
IsOrdered o (r ∷ rows) = All (Precedes o r) rows × IsOrdered o rows

pub record Client : Type 1 where
  pub find_first : {R : Type 0} → (R → Bool) → List R → Option R
  -- filter, `orderBy`, `take`
  pub find_many : {R : Type 0} → (R → Bool) → Order R → ℕ → List R → List R
  pub find_all : {R : Type 0} → (R → Bool) → List R → List R
  pub count : {R : Type 0} → (R → Bool) → List R → ℕ
  pub update_many : {R : Type 0} → (R → Bool) → (R → R) → List R → List R × ℕ
  -- the test says which rows a unique index sets against the new one
  pub create : {R : Type 0} → (R → Bool) → R → List R → Result (List R)
  pub update : {R : Type 0} → (R → Bool) → (R → R) → List R → Result (List R × R)
  pub delete : {R : Type 0} → (R → Bool) → List R → Result (List R)
  pub transaction : {S A : Type 0} → (S → Result A × S) → S → Result A × S
  pub find_first_some :
      {R : Type 0} (p : R → Bool) (rows : List R) (r : R)
      → find_first p rows ≡ some r
      → Memᴰ r rows × (p r ≡ true)
  pub find_first_none :
      {R : Type 0} (p : R → Bool) (rows : List R)
      → find_first p rows ≡ none
      → All (λ r. p r ≡ false) rows
  pub find_many_sound :
      {R : Type 0} (p : R → Bool) (o : Order R) (limit : ℕ) (rows : List R)
      → All (λ r. Memᴰ r rows × (p r ≡ true)) (find_many p o limit rows)
  pub find_many_limit :
      {R : Type 0} (p : R → Bool) (o : Order R) (limit : ℕ) (rows : List R)
      → length (find_many p o limit rows) ≤ limit
  pub find_many_complete :
      {R : Type 0} (p : R → Bool) (o : Order R) (limit : ℕ) (rows : List R)
      → length (find_many p o limit rows) < limit
      → (r : R) → Memᴰ r rows
      → p r ≡ true
      → Memᴰ r (find_many p o limit rows)
  pub find_many_ordered :
      {R : Type 0} (p : R → Bool) (o : Order R) (limit : ℕ) (rows : List R)
      → IsOrdered o (find_many p o limit rows)
  pub find_all_sound :
      {R : Type 0} (p : R → Bool) (rows : List R)
      → All (λ r. Memᴰ r rows × (p r ≡ true)) (find_all p rows)
  pub find_all_complete :
      {R : Type 0} (p : R → Bool) (rows : List R) (r : R)
      → Memᴰ r rows
      → p r ≡ true
      → Memᴰ r (find_all p rows)
  pub count_lem : {R : Type 0} (p : R → Bool) (rows : List R) → count p rows ≡ count_if p rows
  pub update_many_lem :
      {R : Type 0} (p : R → Bool) (f : R → R) (rows : List R)
      → update_many p f rows ≡ (update_if p f rows, count_if p rows)
  pub create_lem :
      {R : Type 0} (clash : R → Bool) (r : R) (rows : List R)
      → create clash r rows ≡ (if any clash rows then err unique_violation else ok (rows ++ r ∷ []))
  pub update_none :
      {R : Type 0} (p : R → Bool) (f : R → R) (rows : List R)
      → find_first p rows ≡ none
      → update p f rows ≡ err record_missing
  pub update_some :
      {R : Type 0} (p : R → Bool) (f : R → R) (rows : List R) (r : R)
      → find_first p rows ≡ some r
      → update p f rows ≡ ok (update_if p f rows, f r)
  pub delete_lem :
      {R : Type 0} (p : R → Bool) (rows : List R)
      → delete p rows ≡ (if any p rows then ok (delete_if p rows) else err record_missing)
  pub transaction_commit :
      {S A : Type 0} (body : S → Result A × S) (s t : S) (a : A)
      → body s ≡ (ok a, t)
      → transaction body s ≡ (ok a, t)
  pub transaction_rollback :
      {S A : Type 0} (body : S → Result A × S) (s t : S) (e : Error)
      → body s ≡ (err e, t)
      → transaction body s ≡ (err e, s)
