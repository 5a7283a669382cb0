-- ===== src/Store/Command.antt =====
-- Calls on the database: a command reads and changes the tables, and returns a value or throws. What
-- it wrote before it threw stays written, unless the command is the body of a transaction.
use vkit_orbit.Base.{ℕ, Bool, true, false, Option, none, some, List, if◌then◌else◌}
use vkit_orbit.Store.Schema.{
  Document, DocumentArtifact, ProcessingRun, QueueOutbox, WebhookEndpoint, WebhookDelivery,
  AuditLog, IdempotencyRecord, WorkspaceMember, ApiKey, Session, Database,
}
use vkit_orbit.Store.Client.{Error, Result, ok, err, Client, Order}

abbrev pub Command : Type 0 → Type 0
Command A = Database → Result A × Database

abbrev pub continue : {A B : Type 0} → Result A × Database → (A → Command B) → Result B × Database
continue (ok a, s) f = f a s
continue (err e, s) f = (err e, s)

infixl 5 ◌>>=◌ ◌>>◌
unfoldable pub ◌>>=◌ : {A B : Type 0} → Command A → (A → Command B) → Command B
◌>>=◌ m f s = continue (m s) f

unfoldable pub ◌>>◌ : {A B : Type 0} → Command A → Command B → Command B
◌>>◌ m k s = continue (m s) (λ _. k)

unfoldable pub return : {A : Type 0} → A → Command A
return a s = (ok a, s)

unfoldable pub throw : {A : Type 0} → Error → Command A
throw e s = (err e, s)

-- `if (test) throw e`
unfoldable pub throw_if : Bool → Error → Command (Unit {0})
unfolding return throw
throw_if test e = if test then throw e else return tt

-- `if (!value) throw e`
unfoldable pub require : {A : Type 0} → Option A → Error → Command A
unfolding return throw
require none e = throw e
require (some a) e = return a

-- `if (test) … else …` between commands.
unfoldable pub branch : {A : Type 0} → Bool → Command A → Command A → Command A
branch true m k = m
branch false m k = k

-- `if (value) … else …` on a value that may be missing.
unfoldable pub if_some : {A B : Type 0} → Option A → (A → Command B) → Command B → Command B
if_some (some a) f m = f a
if_some none f m = m

-- `for (const x of xs) await body(x)`
unfoldable pub for_each : {A : Type 0} → List A → (A → Command (Unit {0})) → Command (Unit {0})
unfolding return ◌>>◌
for_each List.[] body = return tt
for_each (List.◌∷◌ x xs) body = body x >> for_each xs body

-- A table, as a part of the database.
pub record Table (R : Type 0) : Type 0 where
  pub rows : Database → List R
  pub put : List R → Database → Database

abbrev pub documents : Table Document
documents = record { rows = λ s. s.documents; put = λ r s. record s { documents = r } }

abbrev pub artifacts : Table DocumentArtifact
artifacts = record { rows = λ s. s.artifacts; put = λ r s. record s { artifacts = r } }

abbrev pub runs : Table ProcessingRun
runs = record { rows = λ s. s.runs; put = λ r s. record s { runs = r } }

abbrev pub outbox : Table QueueOutbox
outbox = record { rows = λ s. s.outbox; put = λ r s. record s { outbox = r } }

abbrev pub endpoints : Table WebhookEndpoint
endpoints = record { rows = λ s. s.endpoints; put = λ r s. record s { endpoints = r } }

abbrev pub deliveries : Table WebhookDelivery
deliveries = record { rows = λ s. s.deliveries; put = λ r s. record s { deliveries = r } }

abbrev pub audit_logs : Table AuditLog
audit_logs = record { rows = λ s. s.audit_logs; put = λ r s. record s { audit_logs = r } }

abbrev pub idempotency_records : Table IdempotencyRecord
idempotency_records = record {
  rows = λ s. s.idempotency_records;
  put = λ r s. record s { idempotency_records = r };
}

abbrev pub members : Table WorkspaceMember
members = record { rows = λ s. s.members; put = λ r s. record s { members = r } }

abbrev pub api_keys : Table ApiKey
api_keys = record { rows = λ s. s.api_keys; put = λ r s. record s { api_keys = r } }

abbrev pub sessions : Table Session
sessions = record { rows = λ s. s.sessions; put = λ r s. record s { sessions = r } }

-- The client's calls, on a table of the database.
module _ (client : Client) {R : Type 0} (table : Table R) where
  unfoldable pub find_first : (R → Bool) → Command (Option R)
  find_first p s = (ok (client.find_first p (table.rows s)), s)

  unfoldable pub find_many : (R → Bool) → Order R → ℕ → Command (List R)
  find_many p o limit s = (ok (client.find_many p o limit (table.rows s)), s)

  unfoldable pub count : (R → Bool) → Command ℕ
  count p s = (ok (client.count p (table.rows s)), s)

  unfoldable pub update_many : (R → Bool) → (R → R) → Command ℕ
  update_many p f s =
      let (rows, changed) = client.update_many p f (table.rows s) in (ok changed, table.put rows s)

  -- The first argument is the row that clashes by a unique index.
  unfoldable pub create : (R → Bool) → R → Command R
  create clash r s = elim (client.create clash r (table.rows s)) [
    | ok rows ↦ (ok r, table.put rows s)
    | err e ↦ (err e, s)
  ]

  unfoldable pub update : (R → Bool) → (R → R) → Command R
  update p f s = elim (client.update p f (table.rows s)) [
    | ok (rows, r) ↦ (ok r, table.put rows s)
    | err e ↦ (err e, s)
  ]

  unfoldable pub delete : (R → Bool) → Command (Unit {0})
  delete p s = elim (client.delete p (table.rows s)) [
    | ok rows ↦ (ok tt, table.put rows s)
    | err e ↦ (err e, s)
  ]

  -- `upsert` with what it updates and what it creates.
  unfoldable pub upsert : (R → Bool) → (R → R) → (R → Bool) → R → Command R
  unfolding find_first update create ◌>>=◌ if_some
  upsert p f clash r = do found ← find_first p; if_some found (λ _. update p f) (create clash r)

  -- A `findMany` with no `take`.
  unfoldable pub find_all : (R → Bool) → Command (List R)
  find_all p s = (ok (client.find_all p (table.rows s)), s)

unfoldable pub transaction : Client → {A : Type 0} → Command A → Command A
transaction client body = client.transaction body

-- Tests that run a command name this.
unfoldable pub run : Unit {0}
unfolding ◌>>=◌ ◌>>◌ return throw throw_if require branch if_some for_each find_first find_many
    find_all count update_many create update delete upsert transaction
run = tt

-- Proofs about the way in which commands are put together name this.
unfoldable pub commands : Unit {0}
unfolding ◌>>=◌ ◌>>◌ return throw throw_if require branch if_some for_each
commands = tt
