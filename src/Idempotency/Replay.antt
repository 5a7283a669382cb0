-- ===== src/Idempotency/Replay.antt =====
-- An operation under an idempotency key happens once.
use vkit_orbit.Base.{
  String, Bool, true, false, not, ◌&&◌, ◌||◌, ◌≡◌, ◌⊎◌, refl, sym, ap, ◌∙◌, subst, Option, none,
  some, List, [], ◌∷◌, ◌++◌, Memᴰ, All-mem, arith, ◌==◌, Option-cases, Bool-cases, inl, inr,
  if◌then◌else◌,
}
use mathlib.Core.List.Memᴰ as Mem
use text.Mathlib.TextPositions.{eq_refl}
use vkit_orbit.Host.{Host}
use vkit_orbit.Audit.{Scope}
use vkit_orbit.Json.{Json}
use vkit_orbit.Store.Schema.{Database, IdempotencyRecord}
use vkit_orbit.Store.Client.{ok, err, idempotency_conflict}
use vkit_orbit.Store.Command.{
  Command, return, throw, commands, idempotency_records, find_first, branch,
}
use vkit_orbit.Store.Calls.{find_first_lem, transaction_commit, transaction_rollback}
use vkit_orbit.Store.Inversion.{>>=_inv, throw_if_inv, return_inv, transaction_inv, create_inv}
use vkit_orbit.Idempotency.{
  fresh, replayed, request_hash, is_record, is_bad_key, idempotency_record, settle, reservation,
  execute_idempotent,
}

-- The action does not touch the records itself.
abbrev pub LeavesRecords : {T : Type 0} → Command T → Type 0
LeavesRecords action = (s : Database) → (action s).1.idempotency_records ≡ s.idempotency_records

abbrev is_other : Host → Scope → Json → IdempotencyRecord → Bool
is_other host scope request r =
    not (r.request_hash == request_hash host request) || not (r.principal_id == scope.principal_id)

never_fresh :
    {T : Type 0} (b : Bool) (response : Json) (s t : Database) (a : T)
    → branch b (throw idempotency_conflict) (return (replayed response)) s ≡ (ok (fresh a), t)
    → ⊥
unfolding commands
never_fresh true response s t a h = cc (ap (λ y. y.0) h)
never_fresh false response s t a h = cc (ap (λ y. y.0) h)

fresh_injective : {T : Type 0} (b a : T) → fresh b ≡ fresh a → b ≡ a
fresh_injective b a h = cc

module _ (host : Host) (uuid : String) (scope : Scope) (operation key : String) (request : Json)
    {T : Type 0} (to_json : T → Json) (action : Command T) where
  reservation_found :
      (s : Database) (r : IdempotencyRecord)
      → host.client.find_first (is_record scope operation key) s.idempotency_records ≡ some r
      → reservation host uuid scope operation key request to_json action s
        ≡ settle host uuid scope operation key request to_json action (some r) s
  unfolding commands find_first
  reservation_found s r e = rw e

  -- A call that finds a record of its key answers by it: with the stored response where principal
  -- and request are the same, with a conflict where not. It changes nothing.
  pub execute_found :
      (s : Database) (r : IdempotencyRecord)
      → is_bad_key key ≡ false
      → host.client.find_first (is_record scope operation key) s.idempotency_records ≡ some r
      → execute_idempotent host uuid scope operation key request to_json action s
        ≡ elim (is_other host scope request r) [
          | true ↦ (err idempotency_conflict, s)
          | false ↦ (ok (replayed r.response), s)
        ]
  unfolding execute_idempotent commands settle
  execute_found s r good e = elim (Bool-cases (is_other host scope request r)) [
    | inl other ↦
        rw (good, execute_idempotent)
          (rw other (
            transaction_rollback host.client _ s s idempotency_conflict
              (reservation_found s r e ∙ rw other)))
    | inr same ↦
        rw (good, execute_idempotent)
          (rw same (
            transaction_commit host.client _ s s (replayed r.response)
              (reservation_found s r e ∙ rw same)))
  ]

  record_row : T → IdempotencyRecord
  record_row a = idempotency_record host uuid scope operation key request (to_json a)

  -- What a first call has done: the key was good and free, the action ran, and its record was added.
  record Happened (s t : Database) (a : T) : Type 0 where
    good : is_bad_key key ≡ false
    free : host.client.find_first (is_record scope operation key) s.idempotency_records ≡ none
    ran :
        (u : Database) × (action s ≡ (ok a, u))
        × (t.idempotency_records ≡ u.idempotency_records ++ record_row a ∷ [])

  settle_fresh :
      (o : Option IdempotencyRecord) (s t : Database) (a : T)
      → settle host uuid scope operation key request to_json action o s ≡ (ok (fresh a), t)
      → (o ≡ none)
        × (u : Database) × (action s ≡ (ok a, u))
        × (t.idempotency_records ≡ u.idempotency_records ++ record_row a ∷ [])
  unfolding settle record_row
  settle_fresh (some r) s t a h = absurd (never_fresh _ r.response s t a h)
  settle_fresh none s t a h =
      let (b, u, ran, after) = >>=_inv action _ (fresh a) s t h in
      let (n, v, stored, ended) = >>=_inv _ _ (fresh a) u t after in
      let (free, row, put) = create_inv host.client idempotency_records _ _ n u v stored in
      let (same, last) = return_inv (fresh b) (fresh a) v t ended in
      let same' : b ≡ a = fresh_injective b a same in
      (
        refl,
        u,
        subst (λ c. action s ≡ (ok c, u)) same' ran,
        subst (λ c. t.idempotency_records ≡ u.idempotency_records ++ record_row c ∷ []) same'
            (ap (λ (d : Database). d.idempotency_records) (sym last ∙ put)),
      )

  execute_fresh :
      (s t : Database) (a : T)
      → execute_idempotent host uuid scope operation key request to_json action s
        ≡ (ok (fresh a), t)
      → Happened s t a
  unfolding execute_idempotent
  execute_fresh s t a h =
      let (good, inside) = throw_if_inv _ _ _ (fresh a) s t h in
      let body = transaction_inv host.client _ s t (fresh a) inside in
      let (o, u, found, settled) = >>=_inv _ _ (fresh a) s t body in
      let looked = sym (find_first_lem host.client idempotency_records _ s) ∙ found in
      let at_s : s ≡ u = ap (λ y. y.1) looked in
      let (free, v, ran, added) = settle_fresh o s t a (
        subst
          (λ d. settle host uuid scope operation key request to_json action o d ≡ (ok (fresh a), t))
          (sym at_s) settled) in
      record {
        good = good;
        free = found_option _ o (ap (λ y. y.0) looked) ∙ free;
        ran = (v, ran, added);
      }
    where
      found_option : (x y : Option IdempotencyRecord) → ok x ≡ ok y → x ≡ y
      found_option x y e = cc

-- The record that a search by the key finds, where no other one fits.
found_only :
    (host : Host) (p : IdempotencyRecord → Bool) (rows : List IdempotencyRecord)
    (row : IdempotencyRecord)
    → Memᴰ row rows
    → p row ≡ true
    → ((r : IdempotencyRecord) → Memᴰ r rows → p r ≡ true → r ≡ row)
    → host.client.find_first p rows ≡ some row
found_only host p rows row there fits only = elim (Option-cases (host.client.find_first p rows)) [
  | inl missed ↦ absurd (
      clash row fits
        (All-mem (λ r. p r ≡ false) rows (host.client.find_first_none p rows missed) there))
  | inr (r, e) ↦ let (m, hit) = host.client.find_first_some p rows r e in e ∙ ap some (only r m hit)
]
  where
    clash : (r : IdempotencyRecord) → p r ≡ true → p r ≡ false → ⊥
    clash r h k = cc

-- Records of which none fits.
abbrev pub FitNone : (IdempotencyRecord → Bool) → List IdempotencyRecord → Type 0
FitNone p rows = (r : IdempotencyRecord) → Memᴰ r rows → p r ≡ false

found_between :
    (host : Host) (p : IdempotencyRecord → Bool) (rows more : List IdempotencyRecord)
    (row : IdempotencyRecord)
    → host.client.find_first p rows ≡ none
    → p row ≡ true
    → FitNone p more
    → host.client.find_first p ((rows ++ row ∷ []) ++ more) ≡ some row
found_between host p rows more row free fits others =
    found_only host p _ row (Mem.append_left more (Mem.append_right rows (Memᴰ.head refl))) fits
      (λ r m hit. go r hit (Mem.append_cases (rows ++ row ∷ []) m))
  where
    clash : (r : IdempotencyRecord) → p r ≡ true → p r ≡ false → ⊥
    clash r h k = cc

    last : (r : IdempotencyRecord) → p r ≡ true → Memᴰ r rows ⊎ Memᴰ r (row ∷ []) → r ≡ row
    last r hit (inl m) =
        absurd (
          clash r hit (All-mem (λ x. p x ≡ false) rows (host.client.find_first_none p rows free) m))
    last r hit (inr (Memᴰ.head q)) = q
    last r hit (inr (Memᴰ.tail m)) = elim m [ ]

    go : (r : IdempotencyRecord) → p r ≡ true → Memᴰ r (rows ++ row ∷ []) ⊎ Memᴰ r more → r ≡ row
    go r hit (inl m) = last r hit (Mem.append_cases rows m)
    go r hit (inr m) = absurd (clash r hit (others r m))

-- Once a call under a key has run its action, which leaves the idempotency records alone: on any
-- database that still has its record, and besides those of then only records of other keys, a call of
-- the same operation under that key in the workspace runs no action and changes nothing. It returns the
-- stored result where the request's hash and the principal are the same, and a conflict where not.
pub execute_idempotent_once :
    (host : Host) (uuid uuid' : String) (scope : Scope) (principal_id operation key : String)
    (request request' : Json) {T : Type 0} (to_json to_json' : T → Json)
    (action action' : Command T) (s t v : Database) (more : List IdempotencyRecord) (a : T)
    → LeavesRecords action
    → execute_idempotent host uuid scope operation key request to_json action s ≡ (ok (fresh a), t)
    → v.idempotency_records ≡ t.idempotency_records ++ more
    → FitNone (is_record scope operation key) more
    → execute_idempotent host uuid'
        (record scope { principal_id = principal_id })
        operation
        key
        request'
        to_json'
        action'
        v
      ≡ (if request_hash host request == request_hash host request'
            && scope.principal_id == principal_id
          then (ok (replayed (to_json a)), v)
          else (err idempotency_conflict, v))
unfolding record_row
execute_idempotent_once host uuid uuid' scope principal_id operation key request request' to_json
      to_json' action action' s t v more a leaves first later others =
    let happened = execute_fresh host uuid scope operation key request to_json action s t a first in
    let row = record_row host uuid scope operation key request to_json action a in
    let p : IdempotencyRecord → Bool = is_record scope operation key in
    let (u, ran, added) = happened.ran in
    let kept : u.idempotency_records ≡ s.idempotency_records =
      subst (λ d. d.1.idempotency_records ≡ s.idempotency_records) ran (leaves s) in
    let found : host.client.find_first p v.idempotency_records ≡ some row =
      rw (later, added, kept)
        (found_between host p s.idempotency_records more row happened.free
          (rw (eq_refl scope.workspace_id, eq_refl operation, eq_refl key)) others) in
    execute_found host uuid' (record scope { principal_id = principal_id }) operation key request'
      to_json' action' v row happened.good found
    ∙ ground arith
