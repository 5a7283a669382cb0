-- ===== src/Relay/Marks.antt =====
-- Marking a row settles the rows of its id, and unsettles none.
use vkit_orbit.Base.{
  ℕ, String, Bool, true, false, not, ◌&&◌, ◌≡◌, refl, ap, ◌∙◌, some, List, [], ◌∷◌, Memᴰ, All-mem,
  inl, inr, eq_iff, arith, ◌==◌, Option-cases, Bool-cases,
}
use vkit_orbit.Store.Schema.{Database, OutboxStatus, published, failed, QueueOutbox}
use vkit_orbit.Store.Client.{Client, Result, ok, err, Error}
use vkit_orbit.Store.Rows.{update_if}
use vkit_orbit.Store.Command.{Command, continue, ◌>>=◌, return, outbox, commands, find_many}
use vkit_orbit.Store.Calls.{update_some}
use vkit_orbit.Store.Counting.{FitsNone}
use vkit_orbit.Outbox.{mark_outbox_published, mark_outbox_failed}
use vkit_orbit.Documents.{lift}
use vkit_orbit.Relay.{mark}

-- PUBLISHED or FAILED.
abbrev is_final : OutboxStatus → Bool
is_final published = true
is_final failed = true
is_final _ = false

abbrev is_unsettled : String → QueueOutbox → Bool
is_unsettled id r = r.id == id && not (is_final r.status)

-- Every row of the id is PUBLISHED or FAILED.
abbrev pub IsSettled : String → Database → Type 0
IsSettled id s = FitsNone (is_unsettled id) s.outbox

abbrev pub HasId : String → Database → Type 0
HasId id s = (r : QueueOutbox) × Memᴰ r s.outbox × (r.id ≡ id)

module _ (p : QueueOutbox → Bool) (q : QueueOutbox → Bool) (f : QueueOutbox → QueueOutbox)
    (closes : (r : QueueOutbox) → q (f r) ≡ false) where
  -- An update to rows that do not fit.
  FitsNone-kept : (rows : List QueueOutbox) → FitsNone q rows → FitsNone q (update_if p f rows)
  FitsNone-kept [] h n m = elim m [ ]
  FitsNone-kept (r ∷ rows) h n (Memᴰ.head e) = elim (Bool-cases (p r)) [
    | inl b ↦ rw (rw b at e) (closes r)
    | inr b ↦ rw (rw b at e) (h r (Memᴰ.head refl))
  ]
  FitsNone-kept (r ∷ rows) h n (Memᴰ.tail m) = FitsNone-kept rows (λ x k. h x (Memᴰ.tail k)) n m

  -- An update of all rows that fit.
  FitsNone-made :
      (rows : List QueueOutbox)
      → ((r : QueueOutbox) → p r ≡ false → q r ≡ false)
      → FitsNone q (update_if p f rows)
  FitsNone-made [] h n m = elim m [ ]
  FitsNone-made (r ∷ rows) h n (Memᴰ.head e) = elim (Bool-cases (p r)) [
    | inl b ↦ rw (rw b at e) (closes r)
    | inr b ↦ rw (rw b at e) (h r b)
  ]
  FitsNone-made (r ∷ rows) h n (Memᴰ.tail m) = FitsNone-made rows h n m

-- What marking a row does to the rows of its id, and to others.
abbrev pub Settles : String → Database → Result QueueOutbox × Database → Type 0
Settles id s result =
    ((r : QueueOutbox) × (result.0 ≡ ok r))
    × IsSettled id result.1
    × ((other : String) → IsSettled other s → IsSettled other result.1)

final_closes :
    (id : String) (f : QueueOutbox → QueueOutbox)
    → ((r : QueueOutbox) → is_final (f r).status ≡ true)
    → (r : QueueOutbox) → is_unsettled id (f r) ≡ false
final_closes id f h r = let e = h r in ground arith

module _ (client : Client) (now : ℕ) where
  found :
      (id : String) (s : Database)
      → HasId id s
      → (r : QueueOutbox) × (client.find_first (λ x. x.id == id) s.outbox ≡ some r)
  found id s (r, m, e) = elim (Option-cases (client.find_first (λ x. x.id == id) s.outbox)) [
    | inr some_ ↦ some_
    | inl none_ ↦
        let clash =
          All-mem (λ x. (x.id == id) ≡ false) s.outbox
            (client.find_first_none (λ x. x.id == id) s.outbox none_) m in
        absurd (cc (clash, (eq_iff r.id id).1 e))
  ]

  update-Settles :
      (id : String) (f : QueueOutbox → QueueOutbox) (s : Database)
      → HasId id s
      → ((r : QueueOutbox) → is_final (f r).status ≡ true)
      → Settles id s (vkit_orbit.Store.Command.update client outbox (λ x. x.id == id) f s)
  update-Settles id f s has final =
      let (r, e) = found id s has in
      rw (update_some client outbox (λ x. x.id == id) f s r e) (
        (f r, refl),
        FitsNone-made _ (is_unsettled id) f (final_closes id f final) s.outbox
            (λ x b. ground arith),
        λ other h. FitsNone-kept _ (is_unsettled other) f (final_closes other f final) s.outbox h,
      )

  mark_outbox_failed-Settles :
      (id : String) (s : Database) → HasId id s → Settles id s (mark_outbox_failed client now id s)
  unfolding mark_outbox_failed
  mark_outbox_failed-Settles id s has = update-Settles id _ s has (λ r. refl)

  mark_outbox_published-Settles :
      (id : String) (s : Database)
      → HasId id s
      → Settles id s (mark_outbox_published client now id s)
  unfolding mark_outbox_published
  mark_outbox_published-Settles id s has = update-Settles id _ s has (λ r. refl)

  caught-same :
      (s : Database) (result : Result QueueOutbox × Database)
      (handler : Error → vkit_orbit.Store.Command.Command QueueOutbox) (id : String)
      → Settles id s result
      → Settles id s (vkit_orbit.Worker.Handlers.caught result handler)
  caught-same s (ok a, t) handler id h = h
  caught-same s (err e, t) handler id ((r, h), _, _) = absurd (cc h)

  pub mark-Settles :
      (row : QueueOutbox) (sent after : Result (Unit {0})) (s : Database)
      → HasId row.id s
      → Settles row.id s (mark client now row sent after s)
  unfolding mark lift commands
  mark-Settles row (ok u) (ok v) s has =
      caught-same s _ _ row.id (mark_outbox_published-Settles row.id s has)
  mark-Settles row (ok u) (err e) s has = mark_outbox_failed-Settles row.id s has
  mark-Settles row (err e) after s has = mark_outbox_failed-Settles row.id s has

pub >>=_ok :
    {A B : Type 0} (m : Command A) (f : A → Command B) (a : A) (s t : Database)
    (r : Result B × Database)
    → m s ≡ (ok a, t)
    → f a t ≡ r
    → (m >>= f) s ≡ r
unfolding ◌>>=◌
>>=_ok m f a s t r e h = ap (λ x. continue x f) e ∙ h
