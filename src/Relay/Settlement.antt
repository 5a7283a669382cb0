-- ===== src/Relay/Settlement.antt =====
-- The relay returns, and leaves no row that it has claimed open.
use vkit_orbit.Base.{
  ℕ, String, Bool, true, false, ◌≡◌, refl, sym, ap, ◌∙◌, List, [], ◌∷◌, Memᴰ, All, eqb, length,
  if◌then◌else◌,
}
use vkit_orbit.Store.Schema.{Database, claimed, QueueOutbox}
use vkit_orbit.Store.Client.{Client, Result, ok, err, Error, asc}
use vkit_orbit.Store.Rows.{update_if, count_if}
use vkit_orbit.Store.Command.{return, outbox, find_many}
use vkit_orbit.Store.Calls.{update_many_lem}
use vkit_orbit.Store.Evolution.{Evolves-mem}
use vkit_orbit.Outbox.{
  claim_row, claim_rows, claim_outbox_batch, is_available, is_unchanged, claim, is_stale, release,
}
use vkit_orbit.Relay.{Queues, next, send, relay_row, relay_rows, relay_claimed, run_outbox_relay}
use vkit_orbit.Relay.Sent.{start}
use vkit_orbit.Relay.Rows.{Delivered, AreDelivered, relay_row-AreDelivered, claim_row-AreDelivered}
use vkit_orbit.Relay.Marks.{IsSettled, HasId, Settles, mark-Settles, >>=_ok}

module _ {Q : Type 0} (queues : Queues Q) (trim : String → String) (client : Client) where
  HasId-kept :
      (begun : Q) (id : String) (s t : Database)
      → AreDelivered queues trim (λ _. Unit {0}) begun s.outbox t.outbox
      → HasId id s
      → HasId id t
  HasId-kept begun id s t h (r, m, e) =
      let (n, k, (same, _, _)) =
        Evolves-mem (Delivered queues trim (λ _. Unit {0}) begun) (λ _. ⊥) s.outbox t.outbox r h
          m in
      (n, k, same ∙ e)

  abbrev HaveIds : List QueueOutbox → Database → Type 0
  HaveIds rows s = All (λ row. HasId row.id s) rows

  HaveIds-kept :
      (begun : Q) (rows : List QueueOutbox) (s t : Database)
      → AreDelivered queues trim (λ _. Unit {0}) begun s.outbox t.outbox
      → HaveIds rows s
      → HaveIds rows t
  HaveIds-kept begun [] s t h k = tt
  HaveIds-kept begun (row ∷ rows) s t h (a, k) =
      (HasId-kept begun row.id s t h a, HaveIds-kept begun rows s t h k)

  claim_row-returns :
      (now : ℕ) (row : QueueOutbox) (s : Database)
      → (n : ℕ) × (claim_row client now row s ≡ (ok n, (claim_row client now row s).1))
  unfolding claim_row
  claim_row-returns now row s =
      let e = update_many_lem client outbox (is_unchanged row) (claim now) s in
      let n = count_if (is_unchanged row) s.outbox in
      (n, e ∙ ap (λ t. (ok n, t)) (sym (ap (λ y. y.1) e)))

  HaveIds-if :
      (b : Bool) (row : QueueOutbox) (taken : List QueueOutbox) (t : Database)
      → HasId row.id t
      → HaveIds taken t
      → HaveIds (if b then taken else record row { status = claimed } ∷ taken) t
  HaveIds-if true row taken t a h = h
  HaveIds-if false row taken t a h = (a, h)

  -- The claims return, with rows that are in the table.
  claim_rows-HaveIds :
      (begun : Q) (now : ℕ) (rows : List QueueOutbox) (s : Database)
      → HaveIds rows s
      → (taken : List QueueOutbox) × (t : Database) × (claim_rows client now rows s ≡ (ok taken, t))
        × HaveIds taken t
        × ((id : String) → HasId id s → HasId id t)
  unfolding claim_rows return
  claim_rows-HaveIds begun now [] s h = ([], s, refl, tt, λ id k. k)
  claim_rows-HaveIds begun now (row ∷ rows) s (a, h) =
      let (n, e) = claim_row-returns now row s in
      let u : Database = (claim_row client now row s).1 in
      let moved = claim_row-AreDelivered queues trim (λ _. Unit {0}) begun client now row s in
      let (taken, t, f, ids, kept) =
        claim_rows-HaveIds begun now rows u (HaveIds-kept begun rows s u moved h) in
      (
        _,
        t,
        >>=_ok _ _ n s u _ e (>>=_ok _ _ taken u t _ f refl),
        HaveIds-if (eqb n 0) row taken t (kept row.id (HasId-kept begun row.id s u moved a)) ids,
        λ id k. kept id (HasId-kept begun id s u moved k),
      )

  HaveIds-found :
      (rows : List QueueOutbox) (s : Database) (p : QueueOutbox → Bool)
      → All (λ r. Memᴰ r s.outbox × (p r ≡ true)) rows
      → HaveIds rows s
  HaveIds-found [] s p h = tt
  HaveIds-found (r ∷ rows) s p ((m, _), h) = ((r, m, refl), HaveIds-found rows s p h)

  claim_outbox_batch-HaveIds :
      (begun : Q) (now limit : ℕ) (s : Database)
      → (taken : List QueueOutbox) × (t : Database) × (claim_outbox_batch client now limit s
          ≡ (ok taken, t))
        × HaveIds taken t
  unfolding claim_outbox_batch find_many
  claim_outbox_batch-HaveIds begun now limit s =
      let rows : List QueueOutbox = update_if (is_stale now) release s.outbox in
      let u : Database = record s { outbox = rows } in
      let page =
        client.find_many (is_available now) (vkit_orbit.Store.Client.asc (λ r. r.created_at)) limit
          rows in
      let (taken, t, e, ids, _) = claim_rows-HaveIds begun now page u (
        HaveIds-found page u (is_available now)
          (client.find_many_sound (is_available now) _ limit rows)) in
      (
        taken,
        t,
        >>=_ok _ _ (count_if (is_stale now) s.outbox) s u _
            (update_many_lem client outbox (is_stale now) release s) (>>=_ok _ _ page u u _ refl e),
        ids,
      )

  module _ (now : String → ℕ) (after : Result (Unit {0})) where
    relay_row-Settles :
        (row : QueueOutbox) (s : Database) (q : Q)
        → HasId row.id s
        → let result = relay_row queues trim client now after row s q in
          Settles row.id s (result.0, result.1.0)
    unfolding relay_row
    relay_row-Settles row s q has =
        mark-Settles client (now row.id) row (send queues trim row q).0 after s has

    abbrev AreSettled : List QueueOutbox → Database → Type 0
    AreSettled rows t = All (λ row. IsSettled row.id t) rows

    relay_rows-AreSettled :
        (rows : List QueueOutbox) (s : Database) (q : Q)
        → HaveIds rows s
        → (t : Database) × (p : Q) × (relay_rows queues trim client now after rows (s, q)
            ≡ (ok tt, (t, p)))
          × AreSettled rows t
          × ((other : String) → IsSettled other s → IsSettled other t)
    unfolding relay_rows next
    relay_rows-AreSettled [] s q h = (s, q, refl, tt, λ other k. k)
    relay_rows-AreSettled (row ∷ rows) s q (a, h) =
        let result = relay_row queues trim client now after row s q in
        let ((r, returned), here, others) = relay_row-Settles row s q a in
        let (t, p, e, rest, later) = relay_rows-AreSettled rows result.1.0 result.1.1 (
          HaveIds-kept q rows s result.1.0
            (relay_row-AreDelivered queues trim (λ _. Unit {0}) q client now after row s q tt start)
            h) in
        (t, p, rw returned e, (later row.id here, rest), λ other k. later other (others other k))

    -- What a run of the relay comes to.
    pub record IsRelayed (claimed_at limit : ℕ) (s : Database) (q : Q) : Type 0 where
      pub rows : List QueueOutbox
      pub claimed_in : Database
      pub were_claimed : claim_outbox_batch client claimed_at limit s ≡ (ok rows, claimed_in)
      pub database : Database
      pub state : Q
      pub returned :
          run_outbox_relay queues trim client now after claimed_at limit (s, q)
          ≡ (ok (length rows), (database, state))
      pub settled : All (λ row. IsSettled row.id database) rows

    -- A run of the relay returns, whatever the queues answer and whatever the rows hold: it counts the
    -- rows that it has claimed, and every one of them is PUBLISHED or FAILED in the end.
    pub run_outbox_relay-IsRelayed :
        (claimed_at limit : ℕ) (s : Database) (q : Q) → IsRelayed claimed_at limit s q
    unfolding run_outbox_relay next
    run_outbox_relay-IsRelayed claimed_at limit s q =
        let (rows, u, e, ids) = claim_outbox_batch-HaveIds q claimed_at limit s in
        let (t, p, f, done, _) = relay_rows-AreSettled rows u q ids in
        record {
          rows = rows;
          claimed_in = u;
          were_claimed = e;
          database = t;
          state = p;
          returned =
              ap (λ r. relay_claimed queues trim client now after r q) e
              ∙ ap (λ r. next r (λ _ st. (ok (length rows), st))) f;
          settled = done;
        }
