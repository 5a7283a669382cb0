-- ===== src/Relay/Delivery.antt =====
-- A row is marked as published only after the queue has taken its job.
use vkit_orbit.Base.{
  ℕ, String, Bool, true, false, ◌≡◌, ◌⊎◌, refl, sym, ◌∙◌, subst, Option, none, some, List, [], ◌∷◌,
  Memᴰ, All, eqb, inl, inr, eq_iff, arith, ◌==◌, length, if◌then◌else◌,
}
use vkit_orbit.Store.Schema.{Database, QueueOutbox}
use vkit_orbit.Store.Client.{Client, Result}
use vkit_orbit.Store.Evolution.{Evolves, HasUniqueIds}
use vkit_orbit.Relay.{Queues, run_outbox_relay}
use vkit_orbit.Relay.Sent.{job, is_published, start, IsSent}
use vkit_orbit.Relay.Rows.{Sent, AreDelivered, run-AreDelivered}
use vkit_orbit.Relay.Claimed.{IsFrom, claim_outbox_batch-IsFrom}

module _ {Q : Type 0} (queues : Queues Q) (trim : String → String) where
  -- What a run of the relay may make of a row: the row keeps its id and its job, and it is PUBLISHED only
  -- if it was so before, or if a queue has taken this row's job.
  abbrev pub IsDelivered : Q → QueueOutbox → QueueOutbox → Type 0
  IsDelivered begun r n =
      (n.id ≡ r.id)
      × (job n ≡ job r)
      × ((is_published n.status ≡ false)
          ⊎ ((n.status ≡ r.status) ⊎ IsSent queues trim begun (job r)))

  own :
      (begun : Q) (table : List QueueOutbox)
      → HasUniqueIds (λ (r : QueueOutbox). r.id) table
      → (rows new : List QueueOutbox) → ((r : QueueOutbox) → Memᴰ r rows → Memᴰ r table)
      → AreDelivered queues trim (IsFrom table) begun rows new
      → Evolves (IsDelivered begun) (λ _. ⊥) rows new
  own begun table unique [] new inside h = h
  own begun table unique (r ∷ rows) [] inside h = h
  own begun table unique (r ∷ rows) (n ∷ new) inside ((id, same, went), h) =
      ((id, same, which went), own begun table unique rows new (λ x m. inside x (Memᴰ.tail m)) h)
    where
      which :
          (is_published n.status ≡ false)
            ⊎ ((n.status ≡ r.status) ⊎ Sent queues trim (IsFrom table) begun r.id)
          → (is_published n.status ≡ false)
            ⊎ ((n.status ≡ r.status) ⊎ IsSent queues trim begun (job r))
      which (inl e) = inl e
      which (inr (inl e)) = inr (inl e)
      which (inr (inr (o, (first_, there, id_, job_), at_r, sent))) =
          let mine : first_ ≡ r =
            unique first_ r there (inside r (Memᴰ.head refl)) (sym id_ ∙ at_r) in
          inr (inr (subst (IsSent queues trim begun) (job_ ∙ vkit_orbit.Base.ap job mine) sent))

  -- Where no two rows of the outbox have one id: a run of the relay, whether it returns or throws, and
  -- whatever the queues answer, keeps the rows with their ids, contracts, business ids, revisions and
  -- payloads. A row is PUBLISHED in the end only if it was so before, or if a queue has taken this row's
  -- job: in a state that the queues' calls have led to from the one at the start, the call of `add` has
  -- returned, on the queue of the row's contract, under the id that `createJobId` makes of the row's
  -- contract, business id and revision, with the row's payload as the contract's schema parses it.
  pub run_outbox_relay-AreDelivered :
      (client : Client) (now : String → ℕ) (after : Result (Unit {0})) (claimed_at limit : ℕ)
      (s : Database) (q : Q)
      → HasUniqueIds (λ (r : QueueOutbox). r.id) s.outbox
      → Evolves
          (IsDelivered q)
          (λ _. ⊥)
          s.outbox
          (run_outbox_relay queues trim client now after claimed_at limit (s, q)).1.0.outbox
  run_outbox_relay-AreDelivered client now after claimed_at limit s q unique =
      own q s.outbox unique s.outbox _ (λ r m. m)
        (run-AreDelivered queues trim (IsFrom s.outbox) q client now after claimed_at limit s q
          start (λ rows t e. claim_outbox_batch-IsFrom client claimed_at limit s t rows e))
