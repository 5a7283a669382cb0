-- ===== src/Relay/Rows.antt =====
-- The rows of the outbox through a run of the relay, by the rows that it may send.
use vkit_orbit.Base.{
  ℕ, String, Bool, true, false, ◌≡◌, ◌⊎◌, refl, sym, ◌∙◌, subst, List, [], ◌∷◌, All, inl, inr,
  eq_iff, length,
}
use vkit_orbit.Store.Schema.{Database, QueueOutbox}
use vkit_orbit.Store.Client.{Client, Result, ok, err, Error}
use vkit_orbit.Store.Rows.{update_if}
use vkit_orbit.Store.Command.{Command, outbox, commands}
use vkit_orbit.Store.Evolution.{Evolves, Evolves-refl, Evolves-trans, Evolves-update_if}
use vkit_orbit.Store.Rules.{
  Preorder, Steps, Steps-return, Steps-throw, Steps->>=, Steps-update, Steps-update_many,
  Steps-find_many,
}
use vkit_orbit.Documents.{lift}
use vkit_orbit.Worker.Handlers.{try, caught}
use vkit_orbit.Outbox.{
  claim_row, claim_rows, claim_outbox_batch, mark_outbox_published, mark_outbox_failed,
}
use vkit_orbit.Relay.{
  Queues, next, send, mark, relay_row, relay_rows, relay_claimed, run_outbox_relay,
}
use vkit_orbit.Relay.Sent.{job, is_published, Ran, IsSent, send-Ran, send-IsSent}

-- `From` says which rows the relay may send, and `begun` is the queues' state at its start.
module _ {Q : Type 0} (queues : Queues Q) (trim : String → String) (From : QueueOutbox → Type 0)
    (begun : Q) where
  -- The job of a row of this id has been sent.
  abbrev pub Sent : String → Type 0
  Sent id = (o : QueueOutbox) × From o × (o.id ≡ id) × IsSent queues trim begun (job o)

  -- What may become of a row of the outbox.
  abbrev pub Delivered : QueueOutbox → QueueOutbox → Type 0
  Delivered r n =
      (n.id ≡ r.id)
      × (job n ≡ job r)
      × ((is_published n.status ≡ false) ⊎ ((n.status ≡ r.status) ⊎ Sent r.id))

  Delivered-refl : (r : QueueOutbox) → Delivered r r
  Delivered-refl r = (refl, refl, inr (inl refl))

  Delivered-trans : (a b c : QueueOutbox) → Delivered a b → Delivered b c → Delivered a c
  Delivered-trans a b c (i, u, h) (j, v, inl e) = (j ∙ i, v ∙ u, inl e)
  Delivered-trans a b c (i, u, h) (j, v, inr (inr w)) = (j ∙ i, v ∙ u, inr (inr (subst Sent i w)))
  Delivered-trans a b c (i, u, inl e) (j, v, inr (inl same)) =
      (j ∙ i, v ∙ u, inl (subst (λ x. is_published x ≡ false) (sym same) e))
  Delivered-trans a b c (i, u, inr (inl e)) (j, v, inr (inl same)) =
      (j ∙ i, v ∙ u, inr (inl (same ∙ e)))
  Delivered-trans a b c (i, u, inr (inr w)) (j, v, inr (inl same)) = (j ∙ i, v ∙ u, inr (inr w))

  -- No row is added or removed.
  abbrev pub AreDelivered : List QueueOutbox → List QueueOutbox → Type 0
  AreDelivered = Evolves Delivered (λ _. ⊥)

  order : Preorder
  order = record {
    Rel = λ s t. AreDelivered s.outbox t.outbox;
    rel_refl = λ s. Evolves-refl Delivered (λ _. ⊥) Delivered-refl s.outbox;
    rel_trans = λ s t u.
        Evolves-trans Delivered (λ _. ⊥) Delivered-trans (λ a b h _. elim h [ ]) s.outbox t.outbox
          u.outbox;
  }

  Steps-lift : {A : Type 0} (r : Result A) → Steps order (lift r)
  unfolding lift
  Steps-lift (ok a) = Steps-return order a
  Steps-lift (err e) = Steps-throw order e

  caught-Rel :
      {A : Type 0} (s : Database) (r : Result A × Database) (handler : Error → Command A)
      → order.Rel s r.1
      → ((e : Error) → Steps order (handler e))
      → order.Rel s (caught r handler).1
  caught-Rel s (ok a, t) handler h k = h
  caught-Rel s (err e, t) handler h k = order.rel_trans s t _ h ((k e).at t)

  Steps-try :
      {A : Type 0} (body : Command A) (handler : Error → Command A)
      → Steps order body
      → ((e : Error) → Steps order (handler e))
      → Steps order (try body handler)
  Steps-try body handler h k = record { at = λ s. caught-Rel s (body s) handler (h.at s) k }

  -- An update of rows by the steps above.
  Rel-update :
      (p : QueueOutbox → Bool) (f : QueueOutbox → QueueOutbox) (s : Database)
      → ((r : QueueOutbox) → p r ≡ true → Delivered r (f r))
      → order.Rel s (record s { outbox = update_if p f s.outbox })
  unfolding order
  Rel-update p f s h =
      Evolves-update_if Delivered (λ _. ⊥) Delivered-refl p f s.outbox (λ r _ e. h r e)

  module _ (client : Client) where
    mark_outbox_failed-Steps :
        (now : ℕ) (id : String) → Steps order (mark_outbox_failed client now id)
    unfolding mark_outbox_failed
    mark_outbox_failed-Steps now id =
        Steps-update order client outbox _ _ (λ s. Rel-update _ _ s (λ r _. (refl, refl, inl refl)))

    mark_outbox_published-Steps :
        (now : ℕ) (id : String) → Sent id → Steps order (mark_outbox_published client now id)
    unfolding mark_outbox_published
    mark_outbox_published-Steps now id sent = Steps-update order client outbox _ _ (λ s.
        Rel-update _ _ s
          (λ r e. (refl, refl, inr (inr (subst Sent (sym ((eq_iff r.id id).0 e)) sent)))))

    mark-Steps :
        (now : ℕ) (row : QueueOutbox) (sent after : Result (Unit {0}))
        → (sent ≡ ok tt → Sent row.id)
        → Steps order (mark client now row sent after)
    unfolding mark lift commands
    mark-Steps now row (ok _) after h =
        Steps-try _ _
          (Steps->>= order _ _ (Steps-lift (ok tt)) (λ _.
            Steps->>= order _ _ (Steps-lift after)
              (λ _. mark_outbox_published-Steps now row.id (h refl))))
          (λ _. mark_outbox_failed-Steps now row.id)
    mark-Steps now row (err e) after h = record {
      at = λ s. (mark_outbox_failed-Steps now row.id).at s;
    }

    claim_row-Steps : (now : ℕ) (row : QueueOutbox) → Steps order (claim_row client now row)
    unfolding claim_row
    claim_row-Steps now row =
        Steps-update_many order client outbox _ _
          (λ s. Rel-update _ _ s (λ r _. (refl, refl, inl refl)))

    claim_rows-Steps :
        (now : ℕ) (rows : List QueueOutbox) → Steps order (claim_rows client now rows)
    unfolding claim_rows
    claim_rows-Steps now [] = Steps-return order []
    claim_rows-Steps now (row ∷ rows) =
        Steps->>= order _ _ (claim_row-Steps now row)
          (λ count. Steps->>= order _ _ (claim_rows-Steps now rows) (λ later. Steps-return order _))

    claim_outbox_batch-Steps : (now limit : ℕ) → Steps order (claim_outbox_batch client now limit)
    unfolding claim_outbox_batch
    claim_outbox_batch-Steps now limit =
        Steps->>= order _ _
          (Steps-update_many order client outbox _ _
            (λ s. Rel-update _ _ s (λ r _. (refl, refl, inl refl))))
          (λ _.
            Steps->>= order _ _ (Steps-find_many order client outbox _ _ _) (claim_rows-Steps now))

    pub claim_row-AreDelivered :
        (now : ℕ) (row : QueueOutbox) (s : Database)
        → AreDelivered s.outbox (claim_row client now row s).1.outbox
    unfolding order
    claim_row-AreDelivered now row s = (claim_row-Steps now row).at s

    module _ (now : String → ℕ) (after : Result (Unit {0})) where
      relay_row-Rel :
          (row : QueueOutbox) (s : Database) (q : Q)
          → From row
          → Ran queues trim begun q
          → order.Rel s (relay_row queues trim client now after row s q).1.0
      unfolding relay_row
      relay_row-Rel row s q known ran = case (send queues trim row q) refl
        where
          case :
              (sent : Result (Unit {0}) × Q)
              → send queues trim row q ≡ sent
              → order.Rel s (mark client (now row.id) row sent.0 after s).1
          case (ok u, p) e =
              (mark-Steps (now row.id) row (ok u) after
                  (λ _. (row, known, refl, send-IsSent queues trim begun row q p ran e))).at
                s
          case (err x, p) e = (mark-Steps (now row.id) row (err x) after (λ h. absurd (cc h))).at s

      pub relay_row-AreDelivered :
          (row : QueueOutbox) (s : Database) (q : Q)
          → From row
          → Ran queues trim begun q
          → AreDelivered s.outbox (relay_row queues trim client now after row s q).1.0.outbox
      unfolding order
      relay_row-AreDelivered = relay_row-Rel

      relay_row-Ran :
          (row : QueueOutbox) (s : Database) (q : Q)
          → Ran queues trim begun q
          → Ran queues trim begun (relay_row queues trim client now after row s q).1.1
      unfolding relay_row
      relay_row-Ran row s q ran = send-Ran queues trim begun row q ran

      next-Rel :
          {A B : Type 0} (s : Database) (r : Result A × (Database × Q))
          (f : A → Database × Q → Result B × (Database × Q))
          → order.Rel s r.1.0
          → Ran queues trim begun r.1.1
          → ((a : A) (t : Database × Q) → Ran queues trim begun t.1 → order.Rel t.0 (f a t).1.0)
          → order.Rel s (next r f).1.0
      unfolding next
      next-Rel s (ok a, t) f h ran k = order.rel_trans s t.0 _ h (k a t ran)
      next-Rel s (err e, t) f h ran k = h

      relay_rows-Rel :
          (rows : List QueueOutbox) (s : Database) (q : Q)
          → All From rows
          → Ran queues trim begun q
          → order.Rel s (relay_rows queues trim client now after rows (s, q)).1.0
      unfolding relay_rows
      relay_rows-Rel [] s q known ran = order.rel_refl s
      relay_rows-Rel (row ∷ rows) s q (here, known) ran =
          next-Rel s _ _ (relay_row-Rel row s q here ran) (relay_row-Ran row s q ran)
            (λ _ t r. relay_rows-Rel rows t.0 t.1 known r)

      relay_claimed-AreDelivered :
          (s : Database) (r : Result (List QueueOutbox) × Database) (q : Q)
          → order.Rel s r.1
          → Ran queues trim begun q
          → ((rows : List QueueOutbox) (t : Database) → r ≡ (ok rows, t) → All From rows)
          → order.Rel s (relay_claimed queues trim client now after r q).1.0
      unfolding next
      relay_claimed-AreDelivered s (ok rows, t) q h ran known = order.rel_trans s t _ h (
          kept (relay_rows queues trim client now after rows (t, q))
            (relay_rows-Rel rows t q (known rows t refl) ran))
        where
          kept :
              (r : Result (Unit {0}) × (Database × Q))
              → order.Rel t r.1.0
              → order.Rel t (next r (λ _ st. (ok (length rows), st))).1.0
          kept (ok u, v) k = k
          kept (err e, v) k = k
      relay_claimed-AreDelivered s (err e, t) q h ran known = h

      pub run-AreDelivered :
          (claimed_at limit : ℕ) (s : Database) (q : Q)
          → Ran queues trim begun q
          → ((rows : List QueueOutbox) (t : Database)
              → claim_outbox_batch client claimed_at limit s ≡ (ok rows, t)
              → All From rows)
          → AreDelivered s.outbox
              (run_outbox_relay queues trim client now after claimed_at limit (s, q)).1.0.outbox
      unfolding run_outbox_relay order
      run-AreDelivered claimed_at limit s q ran known =
          relay_claimed-AreDelivered s _ q ((claim_outbox_batch-Steps claimed_at limit).at s) ran
            known
