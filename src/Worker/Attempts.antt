-- ===== src/Worker/Attempts.antt =====
-- The attempts at a delivery come to an end.
use vkit_orbit.Base.{
  ℕ, ◌≤◌, String, true, false, ◌&&◌, ◌≡◌, ◌⊎◌, inl, inr, sym, ap, ◌∙◌, subst, Option, none, Memᴰ,
  arith, leb, ◌==◌, eq_iff, Bool-cases,
}
use vkit_orbit.Host.{Host}
use vkit_orbit.Store.Schema.{Database, WebhookDelivery, DeliveryStatus}
use vkit_orbit.Store.Client.{ok}
use vkit_orbit.Store.Command.{◌>>=◌, return, deliveries}
use vkit_orbit.Store.Evolution.{origin}
use vkit_orbit.Store.Inversion.{>>=_inv, branch-return_inv, return_inv, update_inv}
use vkit_orbit.Webhooks.{
  Outcome, Response, attempted, status_after, classify_webhook_response, record_webhook_attempt,
}
use vkit_orbit.Worker.Handlers.{
  HandlerResult, DeliveryJob, delivery_outcome, response_of, settle_delivery,
  handle_webhook_deliver,
}

-- From the eighth attempt on there is no other.
last_outcome :
    (revision : ℕ) (classified : Outcome)
    → 8 ≤ revision
    → (delivery_outcome revision classified ≡ Outcome.success)
      ⊎ (delivery_outcome revision classified ≡ Outcome.terminal)
unfolding delivery_outcome
last_outcome revision Outcome.success h = elim (Bool-cases (leb 8 revision)) [
  | inl e ↦ inl (rw e)
  | inr e ↦ inl (rw e)
]
last_outcome revision Outcome.retryable h = inr (rw (late revision h))
  where
    late : (n : ℕ) → 8 ≤ n → leb 8 n ≡ true
    late n k = ground (arith, k)
last_outcome revision Outcome.terminal h = elim (Bool-cases (leb 8 revision)) [
  | inl e ↦ inr (rw e)
  | inr e ↦ inr (rw e)
]
last_outcome revision Outcome.unknown h = inr (rw (late revision h))
  where
    late : (n : ℕ) → 8 ≤ n → leb 8 n ≡ true
    late n k = ground (arith, k)

module _ (host : Host) (job : DeliveryJob) where
  recorded_status :
      (outcome : Outcome) (r : WebhookDelivery) (s t : Database) (n : WebhookDelivery)
      → record_webhook_attempt host.client job.workspace_id job.delivery_id outcome none s
        ≡ (ok r, t)
      → Memᴰ n t.deliveries
      → n.workspace_id ≡ job.workspace_id
      → n.id ≡ job.delivery_id
      → n.status ≡ status_after outcome
  unfolding record_webhook_attempt
  recorded_status outcome r s t n h m w i =
      let at_t = update_inv host.client deliveries _ _ r s t h in
      let (o, old, made) =
        origin (λ (x : WebhookDelivery). x.id)
          (λ (x : WebhookDelivery). x.workspace_id == job.workspace_id && x.id == job.delivery_id)
          (attempted outcome none) s.deliveries n
          (subst (λ (d : Database). Memᴰ n d.deliveries) at_t m) in
      elim (Bool-cases (o.workspace_id == job.workspace_id && o.id == job.delivery_id)) [
        | inl hit ↦ ap (λ (x : WebhookDelivery). x.status) (rw hit at made)
        | inr miss ↦
            let is_old : n ≡ o = rw miss at made in
            absurd (
              clash (sym (ap (λ (x : WebhookDelivery). x.workspace_id) is_old) ∙ w)
                (sym (ap (λ (x : WebhookDelivery). x.id) is_old) ∙ i) miss)
      ]
    where
      clash : {a b c d : String} → a ≡ b → c ≡ d → (a == b && c == d) ≡ false → ⊥
      clash {a} {b} {c} {d} p q e = ground (arith, e, (eq_iff a b).1 p, (eq_iff c d).1 q)

  settling_status :
      (outcome : Outcome) (answer r : HandlerResult) (s t : Database) (n : WebhookDelivery)
      → (record_webhook_attempt host.client job.workspace_id job.delivery_id outcome none >>= λ _.
            return answer)
          s
        ≡ (ok r, t)
      → Memᴰ n t.deliveries
      → n.workspace_id ≡ job.workspace_id
      → n.id ≡ job.delivery_id
      → n.status ≡ status_after outcome
  settling_status outcome answer r s t n h m w i =
      let (d, u, recorded, ends) = >>=_inv _ _ r s t h in
      let (_, last) = return_inv answer r u t ends in
      recorded_status outcome d s u n recorded
        (subst (λ (x : Database). Memᴰ n x.deliveries) (sym last) m) w i

  settled_status :
      (outcome : Outcome) (later : ℕ) (r : HandlerResult) (s t : Database) (n : WebhookDelivery)
      → (outcome ≡ Outcome.success) ⊎ (outcome ≡ Outcome.terminal)
      → settle_delivery host later job outcome s ≡ (ok r, t)
      → Memᴰ n t.deliveries
      → n.workspace_id ≡ job.workspace_id
      → n.id ≡ job.delivery_id
      → n.status ≡ status_after outcome
  settled_status Outcome.success later r s t n o h m w i =
      settling_status Outcome.success _ r s t n h m w i
  settled_status Outcome.terminal later r s t n o h m w i =
      settling_status Outcome.terminal _ r s t n h m w i
  settled_status Outcome.retryable later r s t n o h m w i =
      absurd (elim o [ inl e ↦ cc e | inr e ↦ cc e ])
  settled_status Outcome.unknown later r s t n o h m w i =
      absurd (elim o [ inl e ↦ cc e | inr e ↦ cc e ])

-- A delivery job of the eighth revision or a later one that is not passed over ends its delivery: once
-- the handler has returned, whatever the endpoint has answered, the delivery is SUCCEEDED or FAILED
-- and no longer PENDING.
pub handle_webhook_deliver-ends :
    (host : Host) (now later : ℕ) (deliver : String → Option Response) (job : DeliveryJob)
    (r : HandlerResult) (s t : Database) (n : WebhookDelivery)
    → 8 ≤ job.revision
    → handle_webhook_deliver host now later deliver job s ≡ (ok r, t)
    → (HandlerResult.no_op ≡ r → ⊥)
    → Memᴰ n t.deliveries
    → n.workspace_id ≡ job.workspace_id
    → n.id ≡ job.delivery_id
    → (n.status ≡ DeliveryStatus.succeeded) ⊎ (n.status ≡ DeliveryStatus.failed)
unfolding handle_webhook_deliver
handle_webhook_deliver-ends host now later deliver job r s t n late h done m w i =
    let (count, u, claimed, h₁) = >>=_inv _ _ r s t h in
    let (_, settled) = branch-return_inv _ _ _ r u t h₁ done in
    let classified = classify_webhook_response (response_of (deliver job.delivery_id)) in
    let outcome = delivery_outcome job.revision classified in
    let ends = last_outcome job.revision classified late in
    let status : n.status ≡ status_after outcome =
      settled_status host job outcome later r u t n ends settled m w i in
    elim ends [
      | inl e ↦ inl (status ∙ ap status_after e)
      | inr e ↦ inr (status ∙ ap status_after e)
    ]
