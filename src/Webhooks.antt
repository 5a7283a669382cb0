-- ===== src/Webhooks.antt =====
-- packages/application/src/webhooks: envelopes, deliveries and the record of their attempts.
use vkit_orbit.Base.{
  ℕ, ◌+◌, String, Bool, ◌&&◌, ◌||◌, Option, none, some, leb, ltb, eqb, ◌==◌, if◌then◌else◌,
}
use vkit_orbit.Host.{Host}
use vkit_orbit.Json.{Json, str, obj, end, field}
use vkit_orbit.Json.Print.{◌<>◌, stringify}
use vkit_orbit.Store.Schema.{WebhookDelivery, DeliveryStatus, pending, succeeded, failed}
use vkit_orbit.Store.Client.{Client}
use vkit_orbit.Store.Command.{Command, deliveries, update, upsert}

unfoldable pub sign_webhook : Host → String → String → String
sign_webhook host secret body = "sha256=" <> host.hmac secret body

-- `prepareWebhookEnvelope`: the body, and its signature.
unfoldable pub prepare_webhook_envelope : Host → String → String → Json → String → String × String
unfolding sign_webhook
prepare_webhook_envelope host event event_id payload secret =
    let body : String =
      stringify
        (obj (field "event" (str event) (field "id" (str event_id) (field "data" payload end)))) in
    (body, sign_webhook host secret body)

pub record Delivery : Type 0 where
  pub workspace_id : String
  pub endpoint_id : String
  pub event_id : String
  pub request_body : String
  pub signature_input : String

abbrev pub is_delivery : Delivery → WebhookDelivery → Bool
is_delivery d r =
    r.workspace_id == d.workspace_id && r.endpoint_id == d.endpoint_id && r.event_id == d.event_id

-- The row of a new delivery, with the schema's defaults.
abbrev pub delivery_row : String → ℕ → Delivery → WebhookDelivery
delivery_row uuid now d = record {
  id = "delivery_" <> uuid;
  workspace_id = d.workspace_id;
  endpoint_id = d.endpoint_id;
  event_id = d.event_id;
  request_body = d.request_body;
  signature_input = d.signature_input;
  status = pending;
  attempts = 0;
  next_attempt_at = now;
  lease_expires_at = none;
}

-- `prepareDelivery`: an upsert whose update is empty.
unfoldable pub prepare_delivery : Host → String → ℕ → Delivery → Command WebhookDelivery
prepare_delivery host uuid now d =
    upsert host.client deliveries (is_delivery d) (λ r. r)
      (λ r. r.id == "delivery_" <> uuid || is_delivery d r) (delivery_row uuid now d)

pub data Outcome : Type 0 where
  success retryable terminal unknown : Outcome

-- A status code, or `"network"`.
pub data Response : Type 0 where
  code : ℕ → Response
  network : Response

unfoldable pub classify_webhook_response : Response → Outcome
classify_webhook_response network = retryable
classify_webhook_response (code status) =
    if eqb status 408 || eqb status 429 || leb 500 status
    then retryable
    else if leb 200 status && ltb status 300
    then success
    else if leb 400 status && ltb status 500
    then terminal
    else unknown

abbrev pub status_after : Outcome → DeliveryStatus
status_after success = succeeded
status_after terminal = failed
status_after _ = pending

abbrev pub date_or_same : Option ℕ → ℕ → ℕ
date_or_same none old = old
date_or_same (some t) old = t

abbrev pub attempted : Outcome → Option ℕ → WebhookDelivery → WebhookDelivery
attempted outcome next_attempt_at r = record r {
  attempts = r.attempts + 1;
  lease_expires_at = none;
  status = status_after outcome;
  next_attempt_at = date_or_same next_attempt_at r.next_attempt_at;
}

unfoldable pub record_webhook_attempt :
    Client → String → String → Outcome → Option ℕ → Command WebhookDelivery
record_webhook_attempt client workspace_id delivery_id outcome next_attempt_at =
    update client deliveries (λ r. r.workspace_id == workspace_id && r.id == delivery_id)
      (attempted outcome next_attempt_at)
