-- ===== src/Scenarios/Deliveries.antt =====
-- The last attempt at a delivery whose endpoint is down.
use vkit_orbit.Base.{ℕ, String, ◌≡◌, ◌⊎◌, refl, ap, Option, none, some, [], ◌∷◌, Memᴰ, arith}
use vkit_orbit.Store.Schema.{Database, WebhookDelivery, DeliveryStatus}
use vkit_orbit.Store.Client.{ok}
use vkit_orbit.Store.Command.{run as commands_run}
use vkit_orbit.Store.Reference.{client}
use vkit_orbit.Webhooks.{Response, code, classify_webhook_response, record_webhook_attempt}
use vkit_orbit.Worker.Handlers.{
  HandlerResult, DeliveryJob, delivery_outcome, handle_webhook_deliver,
}
use vkit_orbit.Worker.Attempts.{handle_webhook_deliver-ends}
use vkit_orbit.Scenarios.Hosts.{host, with_runs}

abbrev delivery : DeliveryStatus → ℕ → WebhookDelivery
delivery status attempts = record {
  id = "delivery_1";
  workspace_id = "ws_a";
  endpoint_id = "wh_1";
  event_id = "evt_1";
  request_body = "";
  signature_input = "";
  status = status;
  attempts = attempts;
  next_attempt_at = 10;
  lease_expires_at = none;
}

abbrev with_delivery : Database
with_delivery = record (with_runs []) { deliveries = delivery DeliveryStatus.pending 7 ∷ [] }

abbrev job : DeliveryJob
job = record { workspace_id = "ws_a"; delivery_id = "delivery_1"; revision = 8 }

abbrev unavailable : String → Option Response
unavailable id = some (code 503)

abbrev attempt : Database
attempt = (handle_webhook_deliver host 20 30 unavailable job with_delivery).1

given_up :
    (handle_webhook_deliver host 20 30 unavailable job with_delivery).0 ≡ ok HandlerResult.terminal
unfolding handle_webhook_deliver classify_webhook_response delivery_outcome record_webhook_attempt
    commands_run client
given_up = refl

is_failed : Memᴰ (delivery DeliveryStatus.failed 8) attempt.deliveries
unfolding handle_webhook_deliver classify_webhook_response delivery_outcome record_webhook_attempt
    commands_run client
is_failed = Memᴰ.head refl

worked : HandlerResult.no_op ≡ HandlerResult.terminal → ⊥
worked h = cc h

handle_webhook_deliver-ends_example :
    (DeliveryStatus.failed ≡ DeliveryStatus.succeeded)
    ⊎ (DeliveryStatus.failed ≡ DeliveryStatus.failed)
handle_webhook_deliver-ends_example =
    handle_webhook_deliver-ends host 20 30 unavailable job HandlerResult.terminal with_delivery
      attempt (delivery DeliveryStatus.failed 8) (omega arith) (ap (λ r. (r, attempt)) given_up)
      worked is_failed refl refl
