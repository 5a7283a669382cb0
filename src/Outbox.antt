-- ===== src/Outbox.antt =====
-- packages/application/src/outbox: intents that a transaction leaves for the queues, and the claims
-- of the relay. Times are in milliseconds.
pub mod Steps
pub mod Laws
use vkit_orbit.Base.{
  ℕ, ◌+◌, String, Bool, true, false, ◌&&◌, ◌||◌, Option, none, some, List, [], ◌∷◌, ltb, leb, eqb,
  ◌==◌, if◌then◌else◌,
}
use vkit_orbit.Host.{Host}
use vkit_orbit.Json.{Json}
use vkit_orbit.Json.Print.{◌<>◌, decimal, stringify}
use vkit_orbit.Json.Canonical.{stable_json}
use vkit_orbit.Store.Schema.{OutboxStatus, pending, claimed, published, failed, QueueOutbox}
use vkit_orbit.Store.Client.{message, Client, asc}
use vkit_orbit.Store.Command.{
  Command, ◌>>=◌, ◌>>◌, return, throw, branch, if_some, outbox, find_first, find_many, update_many,
  create, update,
}

unfoldable pub outbox_id : String → String → ℕ → String
unfolding decimal
outbox_id contract business_id revision = contract <> ":" <> business_id <> ":" <> decimal revision

pub record Intent : Type 0 where
  pub workspace_id : String
  pub contract : String
  pub business_id : String
  pub revision : ℕ
  pub payload : Json
  pub available_at : Option ℕ

abbrev pub date_or : Option ℕ → ℕ → ℕ
date_or none now = now
date_or (some t) now = t

abbrev pub intent_id : Intent → String
intent_id i = outbox_id i.contract i.business_id i.revision

-- The row of a new intent, with the schema's defaults.
abbrev pub intent_row : ℕ → Intent → QueueOutbox
intent_row now i = record {
  id = intent_id i;
  workspace_id = i.workspace_id;
  contract = i.contract;
  business_id = i.business_id;
  revision = i.revision;
  payload = i.payload;
  status = pending;
  available_at = date_or i.available_at now;
  claimed_at = none;
  published_at = none;
  created_at = now;
}

abbrev pub is_intent : Intent → QueueOutbox → Bool
is_intent i r = r.workspace_id == i.workspace_id && r.id == intent_id i

-- The unique indices of the table.
abbrev pub outbox_clash : QueueOutbox → QueueOutbox → Bool
outbox_clash n r =
    r.id == n.id
    || r.workspace_id == n.workspace_id
      && r.contract == n.contract
      && r.business_id == n.business_id
      && eqb r.revision n.revision

-- An intent whose id is taken must have the same payload.
abbrev pub same_intent : Host → Intent → QueueOutbox → Command QueueOutbox
same_intent host i r =
    branch (stable_json host.before r.payload == stable_json host.before i.payload) (return r) (
      throw (
        message (
          "outbox payload conflict: existing="
          <> stringify r.payload
          <> " input="
          <> stringify i.payload)))

unfoldable pub enqueue_intent : Host → ℕ → Intent → Command QueueOutbox
enqueue_intent host now i = do
  existing ← find_first host.client outbox (is_intent i)
  if_some existing (same_intent host i)
      (create host.client outbox (outbox_clash (intent_row now i)) (intent_row now i))

abbrev pub is_claimed : OutboxStatus → Bool
is_claimed claimed = true
is_claimed _ = false

abbrev pub same_status : OutboxStatus → OutboxStatus → Bool
same_status pending pending = true
same_status claimed claimed = true
same_status published published = true
same_status failed failed = true
same_status _ _ = false

-- `{ in: ["PENDING", "FAILED"] }`
abbrev pub is_open : OutboxStatus → Bool
is_open pending = true
is_open failed = true
is_open _ = false

-- `{ lt: t }` on a nullable date.
abbrev pub earlier : Option ℕ → ℕ → Bool
earlier none t = false
earlier (some d) t = ltb d t

-- `claimedAt < now - 60_000`, over the integers.
abbrev pub is_stale : ℕ → QueueOutbox → Bool
is_stale now r =
    is_claimed r.status && elim r.claimed_at [ none ↦ false | some d ↦ ltb (d + 60000) now ]

abbrev pub release : QueueOutbox → QueueOutbox
release r = record r { status = pending; claimed_at = none }

abbrev pub is_available : ℕ → QueueOutbox → Bool
is_available now r = is_open r.status && leb r.available_at now

abbrev pub is_unchanged : QueueOutbox → QueueOutbox → Bool
is_unchanged row r =
    r.workspace_id == row.workspace_id && r.id == row.id && same_status r.status row.status

abbrev pub claim : ℕ → QueueOutbox → QueueOutbox
claim now r = record r { status = claimed; claimed_at = some now }

-- One row is claimed if it still has the status under which it was read.
unfoldable pub claim_row : Client → ℕ → QueueOutbox → Command ℕ
claim_row client now row = update_many client outbox (is_unchanged row) (claim now)

-- The loop over the rows that were read.
unfoldable pub claim_rows : Client → ℕ → List QueueOutbox → Command (List QueueOutbox)
claim_rows client now [] = return []
claim_rows client now (row ∷ rows) = do
  count ← claim_row client now row
  claimed_later ← claim_rows client now rows
  return (if eqb count 0 then claimed_later else record row { status = claimed } ∷ claimed_later)

-- `now` is the time of the whole call.
unfoldable pub claim_outbox_batch : Client → ℕ → ℕ → Command (List QueueOutbox)
claim_outbox_batch client now limit = do
  _released ← update_many client outbox (is_stale now) release
  rows ← find_many client outbox (is_available now) (asc (λ r. r.created_at)) limit
  claim_rows client now rows

unfoldable pub mark_outbox_published : Client → ℕ → String → Command QueueOutbox
mark_outbox_published client now id =
    update client outbox (λ r. r.id == id)
      (λ r. record r { status = published; published_at = some now })

unfoldable pub mark_outbox_failed : Client → ℕ → String → Command QueueOutbox
mark_outbox_failed client now id =
    update client outbox (λ r. r.id == id)
      (λ r. record r { status = failed; claimed_at = none; available_at = now })
