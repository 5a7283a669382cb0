-- ===== src/Relay.antt =====
-- apps/worker/src/relay/relay.ts: rows of the outbox become jobs of the queues. The queues (BullMQ) are
-- an argument: a state, and calls that may fail.
pub mod Sent
pub mod Rows
pub mod Claimed
pub mod Delivery
pub mod Marks
pub mod Settlement
use vkit_orbit.Base.{
  ℕ, String, Bool, true, false, Option, none, some, List, [], ◌∷◌, length, includes, if◌then◌else◌,
}
use vkit_orbit.Json.{Json}
use vkit_orbit.Json.Print.{◌<>◌}
use vkit_orbit.Store.Schema.{Database, QueueOutbox}
use vkit_orbit.Store.Client.{Client, Result, ok, err, message, Error}
use vkit_orbit.Store.Command.{Command, ◌>>=◌, ◌>>◌, return}
use vkit_orbit.Documents.{lift}
use vkit_orbit.Worker.Handlers.{try}
use vkit_orbit.Outbox.{claim_outbox_batch, mark_outbox_published, mark_outbox_failed}
use vkit_orbit.Queue.Contracts.{QueueName, JobContract, job_contracts, named, parse_payload}
use vkit_orbit.Queue.JobId.{create_job_id}

-- `input.queue`, or one of `input.queues`.
pub data Channel : Type 0 where
  only : Channel
  of_name : QueueName → Channel

pub record Queues (Q : Type 0) : Type 0 where
  -- whether `input.queues` is given, and which names it has
  pub routed : Bool
  pub configured : QueueName → Bool
  -- `getJob` and `getState`: none when there is no such job
  pub get_state : Channel → String → Q → Result (Option String) × Q
  pub remove : Channel → String → Q → Result (Unit {0}) × Q
  -- `add(name, data, { jobId })`
  pub add : Channel → String → Json → String → Q → Result (Unit {0}) × Q

-- A result that may be thrown, before what follows.
unfoldable pub next : {Q A B : Type 0} → Result A × Q → (A → Q → Result B × Q) → Result B × Q
next (ok a, q) f = f a q
next (err e, q) f = (err e, q)

unfoldable pub required : {A : Type 0} → Option A → String → Result A
required none text = err (message text)
required (some a) text = ok a

abbrev pub is_retained : Option String → Bool
is_retained none = false
is_retained (some state) = includes ("completed" ∷ "failed" ∷ []) state

-- The calls on the database: `sent` is how sending went and `after` how `afterAdd` went.
unfoldable pub mark :
    Client → ℕ → QueueOutbox → Result (Unit {0}) → Result (Unit {0}) → Command QueueOutbox
mark client now row sent after =
    try (do _sent ← lift sent; _after ← lift after; mark_outbox_published client now row.id)
      (λ _. mark_outbox_failed client now row.id)

module _ {Q : Type 0} (queues : Queues Q) (trim : String → String) where
  abbrev pub channel : QueueName → Option Channel
  channel name =
      if queues.routed
      then (if queues.configured name then some (of_name name) else none)
      else some only

  -- `if (retained && …) await retained.remove()`
  abbrev pub make_room : Channel → String → Option String → Q → Result (Unit {0}) × Q
  make_room to id state q = if is_retained state then queues.remove to id q else (ok tt, q)

  -- The job of a row whose contract, queue and id are known. The payload is parsed before the call of
  -- `add`.
  abbrev pub add_job : QueueOutbox → JobContract → Channel → String → Q → Result (Unit {0}) × Q
  add_job row contract to id q = next (queues.get_state to id q) λ state q₁.
      next (make_room to id state q₁) λ _ q₂.
        next (required (parse_payload trim contract.schema row.payload) "invalid payload", q₂)
          λ payload q₃. queues.add to contract.name payload id q₃

  -- The part of the loop's body up to the call of `add`. A name that every object inherits is no
  -- contract either: it has no queue and no versioned name, and the body throws a little later.
  unfoldable pub send : QueueOutbox → Q → Result (Unit {0}) × Q
  send row q =
      next (required (named row.contract job_contracts) ("unknown contract: " <> row.contract), q)
        λ contract q₁.
          next (required (channel contract.queue) "outbox queue is not configured", q₁)
            λ to q₂.
              next (create_job_id trim contract.name row.business_id row.revision, q₂)
                (add_job row contract to)

  -- `now` gives the time at which a row is marked.
  module _ (client : Client) (now : String → ℕ) (after : Result (Unit {0})) where
    unfoldable pub relay_row : QueueOutbox → Database → Q → Result QueueOutbox × (Database × Q)
    unfolding mark send
    relay_row row s q =
        let (sent, p) = send row q in
        let (marked, t) = mark client (now row.id) row sent after s in (marked, (t, p))

    -- The loop over the claimed rows.
    unfoldable pub relay_rows : List QueueOutbox → Database × Q → Result (Unit {0}) × (Database × Q)
    relay_rows [] (s, q) = (ok tt, (s, q))
    relay_rows (row ∷ rows) (s, q) = next (relay_row row s q) (λ _ st. relay_rows rows st)

    abbrev pub relay_claimed : Result (List QueueOutbox) × Database → Q → Result ℕ × (Database × Q)
    relay_claimed (ok rows, s) q = next (relay_rows rows (s, q)) (λ _ st. (ok (length rows), st))
    relay_claimed (err e, s) q = (err e, (s, q))

    -- `runOutboxRelay`
    unfoldable pub run_outbox_relay : ℕ → ℕ → Database × Q → Result ℕ × (Database × Q)
    run_outbox_relay claimed_at limit (s, q) =
        relay_claimed (claim_outbox_batch client claimed_at limit s) q
