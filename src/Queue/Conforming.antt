-- ===== src/Queue/Conforming.antt =====
-- What the application asks of the queues fits the contracts.
use vkit_orbit.Base.{ℕ, ◌<◌, String, false, ◌≡◌, some, ◌==◌}
use vkit_orbit.Json.{Json, num, str, obj, end, field}
use vkit_orbit.Store.Client.{ok}
use vkit_orbit.Outbox.{Intent}
use vkit_orbit.Documents.{stage_intent}
use vkit_orbit.Queue.Contracts.{job, JobContract, job_contracts, named, parse_payload}
use vkit_orbit.Queue.JobId.{create_job_id, has_colon}

module _ (trim : String → String) where
  -- The relay finds the contract of the intent, an id for its job, and a payload of the schema.
  pub record IsAccepted (i : Intent) : Type 0 where
    pub contract : JobContract
    pub known : named i.contract job_contracts ≡ some contract
    pub id : String
    pub addressed : create_job_id trim contract.name i.business_id i.revision ≡ ok id
    pub parsed : parse_payload trim contract.schema i.payload ≡ some i.payload

  -- A text that `trim` leaves alone, not empty, and without a colon.
  abbrev pub IsId : String → Type 0
  IsId s = (trim s ≡ s) × ((s == "") ≡ false) × (has_colon s ≡ false)

  -- The payload of a job with the two ids in it.
  abbrev ids : String → String → String → ℕ → Json
  ids key workspace_id id n =
      obj
        (field "workspaceId" (str workspace_id) (field key (str id) (field "revision" (num n) end)))

  abbrev Fits : String → Type 0
  Fits key =
      (w id : String) (n : ℕ)
      → IsId w
      → IsId id
      → 0 < n
      → parse_payload trim (job key) (ids key w id n) ≡ some (ids key w id n)

  abbrev pub AreStagesAccepted : String → String → ℕ → Type 0
  AreStagesAccepted w id n =
      IsAccepted (stage_intent "document.validate.v1" w id n)
      × IsAccepted (stage_intent "document.analyze.v1" w id n)
      × IsAccepted (stage_intent "document.finalize.v1" w id n)
