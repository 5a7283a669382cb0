-- ===== src/Lifecycle/Stages.antt =====
-- The stages of packages/application/src/processing keep to the life of a run.
use vkit_orbit.Base.{
  ℕ, String, Bool, true, false, ◌≡◌, refl, eqb, is_some, sym, subst, ◌+◌, List, arith,
}
use vkit_orbit.Host.{Host}
use vkit_orbit.Store.Schema.{
  Database, ProcessingRun, ProcessingStatus, queued, completed, failed, QueueOutbox, AuditLog,
  WebhookEndpoint,
}
use vkit_orbit.Store.Client.{Client, Result, ok, err}
use vkit_orbit.Store.Evolution.{Evolves, HasUniqueIds}
use vkit_orbit.Store.Rules.{
  Preorder, Steps, Steps->>=, Steps->>, Steps-branch, Steps-if_some, Steps-return, Steps-throw,
  Steps-for_each, Steps-find_first, Steps-find_all, Steps-create, Steps-update, Steps-upsert,
  Steps-update_many, Steps-transaction,
}
use vkit_orbit.Json.{Json}
use vkit_orbit.Audit.{write_audit_log}
use vkit_orbit.Store.Command.{
  ◌>>=◌, return, branch, transaction, runs, deliveries, artifacts, audit_logs, endpoints,
  update_many, find_first,
}
use vkit_orbit.Webhooks.{Delivery, prepare_delivery}
use vkit_orbit.Documents.{lift}
use vkit_orbit.Outbox.{Intent, enqueue_intent}
use vkit_orbit.Outbox.Steps.{enqueue_intent-Steps, write_audit_log-Steps}
use vkit_orbit.Documents.StateMachine.{assert_transition}
use vkit_orbit.Processing.{
  Stage, Target, is_claimable, leased, claim_stage, is_at, advanced, complete_validation, reported,
  complete_analysis, fail_stage, is_working, Finalization, complete_finalization, claims_from,
  stage_status, is_status, queue_next, announce, notify_endpoint,
}
use vkit_orbit.Lifecycle.Order.{
  Follows, here, next, Moves, IsStarted, RunsEvolve-refl, RunsEvolve-update_if, lifecycle,
  RunsEvolve, run_id,
}

claims_from-Follows :
    (stage : Stage) (status : ProcessingStatus)
    → claims_from stage status ≡ true
    → Follows status (stage_status stage)
unfolding assert_transition
claims_from-Follows Stage.validating queued h = next here refl
claims_from-Follows Stage.validating ProcessingStatus.validating h = here
claims_from-Follows Stage.analyzing ProcessingStatus.analyzing h = here
claims_from-Follows Stage.finalizing ProcessingStatus.finalizing h = here
claims_from-Follows _ _ h = cc

is_claimable-Moves :
    (now until : ℕ) (t : Target) (stage : Stage) (r : ProcessingRun)
    → is_claimable now t stage r ≡ true
    → Moves r (leased until stage r)
is_claimable-Moves now until t stage r h = record {
  id = refl;
  workspace_id = refl;
  document_id = refl;
  revision = refl;
  stage_revision = refl;
  status = claims_from-Follows stage r.status (ground arith);
}

-- An update of the runs by rows that move as the table allows.
runs_update :
    (client : Client) (p : ProcessingRun → Bool) (f : ProcessingRun → ProcessingRun)
    → ((r : ProcessingRun) → run_id (f r) ≡ run_id r)
    → ((r : ProcessingRun) → p r ≡ true → Moves r (f r))
    → Steps lifecycle (update_many client runs p f)
runs_update client p f same h =
    Steps-update_many lifecycle client runs p f
      (λ s. RunsEvolve-update_if p f s same (λ unique r m. h r))

pub claim_stage-Steps :
    (client : Client) (now : ℕ) (t : Target) (stage : Stage) (lease : ℕ)
    → Steps lifecycle (claim_stage client now t stage lease)
unfolding claim_stage
claim_stage-Steps client now t stage lease =
    Steps->>= lifecycle _ _
      (runs_update client _ _ (λ r. refl) (is_claimable-Moves now (now + lease) t stage))
      (λ n. Steps-return lifecycle _)

is_at-Follows :
    (a b : ProcessingStatus) (t : Target) (r : ProcessingRun)
    → is_at t a r ≡ true
    → Follows a b
    → Follows r.status b
is_at-Follows a b t r h f = subst (λ x. Follows x b) (sym (same_status r.status a (ground arith))) f
  where
    same_status : (x y : ProcessingStatus) → is_status x y ≡ true → x ≡ y
    same_status x y e = ground arith

Moves-to :
    (status : ProcessingStatus) (r : ProcessingRun)
    → Follows r.status status
    → Moves r (advanced status r)
Moves-to status r h = record {
  id = refl;
  workspace_id = refl;
  document_id = refl;
  revision = refl;
  stage_revision = refl;
  status = h;
}

-- Writes of other tables.
quiet_outbox : (s : Database) (rows : List QueueOutbox) → RunsEvolve s (record s { outbox = rows })
quiet_outbox s rows = RunsEvolve-refl s

pub enqueue_intent-lifecycle :
    (host : Host) (now : ℕ) (i : Intent) → Steps lifecycle (enqueue_intent host now i)
enqueue_intent-lifecycle host = enqueue_intent-Steps lifecycle host quiet_outbox

pub write_audit_log-lifecycle :
    (host : Host) (uuid : String) (input : AuditLog)
    → Steps lifecycle (write_audit_log host uuid input)
write_audit_log-lifecycle host = write_audit_log-Steps lifecycle host (λ s rows. RunsEvolve-refl s)

ruleset rules = (
  Steps->>=, Steps->>, Steps-branch, Steps-if_some, Steps-return, Steps-throw, Steps-transaction,
  Steps-find_first, Steps-find_all, enqueue_intent-lifecycle,
)

-- The shape of the completion of a stage: a look, then an update and an intent in one transaction.
completion :
    (host : Host) (now : ℕ) (contract : String) (t : Target) (p q : ProcessingRun → Bool)
    (f : ProcessingRun → ProcessingRun)
    → Steps lifecycle (update_many host.client runs q f)
    → Steps lifecycle (
        find_first host.client runs p >>= λ run.
        branch
          (is_some run)
          (transaction host.client (
            update_many host.client runs q f >>= λ changed.
            branch (eqb changed 1) (queue_next host now contract t) (return false)))
          (return false))
completion host now contract t p q f move =
    Steps->>= lifecycle _ _ (Steps-find_first lifecycle host.client runs p) (λ o.
      Steps-branch lifecycle _ _ _
        (Steps-transaction lifecycle host.client _
          (Steps->>= lifecycle _ _ move (λ n. search rules)))
        (Steps-return lifecycle false))

pub complete_validation-Steps :
    (host : Host) (now : ℕ) (t : Target) → Steps lifecycle (complete_validation host now t)
unfolding complete_validation assert_transition
complete_validation-Steps host now t = completion host now "document.analyze.v1" t _ _ _ (
    runs_update host.client (is_at t ProcessingStatus.validating)
      (advanced ProcessingStatus.analyzing) (λ r. refl)
      (λ r h. Moves-to _ r (is_at-Follows _ _ t r h (next here refl))))

pub complete_analysis-Steps :
    (host : Host) (now : ℕ) (t : Target) (report : Json)
    → Steps lifecycle (complete_analysis host now t report)
unfolding complete_analysis assert_transition
complete_analysis-Steps host now t report = completion host now "document.finalize.v1" t _ _ _ (
    runs_update host.client (is_at t ProcessingStatus.analyzing) (reported report) (λ r. refl)
      (λ r h. record {
        id = refl;
        workspace_id = refl;
        document_id = refl;
        revision = refl;
        stage_revision = refl;
        status = is_at-Follows _ _ t r h (next here refl);
      }))

is_working-Follows : (a : ProcessingStatus) → is_working a ≡ true → Follows a failed
unfolding assert_transition
is_working-Follows ProcessingStatus.validating h = next here refl
is_working-Follows ProcessingStatus.analyzing h = next here refl
is_working-Follows ProcessingStatus.finalizing h = next here refl
is_working-Follows _ h = cc

pub fail_stage-Steps :
    (client : Client) (t : Target) (code : String) → Steps lifecycle (fail_stage client t code)
unfolding fail_stage
fail_stage-Steps client t code =
    Steps->>= lifecycle _ _
      (runs_update client _ _ (λ r. refl)
        (λ r h. record {
          id = refl;
          workspace_id = refl;
          document_id = refl;
          revision = refl;
          stage_revision = refl;
          status = is_working-Follows r.status (ground arith);
        }))
      (λ n. Steps-return lifecycle _)

lifecycle_quiet : (s t : Database) → t.runs ≡ s.runs → RunsEvolve s t
lifecycle_quiet s t e unique =
    subst (λ rows. Evolves Moves IsStarted s.runs rows × HasUniqueIds run_id rows) (sym e)
      (RunsEvolve-refl s unique)

-- Writes of other tables than the runs keep to an order that looks at the runs alone.
module _ (order : Preorder) (quiet : (s t : Database) → t.runs ≡ s.runs → order.Rel s t) where
  intents : (host : Host) (now : ℕ) (i : Intent) → Steps order (enqueue_intent host now i)
  intents host = enqueue_intent-Steps order host (λ s rows. quiet s _ refl)

  prepare_delivery-Steps :
      (host : Host) (uuid : String) (now : ℕ) (d : Delivery)
      → Steps order (prepare_delivery host uuid now d)
  unfolding prepare_delivery
  prepare_delivery-Steps host uuid now d =
      Steps-upsert order host.client deliveries _ _ _ _
        (Steps-update order host.client deliveries _ _ (λ s. quiet s _ refl))
        (Steps-create order host.client deliveries _ _ (λ s _. quiet s _ refl))

  any_lift-Steps : {A : Type 0} (r : Result A) → Steps order (lift r)
  unfolding lift
  any_lift-Steps (ok a) = Steps-return order a
  any_lift-Steps (err e) = Steps-throw order e

  notify_endpoint-Steps :
      (host : Host) (now : ℕ) (f : Finalization) (t : Target) (run : ProcessingRun)
      (endpoint : WebhookEndpoint)
      → Steps order (notify_endpoint host now f t run endpoint)
  notify_endpoint-Steps host now f t run endpoint =
      search
        (
          Steps->>=, Steps-branch, Steps-if_some, Steps-return, intents, any_lift-Steps,
          prepare_delivery-Steps,
        )
        depth 9

  pub announce-Steps :
      (host : Host) (now : ℕ) (f : Finalization) (t : Target) (run : ProcessingRun)
      → Steps order (announce host now f t run)
  announce-Steps host now f t run =
      Steps->>= order _ _
        (Steps-upsert order host.client artifacts _ _ _ _
          (Steps-update order host.client artifacts _ _ (λ s. quiet s _ refl))
          (Steps-create order host.client artifacts _ _ (λ s _. quiet s _ refl)))
        (λ _.
          Steps->>= order _ _
            (Steps-create order host.client audit_logs _ _ (λ s _. quiet s _ refl))
            (λ _. Steps->>= order _ _ (intents host now _) (λ _.
              Steps->>= order _ _ (Steps-find_all order host.client endpoints _) (λ found.
                Steps->> order _ _
                  (Steps-for_each order found _ (notify_endpoint-Steps host now f t run))
                  (Steps-return order true)))))

pub lift-Steps : {A : Type 0} (r : Result A) → Steps lifecycle (lift r)
lift-Steps = any_lift-Steps lifecycle lifecycle_quiet

pub complete_finalization-Steps :
    (host : Host) (now : ℕ) (f : Finalization) (t : Target)
    → Steps lifecycle (complete_finalization host now f t)
unfolding complete_finalization assert_transition
complete_finalization-Steps host now f t =
    let move =
      runs_update host.client (is_at t ProcessingStatus.finalizing) (advanced completed) (λ r. refl)
        (λ r h. Moves-to _ r (is_at-Follows _ _ t r h (next here refl))) in
    Steps-transaction lifecycle host.client _ (
      Steps->>= lifecycle _ _ (Steps-find_first lifecycle host.client runs _) (λ found.
        Steps-if_some lifecycle found _ _
          (λ run.
            Steps-branch lifecycle _ _ _
              (Steps->>= lifecycle _ _ move (λ n.
                Steps-branch lifecycle _ _ _
                  (announce-Steps lifecycle lifecycle_quiet host now f t run)
                  (Steps-return lifecycle false)))
              (Steps-return lifecycle false))
          (Steps-return lifecycle false)))
