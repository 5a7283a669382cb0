-- ===== src/Processing/Handoff.antt =====
-- The completion of a stage hands the run on: its new status and the job of the next stage are
-- written together.
use vkit_orbit.Base.{
  ℕ, String, Bool, true, false, ◌≡◌, refl, sym, ap, ◌∙◌, subst, none, Memᴰ, arith, eqb, is_some,
}
use vkit_orbit.Host.{Host}
use vkit_orbit.Json.{Json}
use vkit_orbit.Store.Schema.{Database, ProcessingRun, ProcessingStatus, QueueOutbox}
use vkit_orbit.Store.Client.{Result, ok}
use vkit_orbit.Store.Rows.{count_if}
use vkit_orbit.Store.Command.{
  Command, ◌>>=◌, return, branch, transaction, runs, find_first, update_many,
}
use vkit_orbit.Store.Calls.{update_many_lem}
use vkit_orbit.Store.Counting.{count_if-mem, update_if-mem}
use vkit_orbit.Store.Inversion.{>>=_inv, return_inv, branch-return_inv, transaction_inv}
use vkit_orbit.Documents.{stage_intent}
use vkit_orbit.Outbox.{enqueue_intent, is_intent}
use vkit_orbit.Outbox.Laws.{enqueue_intent-IsQueued}
use vkit_orbit.Processing.{
  Target, is_at, is_status, queue_next, advanced, complete_validation, complete_analysis,
}

-- A run of the target that the update has made, and the row of the next stage's intent.
pub record IsHandedOn (status : ProcessingStatus) (contract : String) (t : Target) (d : Database)
    : Type 0 where
  pub run : ProcessingRun
  pub run_listed : Memᴰ run d.runs
  pub run_at : is_at t status run ≡ true
  pub unleased : run.lease_expires_at ≡ none
  pub row : QueueOutbox
  pub row_listed : Memᴰ row d.outbox
  pub row_of : is_intent (stage_intent contract t.workspace_id t.run_id t.revision) row ≡ true

module _ (host : Host) (now : ℕ) (contract : String) (t : Target) (status : ProcessingStatus)
    (p q : ProcessingRun → Bool) (f : ProcessingRun → ProcessingRun)
    (made : (r : ProcessingRun)
      → q r ≡ true
      → (is_at t status (f r) ≡ true) × ((f r).lease_expires_at ≡ none)) where
  abbrev handing : Command Bool
  handing = update_many host.client runs q f >>= λ changed.
      branch (eqb changed 1) (queue_next host now contract t) (return false)

  handing-IsHandedOn : (s d : Database) → handing s ≡ (ok true, d) → IsHandedOn status contract t d
  handing-IsHandedOn s d h =
      let (n, u, updated, later) = >>=_inv _ _ true s d h in
      let (one, inside) = branch-return_inv (eqb n 1) _ false true u d later (λ e. cc) in
      let (row, v, queued, ended) =
        >>=_inv (enqueue_intent host now (stage_intent contract t.workspace_id t.run_id t.revision))
          _ true u d inside in
      let is_queued = enqueue_intent-IsQueued host now _ u v row queued in
      let written = sym (update_many_lem host.client runs q f s) ∙ updated in
      let counted : eqb (count_if q s.runs) 1 ≡ true = ground (arith, written) in
      let (r, m, fits) = count_if-mem q s.runs (ground arith) in
      let (_, last) = return_inv true true v d ended in
      let there : Memᴰ (f r) d.runs =
        subst (λ rows. Memᴰ (f r) rows)
          (ap (λ (y : Result ℕ × Database). y.1.runs) written
            ∙ sym is_queued.runs
            ∙ ap (λ (y : Database). y.runs) last)
          (update_if-mem q f s.runs r m fits) in
      record {
        run = f r;
        run_listed = there;
        run_at = (made r fits).0;
        unleased = (made r fits).1;
        row = row;
        row_listed = subst (λ (y : Database). Memᴰ row y.outbox) last is_queued.listed;
        row_of = is_queued.intended;
      }

  completing-IsHandedOn :
      (s d : Database)
      → (find_first host.client runs p >>= λ run.
            branch (is_some run) (transaction host.client handing) (return false))
          s
        ≡ (ok true, d)
      → IsHandedOn status contract t d
  completing-IsHandedOn s d h =
      let (o, u, found, later) = >>=_inv _ _ true s d h in
      let (_, inside) = branch-return_inv (is_some o) _ false true u d later (λ e. cc) in
      handing-IsHandedOn u d (transaction_inv host.client _ u d true inside)

is_at-advanced :
    (t : Target) (a b : ProcessingStatus) (r : ProcessingRun)
    → is_at t a r ≡ true
    → is_status b b ≡ true
    → is_at t b (advanced b r) ≡ true
is_at-advanced t a b r h e = ground arith

-- Where the validation of a run has been completed, the run is ANALYZING and free of a lease, and the
-- outbox has the row of its document.analyze.v1 job.
pub complete_validation-IsHandedOn :
    (host : Host) (now : ℕ) (t : Target) (s d : Database)
    → complete_validation host now t s ≡ (ok true, d)
    → IsHandedOn ProcessingStatus.analyzing "document.analyze.v1" t d
unfolding complete_validation
complete_validation-IsHandedOn host now t s d h =
    completing-IsHandedOn host now "document.analyze.v1" t ProcessingStatus.analyzing _ _ _
      (λ r fits. (is_at-advanced t _ ProcessingStatus.analyzing r fits refl, refl)) s d h

-- Where the analysis of a run has been completed, the run is FINALIZING and free of a lease, and the
-- outbox has the row of its document.finalize.v1 job.
pub complete_analysis-IsHandedOn :
    (host : Host) (now : ℕ) (t : Target) (report : Json) (s d : Database)
    → complete_analysis host now t report s ≡ (ok true, d)
    → IsHandedOn ProcessingStatus.finalizing "document.finalize.v1" t d
unfolding complete_analysis
complete_analysis-IsHandedOn host now t report s d h =
    completing-IsHandedOn host now "document.finalize.v1" t ProcessingStatus.finalizing _ _ _
      (λ r fits. (is_at-advanced t _ ProcessingStatus.finalizing r fits refl, refl)) s d h
