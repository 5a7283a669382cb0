-- ===== src/Lifecycle/Single.antt =====
-- A single call takes a run through one transition at most: the cancellation, and the claim, the
-- completions and the failure of a stage.
use vkit_orbit.Base.{
  ℕ, String, Bool, true, false, ◌≡◌, ◌⊎◌, refl, sym, ap, ◌∙◌, subst, Option, none, some, List, Memᴰ,
  inl, inr, arith, eqb, eq_iff, is_some, Option-cases,
}
use vkit_orbit.Host.{Host}
use vkit_orbit.Audit.{Scope}
use vkit_orbit.Json.{Json}
use vkit_orbit.Store.Schema.{
  Database, ProcessingRun, ProcessingStatus, queued, canceled, completed, failed,
}
use vkit_orbit.Store.Client.{Client, Result, Error, ok, err}
use vkit_orbit.Store.Command.{
  Command, continue, ◌>>=◌, ◌>>◌, return, throw_if, require, branch, if_some, transaction, runs,
  find_first, update_many, update, commands,
}
use vkit_orbit.Store.Calls.{
  update_many_lem, update_none, update_some, transaction_commit, transaction_rollback,
}
use vkit_orbit.Store.Evolution.{Evolves, Evolves-refl, Evolves-update_if, HasUniqueIds}
use vkit_orbit.Store.Rules.{Preorder, Steps, Steps->>=, Steps-return, Steps-branch}
use vkit_orbit.Outbox.Steps.{enqueue_intent-Steps, write_audit_log-Steps}
use vkit_orbit.Documents.{is_terminal, cancel_processing_run}
use vkit_orbit.Documents.StateMachine.{processing_status, assert_transition}
use vkit_orbit.Processing.{
  Stage, Target, Finalization, claims_from, stage_status, claim_stage, is_at, is_status, advanced,
  complete_validation, complete_analysis, complete_finalization, is_working, fail_stage, queue_next,
}
use vkit_orbit.Lifecycle.Order.{run_id}
use vkit_orbit.Lifecycle.Stages.{announce-Steps}
use vkit_orbit.Lifecycle.System.{Call, perform}

-- The run keeps its identity, and its status is kept or goes through one transition of the table.
pub record MovesOnce (r n : ProcessingRun) : Type 0 where
  pub id : n.id ≡ r.id
  pub workspace_id : n.workspace_id ≡ r.workspace_id
  pub document_id : n.document_id ≡ r.document_id
  pub revision : n.revision ≡ r.revision
  pub stage_revision : n.stage_revision ≡ r.stage_revision
  pub status :
      (n.status ≡ r.status)
      ⊎ (assert_transition (processing_status r.status) (processing_status n.status) none none
          ≡ ok tt)

MovesOnce-refl : (r : ProcessingRun) → MovesOnce r r
MovesOnce-refl r = record {
  id = refl;
  workspace_id = refl;
  document_id = refl;
  revision = refl;
  stage_revision = refl;
  status = inl refl;
}

abbrev pub RunsMoveOnce : List ProcessingRun → List ProcessingRun → Type 0
RunsMoveOnce = Evolves MovesOnce (λ _. ⊥)

kept : (rows new : List ProcessingRun) → new ≡ rows → RunsMoveOnce rows new
kept rows new e =
    subst (RunsMoveOnce rows) (sym e) (Evolves-refl MovesOnce (λ _. ⊥) MovesOnce-refl rows)

-- The runs stay as they are.
abbrev quiet : Preorder
quiet = record {
  Rel = λ s t. t.runs ≡ s.runs;
  rel_refl = λ s. refl;
  rel_trans = λ s t u h k. k ∙ h;
}

module _ (s : Database) where
  record Once {A : Type 0} (m : Command A) : Type 0 where
    at : HasUniqueIds run_id s.runs → RunsMoveOnce s.runs (m s).1.runs

  Once-quiet : {A : Type 0} (m : Command A) → Steps quiet m → Once m
  Once-quiet m h = record { at = λ _. kept s.runs (m s).1.runs (h.at s) }

  continue-once :
      {A B : Type 0} (r : Result A × Database) (f : A → Command B)
      → RunsMoveOnce s.runs r.1.runs
      → ((a : A) → Steps quiet (f a))
      → RunsMoveOnce s.runs (continue r f).1.runs
  continue-once (ok a, t) f h k = subst (RunsMoveOnce s.runs) (sym ((k a).at t)) h
  continue-once (err e, t) f h k = h

  Once->>= :
      {A B : Type 0} (m : Command A) (f : A → Command B)
      → Once m
      → ((a : A) → Steps quiet (f a))
      → Once (m >>= f)
  unfolding commands
  Once->>= m f h k = record { at = λ u. continue-once (m s) f (h.at u) k }

  Once-find :
      {B : Type 0} (client : Client) (p : ProcessingRun → Bool)
      (f : Option ProcessingRun → Command B)
      → ((o : Option ProcessingRun) → client.find_first p s.runs ≡ o → Once (f o))
      → Once (find_first client runs p >>= f)
  unfolding commands find_first
  Once-find client p f h = record { at = (h (client.find_first p s.runs) refl).at }

  Once-require :
      {A B : Type 0} (o : Option A) (e : Error) (f : A → Command B)
      → ((a : A) → o ≡ some a → Once (f a))
      → Once (require o e >>= f)
  unfolding commands
  Once-require none e f h = record { at = λ _. kept s.runs s.runs refl }
  Once-require (some a) e f h = record { at = (h a refl).at }

  Once-throw_if :
      {B : Type 0} (b : Bool) (e : Error) (m : Command B)
      → (b ≡ false → Once m)
      → Once (throw_if b e >> m)
  unfolding commands
  Once-throw_if true e m h = record { at = λ _. kept s.runs s.runs refl }
  Once-throw_if false e m h = record { at = (h refl).at }

  Once-branch : {A : Type 0} (b : Bool) (m k : Command A) → Once m → Once k → Once (branch b m k)
  unfolding commands
  Once-branch true m k h l = h
  Once-branch false m k h l = l

  Once-if_some :
      {A B : Type 0} (o : Option A) (f : A → Command B) (k : Command B)
      → ((a : A) → Once (f a))
      → Once k
      → Once (if_some o f k)
  unfolding if_some
  Once-if_some none f k h l = l
  Once-if_some (some a) f k h l = h a

  Once-transaction :
      {A : Type 0} (client : Client) (m : Command A) → Once m → Once (transaction client m)
  Once-transaction {A = A} client m h = record { at = λ u. go (m s) refl (h.at u) }
    where
      go :
          (r : Result A × Database)
          → m s ≡ r
          → RunsMoveOnce s.runs (m s).1.runs
          → RunsMoveOnce s.runs (transaction client m s).1.runs
      go (ok a, t) e k =
          subst (λ y. RunsMoveOnce s.runs y.1.runs) (e ∙ sym (transaction_commit client m s t a e))
            k
      go (err x, t) e k = kept s.runs _ (ap (λ y. y.1.runs) (transaction_rollback client m s t x e))

  Once-update_many :
      (client : Client) (p : ProcessingRun → Bool) (f : ProcessingRun → ProcessingRun)
      → ((r : ProcessingRun) → p r ≡ true → MovesOnce r (f r))
      → Once (update_many client runs p f)
  Once-update_many client p f h = record {
    at = λ _.
        subst (λ y. RunsMoveOnce s.runs y.1.runs) (sym (update_many_lem client runs p f s))
          (Evolves-update_if MovesOnce (λ _. ⊥) MovesOnce-refl p f s.runs (λ r _ e. h r e));
  }

  Once-update :
      (client : Client) (p : ProcessingRun → Bool) (f : ProcessingRun → ProcessingRun)
      → (HasUniqueIds run_id s.runs
          → (r : ProcessingRun) → Memᴰ r s.runs
          → p r ≡ true
          → MovesOnce r (f r))
      → Once (update client runs p f)
  Once-update client p f h = record {
    at = λ u. elim (Option-cases (client.find_first p s.runs)) [
      | inl e ↦ kept s.runs _ (ap (λ y. y.1.runs) (update_none client runs p f s e))
      | inr (r, e) ↦
          subst (λ y. RunsMoveOnce s.runs y.1.runs) (sym (update_some client runs p f s r e))
            (Evolves-update_if MovesOnce (λ _. ⊥) MovesOnce-refl p f s.runs (h u))
    ];
  }

to_status :
    (r n : ProcessingRun)
    → (n.id ≡ r.id)
      × (n.workspace_id ≡ r.workspace_id)
      × (n.document_id ≡ r.document_id)
      × (n.revision ≡ r.revision)
      × (n.stage_revision ≡ r.stage_revision)
    → (n.status ≡ r.status)
      ⊎ (assert_transition (processing_status r.status) (processing_status n.status) none none
          ≡ ok tt)
    → MovesOnce r n
to_status r n (id, workspace, document, revision, stage) h = record {
  id = id;
  workspace_id = workspace;
  document_id = document;
  revision = revision;
  stage_revision = stage;
  status = h;
}

abbrev Permits : ProcessingStatus → ProcessingStatus → Type 0
Permits a b =
    (b ≡ a) ⊎ (assert_transition (processing_status a) (processing_status b) none none ≡ ok tt)

claims-Permits :
    (stage : Stage) (a : ProcessingStatus)
    → claims_from stage a ≡ true
    → Permits a (stage_status stage)
unfolding assert_transition
claims-Permits Stage.validating queued h = inr refl
claims-Permits Stage.validating ProcessingStatus.validating h = inl refl
claims-Permits Stage.analyzing ProcessingStatus.analyzing h = inl refl
claims-Permits Stage.finalizing ProcessingStatus.finalizing h = inl refl
claims-Permits _ _ h = cc

working-Permits : (a : ProcessingStatus) → is_working a ≡ true → Permits a failed
unfolding assert_transition
working-Permits ProcessingStatus.validating h = inr refl
working-Permits ProcessingStatus.analyzing h = inr refl
working-Permits ProcessingStatus.finalizing h = inr refl
working-Permits _ h = cc

open-Permits : (a : ProcessingStatus) → is_terminal a ≡ false → Permits a canceled
unfolding assert_transition
open-Permits queued h = inr refl
open-Permits ProcessingStatus.validating h = inr refl
open-Permits ProcessingStatus.analyzing h = inr refl
open-Permits ProcessingStatus.finalizing h = inr refl
open-Permits _ h = cc

at-Permits :
    (a b : ProcessingStatus) (t : Target) (r : ProcessingRun)
    → is_at t a r ≡ true
    → Permits a b
    → Permits r.status b
at-Permits a b t r h k =
    let same : r.status ≡ a = equal r.status a (ground arith) in
    subst (λ x. Permits x b) (sym same) k
  where
    equal : (x y : ProcessingStatus) → is_status x y ≡ true → x ≡ y
    equal x y e = ground arith

claim_stage-Once :
    (client : Client) (now : ℕ) (t : Target) (stage : Stage) (lease : ℕ) (s : Database)
    → Once s (claim_stage client now t stage lease)
unfolding claim_stage
claim_stage-Once client now t stage lease s =
    Once->>= s _ _
      (Once-update_many s client _ _ (λ r h.
        to_status r _ (refl, refl, refl, refl, refl)
          (claims-Permits stage r.status (ground arith))))
      (λ n. Steps-return quiet _)

fail_stage-Once :
    (client : Client) (t : Target) (code : String) (s : Database)
    → Once s (fail_stage client t code)
unfolding fail_stage
fail_stage-Once client t code s =
    Once->>= s _ _
      (Once-update_many s client _ _ (λ r h.
        to_status r _ (refl, refl, refl, refl, refl) (working-Permits r.status (ground arith))))
      (λ n. Steps-return quiet _)

completion-Once :
    (host : Host) (now : ℕ) (contract : String) (t : Target) (p q : ProcessingRun → Bool)
    (f : ProcessingRun → ProcessingRun) (s : Database)
    → ((r : ProcessingRun) → q r ≡ true → MovesOnce r (f r))
    → Once s (
        find_first host.client runs p >>= λ run.
        branch
          (is_some run)
          (transaction host.client (
            update_many host.client runs q f >>= λ changed.
            branch (eqb changed 1) (queue_next host now contract t) (return false)))
          (return false))
completion-Once host now contract t p q f s h =
    let queued_next = enqueue_intent-Steps quiet host (λ s rows. refl) in
    Once-find s host.client p _ (λ o _.
      Once-branch s _ _ _
        (Once-transaction s host.client _ (
          Once->>= s _ _ (Once-update_many s host.client q f h)
            (λ n. search (Steps->>=, Steps-branch, Steps-return, queued_next))))
        (Once-quiet s _ (Steps-return quiet false)))

complete_validation-Once :
    (host : Host) (now : ℕ) (t : Target) (s : Database) → Once s (complete_validation host now t)
unfolding complete_validation assert_transition
complete_validation-Once host now t s =
    completion-Once host now "document.analyze.v1" t _ _ _ s (λ r h.
      to_status r _ (refl, refl, refl, refl, refl)
        (at-Permits ProcessingStatus.validating ProcessingStatus.analyzing t r h (inr refl)))

complete_analysis-Once :
    (host : Host) (now : ℕ) (t : Target) (report : Json) (s : Database)
    → Once s (complete_analysis host now t report)
unfolding complete_analysis assert_transition
complete_analysis-Once host now t report s =
    completion-Once host now "document.finalize.v1" t _ _ _ s (λ r h.
      to_status r _ (refl, refl, refl, refl, refl)
        (at-Permits ProcessingStatus.analyzing ProcessingStatus.finalizing t r h (inr refl)))

complete_finalization-Once :
    (host : Host) (now : ℕ) (f : Finalization) (t : Target) (s : Database)
    → Once s (complete_finalization host now f t)
unfolding complete_finalization assert_transition
complete_finalization-Once host now f t s =
    let still = Once-quiet s _ (Steps-return quiet false) in
    let move =
      Once-update_many s host.client (is_at t ProcessingStatus.finalizing) (advanced completed)
        (λ r h.
          to_status r _ (refl, refl, refl, refl, refl)
            (at-Permits ProcessingStatus.finalizing completed t r h (inr refl))) in
    Once-transaction s host.client _ (
      Once-find s host.client _ _ (λ found _.
        Once-if_some s found _ _
          (λ run.
            Once-branch s _ _ _
              (Once->>= s _ _ move (λ n.
                Steps-branch quiet _ _ _ (announce-Steps quiet (λ s t e. e) host now f t run)
                  (Steps-return quiet false)))
              still)
          still))

cancel_processing_run-Once :
    (host : Host) (uuid : String) (scope : Scope) (run_id : String) (s : Database)
    → Once s (cancel_processing_run host uuid scope run_id)
unfolding cancel_processing_run
cancel_processing_run-Once host uuid scope id s = Once-transaction s host.client _ (
    Once-find s host.client _ _ (λ o found. Once-require s o _ _ (λ run is_run.
      Once-throw_if s _ _ _ (λ open_.
        Once->>= s _ _
          (Once-update s host.client _ _ (λ unique r m e.
            to_status r _ (refl, refl, refl, refl, refl)
              (subst (λ (x : ProcessingRun). Permits x.status canceled)
                (unique run r (host.client.find_first_some _ s.runs run (found ∙ is_run)).0 m
                  (sym ((eq_iff _ _).0 e)))
                (open-Permits run.status open_))))
          (λ updated.
            Steps->>= quiet _ _ (write_audit_log-Steps quiet host (λ s rows. refl) uuid _)
              (λ _. Steps-return quiet updated))))))

-- The calls that a run goes through from its creation to its end, one step each.
abbrev pub is_single : Call → Bool
is_single (Call.cancel _ _ _) = true
is_single (Call.claim _ _ _ _) = true
is_single (Call.validated _ _) = true
is_single (Call.analyzed _ _ _) = true
is_single (Call.finalized _ _ _) = true
is_single (Call.fail _ _) = true
is_single _ = false

-- Where no two runs have one id: a cancellation, and a claim, a completion or a failure of a stage,
-- returned or thrown, adds and removes no run. Every run keeps its place, id, workspace, document,
-- revision and stage revision, and its status is kept or goes through exactly one transition that
-- `assertTransition` allows.
pub perform-MovesOnce :
    (host : Host) (call : Call) (s : Database)
    → is_single call ≡ true
    → HasUniqueIds run_id s.runs
    → RunsMoveOnce s.runs (perform host call s).runs
unfolding perform
perform-MovesOnce host (Call.cancel uuid scope id) s h unique =
    (cancel_processing_run-Once host uuid scope id s).at unique
perform-MovesOnce host (Call.claim now t stage lease) s h unique =
    (claim_stage-Once host.client now t stage lease s).at unique
perform-MovesOnce host (Call.validated now t) s h unique =
    (complete_validation-Once host now t s).at unique
perform-MovesOnce host (Call.analyzed now t report) s h unique =
    (complete_analysis-Once host now t report s).at unique
perform-MovesOnce host (Call.finalized now f t) s h unique =
    (complete_finalization-Once host now f t s).at unique
perform-MovesOnce host (Call.fail t code) s h unique =
    (fail_stage-Once host.client t code s).at unique
perform-MovesOnce host _ s h unique = cc
