-- ===== src/Lifecycle/Order.antt =====
-- What may become of the runs: a run keeps its identity, its status follows `assertTransition`, and
-- a new run starts as QUEUED. Ids stay unique.
use vkit_orbit.Base.{String, Bool, true, false, ◌≡◌, refl, ◌∙◌, none, [], ◌∷◌, ◌++◌, Memᴰ, any}
use vkit_orbit.Store.Schema.{Database, ProcessingRun, ProcessingStatus, queued}
use vkit_orbit.Store.Client.{ok}
use vkit_orbit.Store.Rows.{update_if}
use vkit_orbit.Store.Rules.{Preorder}
use vkit_orbit.Store.Evolution.{
  Evolves, Evolves-refl, Evolves-append, Evolves-update_if, Evolves-trans, HasUniqueIds,
  HasUniqueIds-update_if, HasUniqueIds-append,
}
use vkit_orbit.Documents.StateMachine.{processing_status, assert_transition}

-- One status is reached from another by transitions that the table allows.
pub data Follows (a : ProcessingStatus) : ProcessingStatus → Type 0 where
  here : Follows a a
  next :
      {b c : ProcessingStatus}
      → Follows a b
      → assert_transition (processing_status b) (processing_status c) none none ≡ ok tt
      → Follows a c

pub Follows-trans : {a b c : ProcessingStatus} → Follows a b → Follows b c → Follows a c
Follows-trans h here = h
Follows-trans h (next k e) = next (Follows-trans h k) e

pub record Moves (r n : ProcessingRun) : Type 0 where
  pub id : n.id ≡ r.id
  pub workspace_id : n.workspace_id ≡ r.workspace_id
  pub document_id : n.document_id ≡ r.document_id
  pub revision : n.revision ≡ r.revision
  pub stage_revision : n.stage_revision ≡ r.stage_revision
  pub status : Follows r.status n.status

pub Moves-refl : (r : ProcessingRun) → Moves r r
Moves-refl r = record {
  id = refl;
  workspace_id = refl;
  document_id = refl;
  revision = refl;
  stage_revision = refl;
  status = here;
}

pub Moves-trans : (a b c : ProcessingRun) → Moves a b → Moves b c → Moves a c
Moves-trans a b c h k = record {
  id = k.id ∙ h.id;
  workspace_id = k.workspace_id ∙ h.workspace_id;
  document_id = k.document_id ∙ h.document_id;
  revision = k.revision ∙ h.revision;
  stage_revision = k.stage_revision ∙ h.stage_revision;
  status = Follows-trans h.status k.status;
}

abbrev pub IsStarted : ProcessingRun → Type 0
IsStarted r = Follows queued r.status

IsStarted-Moves : (a b : ProcessingRun) → IsStarted a → Moves a b → IsStarted b
IsStarted-Moves a b h m = Follows-trans h m.status

abbrev pub run_id : ProcessingRun → String
run_id r = r.id

-- What a command may make of the runs, where no two of them had one id before it.
abbrev pub RunsEvolve : Database → Database → Type 0
RunsEvolve s t =
    HasUniqueIds run_id s.runs → Evolves Moves IsStarted s.runs t.runs × HasUniqueIds run_id t.runs

pub RunsEvolve-refl : (s : Database) → RunsEvolve s s
RunsEvolve-refl s u = (Evolves-refl Moves IsStarted Moves-refl s.runs, u)

pub RunsEvolve-trans : (s t u : Database) → RunsEvolve s t → RunsEvolve t u → RunsEvolve s u
RunsEvolve-trans s t u h k unique =
    let (first, unique') = h unique in
    let (second, unique'') = k unique' in
    (
      Evolves-trans Moves IsStarted Moves-trans IsStarted-Moves s.runs t.runs u.runs first second,
      unique'',
    )

abbrev pub lifecycle : Preorder
lifecycle = record { Rel = RunsEvolve; rel_refl = RunsEvolve-refl; rel_trans = RunsEvolve-trans }

-- An update of the runs that each row may go through.
pub RunsEvolve-update_if :
    (p : ProcessingRun → Bool) (f : ProcessingRun → ProcessingRun) (s : Database)
    → ((r : ProcessingRun) → run_id (f r) ≡ run_id r)
    → (HasUniqueIds run_id s.runs
        → (r : ProcessingRun) → Memᴰ r s.runs
        → p r ≡ true
        → Moves r (f r))
    → RunsEvolve s (record s { runs = update_if p f s.runs })
RunsEvolve-update_if p f s same h unique = (
  Evolves-update_if Moves IsStarted Moves-refl p f s.runs (h unique),
  HasUniqueIds-update_if run_id p f s.runs same unique,
)

pub RunsEvolve-append :
    (clash : ProcessingRun → Bool) (n : ProcessingRun) (s : Database)
    → ((r : ProcessingRun) → run_id r ≡ run_id n → clash r ≡ true)
    → n.status ≡ queued
    → any clash s.runs ≡ false
    → RunsEvolve s (record s { runs = s.runs ++ n ∷ [] })
RunsEvolve-append clash n s h e free unique = (
  Evolves-append Moves IsStarted Moves-refl s.runs n (rw e here),
  HasUniqueIds-append run_id clash n s.runs h free unique,
)
