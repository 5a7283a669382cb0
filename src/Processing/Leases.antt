-- ===== src/Processing/Leases.antt =====
-- The lease of a stage keeps a second worker out.
use vkit_orbit.Base.{
  ℕ, ◌+◌, ◌≤◌, String, true, false, ◌≡◌, refl, sym, ap, ◌∙◌, subst, List, [], ◌∷◌, Memᴰ, All, arith,
  eqb, eq_iff, Bool-cases, inl, inr,
}
use vkit_orbit.Store.Schema.{Database, ProcessingRun}
use vkit_orbit.Store.Client.{Client, ok}
use vkit_orbit.Store.Command.{commands, runs}
use vkit_orbit.Store.Calls.{update_many_lem}
use vkit_orbit.Store.Rows.{update_if, count_if}
use vkit_orbit.Store.Counting.{count_if-mem, FitsNone, count_if-zero, update_if-same}
use vkit_orbit.Store.Evolution.{HasUniqueIds, origin, id_if}
use vkit_orbit.Processing.{Stage, Target, is_claimable, leased, claim_stage}

abbrev pub run_id : ProcessingRun → String
run_id r = r.id

-- A claim is one conditional update.
pub claim_stage_lem :
    (client : Client) (now : ℕ) (t : Target) (stage : Stage) (lease : ℕ) (s : Database)
    → claim_stage client now t stage lease s ≡ (
      ok (eqb (count_if (is_claimable now t stage) s.runs) 1),
      record s { runs = update_if (is_claimable now t stage) (leased (now + lease) stage) s.runs },
    )
unfolding claim_stage commands
claim_stage_lem client now t stage lease s = rw (
  update_many_lem client runs (is_claimable now t stage) (leased (now + lease) stage) s,
  commands,
)

claimed_id :
    (time : ℕ) (t : Target) (stage : Stage) (r : ProcessingRun)
    → is_claimable time t stage r ≡ true
    → r.id ≡ t.run_id
claimed_id time t stage r h = (eq_iff r.id t.run_id).0 (ground arith)

-- A run under a lease cannot be claimed up to the end of the lease.
leased_not_claimable :
    (later until : ℕ) (t : Target) (stage stage' : Stage) (r : ProcessingRun)
    → later ≤ until
    → is_claimable later t stage' (leased until stage r) ≡ true
    → ⊥
leased_not_claimable later until t stage stage' r h e = ground arith

-- No claim of the run that a target names, at any stage, can succeed up to a time.
abbrev Held : ℕ → Target → List ProcessingRun → Type 0
Held until t rows =
    (n : ProcessingRun)
    → Memᴰ n rows
    → (later : ℕ) → later ≤ until
    → (stage : Stage) → is_claimable later t stage n ≡ false

module _ (t : Target) (now until : ℕ) (stage : Stage) (rows : List ProcessingRun) where
  -- A claim that succeeds holds the run up to the end of the lease.
  leased_out :
      HasUniqueIds run_id rows
      → (r₀ : ProcessingRun) → Memᴰ r₀ rows
      → is_claimable now t stage r₀ ≡ true
      → Held until t (update_if (is_claimable now t stage) (leased until stage) rows)
  leased_out unique r₀ m₀ claimed n m later h stage' =
      let (r, mr, e) = origin run_id (is_claimable now t stage) (leased until stage) rows n m in
      elim (Bool-cases (is_claimable later t stage' n)) [
        | inl again ↦
            let id : n.id ≡ r.id =
              ap run_id e
              ∙ id_if run_id (leased until stage) (λ _. refl) (is_claimable now t stage r) r in
            let same : r₀ ≡ r =
              unique r₀ r m₀ mr (
                claimed_id now t stage r₀ claimed ∙ sym (claimed_id later t stage' n again) ∙ id) in
            let held : is_claimable now t stage r ≡ true =
              subst (λ x. is_claimable now t stage x ≡ true) same claimed in
            let to : n ≡ leased until stage r = rw held at e in
            absurd (
              leased_not_claimable later until t stage stage' r h
                (subst (λ x. is_claimable later t stage' x ≡ true) to again))
        | inr kept ↦ kept
      ]

-- What can be claimed for another target is not claimed for one that is held.
other_target :
    (at later : ℕ) (t u : Target) (stage stage' : Stage) (r : ProcessingRun) (until : ℕ)
    → is_claimable at t stage r ≡ false
    → is_claimable at u stage r ≡ true
    → is_claimable later t stage' (leased until stage r) ≡ false
other_target at later t u stage stage' r until h k = ground arith

-- A claim by any worker, of any run and stage.
pub record Claim : Type 0 where
  pub at : ℕ
  pub target : Target
  pub stage : Stage
  pub lease : ℕ

-- The database after a sequence of claims.
unfoldable pub claims : Client → List Claim → Database → Database
claims client [] s = s
claims client (c ∷ cs) s = claims client cs (claim_stage client c.at c.target c.stage c.lease s).1

claim-Held :
    (c : Claim) (t : Target) (until : ℕ) (rows : List ProcessingRun)
    → c.at ≤ until
    → Held until t rows
    → Held until t
        (update_if (is_claimable c.at c.target c.stage) (leased (c.at + c.lease) c.stage) rows)
claim-Held c t until rows h held n m later k stage' =
    let p = is_claimable c.at c.target c.stage in
    let (r, mr, e) = origin run_id p (leased (c.at + c.lease) c.stage) rows n m in
    elim (Bool-cases (p r)) [
      | inl taken ↦
          subst (λ x. is_claimable later t stage' x ≡ false) (sym (rw taken at e))
            (other_target c.at later t c.target c.stage stage' r (c.at + c.lease)
              (held r mr c.at h c.stage) taken)
      | inr kept ↦
          subst (λ x. is_claimable later t stage' x ≡ false) (sym (rw kept at e))
            (held r mr later k stage')
    ]

claims-Held :
    (client : Client) (t : Target) (until : ℕ) (cs : List Claim) (s : Database)
    → All (λ c. c.at ≤ until) cs
    → Held until t s.runs
    → Held until t (claims client cs s).runs
unfolding claims
claims-Held client t until [] s h held = held
claims-Held client t until (c ∷ cs) s (h, hs) held = claims-Held client t until cs _ hs (
    subst (λ d. Held until t d.1.runs)
      (sym (claim_stage_lem client c.at c.target c.stage c.lease s))
      (claim-Held c t until s.runs h held))

-- Where no two runs have one id: after a claim that succeeds, and any number of further claims by any
-- workers, of any runs and stages, up to the end of the lease, but no other call in between, no claim of
-- the same run at the same stage revision succeeds up to the end of the lease, for whatever stage, and
-- none changes the database.
pub claim_stage_exclusive :
    (client : Client) (s : Database) (t : Target) (stage stage' : Stage)
    (now later lease lease' : ℕ) (others : List Claim)
    → HasUniqueIds run_id s.runs
    → (claim_stage client now t stage lease s).0 ≡ ok true
    → All (λ c. c.at ≤ now + lease) others
    → later ≤ now + lease
    → claim_stage client later t stage' lease'
        (claims client others (claim_stage client now t stage lease s).1)
      ≡ (ok false, claims client others (claim_stage client now t stage lease s).1)
claim_stage_exclusive client s t stage stage' now later lease lease' others unique won between h =
    let first = claim_stage_lem client now t stage lease s in
    let one : eqb (count_if (is_claimable now t stage) s.runs) 1 ≡ true = ground (arith, first) in
    let (r₀, m₀, claimed) = count_if-mem (is_claimable now t stage) s.runs (ground arith) in
    let held = leased_out t now (now + lease) stage s.runs unique r₀ m₀ claimed in
    let u = claims client others (claim_stage client now t stage lease s).1 in
    let kept : Held (now + lease) t u.runs =
      claims-Held client t (now + lease) others _ between
        (subst (λ d. Held (now + lease) t d.1.runs) (sym first) held) in
    let none_left : FitsNone (is_claimable later t stage') u.runs =
      λ n m. kept n m later h stage' in
    claim_stage_lem client later t stage' lease' u
    ∙ rw (count_if-zero _ u.runs none_left)
        (rw (update_if-same _ (leased (later + lease') stage') u.runs none_left))
