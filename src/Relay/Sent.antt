-- ===== src/Relay/Sent.antt =====
-- When a queue has taken the job of a row.
use vkit_orbit.Base.{
  ℕ, String, Bool, true, false, ◌≡◌, ◌⊎◌, refl, sym, ◌∙◌, subst, Option, none, some, List, [], ◌∷◌,
  Memᴰ, All, eqb, inl, inr, eq_iff, arith, ◌==◌, length, if◌then◌else◌,
}
use vkit_orbit.Json.{Json}
use vkit_orbit.Store.Schema.{OutboxStatus, published, QueueOutbox}
use vkit_orbit.Store.Client.{Result, ok, err}
use vkit_orbit.Queue.Contracts.{JobContract, job_contracts, named, parse_payload}
use vkit_orbit.Queue.JobId.{create_job_id}
use vkit_orbit.Relay.{Channel, Queues, next, required, is_retained, make_room, channel, send}

abbrev pub is_published : OutboxStatus → Bool
is_published published = true
is_published _ = false

next_inv :
    {Q A B : Type 0} (r : Result A × Q) (f : A → Q → Result B × Q) (b : B) (q : Q)
    → next r f ≡ (ok b, q)
    → (a : A) × (p : Q) × (r ≡ (ok a, p)) × (f a p ≡ (ok b, q))
unfolding next
next_inv (ok a, p) f b q h = (a, p, refl, h)
next_inv (err e, p) f b q h = absurd (cc (vkit_orbit.Base.ap (λ y. y.0) h))

required_inv :
    {A : Type 0} (o : Option A) (text : String) (a : A) → required o text ≡ ok a → o ≡ some a
unfolding required
required_inv none text a h = absurd (cc h)
required_inv (some b) text a h = cc h

first : {A B : Type 0} {a b : A} {p q : B} → Path (A × B) (a, p) (b, q) → a ≡ b
first h = vkit_orbit.Base.ap (λ y. y.0) h

-- What a row says of its job: the contract, the business id, the revision and the payload.
abbrev pub Job : Type 0
Job = String × (String × (ℕ × Json))

abbrev pub job : QueueOutbox → Job
job r = (r.contract, (r.business_id, (r.revision, r.payload)))

module _ {Q : Type 0} (queues : Queues Q) (trim : String → String) where
  -- The queues after any calls of them.
  pub data Ran (begun : Q) : Q → Type 0 where
    start : Ran begun begun
    asked :
        {q : Q} (to : Channel) (id : String) → Ran begun q → Ran begun (queues.get_state to id q).1
    removed :
        {q : Q} (to : Channel) (id : String) → Ran begun q → Ran begun (queues.remove to id q).1
    added :
        {q : Q} (to : Channel) (name : String) (payload : Json) (id : String)
        → Ran begun q
        → Ran begun (queues.add to name payload id q).1

  -- A queue has taken a job: in a state that calls of the queues have led to, the call of `add` has
  -- returned, on the queue of the job's contract, with the contract's name, the id that `createJobId`
  -- makes of the contract's name, the business id and the revision, and the payload as the contract's
  -- schema parses it.
  pub record IsSent (begun : Q) (j : Job) : Type 0 where
    pub contract : JobContract
    pub known : named j.0 job_contracts ≡ some contract
    pub to : Channel
    pub routed : channel queues trim contract.queue ≡ some to
    pub job_id : String
    pub addressed : create_job_id trim contract.name j.1.0 j.1.1.0 ≡ ok job_id
    pub payload : Json
    pub parsed : parse_payload trim contract.schema j.1.1.1 ≡ some payload
    pub from : Q
    pub reached : Ran begun from
    pub until : Q
    pub taken : queues.add to contract.name payload job_id from ≡ (ok tt, until)

  make_room-Ran :
      (begun : Q) (to : Channel) (id : String) (state : Option String) (q : Q)
      → Ran begun q
      → Ran begun (make_room queues trim to id state q).1
  make_room-Ran begun to id state q h = go (is_retained state)
    where
      go : (b : Bool) → Ran begun (if b then queues.remove to id q else (ok tt, q)).1
      go true = removed to id h
      go false = h

  next-Ran :
      {A B : Type 0} (begun : Q) (r : Result A × Q) (f : A → Q → Result B × Q)
      → Ran begun r.1
      → ((a : A) (q : Q) → Ran begun q → Ran begun (f a q).1)
      → Ran begun (next r f).1
  unfolding next
  next-Ran begun (ok a, q) f h k = k a q h
  next-Ran begun (err e, q) f h k = h

  -- Sending only calls the queues.
  pub send-Ran :
      (begun : Q) (row : QueueOutbox) (q : Q) → Ran begun q → Ran begun (send queues trim row q).1
  unfolding send
  send-Ran begun row q h = next-Ran begun _ _ h λ contract q₁ h₁. next-Ran begun _ _ h₁ λ to q₂ h₂.
      next-Ran begun _ _ h₂ λ id q₃ h₃. next-Ran begun _ _ (asked to id h₃) λ state q₄ h₄.
        next-Ran begun _ _ (make_room-Ran begun to id state q₄ h₄)
          λ _ q₅ h₅. next-Ran begun _ _ h₅ λ payload q₆ h₆. added to contract.name payload id h₆

  second :
      {A : Type 0} (begun : Q) {r : A × Q} {a : A} {q : Q}
      → r ≡ (a, q)
      → Ran begun r.1
      → Ran begun q
  second begun e h = subst (Ran begun) (vkit_orbit.Base.ap (λ y. y.1) e) h

  pub send-IsSent :
      (begun : Q) (row : QueueOutbox) (q p : Q)
      → Ran begun q
      → send queues trim row q ≡ (ok tt, p)
      → IsSent begun (job row)
  unfolding send
  send-IsSent begun row q p start_ h =
      let (contract, q₁, known, h₁) = next_inv _ _ tt p h in
      let (to, q₂, routed, h₂) = next_inv _ _ tt p h₁ in
      let (id, q₃, addressed, h₃) = next_inv _ _ tt p h₂ in
      let (state, q₄, looked, h₄) = next_inv _ _ tt p h₃ in
      let (_, q₅, freed, h₅) = next_inv _ _ tt p h₄ in
      let (payload, q₆, parsed, h₆) = next_inv _ _ tt p h₅ in
      let at_id = second begun addressed (second begun routed (second begun known start_)) in
      let at_state = second begun looked (asked to id at_id) in
      let at_room = second begun freed (make_room-Ran begun to id state q₄ at_state) in
      record {
        contract = contract;
        known = required_inv _ _ contract (first known);
        to = to;
        routed = required_inv _ _ to (first routed);
        job_id = id;
        addressed = first addressed;
        payload = payload;
        parsed = required_inv _ _ payload (first parsed);
        from = q₆;
        reached = second begun parsed at_room;
        until = p;
        taken = h₆;
      }
