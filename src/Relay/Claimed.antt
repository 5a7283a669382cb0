-- ===== src/Relay/Claimed.antt =====
-- The rows that a relay claims are those of the table, but for their status.
use vkit_orbit.Base.{
  ℕ, String, Bool, true, false, ◌≡◌, ◌⊎◌, refl, sym, ◌∙◌, subst, Option, none, some, List, [], ◌∷◌,
  Memᴰ, All, eqb, inl, inr, eq_iff, arith, ◌==◌, length, if◌then◌else◌,
}
use vkit_orbit.Store.Schema.{Database, claimed, QueueOutbox}
use vkit_orbit.Store.Client.{Client, ok}
use vkit_orbit.Store.Rows.{update_if}
use vkit_orbit.Store.Command.{outbox, find_many}
use vkit_orbit.Store.Calls.{update_many_lem}
use vkit_orbit.Store.Inversion.{>>=_inv, return_inv}
use vkit_orbit.Store.Evolution.{origin}
use vkit_orbit.Outbox.{claim_rows, claim_outbox_batch, is_stale, is_available, release}
use vkit_orbit.Relay.Sent.{job}

-- A row of a table, as it is once it is claimed or released: of the same id and job.
abbrev pub IsFrom : List QueueOutbox → QueueOutbox → Type 0
IsFrom table row = (r : QueueOutbox) × Memᴰ r table × (row.id ≡ r.id) × (job row ≡ job r)

module _ (client : Client) (table : List QueueOutbox) where
  claim_rows-IsFrom :
      (now : ℕ) (rows : List QueueOutbox) (s t : Database) (taken : List QueueOutbox)
      → All (IsFrom table) rows
      → claim_rows client now rows s ≡ (ok taken, t)
      → All (IsFrom table) taken
  unfolding claim_rows
  claim_rows-IsFrom now [] s t taken h e =
      subst (All (IsFrom table)) (return_inv [] taken s t e).0 tt
  claim_rows-IsFrom now (row ∷ rows) s t taken (here, h) e =
      let (n, u, _, e₁) = >>=_inv _ _ taken s t e in
      let (later, v, e₂, e₃) = >>=_inv _ _ taken u t e₁ in
      subst (All (IsFrom table)) (return_inv _ taken v t e₃).0
        (either (eqb n 0) later (claim_rows-IsFrom now rows u v later h e₂))
    where
      either :
          (b : Bool) (later : List QueueOutbox)
          → All (IsFrom table) later
          → All (IsFrom table) (if b then later else record row { status = claimed } ∷ later)
      either true later k = k
      either false later k = (here, k)

released-IsFrom :
    (now : ℕ) (table : List QueueOutbox) (row : QueueOutbox)
    → Memᴰ row (update_if (is_stale now) release table)
    → IsFrom table row
released-IsFrom now table row m =
    let (r, there, e) = origin (λ (x : QueueOutbox). x.id) (is_stale now) release table row m in
    (r, there, same (λ x. x.id) (λ x. refl) r e, same job (λ x. refl) r e)
  where
    same :
        {A : Type 0} (f : QueueOutbox → A)
        → ((x : QueueOutbox) → f (release x) ≡ f x)
        → (r : QueueOutbox) → row ≡ (if is_stale now r then release r else r)
        → f row ≡ f r
    same f h r e = vkit_orbit.Base.ap f e ∙ either (is_stale now r)
      where
        either : (b : Bool) → f (if b then release r else r) ≡ f r
        either true = h r
        either false = refl

pub claim_outbox_batch-IsFrom :
    (client : Client) (now limit : ℕ) (s t : Database) (rows : List QueueOutbox)
    → claim_outbox_batch client now limit s ≡ (ok rows, t)
    → All (IsFrom s.outbox) rows
unfolding claim_outbox_batch find_many
claim_outbox_batch-IsFrom client now limit s t rows e =
    let (_, u, released, e₁) = >>=_inv _ _ rows s t e in
    let (page, v, found, e₂) = >>=_inv _ _ rows u t e₁ in
    let table : u.outbox ≡ update_if (is_stale now) release s.outbox =
      vkit_orbit.Base.ap (λ y. y.1.outbox)
        (sym released ∙ update_many_lem client outbox (is_stale now) release s) in
    claim_rows-IsFrom client s.outbox now page v t rows
      (listed page
        (subst (λ l. All (λ r. Memᴰ r u.outbox × (is_available now r ≡ true)) l)
          (is_page _ page (vkit_orbit.Base.ap (λ y. y.0) found))
          (client.find_many_sound (is_available now) _ limit u.outbox))
        table)
      e₂
  where
    is_page : (xs ys : List QueueOutbox) → ok xs ≡ ok ys → xs ≡ ys
    is_page xs ys h = cc h

    listed :
        {old : List QueueOutbox} (page : List QueueOutbox)
        → All (λ r. Memᴰ r old × (is_available now r ≡ true)) page
        → old ≡ update_if (is_stale now) release s.outbox
        → All (IsFrom s.outbox) page
    listed [] h k = tt
    listed (r ∷ page) ((m, _), h) k =
        (released-IsFrom now s.outbox r (subst (λ l. Memᴰ r l) k m), listed page h k)
