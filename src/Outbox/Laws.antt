-- ===== src/Outbox/Laws.antt =====
-- What an intent leaves behind, and who gets a row that two relays have read.
use vkit_orbit.Base.{
  ℕ, Bool, true, false, ◌≡◌, refl, sym, ap, subst, Option, none, some, List, [], ◌∷◌, Memᴰ, All,
  arith, eq_iff, Bool-cases, inl, inr,
}
use mathlib.Core.List.Memᴰ as Mem
use text.Mathlib.TextPositions.{eq_refl}
use vkit_orbit.Host.{Host}
use vkit_orbit.Json.Canonical.{stable_json}
use vkit_orbit.Store.Schema.{Database, QueueOutbox}
use vkit_orbit.Store.Client.{Client, Result, ok, err}
use vkit_orbit.Store.Rows.{update_if}
use vkit_orbit.Store.Command.{commands, continue, if_some, outbox, find_first, create}
use vkit_orbit.Store.Calls.{update_many_lem}
use vkit_orbit.Store.Counting.{FitsNone, count_if-zero, update_if-same}
use vkit_orbit.Store.Inversion.{>>=_inv, create_inv, branch-throw_inv}
use vkit_orbit.Outbox.{
  Intent, intent_id, is_intent, intent_row, outbox_clash, same_intent, enqueue_intent, is_open,
  is_unchanged, claim, claim_row, claim_rows,
}

-- What an enqueued intent has left: a row of its id in its workspace, with a payload that is the same
-- but for the order of its members.
pub record IsQueued (host : Host) (i : Intent) (s t : Database) (r : QueueOutbox) : Type 0 where
  pub listed : Memᴰ r t.outbox
  pub intended : is_intent i r ≡ true
  pub payload : stable_json host.before r.payload ≡ stable_json host.before i.payload
  pub runs : t.runs ≡ s.runs

module _ (host : Host) (now : ℕ) (i : Intent) where
  IsQueued-old :
      (old r : QueueOutbox) (s t : Database)
      → Memᴰ old s.outbox
      → is_intent i old ≡ true
      → same_intent host i old s ≡ (ok r, t)
      → IsQueued host i s t r
  IsQueued-old old r s t m fits h =
      let (same, is_old, kept) = branch-throw_inv _ old r _ s t h in
      record {
        listed = subst (λ (d : Database). Memᴰ r d.outbox) kept (Mem.cast (sym is_old) m);
        intended = subst (λ x. is_intent i x ≡ true) is_old fits;
        payload =
            subst
              (λ (x : QueueOutbox).
                stable_json host.before x.payload ≡ stable_json host.before i.payload)
              is_old ((eq_iff _ _).0 same);
        runs = ap (λ (d : Database). d.runs) (sym kept);
      }

  IsQueued-new :
      (r : QueueOutbox) (s t : Database)
      → create host.client outbox (outbox_clash (intent_row now i)) (intent_row now i) s ≡ (ok r, t)
      → IsQueued host i s t r
  IsQueued-new r s t h =
      let (free, is_new, put) = create_inv host.client outbox _ (intent_row now i) r s t h in
      record {
        listed =
            subst (λ (d : Database). Memᴰ r d.outbox) (sym put)
              (Mem.append_right s.outbox (Memᴰ.head is_new));
        intended = rw (is_new, eq_refl i.workspace_id, eq_refl (intent_id i)) refl;
        payload = rw is_new refl;
        runs = ap (λ (d : Database). d.runs) put;
      }

  IsQueued-case :
      (o : Option QueueOutbox) (r : QueueOutbox) (s t : Database)
      → host.client.find_first (is_intent i) s.outbox ≡ o
      → if_some o
          (same_intent host i)
          (create host.client outbox (outbox_clash (intent_row now i)) (intent_row now i))
          s
        ≡ (ok r, t)
      → IsQueued host i s t r
  unfolding if_some
  IsQueued-case none r s t e h = IsQueued-new r s t h
  IsQueued-case (some old) r s t e h =
      let (m, fits) = host.client.find_first_some (is_intent i) s.outbox old e in
      IsQueued-old old r s t m fits h

  -- An intent that is enqueued without a throw stands in the outbox: there is a row of its id in its
  -- workspace, whose payload is the intent's but for the order of its members, and the runs are as
  -- they were.
  pub enqueue_intent-IsQueued :
      (s t : Database) (r : QueueOutbox)
      → enqueue_intent host now i s ≡ (ok r, t)
      → IsQueued host i s t r
  unfolding enqueue_intent find_first
  enqueue_intent-IsQueued s t r h =
      let (o, u, found, later) = >>=_inv _ _ r s t h in
      let at_s : s ≡ u = ap (λ y. y.1) found in
      IsQueued-case o r s t (same_option _ o (ap (λ y. y.0) found)) (
        subst
          (λ d.
            if_some o (same_intent host i)
              (create host.client outbox (outbox_clash (intent_row now i)) (intent_row now i)) d
            ≡ (ok r, t))
          (sym at_s) later)
    where
      same_option : (x y : Option QueueOutbox) → ok x ≡ ok y → x ≡ y
      same_option x y e = cc

module _ {R : Type 0} (p : R → Bool) (f : R → R) where
  -- An update after which no changed row fits leaves no row that fits.
  pub update_if-exhausts :
      (rows : List R) → ((r : R) → p r ≡ true → p (f r) ≡ false) → FitsNone p (update_if p f rows)
  update_if-exhausts [] h n m = elim m [ ]
  update_if-exhausts (r ∷ rows) h n (Memᴰ.head e) = elim (Bool-cases (p r)) [
    | inl fits ↦ rw (rw fits at e) (h r fits)
    | inr not_ ↦ rw (rw not_ at e) not_
  ]
  update_if-exhausts (r ∷ rows) h n (Memᴰ.tail m) = update_if-exhausts rows h n m

claim_not_unchanged :
    (now : ℕ) (row r : QueueOutbox)
    → is_open row.status ≡ true
    → is_unchanged row (claim now r) ≡ false
claim_not_unchanged now row r open_ = ground arith

module _ {R : Type 0} (p q : R → Bool) (f : R → R) where
  -- An update by rows that do not fit leaves no row that fits, where there was none.
  update_if-FitsNone :
      (rows : List R)
      → FitsNone p rows
      → ((r : R) → p (f r) ≡ false)
      → FitsNone p (update_if q f rows)
  update_if-FitsNone [] h k n m = h n m
  update_if-FitsNone (r ∷ rows) h k n (Memᴰ.head e) = elim (Bool-cases (q r)) [
    | inl fits ↦ rw (rw fits at e) (k r)
    | inr not_ ↦ rw (rw not_ at e) (h r (Memᴰ.head refl))
  ]
  update_if-FitsNone (r ∷ rows) h k n (Memᴰ.tail m) =
      update_if-FitsNone rows (λ x i. h x (Memᴰ.tail i)) k n m

after_claims :
    (client : Client) (now : ℕ) (row : QueueOutbox) (rows : List QueueOutbox) (s : Database)
    → (claim_rows client now (row ∷ rows) s).1
      ≡ (claim_rows client now rows
          (record s { outbox = update_if (is_unchanged row) (claim now) s.outbox })).1
unfolding claim_rows claim_row commands
after_claims client now row rows s =
    rw (update_many_lem client outbox (is_unchanged row) (claim now) s) (
      same_state
        (claim_rows client now rows
          (record s { outbox = update_if (is_unchanged row) (claim now) s.outbox }))
        _)
  where
    same_state :
        (r : Result (List QueueOutbox) × Database) (g : List QueueOutbox → List QueueOutbox)
        → (continue r (λ rows t. (ok (g rows), t))).1 ≡ r.1
    same_state (ok rows, t) g = refl
    same_state (err e, t) g = refl

module _ (client : Client) (now : ℕ) (row : QueueOutbox) (open_ : is_open row.status ≡ true) where
  claim_rows-FitsNone :
      (rows : List QueueOutbox) (s : Database)
      → FitsNone (is_unchanged row) s.outbox
      → FitsNone (is_unchanged row) (claim_rows client now rows s).1.outbox
  unfolding claim_rows commands
  claim_rows-FitsNone [] s h = h
  claim_rows-FitsNone (x ∷ rows) s h = rw (after_claims client now x rows s) (
      claim_rows-FitsNone rows _ (
        update_if-FitsNone (is_unchanged row) (is_unchanged x) (claim now) s.outbox h
          (λ r. claim_not_unchanged now row r open_)))

  claim_rows-exhausts :
      (rows : List QueueOutbox) (s : Database)
      → Memᴰ row rows
      → FitsNone (is_unchanged row) (claim_rows client now rows s).1.outbox
  claim_rows-exhausts [] s m = elim m [ ]
  claim_rows-exhausts (x ∷ rows) s (Memᴰ.head e) = rw (after_claims client now x rows s) (
      claim_rows-FitsNone rows _ (
        subst (λ y. FitsNone (is_unchanged row) (update_if (is_unchanged y) (claim now) s.outbox)) e
          (update_if-exhausts (is_unchanged row) (claim now) s.outbox
            (λ r _. claim_not_unchanged now row r open_))))
  claim_rows-exhausts (x ∷ rows) s (Memᴰ.tail m) =
      rw (after_claims client now x rows s) (claim_rows-exhausts rows _ m)

-- Of two relays that have read the same open rows, in any state of the table, the first runs its whole
-- loop of claims, and nothing else happens before the second's: the second, over any of those rows in
-- any order, then claims none of them and changes nothing.
pub claim_rows_once :
    (client : Client) (now later : ℕ) (rows others : List QueueOutbox) (s : Database)
    → All (λ row. (is_open row.status ≡ true) × Memᴰ row rows) others
    → claim_rows client later others (claim_rows client now rows s).1
      ≡ (ok [], (claim_rows client now rows s).1)
unfolding claim_rows claim_row commands
claim_rows_once client now later rows [] s h = refl
claim_rows_once client now later rows (row ∷ others) s ((open_, m), h) =
    let t = (claim_rows client now rows s).1 in
    let none_left = claim_rows-exhausts client now row open_ rows s m in
    rw (update_many_lem client outbox (is_unchanged row) (claim later) t) (
      rw (count_if-zero _ t.outbox none_left, update_if-same _ (claim later) t.outbox none_left)
        (rw (claim_rows_once client now later rows others s h) refl))
