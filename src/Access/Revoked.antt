-- ===== src/Access/Revoked.antt =====
-- A revoked API key opens nothing.
use vkit_orbit.Base.{
  ℕ, String, true, ◌≡◌, refl, sym, ap, ◌∙◌, subst, none, some, List, Memᴰ, ◌==◌, eq_iff,
  Option-cases, inl, inr, if◌then◌else◌,
}
use text.Mathlib.TextPositions.{eq_refl}
use vkit_orbit.Host.{Host}
use vkit_orbit.Store.Schema.{Database, ApiKey}
use vkit_orbit.Store.Client.{ok, err, unauthorized}
use vkit_orbit.Store.Rows.{update_if}
use vkit_orbit.Store.Evolution.{HasUniqueIds, origin, id_if}
use vkit_orbit.Store.Command.{api_keys, commands, find_first}
use vkit_orbit.Store.Inversion.{update_inv}
use vkit_orbit.Access.ApiKeys.{has_secret, is_dead, revoked, authenticate_api_key, revoke_api_key}

abbrev pub hash_of : ApiKey → String
hash_of r = r.secret_hash

module _ (host : Host) (later : ℕ) (secret : String) where
  unknown_is_refused :
      (s : Database)
      → host.client.find_first (has_secret host secret) s.api_keys ≡ none
      → authenticate_api_key host later secret s ≡ (err (unauthorized "invalid API key"), s)
  unfolding authenticate_api_key commands find_first
  unknown_is_refused s e = rw e

  dead_is_refused :
      (s : Database) (r : ApiKey)
      → host.client.find_first (has_secret host secret) s.api_keys ≡ some r
      → is_dead later r ≡ true
      → authenticate_api_key host later secret s ≡ (err (unauthorized "invalid API key"), s)
  unfolding authenticate_api_key commands find_first
  dead_is_refused s r e dead = rw (e, dead)

  -- The row of a revoked key, among rows with different hashes.
  revoked_row :
      (now : ℕ) (key r : ApiKey) (rows : List ApiKey)
      → HasUniqueIds hash_of rows
      → Memᴰ key rows
      → has_secret host secret key ≡ true
      → Memᴰ r (update_if (λ x. x.id == key.id) (revoked now) rows)
      → has_secret host secret r ≡ true
      → r ≡ revoked now key
  revoked_row now key r rows unique there known m found =
      let (o, old, made) = origin hash_of (λ x. x.id == key.id) (revoked now) rows r m in
      let kept : r.secret_hash ≡ o.secret_hash =
        ap hash_of made ∙ id_if hash_of (revoked now) (λ _. refl) (o.id == key.id) o in
      let is_key : o ≡ key = unique o key old there (
        sym kept
        ∙ (eq_iff r.secret_hash (host.sha256 secret)).0 found
        ∙ sym ((eq_iff key.secret_hash (host.sha256 secret)).0 known)) in
      subst (λ x. r ≡ (if x.id == key.id then revoked now x else x)) is_key made
      ∙ rw (eq_refl key.id)

-- Where no two keys have one secret hash: once a key has been revoked, a request with its secret is
-- refused as unauthorized, and changes nothing.
pub revoke_api_key-authenticate :
    (host : Host) (now later : ℕ) (secret : String) (s t : Database) (key n : ApiKey)
    → HasUniqueIds hash_of s.api_keys
    → Memᴰ key s.api_keys
    → has_secret host secret key ≡ true
    → revoke_api_key host.client now key.id s ≡ (ok n, t)
    → authenticate_api_key host later secret t ≡ (err (unauthorized "invalid API key"), t)
unfolding revoke_api_key
revoke_api_key-authenticate host now later secret s t key n unique there known h =
    let at_t : t
        ≡ record s { api_keys = update_if (λ r. r.id == key.id) (revoked now) s.api_keys } =
      update_inv host.client api_keys _ _ n s t h in
    elim (Option-cases (host.client.find_first (has_secret host secret) t.api_keys)) [
      | inl e ↦ unknown_is_refused host later secret t e
      | inr (r, e) ↦
          let (m, fits) = host.client.find_first_some (has_secret host secret) t.api_keys r e in
          let is_revoked =
            revoked_row host later secret now key r s.api_keys unique there known
              (subst (λ (d : Database). Memᴰ r d.api_keys) at_t m) fits in
          dead_is_refused host later secret t r e (ap (is_dead later) is_revoked)
    ]
