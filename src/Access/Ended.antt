-- ===== src/Access/Ended.antt =====
-- A session that was revoked is over.
use vkit_orbit.Base.{
  ℕ, String, Bool, true, false, not, ◌&&◌, ◌||◌, ◌≡◌, sym, subst, List, Memᴰ, arith, is_some,
  Option-cases, Bool-cases, inl, inr, leb,
}
use vkit_orbit.Host.{Host}
use vkit_orbit.Store.Schema.{Database, Session}
use vkit_orbit.Store.Client.{err, unauthorized}
use vkit_orbit.Store.Rows.{update_if}
use vkit_orbit.Store.Evolution.{origin}
use vkit_orbit.Store.Command.{commands, find_first, sessions}
use vkit_orbit.Store.Calls.{update_many_lem}
use vkit_orbit.Access.Sessions.{
  starts_with, has_token, is_ended, is_running, ended, authenticate_session, revoke_session,
}

module _ (host : Host) (email_of : String → String) (later : ℕ) (secret : String) where
  -- A secret whose sessions are all over opens nothing.
  over_is_refused :
      (s : Database)
      → ((r : Session)
          → Memᴰ r s.sessions
          → has_token host secret r ≡ true
          → is_ended later r ≡ true)
      → authenticate_session host email_of later secret s
        ≡ (err (unauthorized "invalid session"), s)
  unfolding authenticate_session commands find_first
  over_is_refused s over = elim (Bool-cases (starts_with secret "ses_")) [
    | inr wrong ↦ rw wrong
    | inl right ↦ elim (Option-cases (host.client.find_first (has_token host secret) s.sessions)) [
      | inl e ↦ rw (right, e)
      | inr (r, e) ↦
          let (m, fits) = host.client.find_first_some (has_token host secret) s.sessions r e in
          rw (right, e) (rw (over r m fits))
    ]
  ]

  -- Of the sessions that a revocation leaves, those with the secret are over.
  left_over :
      (now : ℕ) (rows : List Session) (r : Session)
      → Memᴰ r (update_if (is_running host secret) (ended now) rows)
      → has_token host secret r ≡ true
      → is_ended later r ≡ true
  left_over now rows r m fits =
      let (o, old, made) =
        origin (λ (x : Session). x.id) (is_running host secret) (ended now) rows r m in
      elim (Bool-cases (is_running host secret o)) [
        | inl running ↦ rw (rw running at made)
        | inr stopped ↦
            let same : r ≡ o = rw stopped at made in
            over (has_token host secret r) (is_some r.revoked_at) (leb r.expires_at later) fits
              (subst (λ x. is_running host secret x ≡ false) (sym same) stopped)
      ]
    where
      over : (a b c : Bool) → a ≡ true → (a && not b) ≡ false → (b || c) ≡ true
      over a b c p q = ground (arith, p, q)

-- Once a session's secret has been revoked, whatever the sessions were, authentication with that
-- secret is refused as unauthorized, at any time, and changes nothing.
pub revoke_session-authenticate :
    (host : Host) (email_of : String → String) (now later : ℕ) (secret : String) (s : Database)
    → authenticate_session host email_of later secret (revoke_session host now secret s).1
      ≡ (err (unauthorized "invalid session"), (revoke_session host now secret s).1)
unfolding revoke_session commands
revoke_session-authenticate host email_of now later secret s =
    rw (update_many_lem host.client sessions (is_running host secret) (ended now) s) (
      over_is_refused host email_of later secret
        (record s { sessions = update_if (is_running host secret) (ended now) s.sessions })
        (left_over host email_of later secret now s.sessions))
