-- ===== src/Realtime/Signing.antt =====
-- A ticket is accepted exactly when it was signed with the secret and has not expired.
use Prim.Native.Char.{Char}
use Prim.Native.String as Text
use text.Mathlib.TextEquality.{Char-path}
use text.Mathlib.TextLemmas.{cons-append, nil-append}
use text.Mathlib.TextPositions.{eq_refl}
use vkit_orbit.Base.{
  ℕ, ◌<◌, String, false, not, ◌||◌, ◌≡◌, refl, sym, ap, ◌∙◌, subst, Option, none, some, List, [],
  ◌∷◌, arith, leb, ◌==◌, eq_iff, if◌then◌else◌, Bool-cases, inl, inr,
}
use vkit_orbit.Base.Texts.{is_char, has_char, split_on}
use vkit_orbit.Json.Print.{◌<>◌, stringify}
use vkit_orbit.Store.Client.{ok, err, message}
use vkit_orbit.Realtime.Ticket.{
  Platform, Claims, is_claims, claims_json, parsed_claims, unexpired, verify_parts, verify_split,
  sign_realtime_ticket, verify_realtime_ticket,
}

one_text : (c : Char) (s : String) → Text.◌∷◌ c "" <> s ≡ Text.◌∷◌ c s
one_text c s = cons-append c "" s ∙ ap (λ t. Text.◌∷◌ c t) (nil-append s)

split_on-none : (n : ℕ) (s : String) → has_char n s ≡ false → split_on n s ≡ (s, [])
split_on-none n Text.[] h = refl
split_on-none n (Text.◌∷◌ c s) h =
    let e = split_on-none n s (ground arith) in
    let f : is_char n c ≡ false = ground arith in rw (e, f) refl

-- The parts of a text, before the first dot and behind it.
split_on-dot :
    (p s : String)
    → has_char b'.' p ≡ false
    → has_char b'.' s ≡ false
    → split_on b'.' (p <> "." <> s) ≡ (p, s ∷ [])
split_on-dot Text.[] s h k =
    ap (split_on b'.') (nil-append _ ∙ one_text "." s) ∙ rw (split_on-none b'.' s k) refl
split_on-dot (Text.◌∷◌ c p) s h k =
    let e = split_on-dot p s (ground arith) k in
    let f : is_char b'.' c ≡ false = ground arith in
    ap (split_on b'.') (cons-append c p _) ∙ rw (e, f) refl

-- The parts put together again.
abbrev join_dots : String → List String → String
join_dots first [] = first
join_dots first (second ∷ others) = first <> "." <> join_dots second others

join_dots-cons :
    (c : Char) (first : String) (others : List String)
    → join_dots (Text.◌∷◌ c first) others ≡ Text.◌∷◌ c (join_dots first others)
join_dots-cons c first [] = refl
join_dots-cons c first (second ∷ others) = cons-append c first _

join_dots-split_on : (s : String) → join_dots (split_on b'.' s).0 (split_on b'.' s).1 ≡ s
join_dots-split_on Text.[] = refl
join_dots-split_on (Text.◌∷◌ c s) =
    let whole = join_dots-split_on s in
    elim (Bool-cases (is_char b'.' c)) [
      | inl e ↦ rw e (
          nil-append _
          ∙ one_text "." _
          ∙ ap (λ t. Text.◌∷◌ "." t) whole
          ∙ ap (λ x. Text.◌∷◌ x s) (Char-path "." c (ground arith)))
      | inr e ↦
          rw e (
            join_dots-cons c (split_on b'.' s).0 (split_on b'.' s).1 ∙ ap (λ t. Text.◌∷◌ c t) whole)
    ]

module _ (platform : Platform) (now : ℕ) (secret : String) where
  abbrev payload : Claims → String
  payload claims = platform.encode (stringify (claims_json claims))

  expiry :
      (claims : Claims)
      → unexpired platform now (some claims) ≡ (
          if leb (platform.time claims.expires_at) now
          then err (message "Expired realtime ticket")
          else ok claims)
  expiry claims = refl

  -- A ticket that was signed is verified under the same secret: up to the time at which it expires it
  -- gives back its claims, and from then on it is refused as expired. Base64url gives back the text of
  -- the claims, JSON gives back the claims, and neither base64url nor the digest has a dot or is empty.
  pub verify_realtime_ticket-sign_realtime_ticket :
      (claims : Claims) (ticket : String)
      → sign_realtime_ticket platform claims secret ≡ ok ticket
      → has_char b'.' (payload claims) ≡ false
      → (payload claims == "") ≡ false
      → has_char b'.' (platform.hmac secret (payload claims)) ≡ false
      → (platform.hmac secret (payload claims) == "") ≡ false
      → platform.decode (payload claims) ≡ stringify (claims_json claims)
      → platform.parse (stringify (claims_json claims)) ≡ some (claims_json claims)
      → verify_realtime_ticket platform now ticket secret ≡ (
          if leb (platform.time claims.expires_at) now
          then err (message "Expired realtime ticket")
          else ok claims)
  unfolding sign_realtime_ticket verify_realtime_ticket
  verify_realtime_ticket-sign_realtime_ticket claims ticket h a b c d back parsed =
      elim (Bool-cases (is_claims platform claims)) [
        | inr bad ↦ absurd (cc (rw bad at h))
        | inl good ↦
            let same : payload claims <> "." <> platform.hmac secret (payload claims) ≡ ticket =
              cc (rw good at h) in
            ap (λ t. let (p, others) = split_on b'.' t in verify_split platform now secret p others)
              (sym same)
            ∙ rw
                (
                  split_on-dot (payload claims) (platform.hmac secret (payload claims)) a c,
                  b,
                  d,
                  eq_refl (platform.hmac secret (payload claims)),
                  back,
                  parsed,
                  good,
                )
                (expiry claims)
      ]

  -- What an accepted ticket is.
  pub record IsSigned (ticket : String) (claims : Claims) : Type 0 where
    pub body : String
    pub signed : ticket ≡ body <> "." <> platform.hmac secret body
    pub read : parsed_claims platform (platform.parse (platform.decode body)) ≡ some claims
    pub fresh : now < platform.time claims.expires_at

  unexpired-fresh :
      (found : Option Claims) (claims : Claims)
      → unexpired platform now found ≡ ok claims
      → (found ≡ some claims) × (now < platform.time claims.expires_at)
  unexpired-fresh none claims h = absurd (cc h)
  unexpired-fresh (some c) claims h = elim (Bool-cases (leb (platform.time c.expires_at) now)) [
    | inl e ↦ absurd (cc (rw e at h))
    | inr e ↦
        let same : c ≡ claims = cc (rw e at h) in
        (ap some same, subst (λ (x : Claims). now < platform.time x.expires_at) same (ground arith))
  ]

  verify_parts-IsSigned :
      (p received : String) (claims : Claims)
      → verify_parts platform now secret p received ≡ ok claims
      → IsSigned (p <> "." <> received) claims
  verify_parts-IsSigned p received claims h =
      elim (Bool-cases (p == "" || received == "" || not (received == platform.hmac secret p))) [
        | inl e ↦ absurd (cc (rw e at h))
        | inr e ↦
            let (read, fresh) = unexpired-fresh _ claims (rw e at h) in
            record {
              body = p;
              signed = ap (λ t. p <> "." <> t) ((eq_iff received _).0 (ground arith));
              read = read;
              fresh = fresh;
            }
      ]

  verify_split-IsSigned :
      (p : String) (others : List String) (claims : Claims)
      → verify_split platform now secret p others ≡ ok claims
      → IsSigned (join_dots p others) claims
  verify_split-IsSigned p [] claims h = absurd (cc h)
  verify_split-IsSigned p (received ∷ []) claims h = verify_parts-IsSigned p received claims h
  verify_split-IsSigned p (received ∷ _ ∷ _) claims h = absurd (cc h)

  -- A ticket is accepted only if it is a payload and the HMAC of this payload under the secret, with a
  -- dot between them; the claims are what the payload reads as, and they have not expired.
  pub verify_realtime_ticket-IsSigned :
      (ticket : String) (claims : Claims)
      → verify_realtime_ticket platform now ticket secret ≡ ok claims
      → IsSigned ticket claims
  unfolding verify_realtime_ticket
  verify_realtime_ticket-IsSigned ticket claims h =
      subst (λ t. IsSigned t claims) (join_dots-split_on ticket)
        (verify_split-IsSigned (split_on b'.' ticket).0 (split_on b'.' ticket).1 claims h)
