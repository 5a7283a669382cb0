-- ===== src/Scenarios/Logs.antt =====
-- Redaction at concrete values.
use vkit_orbit.Base.{◌≡◌, true, false, refl}
use vkit_orbit.Json.{Json, str, num, arr, obj, nil, cons, end, field}
use vkit_orbit.Observability.{
  redact, redacted, sensitive_key, sensitive_value, IsClean, redact-IsClean,
}

abbrev record_of_call : Json
record_of_call = obj (
    field "apiKey" (str "dph_1") (
      field "urls" (arr (cons (str "https://x?X-Amz-Date=1") (cons (str "https://x") nil)))
        (field "attempt" (num 2) end)))

runs_redact :
    redact record_of_call
    ≡ obj (
        field "apiKey" (str redacted) (
          field "urls"
            (arr (cons (str redacted) (cons (str "https://x") nil)))
            (field "attempt" (num 2) end)))
unfolding redact sensitive_key sensitive_value
runs_redact = refl

runs_sensitive_value : (sensitive_value "BEARER x" ≡ true) × (sensitive_value "bearerx" ≡ false)
unfolding sensitive_value
runs_sensitive_value = (refl, refl)

redact-IsClean_example : IsClean (redact record_of_call)
redact-IsClean_example = redact-IsClean record_of_call
