-- ===== src/Scenarios/Templates.antt =====
-- Templates of the configuration at concrete values.
use vkit_orbit.Base.{◌≡◌, ◌≢◌, refl, none, some, [], ◌∷◌, arith, if◌then◌else◌, ◌==◌}
use vkit_orbit.Json.{Json, str, num, arr, obj, nil, cons, end, field}
use vkit_orbit.Config.Scan.{
  done, refused, stuck, missing_variable, malformed_template, templated_keys, Environment, piece,
  variable, both, made, read, scan, scan_all, config_error,
}
use vkit_orbit.Config.Interpolation.{interpolate_selected, validate_templates}
use vkit_orbit.Config.Templates.{scan_ends}
use vkit_orbit.Config.Validated.{IsResolved, interpolate_selected-IsResolved}
use vkit_orbit.Config.Escaping.{escape, scan_all-escape}

abbrev environment : Environment
environment name =
    if name == "HOST" then some "db${X}" else if name == "EMPTY" then some "" else none

runs_scan :
    scan_all (some environment) [] "pg://${HOST}/${EMPTY:-orbit}?$${p}"
    ≡ done "pg://db${X}/orbit?${p}"
unfolding scan_all scan read piece variable both
runs_scan = refl

runs_missing :
    scan_all (some environment) ("database" ∷ []) "${HOST}${PORT}"
    ≡ refused ("database" ∷ []) (missing_variable "PORT")
unfolding scan_all scan read piece variable both
runs_missing = refl

runs_malformed : scan_all none [] "a${x}" ≡ refused [] malformed_template
unfolding scan_all scan read piece variable both
runs_malformed = refl

runs_nested : scan_all none [] "${A:-${B}}" ≡ refused [] malformed_template
unfolding scan_all scan read piece variable both
runs_nested = refl

runs_error :
    config_error
      (record { file_path = "config.yaml"; runtime = "api" })
      ("api" ∷ "port" ∷ [])
      (missing_variable "PORT")
    ≡ "Configuration config.yaml [api] api.port: missing environment variable PORT"
unfolding config_error
runs_error = refl

abbrev document : Json
document = obj (
    field "url" (str "pg://${HOST}")
      (field "ports" (arr (cons (num 1) (cons (str "${P:-2}") nil))) end))

runs_interpolation :
    interpolate_selected environment [] document
    ≡ done (
        obj (
          field "url"
            (str "pg://db${X}")
            (field "ports" (obj (field "0" (num 1) (field "1" (str "2") end))) end)))
unfolding interpolate_selected made scan_all scan read piece variable both
    vkit_orbit.Json.Print.decimal
runs_interpolation = refl

runs_key : validate_templates [] (obj (field "a${B}" (num 1) end)) ≡ refused [] templated_keys
unfolding validate_templates both
runs_key = refl

scan_ends_example :
    (scan (some environment) [] 8 "${HOST}" ≡ scan_all (some environment) [] "${HOST}")
    × (scan (some environment) [] 8 "${HOST}" ≢ stuck)
scan_ends_example = scan_ends (some environment) [] 8 "${HOST}" (omega arith)

document_is_valid : validate_templates [] document ≡ done tt
unfolding validate_templates made scan_all scan read piece variable both
document_is_valid = refl

interpolate_selected-IsResolved_example :
    IsResolved environment (interpolate_selected environment [] document)
interpolate_selected-IsResolved_example =
    interpolate_selected-IsResolved environment [] [] document document_is_valid

scan_all-escape_example : scan_all none [] (escape "price ${USD} $$${") ≡ done "price ${USD} $$${"
scan_all-escape_example = scan_all-escape none [] "price ${USD} $$${"
