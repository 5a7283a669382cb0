-- ===== src/Scenarios/Objects.antt =====
-- Object keys and the storage client at concrete values.
use vkit_orbit.Base.{String, ◌≡◌, ◌⊎◌, refl, none, some, List, [], ◌∷◌}
use vkit_orbit.Json.Print.{◌<>◌}
use vkit_orbit.Store.Client.{ok, err, message}
use vkit_orbit.Collection.Checks.{◌>>=◌, return, fail_if}
use vkit_orbit.Storage.Keys.{
  identifier, source_object_key, result_object_key, normalize_prefix, assert_object_key,
}
use vkit_orbit.Storage.Client.{ObjectStorage, StorageConfig, Content, create_upload_url}
use vkit_orbit.Storage.Paths.{source_object_key_injective, assert_object_key-source_object_key}
use vkit_orbit.Storage.Guarded.{IsInside, AreRefused, calls-AreRefused}

abbrev trim : String → String
trim s = s

-- A presigner that gives the key, and a storage that keeps the keys it was sent.
abbrev storage : ObjectStorage (List String)
storage = record {
  send = λ operation bucket key content q. (ok "", key ∷ q);
  presign = λ operation bucket key seconds q. (ok key, q);
}

abbrev under : String → StorageConfig
under root_prefix = record { bucket = "orbit"; root_prefix = root_prefix }

abbrev source_key : String
source_key = "uploads/workspaces/ws_a/documents/doc_1/source/art_1"

runs_source_key : source_object_key "ws_a" "doc_1" "art_1" ≡ ok source_key
unfolding source_object_key identifier ◌>>=◌ return
runs_source_key = refl

runs_result_key :
    result_object_key "ws_a" "doc_1" "run_1" "art_2"
    ≡ ok "uploads/workspaces/ws_a/documents/doc_1/runs/run_1/results/art_2.json"
unfolding result_object_key identifier ◌>>=◌ return
runs_result_key = refl

runs_bad_part : source_object_key ".." "doc_1" "art_1" ≡ err (message "workspaceId is invalid")
unfolding source_object_key identifier ◌>>=◌ return
runs_bad_part = refl

runs_prefix : normalize_prefix trim "//tenant/a/" ≡ ok "tenant/a"
unfolding normalize_prefix
runs_prefix = refl

runs_upload_url :
    create_upload_url storage trim (under "uploads") "ws_a" "doc_1" "art_1" none []
    ≡ (ok source_key, [])
unfolding create_upload_url source_object_key assert_object_key normalize_prefix identifier ◌>>=◌
    return fail_if
runs_upload_url = refl

-- Under another prefix the URL is for another key than the one that is stored with the document.
runs_upload_url_tenant :
    create_upload_url storage trim (under "tenant") "ws_a" "doc_1" "art_1" none []
    ≡ (ok ("tenant/" <> source_key), [])
unfolding create_upload_url source_object_key assert_object_key normalize_prefix identifier ◌>>=◌
    return fail_if
runs_upload_url_tenant = refl

runs_assert_tenant :
    assert_object_key trim "tenant" source_key
    ≡ err (message "Object key is outside configured prefix")
unfolding assert_object_key normalize_prefix ◌>>=◌ fail_if
runs_assert_tenant = refl

abbrev workspace : String
workspace = "ws_a"

abbrev document : String
document = "doc_1"

abbrev artifact : String
artifact = "art_1"

source_object_key_injective_example :
    (workspace ≡ workspace) × (document ≡ document) × (artifact ≡ artifact)
source_object_key_injective_example =
    source_object_key_injective workspace document artifact workspace document artifact source_key
      runs_source_key runs_source_key

assert_object_key-source_object_key_example : assert_object_key trim "uploads" source_key ≡ ok tt
assert_object_key-source_object_key_example =
    assert_object_key-source_object_key trim "ws_a" "doc_1" "art_1" source_key refl runs_source_key

abbrev content : Content
content = record { body = "{}"; content_type = "application/json"; content_length = some 2 }

calls-AreRefused_example :
    IsInside storage trim (under "uploads") "other/x"
    ⊎ AreRefused storage trim (under "uploads") "other/x" none content []
calls-AreRefused_example = calls-AreRefused storage trim (under "uploads") "other/x" none content []
