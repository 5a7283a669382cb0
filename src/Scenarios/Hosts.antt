-- ===== src/Scenarios/Hosts.antt =====
-- A host for the runs, a database with two documents, and the ids and times of the calls.
use vkit_orbit.Base.{ℕ, String, ◌≡◌, Option, none, List, [], ◌∷◌, Memᴰ}
use vkit_orbit.Host.{Host}
use vkit_orbit.Audit.{Scope}
use vkit_orbit.Json.Print.{◌<>◌}
use vkit_orbit.Store.Reference.{client}
use vkit_orbit.Store.Schema.{Database, Document, ready, ProcessingRun, ProcessingStatus}
use vkit_orbit.Processing.{Target}
use vkit_orbit.Scenarios.Collation.{by_code}

abbrev pub host : Host
host = record {
  client = client;
  before = by_code;
  sha256 = λ s. "digest of " <> s;
  hmac = λ secret s. secret <> s;
}

abbrev pub scope : Scope
scope = record { workspace_id = "ws_a"; principal_id = "usr_a" }

abbrev pub document : String → Document
document id = record {
  id = id;
  workspace_id = "ws_a";
  title = "Notes";
  content_type = "text/plain";
  byte_size = 5;
  status = ready;
}

abbrev pub run : ProcessingStatus → Option ℕ → ProcessingRun
run status lease = record {
  id = "run_1";
  workspace_id = "ws_a";
  document_id = "doc_1";
  revision = 1;
  status = status;
  stage_revision = 1;
  lease_expires_at = lease;
  error_code = none;
  result = none;
  created_at = 10;
}

abbrev pub with_runs : List ProcessingRun → Database
with_runs rows = record {
  documents = document "doc_1" ∷ [];
  artifacts = [];
  runs = rows;
  outbox = [];
  endpoints = [];
  deliveries = [];
  audit_logs = [];
  idempotency_records = [];
  members = [];
  api_keys = [];
  sessions = [];
}

abbrev pub target : Target
target = record { workspace_id = "ws_a"; run_id = "run_1"; revision = 1 }

-- One run has a unique id.
pub single_unique :
    (r a b : ProcessingRun) → Memᴰ a (r ∷ []) → Memᴰ b (r ∷ []) → a.id ≡ b.id → a ≡ b
single_unique r a b (Memᴰ.head p) (Memᴰ.head q) e = cc
single_unique r a b (Memᴰ.head p) (Memᴰ.tail m) e = elim m [ ]
single_unique r a b (Memᴰ.tail m) n e = elim m [ ]
