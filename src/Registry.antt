-- ===== src/Registry.antt =====
-- agent/registry.py: run records, and the fields that an update of a lease changes.
pub mod Memory
pub mod Mysql
pub mod Calls
pub mod Leases
pub mod Refinement
use codex_py.Base.{
  Bool, ltb, Option, Result, String, err, false, nat_eq, none, not, ok, some, string_eq, type_error,
  ℕ, ◌+◌, ◌==◌,
}
use codex_py.Base.Json.{str, Json}

-- Times are microseconds. `run_id` is the key of the map or table that holds the record.
pub record RunRecord : Type 0 where
  pub run_id : String
  pub thread_id : String
  pub status : Json
  pub config_snapshot : Json
  pub config_fingerprint : String
  pub terminal_result : Option Json
  pub lease_owner : Option String
  pub lease_expires_at : Option ℕ

-- timedelta(seconds=LEASE_SECONDS), INTERVAL 60 SECOND
abbrev pub lease_time : ℕ
lease_time = 60000000

abbrev pub leased : RunRecord → String → ℕ → RunRecord
leased r owner now = record r {
  lease_owner = some owner;
  lease_expires_at = some (now + lease_time);
}

abbrev pub released : RunRecord → RunRecord
released r = record r { lease_owner = none; lease_expires_at = none }

-- record.lease_owner == owner
abbrev pub is_owner : Option String → String → Bool
is_owner none owner = false
is_owner (some o) owner = o == owner

abbrev pub owned_by : String → RunRecord → Bool
owned_by owner r = is_owner r.lease_owner owner

-- record.lease_expires_at and record.lease_expires_at > now; lease_expires_at > UTC_TIMESTAMP(6)
abbrev pub unexpired : Option ℕ → ℕ → Bool
unexpired none now = false
unexpired (some t) now = ltb now t

abbrev pub new_record : String → Json → String → RunRecord
new_record run_id snapshot fingerprint = record {
  run_id = run_id;
  thread_id = run_id;
  status = str "running";
  config_snapshot = snapshot;
  config_fingerprint = fingerprint;
  terminal_result = none;
  lease_owner = none;
  lease_expires_at = none;
}

-- result["status"] as the value of a text column
abbrev pub status_text : Json → Result String
status_text (str s) = ok s
status_text _ = err (type_error "status is not text")

abbrev pub ended_record : RunRecord → Json → Json → RunRecord
ended_record r result status = record r { status = status; terminal_result = some result }
