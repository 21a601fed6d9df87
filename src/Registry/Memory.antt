-- ===== src/Registry/Memory.antt =====
-- agent/registry.py: `InMemoryRunRegistry`. The fingerprint (SHA-256 over canonical JSON) is a
-- parameter, and `now` is what `server_now` returns.
use codex_py.Base.{
  Bool, List, Option, Result, String, [], configuration_mismatch, err, false, guard, if◌then◌else◌,
  is_empty, key_error, nat_eq, none, not, ok, run_busy, some, string_eq, ℕ, ◌&&◌, ◌+◌, ◌==◌, ◌>>=◌,
  ◌>>◌, ◌∷◌,
}
use codex_py.Registry.{
  ended_record, lease_time, RunRecord, unexpired, leased, released, owned_by, new_record,
}
use codex_py.Base.Json.{index, Json}

abbrev pub Records : Type 0
Records = List (String × RunRecord)

unfoldable pub get_record : Records → String → Result RunRecord
get_record [] run_id = err (key_error run_id)
get_record ((k, r) ∷ rest) run_id =
    let later = get_record rest run_id in if k == run_id then ok r else later

-- self._records[run_id] = record
unfoldable pub put_record : Records → String → RunRecord → Records
put_record [] run_id r = (run_id, r) ∷ []
put_record ((k, x) ∷ rest) run_id r =
    let later = put_record rest run_id r in if k == run_id then (k, r) ∷ rest else (k, x) ∷ later

-- record.lease_owner and record.lease_owner != owner
abbrev pub other_owner : Option String → String → Bool
other_owner none owner = false
other_owner (some o) owner = not (is_empty o) && not (o == owner)

module _ (fingerprint : Json → String) where
  unfoldable pub create : Records → String → Json → RunRecord × Records
  unfolding put_record
  create records run_id snapshot =
      let r = new_record run_id snapshot (fingerprint snapshot) in (r, put_record records run_id r)

  unfoldable pub ensure_compatible : Records → String → Json → Result RunRecord
  unfolding get_record
  ensure_compatible records run_id snapshot = do
    r ← get_record records run_id
    guard (r.config_fingerprint == fingerprint snapshot) configuration_mismatch
    ok r

unfoldable pub acquire : Records → String → String → ℕ → Result (RunRecord × Records)
unfolding get_record put_record
acquire records run_id owner now = do
  r ← get_record records run_id
  guard (not (other_owner r.lease_owner owner && unexpired r.lease_expires_at now)) run_busy
  ok (leased r owner now, put_record records run_id (leased r owner now))

abbrev pub renewed : RunRecord → ℕ → RunRecord
renewed r now = record r { lease_expires_at = some (now + lease_time) }

-- `server_now` is called for the check and again for the new expiry.
unfoldable pub renew : Records → String → String → ℕ → ℕ → Result (RunRecord × Records)
unfolding get_record put_record
renew records run_id owner checked now = do
  r ← get_record records run_id
  guard (owned_by owner r && unexpired r.lease_expires_at checked) run_busy
  ok (renewed r now, put_record records run_id (renewed r now))

unfoldable pub release : Records → String → String → Result Records
unfolding get_record put_record
release records run_id owner = do
  r ← get_record records run_id
  ok (if owned_by owner r then put_record records run_id (released r) else records)

unfoldable pub set_terminal : Records → String → String → Json → Result Records
unfolding get_record put_record
set_terminal records run_id owner result = do
  r ← get_record records run_id
  guard (owned_by owner r) run_busy
  status ← index result "status"
  ok (put_record records run_id (ended_record r result status))
