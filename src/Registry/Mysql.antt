-- ===== src/Registry/Mysql.antt =====
-- agent/registry.py: `MySQLRunRegistry` over the table `agent_runs` of agent/migration.py, one row
-- for each `run_id`. `reported old new` is the driver's choice whether an UPDATE that takes a row
-- from `old` to `new` counts it in `rowcount`.
use codex_py.Base.{
  Bool, List, Option, Result, String, [], any, configuration_mismatch, err, false, find, guard,
  if◌then◌else◌, integrity_error, is_some, key_error, leb, nat_eq, none, not, ok, run_busy, some,
  string_eq, ℕ, ◌&&◌, ◌++◌, ◌+◌, ◌<>◌, ◌==◌, ◌>>=◌, ◌>>◌, ◌||◌, ◌∷◌,
}
use codex_py.Registry.{
  ended_record, status_text, lease_time, RunRecord, unexpired, leased, released, owned_by,
  new_record,
}
use codex_py.Base.Json.{index, str, Json}

abbrev pub has_run : String → RunRecord → Bool
has_run run_id r = r.run_id == run_id

abbrev or_unknown : String → Option RunRecord → Result RunRecord
or_unknown run_id none = err (key_error ("unknown Agent run: " <> run_id))
or_unknown run_id (some r) = ok r

unfoldable pub get_run : List RunRecord → String → Result RunRecord
get_run rows run_id = or_unknown run_id (find (has_run run_id) rows)

-- lease_expires_at <= UTC_TIMESTAMP(6), which is not true of NULL
abbrev pub expired : Option ℕ → ℕ → Bool
expired none now = false
expired (some t) now = leb t now

-- WHERE of `acquire`
abbrev pub is_free : String → ℕ → RunRecord → Bool
is_free owner now r =
    not (is_some r.lease_owner) || (owned_by owner r || expired r.lease_expires_at now)

-- WHERE of `renew`
abbrev pub is_renewable : String → ℕ → RunRecord → Bool
is_renewable owner now r = owned_by owner r && unexpired r.lease_expires_at now

-- UPDATE ... SET row = change(row) WHERE test(row)
unfoldable pub update_rows :
    (RunRecord → Bool) → (RunRecord → RunRecord) → List RunRecord → List RunRecord
update_rows test change [] = []
update_rows test change (r ∷ rest) =
    let later = update_rows test change rest in if test r then change r ∷ later else r ∷ later

module _ (reported : RunRecord → RunRecord → Bool) where
  -- cursor.rowcount != 0
  unfoldable pub has_changed : (RunRecord → Bool) → (RunRecord → RunRecord) → List RunRecord → Bool
  has_changed test change rows = any (λ r. test r && reported r (change r)) rows

  unfoldable pub acquire :
      List RunRecord → String → String → ℕ → Result (RunRecord × List RunRecord)
  unfolding has_changed update_rows get_run
  acquire rows run_id owner now = do
    let test = λ (r : RunRecord). has_run run_id r && is_free owner now r
    let change = λ (r : RunRecord). leased r owner now
    let rows' = update_rows test change rows
    guard (has_changed test change rows) run_busy
    r ← get_run rows' run_id
    ok (r, rows')

  unfoldable pub renew : List RunRecord → String → String → ℕ → Result (RunRecord × List RunRecord)
  unfolding has_changed update_rows get_run
  renew rows run_id owner now = do
    let test = λ (r : RunRecord). has_run run_id r && is_renewable owner now r
    let change = λ (r : RunRecord). record r { lease_expires_at = some (now + lease_time) }
    let rows' = update_rows test change rows
    guard (has_changed test change rows) run_busy
    r ← get_run rows' run_id
    ok (r, rows')

  unfoldable pub release : List RunRecord → String → String → List RunRecord
  unfolding update_rows
  release rows run_id owner = update_rows (λ r. has_run run_id r && owned_by owner r) released rows

  unfoldable pub set_terminal : List RunRecord → String → String → Json → Result (List RunRecord)
  unfolding has_changed update_rows
  set_terminal rows run_id owner result = do
    status ← index result "status"
    text ← status_text status
    let test = λ (r : RunRecord). has_run run_id r && owned_by owner r
    let change = λ (r : RunRecord). ended_record r result (str text)
    guard (has_changed test change rows) run_busy
    ok (update_rows test change rows)

module _ (fingerprint : Json → String) where
  unfoldable pub create : List RunRecord → String → Json → Result (RunRecord × List RunRecord)
  unfolding get_run
  create rows run_id snapshot = do
    guard (not (any (has_run run_id) rows)) integrity_error
    let rows' = rows ++ (new_record run_id snapshot (fingerprint snapshot) ∷ [])
    r ← get_run rows' run_id
    ok (r, rows')

  unfoldable pub ensure_compatible : List RunRecord → String → Json → Result RunRecord
  unfolding get_run
  ensure_compatible rows run_id snapshot = do
    r ← get_run rows run_id
    guard (r.config_fingerprint == fingerprint snapshot) configuration_mismatch
    ok r
