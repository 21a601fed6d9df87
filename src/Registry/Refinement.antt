-- ===== src/Registry/Refinement.antt =====
-- agent/registry.py: the lease that the MySQL registry grants is the in-memory one's.
use codex_py.Base.{
  Option, ◌+◌, Bool, Result, err, ok, run_busy, List, String, [], false, is_empty, is_some, nat_eq,
  none, not, some, string_eq, true, ℕ, ◌&&◌, ◌==◌, ◌||◌, ◌∷◌, ◌≡◌,
}
use codex_py.Registry.Mysql.{is_free, has_run}
use codex_py.Registry.Memory
use codex_py.Registry.Mysql
use codex_py.Registry.Memory.{other_owner, Records}
use codex_py.Registry.{lease_time, unexpired, leased, RunRecord}
use codex_py.Registry.Mysql

abbrev rows_of : Records → List RunRecord
rows_of [] = []
rows_of ((k, r) ∷ rest) = r ∷ rows_of rest

-- A lease has an owner with a name and an expiry, or neither.
abbrev pub is_consistent : RunRecord → Bool
is_consistent r = elim r.lease_owner [
  | none ↦ not (is_some r.lease_expires_at)
  | some o ↦ not (is_empty o) && is_some r.lease_expires_at
]

abbrev has_key : Records → String → Bool
has_key [] k = false
has_key ((j, r) ∷ rest) k = j == k || has_key rest k

-- Every record is stored once, under its `run_id`.
abbrev pub is_table : Records → Bool
is_table [] = true
is_table ((k, r) ∷ rest) =
    (k == r.run_id) && (not (has_key rest k) && (is_consistent r && is_table rest))

abbrev granted : String → ℕ → RunRecord → Bool
granted owner now r = not (other_owner r.lease_owner owner && unexpired r.lease_expires_at now)

abbrev test_of : String → String → ℕ → RunRecord → Bool
test_of run_id owner now r = has_run run_id r && is_free owner now r

abbrev change_of : String → ℕ → RunRecord → RunRecord
change_of owner now r = leased r owner now

abbrev pub expires_at : ℕ → Option ℕ → Bool
expires_at t none = false
expires_at t (some u) = u == t

-- A row of the run has the expiry that an `acquire` at `now` writes.
abbrev pub has_expiry : String → ℕ → RunRecord → Bool
has_expiry run_id now r = has_run run_id r && expires_at (now + lease_time) r.lease_expires_at

-- Two rows expire at the same time, or neither expires.
abbrev pub same_expiry : RunRecord → RunRecord → Bool
same_expiry r x = elim x.lease_expires_at [
  | none ↦ not (is_some r.lease_expires_at)
  | some t ↦ expires_at t r.lease_expires_at
]

-- The driver counts every row whose expiry an UPDATE changes, whatever it does with rows that are
-- matched and not changed.
abbrev pub CountsChanges : (RunRecord → RunRecord → Bool) → Type 0
CountsChanges reported = (r x : RunRecord) → same_expiry r x ≡ false → reported r x ≡ true

-- What the MySQL registry makes of an answer of the in-memory one: a run that is not stored is
-- busy.
abbrev pub as_mysql : Result (RunRecord × Records) → Result (RunRecord × List RunRecord)
as_mysql (ok (r, records)) = ok (r, rows_of records)
as_mysql (err e) = err run_busy
