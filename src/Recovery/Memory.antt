-- ===== src/Recovery/Memory.antt =====
-- agent/recovery.py: `InMemoryStepRecoveryStore`. The store is its list of attempts.
use codex_py.Base.{
  Bool, List, Option, Result, String, [], contains, if◌then◌else◌, keep, last, map, nat_eq, none,
  ok, some, string_eq, suc, ℕ, ◌++◌, ◌+◌, ◌>>=◌, ◌>>◌, ◌∷◌,
}
use codex_py.State.Context.{ContextUpdate}
use codex_py.Recovery.{
  common_version, sort_by, durable_execution, snapshot_of, RecoveryAttempt, RecoverySnapshot,
  is_for, is_of_run, is_open,
}
use codex_py.State.{StepExecution}

-- len(set(xs))
abbrev pub count_distinct : List ℕ → ℕ
count_distinct [] = 0
count_distinct (x ∷ xs) = let rest = count_distinct xs in if contains xs x then rest else suc rest

abbrev pub attempt_numbers : List RecoveryAttempt → List ℕ
attempt_numbers = map (λ (a : RecoveryAttempt). a.attempt)

abbrev pub prior : List RecoveryAttempt → String → ℕ → String → List RecoveryAttempt
prior store run_id revision step_id = keep (is_for run_id revision step_id) store

abbrev pub fresh_number : List RecoveryAttempt → ℕ
fresh_number earlier = count_distinct (attempt_numbers earlier) + 1

abbrev pub number_after : Option RecoveryAttempt → List RecoveryAttempt → ℕ
number_after none earlier = fresh_number earlier
number_after (some latest) earlier =
    if is_open latest.execution.status then latest.attempt else fresh_number earlier

unfoldable pub next_attempt : List RecoveryAttempt → String → ℕ → String → ℕ
next_attempt store run_id revision step_id =
    let earlier = prior store run_id revision step_id in number_after (last earlier) earlier

abbrev pub new_attempt :
    String → ℕ → StepExecution → Option ContextUpdate → Bool → ℕ → RecoveryAttempt
new_attempt run_id attempt durable update recovery version = record {
  run_id = run_id;
  revision = durable.revision;
  step_id = durable.step_id;
  attempt = attempt;
  execution = durable;
  context_update = update;
  recovery = recovery;
  version = version;
}

module _ (store : List RecoveryAttempt) where
  unfoldable pub record_attempt :
      String
      → StepExecution
      → Option ContextUpdate
      → Bool
      → ℕ
      → Result (RecoveryAttempt × List RecoveryAttempt)
  unfolding next_attempt durable_execution
  record_attempt run_id execution update recovery version = do
    durable ← durable_execution execution
    let number = next_attempt store run_id execution.revision execution.step_id
    let added = new_attempt run_id number durable update recovery version
    ok (added, store ++ (added ∷ []))

  -- The early return for a run without records is the general answer on an empty list.
  unfoldable pub restore : String → ℕ → Result RecoverySnapshot
  unfolding snapshot_of
  restore run_id checkpoint = do
    let attempts = sort_by (λ (a : RecoveryAttempt). a.version) (keep (is_of_run run_id) store)
    common_version (last attempts) checkpoint
    snapshot_of attempts checkpoint

  unfoldable pub history : String → List RecoveryAttempt
  history run_id = keep (is_of_run run_id) store
