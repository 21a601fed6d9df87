-- ===== src/Examples/Attempts.antt =====
-- agent/recovery.py on the records of one step: it starts, fails, and starts again.
use codex_py.Base.{
  Bool, Option, Error, other_error, if◌then◌else◌, ◌||◌, ◌&&◌, ◌==◌, contains, find, ℕ, keep,
  String, distinct, nat_eq, some, string_eq, true, ◌∷◌, [], ◌≡◌, false, is_blank, none, ok, refl,
}
use codex_py.Durable.Recovered.{recovered_from-last_execution, or_else}
use codex_py.Durable.Recover.{Recovered, recovered_from, restore_recovery_state}
use codex_py.State.Agent.{AgentState, execution_for, with_step_execution, new_agent_state, has_key}
use codex_py.State.Agent.Update.{updated}
use codex_py.Examples.States.{started, execution}
use codex_py.Recovery.Snapshots.{
  contains-context_of, distinct-context_of, latest_executions-snapshot_of, last_execution,
  same_step,
}
use codex_py.State.Context.{empty_context, new_step_context, ContextUpdate}
use codex_py.State.{completed, failed, running, new_step_execution}
use codex_py.Recovery.{
  context_of, durable_execution, snapshot_of, RecoverySnapshot, RecoveryAttempt,
}
use codex_py.Recovery.Agreement.{record_attempt-Agree}
use codex_py.Recovery.Memory
use codex_py.Recovery.Mysql
use codex_py.Recovery.Mysql.{
  latest_row, attempt_of_columns, context_json, new_row, Row, row_to_attempt,
}
use codex_py.Recovery.Attempts.{IsNumbered-nil, record_attempt-IsNumbered, IsNumbered}
use codex_py.Recovery.Refinement.{Agree}
use codex_py.State.Codec.RoundTrip.{without_stale_evidence}
use codex_py.Recovery.Memory.{new_attempt, record_attempt, next_attempt}

abbrev one : RecoveryAttempt
one = new_attempt "run" 1 (without_stale_evidence (execution 1 "a" running)) none false 7

abbrev two : RecoveryAttempt
two = new_attempt "run" 1 (without_stale_evidence (execution 1 "a" failed)) none false 8

abbrev row_one : Row
row_one = new_row "run" (execution 1 "a" running) 1 none none false 7

abbrev row_two : Row
row_two = new_row "run" (execution 1 "a" failed) 1 none none false 8

one-IsNumbered : IsNumbered (one ∷ [])
unfolding Memory.record_attempt durable_execution next_attempt new_step_execution is_blank
one-IsNumbered =
    record_attempt-IsNumbered [] (one ∷ []) "run" (execution 1 "a" running) none false 7 one
      IsNumbered-nil refl

record_attempt-IsNumbered_example : IsNumbered (one ∷ two ∷ [])
unfolding Memory.record_attempt durable_execution next_attempt new_step_execution is_blank
record_attempt-IsNumbered_example =
    record_attempt-IsNumbered (one ∷ []) (one ∷ two ∷ []) "run" (execution 1 "a" failed) none false
      8 two one-IsNumbered refl

one-Agree : Agree (one ∷ []) (row_one ∷ [])
unfolding row_to_attempt attempt_of_columns durable_execution new_step_execution is_blank
    context_json
one-Agree = (refl, tt)

-- A collation that takes "A" and "a" for the same text, and a column of 255 characters.
abbrev same_letters : String → String → Bool
same_letters x y = (x == y) || ((x == "A" && y == "a") || (x == "a" && y == "A"))

abbrev too_long : Row → Option Error
too_long r = if r.step_id == "long" then some (other_error "Data too long") else none

record_attempt-Agree_example :
    (Memory.record_attempt (one ∷ []) "run" (execution 1 "a" failed) none false 8
      ≡ ok (two, one ∷ two ∷ []))
    × (Mysql.record_attempt same_letters too_long
          (row_one ∷ [])
          (row_one ∷ [])
          "run"
          (execution 1 "a" failed)
          none
          false
          8
        ≡ ok (two, row_one ∷ row_two ∷ []))
    × Agree (one ∷ two ∷ []) (row_one ∷ row_two ∷ [])
unfolding next_attempt is_blank Mysql.update_of_json context_json
record_attempt-Agree_example =
    record_attempt-Agree same_letters too_long (one ∷ []) (row_one ∷ []) one-IsNumbered one-Agree
      "run" (execution 1 "a" failed) none false 8 refl refl (record { reads_back = refl })

-- Steps that the collation does not tell apart share their numbers in the MySQL store only.
collation_runs :
    (Mysql.number_after (latest_row same_letters (row_two ∷ []) "run" 1 "A") ≡ 2)
    × (next_attempt (two ∷ []) "run" 1 "A" ≡ 1)
unfolding next_attempt
collation_runs = (refl, refl)

abbrev two_snapshot : RecoverySnapshot
two_snapshot = record {
  attempts = one ∷ two ∷ [];
  latest_executions = two.execution ∷ [];
  context = empty_context;
  version = 8;
}

two_snapshot_run : snapshot_of (one ∷ two ∷ []) 8 ≡ ok two_snapshot
unfolding snapshot_of new_step_context
two_snapshot_run = refl

-- The step has the execution of its last record, and no other step has one.
latest_executions-snapshot_of_example :
    (two_snapshot.attempts ≡ one ∷ two ∷ [])
    × (two_snapshot.version ≡ 8)
    × ((r : ℕ) (i : String)
        → find (has_key r i) two_snapshot.latest_executions
          ≡ last_execution (keep (same_step r i) (one ∷ two ∷ [])))
latest_executions-snapshot_of_example =
    latest_executions-snapshot_of (one ∷ two ∷ []) 8 two_snapshot refl two_snapshot_run

abbrev read_update : ContextUpdate
read_update = record { files_read = "a.py" ∷ []; files_modified = []; observations = [] }

abbrev write_update : ContextUpdate
write_update = record { files_read = []; files_modified = "a.py" ∷ []; observations = [] }

abbrev three : RecoveryAttempt
three = new_attempt "run" 2 (execution 1 "a" completed) (some read_update) false 9

-- A running attempt that reports a modified file.
abbrev zero : RecoveryAttempt
zero = new_attempt "run" 2 (execution 1 "a" running) (some write_update) false 9

contains-context_of_example :
    (contains (context_of empty_context (zero ∷ three ∷ [])).files_read "a.py" ≡ true)
    × (contains (context_of empty_context (zero ∷ three ∷ [])).files_modified "a.py" ≡ false)
contains-context_of_example = contains-context_of empty_context (zero ∷ three ∷ []) "a.py"

distinct-context_of_example :
    (distinct (context_of empty_context (three ∷ three ∷ [])).files_read ≡ true)
    × (distinct (context_of empty_context (three ∷ three ∷ [])).files_modified ≡ true)
    × (distinct (context_of empty_context (three ∷ three ∷ [])).observations ≡ true)
distinct-context_of_example = distinct-context_of empty_context (three ∷ three ∷ []) refl refl refl

-- The checkpoint says that step "a" is completed, its last record that it failed.
abbrev failed_state : AgentState
failed_state = updated started two.execution

abbrev continued : Recovered
continued = record {
  state = some failed_state;
  active = false;
  attempt = none;
  context = some empty_context;
}

continued_run : recovered_from started two_snapshot ≡ ok continued
unfolding recovered_from restore_recovery_state with_step_execution new_agent_state is_blank
continued_run = refl

recovered_from-last_execution_example :
    (t : AgentState) × (continued.state ≡ some t)
    × ((r : ℕ) (i : String)
        → execution_for t r i
          ≡ or_else
              (last_execution (keep (same_step r i) (one ∷ two ∷ [])))
              (execution_for started r i))
recovered_from-last_execution_example =
    recovered_from-last_execution started (one ∷ two ∷ []) 8 two_snapshot continued refl
      two_snapshot_run continued_run
