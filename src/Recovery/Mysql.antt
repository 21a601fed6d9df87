-- ===== src/Recovery/Mysql.antt =====
-- agent/recovery.py: `MySQLStepRecoveryStore` over the table that agent/migration.py creates. The
-- table is its rows in the order of `record_id`, and `context_update` is a JSON document. Two choices
-- of the server are parameters: `same_text`, when its collation takes the texts of two columns for the
-- same, and `refusal`, the error that it raises for a row that its column types do not admit (a text
-- that is too long, a number that is out of range).
use codex_py.Base.{
  type_error, true, false, Error, err, Bool, List, Option, Result, String, [], any, guard,
  if◌then◌else◌, integrity_error, keep, last, nat_eq, none, not, ok, some, string_eq, traverse, ℕ,
  ◌&&◌, ◌++◌, ◌+◌, ◌==◌, ◌>>=◌, ◌>>◌, ◌∷◌,
}
use codex_py.State.Context.{new_step_context, ContextUpdate}
use codex_py.Base.Json.{end, nil, arr, field, index_or, obj, Json}
use codex_py.Recovery.{
  texts, common_version, sort_by, typed_execution, durable_execution, is_open, snapshot_of,
  RecoveryAttempt, RecoverySnapshot,
}
use codex_py.State.{status_name, Status, StepExecution}
use Prim.Native.Nat.{max}

pub record Row : Type 0 where
  pub run_id : String
  pub revision : ℕ
  pub step_id : String
  pub attempt : ℕ
  pub status : Status
  pub result : Option String
  pub error : Option String
  pub completion_evidence : Option String
  pub context_update : Option Json
  pub recovery : Bool
  pub common_version : ℕ

-- WHERE run_id=%s AND revision=%s AND step_id=%s
abbrev pub row_is_for : (String → String → Bool) → String → ℕ → String → Row → Bool
row_is_for same_text run_id revision step_id r =
    same_text r.run_id run_id && (r.revision == revision && same_text r.step_id step_id)

abbrev pub row_of_run : String → Row → Bool
row_of_run run_id r = r.run_id == run_id

-- ORDER BY record_id DESC LIMIT 1
abbrev pub latest_row : (String → String → Bool) → List Row → String → ℕ → String → Option Row
latest_row same_text rows run_id revision step_id =
    last (keep (row_is_for same_text run_id revision step_id) rows)

abbrev pub number_after : Option Row → ℕ
number_after none = 1
number_after (some latest) = if is_open latest.status then latest.attempt else latest.attempt + 1

abbrev pub same_status : Status → Status → Bool
same_status a b = status_name a == status_name b

-- UNIQUE KEY step_recovery_event (run_id, revision, step_id, attempt, status)
abbrev pub same_event : (String → String → Bool) → Row → Row → Bool
same_event same_text r x =
    row_is_for same_text r.run_id r.revision r.step_id x
    && (x.attempt == r.attempt && same_status x.status r.status)

-- _context_json
unfoldable pub context_json : Option ContextUpdate → Option Json
context_json none = none
context_json (some u) = some (
    obj (
      field "files_read" (texts u.files_read) (
        field "files_modified" (texts u.files_modified)
          (field "observations" (texts u.observations) end))))

abbrev is_object : Json → Bool
is_object (obj fs) = true
is_object _ = false

-- `ContextUpdate(**context) if context else None`: every field has the default `()`. Keys that
-- `_context_json` does not write are not modelled.
unfoldable pub update_of_json : Option Json → Result (Option ContextUpdate)
update_of_json none = ok none
update_of_json (some Json.null) = ok none
update_of_json (some (obj end)) = ok none
update_of_json (some document) = do
  guard (is_object document) (type_error "argument after ** must be a mapping")
  guard (is_object document) (type_error "argument after ** must be a mapping")
  read ← index_or document "files_read" (arr nil)
  modified ← index_or document "files_modified" (arr nil)
  observations ← index_or document "observations" (arr nil)
  update ← new_step_context read modified observations
  ok (some update)

-- A row of a cursor: revision, step_id, attempt, status, result, error, completion_evidence (left out
-- of nine columns), context_update, recovery, common_version.
pub data Columns : Type 0 where
  nine : ℕ → String → ℕ → Status → Option String → Option String → Option Json → Bool → ℕ → Columns
  ten :
      ℕ
      → String
      → ℕ
      → Status
      → Option String
      → Option String
      → Option String
      → Option Json
      → Bool
      → ℕ
      → Columns

-- SELECT of `restore`
abbrev pub selected_columns : Row → Columns
selected_columns r =
    ten r.revision r.step_id r.attempt r.status r.result r.error r.completion_evidence
      r.context_update r.recovery r.common_version

unfoldable pub attempt_of_columns :
    String
    → ℕ
    → String
    → ℕ
    → Status
    → Option String
    → Option String
    → Option String
    → Option Json
    → Bool
    → ℕ
    → Result RecoveryAttempt
unfolding update_of_json durable_execution
attempt_of_columns run_id revision step_id attempt status result error evidence raw_context recovery
      version =
    do
      update ← update_of_json raw_context
      execution ← typed_execution revision step_id status result error evidence
      durable ← durable_execution execution
      ok (record {
        run_id = run_id;
        revision = revision;
        step_id = step_id;
        attempt = attempt;
        execution = durable;
        context_update = update;
        recovery = recovery;
        version = version;
      })

-- _row_to_attempt
unfoldable pub row_to_attempt : String → Columns → Result RecoveryAttempt
unfolding attempt_of_columns
row_to_attempt run_id (nine revision step_id attempt status result error raw_context recovery v) =
    attempt_of_columns run_id revision step_id attempt status result error none raw_context recovery
      v
row_to_attempt run_id
      (ten revision step_id attempt status result error evidence raw_context recovery v) =
    attempt_of_columns run_id revision step_id attempt status result error evidence raw_context
      recovery v

abbrev pub new_row :
    String → StepExecution → ℕ → Option String → Option ContextUpdate → Bool → ℕ → Row
new_row run_id e attempt evidence update recovery version = record {
  run_id = run_id;
  revision = e.revision;
  step_id = e.step_id;
  attempt = attempt;
  status = e.status;
  result = e.result;
  error = e.error;
  completion_evidence = evidence;
  context_update = context_json update;
  recovery = recovery;
  common_version = version;
}

abbrev pub raise_refusal : Option Error → Result (Unit {0})
raise_refusal none = ok tt
raise_refusal (some e) = err e

module _ (same_text : String → String → Bool) (refusal : Row → Option Error) where
  -- `seen` are the rows when the SELECT reads them, `rows` those when the INSERT is made: the SELECT
  -- takes no lock.
  unfoldable pub record_attempt :
      List Row
      → List Row
      → String
      → StepExecution
      → Option ContextUpdate
      → Bool
      → ℕ
      → Result (RecoveryAttempt × List Row)
  unfolding context_json durable_execution
  record_attempt seen rows run_id execution update recovery version = do
    let attempt =
        number_after (latest_row same_text seen run_id execution.revision execution.step_id)
    durable ← durable_execution execution
    let row : Row =
        new_row run_id execution attempt durable.completion_evidence update recovery version
    raise_refusal (refusal row)
    guard (not (any (same_event same_text row) rows)) integrity_error
    ok (
      record {
        run_id = run_id;
        revision = execution.revision;
        step_id = execution.step_id;
        attempt = attempt;
        execution = durable;
        context_update = update;
        recovery = recovery;
        version = version;
      },
      rows ++ (row ∷ []),
    )

module _ (rows : List Row) where
  -- ORDER BY common_version, record_id
  unfoldable pub restore : String → ℕ → Result RecoverySnapshot
  unfolding row_to_attempt snapshot_of
  restore run_id checkpoint = do
    let selected = sort_by (λ (r : Row). r.common_version) (keep (row_of_run run_id) rows)
    attempts ← traverse (λ r. row_to_attempt run_id (selected_columns r)) selected
    common_version (last attempts) checkpoint
    snapshot_of attempts checkpoint

  -- COALESCE(MAX(common_version), 0)
  abbrev max_version : List Row → ℕ
  max_version [] = 0
  max_version (r ∷ rs) = max r.common_version (max_version rs)

  unfoldable pub latest_version : String → ℕ
  latest_version run_id = max_version (keep (row_of_run run_id) rows)

  unfoldable pub history : String → Result (List RecoveryAttempt)
  unfolding restore latest_version
  history run_id = do snapshot ← restore run_id (latest_version run_id); ok snapshot.attempts
