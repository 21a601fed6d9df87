-- ===== src/Recovery.antt =====
-- agent/recovery.py: recovery records and the snapshot that both stores build from them.
pub mod Memory
pub mod Mysql
pub mod Durable
pub mod Attempts
pub mod Snapshots
pub mod Order
pub mod Refinement
pub mod Agreement
use codex_py.State.{
  status_name, running, is_completed, new_step_execution, pending, Status, StepExecution,
}
use codex_py.Base.Json.{pos, str, int, items, arr, Json}
use codex_py.State.Context.{new_step_context, ContextUpdate, StepContext, empty_context}
use codex_py.Base.{
  ◌∷◌, Bool, List, Option, Result, String, [], contains, false, guard, if◌then◌else◌, is_some, leb,
  map, nat_eq, none, not, ok, some, string_eq, true, version_mismatch, ℕ, ◌&&◌, ◌++◌, ◌==◌, ◌>>=◌,
  ◌>>◌,
}
use codex_py.State.Codec.{optional_text}

pub record RecoveryAttempt : Type 0 where
  pub run_id : String
  pub revision : ℕ
  pub step_id : String
  pub attempt : ℕ
  pub execution : StepExecution
  pub context_update : Option ContextUpdate
  pub recovery : Bool
  pub version : ℕ

pub record RecoverySnapshot : Type 0 where
  pub attempts : List RecoveryAttempt
  pub latest_executions : List StepExecution
  pub context : StepContext
  pub version : ℕ

abbrev pub typed_execution :
    ℕ → String → Status → Option String → Option String → Option String → Result StepExecution
typed_execution revision step_id status result error evidence =
    new_step_execution (int (pos revision)) (str step_id) (str (status_name status))
      (optional_text result) (optional_text error) (optional_text evidence)

-- _durable_execution
unfoldable pub durable_execution : StepExecution → Result StepExecution
durable_execution e =
    if is_completed e.status
    then ok e
    else if not (is_some e.completion_evidence)
    then ok e
    else typed_execution e.revision e.step_id e.status e.result e.error none

-- The status of an attempt that is still open: a later record of it keeps its number.
abbrev pub is_open : Status → Bool
is_open pending = true
is_open running = true
is_open _ = false

-- run_id and (revision, step_id) agree
abbrev pub is_for : String → ℕ → String → RecoveryAttempt → Bool
is_for run_id revision step_id a =
    a.run_id == run_id && (a.revision == revision && a.step_id == step_id)

abbrev pub is_of_run : String → RecoveryAttempt → Bool
is_of_run run_id a = a.run_id == run_id

-- sorted(xs, key=key): insertion sort, which is stable.
module _ {ℓ} {A : Type ℓ} (key : A → ℕ) where
  abbrev pub insert_by : A → List A → List A
  insert_by x [] = x ∷ []
  insert_by x (y ∷ ys) =
      let rest = insert_by x ys in if leb (key x) (key y) then x ∷ y ∷ ys else y ∷ rest

  abbrev pub sort_by : List A → List A
  sort_by [] = []
  sort_by (x ∷ xs) = insert_by x (sort_by xs)

-- latest[(item.revision, item.step_id)] = item.execution; a dict keeps the first place of a key.
abbrev pub Latest : Type 0
Latest = List (ℕ × String × StepExecution)

unfoldable pub put_latest : ℕ → String → StepExecution → Latest → Latest
put_latest r i e [] = (r, i, e) ∷ []
put_latest r i e ((r', i', e') ∷ d) =
    let rest = put_latest r i e d in
    if r' == r && i' == i then (r', i', e) ∷ d else (r', i', e') ∷ rest

abbrev pub values : Latest → List StepExecution
values = map (λ (r, i, e). e)

-- _append_unique
unfoldable pub append_unique : List String → List String → List String
append_unique target [] = target
append_unique target (v ∷ values) =
    append_unique (if contains target v then target else target ++ (v ∷ [])) values

-- The update that a record contributes to the context.
abbrev pub trusted_update : RecoveryAttempt → Option ContextUpdate
trusted_update a = if is_completed a.execution.status then a.context_update else none

abbrev pub add_context : StepContext → Option ContextUpdate → StepContext
add_context c none = c
add_context c (some u) = record {
  files_read = append_unique c.files_read u.files_read;
  files_modified = append_unique c.files_modified u.files_modified;
  observations = append_unique c.observations u.observations;
}

unfoldable pub latest_of : Latest → List RecoveryAttempt → Latest
unfolding put_latest
latest_of latest [] = latest
latest_of latest (a ∷ rest) = latest_of (put_latest a.revision a.step_id a.execution latest) rest

unfoldable pub context_of : StepContext → List RecoveryAttempt → StepContext
unfolding append_unique
context_of c [] = c
context_of c (a ∷ rest) = context_of (add_context c (trusted_update a)) rest

abbrev pub texts : List String → Json
texts xs = arr (items (map str xs))

-- _snapshot
unfoldable pub snapshot_of : List RecoveryAttempt → ℕ → Result RecoverySnapshot
unfolding latest_of context_of
snapshot_of attempts version = do
  let c = context_of empty_context attempts
  context ← new_step_context (texts c.files_read) (texts c.files_modified) (texts c.observations)
  ok (record {
    attempts = attempts;
    latest_executions = values (latest_of [] attempts);
    context = context;
    version = version;
  })

-- The check that both stores make before they answer.
abbrev pub common_version : Option RecoveryAttempt → ℕ → Result (Unit {0})
common_version none checkpoint = ok tt
common_version (some a) checkpoint = guard (a.version == checkpoint) version_mismatch
