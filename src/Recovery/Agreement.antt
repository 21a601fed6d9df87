-- ===== src/Recovery/Agreement.antt =====
-- agent/recovery.py: one `record` on each store, and the rows that the MySQL store refuses.
use codex_py.Base.{
  false, Error, Result, all, Option-cases, some, any, List, Option, Bool, Bool-cases, String, [],
  arith, err, inl, inr, integrity_error, none, ok, refl, true, ℕ, ◌++◌, ◌∷◌, ◌≡◌,
}
use codex_py.Recovery.Attempts.{durable-keys, IsNumbered}
use codex_py.Recovery.Refinement.{read_row, is_told_apart, number_after-next_attempt, Agree}
use codex_py.Recovery.Durable.{durable_execution_lem}
use codex_py.Recovery.Mysql.{
  attempt_of_columns, same_event, Row, row_to_attempt, new_row, context_json, update_of_json,
}
use codex_py.State.{is_completed, StepExecution}
use codex_py.Recovery.{RecoveryAttempt, typed_execution, durable_execution}
use codex_py.State.Context.{ContextUpdate}
use codex_py.Recovery.Memory
use codex_py.Recovery.Mysql
use codex_py.Recovery.Memory.{new_attempt}
use codex_py.State.Codec.RoundTrip.{
  is_valid_execution, without_stale_evidence, new_step_execution_of_valid,
}

-- What the constructor of `ContextUpdate` admits: the stored document reads back as the update.
pub record IsStorable (update : Option ContextUpdate) : Type 0 where
  pub reads_back : update_of_json (context_json update) ≡ ok update

typed_execution_of_kept :
    (e : StepExecution)
    → is_valid_execution e ≡ true
    → typed_execution e.revision e.step_id e.status e.result e.error
        (without_stale_evidence e).completion_evidence
      ≡ ok (without_stale_evidence e)
typed_execution_of_kept e v = elim (Bool-cases (is_completed e.status)) [
  | inl done ↦ rw done (
      new_step_execution_of_valid e.revision e.step_id e.status e.result e.error
        e.completion_evidence v)
  | inr going ↦ rw going (
      new_step_execution_of_valid e.revision e.step_id e.status e.result e.error none
        (ground arith))
]

durable_of_kept :
    (e : StepExecution)
    → durable_execution (without_stale_evidence e) ≡ ok (without_stale_evidence e)
unfolding durable_execution
durable_of_kept e = elim (Bool-cases (is_completed e.status)) [
  | inl done ↦ rw done (rw done refl)
  | inr going ↦ rw going (rw going refl)
]

-- The row that `record` inserts reads back as the attempt that it returns.
row_to_attempt-new_row :
    (run_id : String) (e : StepExecution) (n : ℕ) (update : Option ContextUpdate) (recovery : Bool)
    (version : ℕ)
    → is_valid_execution e ≡ true
    → IsStorable update
    → read_row
        (new_row run_id e n (without_stale_evidence e).completion_evidence update recovery version)
      ≡ ok (new_attempt run_id n (without_stale_evidence e) update recovery version)
unfolding row_to_attempt attempt_of_columns
row_to_attempt-new_row run_id e n update recovery version v u =
    rw (u.reads_back, typed_execution_of_kept e v, durable_of_kept e)
      (elim (Bool-cases (is_completed e.status)) [
        | inl done ↦ rw done refl
        | inr going ↦ rw going refl
      ])

Agree-append :
    (store : List RecoveryAttempt) (rows : List Row) (a : RecoveryAttempt) (r : Row)
    → Agree store rows
    → read_row r ≡ ok a
    → Agree (store ++ (a ∷ [])) (rows ++ (r ∷ []))
Agree-append [] [] a r h e = (e, tt)
Agree-append [] (r' ∷ rs) a r h e = absurd h
Agree-append (a' ∷ rest) [] a r h e = absurd h
Agree-append (a' ∷ rest) (r' ∷ rs) a r (h, t) e = (h, Agree-append rest rs a r t e)

-- What `record` adds to each store.
abbrev pub attempt_for :
    List RecoveryAttempt
    → String
    → StepExecution
    → Option ContextUpdate
    → Bool
    → ℕ
    → RecoveryAttempt
attempt_for store run_id e update recovery version =
    new_attempt run_id (Memory.next_attempt store run_id e.revision e.step_id)
      (without_stale_evidence e) update recovery version

abbrev pub row_for :
    List RecoveryAttempt → String → StepExecution → Option ContextUpdate → Bool → ℕ → Row
row_for store run_id e update recovery version =
    new_row run_id e (Memory.next_attempt store run_id e.revision e.step_id)
      (without_stale_evidence e).completion_evidence update recovery version

-- The answer of the MySQL store when the server refuses the row it inserts for its columns, or for
-- its key, or takes it.
abbrev pub answer_of {ℓ} : {A : Type ℓ} → Option Error → Bool → A → Result A
answer_of (some e) taken a = err e
answer_of none true a = err integrity_error
answer_of none false a = ok a

module _ (same_text : String → String → Bool) (refusal : Row → Option Error)
    (store : List RecoveryAttempt) (rows : List Row) (numbered : IsNumbered store)
    (agree : Agree store rows) (run_id : String) (e : StepExecution) (update : Option ContextUpdate)
    (recovery : Bool) (version : ℕ) (valid : is_valid_execution e ≡ true)
    (apart : all (is_told_apart same_text run_id e.step_id) rows ≡ true) where
  memory_record :
      Memory.record_attempt store run_id e update recovery version
      ≡ ok (
        attempt_for store run_id e update recovery version,
        store ++ (attempt_for store run_id e update recovery version ∷ []),
      )
  unfolding Memory.record_attempt
  memory_record = rw (durable_execution_lem e valid) refl

  mysql_record :
      Mysql.record_attempt same_text refusal rows rows run_id e update recovery version
      ≡ answer_of
          (refusal (row_for store run_id e update recovery version))
          (any (same_event same_text (row_for store run_id e update recovery version)) rows)
          (
            attempt_for store run_id e update recovery version,
            rows ++ (row_for store run_id e update recovery version ∷ []),
          )
  unfolding Mysql.record_attempt
  mysql_record =
      let row = row_for store run_id e update recovery version in
      rw
        (
          durable_execution_lem e valid,
          number_after-next_attempt same_text store rows run_id e.revision e.step_id apart numbered
              agree,
        )
        (elim (Option-cases (refusal row)) [
          | inr (x, refused) ↦ rw refused refl
          | inl admitted ↦ rw admitted (elim (Bool-cases (any (same_event same_text row) rows)) [
            | inl taken ↦ rw taken refl
            | inr free ↦
                let (p, q) = durable-keys e (without_stale_evidence e) refl in rw (free, p, q) refl
          ])
        ])

  -- Take agreeing stores whose attempts are numbered, an admitted execution with an update that
  -- reads back, and rows whose run and step the server's collation tells from the given ones
  -- exactly when they differ, no other writer coming between the SELECT and the INSERT. Then
  -- `record` returns the same attempt from both stores, and the stores agree again, but the MySQL
  -- store raises where the in-memory store does not: what the server raises for a row that its
  -- column types refuse, and IntegrityError for a row that meets the table's unique key.
  pub record_attempt-Agree :
      IsStorable update
      → (Memory.record_attempt store run_id e update recovery version
          ≡ ok (
            attempt_for store run_id e update recovery version,
            store ++ (attempt_for store run_id e update recovery version ∷ []),
          ))
        × (Mysql.record_attempt same_text refusal rows rows run_id e update recovery version
            ≡ answer_of
                (refusal (row_for store run_id e update recovery version))
                (any (same_event same_text (row_for store run_id e update recovery version)) rows)
                (
                  attempt_for store run_id e update recovery version,
                  rows ++ (row_for store run_id e update recovery version ∷ []),
                ))
        × Agree
            (store ++ (attempt_for store run_id e update recovery version ∷ []))
            (rows ++ (row_for store run_id e update recovery version ∷ []))
  record_attempt-Agree storable = (
    memory_record,
    mysql_record,
    Agree-append store rows _ _ agree
        (row_to_attempt-new_row run_id e _ update recovery version valid storable),
  )
