-- ===== src/Recovery/Refinement.antt =====
-- agent/recovery.py: the MySQL store numbers and stores what the in-memory store does.
use codex_py.Base.{
  ◌≡◌, Result, nat_eq, if◌then◌else◌, not, all, true, ◌&&◌, ◌==◌, string_eq, Option, Bool,
  Bool-cases, ap, inl, inr, none, refl, some, sym, ◌∙◌, List, >>=-eq-ok, String, [], arith, keep,
  last, ok, ℕ, ◌∷◌,
}
use codex_py.Recovery.Attempts.{nil_of_last, last-attempt_numbers, IsCounted, IsNumbered}
use codex_py.Recovery.Memory.{attempt_numbers, prior, next_attempt}
use codex_py.State.Codec.RoundTrip.{without_stale_evidence}
use codex_py.State.{StepExecution}
use codex_py.Recovery.{is_open, durable_execution, typed_execution, is_for, RecoveryAttempt}
use codex_py.Recovery.Durable.{durable_execution-ok, typed_execution-ok}
use codex_py.Recovery.Mysql.{
  selected_columns, attempt_of_columns, latest_row, row_is_for, update_of_json, Row, row_to_attempt,
}
use codex_py.Recovery.Memory
use codex_py.Recovery.Mysql

-- What `restore` makes of a row of the row's run.
abbrev pub read_row : Row → Result RecoveryAttempt
read_row r = row_to_attempt r.run_id (selected_columns r)

-- The rows of a table read back as the attempts of the in-memory store, one by one.
abbrev pub Agree : List RecoveryAttempt → List Row → Type 0
Agree [] [] = Unit {0}
Agree [] (r ∷ rs) = ⊥
Agree (a ∷ rest) [] = ⊥
Agree (a ∷ rest) (r ∷ rs) = (read_row r ≡ ok a) × Agree rest rs

abbrev pub Reads : Row → RecoveryAttempt → Type 0
Reads r a =
    (a.run_id ≡ r.run_id)
    × (a.revision ≡ r.revision)
    × (a.step_id ≡ r.step_id)
    × (a.attempt ≡ r.attempt)
    × (a.execution.status ≡ r.status)
    × (a.version ≡ r.common_version)

status-without_stale_evidence : (e : StepExecution) → (without_stale_evidence e).status ≡ e.status
status-without_stale_evidence e = ground arith

pub row_to_attempt-Reads : (r : Row) (a : RecoveryAttempt) → read_row r ≡ ok a → Reads r a
unfolding row_to_attempt attempt_of_columns
row_to_attempt-Reads r a h =
    let (update, _, h₁) = >>=-eq-ok (update_of_json r.context_update) _ h in
    let (execution, made, h₂) =
      >>=-eq-ok
        (typed_execution r.revision r.step_id r.status r.result r.error r.completion_evidence) _
        h₁ in
    let (durable, kept, h₃) = >>=-eq-ok (durable_execution execution) _ h₂ in
    let e =
      typed_execution-ok r.revision r.step_id r.status r.result r.error r.completion_evidence
        execution made in
    let d = durable_execution-ok execution durable kept in
    let same = ap (λ (x : StepExecution). x.status) d in
    ground (arith, status-without_stale_evidence execution)

-- Two tests answer alike.
abbrev agrees : Bool → Bool → Bool
agrees a b = if a then b else not b

-- The collation tells the run and the step of a row from the given ones exactly when they differ.
abbrev pub is_told_apart : (String → String → Bool) → String → String → Row → Bool
is_told_apart same_text run_id step_id r =
    agrees (same_text r.run_id run_id) (r.run_id == run_id)
    && agrees (same_text r.step_id step_id) (r.step_id == step_id)

module _ (same_text : String → String → Bool) (run_id : String) (revision : ℕ)
    (step_id : String) where
  same_key :
      (r : Row) (a : RecoveryAttempt)
      → Reads r a
      → is_told_apart same_text run_id step_id r ≡ true
      → is_for run_id revision step_id a ≡ row_is_for same_text run_id revision step_id r
  same_key r a reads apart = ground (arith, apart)

  Agree-keep :
      (store : List RecoveryAttempt) (rows : List Row)
      → Agree store rows
      → all (is_told_apart same_text run_id step_id) rows ≡ true
      → Agree
          (keep (is_for run_id revision step_id) store)
          (keep (row_is_for same_text run_id revision step_id) rows)
  Agree-keep [] [] h apart = tt
  Agree-keep [] (r ∷ rs) h apart = absurd h
  Agree-keep (a ∷ rest) [] h apart = absurd h
  Agree-keep (a ∷ rest) (r ∷ rs) (h, t) apart =
      let same = same_key r a (row_to_attempt-Reads r a h) (ground arith) in
      let kept = Agree-keep rest rs t (ground arith) in
      elim (Bool-cases (row_is_for same_text run_id revision step_id r)) [
        | inl b ↦ rw (same, b) (h, kept)
        | inr b ↦ rw (same, b) kept
      ]

-- The last records of two agreeing lists.
abbrev BothLast : Option RecoveryAttempt → Option Row → Type 0
BothLast none none = Unit {0}
BothLast none (some r) = ⊥
BothLast (some a) none = ⊥
BothLast (some a) (some r) = Reads r a

Agree-last :
    (store : List RecoveryAttempt) (rows : List Row)
    → Agree store rows
    → BothLast (last store) (last rows)
Agree-last [] [] h = tt
Agree-last [] (r ∷ rs) h = absurd h
Agree-last (a ∷ rest) [] h = absurd h
Agree-last (a ∷ []) (r ∷ []) (h, t) = row_to_attempt-Reads r a h
Agree-last (a ∷ []) (r ∷ r' ∷ rs) (h, t) = absurd t
Agree-last (a ∷ a' ∷ rest) (r ∷ []) (h, t) = absurd t
Agree-last (a ∷ a' ∷ rest) (r ∷ r' ∷ rs) (h, t) = Agree-last (a' ∷ rest) (r' ∷ rs) t

running_of :
    (a : RecoveryAttempt) (r : Row) {b : Bool}
    → Reads r a
    → is_open r.status ≡ b
    → is_open a.execution.status ≡ b
running_of a r reads h = ap is_open reads.4 ∙ h

number_of_last :
    (earlier : List RecoveryAttempt) (a : Option RecoveryAttempt) (r : Option Row)
    → last earlier ≡ a
    → BothLast a r
    → IsCounted (attempt_numbers earlier)
    → Mysql.number_after r ≡ Memory.number_after a earlier
number_of_last earlier none none e both c = rw (nil_of_last earlier e) refl
number_of_last earlier none (some r) e both c = absurd both
number_of_last earlier (some a) none e both c = absurd both
number_of_last earlier (some a) (some r) e both c =
    let (last_number, _) = last-attempt_numbers earlier a e in
    let counted = c.counted in
    elim (Bool-cases (is_open r.status)) [
      | inl running ↦ let open' = running_of a r both running in rw (running, open') (sym both.3)
      | inr over ↦ let closed = running_of a r both over in rw (over, closed) (omega arith)
    ]

-- The number that the MySQL store reads off the last row is the one that the in-memory store
-- counts.
pub number_after-next_attempt :
    (same_text : String → String → Bool) (store : List RecoveryAttempt) (rows : List Row)
    (run_id : String) (revision : ℕ) (step_id : String)
    → all (is_told_apart same_text run_id step_id) rows ≡ true
    → IsNumbered store
    → Agree store rows
    → Mysql.number_after (latest_row same_text rows run_id revision step_id)
      ≡ Memory.next_attempt store run_id revision step_id
unfolding next_attempt
number_after-next_attempt same_text store rows run_id revision step_id apart v h =
    let earlier = prior store run_id revision step_id in
    number_of_last earlier (last earlier) (latest_row same_text rows run_id revision step_id) refl
      (Agree-last earlier (keep (row_is_for same_text run_id revision step_id) rows)
        (Agree-keep same_text run_id revision step_id store rows h apart))
      (v run_id revision step_id).numbers
