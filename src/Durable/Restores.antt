-- ===== src/Durable/Restores.antt =====
-- agent/durable.py over `InMemoryStepRecoveryStore` of agent/recovery.py: what a run can restore
-- after the graph has stopped.
use codex_py.Base.{
  ◌≤◌, Bool, eq_iff, keep-append, ◌>>=◌ as bind_result, Result, String, err, keep, ok, ◌+◌, List,
  Option, [], ap, arith, if◌then◌else◌, last, leb, none, refl, some, sym, ℕ, ◌++◌, ◌∙◌, ◌∷◌, ◌≡◌,
}
use codex_py.Durable.{GraphState, Node, StepExecutor, RecoveryStore}
use codex_py.Durable.Runs.{walk}
use codex_py.Durable.Versions.{IsVersioned, walk-Aligned}
use codex_py.Recovery.{
  RecoveryAttempt, sort_by, insert_by, is_of_run, snapshot_of, common_version, durable_execution,
}
use codex_py.Recovery.Memory.{record_attempt, restore, history, new_attempt, next_attempt}
use codex_py.State.{Plan, StepExecution}
use codex_py.State.Context.{ContextUpdate}
use codex_py.State.Agent.{AgentState}
use codex_py.Base.Json.{Json}
use codex_py.Base.Effect.{Run, After}

-- max(a, b)
abbrev pub larger : ℕ → ℕ → ℕ
larger a b = if leb a b then b else a

-- max(key(x) for x in xs), zero when there is none.
abbrev pub largest : {A : Type 0} → (A → ℕ) → List A → ℕ
largest key [] = 0
largest key (x ∷ xs) = larger (key x) (largest key xs)

abbrev key_of : {A : Type 0} → (A → ℕ) → Option A → ℕ
key_of key none = 0
key_of key (some x) = key x

module _ {A : Type 0} (key : A → ℕ) where
  last-largest : (xs : List A) → key_of key (last xs) ≤ largest key xs
  last-largest [] = omega arith
  last-largest (x ∷ []) = ground arith
  last-largest (x ∷ y ∷ ys) = ground (arith, last-largest (y ∷ ys))

  last-insert_by :
      (y x : A) (ys : List A) → last (y ∷ insert_by key x ys) ≡ last (insert_by key x ys)
  last-insert_by y x [] = refl
  last-insert_by y x (z ∷ zs) = ground arith

  insert_by-last :
      (x : A) (ys : List A)
      → key_of key (last ys) ≡ largest key ys
      → key_of key (last (insert_by key x ys)) ≡ larger (key x) (largest key ys)
  insert_by-last x [] h = ground arith
  insert_by-last x (y ∷ []) h = ground arith
  insert_by-last x (y ∷ z ∷ zs) h =
      ground
        (arith, h, last-largest (z ∷ zs), insert_by-last x (z ∷ zs), last-insert_by y x (z ∷ zs))

  insert_by-largest :
      (x : A) (ys : List A) → largest key (insert_by key x ys) ≡ larger (key x) (largest key ys)
  insert_by-largest x [] = ground arith
  insert_by-largest x (y ∷ ys) = ground (arith, insert_by-largest x ys)

  sort_by-largest : (xs : List A) → largest key (sort_by key xs) ≡ largest key xs
  sort_by-largest [] = refl
  sort_by-largest (x ∷ xs) =
      insert_by-largest x (sort_by key xs) ∙ ap (larger (key x)) (sort_by-largest xs)

  -- The last element of a sorted list has the largest key.
  sort_by-last : (xs : List A) → key_of key (last (sort_by key xs)) ≡ largest key xs
  sort_by-last [] = refl
  sort_by-last (x ∷ xs) =
      insert_by-last x (sort_by key xs) (sort_by-last xs ∙ sym (sort_by-largest xs))
      ∙ ap (larger (key x)) (sort_by-largest xs)

  largest-snoc :
      (xs : List A) (y : A) → largest key (xs ++ (y ∷ [])) ≡ larger (largest key xs) (key y)
  largest-snoc [] y = ground arith
  largest-snoc (x ∷ xs) y = ground (arith, largest-snoc xs y)

abbrev pub version_of : RecoveryAttempt → ℕ
version_of a = a.version

abbrev pub of_run : String → List RecoveryAttempt → List RecoveryAttempt
of_run run_id = keep (is_of_run run_id)

-- The store and the world outside.
abbrev pub Stored : Type 0 → Type 0
Stored V = List RecoveryAttempt × V

module _ {V : Type 0} where
  abbrev keep_store :
      Result (RecoveryAttempt × List RecoveryAttempt) → Run (Stored V) RecoveryAttempt
  keep_store (err e) w = (err e, w)
  keep_store (ok (a, l)) (old, v) = (ok a, (l, v))

  unfoldable pub memory_store : RecoveryStore (Stored V)
  unfolding record_attempt restore history
  memory_store = record {
    save = λ run_id e update recovery version w.
        keep_store (record_attempt w.0 run_id e update recovery version) w;
    restore = λ run_id version w. (restore w.0 run_id version, w);
    history = λ run_id w. (ok (history w.0 run_id), w);
  }

  -- A call outside the program does not write the store.
  abbrev pub beside : {A : Type 0} → Run V A → Run (Stored V) A
  beside m (l, v) = let (r, u) = m v in (r, (l, u))

  abbrev pub newest_version : String → Stored V → ℕ
  newest_version run_id w = largest version_of (of_run run_id w.0)

  newest_version-snoc :
      (run_id : String) (l : List RecoveryAttempt) (a : RecoveryAttempt) (v : V)
      → a.run_id ≡ run_id
      → newest_version run_id (l ++ (a ∷ []), v) ≡ larger (newest_version run_id (l, v)) a.version
  newest_version-snoc run_id l a v same =
      ap (largest version_of) (keep-append (is_of_run run_id) l (a ∷ []))
      ∙ (ap (λ xs. largest version_of (of_run run_id l ++ xs))
            (ground (arith, eq_iff a.run_id run_id))
          ∙ largest-snoc version_of (of_run run_id l) a)

  add_durable-After :
      (run_id : String) (number : ℕ) (durable : Result StepExecution)
      (update : Option ContextUpdate) (recovery : Bool) (version : ℕ) (l : List RecoveryAttempt)
      (v : V)
      → version ≡ newest_version run_id (l, v) + 1
      → After
          (λ a u. newest_version run_id u ≡ version)
          (λ u. newest_version run_id u ≡ newest_version run_id (l, v))
          (keep_store
            (bind_result durable (λ d.
              let added = new_attempt run_id number d update recovery version in
              ok (added, l ++ (added ∷ []))))
            (l, v))
  add_durable-After run_id number (err e) update recovery version l v h = refl
  add_durable-After run_id number (ok d) update recovery version l v h =
      newest_version-snoc run_id l (new_attempt run_id number d update recovery version) v refl
      ∙ ground (arith, h)

  module _ (planner : AgentState → Option Json → Run V Plan) (executor : StepExecutor V) where
    abbrev pub planner_beside : AgentState → Option Json → Run (Stored V) Plan
    planner_beside s input = beside (planner s input)

    abbrev pub executor_beside : StepExecutor (Stored V)
    executor_beside s r i c active attempt = beside (executor s r i c active attempt)

    memory_store-IsVersioned : IsVersioned planner_beside executor_beside memory_store
    unfolding memory_store record_attempt
    memory_store-IsVersioned = record {
      newest = newest_version;
      saved = λ run_id e update recovery version w h.
          add_durable-After run_id (next_attempt w.0 run_id e.revision e.step_id)
            (durable_execution e) update recovery version w.0 w.1 h;
      planned = λ run_id s input w. refl;
      executed = λ run_id s r i c active attempt w. refl;
    }

common_version-ok :
    (found : Option RecoveryAttempt) (version : ℕ)
    → key_of version_of found ≡ version
    → common_version found version ≡ ok tt
common_version-ok none version h = refl
common_version-ok (some a) version h = ground (arith, h)

-- The attempts of a run in the order of their versions.
abbrev pub sorted_attempts : String → List RecoveryAttempt → List RecoveryAttempt
sorted_attempts run_id l = sort_by version_of (of_run run_id l)

restore-newest :
    (l : List RecoveryAttempt) (run_id : String) (version : ℕ)
    → largest version_of (of_run run_id l) ≡ version
    → restore l run_id version ≡ snapshot_of (sorted_attempts run_id l) version
unfolding restore
restore-newest l run_id version h =
    rw
      (common_version-ok (last (sorted_attempts run_id l)) version
        (sort_by-last version_of (of_run run_id l) ∙ h))
      refl

module _ {V : Type 0} (planner : AgentState → Option Json → Run V Plan)
    (executor : StepExecutor V) where
  -- What `restore` answers where the walk stops.
  abbrev pub RestoredAfter : ℕ → Node → GraphState → List RecoveryAttempt → V → Type 0
  RestoredAfter fuel n g l v =
      let stopped =
        walk (planner_beside planner executor) (executor_beside planner executor)
          (some memory_store) fuel n g (l, v) in
      let c = stopped.0.checkpoint in
      restore stopped.1.0 c.run_id c.persistence_version
      ≡ snapshot_of (sorted_attempts c.run_id stopped.1.0) c.persistence_version

  -- When a walk of the graph starts with a checkpoint that has the version of the newest record of
  -- its run in the in-memory store, or zero and no record, then wherever it stops, whether or not
  -- something was raised, `restore` at the version of its checkpoint makes the snapshot of all
  -- attempts of the run and does not raise the error of a version mismatch.
  pub walk-restore :
      (fuel : ℕ) (n : Node) (g : GraphState) (l : List RecoveryAttempt) (v : V)
      → newest_version g.run_id (l, v) ≡ g.persistence_version
      → RestoredAfter fuel n g l v
  unfolding memory_store-IsVersioned
  walk-restore fuel n g l v h =
      let p = planner_beside planner executor in
      let e = executor_beside planner executor in
      let stopped = walk p e (some memory_store) fuel n g (l, v) in
      restore-newest stopped.1.0 stopped.0.checkpoint.run_id
        stopped.0.checkpoint.persistence_version
        (walk-Aligned p e memory_store (memory_store-IsVersioned planner executor) fuel n g (l, v)
          h)
