-- ===== src/Recovery/Snapshots.antt =====
-- agent/recovery.py: what a snapshot holds.
use codex_py.Base.{
  >>=-eq-ok, all, find, keep, last, ok, Bool-cases, any, false, inl, inr, ◌++◌, List, Bool, Option,
  String, [], ap, arith, contains, distinct, eq_iff, if◌then◌else◌, nat_eq, none, refl, some,
  string_eq, true, ℕ, ◌&&◌, ◌==◌, ◌||◌, ◌∙◌, ◌∷◌, ◌≡◌,
}
use codex_py.State.Context.{new_step_context, ContextUpdate, StepContext}
use codex_py.Recovery.{
  RecoverySnapshot, values, snapshot_of, add_context, trusted_update, RecoveryAttempt, put_latest,
  append_unique, context_of, latest_of, Latest,
}
use codex_py.State.Agent.{has_key}
use codex_py.State.{is_completed, StepExecution}

abbrev pub same_step : ℕ → String → RecoveryAttempt → Bool
same_step r i a = a.revision == r && a.step_id == i

abbrev pub lookup_latest : ℕ → String → Latest → Option StepExecution
lookup_latest r i [] = none
lookup_latest r i ((r', i', e) ∷ d) =
    let rest = lookup_latest r i d in if r' == r && i' == i then some e else rest

lookup_latest-put_latest :
    (r : ℕ) (i : String) (e : StepExecution) (r' : ℕ) (i' : String) (d : Latest)
    → lookup_latest r' i' (put_latest r i e d)
      ≡ (if r == r' && i == i' then some e else lookup_latest r' i' d)
unfolding put_latest
lookup_latest-put_latest r i e r' i' [] = refl
lookup_latest-put_latest r i e r' i' ((s, j, x) ∷ d) =
    ground (arith, eq_iff j i, eq_iff j i', eq_iff i i', lookup_latest-put_latest r i e r' i' d)

-- The execution of the last record of a step, or what was known before.
abbrev pub latest_execution :
    ℕ → String → Option StepExecution → List RecoveryAttempt → Option StepExecution
latest_execution r i known [] = known
latest_execution r i known (a ∷ rest) =
    latest_execution r i (if same_step r i a then some a.execution else known) rest

lookup_latest-latest_of :
    (r : ℕ) (i : String) (d : Latest) (attempts : List RecoveryAttempt)
    → lookup_latest r i (latest_of d attempts) ≡ latest_execution r i (lookup_latest r i d) attempts
unfolding latest_of
lookup_latest-latest_of r i d [] = refl
lookup_latest-latest_of r i d (a ∷ rest) =
    lookup_latest-latest_of r i (put_latest a.revision a.step_id a.execution d) rest
    ∙ ap (λ known. latest_execution r i known rest)
        (lookup_latest-put_latest a.revision a.step_id a.execution r i d)

abbrev pub execution_of : Option RecoveryAttempt → Option StepExecution
execution_of none = none
execution_of (some a) = some a.execution

-- The execution of the last record of a list.
abbrev pub last_execution : List RecoveryAttempt → Option StepExecution
last_execution attempts = execution_of (last attempts)

abbrev final_execution : Option StepExecution → List RecoveryAttempt → Option StepExecution
final_execution known [] = known
final_execution known (a ∷ rest) = final_execution (some a.execution) rest

latest_execution-keep :
    (r : ℕ) (i : String) (known : Option StepExecution) (attempts : List RecoveryAttempt)
    → latest_execution r i known attempts ≡ final_execution known (keep (same_step r i) attempts)
latest_execution-keep r i known [] = refl
latest_execution-keep r i known (a ∷ rest) = elim (Bool-cases (same_step r i a)) [
  | inl same ↦ rw same (latest_execution-keep r i (some a.execution) rest)
  | inr other ↦ rw other (latest_execution-keep r i known rest)
]

final_execution-last :
    (known : StepExecution) (attempts : List RecoveryAttempt) (a : RecoveryAttempt)
    → final_execution (some known) (a ∷ attempts) ≡ last_execution (a ∷ attempts)
final_execution-last known [] a = refl
final_execution-last known (b ∷ rest) a = final_execution-last a.execution rest b

final_execution_lem :
    (attempts : List RecoveryAttempt) → final_execution none attempts ≡ last_execution attempts
final_execution_lem [] = refl
final_execution_lem (a ∷ []) = refl
final_execution_lem (a ∷ b ∷ rest) = final_execution-last a.execution rest b

-- Every entry's execution is of the entry's step.
abbrev pub own_entries : Latest → Bool
own_entries [] = true
own_entries ((r, i, e) ∷ d) = has_key r i e && own_entries d

-- An attempt is of the step that its execution is of.
abbrev pub is_own : RecoveryAttempt → Bool
is_own a = has_key a.revision a.step_id a.execution

pub own_entries-put_latest :
    (r : ℕ) (i : String) (e : StepExecution) (d : Latest)
    → has_key r i e ≡ true
    → own_entries d ≡ true
    → own_entries (put_latest r i e d) ≡ true
unfolding put_latest
own_entries-put_latest r i e [] own h = ground arith
own_entries-put_latest r i e ((s, j, x) ∷ d) own h =
    ground (arith, eq_iff j i, own_entries-put_latest r i e d)

own_entries-latest_of :
    (d : Latest) (attempts : List RecoveryAttempt)
    → all is_own attempts ≡ true
    → own_entries d ≡ true
    → own_entries (latest_of d attempts) ≡ true
unfolding latest_of
own_entries-latest_of d [] own h = h
own_entries-latest_of d (a ∷ rest) own h =
    own_entries-latest_of (put_latest a.revision a.step_id a.execution d) rest (ground arith)
      (own_entries-put_latest a.revision a.step_id a.execution d (ground arith) h)

find-values :
    (r : ℕ) (i : String) (d : Latest)
    → own_entries d ≡ true
    → find (has_key r i) (values d) ≡ lookup_latest r i d
find-values r i [] h = refl
find-values r i ((s, j, x) ∷ d) h =
    ground (arith, eq_iff x.step_id j, eq_iff x.step_id i, eq_iff j i, find-values r i d)

-- When every attempt's execution is of the attempt's revision and step, the snapshot of the
-- attempts holds the attempts and the version, and for each revision and step its
-- `latest_executions` hold the execution of the step's last record, and none for a step without
-- records.
pub latest_executions-snapshot_of :
    (attempts : List RecoveryAttempt) (version : ℕ) (snapshot : RecoverySnapshot)
    → all is_own attempts ≡ true
    → snapshot_of attempts version ≡ ok snapshot
    → (snapshot.attempts ≡ attempts)
      × (snapshot.version ≡ version)
      × ((r : ℕ) (i : String)
          → find (has_key r i) snapshot.latest_executions
            ≡ last_execution (keep (same_step r i) attempts))
unfolding snapshot_of
latest_executions-snapshot_of attempts version snapshot own h =
    let (context, _, made) = >>=-eq-ok (new_step_context _ _ _) _ h in
    let listed : snapshot.latest_executions ≡ values (latest_of [] attempts) = cc in
    (
      cc,
      cc,
      λ r i.
          ap (find (has_key r i)) listed
          ∙ find-values r i (latest_of [] attempts) (own_entries-latest_of [] attempts own refl)
          ∙ lookup_latest-latest_of r i [] attempts
          ∙ latest_execution-keep r i none attempts
          ∙ final_execution_lem (keep (same_step r i) attempts),
    )

contains-snoc :
    (xs : List String) (x v : String) → contains (xs ++ (x ∷ [])) v ≡ (contains xs v || x == v)
contains-snoc [] x v = ground arith
contains-snoc (y ∷ ys) x v = ground (arith, contains-snoc ys x v)

distinct-snoc :
    (xs : List String) (x : String)
    → distinct xs ≡ true
    → contains xs x ≡ false
    → distinct (xs ++ (x ∷ [])) ≡ true
distinct-snoc [] x h new = refl
distinct-snoc (y ∷ ys) x h new =
    ground (arith, distinct-snoc ys x, contains-snoc ys x y, eq_iff x y, eq_iff y x)

contains-append_unique :
    (target values : List String) (v : String)
    → contains (append_unique target values) v ≡ (contains target v || contains values v)
unfolding append_unique
contains-append_unique target [] v = ground arith
contains-append_unique target (x ∷ values) v = elim (Bool-cases (contains target x)) [
  | inl held ↦ rw (held, contains-append_unique target values v) (ground (arith, eq_iff x v))
  | inr new ↦
      rw (new, contains-append_unique (target ++ (x ∷ [])) values v)
        (ground (arith, contains-snoc target x v))
]

distinct-append_unique :
    (target values : List String)
    → distinct target ≡ true
    → distinct (append_unique target values) ≡ true
unfolding append_unique
distinct-append_unique target [] h = h
distinct-append_unique target (x ∷ values) h = elim (Bool-cases (contains target x)) [
  | inl held ↦ rw held (distinct-append_unique target values h)
  | inr new ↦
      rw new (distinct-append_unique (target ++ (x ∷ [])) values (distinct-snoc target x h new))
]

-- The update of some completed record names the file.
abbrev pub reads_file : String → Option ContextUpdate → Bool
reads_file v none = false
reads_file v (some u) = contains u.files_read v

abbrev pub modifies_file : String → Option ContextUpdate → Bool
modifies_file v none = false
modifies_file v (some u) = contains u.files_modified v

contains-add_context :
    (c : StepContext) (u : Option ContextUpdate) (v : String)
    → contains (add_context c u).files_read v ≡ (contains c.files_read v || reads_file v u)
contains-add_context c none v = ground arith
contains-add_context c (some u) v = contains-append_unique c.files_read u.files_read v

contains-add_context_modified :
    (c : StepContext) (u : Option ContextUpdate) (v : String)
    → contains (add_context c u).files_modified v
      ≡ (contains c.files_modified v || modifies_file v u)
contains-add_context_modified c none v = ground arith
contains-add_context_modified c (some u) v =
    contains-append_unique c.files_modified u.files_modified v

-- The context lists a file as read, or as modified, exactly when it did before or the update of a
-- record whose execution is completed lists it: what unfinished attempts report is not trusted.
pub contains-context_of :
    (c : StepContext) (attempts : List RecoveryAttempt) (v : String)
    → (contains (context_of c attempts).files_read v ≡ (
        contains c.files_read v
        || any (λ a. is_completed a.execution.status && reads_file v a.context_update) attempts))
      × (contains (context_of c attempts).files_modified v ≡ (
          contains c.files_modified v
          || any
              (λ a. is_completed a.execution.status && modifies_file v a.context_update)
              attempts))
unfolding context_of
contains-context_of c [] v = ground arith
contains-context_of c (a ∷ rest) v =
    let (p, q) = contains-context_of (add_context c (trusted_update a)) rest v in
    elim (Bool-cases (is_completed a.execution.status)) [
      | inl done ↦ (
        p ∙ rw (contains-add_context c (trusted_update a) v, done) (ground arith),
        q ∙ rw (contains-add_context_modified c (trusted_update a) v, done) (ground arith),
      )
      | inr going ↦ (
        p ∙ rw (contains-add_context c (trusted_update a) v, going) (ground arith),
        q ∙ rw (contains-add_context_modified c (trusted_update a) v, going) (ground arith),
      )
    ]

-- No list of the context names anything twice.
abbrev pub is_distinct : StepContext → Bool
is_distinct c = distinct c.files_read && (distinct c.files_modified && distinct c.observations)

distinct-add_context :
    (c : StepContext) (u : Option ContextUpdate)
    → is_distinct c ≡ true
    → is_distinct (add_context c u) ≡ true
distinct-add_context c none h = h
distinct-add_context c (some u) h = ground (
  arith,
  distinct-append_unique c.files_read u.files_read,
  distinct-append_unique c.files_modified u.files_modified,
  distinct-append_unique c.observations u.observations,
)

is_distinct-context_of :
    (c : StepContext) (attempts : List RecoveryAttempt)
    → is_distinct c ≡ true
    → is_distinct (context_of c attempts) ≡ true
unfolding context_of
is_distinct-context_of c [] h = h
is_distinct-context_of c (a ∷ rest) h =
    is_distinct-context_of (add_context c (trusted_update a)) rest
      (distinct-add_context c (trusted_update a) h)

-- When the context that `_snapshot` starts from lists no file read, no file modified and no
-- observation twice, neither does the context of the snapshot, in any of the three lists.
pub distinct-context_of :
    (c : StepContext) (attempts : List RecoveryAttempt)
    → distinct c.files_read ≡ true
    → distinct c.files_modified ≡ true
    → distinct c.observations ≡ true
    → (distinct (context_of c attempts).files_read ≡ true)
      × (distinct (context_of c attempts).files_modified ≡ true)
      × (distinct (context_of c attempts).observations ≡ true)
distinct-context_of c attempts p q r =
    let h = is_distinct-context_of c attempts (ground arith) in
    (ground (arith, h), ground (arith, h), ground (arith, h))
