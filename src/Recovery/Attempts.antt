-- ===== src/Recovery/Attempts.antt =====
-- agent/recovery.py: the numbers that the in-memory store gives to the attempts of a step.
use codex_py.Base.{
  none, Result, subst, Option, >>=-eq-ok, Bool, eq_iff, ok, Bool-cases, Option-cases, append-nil,
  inl, inr, keep-append, String, ap, is_some, last, some, List, [], all, all-append, arith,
  contains, false, if◌then◌else◌, leb, nat_eq, refl, string_eq, suc, sym, true, ℕ, ◌++◌, ◌<◌, ◌==◌,
  ◌||◌, ◌∙◌, ◌∷◌, ◌≡◌, ◌≤◌, ◌&&◌, ◌+◌, ◌≢◌,
}
use codex_py.Recovery.Memory.{
  new_attempt, fresh_number, count_distinct, attempt_numbers, prior, next_attempt, record_attempt,
}
use codex_py.State.Codec.RoundTrip.{without_stale_evidence}
use codex_py.Recovery.Durable.{durable_execution-ok}
use codex_py.Recovery.{durable_execution, RecoveryAttempt, is_for, is_open}
use codex_py.State.Context.{ContextUpdate}
use codex_py.State.{
  interrupted, skipped, Status, pending, running, completed, failed, StepExecution,
}

abbrev pub last_or_zero : List ℕ → ℕ
last_or_zero [] = 0
last_or_zero (x ∷ []) = x
last_or_zero (x ∷ y ∷ ys) = last_or_zero (y ∷ ys)

-- The numbers of a step's attempts, in the order of the records: the last is the greatest, and it
-- is how many different numbers there are.
pub record IsCounted (xs : List ℕ) : Type 0 where
  pub counted : count_distinct xs ≡ last_or_zero xs
  pub bounded : all (λ x. leb x (last_or_zero xs)) xs ≡ true

last_or_zero-snoc : (xs : List ℕ) (a : ℕ) → last_or_zero (xs ++ (a ∷ [])) ≡ a
last_or_zero-snoc [] a = refl
last_or_zero-snoc (x ∷ []) a = refl
last_or_zero-snoc (x ∷ y ∷ ys) a = last_or_zero-snoc (y ∷ ys) a

contains-snoc : (xs : List ℕ) (a x : ℕ) → contains (xs ++ (a ∷ [])) x ≡ (contains xs x || a == x)
contains-snoc [] a x = ground arith
contains-snoc (y ∷ ys) a x = ground (arith, contains-snoc ys a x)

count_distinct-snoc :
    (xs : List ℕ) (a : ℕ)
    → count_distinct (xs ++ (a ∷ []))
      ≡ (if contains xs a then count_distinct xs else suc (count_distinct xs))
count_distinct-snoc [] a = refl
count_distinct-snoc (x ∷ xs) a = ground (arith, count_distinct-snoc xs a, contains-snoc xs a x)

contains-last : (x : ℕ) (xs : List ℕ) → contains (x ∷ xs) (last_or_zero (x ∷ xs)) ≡ true
contains-last x [] = ground arith
contains-last x (y ∷ ys) = ground (arith, contains-last y ys)

contains_of_bound :
    (n a : ℕ) (xs : List ℕ) → all (λ x. leb x n) xs ≡ true → n < a → contains xs a ≡ false
contains_of_bound n a [] h lt = refl
contains_of_bound n a (x ∷ xs) h lt = ground (arith, contains_of_bound n a xs)

weaken_bound :
    (n m : ℕ) (xs : List ℕ) → all (λ x. leb x n) xs ≡ true → n ≤ m → all (λ x. leb x m) xs ≡ true
weaken_bound n m [] h le = refl
weaken_bound n m (x ∷ xs) h le = ground (arith, weaken_bound n m xs)

-- A further record of the last attempt.
again-IsCounted :
    (xs : List ℕ) (n : ℕ)
    → contains xs n ≡ true
    → n ≡ last_or_zero xs
    → IsCounted xs
    → IsCounted (xs ++ (n ∷ []))
again-IsCounted xs n held e c = record {
  counted = count_distinct-snoc xs n ∙ rw held (c.counted ∙ sym e ∙ sym (last_or_zero-snoc xs n));
  bounded =
      let counted = c.counted in
      rw (last_or_zero-snoc xs n, all-append (λ y. leb y n) xs (n ∷ []))
        (ground (arith, weaken_bound (last_or_zero xs) n xs c.bounded (omega arith)));
}

-- The first record of a new attempt.
fresh-IsCounted :
    (xs : List ℕ) (n : ℕ) → n ≡ suc (count_distinct xs) → IsCounted xs → IsCounted (xs ++ (n ∷ []))
fresh-IsCounted xs n e c =
    let counted = c.counted in
    record {
      counted =
          count_distinct-snoc xs n
          ∙ rw (contains_of_bound (last_or_zero xs) n xs c.bounded (omega arith))
              (sym e ∙ sym (last_or_zero-snoc xs n));
      bounded =
          rw (last_or_zero-snoc xs n, all-append (λ y. leb y n) xs (n ∷ []))
            (ground (arith, weaken_bound (last_or_zero xs) n xs c.bounded (omega arith)));
    }

-- The statuses of an attempt that has not ended.
abbrev pub still_open : Status → Bool
still_open pending = true
still_open running = true
still_open completed = false
still_open interrupted = false
still_open failed = false
still_open skipped = false

-- The number of a record after the record `a` of the same step.
abbrev pub number_following : RecoveryAttempt → ℕ
number_following a = if still_open a.execution.status then a.attempt else a.attempt + 1

abbrev pub follows : RecoveryAttempt → List RecoveryAttempt → Bool
follows a [] = true
follows a (b ∷ rest) = b.attempt == number_following a && follows b rest

-- The records of a step, in their order: the first is of attempt 1, the record after one of an
-- attempt that has not ended is of the same attempt, and the record after any other is of the next.
abbrev pub is_sequenced : List RecoveryAttempt → Bool
is_sequenced [] = true
is_sequenced (a ∷ rest) = a.attempt == 1 && follows a rest

pub record IsStepNumbered (earlier : List RecoveryAttempt) : Type 0 where
  pub numbers : IsCounted (attempt_numbers earlier)
  pub sequenced : is_sequenced earlier ≡ true

abbrev pub IsNumbered : List RecoveryAttempt → Type 0
IsNumbered store =
    (run_id : String) (revision : ℕ) (step_id : String)
    → IsStepNumbered (prior store run_id revision step_id)

pub IsNumbered-nil : IsNumbered []
IsNumbered-nil run_id revision step_id = record {
  numbers = record { counted = refl; bounded = refl };
  sequenced = refl;
}

follows-snoc :
    (a : RecoveryAttempt) (xs : List RecoveryAttempt) (b l : RecoveryAttempt)
    → last (a ∷ xs) ≡ some l
    → follows a xs ≡ true
    → b.attempt ≡ number_following l
    → follows a (xs ++ (b ∷ [])) ≡ true
follows-snoc a [] b l e h n = let same : b.attempt ≡ number_following a = cc in ground (arith, same)
follows-snoc a (x ∷ xs) b l e h n =
    let later = follows-snoc x xs b l e (ground arith) n in ground (arith, later)

is_sequenced-snoc :
    (xs : List RecoveryAttempt) (b l : RecoveryAttempt)
    → last xs ≡ some l
    → is_sequenced xs ≡ true
    → b.attempt ≡ number_following l
    → is_sequenced (xs ++ (b ∷ [])) ≡ true
is_sequenced-snoc [] b l e h n = cc
is_sequenced-snoc (x ∷ xs) b l e h n =
    let later = follows-snoc x xs b l e (ground arith) n in ground (arith, later)

last_of_cons : (y : RecoveryAttempt) (ys : List RecoveryAttempt) → last (y ∷ ys) ≢ none
last_of_cons y [] h = cc
last_of_cons y (z ∷ zs) h = last_of_cons z zs h

pub nil_of_last : (xs : List RecoveryAttempt) → last xs ≡ none → xs ≡ []
nil_of_last [] h = refl
nil_of_last (x ∷ []) h = cc
nil_of_last (x ∷ y ∷ ys) h = absurd (last_of_cons y ys h)

is_open-still_open : (s : Status) → is_open s ≡ still_open s
is_open-still_open s = ground arith

-- The last attempt's number is the last of the numbers.
pub last-attempt_numbers :
    (as' : List RecoveryAttempt) (a : RecoveryAttempt)
    → last as' ≡ some a
    → (a.attempt ≡ last_or_zero (attempt_numbers as'))
      × (contains (attempt_numbers as') a.attempt ≡ true)
last-attempt_numbers [] a h = cc
last-attempt_numbers (x ∷ []) a h = ground (arith, ap is_some h)
last-attempt_numbers (x ∷ y ∷ ys) a h =
    let (p, q) = last-attempt_numbers (y ∷ ys) a h in (p, ground arith)

next_attempt-IsCounted :
    (store : List RecoveryAttempt) (run_id : String) (revision : ℕ) (step_id : String)
    → IsNumbered store
    → IsCounted (
        attempt_numbers (prior store run_id revision step_id)
        ++ (next_attempt store run_id revision step_id ∷ []))
unfolding next_attempt
next_attempt-IsCounted store run_id revision step_id v =
    let earlier = prior store run_id revision step_id in
    let numbers = attempt_numbers earlier in
    let known = (v run_id revision step_id).numbers in
    elim (Option-cases (last earlier)) [
      | inl e ↦ rw e (fresh-IsCounted numbers (fresh_number earlier) (omega arith) known)
      | inr (a, e) ↦ rw e (elim (Bool-cases (is_open a.execution.status)) [
        | inl going ↦
            let (same, held) = last-attempt_numbers earlier a e in
            rw going (again-IsCounted numbers a.attempt held same known)
        | inr over ↦ rw over (fresh-IsCounted numbers (fresh_number earlier) (omega arith) known)
      ])
    ]

map-append_one :
    (xs : List RecoveryAttempt) (a : RecoveryAttempt)
    → attempt_numbers (xs ++ (a ∷ [])) ≡ attempt_numbers xs ++ (a.attempt ∷ [])
map-append_one [] a = refl
map-append_one (x ∷ xs) a = ap (λ ys. x.attempt ∷ ys) (map-append_one xs a)

pub is_for-eq :
    (run_id : String) (revision : ℕ) (step_id : String) (a : RecoveryAttempt)
    → is_for run_id revision step_id a ≡ true
    → (a.run_id ≡ run_id) × (a.revision ≡ revision) × (a.step_id ≡ step_id)
is_for-eq run_id revision step_id a h =
    ground (arith, eq_iff a.run_id run_id, eq_iff a.step_id step_id)

-- A record with the next number of its step.
sequenced_next :
    (store : List RecoveryAttempt) (run_id : String) (revision : ℕ) (step_id : String)
    (a : RecoveryAttempt)
    → IsStepNumbered (prior store run_id revision step_id)
    → a.attempt ≡ next_attempt store run_id revision step_id
    → is_sequenced (prior store run_id revision step_id ++ (a ∷ [])) ≡ true
unfolding next_attempt
sequenced_next store run_id revision step_id a v e =
    let earlier = prior store run_id revision step_id in
    let counted = v.numbers.counted in
    elim (Option-cases (last earlier)) [
      | inl h ↦
          let number = rw h at e in
          let empty = nil_of_last earlier h in
          let first : a.attempt ≡ 1 = number ∙ rw empty refl in rw empty (ground (arith, first))
      | inr (l, h) ↦
          let number = rw h at e in
          let (last_number, _) = last-attempt_numbers earlier l h in
          let next : a.attempt ≡ number_following l =
            ground (arith, number, counted, last_number, is_open-still_open l.execution.status) in
          is_sequenced-snoc earlier a l h v.sequenced next
    ]

-- One more record, of the next attempt of its step.
pub append-IsNumbered :
    (store : List RecoveryAttempt) (a : RecoveryAttempt)
    → IsNumbered store
    → a.attempt ≡ next_attempt store a.run_id a.revision a.step_id
    → IsNumbered (store ++ (a ∷ []))
append-IsNumbered store a v e run_id revision step_id =
    rw (keep-append (is_for run_id revision step_id) store (a ∷ []))
      (elim (Bool-cases (is_for run_id revision step_id a)) [
        | inl same ↦
            let (p, q, r) = is_for-eq run_id revision step_id a same in
            let number : a.attempt ≡ next_attempt store run_id revision step_id = cc in
            rw same (record {
              numbers =
                  rw (map-append_one (prior store run_id revision step_id) a, number)
                    (next_attempt-IsCounted store run_id revision step_id v);
              sequenced =
                  sequenced_next store run_id revision step_id a (v run_id revision step_id) number;
            })
        | inr other ↦ rw (other, append-nil) (v run_id revision step_id)
      ])

pub durable-keys :
    (e d : StepExecution)
    → d ≡ without_stale_evidence e
    → (d.revision ≡ e.revision) × (d.step_id ≡ e.step_id)
durable-keys e d h = ground arith

pub stored :
    {a b : RecoveryAttempt} {xs ys : List RecoveryAttempt}
    → ◌≡◌ {A = Result (RecoveryAttempt × List RecoveryAttempt)} (ok (a, xs)) (ok (b, ys))
    → xs ≡ ys
stored h = cc

-- A `record` that does not raise keeps the numbering of every step of every run: in the order of
-- a step's records the first is of attempt 1, the record after a pending or running one is of the
-- same attempt, and the record after any other is of the next attempt.
pub record_attempt-IsNumbered :
    (store store' : List RecoveryAttempt) (run_id : String) (execution : StepExecution)
    (update : Option ContextUpdate) (recovery : Bool) (version : ℕ) (a : RecoveryAttempt)
    → IsNumbered store
    → record_attempt store run_id execution update recovery version ≡ ok (a, store')
    → IsNumbered store'
unfolding record_attempt
record_attempt-IsNumbered store store' run_id execution update recovery version a v h =
    let (durable, made, added) = >>=-eq-ok (durable_execution execution) _ h in
    let (p, q) = durable-keys execution durable (durable_execution-ok execution durable made) in
    let number = next_attempt store run_id execution.revision execution.step_id in
    let a' = new_attempt run_id number durable update recovery version in
    let e : number ≡ next_attempt store run_id durable.revision durable.step_id = cc in
    let written : store ++ (a' ∷ []) ≡ store' = stored added in
    subst IsNumbered written (append-IsNumbered store a' v e)
