-- ===== src/Registry/Calls.antt =====
-- agent/registry.py: sequences of calls of the in-memory registry.
use codex_py.Base.{
  ◌≡◌, leb, ◌||◌, Error, ap, Result-cases, Bool, Bool-cases, inl, inr, ◌∙◌, List, Result, String,
  [], arith, eq_iff, err, false, if◌then◌else◌, nat_eq, ok, refl, some, string_eq, true, ℕ, ◌&&◌,
  ◌+◌, ◌<◌, ◌==◌, ◌∷◌,
}
use codex_py.Registry.{ended_record, new_record, released, leased, RunRecord, lease_time}
use codex_py.Base.Json.{index, Json}
use codex_py.Registry.Memory.{
  renewed, Records, get_record, put_record, acquire, renew, release, set_terminal, create,
}

pub data Call : Type 0 where
  creates : Json → Call
  acquires releases : String → Call
  renews : String → ℕ → Call
  ends_run : String → Json → Call

-- The owner that a call names; `create` names none. `renews o checked` checks the lease at the time
-- `checked`.
abbrev pub caller : Call → String
caller (creates snapshot) = ""
caller (acquires o) = o
caller (renews o checked) = o
caller (releases o) = o
caller (ends_run o result) = o

-- A call on a run at a time.
pub record Event : Type 0 where
  pub run_id : String
  pub call : Call
  pub now : ℕ

abbrev pub or_unchanged : Records → Result Records → Records
or_unchanged records (ok t) = t
or_unchanged records (err e) = records

abbrev and_records : Result (RunRecord × Records) → Result Records
and_records (ok (r, t)) = ok t
and_records (err e) = err e

module _ (fingerprint : Json → String) where
  -- The records after a call: one that raises has changed nothing.
  unfoldable pub perform : Records → Event → Records
  perform records e = elim e.call [
    | creates snapshot ↦ (create fingerprint records e.run_id snapshot).1
    | acquires o ↦ or_unchanged records (and_records (acquire records e.run_id o e.now))
    | renews o checked ↦ or_unchanged records (and_records (renew records e.run_id o checked e.now))
    | releases o ↦ or_unchanged records (release records e.run_id o)
    | ends_run o result ↦ or_unchanged records (set_terminal records e.run_id o result)
  ]

  unfoldable pub perform_all : Records → List Event → Records
  unfolding perform
  perform_all records [] = records
  perform_all records (e ∷ rest) = perform_all (perform records e) rest

pub get_record-put_record :
    (records : Records) (k j : String) (r : RunRecord)
    → get_record (put_record records k r) j ≡ (if k == j then ok r else get_record records j)
unfolding get_record put_record
get_record-put_record [] k j r = refl
get_record-put_record ((i, x) ∷ rest) k j r =
    ground (arith, eq_iff i k, eq_iff i j, eq_iff k j, get_record-put_record rest k j r)

-- The owner holds the run's lease, which was last refreshed at time `t`.
pub record Holds (owner run_id : String) (t : ℕ) (records : Records) : Type 0 where
  pub held : RunRecord
  pub found : get_record records run_id ≡ ok held
  pub owner_is : held.lease_owner ≡ some owner
  pub expires : held.lease_expires_at ≡ some (t + lease_time)

-- The time of the last refresh after a call.
abbrev pub refreshed : Call → Bool → ℕ → ℕ → ℕ
refreshed (acquires o) mine t now = if mine then now else t
refreshed (renews o checked) mine t now = if mine then now else t
refreshed _ mine t now = t

pub refreshed-false : (call : Call) (t now : ℕ) → refreshed call false t now ≡ t
refreshed-false (acquires o) t now = refl
refreshed-false (creates snapshot) t now = refl
refreshed-false (renews o checked) t now = refl
refreshed-false (releases o) t now = refl
refreshed-false (ends_run o result) t now = refl

abbrev pub is_release : Call → Bool
is_release (releases o) = true
is_release _ = false

abbrev pub is_mine : String → String → Event → Bool
is_mine owner run_id e = e.run_id == run_id && caller e.call == owner

abbrev pub is_create : Call → Bool
is_create (creates snapshot) = true
is_create _ = false

-- A `create` of the run, which starts its record anew, or the owner's `release`.
abbrev pub gives_up : String → String → Event → Bool
gives_up owner run_id e =
    (e.run_id == run_id && is_create e.call) || (is_mine owner run_id e && is_release e.call)

-- The time of a check, when a call makes one of its own, is not after the time of the call.
abbrev pub is_clocked : Call → ℕ → Bool
is_clocked (renews o checked) now = leb checked now
is_clocked _ now = true

-- Every event comes before the lease would run out, and none gives the lease up.
abbrev pub IsTimely : String → String → ℕ → List Event → Type 0
IsTimely owner run_id t [] = Unit {0}
IsTimely owner run_id t (e ∷ rest) =
    (e.now < t + lease_time)
    × (is_clocked e.call e.now ≡ true)
    × (gives_up owner run_id e ≡ false)
    × IsTimely owner run_id (refreshed e.call (is_mine owner run_id e) t e.now) rest

abbrev pub last_refresh : String → String → ℕ → List Event → ℕ
last_refresh owner run_id t [] = t
last_refresh owner run_id t (e ∷ rest) =
    last_refresh owner run_id (refreshed e.call (is_mine owner run_id e) t e.now) rest

other_put :
    (records : Records) (k j : String) (r : RunRecord)
    → (k == j) ≡ false
    → get_record (put_record records k r) j ≡ get_record records j
other_put records k j r other = get_record-put_record records k j r ∙ rw other refl

own_put :
    (records : Records) (k j : String) (r : RunRecord)
    → (k == j) ≡ true
    → get_record (put_record records k r) j ≡ ok r
own_put records k j r same = get_record-put_record records k j r ∙ rw same refl

module _ (fingerprint : Json → String) where
  -- A call other than `create` on a run with no record raises.
  perform-missing :
      (records : Records) (run : String) (call : Call) (now : ℕ) (e : Error)
      → get_record records run ≡ err e
      → is_create call ≡ false
      → perform fingerprint records (record { run_id = run; call = call; now = now }) ≡ records
  unfolding perform acquire renew release set_terminal
  perform-missing records run (creates snapshot) now e missing kept = cc
  perform-missing records run (acquires o) now e missing kept = rw missing refl
  perform-missing records run (renews o checked) now e missing kept = rw missing refl
  perform-missing records run (releases o) now e missing kept = rw missing refl
  perform-missing records run (ends_run o result) now e missing kept = rw missing refl

  perform-create_other :
      (records : Records) (run run_id : String) (snapshot : Json) (now : ℕ)
      → (run == run_id) ≡ false
      → get_record
          (perform fingerprint records
            (record { run_id = run; call = creates snapshot; now = now }))
          run_id
        ≡ get_record records run_id
  unfolding perform create
  perform-create_other records run run_id snapshot now other =
      other_put records run run_id (new_record run snapshot (fingerprint snapshot)) other

  perform-creating :
      (records : Records) (run run_id : String) (call : Call) (now : ℕ)
      → (run == run_id) ≡ false
      → is_create call ≡ true
      → get_record
          (perform fingerprint records (record { run_id = run; call = call; now = now }))
          run_id
        ≡ get_record records run_id
  perform-creating records run run_id (creates snapshot) now other h =
      perform-create_other records run run_id snapshot now other
  perform-creating records run run_id (acquires o) now other h = cc
  perform-creating records run run_id (renews o checked) now other h = cc
  perform-creating records run run_id (releases o) now other h = cc
  perform-creating records run run_id (ends_run o result) now other h = cc

  perform-found_other :
      (records : Records) (run run_id : String) (call : Call) (now : ℕ) (r : RunRecord)
      → get_record records run ≡ ok r
      → (run == run_id) ≡ false
      → get_record
          (perform fingerprint records (record { run_id = run; call = call; now = now }))
          run_id
        ≡ get_record records run_id
  unfolding perform acquire renew release set_terminal
  perform-found_other records run run_id (creates snapshot) now r found other =
      perform-create_other records run run_id snapshot now other
  perform-found_other records run run_id (acquires o) now r found other =
      ground (arith, found, other_put records run run_id (leased r o now) other)
  perform-found_other records run run_id (renews o checked) now r found other =
      ground (arith, found, other_put records run run_id (renewed r now) other)
  perform-found_other records run run_id (releases o) now r found other =
      ground (arith, found, other_put records run run_id (released r) other)
  perform-found_other records run run_id (ends_run o result) now r found other =
      elim (Result-cases (index result "status")) [
        | inl (e, bad) ↦ ground (arith, found, bad)
        | inr (status, good) ↦
            ground (
              arith,
              found,
              good,
              other_put records run run_id (ended_record r result status) other,
            )
      ]

  -- A call on another run leaves the record alone.
  pub perform-other :
      (records : Records) (run run_id : String) (call : Call) (now : ℕ)
      → (run == run_id) ≡ false
      → get_record
          (perform fingerprint records (record { run_id = run; call = call; now = now }))
          run_id
        ≡ get_record records run_id
  perform-other records run run_id call now other = elim (Result-cases (get_record records run)) [
    | inl (e, missing) ↦ elim (Bool-cases (is_create call)) [
      | inl creating ↦ perform-creating records run run_id call now other creating
      | inr kept ↦
          ap (λ t. get_record t run_id) (perform-missing records run call now e missing kept)
    ]
    | inr (r, found) ↦ perform-found_other records run run_id call now r found other
  ]
