-- ===== src/Examples/Leases.antt =====
-- agent/registry.py: one owner renews while another asks for the run.
use codex_py.Base.{[], arith, err, ok, not, String, Bool, refl, run_busy, ◌∷◌, ◌≡◌, List}
use codex_py.Registry.Refinement.{same_expiry}
use codex_py.Registry.Mysql
use codex_py.Registry.Memory
use codex_py.Registry.Memory.{create, acquire, renew, put_record, renewed, Records, get_record}
use codex_py.Base.Json.{null, Json}
use codex_py.Registry.Leases.{perform_all-exclusive}
use codex_py.Registry.Calls.{creates, releases, perform_all, renews, Holds, acquires, Event}
use codex_py.Registry.{new_record, leased, RunRecord}

abbrev held_record : RunRecord
held_record = leased (new_record "run" null "f") "ann" 1000

abbrev table : Records
table = ("run", held_record) ∷ []

abbrev calls : List Event
calls =
    record { run_id = "run"; call = acquires "bob"; now = 2000 }
    ∷ record { run_id = "run"; call = renews "ann" 49999999; now = 50000000 }
    ∷ record { run_id = "run"; call = releases "bob"; now = 90000000 }
    ∷ record { run_id = "next"; call = creates null; now = 90000001 }
    ∷ []

held_record-Holds : Holds "ann" "run" 1000 table
unfolding get_record
held_record-Holds = record { held = held_record; found = refl; owner_is = refl; expires = refl }

abbrev printed : Json → String
printed snapshot = "f"

-- A hundred seconds later the lease of the renewal still runs.
perform_all-exclusive_example :
    (acquire (perform_all printed table calls) "run" "bob" 100000000 ≡ err run_busy)
    × ((r : RunRecord) × (renew (perform_all printed table calls) "run" "ann" 100000000 100000001
          ≡ ok (
            renewed r 100000001,
            put_record (perform_all printed table calls) "run" (renewed r 100000001),
          )))
perform_all-exclusive_example =
    perform_all-exclusive printed "ann" "run" refl table calls 1000 100000000 100000001 "bob"
      held_record-Holds
      (
        omega arith,
        refl,
        refl,
        (omega arith, refl, refl, (omega arith, refl, refl, (omega arith, refl, refl, tt))),
      )
      (omega arith) refl

-- A driver that counts changed rows.
abbrev changed : RunRecord → RunRecord → Bool
changed r x = not (same_expiry r x)

-- The owner asks twice in one microsecond: the UPDATE changes nothing and the run is busy.
repeated_run : Mysql.acquire changed (held_record ∷ []) "run" "ann" 1000 ≡ err run_busy
unfolding Mysql.acquire
repeated_run = refl

-- A `create` of a run whose lease is held drops the lease.
created_run : get_record (create printed table "run" null).1 "run" ≡ ok (new_record "run" null "f")
unfolding create get_record
created_run = refl
