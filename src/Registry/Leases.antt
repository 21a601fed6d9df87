-- ===== src/Registry/Leases.antt =====
-- agent/registry.py: a lease that is refreshed in time is kept through the calls of others.
use codex_py.Base.{
  ◌||◌, ◌≤◌, subst, lt→ltb, run_busy, Result-cases, Bool-cases, inl, inr, ◌∙◌, List, String, [],
  arith, eq_iff, err, false, is_empty, nat_eq, ok, refl, some, string_eq, true, ℕ, ◌&&◌, ◌+◌, ◌<◌,
  ◌==◌, ◌∷◌, ◌≡◌,
}
use codex_py.Registry.{owned_by, ended_record, leased, RunRecord, lease_time}
use codex_py.Base.Json.{index, Json}
use codex_py.Registry.Memory.{
  renewed, Records, get_record, put_record, acquire, renew, release, set_terminal,
}
use codex_py.Registry.Calls.{
  creates, renews, ends_run, caller, or_unchanged, perform, perform_all, get_record-put_record,
  refreshed, refreshed-false, is_release, is_mine, is_create, gives_up, is_clocked, IsTimely,
  last_refresh, perform-other, Call, Event, Holds, acquires, releases,
}

module _ (fingerprint : Json → String) (owner run_id : String)
    (named : is_empty owner ≡ false) where
  same-Holds :
      (records : Records) (t : ℕ) (r : RunRecord)
      → get_record records run_id ≡ ok r
      → r.lease_owner ≡ some owner
      → r.lease_expires_at ≡ some (t + lease_time)
      → Holds owner run_id t records
  same-Holds records t r found p q = record { held = r; found = found; owner_is = p; expires = q }

  put-Holds :
      (records : Records) (t : ℕ) (r : RunRecord)
      → r.lease_owner ≡ some owner
      → r.lease_expires_at ≡ some (t + lease_time)
      → Holds owner run_id t (put_record records run_id r)
  put-Holds records t r =
      same-Holds (put_record records run_id r) t r
        (get_record-put_record records run_id run_id r ∙ ground (arith, eq_iff run_id run_id))

  -- A call on the run before the lease runs out, other than the owner's release.
  perform-held :
      (records : Records) (call : Call) (now t : ℕ) (r : RunRecord)
      → get_record records run_id ≡ ok r
      → r.lease_owner ≡ some owner
      → r.lease_expires_at ≡ some (t + lease_time)
      → now < t + lease_time
      → is_clocked call now ≡ true
      → (is_create call || ((caller call == owner) && is_release call)) ≡ false
      → Holds owner run_id
          (refreshed call (caller call == owner) t now)
          (perform fingerprint records (record { run_id = run_id; call = call; now = now }))
  unfolding perform acquire renew release set_terminal
  perform-held records (creates snapshot) now t r found p q early clocked kept = cc
  perform-held records (acquires o) now t r found p q early clocked kept =
      elim (Bool-cases (o == owner)) [
        | inl mine ↦
            let done : acquire records run_id o now
                ≡ ok (leased r o now, put_record records run_id (leased r o now)) =
              ground (
                arith,
                lt→ltb now (t + lease_time) early,
                found,
                p,
                q,
                mine,
                eq_iff o owner,
                eq_iff owner o,
              ) in
            rw (mine, done)
              (put-Holds records now (leased r o now) (ground (arith, eq_iff o owner)) refl)
        | inr other ↦
            let busy : acquire records run_id o now ≡ err run_busy = ground (
              arith,
              lt→ltb now (t + lease_time) early,
              found,
              p,
              q,
              other,
              eq_iff o owner,
              eq_iff owner o,
            ) in
            rw (other, busy) (same-Holds records t r found p q)
      ]
  perform-held records (renews o checked) now t r found p q early clocked kept =
      let before : checked ≤ now = ground (arith, clocked) in
      elim (Bool-cases (o == owner)) [
        | inl mine ↦
            let done : renew records run_id o checked now
                ≡ ok (renewed r now, put_record records run_id (renewed r now)) =
              ground (
                arith,
                lt→ltb checked (t + lease_time) (omega arith),
                found,
                p,
                q,
                mine,
                eq_iff o owner,
                eq_iff owner o,
              ) in
            rw (mine, done) (put-Holds records now (renewed r now) p refl)
        | inr other ↦
            let busy : renew records run_id o checked now ≡ err run_busy = ground (
              arith,
              lt→ltb checked (t + lease_time) (omega arith),
              found,
              p,
              q,
              other,
              eq_iff o owner,
              eq_iff owner o,
            ) in
            rw (other, busy) (same-Holds records t r found p q)
      ]
  perform-held records (releases o) now t r found p q early clocked kept =
      let skipped : release records run_id o ≡ ok records = ground (
        arith,
        lt→ltb now (t + lease_time) early,
        found,
        p,
        q,
        kept,
        eq_iff o owner,
        eq_iff owner o,
      ) in
      rw skipped (same-Holds records t r found p q)
  perform-held records (ends_run o result) now t r found p q early clocked kept =
      elim (Result-cases (index result "status")) [
        | inl (e, bad) ↦
            let same : or_unchanged records (set_terminal records run_id o result) ≡ records =
              ground (arith, found, bad) in
            rw same (same-Holds records t r found p q)
        | inr (status, good) ↦ elim (Bool-cases (owned_by o r)) [
          | inl mine ↦
              let done : set_terminal records run_id o result
                  ≡ ok (put_record records run_id (ended_record r result status)) =
                ground (arith, found, good, mine) in
              rw done (put-Holds records t (ended_record r result status) p q)
          | inr other ↦
              let busy : set_terminal records run_id o result ≡ err run_busy =
                ground (arith, found, other) in
              rw busy (same-Holds records t r found p q)
        ]
      ]

  perform-Holds :
      (records : Records) (e : Event) (t : ℕ)
      → Holds owner run_id t records
      → e.now < t + lease_time
      → is_clocked e.call e.now ≡ true
      → gives_up owner run_id e ≡ false
      → Holds owner run_id
          (refreshed e.call (is_mine owner run_id e) t e.now)
          (perform fingerprint records e)
  perform-Holds records e t h early clocked kept = elim (Bool-cases (e.run_id == run_id)) [
    | inl same ↦
        let path : run_id ≡ e.run_id = ground (arith, eq_iff e.run_id run_id) in
        let kept' : (is_create e.call || ((caller e.call == owner) && is_release e.call)) ≡ false =
          ground (arith, kept, same) in
        rw same (
          subst
            (λ run.
              Holds owner run_id (refreshed e.call (caller e.call == owner) t e.now)
                (perform fingerprint records (record { run_id = run; call = e.call; now = e.now })))
            path
            (perform-held records e.call e.now t h.held h.found h.owner_is h.expires early clocked
              kept'))
    | inr other ↦
        rw (other, refreshed-false e.call t e.now)
          (same-Holds (perform fingerprint records e) t h.held
            (perform-other fingerprint records e.run_id run_id e.call e.now other ∙ h.found)
            h.owner_is h.expires)
  ]

  perform_all-Holds :
      (records : Records) (events : List Event) (t : ℕ)
      → Holds owner run_id t records
      → IsTimely owner run_id t events
      → Holds owner run_id
          (last_refresh owner run_id t events)
          (perform_all fingerprint records events)
  unfolding perform_all
  perform_all-Holds records [] t h timely = h
  perform_all-Holds records (e ∷ rest) t h (early, clocked, kept, timely) =
      perform_all-Holds (perform fingerprint records e) rest
        (refreshed e.call (is_mine owner run_id e) t e.now)
        (perform-Holds records e t h early clocked kept) timely

  -- In the in-memory registry, take an owner with a name that holds the lease of a run, and calls of
  -- `create`, `acquire`, `renew`, `release` and `set_terminal` by anyone on any run, each before the
  -- lease runs out, a `renew` not checking after it writes, none of them a `create` of this run or
  -- the owner's `release` of it. After them, until the lease of the last refresh runs out,
  -- another owner's `acquire` raises RunBusyError, and the owner's `renew` returns the record
  -- with the new expiry.
  pub perform_all-exclusive :
      (records : Records) (events : List Event) (t now later : ℕ) (other : String)
      → Holds owner run_id t records
      → IsTimely owner run_id t events
      → now < last_refresh owner run_id t events + lease_time
      → (owner == other) ≡ false
      → (acquire (perform_all fingerprint records events) run_id other now ≡ err run_busy)
        × ((r : RunRecord) × (renew (perform_all fingerprint records events) run_id owner now later
              ≡ ok (
                renewed r later,
                put_record (perform_all fingerprint records events) run_id (renewed r later),
              )))
  unfolding acquire renew
  perform_all-exclusive records events t now later other h timely early different =
      let last = last_refresh owner run_id t events in
      let after = perform_all-Holds records events t h timely in
      let found = after.found in
      let mine = after.owner_is in
      let until = after.expires in
      let live = lt→ltb now (last + lease_time) early in
      (
        ground (arith, found, mine, until, live, different, named),
        (after.held, ground (arith, found, mine, until, live, eq_iff owner owner)),
      )
