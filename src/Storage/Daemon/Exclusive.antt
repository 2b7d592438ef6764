-- ===== src/Storage/Daemon/Exclusive.antt =====
-- One daemon at a time.
use code_xd.Prelude.{
  ℕ, ◌≤◌, ◌≡◌, refl, subst, false, not, Option, none, some, String, str_eq, str_eq_iff, le→leb,
  arith, ok, err, from_guard, ok-injective,
}
use code_xd.Storage.Schema.{conflict}
use code_xd.Storage.Daemon.{
  DaemonLease, held_by_other, owned_by, beat, acquire_daemon_lease, heartbeat_daemon_lease,
  release_daemon_lease,
}

-- An operation of another daemon than `boot_id` that returns.
pub data Other (boot_id : String) (row row' : Option DaemonLease) : Type 0 where
  acquires :
      (b : String) (pid : ℕ) (token : String) (stale_before now : ℕ)
      → str_eq b boot_id ≡ false
      → acquire_daemon_lease b pid token stale_before now row ≡ ok row'
      → Other boot_id row row'
  beats :
      (b : String) (now : ℕ)
      → str_eq b boot_id ≡ false
      → heartbeat_daemon_lease b now row ≡ ok row'
      → Other boot_id row row'
  releases :
      (b : String)
      → str_eq b boot_id ≡ false
      → release_daemon_lease b row ≡ row'
      → Other boot_id row row'

pub data Others (boot_id : String) (row : Option DaemonLease) : Option DaemonLease → Type 0 where
  here : Others boot_id row row
  next :
      {q r : Option DaemonLease} → Others boot_id row q → Other boot_id q r → Others boot_id row r

beat-owned :
    (boot_id : String) (now : ℕ) (row : Option DaemonLease)
    → owned_by boot_id (beat now row) ≡ owned_by boot_id row
unfolding owned_by
beat-owned boot_id now none = refl
beat-owned boot_id now (some row) = refl

release-lost :
    (b boot_id : String) (row : Option DaemonLease)
    → owned_by boot_id row ≡ false
    → owned_by boot_id (release_daemon_lease b row) ≡ false
unfolding release_daemon_lease owned_by
release-lost b boot_id none h = refl
release-lost b boot_id (some row) h = ground arith

Other-lost :
    (boot_id : String) (row row' : Option DaemonLease)
    → Other boot_id row row'
    → owned_by boot_id row ≡ false
    → owned_by boot_id row' ≡ false
unfolding acquire_daemon_lease heartbeat_daemon_lease release_daemon_lease owned_by
Other-lost boot_id row row' (acquires b pid token stale now other h) l =
    from_guard (not (held_by_other b stale row)) _ _ h
      (λ free k. subst (λ r. owned_by boot_id r ≡ false) (ok-injective k) other)
Other-lost boot_id row row' (beats b now other h) l = from_guard (owned_by b row) _ _ h (λ mine k.
    subst (λ r. owned_by boot_id r ≡ false) (ok-injective k) (rw (beat-owned boot_id now row) l))
Other-lost boot_id row row' (releases b other h) l =
    subst (λ r. owned_by boot_id r ≡ false) h (release-lost b boot_id row l)

Others-lost :
    (boot_id : String) {row row' : Option DaemonLease}
    → Others boot_id row row'
    → owned_by boot_id row ≡ false
    → owned_by boot_id row' ≡ false
Others-lost boot_id here l = l
Others-lost boot_id (next {q} {r} os o) l = Other-lost boot_id q r o (Others-lost boot_id os l)

-- A daemon that does not hold the lease finds out: whatever other daemons do after it, its heartbeat
-- is a conflict and its release changes nothing.
pub heartbeat_daemon_lease-lost :
    (boot_id : String) {row row' : Option DaemonLease}
    → Others boot_id row row'
    → owned_by boot_id row ≡ false
    → (now : ℕ)
    → (heartbeat_daemon_lease boot_id now row' ≡ err conflict)
      × (release_daemon_lease boot_id row' ≡ row')
unfolding heartbeat_daemon_lease release_daemon_lease
heartbeat_daemon_lease-lost boot_id {row} {row'} os l now =
    let gone = Others-lost boot_id os l in (rw gone refl, rw gone refl)

holds-excludes :
    (a b : String) (stale now : ℕ) (pid : ℕ) (token : String) (row : DaemonLease)
    → row.boot_id ≡ a
    → str_eq b a ≡ false
    → stale ≤ row.heartbeat_at
    → (acquire_daemon_lease b pid token stale now (some row) ≡ err conflict)
      × (heartbeat_daemon_lease b now (some row) ≡ err conflict)
      × (release_daemon_lease b (some row) ≡ some row)
unfolding acquire_daemon_lease heartbeat_daemon_lease release_daemon_lease held_by_other owned_by
holds-excludes a b stale now pid token row e other fresh =
    ground (arith, str_eq_iff b a, str_eq_iff row.boot_id b, le→leb stale row.heartbeat_at fresh)

-- Once a daemon has acquired the lease, then until its heartbeat is older than what another daemon
-- calls stale, the other daemon can neither acquire the lease, nor renew it, nor release it.
pub acquire_daemon_lease-excludes :
    (a b : String) (pid_a pid_b : ℕ) (token_a token_b : String) (stale_a stale_b now later : ℕ)
    (before row : Option DaemonLease)
    → acquire_daemon_lease a pid_a token_a stale_a now before ≡ ok row
    → str_eq b a ≡ false
    → stale_b ≤ now
    → (acquire_daemon_lease b pid_b token_b stale_b later row ≡ err conflict)
      × (heartbeat_daemon_lease b later row ≡ err conflict)
      × (release_daemon_lease b row ≡ row)
unfolding acquire_daemon_lease
acquire_daemon_lease-excludes a b pid_a pid_b token_a token_b stale_a stale_b now later before row h
      other fresh =
    from_guard (not (held_by_other a stale_a before)) _ _ h (λ free k.
      let made : DaemonLease = record {
        boot_id = a;
        pid = pid_a;
        process_start_token = token_a;
        acquired_at = now;
        heartbeat_at = now;
      } in
      subst
        (λ r.
          (acquire_daemon_lease b pid_b token_b stale_b later r ≡ err conflict)
          × (heartbeat_daemon_lease b later r ≡ err conflict)
          × (release_daemon_lease b r ≡ r))
        (ok-injective k) (holds-excludes a b stale_b later pid_b token_b made refl other fresh))
