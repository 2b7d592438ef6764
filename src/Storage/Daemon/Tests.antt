-- ===== src/Storage/Daemon/Tests.antt =====
-- Two daemons, and the instances of the theorems about their lease.
use code_xd.Prelude.{◌≡◌, refl, none, some, ok, err, arith}
use code_xd.Storage.Schema.{conflict}
use code_xd.Storage.Daemon.{
  DaemonLease, held_by_other, owned_by, acquire_daemon_lease, heartbeat_daemon_lease,
  release_daemon_lease,
}
use code_xd.Storage.Daemon.Exclusive.{
  here, next, acquires, acquire_daemon_lease-excludes, heartbeat_daemon_lease-lost,
}

abbrev row_of : DaemonLease
row_of = record {
  boot_id = "a";
  pid = 1;
  process_start_token = "t";
  acquired_at = 100;
  heartbeat_at = 100;
}

a_acquires : acquire_daemon_lease "a" 1 "t" 50 100 none ≡ ok (some row_of)
unfolding acquire_daemon_lease held_by_other
a_acquires = refl

acquire_daemon_lease-excludes_example :
    (acquire_daemon_lease "b" 2 "u" 90 110 (some row_of) ≡ err conflict)
    × (heartbeat_daemon_lease "b" 110 (some row_of) ≡ err conflict)
    × (release_daemon_lease "b" (some row_of) ≡ some row_of)
acquire_daemon_lease-excludes_example =
    acquire_daemon_lease-excludes "a" "b" 1 2 "t" "u" 50 90 100 110 none (some row_of) a_acquires
      refl (omega arith)

abbrev taken_over : DaemonLease
taken_over = record {
  boot_id = "b";
  pid = 2;
  process_start_token = "u";
  acquired_at = 300;
  heartbeat_at = 300;
}

b_acquires : acquire_daemon_lease "b" 2 "u" 250 300 none ≡ ok (some taken_over)
unfolding acquire_daemon_lease held_by_other
b_acquires = refl

heartbeat_daemon_lease-lost_example :
    (heartbeat_daemon_lease "a" 310 (some taken_over) ≡ err conflict)
    × (release_daemon_lease "a" (some taken_over) ≡ some taken_over)
unfolding owned_by
heartbeat_daemon_lease-lost_example =
    heartbeat_daemon_lease-lost "a" (next here (acquires "b" 2 "u" 250 300 refl b_acquires)) refl
      310
