-- ===== src/Storage/Daemon.antt =====
-- storage/repository.py: the lease that keeps a second daemon from the database, the one row of
-- `daemon_leases`.
mod Tests
pub mod Exclusive
use code_xd.Prelude.{
  ℕ, Bool, true, false, not, ◌&&◌, Option, none, some, String, str_eq, leb, if◌then◌else◌, Result,
  ok, err, guard, ◌>>◌,
}
use code_xd.Storage.Schema.{Error, conflict}

pub record DaemonLease : Type 0 where
  pub boot_id : String
  pub pid : ℕ
  pub process_start_token : String
  pub acquired_at : ℕ
  pub heartbeat_at : ℕ

-- Another daemon whose heartbeat is recent holds the row.
pub held_by_other : String → ℕ → Option DaemonLease → Bool
held_by_other boot_id stale_before none = false
held_by_other boot_id stale_before (some row) =
    leb stale_before row.heartbeat_at && not (str_eq row.boot_id boot_id)

unfoldable pub acquire_daemon_lease :
    String → ℕ → String → ℕ → ℕ → Option DaemonLease → Result Error (Option DaemonLease)
acquire_daemon_lease boot_id pid process_start_token stale_before now row =
    guard (not (held_by_other boot_id stale_before row)) conflict
    >> ok (
        some record {
          boot_id = boot_id;
          pid = pid;
          process_start_token = process_start_token;
          acquired_at = now;
          heartbeat_at = now;
        })

pub owned_by : String → Option DaemonLease → Bool
owned_by boot_id none = false
owned_by boot_id (some row) = str_eq row.boot_id boot_id

abbrev pub beat : ℕ → Option DaemonLease → Option DaemonLease
beat now none = none
beat now (some row) = some (record row { heartbeat_at = now })

unfoldable pub heartbeat_daemon_lease :
    String → ℕ → Option DaemonLease → Result Error (Option DaemonLease)
heartbeat_daemon_lease boot_id now row = guard (owned_by boot_id row) conflict >> ok (beat now row)

unfoldable pub release_daemon_lease : String → Option DaemonLease → Option DaemonLease
release_daemon_lease boot_id row = if owned_by boot_id row then none else row
