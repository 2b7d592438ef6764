-- ===== src/Storage/Leases.antt =====
-- storage/repository.py: the leases of the Runtimes. A lease is created for a scope under the next
-- generation of that scope, becomes ready, and leaves service by stopping, failing or being lost.
mod Tests
pub mod Rows
pub mod Service
pub mod Lost
pub mod Fencing
use code_xd.Prelude.{
  ℕ, suc, ◌+◌, max, Bool, true, false, not, ◌&&◌, ◌||◌, Option, none, some, List, [], ◌∷◌, ◌++◌,
  String, str_eq, opt_is, is_some, if◌then◌else◌, leb, ◌==◌, map, Result, ok, err, ◌>>=◌, ◌>>◌,
  guard, or_raise,
}
use code_xd.Domain.TurnState.{TurnState, interrupted, runtime, active}
use code_xd.Storage.Schema.{
  Error, not_found, conflict, integrity, Turn, Lease, LeaseState, starting, ready, unhealthy,
  stopping, stopped, failed, Db, Entry, local_terminal, close_incident, find_lease, update_where,
  count_where,
}

-- `COALESCE(MAX(generation), 0)` over the leases of the scope
unfoldable pub last_generation : String → List Lease → ℕ
last_generation scope_key [] = 0
last_generation scope_key (l ∷ leases) =
    max (if str_eq l.scope_key scope_key then l.generation else 0)
      (last_generation scope_key leases)

-- The CHECK on the kind of a lease's scope.
pub scope_ok : String → String → Option String → Bool
scope_ok kind key none = str_eq kind "shared" && str_eq key "shared"
scope_ok kind key (some project_id) = str_eq kind "project" && str_eq key project_id

abbrev pub new_lease : String → String → String → Option String → String → ℕ → ℕ → Lease
new_lease id scope_kind scope_key project_id environment_hash generation now = record {
  id = id;
  scope_kind = scope_kind;
  scope_key = scope_key;
  project_id = project_id;
  generation = generation;
  state = starting;
  sdk_version = none;
  runtime_version = none;
  capability_hash = none;
  environment_hash = environment_hash;
  failure_code = none;
  started_at = now;
  heartbeat_at = now;
  ended_at = none;
}

-- `id` is what `new_id` returns.
unfoldable pub create_runtime_lease :
    String → String → Option String → String → String → ℕ → Db → Result Error (Db × Lease)
create_runtime_lease scope_kind scope_key project_id environment_hash id now d = do
  guard (scope_ok scope_kind scope_key project_id) integrity
  guard (not (is_some (find_lease id d.leases))) integrity
  let lease =
      new_lease id scope_kind scope_key project_id environment_hash
        (last_generation scope_key d.leases + 1) now
  ok (record d { leases = d.leases ++ lease ∷ [] }, lease)

abbrev pub is_starting : LeaseState → Bool
is_starting starting = true
is_starting _ = false

abbrev pub is_ready : LeaseState → Bool
is_ready ready = true
is_ready _ = false

abbrev pub is_stopped : LeaseState → Bool
is_stopped stopped = true
is_stopped _ = false

-- `state in {"stopping", "stopped", "failed"}`
abbrev pub closing : LeaseState → Bool
closing stopping = true
closing stopped = true
closing failed = true
closing _ = false

-- `state IN ('stopping', 'failed')`
abbrev pub may_stop : LeaseState → Bool
may_stop stopping = true
may_stop failed = true
may_stop _ = false

-- The row of the id, when its state passes the test.
abbrev pub lease_where : String → (LeaseState → Bool) → Lease → Bool
lease_where lease_id test l = str_eq l.id lease_id && test l.state

-- `UPDATE runtime_leases SET ... WHERE id = ? AND state ...`, then the check that one row changed.
unfoldable pub change_lease : String → (LeaseState → Bool) → (Lease → Lease) → Db → Result Error Db
change_lease lease_id test f d = do
  guard (count_where (lease_where lease_id test) d.leases == 1) conflict
  ok (record d { leases = update_where (lease_where lease_id test) f d.leases })

unfoldable pub mark_runtime_ready : String → String → String → String → ℕ → Db → Result Error Db
mark_runtime_ready lease_id sdk version capability now = change_lease lease_id is_starting (λ l.
    record l {
      state = ready;
      sdk_version = some sdk;
      runtime_version = some version;
      capability_hash = some capability;
      heartbeat_at = now;
    })

abbrev pub failed_with : String → ℕ → Lease → Lease
failed_with failure_code now l = record l {
  state = failed;
  failure_code = some failure_code;
  heartbeat_at = now;
  ended_at = some now;
}

unfoldable pub mark_runtime_failed : String → String → ℕ → Db → Result Error Db
mark_runtime_failed lease_id failure_code now =
    change_lease lease_id is_starting (failed_with failure_code now)

unfoldable pub heartbeat_runtime : String → ℕ → Db → Db × Bool
heartbeat_runtime lease_id now d = (
  record d {
    leases =
        update_where (lease_where lease_id is_ready) (λ l. record l { heartbeat_at = now })
          d.leases;
  },
  count_where (lease_where lease_id is_ready) d.leases == 1,
)

-- A failure that counts.
abbrev pub failure_state : LeaseState → Option String → Bool
failure_state failed code = true
failure_state unhealthy code = true
failure_state stopped code = is_some code
failure_state _ code = false

-- `ended_at >= since`
abbrev pub ended_since : ℕ → Option ℕ → Bool
ended_since since none = false
ended_since since (some t) = leb since t

pub recent_runtime_failure_count : String → ℕ → List Lease → ℕ
recent_runtime_failure_count scope_key since = count_where (λ l.
    str_eq l.scope_key scope_key
    && failure_state l.state l.failure_code
    && ended_since since l.ended_at)

unfoldable pub mark_runtime_stopping : String → ℕ → Db → Result Error Db
mark_runtime_stopping lease_id now d = do
  lease ← or_raise (find_lease lease_id d.leases) not_found
  if closing lease.state
      then ok d
      else change_lease lease_id is_ready (λ l. record l { state = stopping; heartbeat_at = now }) d

unfoldable pub mark_runtime_stopped : String → ℕ → Db → Result Error Db
mark_runtime_stopped lease_id now d = do
  lease ← or_raise (find_lease lease_id d.leases) not_found
  if is_stopped lease.state
      then ok d
      else change_lease lease_id may_stop
          (λ l. record l { state = stopped; heartbeat_at = now; ended_at = some now }) d

unfoldable pub mark_runtime_close_failed : String → String → ℕ → Db → Result Error Db
mark_runtime_close_failed lease_id failure_code now d = do
  lease ← or_raise (find_lease lease_id d.leases) not_found
  if is_stopped lease.state then ok d else do
    d' ← change_lease lease_id (λ s. not (is_stopped s)) (failed_with failure_code now) d
    ok (record d' {
      journal =
          d'.journal ++ close_incident lease.project_id lease_id lease.generation failure_code ∷ [];
    })

-- A nullable column equals a number.
abbrev pub is_number : Option ℕ → ℕ → Bool
is_number none n = false
is_number (some m) n = m == n

-- An active Turn of the lease, in its generation.
unfoldable pub runs_under : String → ℕ → Turn → Bool
runs_under lease_id generation t =
    opt_is t.runtime_lease_id lease_id
    && is_number t.runtime_generation generation
    && active t.state

abbrev pub lost_turn : String → ℕ → Turn → Turn
lost_turn failure_code now t = record t {
  state = interrupted;
  terminal_code = some "runtime_lost";
  error_code = some failure_code;
  interrupt_origin = some runtime;
  queued_input_text = none;
  queued_skill_inputs = none;
  ended_at = some now;
}

abbrev pub turn_ids : (Turn → Bool) → List Turn → List String
turn_ids test [] = []
turn_ids test (t ∷ turns) = let rest = turn_ids test turns in if test t then t.id ∷ rest else rest

-- `_project_local_terminal` of each Turn that was lost.
abbrev pub lost_entries : List String → List Entry
lost_entries = map (λ id. local_terminal id interrupted "runtime_lost" false)

unfoldable pub mark_runtime_unhealthy : String → String → ℕ → Db → Result Error (Db × List String)
mark_runtime_unhealthy lease_id failure_code now d = do
  lease ← or_raise (find_lease lease_id d.leases) not_found
  let lost = turn_ids (runs_under lease_id lease.generation) d.turns
  ok (
    record d {
      leases =
          update_where (λ l. str_eq l.id lease_id)
            (λ l. record l {
              state = unhealthy;
              failure_code = some failure_code;
              heartbeat_at = now;
              ended_at = some now;
            })
            d.leases;
      turns =
          update_where (runs_under lease_id lease.generation) (lost_turn failure_code now) d.turns;
      journal = d.journal ++ lost_entries lost;
    },
    lost,
  )
