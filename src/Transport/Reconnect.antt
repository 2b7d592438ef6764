-- ===== src/Transport/Reconnect.antt =====
-- transport/discord/reconnect.py: how long to wait before the gateway is tried again. A duration is
-- a natural number of milliseconds, so that `max(0.0, retry_after)` is the duration itself and
-- `int(delay * 1000)` is the delay; `now` is the wall clock.
mod Tests
pub mod Delays
pub mod History
pub mod Agreement
use code_xd.Prelude.{
  ℕ, suc, ◌+◌, ◌-◌, ◌*◌, max, min, Bool, true, false, not, ◌&&◌, ◌||◌, Option, none, some, List, [],
  ◌∷◌, String, length, get_elem?, or_default, if◌then◌else◌, ◌==◌, Result, ok, err, opt_is, str_eq,
}

-- `DISCORD_RECONNECT_DELAYS_SECONDS`, in milliseconds
abbrev pub reconnect_delays : List ℕ
reconnect_delays =
    1000 ∷ 10000 ∷ 30000 ∷ 30000 ∷ 60000 ∷ 60000 ∷ 60000 ∷ 120000 ∷ 240000 ∷ 300000 ∷ []

pub record Backoff : Type 0 where
  pub stopped : Bool
  pub connection_state : String
  pub tier : ℕ
  pub consecutive_failures : ℕ
  pub selected_delay : ℕ
  pub next_retry_at : Option ℕ
  pub last_failure_at : Option ℕ
  pub last_ready_at : Option ℕ
  pub last_session_mode : Option String
  pub last_error_code : Option String
  pub ready_count : ℕ
  pub resumed_count : ℕ
  pub reset_count : ℕ
  pub server_retry_after : Option ℕ

-- `DiscordReconnectBackoff()`
abbrev pub new_backoff : Backoff
new_backoff = record {
  stopped = false;
  connection_state = "connecting";
  tier = 0;
  consecutive_failures = 0;
  selected_delay = 0;
  next_retry_at = none;
  last_failure_at = none;
  last_ready_at = none;
  last_session_mode = none;
  last_error_code = none;
  ready_count = 0;
  resumed_count = 0;
  reset_count = 0;
  server_retry_after = none;
}

-- `DISCORD_RECONNECT_DELAYS_SECONDS[tier - 1]`
pub local_delay : ℕ → ℕ
local_delay tier = or_default (get_elem? reconnect_delays (tier - 1)) 0

abbrev pub tier_of : ℕ → ℕ
tier_of failures = min failures (length reconnect_delays)

pub delay_of : ℕ → Option ℕ → ℕ
delay_of failures retry_after = max (local_delay (tier_of failures)) (or_default retry_after 0)

unfoldable pub next_delay : String → Option ℕ → ℕ → Backoff → Backoff × ℕ
next_delay error_code retry_after now b =
    let delay = delay_of (b.consecutive_failures + 1) retry_after in
    (
      record b {
        consecutive_failures = b.consecutive_failures + 1;
        tier = tier_of (b.consecutive_failures + 1);
        server_retry_after = retry_after;
        selected_delay = delay;
        next_retry_at = some (now + delay);
        last_failure_at = some now;
        last_error_code = some error_code;
        connection_state = "reconnecting";
      },
      delay,
    )

pub data SessionMode : Type 0 where
  ready resumed : SessionMode

abbrev pub mode_value : SessionMode → String
mode_value ready = "ready"
mode_value resumed = "resumed"

-- `mode in {"ready", "resumed"}`
pub parse_mode : String → Option SessionMode
parse_mode mode =
    if str_eq mode "ready" then some ready else if str_eq mode "resumed" then some resumed else none

pub connected : Backoff → Bool
connected b = str_eq b.connection_state "ready" || str_eq b.connection_state "resumed"

-- The session was already reported.
pub duplicate : Backoff → SessionMode → Bool
duplicate b mode = connected b && opt_is b.last_session_mode (mode_value mode) && b.tier == 0

abbrev pub count_session : SessionMode → Backoff → Backoff
count_session ready b = record b {
  reset_count = b.reset_count + 1;
  ready_count = b.ready_count + 1;
}
count_session resumed b = record b {
  reset_count = b.reset_count + 1;
  resumed_count = b.resumed_count + 1;
}

abbrev pub session_started : SessionMode → ℕ → Backoff → Backoff
session_started mode now b = record b {
  connection_state = mode_value mode;
  tier = 0;
  consecutive_failures = 0;
  selected_delay = 0;
  next_retry_at = none;
  last_ready_at = some now;
  last_session_mode = some (mode_value mode);
  last_error_code = none;
  server_retry_after = none;
}

-- `reset`; the error is the `ValueError`.
unfoldable pub reset : String → ℕ → Backoff → Result String Backoff
reset mode now b = elim (parse_mode mode) [
  | none ↦ err "Discord session mode must be ready or resumed"
  | some m ↦
      ok (
        if duplicate b m
        then session_started m now b
        else count_session m (session_started m now b))
]

unfoldable pub mark_connecting : Backoff → Backoff
mark_connecting b =
    if connected b
    then b
    else record b { connection_state = if b.tier == 0 then "connecting" else "reconnecting" }

abbrev pub stop : Backoff → Backoff
stop b = record b { stopped = true }

-- `wait` where the stop event is set within the delay, or not; a delay of zero does not wait.
unfoldable pub wait : ℕ → Bool → Backoff → Bool
wait delay set_within b = if delay == 0 then not b.stopped else not (b.stopped || set_within)
