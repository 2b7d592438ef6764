-- ===== src/Transport/Reconnect/Tests.antt =====
-- A failure, a session and another failure, and the instances of the theorems about the delays.
use code_xd.Prelude.{◌+◌, ◌≤◌, ◌≡◌, refl, arith, none, some, ok, max, or_default}
use code_xd.Transport.Reconnect.{
  Backoff, new_backoff, next_delay, reset, delay_of, local_delay, parse_mode, duplicate, connected,
}
use code_xd.Transport.Reconnect.Delays.{delay_of-bounds}
use code_xd.Transport.Reconnect.Agreement.{Reach-Agrees}
use code_xd.Transport.Reconnect.History.{Reach, here, next, fails, connects, Agrees}

abbrev failed_once : Backoff
failed_once = record new_backoff {
  consecutive_failures = 1;
  tier = 1;
  server_retry_after = some 2500;
  selected_delay = 2500;
  next_retry_at = some 2600;
  last_failure_at = some 100;
  last_error_code = some "closed";
  connection_state = "reconnecting";
}

fails_once : (next_delay "closed" (some 2500) 100 new_backoff).0 ≡ failed_once
unfolding next_delay delay_of local_delay
fails_once = refl

abbrev ready_again : Backoff
ready_again = record new_backoff {
  connection_state = "ready";
  last_ready_at = some 3000;
  last_failure_at = some 100;
  last_session_mode = some "ready";
  ready_count = 1;
  reset_count = 1;
}

resets : reset "ready" 3000 failed_once ≡ ok ready_again
unfolding reset parse_mode duplicate connected
resets = refl

-- A failure and a session.
abbrev history : Reach new_backoff ready_again
unfolding next_delay delay_of local_delay
history =
    next (next here (fails "closed" (some 2500) 100)) (connects "ready" 3000 ready_again resets)

Reach-Agrees_example : Agrees history
Reach-Agrees_example = Reach-Agrees history

delay_of-bounds_example :
    (1000 ≤ delay_of 3 none)
    × (delay_of 3 none ≤ max 300000 (or_default none 0))
    × (or_default none 0 ≤ delay_of 3 none)
    × (delay_of 3 none ≤ delay_of (3 + 4) none)
delay_of-bounds_example = delay_of-bounds 3 4 none (omega arith)
