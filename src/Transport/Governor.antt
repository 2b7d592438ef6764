-- ===== src/Transport/Governor.antt =====
-- transport/discord/outbox.py: `DiscordEgressGovernor`, which spaces the requests to Discord, in all,
-- for each channel and for each message. A time is a natural number of milliseconds. A round of
-- `acquire` either grants the permit or tells how long to sleep before the next round. The name
-- under which a permit is counted, `_metric_route_key`, is the parameter `route_key`.
mod Tests
pub mod Spacing
use code_xd.Prelude.{
  ℕ, ◌+◌, ◌-◌, max, min, Bool, true, false, Option, none, some, List, [], ◌∷◌, String, str_eq,
  opt_is, if◌then◌else◌, ltb, leb, or_default, get, put, Result, ok, err, ◌>>◌, guard,
}

pub record Permit : Type 0 where
  pub route_kind : String
  pub operation_kind : String
  pub destination_key : String
  pub message_key : Option String

pub record Governor : Type 0 where
  pub channel_interval : ℕ
  pub global_interval : ℕ
  pub message_intervals : List (String × ℕ)
  pub global_ready_at : ℕ
  pub channel_ready_at : List (String × ℕ)
  pub message_ready_at : List (String × ℕ)
  pub verified_messages : List (String × String)
  pub wait_count : ℕ
  pub wait_time : ℕ
  pub rate_limit_count : ℕ
  pub last_retry_after : ℕ
  pub route_counts : List (String × ℕ)
  pub route_wait_counts : List (String × ℕ)

-- `DiscordEgressGovernor(...)`; the error is the `ValueError`.
pub new_governor : ℕ → ℕ → ℕ → ℕ → Result String Governor
new_governor channel global progress task_card =
    guard (leb 1 (min (min channel global) (min progress task_card)))
      "Discord egress intervals must be positive"
    >> ok record {
      channel_interval = channel;
      global_interval = global;
      message_intervals = ("turn_progress", progress) ∷ ("task_card", task_card) ∷ [];
      global_ready_at = 0;
      channel_ready_at = [];
      message_ready_at = [];
      verified_messages = [];
      wait_count = 0;
      wait_time = 0;
      rate_limit_count = 0;
      last_retry_after = 0;
      route_counts = [];
      route_wait_counts = [];
    }

-- `m.get(key, 0)`
abbrev pub at_key : String → List (String × ℕ) → ℕ
at_key key m = or_default (get key m) 0

abbrev pub channel_ready : Permit → Governor → ℕ
channel_ready p g = at_key p.destination_key g.channel_ready_at

abbrev pub message_ready : Option String → Governor → ℕ
message_ready none g = 0
message_ready (some key) g = at_key key g.message_ready_at

unfoldable pub ready_at : Permit → Governor → ℕ
ready_at p g = max (max g.global_ready_at (channel_ready p g)) (message_ready p.message_key g)

-- The next time for the message, when the permit has one and its route is spaced.
unfoldable pub space_message : Option String → Option ℕ → ℕ → List (String × ℕ) → List (String × ℕ)
space_message (some key) (some interval) now m = put key (now + interval) m
space_message _ _ now m = m

module _ (route_key : Permit → String) where
  unfoldable pub granted : Permit → ℕ → Governor → Governor
  granted p now g = record g {
    route_counts = put (route_key p) (at_key (route_key p) g.route_counts + 1) g.route_counts;
    global_ready_at = now + g.global_interval;
    channel_ready_at = put p.destination_key (now + g.channel_interval) g.channel_ready_at;
    message_ready_at =
        space_message p.message_key (get p.route_kind g.message_intervals) now g.message_ready_at;
  }

  unfoldable pub delayed : Permit → ℕ → Governor → Governor
  delayed p delay g = record g {
    wait_count = g.wait_count + 1;
    wait_time = g.wait_time + delay;
    route_wait_counts =
        put (route_key p) (at_key (route_key p) g.route_wait_counts + 1) g.route_wait_counts;
  }

  -- A round of the loop of `acquire`: the governor after it, and the delay to sleep when the permit
  -- is not granted.
  unfoldable pub acquire : Permit → ℕ → Governor → Governor × Option ℕ
  acquire p now g =
      if leb (ready_at p g) now
      then (granted p now g, none)
      else (delayed p (ready_at p g - now) g, some (ready_at p g - now))

unfoldable pub penalize_message : Option String → ℕ → List (String × ℕ) → List (String × ℕ)
penalize_message none t m = m
penalize_message (some key) t m = put key (max (at_key key m) t) m

unfoldable pub penalize : Permit → ℕ → ℕ → Governor → Governor
penalize p retry_after now g =
    let cooldown = max 1 retry_after in
    let t = now + cooldown in
    record g {
      rate_limit_count = g.rate_limit_count + 1;
      last_retry_after = cooldown;
      global_ready_at = max g.global_ready_at t;
      channel_ready_at = put p.destination_key (max (channel_ready p g) t) g.channel_ready_at;
      message_ready_at = penalize_message p.message_key t g.message_ready_at;
    }

pub message_verified : String → String → Governor → Bool
message_verified key id g = opt_is (get key g.verified_messages) id

pub verify_message : String → String → Governor → Governor
verify_message key id g = record g { verified_messages = put key id g.verified_messages }
