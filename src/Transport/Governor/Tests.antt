-- ===== src/Transport/Governor/Tests.antt =====
-- Two requests to one channel, and the instances of the theorems about spacing.
use code_xd.Prelude.{◌+◌, ◌<◌, ◌≤◌, ◌≡◌, refl, none, some, ok, [], ◌∷◌, String, get, put}
use code_xd.Transport.Governor.{
  Permit, Governor, new_governor, acquire, granted, delayed, ready_at, space_message,
}
use code_xd.Transport.Governor.Spacing.{here, spacing, acquire-spacing, acquire-returns}

abbrev permit : Permit
permit = record {
  route_kind = "turn_progress";
  operation_kind = "edit";
  destination_key = "thread:1";
  message_key = some "m";
}

abbrev route : Permit → String
route p = p.route_kind

abbrev fresh : Governor
fresh = record {
  channel_interval = 250;
  global_interval = 50;
  message_intervals = ("turn_progress", 5000) ∷ ("task_card", 5000) ∷ [];
  global_ready_at = 0;
  channel_ready_at = [];
  message_ready_at = [];
  verified_messages = [];
  wait_count = 0;
  wait_time = 0;
  rate_limit_count = 0;
  last_retry_after = 0;
  route_counts = [];
  route_wait_counts = [];
}

builds : new_governor 250 50 5000 5000 ≡ ok fresh
unfolding new_governor
builds = refl

abbrev used : Governor
used = record fresh {
  global_ready_at = 150;
  channel_ready_at = ("thread:1", 350) ∷ [];
  message_ready_at = ("m", 5100) ∷ [];
  route_counts = ("turn_progress", 1) ∷ [];
}

acquire-spacing_example : 100 + spacing permit permit fresh ≤ 5100
unfolding acquire granted delayed ready_at space_message get put
acquire-spacing_example =
    acquire-spacing route permit permit 100 5100 fresh (acquire route permit 100 fresh).0 refl here
      refl

acquire-returns_example :
    (0 < 4900) × ((acquire route permit (200 + 4900) (acquire route permit 200 used).0).1 ≡ none)
unfolding acquire granted delayed ready_at space_message get put
acquire-returns_example = acquire-returns route permit 200 4900 used refl
