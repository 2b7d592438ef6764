-- ===== src/Transport/Reconnect/History.antt =====
-- Sequences of failures, sessions and attempts, and what they come to.
use code_xd.Prelude.{
  ℕ, ◌+◌, ◌≡◌, Option, none, some, String, if◌then◌else◌, min, ok, opt_is, str_eq, ◌==◌, not, ◌&&◌,
}
use code_xd.Transport.Reconnect.{
  Backoff, next_delay, reset, mark_connecting, stop, delay_of, mode_value, duplicate, SessionMode,
}

-- An operation that returns.
pub data Step (b : Backoff) : Backoff → Type 0 where
  fails :
      (code : String) (retry_after : Option ℕ) (now : ℕ)
      → Step b (next_delay code retry_after now b).0
  connects : (mode : String) (now : ℕ) (b' : Backoff) → reset mode now b ≡ ok b' → Step b b'
  marks : Step b (mark_connecting b)
  stops : Step b (stop b)

pub data Reach (b : Backoff) : Backoff → Type 0 where
  here : Reach b b
  next : {c d : Backoff} → Reach b c → Step c d → Reach b d

-- The failures since the last session that came up.
unfoldable pub failures_since : {b c : Backoff} → Reach b c → ℕ
failures_since here = 0
failures_since (next r (fails code retry_after now)) = failures_since r + 1
failures_since (next r (connects mode now b' h)) = 0
failures_since (next r marks) = failures_since r
failures_since (next r stops) = failures_since r

-- What the server asked for at the last failure, unless a session came up after it.
unfoldable pub last_wish : {b c : Backoff} → Reach b c → Option ℕ
last_wish here = none
last_wish (next r (fails code retry_after now)) = retry_after
last_wish (next r (connects mode now b' h)) = none
last_wish (next r marks) = last_wish r
last_wish (next r stops) = last_wish r

-- The mode of the session that is up, if one is.
unfoldable pub running : {b c : Backoff} → Reach b c → Option String
running here = none
running (next r (fails code retry_after now)) = none
running (next r (connects mode now b' h)) = some mode
running (next r marks) = running r
running (next r stops) = running r

-- The sessions of a mode that came up, where one that is up and is reported again is the same one.
unfoldable pub sessions : {b c : Backoff} → String → Reach b c → ℕ
sessions m here = 0
sessions m (next r (fails code retry_after now)) = sessions m r
sessions m (next r (connects mode now b' h)) =
    if str_eq mode m && not (opt_is (running r) m) then sessions m r + 1 else sessions m r
sessions m (next r marks) = sessions m r
sessions m (next r stops) = sessions m r

-- The object agrees with what has happened.
pub record Agrees {b c : Backoff} (r : Reach b c) : Type 0 where
  pub failures : c.consecutive_failures ≡ failures_since r
  pub tiers : c.tier ≡ min (failures_since r) 10
  pub waits :
      c.selected_delay
      ≡ (if failures_since r == 0 then 0 else delay_of (failures_since r) (last_wish r))
  pub ready_sessions : c.ready_count ≡ sessions "ready" r
  pub resumed_sessions : c.resumed_count ≡ sessions "resumed" r
  pub all_sessions : c.reset_count ≡ sessions "ready" r + sessions "resumed" r
  pub up : (m : SessionMode) → duplicate c m ≡ opt_is (running r) (mode_value m)
