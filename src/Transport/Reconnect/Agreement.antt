-- ===== src/Transport/Reconnect/Agreement.antt =====
-- The object that counts failures and sessions agrees with its history.
use code_xd.Prelude.{
  ℕ, ◌+◌, ◌≡◌, refl, Bool, true, false, Option, none, some, String, arith, if◌then◌else◌, ok,
  ok-injective, subst, ◌∙◌, str_eq, str_eq_iff, ◌==◌, not, ◌&&◌,
}
use code_xd.Transport.Reconnect.{
  Backoff, next_delay, reset, mark_connecting, stop, parse_mode, mode_value, new_backoff, duplicate,
  connected, session_started, count_session, SessionMode, ready, resumed,
}
use code_xd.Transport.Reconnect.History.{
  Step, fails, connects, marks, stops, Reach, here, next, failures_since, last_wish, running,
  sessions, Agrees,
}

reset-result :
    (mode : String) (now : ℕ) (b b' : Backoff) (o : Option SessionMode)
    → parse_mode mode ≡ o
    → reset mode now b ≡ ok b'
    → (m : SessionMode) × (o ≡ some m)
      × ((if duplicate b m
            then session_started m now b
            else count_session m (session_started m now b))
          ≡ b')
unfolding reset
reset-result mode now b b' none e h = absurd (ground arith)
reset-result mode now b b' (some m) e h = (m, refl, ok-injective {E = String} (ground arith))

parse_mode-value :
    (mode : String) (m : SessionMode) → parse_mode mode ≡ some m → mode_value m ≡ mode
unfolding parse_mode
parse_mode-value mode ready h = ground (arith, str_eq_iff mode "ready")
parse_mode-value mode resumed h = ground (arith, str_eq_iff mode "resumed")

-- A session that comes up is the one that runs.
duplicate-started :
    (again : Bool) (m k : SessionMode) (now : ℕ) (c : Backoff)
    → duplicate
        (if again then session_started m now c else count_session m (session_started m now c))
        k
      ≡ str_eq (mode_value m) (mode_value k)
unfolding duplicate connected
duplicate-started true ready ready now c = refl
duplicate-started true ready resumed now c = refl
duplicate-started true resumed ready now c = refl
duplicate-started true resumed resumed now c = refl
duplicate-started false ready ready now c = refl
duplicate-started false ready resumed now c = refl
duplicate-started false resumed ready now c = refl
duplicate-started false resumed resumed now c = refl

-- What a session that comes up leaves behind, whether or not it was reported before.
record Started (m : SessionMode) (again : Bool) (c d : Backoff) : Type 0 where
  no_failures : d.consecutive_failures ≡ 0
  no_tier : d.tier ≡ 0
  no_delay : d.selected_delay ≡ 0
  readies :
      d.ready_count
      ≡ (if str_eq (mode_value m) "ready" && not again then c.ready_count + 1 else c.ready_count)
  resumes : d.resumed_count ≡ (
      if str_eq (mode_value m) "resumed" && not again then c.resumed_count + 1 else c.resumed_count)
  total : d.reset_count ≡ (if again then c.reset_count else c.reset_count + 1)

session-Started :
    (again : Bool) (m : SessionMode) (now : ℕ) (c : Backoff)
    → Started m again c
        (if again then session_started m now c else count_session m (session_started m now c))
session-Started true ready now c = record {
  no_failures = refl;
  no_tier = refl;
  no_delay = refl;
  readies = refl;
  resumes = refl;
  total = refl;
}
session-Started true resumed now c = record {
  no_failures = refl;
  no_tier = refl;
  no_delay = refl;
  readies = refl;
  resumes = refl;
  total = refl;
}
session-Started false ready now c = record {
  no_failures = refl;
  no_tier = refl;
  no_delay = refl;
  readies = refl;
  resumes = refl;
  total = refl;
}
session-Started false resumed now c = record {
  no_failures = refl;
  no_tier = refl;
  no_delay = refl;
  readies = refl;
  resumes = refl;
  total = refl;
}

session-Agrees :
    {b c d : Backoff} (m : SessionMode) (now : ℕ) (r : Reach b c)
    (h : reset (mode_value m) now c ≡ ok d)
    → Agrees r
    → Started m (duplicate c m) c d
    → ((k : SessionMode) → duplicate d k ≡ str_eq (mode_value m) (mode_value k))
    → Agrees (next r (connects (mode_value m) now d h))
unfolding failures_since last_wish running sessions
session-Agrees ready now r h v s up = record {
  failures = s.no_failures;
  tiers = s.no_tier;
  waits = s.no_delay;
  ready_sessions = ground (arith, s.readies, v.up ready, v.ready_sessions);
  resumed_sessions = ground (arith, s.resumes, v.resumed_sessions);
  all_sessions = ground (arith, s.total, v.up ready, v.all_sessions);
  up = up;
}
session-Agrees resumed now r h v s up = record {
  failures = s.no_failures;
  tiers = s.no_tier;
  waits = s.no_delay;
  ready_sessions = ground (arith, s.readies, v.ready_sessions);
  resumed_sessions = ground (arith, s.resumes, v.up resumed, v.resumed_sessions);
  all_sessions = ground (arith, s.total, v.up resumed, v.all_sessions);
  up = up;
}

connects-Agrees :
    {b c d : Backoff} (mode : String) (now : ℕ) (r : Reach b c) (h : reset mode now c ≡ ok d)
    → Agrees r
    → Agrees (next r (connects mode now d h))
connects-Agrees {b} {c} {d} mode now r h v =
    let (m, parsed, e) = reset-result mode now c d (parse_mode mode) refl h in
    let whole : (mode' : String) (same : mode_value m ≡ mode') (h' : reset mode' now c ≡ ok d)
        → Agrees (next r (connects mode' now d h')) =
      λ mode' same.
        subst (λ q. (h' : reset q now c ≡ ok d) → Agrees (next r (connects q now d h'))) same
          (λ h'.
            session-Agrees m now r h' v
              (subst (Started m (duplicate c m) c) e (session-Started (duplicate c m) m now c))
              (λ k.
                subst (λ x. duplicate x k ≡ str_eq (mode_value m) (mode_value k)) e
                  (duplicate-started (duplicate c m) m k now c))) in
    whole mode (parse_mode-value mode m parsed) h

duplicate-stopped : (c : Backoff) (m : SessionMode) → duplicate (stop c) m ≡ duplicate c m
unfolding duplicate connected
duplicate-stopped c m = refl

-- Neither a failure nor an attempt puts a session up.
duplicate-failed :
    (code : String) (retry_after : Option ℕ) (now : ℕ) (c : Backoff) (m : SessionMode)
    → duplicate (next_delay code retry_after now c).0 m ≡ false
unfolding duplicate connected next_delay
duplicate-failed code retry_after now c m = refl

marked : Bool → Bool → Backoff → Backoff
marked up idle c =
    if up then c else record c { connection_state = if idle then "connecting" else "reconnecting" }

-- An attempt to connect changes nothing that is counted.
record Kept (c d : Backoff) : Type 0 where
  same_failures : d.consecutive_failures ≡ c.consecutive_failures
  same_tier : d.tier ≡ c.tier
  same_delay : d.selected_delay ≡ c.selected_delay
  same_ready : d.ready_count ≡ c.ready_count
  same_resumed : d.resumed_count ≡ c.resumed_count
  same_total : d.reset_count ≡ c.reset_count
  same_session : (m : SessionMode) → duplicate d m ≡ duplicate c m

marked-Kept : (up idle : Bool) (c : Backoff) → connected c ≡ up → Kept c (marked up idle c)
unfolding marked duplicate connected
marked-Kept true idle c e = record {
  same_failures = refl;
  same_tier = refl;
  same_delay = refl;
  same_ready = refl;
  same_resumed = refl;
  same_total = refl;
  same_session = λ m. refl;
}
marked-Kept false true c e = record {
  same_failures = refl;
  same_tier = refl;
  same_delay = refl;
  same_ready = refl;
  same_resumed = refl;
  same_total = refl;
  same_session = λ m. rw e refl;
}
marked-Kept false false c e = record {
  same_failures = refl;
  same_tier = refl;
  same_delay = refl;
  same_ready = refl;
  same_resumed = refl;
  same_total = refl;
  same_session = λ m. rw e refl;
}

mark_connecting-Kept : (c : Backoff) → Kept c (mark_connecting c)
unfolding mark_connecting marked
mark_connecting-Kept c = marked-Kept (connected c) (c.tier == 0) c refl

marks-Agrees : {b c : Backoff} (r : Reach b c) → Agrees r → Agrees (next r marks)
unfolding failures_since last_wish running sessions
marks-Agrees {b} {c} r v =
    let k = mark_connecting-Kept c in
    record {
      failures = k.same_failures ∙ v.failures;
      tiers = k.same_tier ∙ v.tiers;
      waits = k.same_delay ∙ v.waits;
      ready_sessions = k.same_ready ∙ v.ready_sessions;
      resumed_sessions = k.same_resumed ∙ v.resumed_sessions;
      all_sessions = k.same_total ∙ v.all_sessions;
      up = λ m. k.same_session m ∙ v.up m;
    }

Step-Agrees : {b c d : Backoff} (r : Reach b c) (s : Step c d) → Agrees r → Agrees (next r s)
unfolding next_delay mark_connecting failures_since last_wish running sessions
Step-Agrees {b} {c} r (fails code retry_after now) v = record {
  failures = rw v.failures refl;
  tiers = rw v.failures refl;
  waits = ground (arith, v.failures);
  ready_sessions = v.ready_sessions;
  resumed_sessions = v.resumed_sessions;
  all_sessions = v.all_sessions;
  up = duplicate-failed code retry_after now c;
}
Step-Agrees {b} {c} r (connects mode now d h) v = connects-Agrees mode now r h v
Step-Agrees {b} {c} r marks v = marks-Agrees r v
Step-Agrees {b} {c} r stops v = record {
  failures = v.failures;
  tiers = v.tiers;
  waits = v.waits;
  ready_sessions = v.ready_sessions;
  resumed_sessions = v.resumed_sessions;
  all_sessions = v.all_sessions;
  up = λ m. duplicate-stopped c m ∙ v.up m;
}

none_up : (m : SessionMode) → duplicate new_backoff m ≡ false
unfolding duplicate connected
none_up m = refl

-- Over any sequence of failures, sessions, attempts to connect and stops that starts with a new
-- object: it counts the failures since the last session, the tier is their number, at most 10, and the
-- delay is the one for that number and what the server asked for at the last failure, or none after a
-- session; the sessions counted as ready and as resumed are those that came up, where a session that
-- is up and is reported again with its mode is the same one; and every session is counted in one of
-- the two.
pub Reach-Agrees : {c : Backoff} (r : Reach new_backoff c) → Agrees r
unfolding failures_since last_wish running sessions
Reach-Agrees here = record {
  failures = refl;
  tiers = refl;
  waits = refl;
  ready_sessions = refl;
  resumed_sessions = refl;
  all_sessions = refl;
  up = none_up;
}
Reach-Agrees (next r s) = Step-Agrees r s (Reach-Agrees r)
