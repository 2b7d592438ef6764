-- ===== src/Transport/Governor/Spacing.antt =====
-- The spacing of the requests, over any sequence of rounds and penalties.
use code_xd.Prelude.{
  ℕ, ◌+◌, ◌-◌, ◌≤◌, ◌<◌, ◌≡◌, refl, max, Option, none, some, List, String, str_eq, str_eq_iff,
  if◌then◌else◌, leb, get, put, get-put, arith, Bool-cases, inl, inr, leb→le, le→leb, subst,
}
use code_xd.Transport.Governor.{
  Permit, Governor, at_key, message_ready, ready_at, space_message, granted, delayed, acquire,
  penalize_message, penalize, verify_message,
}

-- A round of `acquire` by any task, a penalty or the note of a verified message, at any time.
pub data Step (route_key : Permit → String) (g : Governor) : Governor → Type 0 where
  acquires : (p : Permit) (now : ℕ) → Step route_key g (acquire route_key p now g).0
  penalizes : (p : Permit) (retry_after now : ℕ) → Step route_key g (penalize p retry_after now g)
  verifies : (key id : String) → Step route_key g (verify_message key id g)

pub data Reach (route_key : Permit → String) (g : Governor) : Governor → Type 0 where
  here : Reach route_key g g
  next : {h k : Governor} → Reach route_key g h → Step route_key h k → Reach route_key g k

-- No request becomes possible earlier.
pub record Later (g h : Governor) : Type 0 where
  pub globally : g.global_ready_at ≤ h.global_ready_at
  pub channels : (key : String) → at_key key g.channel_ready_at ≤ at_key key h.channel_ready_at
  pub messages : (key : String) → at_key key g.message_ready_at ≤ at_key key h.message_ready_at

put-Later :
    (j k : String) (v : ℕ) (m : List (String × ℕ))
    → at_key k m ≤ v
    → at_key j m ≤ at_key j (put k v m)
put-Later j k v m h = ground (arith, get-put j k v m, str_eq_iff k j)

space_message-Later :
    (o : Option String) (i : Option ℕ) (now : ℕ) (g : Governor) (j : String)
    → message_ready o g ≤ now
    → at_key j g.message_ready_at ≤ at_key j (space_message o i now g.message_ready_at)
unfolding space_message
space_message-Later none i now g j h = omega arith
space_message-Later (some k) none now g j h = omega arith
space_message-Later (some k) (some i) now g j h =
    put-Later j k (now + i) g.message_ready_at (omega (arith, h))

penalize_message-Later :
    (o : Option String) (t : ℕ) (m : List (String × ℕ)) (j : String)
    → at_key j m ≤ at_key j (penalize_message o t m)
unfolding penalize_message
penalize_message-Later none t m j = omega arith
penalize_message-Later (some k) t m j = put-Later j k (max (at_key k m) t) m (omega arith)

acquire-Later :
    (route_key : Permit → String) (p : Permit) (now : ℕ) (g : Governor)
    → Later g (acquire route_key p now g).0
unfolding acquire granted delayed ready_at
acquire-Later route_key p now g = elim (Bool-cases (leb (ready_at p g) now)) [
  | inl due ↦
      let d = leb→le (ready_at p g) now due in
      rw due record {
        globally = omega (arith, d);
        channels = λ j.
            put-Later j p.destination_key (now + g.channel_interval) g.channel_ready_at
              (omega (arith, d));
        messages = λ j.
            space_message-Later p.message_key (get p.route_kind g.message_intervals) now g j
              (omega (arith, d));
      }
  | inr early ↦
      rw early
        record { globally = omega arith; channels = λ j. omega arith; messages = λ j. omega arith }
]

Step-Later : {route_key : Permit → String} {g h : Governor} → Step route_key g h → Later g h
unfolding penalize verify_message
Step-Later {route_key} {g} (acquires p now) = acquire-Later route_key p now g
Step-Later {route_key} {g} (penalizes p r now) = record {
  globally = omega arith;
  channels = λ j. put-Later j p.destination_key _ g.channel_ready_at (omega arith);
  messages = λ j. penalize_message-Later p.message_key (now + max 1 r) g.message_ready_at j;
}
Step-Later {route_key} {g} (verifies key id) = record {
  globally = omega arith;
  channels = λ j. omega arith;
  messages = λ j. omega arith;
}

Later-trans : {f g h : Governor} → Later f g → Later g h → Later f h
Later-trans a b = record {
  globally = omega (arith, a.globally, b.globally);
  channels = λ j. omega (arith, a.channels j, b.channels j);
  messages = λ j. omega (arith, a.messages j, b.messages j);
}

Reach-Later : {route_key : Permit → String} {g h : Governor} → Reach route_key g h → Later g h
Reach-Later here = record {
  globally = omega arith;
  channels = λ j. omega arith;
  messages = λ j. omega arith;
}
Reach-Later (next r s) = Later-trans (Reach-Later r) (Step-Later s)

-- The time that must pass between two permits.
abbrev message_spacing : Option String → Option String → Option ℕ → ℕ
message_spacing (some k) (some j) (some i) = if str_eq k j then i else 0
message_spacing _ _ _ = 0

abbrev pub spacing : Permit → Permit → Governor → ℕ
spacing p q g =
    max
      (max g.global_interval
        (if str_eq p.destination_key q.destination_key then g.channel_interval else 0))
      (message_spacing p.message_key q.message_key (get p.route_kind g.message_intervals))

channel_spacing-kept :
    (k j : String) (t v : ℕ) (m n : List (String × ℕ))
    → at_key k (put k (t + v) m) ≤ at_key k n
    → t + (if str_eq k j then v else 0) ≤ max t (at_key j n)
channel_spacing-kept k j t v m n h =
    ground (arith, get-put k k (t + v) m, str_eq_iff k j, str_eq_iff k k)

message_spacing-kept :
    (o u : Option String) (i : Option ℕ) (t : ℕ) (m : List (String × ℕ)) (h : Governor)
    → ((j : String) → at_key j (space_message o i t m) ≤ at_key j h.message_ready_at)
    → t + message_spacing o u i ≤ max t (message_ready u h)
unfolding space_message
message_spacing-kept none u i t m h l = omega arith
message_spacing-kept (some k) none i t m h l = omega arith
message_spacing-kept (some k) (some j) none t m h l = omega arith
message_spacing-kept (some k) (some j) (some i) t m h l =
    ground (arith, l k, get-put k k (t + i) m, str_eq_iff k j, str_eq_iff k k)

module _ (route_key : Permit → String) where
  -- A permit that is granted is due.
  granted-due :
      (p : Permit) (now : ℕ) (g : Governor)
      → (acquire route_key p now g).1 ≡ none
      → ready_at p g ≤ now
  unfolding acquire
  granted-due p now g h = ground (arith, leb→le (ready_at p g) now)

  granted-state :
      (p : Permit) (now : ℕ) (g : Governor)
      → (acquire route_key p now g).1 ≡ none
      → (acquire route_key p now g).0 ≡ granted route_key p now g
  unfolding acquire
  granted-state p now g h = ground arith

  granted-Later :
      (p : Permit) (t : ℕ) (g h : Governor)
      → (acquire route_key p t g).1 ≡ none
      → Reach route_key (acquire route_key p t g).0 h
      → Later (granted route_key p t g) h
  granted-Later p t g h first r = subst (λ x. Later x h) (granted-state p t g first) (Reach-Later r)

  -- When a permit is granted and, after any rounds and penalties, another one is granted, the time
  -- between the two is at least the global interval; for the same channel, at least the channel's
  -- interval; and for the same message, at least the interval of the first permit's route.
  pub acquire-spacing :
      (p q : Permit) (t t' : ℕ) (g h : Governor)
      → (acquire route_key p t g).1 ≡ none
      → Reach route_key (acquire route_key p t g).0 h
      → (acquire route_key q t' h).1 ≡ none
      → t + spacing p q g ≤ t'
  unfolding granted ready_at
  acquire-spacing p q t t' g h first r second =
      let due = granted-due q t' h second in
      let later = granted-Later p t g h first r in
      omega (
        arith,
        due,
        later.globally,
        channel_spacing-kept p.destination_key q.destination_key t g.channel_interval
            g.channel_ready_at h.channel_ready_at (later.channels p.destination_key),
        message_spacing-kept p.message_key q.message_key (get p.route_kind g.message_intervals) t
            g.message_ready_at h later.messages,
      )

  granted-when_due :
      (p : Permit) (now : ℕ) (g : Governor)
      → ready_at p g ≤ now
      → (acquire route_key p now g).1 ≡ none
  unfolding acquire
  granted-when_due p now g h = ground (arith, le→leb (ready_at p g) now h)

  delayed-state :
      (p : Permit) (now delay : ℕ) (g : Governor)
      → (acquire route_key p now g).1 ≡ some delay
      → ((acquire route_key p now g).0 ≡ delayed route_key p delay g)
        × (now < ready_at p g)
        × (delay ≡ ready_at p g - now)
  unfolding acquire
  delayed-state p now delay g h = elim (Bool-cases (leb (ready_at p g) now)) [
    | inl due ↦ absurd (ground (arith, due))
    | inr early ↦ (ground (arith, early), ground (arith, early), ground (arith, early))
  ]

  message_ready-delayed :
      (p : Permit) (delay : ℕ) (g : Governor) (o : Option String)
      → message_ready o (delayed route_key p delay g) ≡ message_ready o g
  unfolding delayed
  message_ready-delayed p delay g none = refl
  message_ready-delayed p delay g (some key) = refl

  -- A round that is not granted tells how long to sleep, and the round after that sleep is granted,
  -- unless another task or a penalty comes between.
  pub acquire-returns :
      (p : Permit) (now delay : ℕ) (g : Governor)
      → (acquire route_key p now g).1 ≡ some delay
      → (0 < delay) × ((acquire route_key p (now + delay) (acquire route_key p now g).0).1 ≡ none)
  unfolding delayed ready_at
  acquire-returns p now delay g h =
      let (state, early, rest) = delayed-state p now delay g h in
      (
        omega (arith, early, rest),
        rw state (
            granted-when_due p (now + delay) (delayed route_key p delay g)
              (omega (arith, early, rest, message_ready-delayed p delay g p.message_key))),
      )
