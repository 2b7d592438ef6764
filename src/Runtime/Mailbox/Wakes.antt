-- ===== src/Runtime/Mailbox/Wakes.antt =====
-- No wake-up is lost.
use code_xd.Prelude.{
  ℕ, ◌-◌, ◌≡◌, refl, Bool, true, false, Option, none, some, List, [], ◌∷◌, String, any, arith,
  Bool-cases, Option-cases, inl, inr,
}
use code_xd.Runtime.Mailbox.{
  QueuedTurn, waits, next_queued_turn, Phase, idle, looking, answered, handling, reporting,
  sleeping, returned, failed, Mailbox, resume, from_place, at_handler, at_report, asleep, at_look,
  after_handler, after_error, after_report, wake_after, after_failure, done, World, mailbox_of,
  wake, close, leave_queue, Event, resumes, look_raises, handler_returns, handler_raises, reported,
  slept, enqueued, dequeued, enqueuer_wakes, anyone_wakes, registry_closes, task_step, happens,
  all_happen, new_world,
}

abbrev pub has_queued : String → List QueuedTurn → Bool
has_queued c turns = any (waits c) turns

next_queued_turn-none :
    (c : String) (turns : List QueuedTurn)
    → next_queued_turn c turns ≡ none
    → has_queued c turns ≡ false
unfolding next_queued_turn
next_queued_turn-none c [] h = refl
next_queued_turn-none c (t ∷ turns) h = ground (arith, next_queued_turn-none c turns)

has_queued-leave :
    (c id : String) (turns : List QueuedTurn)
    → has_queued c (leave_queue id turns) ≡ true
    → has_queued c turns ≡ true
has_queued-leave c id [] h = h
has_queued-leave c id (t ∷ turns) h = ground (arith, has_queued-leave c id turns)

-- The task will look for a Turn again without a further call of `wake`, or an exception has ended it.
abbrev pub will_look : Phase → Bool → Bool
will_look idle is_awake = is_awake
will_look (answered none) is_awake = is_awake
will_look returned is_awake = false
will_look _ is_awake = true

abbrev pub attended : Option Mailbox → Bool
attended none = false
attended (some m) = will_look m.phase m.is_awake

abbrev pub any_closed : Option Mailbox → Bool
any_closed none = false
any_closed (some m) = m.closed

-- While the registry is open, the mailbox is open, and attends to the Turns that are queued, once all
-- who queued one have called `wake`.
pub record Served (c : String) (w : World) : Type 0 where
  pub mailbox_open : w.registry_closed ≡ false → any_closed w.mailbox ≡ false
  pub attends :
      w.registry_closed ≡ false
      → has_queued c w.turns ≡ true
      → w.owed ≡ 0
      → attended w.mailbox ≡ true

module _ (c : String) where
  resume-attends :
      (turns : List QueuedTurn) (p : Phase) (m : Mailbox)
      → m.phase ≡ p
      → m.closed ≡ false
      → (has_queued c turns ≡ true → will_look m.phase m.is_awake ≡ true)
      → has_queued c turns ≡ true
      → attended (some (resume c turns p m)) ≡ true
  resume-attends turns idle m e o h q = ground arith
  resume-attends turns looking m e o h q = elim (Option-cases (next_queued_turn c turns)) [
    | inl absent ↦ ground (arith, next_queued_turn-none c turns absent)
    | inr (t, found) ↦ rw found refl
  ]
  resume-attends turns (answered none) m e o h q = ground arith
  resume-attends turns (answered (some t)) m e o h q = refl
  resume-attends turns (handling t) m e o h q = ground arith
  resume-attends turns reporting m e o h q = ground arith
  resume-attends turns sleeping m e o h q = ground arith
  resume-attends turns returned m e o h q = ground arith
  resume-attends turns failed m e o h q = ground arith

  -- A step of the task keeps the mailbox open, and the task attentive.
  Steady : List QueuedTurn → (Phase → Mailbox → Mailbox) → Type 0
  Steady turns f =
      (m : Mailbox)
      → m.closed ≡ false
      → ((f m.phase m).closed ≡ false)
        × ((has_queued c turns ≡ true → will_look m.phase m.is_awake ≡ true)
            → has_queued c turns ≡ true
            → attended (some (f m.phase m)) ≡ true)

  resume-open :
      (turns : List QueuedTurn) (p : Phase) (m : Mailbox)
      → m.closed ≡ false
      → (resume c turns p m).closed ≡ false
  resume-open turns idle m o = ground arith
  resume-open turns looking m o = o
  resume-open turns (answered none) m o = o
  resume-open turns (answered (some t)) m o = o
  resume-open turns (handling t) m o = o
  resume-open turns reporting m o = o
  resume-open turns sleeping m o = o
  resume-open turns returned m o = o
  resume-open turns failed m o = o

  resume-Steady : (turns : List QueuedTurn) → Steady turns (resume c turns)
  unfolding Steady
  resume-Steady turns m o = (resume-open turns m.phase m o, resume-attends turns m.phase m refl o)

  -- The other steps, each from one place.
  from_place-Steady :
      (turns : List QueuedTurn) (place : Phase → Bool) (f : Mailbox → Mailbox)
      → ((m : Mailbox)
          → m.closed ≡ false
          → ((f m).closed ≡ false) × (will_look (f m).phase (f m).is_awake ≡ true))
      → Steady turns (from_place place f)
  unfolding Steady
  from_place-Steady turns place f k m o = elim (Bool-cases (place m.phase)) [
    | inl here ↦ rw here ((k m o).0, λ h q. (k m o).1)
    | inr elsewhere ↦ rw elsewhere (o, λ h q. h q)
  ]

  after_handler-looks :
      (retry_after : Option ℕ) (m : Mailbox)
      → m.closed ≡ false
      → ((after_handler retry_after m).closed ≡ false)
        × (will_look (after_handler retry_after m).phase (after_handler retry_after m).is_awake
            ≡ true)
  after_handler-looks none m o = (o, ground arith)
  after_handler-looks (some delay) m o = (o, refl)

  task_step-open :
      (turns : List QueuedTurn) (f : Phase → Mailbox → Mailbox)
      → Steady turns f
      → (b : Option Mailbox) → any_closed b ≡ false
      → any_closed (task_step f b) ≡ false
  unfolding Steady
  task_step-open turns f steady none o = refl
  task_step-open turns f steady (some m) o = (steady m o).0

  task_step-attends :
      (turns : List QueuedTurn) (f : Phase → Mailbox → Mailbox)
      → Steady turns f
      → (b : Option Mailbox) → any_closed b ≡ false
      → (has_queued c turns ≡ true → attended b ≡ true)
      → has_queued c turns ≡ true
      → attended (task_step f b) ≡ true
  unfolding Steady
  task_step-attends turns f steady none o h q = h q
  task_step-attends turns f steady (some m) o h q = (steady m o).1 h q

  task_step-Served :
      (f : Phase → Mailbox → Mailbox) (w : World)
      → Steady w.turns f
      → Served c w
      → Served c (record w { mailbox = task_step f w.mailbox })
  unfolding Steady
  task_step-Served f w steady s = record {
    mailbox_open = λ o. task_step-open w.turns f steady w.mailbox (s.mailbox_open o);
    attends = λ o q n.
        task_step-attends w.turns f steady w.mailbox (s.mailbox_open o) (λ r. s.attends o r n) q;
  }

  awake-looks : (p : Phase) → done p ≡ false → will_look p true ≡ true
  awake-looks idle h = refl
  awake-looks looking h = refl
  awake-looks (answered none) h = refl
  awake-looks (answered (some t)) h = refl
  awake-looks (handling t) h = refl
  awake-looks reporting h = refl
  awake-looks sleeping h = refl
  awake-looks returned h = cc
  awake-looks failed h = cc

  mailbox_of-looks : (b : Option Mailbox) → will_look (mailbox_of b).phase true ≡ true
  mailbox_of-looks none = refl
  mailbox_of-looks (some m) = elim (Bool-cases (done m.phase)) [
    | inl over ↦ rw over refl
    | inr running ↦ rw running (awake-looks m.phase running)
  ]

  mailbox_of-open : (b : Option Mailbox) → any_closed b ≡ false → (mailbox_of b).closed ≡ false
  mailbox_of-open none o = refl
  mailbox_of-open (some m) o = ground arith

  wake-Served :
      (w : World) → (w.registry_closed ≡ false → any_closed w.mailbox ≡ false) → Served c (wake w)
  unfolding wake
  wake-Served w o = elim (Bool-cases w.registry_closed) [
    | inl closed ↦ rw closed (record {
      mailbox_open = λ p. ground (arith, closed);
      attends = λ p q n. ground (arith, closed);
    })
    | inr running ↦ rw running (record {
      mailbox_open = λ p. mailbox_of-open w.mailbox (o running);
      attends = λ p q n. mailbox_of-looks w.mailbox;
    })
  ]

  happens-Served : (e : Event) (w : World) → Served c w → Served c (happens c e w)
  unfolding happens close
  happens-Served resumes w s = task_step-Served (resume c w.turns) w (resume-Steady w.turns) s
  happens-Served look_raises w s =
      task_step-Served (from_place at_look after_failure) w
        (from_place-Steady w.turns at_look after_failure (λ m o. (o, refl))) s
  happens-Served (handler_returns retry_after) w s =
      task_step-Served (from_place at_handler (after_handler retry_after)) w
        (from_place-Steady w.turns at_handler (after_handler retry_after)
          (after_handler-looks retry_after))
        s
  happens-Served handler_raises w s =
      task_step-Served (from_place at_handler after_error) w
        (from_place-Steady w.turns at_handler after_error (λ m o. (o, refl))) s
  happens-Served reported w s =
      task_step-Served (from_place at_report after_report) w
        (from_place-Steady w.turns at_report after_report (λ m o. (o, refl))) s
  happens-Served slept w s =
      task_step-Served (from_place asleep wake_after) w
        (from_place-Steady w.turns asleep wake_after (λ m o. (o, ground arith))) s
  happens-Served (enqueued t) w s = record {
    mailbox_open = s.mailbox_open;
    attends = λ o q n. absurd (omega (arith, n));
  }
  happens-Served (dequeued turn_id) w s = record {
    mailbox_open = s.mailbox_open;
    attends = λ o q n. s.attends o (has_queued-leave c turn_id w.turns q) n;
  }
  happens-Served enqueuer_wakes w s = wake-Served (record w { owed = w.owed - 1 }) s.mailbox_open
  happens-Served anyone_wakes w s = wake-Served w s.mailbox_open
  happens-Served registry_closes w s = record { mailbox_open = λ o. refl; attends = λ o q n. cc }

  all_happen-from : (es : List Event) (w : World) → Served c w → Served c (all_happen c es w)
  unfolding all_happen
  all_happen-from [] w s = s
  all_happen-from (e ∷ es) w s = all_happen-from es (happens c e w) (happens-Served e w s)

  -- Whatever happens in whatever order, while the registry is open: if a Turn of the Conversation is
  -- queued, and all who queued one have called `wake`, then the task is about to look for it without a
  -- further call, unless an exception of `next_queued_turn` has ended the task.
  pub all_happen-Served :
      (turns : List QueuedTurn) (es : List Event) → Served c (all_happen c es (new_world turns))
  all_happen-Served turns es =
      all_happen-from es (new_world turns)
        (record { mailbox_open = λ o. refl; attends = λ o q n. absurd (omega (arith, n)) })
