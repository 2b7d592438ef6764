-- ===== src/Runtime/EventPump/Waiting.antt =====
-- What the loop holds while it waits.
use code_xd.Prelude.{
  ℕ, ◌+◌, ◌≡◌, refl, sym, ap, ◌∙◌, subst, true, false, Option, none, some, List, [], ◌∷◌, String,
  is_some, arith, Bool-cases, inl, inr, Result, ok, err, ok-injective,
}
use code_xd.Python.Numerals.{ℤ}
use code_xd.Runtime.EventPump.{NormalizedEvent, replaced_kind, buffer_key, Builtins}
use code_xd.Runtime.EventPump.Merge.{merge_buffered, buffered_size}
use code_xd.Runtime.EventPump.Loop.{
  Entry, provider, Answer, raises, recorded, Happening, arrives, times_out, ends, fails,
  is_cancelled, Pump, new_pump, ended, raised, Stage, and_then, persist, answered, flush,
  flush_held, too_large, measured, keep, joined, absorb, timed_out, round, rounds, or_deadline,
}

-- The pump goes on as `P` says, or the loop is left.
unfoldable pub Goes : (Pump → Type 0) → Stage → Type 0
Goes P (s, none) = P s
Goes P (s, some exit) = Unit

and_then-Goes :
    (P Q : Pump → Type 0) (st : Stage) (f : Pump → Stage)
    → Goes P st
    → ((s : Pump) → P s → Goes Q (f s))
    → Goes Q (and_then st f)
unfolding and_then Goes
and_then-Goes P Q (s, none) f h g = g s h
and_then-Goes P Q (s, some exit) f h g = tt

Goes-weaken : (P Q : Pump → Type 0) (st : Stage) → Goes P st → ((s : Pump) → P s → Q s) → Goes Q st
unfolding Goes
Goes-weaken P Q (s, none) h g = g s h
Goes-weaken P Q (s, some exit) h g = tt

or_deadline-some : (t : ℕ) (d : Option ℕ) → is_some (or_deadline t d) ≡ true
or_deadline-some t none = refl
or_deadline-some t (some u) = refl

-- There is a time to flush exactly while an event is held.
abbrev pub Timed : Pump → Type 0
Timed s = is_some s.buffered ≡ is_some s.flush_deadline

abbrev pub Cleared : Pump → Type 0
Cleared s = (s.buffered ≡ none) × (s.flush_deadline ≡ none)

module _ (lib : Builtins) (sink : List Entry → Entry → Answer) (flush_ms : ℕ) where
  -- And what is held is less than 64 KiB, unless the next one would replace it.
  pub record Ready (s : Pump) : Type 0 where
    pub timed : Timed s
    pub small :
        (e : NormalizedEvent) (z : ℤ)
        → s.buffered ≡ some e
        → replaced_kind e.kind ≡ false
        → buffered_size lib e ≡ ok z
        → too_large lib sink flush_ms z ≡ false

  Cleared-Ready : (s : Pump) → Cleared s → Ready s
  Cleared-Ready s (b, d) = record {
    timed = rw b (rw d refl);
    small = λ e z h r k. ground (arith, b);
  }

  answered-Cleared :
      (a : Answer) (e : NormalizedEvent) (s : Pump)
      → Cleared s
      → Goes Cleared (answered lib sink flush_ms e a s)
  unfolding Goes
  answered-Cleared raises e s h = tt
  answered-Cleared (recorded t none) e s h = h
  answered-Cleared (recorded none (some n)) e s h = h
  answered-Cleared (recorded (some t) (some n)) e s h = tt

  persist-Cleared :
      (e : NormalizedEvent) (s : Pump) → Cleared s → Goes Cleared (persist lib sink flush_ms e s)
  unfolding persist
  persist-Cleared e s c = answered-Cleared (sink s.journal (provider e)) e s c

  clear-Cleared :
      (st : Stage)
      → Goes Cleared
          (and_then st (λ t. (record t { buffered = none; flush_deadline = none }, none)))
  unfolding Goes and_then
  clear-Cleared (s, none) = (refl, refl)
  clear-Cleared (s, some exit) = tt

  flush_held-Cleared :
      (held : Option NormalizedEvent) (s : Pump)
      → s.buffered ≡ held
      → Timed s
      → Goes Cleared (flush_held lib sink flush_ms held s)
  unfolding Goes
  flush_held-Cleared none s h t = (h, no_deadline s.flush_deadline (sym t ∙ ap is_some h))
    where
      no_deadline : (d : Option ℕ) → is_some d ≡ false → d ≡ none
      no_deadline none h = refl
      no_deadline (some n) h = cc
  flush_held-Cleared (some e) s h t = clear-Cleared (persist lib sink flush_ms e s)

  flush-Cleared : (s : Pump) → Timed s → Goes Cleared (flush lib sink flush_ms s)
  unfolding flush
  flush-Cleared s t = flush_held-Cleared s.buffered s refl t

  measured-Ready :
      (e : NormalizedEvent) (size : Result String ℤ) (s : Pump)
      → s.buffered ≡ some e
      → buffered_size lib e ≡ size
      → Timed s
      → Goes Ready (measured lib sink flush_ms size s)
  unfolding Goes
  measured-Ready e (err c) s h m t = tt
  measured-Ready e (ok z) s h m t = elim (Bool-cases (too_large lib sink flush_ms z)) [
    | inl large ↦
        rw large
          (Goes-weaken Cleared Ready (flush lib sink flush_ms s) (flush-Cleared s t) Cleared-Ready)
    | inr fits ↦ rw fits (record {
      timed = t;
      small = λ e' z' h' r k.
          let same : e ≡ e' = cc in
          let eq : z ≡ z' = ok-injective (sym m ∙ ap (buffered_size lib) same ∙ k) in
          subst (λ y. too_large lib sink flush_ms y ≡ false) eq fits;
    })
  ]

  keep-Ready :
      (now : ℕ) (e : NormalizedEvent) (s : Pump) → Goes Ready (keep lib sink flush_ms now e s)
  unfolding Goes keep
  keep-Ready now e s =
      let held : Pump = record s {
        buffered = some e;
        flush_deadline = or_deadline (now + flush_ms) s.flush_deadline;
      } in
      let t : Timed held = sym (or_deadline-some (now + flush_ms) s.flush_deadline) in
      elim (Bool-cases (replaced_kind e.kind)) [
        | inl replaced ↦ rw replaced (record {
          timed = t;
          small =
              λ e' z h r k. let same : e ≡ e' = cc in absurd (ground (arith, same, replaced, r));
        })
        | inr other ↦ rw other (measured-Ready e (buffered_size lib e) held refl refl t)
      ]

  joined-Ready :
      (now : ℕ) (e : NormalizedEvent) (r : Result String (Option NormalizedEvent)) (s : Pump)
      → Timed s
      → Goes Ready (joined lib sink flush_ms now e r s)
  unfolding Goes
  joined-Ready now e (err c) s t = tt
  joined-Ready now e (ok (some m)) s t = keep-Ready now m s
  joined-Ready now e (ok none) s t =
      and_then-Goes Cleared Ready (flush lib sink flush_ms s) (keep lib sink flush_ms now e)
        (flush-Cleared s t) (λ u c. keep-Ready now e u)

  absorb-Ready :
      (now : ℕ) (e : NormalizedEvent) (held : Option NormalizedEvent) (s : Pump)
      → Timed s
      → Goes Ready (absorb lib sink flush_ms now e held s)
  absorb-Ready now e none s t = keep-Ready now e s
  absorb-Ready now e (some held) s t = joined-Ready now e (merge_buffered lib held e) s t

  timed_out-Ready :
      (held : Option NormalizedEvent) (s : Pump)
      → Timed s
      → Goes Ready (timed_out lib sink flush_ms held s)
  unfolding Goes
  timed_out-Ready none s t = tt
  timed_out-Ready (some e) s t =
      Goes-weaken Cleared Ready (flush lib sink flush_ms s) (flush-Cleared s t) Cleared-Ready

  round-Ready : (h : Happening) (s : Pump) → Timed s → Goes Ready (round lib sink flush_ms h s)
  unfolding round Goes
  round-Ready (arrives now e) s t = elim (Bool-cases (is_some (buffer_key e))) [
    | inl key ↦ rw key (absorb-Ready now e s.buffered s t)
    | inr plain ↦ rw plain (
        and_then-Goes Cleared Ready (flush lib sink flush_ms s) (persist lib sink flush_ms e)
          (flush-Cleared s t)
          (λ u c.
            Goes-weaken Cleared Ready (persist lib sink flush_ms e u) (persist-Cleared e u c)
              Cleared-Ready))
  ]
  round-Ready times_out s t = timed_out-Ready s.buffered s t
  round-Ready ends s t =
      and_then-Goes Cleared Ready (flush lib sink flush_ms s) (λ u. (u, some ended))
        (flush-Cleared s t) (λ u c. tt)
  round-Ready (fails error) s t =
      and_then-Goes Cleared Ready (flush lib sink flush_ms s) (λ u. (u, some (raised error)))
        (flush-Cleared s t) (λ u c. tt)
  round-Ready is_cancelled s t = tt

  rounds-from :
      (hs : List Happening) (s : Pump) → Ready s → Goes Ready (rounds lib sink flush_ms hs s)
  unfolding rounds Goes
  rounds-from [] s r = r
  rounds-from (h ∷ hs) s r =
      and_then-Goes Ready Ready (round lib sink flush_ms h s) (rounds lib sink flush_ms hs)
        (round-Ready h s r.timed) (rounds-from hs)

  -- Whatever has come, when the loop goes on to wait, there is a time to flush exactly if an event is
  -- held, and a held event is smaller than 64 KiB, unless it is of a kind of which the next event
  -- replaces the last.
  pub rounds-Ready : (hs : List Happening) → Goes Ready (rounds lib sink flush_ms hs (new_pump []))
  rounds-Ready hs = rounds-from hs (new_pump []) (Cleared-Ready (new_pump []) (refl, refl))
