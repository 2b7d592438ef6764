-- ===== src/Runtime/EventPump/Delivery.antt =====
-- What the loop hands to the sink has the texts of the stream.
use code_xd.Prelude.{
  ℕ, ◌+◌, ◌≡◌, refl, sym, ap, ◌∙◌, subst, Bool, true, false, Option, none, some, List, [], ◌∷◌,
  ◌++◌, append_assoc, append-nil, String, is_some, if◌then◌else◌, Bool-cases, inl, inr, Result, ok,
  err,
}
use code_xd.Python.Numerals.{ℤ}
use code_xd.Runtime.EventPump.{NormalizedEvent, replaced_kind, BufferKey, buffer_key, Builtins}
use code_xd.Runtime.EventPump.Merge.{merge_buffered, buffered_size}
use code_xd.Runtime.EventPump.Loop.{
  Entry, provider, Answer, raises, recorded, Raised, Happening, arrives, times_out, ends, fails,
  is_cancelled, ended, raised, Pump, new_pump, Stage, and_then, persist, answered, flush,
  flush_held, too_large, measured, keep, joined, absorb, timed_out, round, rounds, or_deadline,
}
use code_xd.Runtime.EventPump.Texts.{of_texts, text_in, text_under, merge_buffered-text}
use code_xd.Runtime.EventPump.Held.{
  journal_text, held_text, total_text, events_of, Delivered, Held, Anything, Empty,
  journal_text-snoc, and_then-Held, Held-any, and_then-Delivered, and_then-left,
}

-- What holds of both branches holds of the conditional.
if-both : (P : Stage → Type 0) (b : Bool) (x y : Stage) → P x → P y → P (if b then x else y)
if-both P true x y p q = p
if-both P false x y p q = q

module _ (lib : Builtins) (sink : List Entry → Entry → Answer) (flush_ms : ℕ) (k : BufferKey)
    (texts : of_texts k ≡ true) where
  -- The held event, once it is handed over.
  handed_over :
      (e : NormalizedEvent) (s : Pump)
      → s.buffered ≡ some e
      → journal_text k (s.journal ++ provider e ∷ []) ++ [] ≡ total_text k s
  handed_over e s h =
      append-nil (journal_text k (s.journal ++ provider e ∷ []))
      ∙ journal_text-snoc k s.journal e
      ∙ ap (λ b. journal_text k s.journal ++ held_text k b) (sym h)

  -- A further event is handed over while nothing is held.
  added :
      (e : NormalizedEvent) (es : List Entry) (b : Option NormalizedEvent)
      → b ≡ none
      → journal_text k (es ++ provider e ∷ []) ++ held_text k b
        ≡ (journal_text k es ++ held_text k b) ++ text_in k e
  added e es none h =
      append-nil (journal_text k (es ++ provider e ∷ []))
      ∙ journal_text-snoc k es e
      ∙ ap (λ t. t ++ text_in k e) (sym (append-nil (journal_text k es)))
  added e es (some b) h = cc

  answered-flushed :
      (a : Answer) (e : NormalizedEvent) (s : Pump)
      → s.buffered ≡ some e
      → Held k Empty
          (and_then
            (answered lib sink flush_ms e a s)
            (λ t. (record t { buffered = none; flush_deadline = none }, none)))
          (total_text k s)
  unfolding Held and_then
  answered-flushed raises e s h = (held_text k s.buffered, refl)
  answered-flushed (recorded t none) e s h = (handed_over e s h, refl)
  answered-flushed (recorded none (some n)) e s h = (handed_over e s h, refl)
  answered-flushed (recorded (some t) (some n)) e s h = ([], handed_over e s h)

  answered-added :
      (a : Answer) (e : NormalizedEvent) (s : Pump)
      → s.buffered ≡ none
      → Held k Anything (answered lib sink flush_ms e a s) (total_text k s ++ text_in k e)
  unfolding Held
  answered-added raises e s h = (
    held_text k s.buffered ++ text_in k e,
    sym (append_assoc (journal_text k s.journal) (held_text k s.buffered) (text_in k e)),
  )
  answered-added (recorded t none) e s h = (added e s.journal s.buffered h, tt)
  answered-added (recorded none (some n)) e s h = (added e s.journal s.buffered h, tt)
  answered-added (recorded (some t) (some n)) e s h = (
    [],
    append-nil (journal_text k (s.journal ++ provider e ∷ []))
        ∙ sym (
            ap (λ b. journal_text k (s.journal ++ provider e ∷ []) ++ held_text k b) h
            ∙ append-nil (journal_text k (s.journal ++ provider e ∷ [])))
        ∙ added e s.journal s.buffered h,
  )

  flush_held-Held :
      (held : Option NormalizedEvent) (s : Pump)
      → s.buffered ≡ held
      → Held k Empty (flush_held lib sink flush_ms held s) (total_text k s)
  unfolding Held persist
  flush_held-Held none s h = (refl, h)
  flush_held-Held (some e) s h = answered-flushed (sink s.journal (provider e)) e s h

  flush-Held : (s : Pump) → Held k Empty (flush lib sink flush_ms s) (total_text k s)
  unfolding flush
  flush-Held s = flush_held-Held s.buffered s refl

  persist-Held :
      (e : NormalizedEvent) (s : Pump)
      → s.buffered ≡ none
      → Held k Anything (persist lib sink flush_ms e s) (total_text k s ++ text_in k e)
  unfolding persist
  persist-Held e s h = answered-added (sink s.journal (provider e)) e s h

  measured-Held :
      (size : Result String ℤ) (s : Pump)
      → Held k Anything (measured lib sink flush_ms size s) (total_text k s)
  unfolding Held
  measured-Held (err c) s = (held_text k s.buffered, refl)
  measured-Held (ok z) s =
      if-both (λ st. Held k Anything st (total_text k s)) (too_large lib sink flush_ms z)
        (flush lib sink flush_ms s) (s, none)
        (Held-any k Empty (flush lib sink flush_ms s) (total_text k s) (flush-Held s)) (refl, tt)

  -- An event is held in place of what was held before.
  keep-Held :
      (now : ℕ) (e : NormalizedEvent) (s : Pump) (t : List ℕ)
      → journal_text k s.journal ++ text_in k e ≡ t
      → Held k Anything (keep lib sink flush_ms now e s) t
  unfolding Held keep
  keep-Held now e s t h =
      let held : Pump = record s {
        buffered = some e;
        flush_deadline = or_deadline (now + flush_ms) s.flush_deadline;
      } in
      if-both (λ st. Held k Anything st t) (replaced_kind e.kind) (held, none)
        (measured lib sink flush_ms (buffered_size lib e) held) (h, tt)
        (subst (Held k Anything (measured lib sink flush_ms (buffered_size lib e) held)) h
          (measured-Held (buffered_size lib e) held))

  joined-Held :
      (now : ℕ) (e held : NormalizedEvent) (r : Result String (Option NormalizedEvent)) (s : Pump)
      → s.buffered ≡ some held
      → is_some (buffer_key e) ≡ true
      → merge_buffered lib held e ≡ r
      → Held k Anything (joined lib sink flush_ms now e r s) (total_text k s ++ text_in k e)
  unfolding Held
  joined-Held now e held (err c) s h key m = (
    held_text k s.buffered ++ text_in k e,
    sym (append_assoc (journal_text k s.journal) (held_text k s.buffered) (text_in k e)),
  )
  joined-Held now e held (ok none) s h key m =
      and_then-Held k Empty Anything (flush lib sink flush_ms s) (keep lib sink flush_ms now e)
        (total_text k s) (text_in k e) (flush-Held s)
        (λ u eq empty. keep-Held now e u (total_text k s ++ text_in k e) (
          ap (λ t. t ++ text_in k e)
            (sym (append-nil (journal_text k u.journal))
              ∙ ap (λ b. journal_text k u.journal ++ held_text k b) (sym empty)
              ∙ eq)))
  joined-Held now e held (ok (some merged)) s h key m =
      keep-Held now merged s (total_text k s ++ text_in k e) (
        ap (λ t. journal_text k s.journal ++ t)
          (merge_buffered-text lib k held e merged texts key m)
        ∙ sym (append_assoc (journal_text k s.journal) (text_in k held) (text_in k e))
        ∙ ap (λ b. (journal_text k s.journal ++ held_text k b) ++ text_in k e) (sym h))

  absorb-Held :
      (now : ℕ) (e : NormalizedEvent) (held : Option NormalizedEvent) (s : Pump)
      → s.buffered ≡ held
      → is_some (buffer_key e) ≡ true
      → Held k Anything (absorb lib sink flush_ms now e held s) (total_text k s ++ text_in k e)
  absorb-Held now e none s h key = keep-Held now e s (total_text k s ++ text_in k e) (
      ap (λ t. t ++ text_in k e)
        (sym (append-nil (journal_text k s.journal))
          ∙ ap (λ b. journal_text k s.journal ++ held_text k b) (sym h)))
  absorb-Held now e (some held) s h key =
      joined-Held now e held (merge_buffered lib held e) s h key refl

  arrives-Held :
      (now : ℕ) (e : NormalizedEvent) (s : Pump)
      → Held k Anything (round lib sink flush_ms (arrives now e) s) (total_text k s ++ text_in k e)
  unfolding round
  arrives-Held now e s = elim (Bool-cases (is_some (buffer_key e))) [
    | inl key ↦ rw key (absorb-Held now e s.buffered s refl key)
    | inr plain ↦ rw plain (
        and_then-Held k Empty Anything (flush lib sink flush_ms s) (persist lib sink flush_ms e)
          (total_text k s) (text_in k e) (flush-Held s)
          (λ u eq empty.
            subst (λ t. Held k Anything (persist lib sink flush_ms e u) (t ++ text_in k e)) eq
              (persist-Held e u empty)))
  ]

  timed_out-Held :
      (held : Option NormalizedEvent) (s : Pump)
      → Held k Anything (timed_out lib sink flush_ms held s) (total_text k s)
  unfolding Held
  timed_out-Held none s = (held_text k s.buffered, refl)
  timed_out-Held (some e) s =
      Held-any k Empty (flush lib sink flush_ms s) (total_text k s) (flush-Held s)

  -- Once nothing is held, all of the text is handed over.
  all_handed :
      (u : Pump) (t : List ℕ)
      → total_text k u ≡ t
      → u.buffered ≡ none
      → journal_text k u.journal ≡ t ++ []
  all_handed u t eq empty =
      sym (append-nil (journal_text k u.journal))
      ∙ ap (λ b. journal_text k u.journal ++ held_text k b) (sym empty)
      ∙ eq
      ∙ sym (append-nil t)

  ends-Delivered :
      (hs : List Happening) (s : Pump)
      → Delivered k (rounds lib sink flush_ms (ends ∷ hs) s) (total_text k s ++ [])
  unfolding rounds round Delivered
  ends-Delivered hs s =
      subst (λ st. Delivered k st (total_text k s ++ []))
        (sym (and_then-left (flush lib sink flush_ms s) ended (rounds lib sink flush_ms hs)))
        (and_then-Delivered k Empty (flush lib sink flush_ms s) (λ u. (u, some ended))
          (total_text k s) [] (flush-Held s) (λ u eq empty. all_handed u (total_text k s) eq empty))

  fails-Delivered :
      (error : Raised) (hs : List Happening) (s : Pump)
      → Delivered k (rounds lib sink flush_ms (fails error ∷ hs) s) (total_text k s ++ [])
  unfolding rounds round Delivered
  fails-Delivered error hs s =
      subst (λ st. Delivered k st (total_text k s ++ []))
        (sym
          (and_then-left (flush lib sink flush_ms s) (raised error) (rounds lib sink flush_ms hs)))
        (and_then-Delivered k Empty (flush lib sink flush_ms s) (λ u. (u, some (raised error)))
          (total_text k s) [] (flush-Held s)
          (λ u eq empty.
            ([], append-nil (journal_text k u.journal) ∙ all_handed u (total_text k s) eq empty)))

  rounds-total :
      (hs : List Happening) (s : Pump)
      → Delivered k (rounds lib sink flush_ms hs s) (total_text k s ++ text_under k (events_of hs))
  unfolding rounds round Delivered and_then
  rounds-total [] s = sym (append-nil (total_text k s))
  rounds-total (arrives now e ∷ hs) s =
      let rest = text_under k (events_of hs) in
      subst (Delivered k (rounds lib sink flush_ms (arrives now e ∷ hs) s))
        (append_assoc (total_text k s) (text_in k e) rest)
        (and_then-Delivered k Anything (round lib sink flush_ms (arrives now e) s)
          (rounds lib sink flush_ms hs) (total_text k s ++ text_in k e) rest (arrives-Held now e s)
          (λ u eq any.
            subst (λ t. Delivered k (rounds lib sink flush_ms hs u) (t ++ rest)) eq
              (rounds-total hs u)))
  rounds-total (times_out ∷ hs) s =
      let rest = text_under k (events_of hs) in
      and_then-Delivered k Anything (timed_out lib sink flush_ms s.buffered s)
        (rounds lib sink flush_ms hs) (total_text k s) rest (timed_out-Held s.buffered s)
        (λ u eq any.
          subst (λ t. Delivered k (rounds lib sink flush_ms hs u) (t ++ rest)) eq
            (rounds-total hs u))
  rounds-total (ends ∷ hs) s = ends-Delivered hs s
  rounds-total (fails error ∷ hs) s = fails-Delivered error hs s
  rounds-total (is_cancelled ∷ hs) s = (
    held_text k s.buffered ++ [],
    sym (append_assoc (journal_text k s.journal) (held_text k s.buffered) []),
  )

  -- Whatever comes, whatever the sink answers, and under every key of texts that are put together:
  -- as long as the loop goes on, the texts handed to the sink, and then the one held, are those of
  -- the stream's events, each once and in order; when the stream has ended, all are handed over; when
  -- the loop returns or raises, those handed over are a beginning of them.
  pub rounds-Delivered :
      (hs : List Happening)
      → Delivered k (rounds lib sink flush_ms hs (new_pump [])) (text_under k (events_of hs))
  rounds-Delivered hs = rounds-total hs (new_pump [])
