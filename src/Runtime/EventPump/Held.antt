-- ===== src/Runtime/EventPump/Held.antt =====
-- The texts of a part of a round: what was handed to the sink, and what is held.
use code_xd.Prelude.{
  ℕ, ◌≡◌, refl, sym, ap, ◌∙◌, Option, none, some, List, [], ◌∷◌, ◌++◌, append_assoc, append-nil,
}
use code_xd.Runtime.EventPump.{NormalizedEvent, BufferKey}
use code_xd.Runtime.EventPump.Loop.{
  Entry, provider, stream_interrupted, stream_lifecycle, Happening, arrives, times_out, ends, fails,
  is_cancelled, Exit, ended, returned, raised, Pump, Stage, and_then,
}
use code_xd.Runtime.EventPump.Texts.{text_in}

-- The text, under a key, of what was handed to the sink, and of what is held.
abbrev pub journal_text : BufferKey → List Entry → List ℕ
journal_text k [] = []
journal_text k (provider e ∷ es) = text_in k e ++ journal_text k es
journal_text k (stream_interrupted c ∷ es) = journal_text k es
journal_text k (stream_lifecycle t c ∷ es) = journal_text k es

abbrev pub held_text : BufferKey → Option NormalizedEvent → List ℕ
held_text k none = []
held_text k (some e) = text_in k e

abbrev pub total_text : BufferKey → Pump → List ℕ
total_text k s = journal_text k s.journal ++ held_text k s.buffered

-- The events that come before the loop is left.
abbrev pub events_of : List Happening → List NormalizedEvent
events_of [] = []
events_of (arrives now e ∷ hs) = e ∷ events_of hs
events_of (times_out ∷ hs) = events_of hs
events_of (ends ∷ hs) = []
events_of (fails error ∷ hs) = []
events_of (is_cancelled ∷ hs) = []

abbrev pub Begins : List ℕ → List ℕ → Type 0
Begins s t = (u : List ℕ) × (s ++ u ≡ t)

-- While the loop goes on, and when it has ended, nothing is missing, and in the end nothing is held;
-- when it returns or raises, what was handed to the sink is a beginning of the text.
unfoldable pub Delivered : BufferKey → Stage → List ℕ → Type 0
Delivered k (s, none) t = total_text k s ≡ t
Delivered k (s, some ended) t = journal_text k s.journal ≡ t
Delivered k (s, some (returned r)) t = Begins (journal_text k s.journal) t
Delivered k (s, some (raised e)) t = Begins (journal_text k s.journal) t

-- The same of a part of a round, which does not end the loop; `P` holds of the pump that goes on.
unfoldable pub Held : BufferKey → (Pump → Type 0) → Stage → List ℕ → Type 0
Held k P (s, none) t = (total_text k s ≡ t) × P s
Held k P (s, some ended) t = ⊥
Held k P (s, some (returned r)) t = Begins (journal_text k s.journal) t
Held k P (s, some (raised e)) t = Begins (journal_text k s.journal) t

abbrev pub Anything : Pump → Type 0
Anything s = Unit

abbrev pub Empty : Pump → Type 0
Empty s = s.buffered ≡ none

pub journal_text-snoc :
    (k : BufferKey) (es : List Entry) (e : NormalizedEvent)
    → journal_text k (es ++ provider e ∷ []) ≡ journal_text k es ++ text_in k e
journal_text-snoc k [] e = append-nil (text_in k e)
journal_text-snoc k (provider x ∷ es) e =
    ap (λ t. text_in k x ++ t) (journal_text-snoc k es e)
    ∙ sym (append_assoc (text_in k x) (journal_text k es) (text_in k e))
journal_text-snoc k (stream_interrupted c ∷ es) e = journal_text-snoc k es e
journal_text-snoc k (stream_lifecycle t c ∷ es) e = journal_text-snoc k es e

pub and_then-Held :
    (k : BufferKey) (P Q : Pump → Type 0) (st : Stage) (f : Pump → Stage) (t u : List ℕ)
    → Held k P st t
    → ((s : Pump) → total_text k s ≡ t → P s → Held k Q (f s) (t ++ u))
    → Held k Q (and_then st f) (t ++ u)
unfolding and_then Held
and_then-Held k P Q (s, none) f t u (h, p) g = g s h p
and_then-Held k P Q (s, some ended) f t u h g = absurd h
and_then-Held k P Q (s, some (returned r)) f t u (v, h) g =
    (v ++ u, sym (append_assoc _ v u) ∙ ap (λ x. x ++ u) h)
and_then-Held k P Q (s, some (raised e)) f t u (v, h) g =
    (v ++ u, sym (append_assoc _ v u) ∙ ap (λ x. x ++ u) h)

pub Held-any :
    (k : BufferKey) (P : Pump → Type 0) (st : Stage) (t : List ℕ)
    → Held k P st t
    → Held k Anything st t
unfolding Held
Held-any k P (s, none) t (h, p) = (h, tt)
Held-any k P (s, some ended) t h = h
Held-any k P (s, some (returned r)) t h = h
Held-any k P (s, some (raised e)) t h = h

pub and_then-Delivered :
    (k : BufferKey) (P : Pump → Type 0) (st : Stage) (f : Pump → Stage) (t u : List ℕ)
    → Held k P st t
    → ((s : Pump) → total_text k s ≡ t → P s → Delivered k (f s) (t ++ u))
    → Delivered k (and_then st f) (t ++ u)
unfolding and_then Held Delivered
and_then-Delivered k P (s, none) f t u (h, p) g = g s h p
and_then-Delivered k P (s, some ended) f t u h g = absurd h
and_then-Delivered k P (s, some (returned r)) f t u (v, h) g =
    (v ++ u, sym (append_assoc _ v u) ∙ ap (λ x. x ++ u) h)
and_then-Delivered k P (s, some (raised e)) f t u (v, h) g =
    (v ++ u, sym (append_assoc _ v u) ∙ ap (λ x. x ++ u) h)

-- Once a round leaves the loop, nothing more is done.
pub and_then-left :
    (st : Stage) (exit : Exit) (f : Pump → Stage)
    → and_then (and_then st (λ s. (s, some exit))) f ≡ and_then st (λ s. (s, some exit))
unfolding and_then
and_then-left (s, none) exit f = refl
and_then-left (s, some e) exit f = refl
