-- ===== src/Storage/Events/Numbering.antt =====
-- How the events of a Turn are numbered, and that none is recorded twice.
use code_xd.Prelude.{
  ℕ, suc, ◌+◌, max, ◌≤◌, ◌≡◌, refl, sym, ap, ◌∙◌, subst, inl, inr, Bool, true, false, ◌&&◌, Option,
  none, some, List, [], ◌∷◌, ◌++◌, String, str_eq, str_eq_iff, opt_is, if◌then◌else◌, leb, ltb, any,
  arith, Bool-cases, ok,
}
use code_xd.Storage.Schema.{Db}
use code_xd.Storage.Leases.{is_number}
use code_xd.Runtime.EventPump.{Json, NormalizedEvent}
use code_xd.Storage.Events.Changes.{Added, append_event-Added}
use code_xd.Storage.Events.{
  EventRow, Journal, index_or_zero, last_index, has_ids, ids_taken, append_event,
}

-- The sequences grow, and none is above the last one.
abbrev pub ordered : ℕ → ℕ → List EventRow → Bool
ordered last k [] = leb k last
ordered last k (r ∷ events) = ltb k r.sequence && ordered last r.sequence events

-- The events of the Turn are numbered on from `k`, without a gap.
abbrev pub numbered : String → ℕ → List EventRow → Bool
numbered t k [] = true
numbered t k (r ∷ events) =
    if opt_is r.turn_id t
    then is_number r.local_event_index (suc k) && numbered t (suc k) events
    else numbered t k events

abbrev pub count : (EventRow → Bool) → List EventRow → ℕ
count p [] = 0
count p (r ∷ events) = (if p r then 1 else 0) + count p events

abbrev of_turn : String → EventRow → Bool
of_turn t r = opt_is r.turn_id t

ordered-snoc :
    (last k : ℕ) (events : List EventRow) (x : EventRow)
    → x.sequence ≡ last + 1
    → ordered last k events ≡ true
    → ordered (last + 1) k (events ++ x ∷ []) ≡ true
ordered-snoc last k [] x e h = ground arith
ordered-snoc last k (r ∷ events) x e h = ground (arith, ordered-snoc last r.sequence events x e)

numbered-snoc :
    (t : String) (k following : ℕ) (events : List EventRow) (x : EventRow)
    → numbered t k events ≡ true
    → k + count (of_turn t) events ≡ following
    → (opt_is x.turn_id t ≡ true → is_number x.local_event_index (suc following) ≡ true)
    → numbered t k (events ++ x ∷ []) ≡ true
numbered-snoc t k n [] x h e i = elim (Bool-cases (opt_is x.turn_id t)) [
  | inl own ↦ let eq : k ≡ n = omega (arith, e) in rw eq (ground (arith, own, i own))
  | inr foreign ↦ ground (arith, foreign)
]
numbered-snoc t k n (r ∷ events) x h e i = elim (Bool-cases (opt_is r.turn_id t)) [
  | inl own ↦
      let rest = numbered-snoc t (suc k) n events x (ground (arith, own)) (ground (arith, own)) i in
      ground (arith, own, rest)
  | inr foreign ↦
      let rest =
        numbered-snoc t k n events x (ground (arith, foreign)) (ground (arith, foreign)) i in
      ground (arith, foreign, rest)
]

is_number-index : (index : Option ℕ) (n : ℕ) → is_number index n ≡ true → index_or_zero index ≡ n
is_number-index none n h = cc
is_number-index (some m) n h = ground arith

numbered-last_index :
    (t : String) (k : ℕ) (events : List EventRow)
    → numbered t k events ≡ true
    → max k (last_index t events) ≡ k + count (of_turn t) events
unfolding last_index
numbered-last_index t k [] h = omega arith
numbered-last_index t k (r ∷ events) h = elim (Bool-cases (opt_is r.turn_id t)) [
  | inl own ↦
      let rest = numbered-last_index t (suc k) events (ground (arith, own)) in
      let index = is_number-index r.local_event_index (suc k) (ground (arith, own)) in
      rw own (omega (arith, rest, index))
  | inr foreign ↦
      let rest = numbered-last_index t k events (ground (arith, foreign)) in
      rw foreign (omega (arith, rest))
]

count-snoc :
    (p : EventRow → Bool) (events : List EventRow) (x : EventRow)
    → count p (events ++ x ∷ []) ≡ count p events + (if p x then 1 else 0)
count-snoc p [] x = ground arith
count-snoc p (r ∷ events) x = ground (arith, count-snoc p events x)

any-count :
    (p : EventRow → Bool) (events : List EventRow) → any p events ≡ false → count p events ≡ 0
any-count p [] h = refl
any-count p (r ∷ events) h = ground (arith, any-count p events)

-- A call of `append_event` that returns, at any time.
pub data Step (durable : (String → Option Json) → String) (j j' : Journal) : Type 0 where
  appends :
      (event_id : String) (turn_id : Option String) (project_id conversation_id : String)
      (generation : Option ℕ) (event : NormalizedEvent) (now : ℕ) (d : Db) (n : ℕ)
      → append_event durable event_id turn_id project_id conversation_id generation event now d j
        ≡ ok (j', n)
      → Step durable j j'

pub data Reach (durable : (String → Option Json) → String) (j : Journal) : Journal → Type 0 where
  here : Reach durable j j
  next : {k l : Journal} → Reach durable j k → Step durable k l → Reach durable j l

-- The sequences grow; the events of a Turn are numbered 1, 2, 3 and so on in the order of their
-- sequences; and a Turn has one event at most with an id of the provider.
pub record Numbered (j : Journal) : Type 0 where
  pub sequences : ordered j.last_sequence 0 j.events ≡ true
  pub indices : (t : String) → str_eq t "" ≡ false → numbered t 0 j.events ≡ true
  pub recorded_once : (t p : String) → count (has_ids t p) j.events ≤ 1

opt_is-some : (o : Option String) (t : String) → opt_is o t ≡ true → o ≡ some t
opt_is-some none t h = cc
opt_is-some (some u) t h = ap some ((str_eq_iff u t).0 h)

ids_taken-own :
    (turn_id provider_event_id : Option String) (t p : String) (events : List EventRow)
    → turn_id ≡ some t
    → provider_event_id ≡ some p
    → ids_taken turn_id provider_event_id events ≡ any (has_ids t p) events
ids_taken-own turn_id provider_event_id t p events h k = rw h (rw k refl)

added-once :
    (t p : String) (events : List EventRow) (x : EventRow)
    → ids_taken x.turn_id x.provider_event_id events ≡ false
    → count (has_ids t p) events ≤ 1
    → count (has_ids t p) (events ++ x ∷ []) ≤ 1
added-once t p events x f h = elim (Bool-cases (has_ids t p x)) [
  | inl own ↦
      let none_before : any (has_ids t p) events ≡ false =
        sym (
          ids_taken-own x.turn_id x.provider_event_id t p events
            (opt_is-some x.turn_id t (ground (arith, own)))
            (opt_is-some x.provider_event_id p (ground (arith, own))))
        ∙ f in
      let zero_before = any-count (has_ids t p) events none_before in
      rw (count-snoc (has_ids t p) events x) (rw own (omega (arith, zero_before)))
  | inr other ↦ rw (count-snoc (has_ids t p) events x) (rw other (omega (arith, h)))
]

Added-Numbered : (j j' : Journal) → Added j j' → Numbered j → Numbered j'
Added-Numbered j j' a v = record {
  sequences = rw a.events (
      rw (a.last ∙ a.sequence)
        (ordered-snoc j.last_sequence 0 j.events a.row a.sequence v.sequences));
  indices = λ t n. rw a.events (
      numbered-snoc t 0 (count (of_turn t) j.events) j.events a.row (v.indices t n) (omega arith)
        (λ own.
          let index = a.index t (opt_is-some a.row.turn_id t own) n in
          let last = numbered-last_index t 0 j.events (v.indices t n) in
          let eq : last_index t j.events ≡ count (of_turn t) j.events = omega (arith, last) in
          rw index (rw eq (ground arith))));
  recorded_once = λ t p. rw a.events (added-once t p j.events a.row a.fresh (v.recorded_once t p));
}

-- Over any sequence of calls of `append_event`, with any database at each: the sequences grow, the
-- events of a Turn are numbered from 1 without a gap, and an event with an id of the provider is
-- recorded once.
pub Reach-Numbered :
    (durable : (String → Option Json) → String) {j j' : Journal}
    → Reach durable j j'
    → Numbered j
    → Numbered j'
Reach-Numbered durable here v = v
Reach-Numbered durable (next {k} {l} r (appends e t p c g event now d n h)) v =
    elim (append_event-Added durable e t p c g event now d k l n h) [
      | inl same ↦ subst Numbered same (Reach-Numbered durable r v)
      | inr a ↦ Added-Numbered k l a (Reach-Numbered durable r v)
    ]
