-- ===== src/Storage/Events/Changes.antt =====
-- What a call of `append_event` has done when it returns.
use code_xd.Prelude.{
  ℕ, ◌+◌, ◌≡◌, refl, sym, ap, ◌∙◌, subst, ◌⊎◌, inl, inr, true, false, not, ◌&&◌, Option, some, List,
  [], ◌∷◌, ◌++◌, String, str_eq, arith, Bool-cases, Result, ok, ◌>>=◌, or_raise, from_some, from_ok,
  from_guard, ok-injective,
}
use code_xd.Storage.Schema.{
  Error, integrity, Lease, Db, Turn, Conversation, find_turn, find_conversation, find_lease,
}
use code_xd.Domain.TurnState.{terminal}
use code_xd.Runtime.EventPump.{Json, NormalizedEvent}
use code_xd.Storage.Events.{
  EventRow, Journal, nonempty, last_index, check_turn, ids_taken, insertable, recorded_before,
  new_row, add_row, append_event, same_generation, valid_under,
}

-- What a call that returns has done: nothing, as the event was recorded before, or it added a row.
pub record Added (j j' : Journal) : Type 0 where
  pub row : EventRow
  pub events : j'.events ≡ j.events ++ row ∷ []
  pub last : j'.last_sequence ≡ row.sequence
  pub sequence : row.sequence ≡ j.last_sequence + 1
  pub fresh : ids_taken row.turn_id row.provider_event_id j.events ≡ false
  pub index :
      (t : String)
      → row.turn_id ≡ some t
      → str_eq t "" ≡ false
      → row.local_event_index ≡ some (last_index t j.events + 1)

-- What the checks on a Turn say when they pass.
pub record Checked (turn_id : String) (generation : Option ℕ) (d : Db) (events : List EventRow)
    (index : Option ℕ) : Type 0 where
  pub turn : Turn
  pub conversation : Conversation
  pub lease_id : String
  pub lease : Lease
  pub of_turn_id : find_turn turn_id d.turns ≡ some turn
  pub not_ended : not (terminal turn.state) ≡ true
  pub of_turn_lease : turn.runtime_lease_id ≡ some lease_id
  pub of_lease : find_lease lease_id d.leases ≡ some lease
  pub is_valid : valid_under generation lease conversation.project_id ≡ true
  pub numbered_next : some (last_index turn_id events + 1) ≡ index

pub check_turn-Checked :
    (turn_id project_id conversation_id : String) (g : Option ℕ) (d : Db) (events : List EventRow)
    (index : Option ℕ)
    → check_turn (some turn_id) project_id conversation_id g d events ≡ ok index
    → Checked turn_id g d events index
unfolding check_turn
check_turn-Checked turn_id project_id conversation_id g d events index h =
    from_some (find_turn turn_id d.turns) _ _ h λ t a h1.
      from_some (find_conversation t.conversation_id d.conversations) _ _ h1 λ c b h2.
        from_guard (str_eq c.project_id project_id && str_eq c.id conversation_id) _ _ h2 λ e h3.
          from_guard (not (terminal t.state)) _ _ h3 λ f h4.
            from_some t.runtime_lease_id _ _ h4 λ lease_id i h5.
              from_guard (same_generation t.runtime_generation g) _ _ h5 λ k h6.
                from_some (find_lease lease_id d.leases) _ _ h6 λ lease l h7.
                  from_guard (valid_under g lease c.project_id) _ _ h7 λ m h8. record {
                    turn = t;
                    conversation = c;
                    lease_id = lease_id;
                    lease = lease;
                    of_turn_id = a;
                    not_ended = f;
                    of_turn_lease = i;
                    of_lease = l;
                    is_valid = m;
                    numbered_next = ok-injective h8;
                  }

pub nonempty-some : (t : String) → str_eq t "" ≡ false → nonempty (some t) ≡ some t
nonempty-some t h = ground arith

check_turn-index :
    (turn_id : Option String) (project_id conversation_id : String) (g : Option ℕ) (d : Db)
    (events : List EventRow) (index : Option ℕ)
    → check_turn (nonempty turn_id) project_id conversation_id g d events ≡ ok index
    → (t : String) → turn_id ≡ some t
    → str_eq t "" ≡ false
    → index ≡ some (last_index t events + 1)
check_turn-index turn_id project_id conversation_id g d events index h t e n =
    let eq : nonempty turn_id ≡ some t = ap nonempty e ∙ nonempty-some t n in
    let checked =
      check_turn-Checked t project_id conversation_id g d events index
        (subst (λ o. check_turn o project_id conversation_id g d events ≡ ok index) eq h) in
    sym checked.numbered_next

module _ (durable : (String → Option Json) → String) where
  pub append_event-Added :
      (event_id : String) (turn_id : Option String) (project_id conversation_id : String)
      (generation : Option ℕ) (event : NormalizedEvent) (now : ℕ) (d : Db) (j j' : Journal) (n : ℕ)
      → append_event durable event_id turn_id project_id conversation_id generation event now d j
        ≡ ok (j', n)
      → (j ≡ j') ⊎ Added j j'
  unfolding append_event insertable
  append_event-Added event_id turn_id project_id conversation_id g event now d j j' n h =
      from_ok (check_turn (nonempty turn_id) project_id conversation_id g d j.events) _ h
        λ index c h1.
          let test =
            insertable event_id turn_id project_id conversation_id event.provider_event_id d j in
          let row =
            new_row durable event_id turn_id project_id conversation_id g event index
              (j.last_sequence + 1) now in
          elim (Bool-cases test) [
            | inl fits ↦
                let made : add_row durable row j ≡ j' = ground (arith, fits) in
                inr (
                  subst (Added j) made (record {
                    row = row;
                    events = refl;
                    last = refl;
                    sequence = refl;
                    fresh = ground (arith, fits);
                    index =
                        check_turn-index turn_id project_id conversation_id g d j.events index c;
                  }))
            | inr breaks ↦
                let again =
                  recorded_before (nonempty turn_id) (nonempty event.provider_event_id) j.events in
                let late : ◌≡◌ {A = Result Error (Journal × ℕ)}
                    (or_raise again integrity >>= λ sequence. ok (j, sequence)) (ok (j', n)) =
                  ground (arith, breaks) in
                from_some again integrity _ late
                  λ sequence a h2. inl (ap (λ (q : Journal × ℕ). q.0) (ok-injective h2))
          ]
