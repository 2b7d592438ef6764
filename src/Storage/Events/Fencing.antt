-- ===== src/Storage/Events/Fencing.antt =====
-- What no longer is recorded for a Turn.
use code_xd.Prelude.{
  ℕ, ◌≡◌, subst, true, false, Option, none, some, String, str_eq, arith, is_ok, never_ok, ok,
  from_ok,
}
use code_xd.Storage.Schema.{Lease, Db, Turn, find_turn}
use code_xd.Storage.Leases.Rows.{serving, Reach}
use code_xd.Storage.Leases.Service.{Retired, Reach-Retired}
use code_xd.Storage.Leases.Fencing.{lease_valid-serving}
use code_xd.Runtime.EventPump.{Json, NormalizedEvent}
use code_xd.Storage.Events.{Journal, check_turn, nonempty, append_event, valid_under}
use code_xd.Storage.Events.Changes.{check_turn-Checked, nonempty-some}

valid_under-serving :
    (g : Option ℕ) (l : Lease) (p : String) → valid_under g l p ≡ true → serving l.state ≡ true
valid_under-serving none l p h = cc
valid_under-serving (some g) l p h = lease_valid-serving l g p h

-- Once the lease of a Turn has left service, no event is recorded for the Turn any more, whatever the
-- operations on the leases after that.
pub append_event-Retired :
    (durable : (String → Option Json) → String) {d d' : Db} (r : Reach d d')
    (event_id turn_id lease_id project_id conversation_id : String) (generation : Option ℕ)
    (event : NormalizedEvent) (now : ℕ) (j : Journal) (turn : Turn)
    → str_eq turn_id "" ≡ false
    → Retired lease_id d.leases
    → find_turn turn_id d'.turns ≡ some turn
    → turn.runtime_lease_id ≡ some lease_id
    → is_ok (
        append_event durable event_id
          (some turn_id)
          project_id
          conversation_id
          generation
          event
          now
          d'
          j)
      ≡ false
unfolding append_event
append_event-Retired durable {d} {d'} r event_id turn_id lease_id project_id conversation_id g event
      now j turn n out f l =
    let (lease, found, gone) = Reach-Retired r lease_id out in
    never_ok
      (append_event durable event_id (some turn_id) project_id conversation_id g event now d' j)
      (λ q done.
        from_ok (check_turn (nonempty (some turn_id)) project_id conversation_id g d' j.events) _
          done
          λ index c h1.
            let checked =
              check_turn-Checked turn_id project_id conversation_id g d' j.events index (
                subst (λ o. check_turn o project_id conversation_id g d' j.events ≡ ok index)
                  (nonempty-some turn_id n) c) in
            ground (
              arith,
              checked.of_turn_id,
              checked.of_turn_lease,
              checked.of_lease,
              f,
              l,
              found,
              gone,
              valid_under-serving g checked.lease checked.conversation.project_id checked.is_valid,
            ))
