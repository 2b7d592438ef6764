-- ===== src/Storage/Outbox/Tests.antt =====
-- Two deliveries for one thread, and the instances of the theorems about deliveries.
use code_xd.Prelude.{
  ◌≤◌, ◌≡◌, refl, ◌⊎◌, inl, inr, Bool-cases, subst, str_eq_iff, Bool, false, none, some, List, [],
  ◌∷◌, String, str_eq, any, arith, ok, err,
}
use code_xd.Storage.Schema.{conflict, find, key_count, UniqueKeys, update_where}
use code_xd.Storage.Outbox.{
  Item, Request, item_key, find_item, enqueue_outbox, already_queued, insert_item, event_known,
  claim_outbox, take_item, reconcile_expired, supersede_stale, stale, eligible, blocks, earliest,
  dependency_settled, linked, last_sequence, outbox_record, swept, with_lease, ack_delivery,
  retry_outbox, renew_outbox_lease, leased_to, new_item,
}
use code_xd.Storage.Outbox.Steps.{Reach, here, next, enqueues, claims}
use code_xd.Storage.Outbox.Order.{InOrder}
use code_xd.Storage.Outbox.Delivery.{
  Reach-InOrder, Reach-one_delivery, lost_lease-refused, answer_of,
}
use code_xd.Storage.Outbox.Claiming.{claim_outbox-Chosen, Chosen, claim_answer}

abbrev no_pattern : String → String → Bool
no_pattern pattern text = false

abbrev request : String → Request
request key = record {
  destination_key = "thread:1";
  operation = "send";
  payload_json = "{}";
  dedupe_key = key;
  delivery_marker = key;
  event_sequence = none;
  coalesce_key = none;
  depends_on = none;
}

abbrev item_a : Item
item_a = new_item "a" (request "ka") 1 10

abbrev item_b : Item
item_b = new_item "b" (request "kb") 2 11

abbrev one_item : List Item
one_item = item_a ∷ []

abbrev two_items : List Item
two_items = item_a ∷ item_b ∷ []

abbrev a_sending : List Item
a_sending = leased_to "w1" 25 item_a ∷ item_b ∷ []

-- The lease of `w1` ran out, and `w2` has claimed.
abbrev a_again : List Item
a_again = leased_to "w2" 45 (leased_to "w1" 25 item_a) ∷ item_b ∷ []

enqueues_a : enqueue_outbox [] (request "ka") "a" 10 [] ≡ ok (one_item, "a")
unfolding enqueue_outbox insert_item find linked last_sequence event_known
enqueues_a = refl

enqueues_b : enqueue_outbox [] (request "kb") "b" 11 one_item ≡ ok (two_items, "b")
unfolding enqueue_outbox insert_item find linked last_sequence event_known
enqueues_b = refl

claims_a :
    claim_outbox no_pattern "w1" 5 20 two_items ≡ ok (a_sending, some (claim_answer "w1" item_a))
unfolding claim_outbox take_item reconcile_expired supersede_stale stale eligible blocks earliest
    dependency_settled outbox_record find update_where
claims_a = refl

claims_again :
    claim_outbox no_pattern "w2" 5 40 a_sending
    ≡ ok (
      a_again,
      some (record (claim_answer "w2" (leased_to "w1" 25 item_a)) {
        claimed_from = code_xd.Storage.Outbox.OutboxState.reconciling;
      }),
    )
unfolding claim_outbox take_item reconcile_expired supersede_stale stale eligible blocks earliest
    dependency_settled outbox_record find update_where
claims_again = refl

reaches : Reach no_pattern [] a_again
reaches =
    next
      (next
        (next (next here (enqueues [] (request "ka") "a" 10 "a" enqueues_a))
          (enqueues [] (request "kb") "b" 11 "b" enqueues_b))
        (claims "w1" 5 20 (some (claim_answer "w1" item_a)) claims_a))
      (claims "w2" 5 40 _ claims_again)

empty-InOrder : InOrder []
unfolding find
empty-InOrder = record {
  keys = λ k. omega arith;
  sequences = λ j k e l f g h. absurd (cc);
  links = λ j e f. absurd (cc);
  cleared = λ j e f h. absurd (cc);
  first = λ j k e l f g h. absurd (cc);
}

Reach-InOrder_example : InOrder a_again
Reach-InOrder_example = Reach-InOrder no_pattern reaches empty-InOrder

Reach-one_delivery_example : ◌≡◌ {A = String} "a" "a"
unfolding find
Reach-one_delivery_example =
    Reach-one_delivery no_pattern reaches empty-InOrder "a" "a"
      (leased_to "w2" 45 (leased_to "w1" 25 item_a)) (leased_to "w2" 45 (leased_to "w1" 25 item_a))
      refl refl refl refl refl

lost_lease-refused_example :
    (ack_delivery "a" "w1" 1 none a_again ≡ err conflict)
    × (retry_outbox "a" "w1" 1 "timeout" 50 false a_again ≡ err conflict)
    × (answer_of (renew_outbox_lease "a" "w1" 1 5 41 a_again) ≡ some false)
unfolding find
lost_lease-refused_example =
    lost_lease-refused no_pattern here "a" 1
      (
        InOrder.keys Reach-InOrder_example,
        (leased_to "w2" 45 (leased_to "w1" 25 item_a), refl, omega arith),
      )
      "w1" none "timeout" 50 false 5 41 (omega arith)

two_items-keys : UniqueKeys item_key (swept no_pattern 20 two_items)
unfolding reconcile_expired supersede_stale stale update_where
two_items-keys k = elim (Bool-cases (str_eq "a" k)) [
  | inl is_a ↦
      subst (λ j. key_count item_key j two_items ≤ 1) ((str_eq_iff "a" k).0 is_a) (omega arith)
  | inr not_a ↦ rw not_a (ground arith)
]

claim_outbox-Chosen_example :
    ((any (eligible 20 (swept no_pattern 20 two_items)) (swept no_pattern 20 two_items) ≡ false)
      × (claim_outbox no_pattern "w1" 5 20 two_items ≡ ok (swept no_pattern 20 two_items, none)))
    ⊎ ((row : Item) × Chosen 20 (swept no_pattern 20 two_items) row
        × (claim_outbox no_pattern "w1" 5 20 two_items
            ≡ ok (
              with_lease "w1" 25 row (swept no_pattern 20 two_items),
              some (claim_answer "w1" row),
            )))
claim_outbox-Chosen_example = claim_outbox-Chosen no_pattern "w1" 5 20 two_items two_items-keys
