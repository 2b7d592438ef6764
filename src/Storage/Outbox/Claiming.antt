-- ===== src/Storage/Outbox/Claiming.antt =====
-- What one claim returns.
use code_xd.Prelude.{
  ℕ, ◌+◌, ◌≡◌, refl, ◌⊎◌, inl, inr, Bool, true, false, ◌&&◌, none, some, List, String, str_eq, any,
  arith, Option-cases, ltb, ok,
}
use text.Mathlib.TextPositions.{eq_refl}
use code_xd.Storage.Schema.{UniqueKeys, find-update_where}
use code_xd.Storage.Outbox.{
  Item, item_key, find_item, claimable, eligible, earliest, OutboxRecord, swept, claim_outbox,
  take_item, with_lease, leased_to, outbox_record,
}
use code_xd.Storage.Outbox.Rows.{earliest-test, earliest-find, earliest-first, earliest-none}

-- The answer to a claim of `row`.
abbrev pub claim_answer : String → Item → OutboxRecord
claim_answer worker_id row = record {
  id = row.id;
  destination_key = row.destination_key;
  operation = row.operation;
  payload_json = row.payload_json;
  delivery_marker = row.delivery_marker;
  claimed_from = row.state;
  attempts = row.attempts + 1;
  lease_owner = worker_id;
}

-- An eligible row that no eligible row precedes.
pub record Chosen (now : ℕ) (rows : List Item) (row : Item) : Type 0 where
  pub stored : find_item row.id rows ≡ some row
  pub may_go : eligible now rows row ≡ true
  pub soonest :
      any (λ (s : Item). eligible now rows s && ltb s.enqueue_sequence row.enqueue_sequence) rows
      ≡ false

eligible-claimable :
    (now : ℕ) (rows : List Item) (row : Item)
    → eligible now rows row ≡ true
    → claimable row.state ≡ true
unfolding eligible
eligible-claimable now rows row h = ground arith

taken-answer :
    (like : String → String → Bool) (worker : String) (expires now : ℕ) (rows : List Item)
    (row : Item)
    → find_item row.id rows ≡ some row
    → claimable row.state ≡ true
    → take_item like worker expires row rows
      ≡ ok (with_lease worker expires row rows, some (claim_answer worker row))
unfolding take_item outbox_record
taken-answer like worker expires now rows row f c =
    rw
      (
        find-update_where item_key (λ r. str_eq r.id row.id && claimable r.state)
            (leased_to worker expires) (λ r. refl) row.id rows,
        f,
        eq_refl row.id,
        c,
      )
      refl

module _ (like : String → String → Bool) (worker_id : String) (lease_ms now : ℕ) (items : List Item)
    (unique : UniqueKeys item_key (swept like now items)) where
  -- A claim always returns. With the expired leases and the stale items swept, either no item is
  -- eligible and nothing is claimed, or the claim leases the eligible item with the lowest number,
  -- one attempt further, and answers with it.
  pub claim_outbox-Chosen :
      ((any (eligible now (swept like now items)) (swept like now items) ≡ false)
        × (claim_outbox like worker_id lease_ms now items ≡ ok (swept like now items, none)))
      ⊎ ((row : Item) × Chosen now (swept like now items) row
          × (claim_outbox like worker_id lease_ms now items
              ≡ ok (
                with_lease worker_id (now + lease_ms) row (swept like now items),
                some (claim_answer worker_id row),
              )))
  unfolding claim_outbox
  claim_outbox-Chosen =
      let rows = swept like now items in
      elim (Option-cases (earliest (eligible now rows) rows)) [
        | inl nothing ↦
            inl (earliest-none (eligible now rows) rows nothing, ground (arith, nothing))
        | inr (row, found) ↦
            let stored = earliest-find (eligible now rows) rows row found (unique row.id) in
            let may_go = earliest-test (eligible now rows) rows row found in
            inr (
              row,
              record {
                stored = stored;
                may_go = may_go;
                soonest =
                    earliest-first (eligible now rows) rows row row.enqueue_sequence found
                      (omega arith);
              },
              ground (
                arith,
                found,
                taken-answer like worker_id (now + lease_ms) now rows row stored
                    (eligible-claimable now rows row may_go),
              ),
            )
      ]
