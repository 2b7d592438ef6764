-- ===== src/Storage/Outbox.antt =====
-- storage/repository.py: the queue of deliveries to Discord, table `discord_outbox`. A worker claims
-- an item under a lease, which is the pair of the worker and the count of attempts, and then
-- acknowledges, retries or renews it under that lease. The columns `created_at` and `updated_at`,
-- which no operation reads, are left out. `like pattern text` is SQLite's LIKE.
pub mod Rows
pub mod Changes
pub mod Steps
pub mod Order
pub mod Added
pub mod Delivery
pub mod Claiming
mod Tests
use code_xd.Prelude.{
  ℕ, zero, ◌+◌, max, Bool, true, false, not, ◌&&◌, ◌||◌, Option, none, some, List, [], ◌∷◌, ◌++◌,
  String, str_eq, opt_is, is_some, coalesce, if◌then◌else◌, ltb, leb, ◌==◌, any, Result, ok, err,
  ◌>>=◌, ◌>>◌, guard, or_raise,
}
use code_xd.Storage.Schema.{
  Error, conflict, invariant, integrity, assertion, find, update_where, count_where,
}

pub data OutboxState : Type 0 where
  pending sending reconciling retry sent dead_letter superseded : OutboxState

pub record Item : Type 0 where
  pub id : String
  pub event_sequence : Option ℕ
  pub destination_key : String
  pub operation : String
  pub depends_on : Option String
  pub payload_json : String
  pub dedupe_key : String
  pub coalesce_key : Option String
  pub delivery_marker : String
  pub state : OutboxState
  pub attempts : ℕ
  pub next_attempt_at : ℕ
  pub discord_message_id : Option String
  pub lease_owner : Option String
  pub lease_expires_at : Option ℕ
  pub last_error_code : Option String
  pub enqueue_sequence : ℕ

abbrev pub item_key : Item → String
item_key r = r.id

abbrev pub find_item : String → List Item → Option Item
find_item = find item_key

-- `state IN ('sent', 'dead_letter', 'superseded')`
abbrev pub settled : OutboxState → Bool
settled sent = true
settled dead_letter = true
settled superseded = true
settled _ = false

-- `state IN ('pending', 'retry', 'reconciling')`
abbrev pub claimable : OutboxState → Bool
claimable pending = true
claimable retry = true
claimable reconciling = true
claimable _ = false

abbrev pub is_sending : OutboxState → Bool
is_sending sending = true
is_sending _ = false

abbrev pub is_reconciling : OutboxState → Bool
is_reconciling reconciling = true
is_reconciling _ = false

abbrev pub is_superseded : OutboxState → Bool
is_superseded superseded = true
is_superseded _ = false

-- Two nullable columns are the same.
abbrev pub same_text : Option String → Option String → Bool
same_text none none = true
same_text (some a) (some b) = str_eq a b
same_text _ _ = false

abbrev pub same_number : Option ℕ → Option ℕ → Bool
same_number none none = true
same_number (some a) (some b) = a == b
same_number _ _ = false

pub record Request : Type 0 where
  pub destination_key : String
  pub operation : String
  pub payload_json : String
  pub dedupe_key : String
  pub delivery_marker : String
  pub event_sequence : Option ℕ
  pub coalesce_key : Option String
  pub depends_on : Option String

-- `actual == expected`
pub same_request : Item → Request → Bool
same_request r q =
    same_number r.event_sequence q.event_sequence
    && str_eq r.destination_key q.destination_key
    && str_eq r.operation q.operation
    && same_text r.depends_on q.depends_on
    && str_eq r.payload_json q.payload_json
    && same_text r.coalesce_key q.coalesce_key
    && str_eq r.delivery_marker q.delivery_marker

-- The trigger `discord_outbox_assign_enqueue_sequence` takes the number after this one.
unfoldable pub last_sequence : List Item → ℕ
last_sequence [] = 0
last_sequence (r ∷ items) = max r.enqueue_sequence (last_sequence items)

abbrev pub new_item : String → Request → ℕ → ℕ → Item
new_item id q sequence now = record {
  id = id;
  event_sequence = q.event_sequence;
  destination_key = q.destination_key;
  operation = q.operation;
  depends_on = q.depends_on;
  payload_json = q.payload_json;
  dedupe_key = q.dedupe_key;
  coalesce_key = q.coalesce_key;
  delivery_marker = q.delivery_marker;
  state = pending;
  attempts = 0;
  next_attempt_at = now;
  discord_message_id = none;
  lease_owner = none;
  lease_expires_at = none;
  last_error_code = none;
  enqueue_sequence = sequence;
}

-- `depends_on_outbox_id REFERENCES discord_outbox(id)`
unfoldable pub linked : Option String → List Item → Bool
linked none items = true
linked (some k) items = is_some (find_item k items)

unfoldable pub already_queued : Request → Item → List Item → Result Error (List Item × String)
already_queued q existing items = do
  guard (same_request existing q) invariant
  ok (items, existing.id)

-- `operation IN (…)`
abbrev pub operations : List String
operations = "create_thread" ∷ "send" ∷ "edit" ∷ "delete" ∷ "upload" ∷ "unarchive_thread" ∷ []

-- `event_sequence REFERENCES events(sequence)`
unfoldable pub event_known : Option ℕ → List ℕ → Bool
event_known none events = true
event_known (some sequence) events = any (λ e. e == sequence) events

-- `events` are the sequences of the table of events. The check `json_valid(payload_json)` holds, since
-- `payload_json` is what `canonical_json` returned.
unfoldable pub insert_item :
    List ℕ → Request → String → ℕ → List Item → Result Error (List Item × String)
insert_item events q id now items = do
  guard (any (str_eq q.operation) operations) integrity
  guard (event_known q.event_sequence events) integrity
  guard (not (is_some (find_item id items))) integrity
  guard (linked q.depends_on items) integrity
  ok (items ++ new_item id q (1 + last_sequence items) now ∷ [], id)

-- `id` is what `new_id` returns.
unfoldable pub enqueue_outbox :
    List ℕ → Request → String → ℕ → List Item → Result Error (List Item × String)
enqueue_outbox events q id now items = elim (find (λ r. r.dedupe_key) q.dedupe_key items) [
  | some existing ↦ already_queued q existing items
  | none ↦ insert_item events q id now items
]

-- `lease_expires_at < now`
abbrev pub expired : ℕ → Option ℕ → Bool
expired now none = false
expired now (some t) = ltb t now

unfoldable pub reconcile_expired : ℕ → List Item → List Item
reconcile_expired now =
    update_where (λ r. is_sending r.state && expired now r.lease_expires_at)
      (λ r. record r { state = reconciling; lease_owner = none; lease_expires_at = none })

module _ (like : String → String → Bool) where
  -- An item that waits for reconciliation and has a later one with its coalescing key.
  unfoldable pub stale : List Item → Item → Bool
  stale items r = elim r.coalesce_key [
    | none ↦ false
    | some key ↦
        is_reconciling r.state
        && not (str_eq r.operation "send")
        && not (like "task-card:%" key)
        && not (like "turn:%:progress" key)
        && any
            (λ (newer : Item).
              opt_is newer.coalesce_key key
              && ltb r.enqueue_sequence newer.enqueue_sequence
              && not (is_superseded newer.state))
            items
  ]

  unfoldable pub supersede_stale : List Item → List Item
  supersede_stale items = update_where (stale items) (λ r. record r { state = superseded }) items

-- The item that this one depends on is settled, or there is none.
unfoldable pub dependency_settled : Option String → List Item → Bool
dependency_settled none items = true
dependency_settled (some k) items = elim (find_item k items) [
  | none ↦ true
  | some dependency ↦ settled dependency.state
]

-- An earlier item of the destination that is not settled, and does not itself depend on `r`.
unfoldable pub blocks : Item → Item → Bool
blocks r earlier =
    str_eq earlier.destination_key r.destination_key
    && ltb earlier.enqueue_sequence r.enqueue_sequence
    && not (opt_is earlier.depends_on r.id)
    && not (settled earlier.state)

unfoldable pub eligible : ℕ → List Item → Item → Bool
eligible now items r =
    claimable r.state
    && leb r.next_attempt_at now
    && dependency_settled r.depends_on items
    && not (any (blocks r) items)

-- `ORDER BY enqueue_sequence LIMIT 1`
abbrev pub sooner : Item → Option Item → Item
sooner r none = r
sooner r (some s) = if ltb s.enqueue_sequence r.enqueue_sequence then s else r

unfoldable pub earliest : (Item → Bool) → List Item → Option Item
earliest test [] = none
earliest test (r ∷ items) =
    let rest = earliest test items in if test r then some (sooner r rest) else rest

abbrev pub leased_to : String → ℕ → Item → Item
leased_to worker_id expires_at r = record r {
  state = sending;
  attempts = r.attempts + 1;
  lease_owner = some worker_id;
  lease_expires_at = some expires_at;
}

abbrev pub with_lease : String → ℕ → Item → List Item → List Item
with_lease worker_id expires_at row =
    update_where (λ r. str_eq r.id row.id && claimable r.state) (leased_to worker_id expires_at)

pub record OutboxRecord : Type 0 where
  pub id : String
  pub destination_key : String
  pub operation : String
  pub payload_json : String
  pub delivery_marker : String
  pub claimed_from : OutboxState
  pub attempts : ℕ
  pub lease_owner : String

-- `_outbox`
unfoldable pub outbox_record : Item → OutboxState → Result Error OutboxRecord
outbox_record r from = do
  owner ← or_raise r.lease_owner invariant
  ok (record {
    id = r.id;
    destination_key = r.destination_key;
    operation = r.operation;
    payload_json = r.payload_json;
    delivery_marker = r.delivery_marker;
    claimed_from = from;
    attempts = r.attempts;
    lease_owner = owner;
  })

module _ (like : String → String → Bool) where
  abbrev pub swept : ℕ → List Item → List Item
  swept now items = supersede_stale like (reconcile_expired now items)

  -- What the claim does once it has chosen a row.
  unfoldable pub take_item :
      String → ℕ → Item → List Item → Result Error (List Item × Option OutboxRecord)
  take_item worker_id expires_at row items = do
    updated ← or_raise (find_item row.id (with_lease worker_id expires_at row items)) assertion
    answer ← outbox_record updated row.state
    ok (with_lease worker_id expires_at row items, some answer)

  unfoldable pub claim_outbox :
      String → ℕ → ℕ → List Item → Result Error (List Item × Option OutboxRecord)
  claim_outbox worker_id lease_ms now items =
      elim (earliest (eligible now (swept now items)) (swept now items)) [
        | none ↦ ok (swept now items, none)
        | some row ↦ take_item worker_id (now + lease_ms) row (swept now items)
      ]

-- `id = ? AND state = 'sending' AND lease_owner = ? AND attempts = ?`
unfoldable pub holds_lease : String → String → ℕ → Item → Bool
holds_lease outbox_id owner attempt r =
    str_eq r.id outbox_id
    && is_sending r.state
    && opt_is r.lease_owner owner
    && r.attempts == attempt

unfoldable pub renew_outbox_lease :
    String → String → ℕ → ℕ → ℕ → List Item → Result Error (List Item × Bool)
renew_outbox_lease outbox_id owner attempt lease_ms now items = do
  guard (ltb 0 lease_ms) invariant
  let test = holds_lease outbox_id owner attempt
  ok (
    update_where test (λ r. record r { lease_expires_at = some (now + lease_ms) }) items,
    count_where test items == 1,
  )

-- The guarded update with which `ack_outbox`, `retry_outbox` and `fail_outbox_permanently` settle
-- the lease.
unfoldable pub under_lease :
    String → String → ℕ → (Item → Item) → List Item → Result Error (List Item)
under_lease outbox_id owner attempt f items = do
  guard (count_where (holds_lease outbox_id owner attempt) items == 1) conflict
  ok (update_where (holds_lease outbox_id owner attempt) f items)

-- The part of `ack_outbox` on this table that precedes the bindings of the message.
unfoldable pub ack_delivery :
    String → String → ℕ → Option String → List Item → Result Error (List Item)
ack_delivery outbox_id owner attempt discord_message_id = under_lease outbox_id owner attempt (λ r.
    record r {
      state = sent;
      discord_message_id = coalesce discord_message_id r.discord_message_id;
      lease_owner = none;
      lease_expires_at = none;
    })

-- `retry_outbox`, less the incident that it can record
unfoldable pub retry_outbox :
    String → String → ℕ → String → ℕ → Bool → List Item → Result Error (List Item)
retry_outbox outbox_id owner attempt error_code next_attempt_at permanent =
    under_lease outbox_id owner attempt (λ r. record r {
      state = if permanent then dead_letter else retry;
      last_error_code = some error_code;
      next_attempt_at = next_attempt_at;
      lease_owner = none;
      lease_expires_at = none;
    })
