-- ===== src/Storage/Outbox/Changes.antt =====
-- Each operation on the table of deliveries as changes of its rows.
use code_xd.Prelude.{
  any, str_eq, ℕ, ◌+◌, ◌≤◌, ◌≡◌, refl, sym, subst, ap, inl, inr, Bool, true, false, not, Option,
  none, some, List, [], ◌∷◌, ◌++◌, String, str_eq_iff, is_some, arith, Option-cases, ltb, ◌==◌, ok,
  from_guard, from_some, from_ok, ok-injective, ◌⊎◌,
}
use code_xd.Storage.Schema.{update_where, count_where, find, key_count, find-key, UniqueKeys}
use code_xd.Storage.Outbox.{
  Item, Request, item_key, find_item, settled, is_sending, eligible, earliest, linked, new_item,
  last_sequence, operations, event_known, enqueue_outbox, insert_item, already_queued, same_request,
  OutboxRecord, swept, stale, supersede_stale, reconcile_expired, take_item, with_lease,
  outbox_record, claim_outbox, holds_lease, under_lease, renew_outbox_lease, ack_delivery,
  retry_outbox,
}
use code_xd.Storage.Outbox.Rows.{Rewrites, update_where-Rewrites, earliest-test, earliest-find}

-- A row added at the end, with a new key and the highest number, waiting, its dependency present.
pub record Adds (items items' : List Item) : Type 0 where
  pub item : Item
  pub added : items' ≡ items ++ item ∷ []
  pub fresh : find_item item.id items ≡ none
  pub last : item.enqueue_sequence ≡ 1 + last_sequence items
  pub idle : is_sending item.state ≡ false
  pub present : linked item.depends_on items ≡ true

pub data Change (items : List Item) : List Item → Type 0 where
  unchanged : Change items items
  rewrites : {items' : List Item} → Rewrites items items' → Change items items'
  adds : {items' : List Item} → Adds items items' → Change items items'

-- An assignment that touches neither the identity of a row nor its count of attempts downwards.
record Keeps (r s : Item) : Type 0 where
  same_id : s.id ≡ r.id
  same_destination : s.destination_key ≡ r.destination_key
  same_sequence : s.enqueue_sequence ≡ r.enqueue_sequence
  same_dependency : s.depends_on ≡ r.depends_on
  more_attempts : r.attempts ≤ s.attempts

-- An update of rows that are not settled, which makes a row a sending one only if it was, or if it
-- is eligible.
open_update-Rewrites :
    (items : List Item) (test : Item → Bool) (f : Item → Item)
    → ((r : Item) → Keeps r (f r))
    → ((r : Item) → test r ≡ true → settled r.state ≡ false)
    → ((j : String) (r : Item)
        → find_item j items ≡ some r
        → test r ≡ true
        → is_sending (f r).state ≡ true
        → (is_sending r.state ≡ true) ⊎ ((now : ℕ) × (eligible now items r ≡ true)))
    → Rewrites items (update_where test f items)
open_update-Rewrites items test f keeps unsettled enters =
    update_where-Rewrites items test f (λ r. (keeps r).same_id)
      (λ j r found passes. record {
        same_id = (keeps r).same_id;
        same_destination = (keeps r).same_destination;
        same_sequence = (keeps r).same_sequence;
        same_dependency = (keeps r).same_dependency;
        stays_settled = λ h. absurd (ground (arith, unsettled r passes));
        more_attempts = (keeps r).more_attempts;
        enters = enters j r found passes;
      })

keeps :
    {r s : Item}
    → s.id ≡ r.id
    → s.destination_key ≡ r.destination_key
    → s.enqueue_sequence ≡ r.enqueue_sequence
    → s.depends_on ≡ r.depends_on
    → r.attempts ≤ s.attempts
    → Keeps r s
keeps a b c d e = record {
  same_id = a;
  same_destination = b;
  same_sequence = c;
  same_dependency = d;
  more_attempts = e;
}

pub reconcile_expired-Rewrites :
    (now : ℕ) (items : List Item) → Rewrites items (reconcile_expired now items)
unfolding reconcile_expired
reconcile_expired-Rewrites now items =
    open_update-Rewrites items _ _ (λ r. keeps refl refl refl refl (omega arith))
      (λ r passes. ground arith) (λ j r found passes h. absurd (cc))

pub supersede_stale-Rewrites :
    (like : String → String → Bool) (items : List Item)
    → Rewrites items (supersede_stale like items)
unfolding supersede_stale stale
supersede_stale-Rewrites like items =
    open_update-Rewrites items _ _ (λ r. keeps refl refl refl refl (omega arith))
      (λ r passes. ground arith) (λ j r found passes h. absurd (cc))

holds_lease-sending :
    (i o : String) (a : ℕ) (r : Item) → holds_lease i o a r ≡ true → is_sending r.state ≡ true
unfolding holds_lease
holds_lease-sending i o a r h = ground arith

leased-Rewrites :
    (i o : String) (a : ℕ) (f : Item → Item) (items : List Item)
    → ((r : Item) → Keeps r (f r))
    → Rewrites items (update_where (holds_lease i o a) f items)
leased-Rewrites i o a f items same =
    open_update-Rewrites items _ f same (λ r passes. ground (arith, holds_lease-sending i o a r))
      (λ j r found passes h. inl (holds_lease-sending i o a r passes))

under_lease-Rewrites :
    (i o : String) (a : ℕ) (f : Item → Item) (items items' : List Item)
    → ((r : Item) → Keeps r (f r))
    → under_lease i o a f items ≡ ok items'
    → Rewrites items items'
unfolding under_lease
under_lease-Rewrites i o a f items items' same h =
    from_guard (count_where (holds_lease i o a) items == 1) _ _ h
      (λ held k. subst (Rewrites items) (ok-injective k) (leased-Rewrites i o a f items same))

pub ack-Rewrites :
    (i o : String) (a : ℕ) (m : Option String) (items items' : List Item)
    → ack_delivery i o a m items ≡ ok items'
    → Rewrites items items'
unfolding ack_delivery
ack-Rewrites i o a m items items' h =
    under_lease-Rewrites i o a _ items items' (λ r. keeps refl refl refl refl (omega arith)) h

pub retry-Rewrites :
    (i o : String) (a : ℕ) (c : String) (n : ℕ) (p : Bool) (items items' : List Item)
    → retry_outbox i o a c n p items ≡ ok items'
    → Rewrites items items'
unfolding retry_outbox
retry-Rewrites i o a c n p items items' h =
    under_lease-Rewrites i o a _ items items' (λ r. keeps refl refl refl refl (omega arith)) h

pub renew-Rewrites :
    (i o : String) (a l n : ℕ) (items items' : List Item) (b : Bool)
    → renew_outbox_lease i o a l n items ≡ ok (items', b)
    → Rewrites items items'
unfolding renew_outbox_lease
renew-Rewrites i o a l n items items' b h = from_guard (ltb 0 l) _ _ h (λ positive k.
    subst (Rewrites items) (ap (λ x. x.0) (ok-injective k))
      (leased-Rewrites i o a _ items (λ r. keeps refl refl refl refl (omega arith))))

-- The row that is claimed was eligible.
with_lease-Rewrites :
    (worker : String) (expires now : ℕ) (row : Item) (items : List Item)
    → earliest (eligible now items) items ≡ some row
    → key_count item_key row.id items ≤ 1
    → Rewrites items (with_lease worker expires row items)
with_lease-Rewrites worker expires now row items e unique =
    open_update-Rewrites items _ _ (λ r. keeps refl refl refl refl (omega arith))
      (λ r passes. ground arith)
      (λ j r there passes sends. inr (
        now,
        ground (
          arith,
          e,
          str_eq_iff r.id row.id,
          find-key item_key j (λ x. x) (λ x. refl) items r there,
          earliest-test (eligible now items) items row,
          earliest-find (eligible now items) items row e unique,
        ),
      ))

take_item-result :
    (like : String → String → Bool) (worker : String) (expires : ℕ) (row : Item)
    (items items' : List Item) (answer : Option OutboxRecord)
    → take_item like worker expires row items ≡ ok (items', answer)
    → with_lease worker expires row items ≡ items'
unfolding take_item
take_item-result like worker expires row items items' answer h =
    from_some (find_item row.id (with_lease worker expires row items)) _ _ h (λ updated found k.
      from_ok (outbox_record updated row.state) _ k
        (λ record_of answered l. ap (λ x. x.0) (ok-injective l)))

insert_item-Adds :
    (events : List ℕ) (q : Request) (id : String) (now : ℕ) (items items' : List Item)
    (answer : String)
    → insert_item events q id now items ≡ ok (items', answer)
    → Adds items items'
unfolding insert_item
insert_item-Adds events q id now items items' answer h =
    from_guard (any (str_eq q.operation) operations) _ _ h (λ allowed h1.
      from_guard (event_known q.event_sequence events) _ _ h1 (λ known h2.
        from_guard (not (is_some (find_item id items))) _ _ h2 (λ absent k.
          from_guard (linked q.depends_on items) _ _ k (λ there l. record {
            item = new_item id q (1 + last_sequence items) now;
            added = sym (ap (λ x. x.0) (ok-injective l));
            fresh = ground arith;
            last = refl;
            idle = refl;
            present = there;
          }))))

already_queued-same :
    (q : Request) (existing : Item) (items items' : List Item) (answer : String)
    → already_queued q existing items ≡ ok (items', answer)
    → items ≡ items'
unfolding already_queued
already_queued-same q existing items items' answer h =
    from_guard (same_request existing q) _ _ h (λ agrees k. ap (λ x. x.0) (ok-injective k))

pub enqueue-Change :
    (events : List ℕ) (q : Request) (id : String) (now : ℕ) (items items' : List Item)
    (answer : String)
    → enqueue_outbox events q id now items ≡ ok (items', answer)
    → Change items items'
unfolding enqueue_outbox
enqueue-Change events q id now items items' answer h =
    elim (Option-cases (find (λ r. r.dedupe_key) q.dedupe_key items)) [
      | inl nothing ↦ adds (insert_item-Adds events q id now items items' answer (ground arith))
      | inr (existing, found) ↦
          subst (Change items) (already_queued-same q existing items items' answer (ground arith))
            unchanged
    ]

-- A claim is two rewritings of the rows and then, unless nothing is eligible, a third.
pub claim-Change :
    (like : String → String → Bool) (w : String) (l now : ℕ) (items items' : List Item)
    (answer : Option OutboxRecord)
    → UniqueKeys item_key (swept like now items)
    → claim_outbox like w l now items ≡ ok (items', answer)
    → Change (swept like now items) items'
unfolding claim_outbox
claim-Change like w l now items items' answer unique h =
    let rows = swept like now items in
    elim (Option-cases (earliest (eligible now rows) rows)) [
      | inl nothing ↦ subst (Change rows) (ground arith) unchanged
      | inr (row, found) ↦ rewrites (
          subst (Rewrites rows)
            (take_item-result like w (now + l) row rows items' answer (ground arith))
            (with_lease-Rewrites w (now + l) now row rows found (unique row.id)))
    ]
