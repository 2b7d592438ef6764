-- ===== src/Storage/Outbox/Delivery.antt =====
-- What the order of the deliveries and the leases promise, over any sequence of operations.
use code_xd.Prelude.{
  ℕ, ◌<◌, ◌≡◌, refl, sym, Bool, true, false, Option, none, some, List, String, str_eq_iff, opt_is,
  arith, dec_lt, err, ok, Result, lt→ltb,
}
use code_xd.Storage.Schema.{
  Error, conflict, find-key, find-append, count_where, UniqueKeys, key_count-append,
  key_count-absent,
}
use code_xd.Storage.Outbox.{
  Item, item_key, find_item, settled, is_sending, dependency_settled, holds_lease, under_lease,
  ack_delivery, retry_outbox, renew_outbox_lease,
}
use code_xd.Storage.Outbox.Rows.{Rewrites, count_where-find}
use code_xd.Storage.Outbox.Changes.{Adds}
use code_xd.Storage.Outbox.Steps.{Reach, Reach-keeps}
use code_xd.Storage.Outbox.Order.{InOrder, InOrder-rewrites, Overtaken}
use code_xd.Storage.Outbox.Added.{InOrder-Adds}

module _ (like : String → String → Bool) where
  -- Over any sequence of operations on an ordered queue: of two items of one destination the later
  -- one is being delivered only if the earlier one is settled or waits for it; an item is being
  -- delivered only if what it depends on is settled; and the keys and the numbers stay unique.
  pub Reach-InOrder :
      {items items' : List Item} → Reach like items items' → InOrder items → InOrder items'
  Reach-InOrder r v = Reach-keeps like InOrder (λ items w. w.keys) InOrder-rewrites InOrder-Adds r v

-- What a renewal answers.
abbrev pub answer_of : {A : Type 0} {B : Type 0} → Result Error (A × B) → Option B
answer_of (ok p) = some p.1
answer_of (err e) = none

depends-settled :
    (items : List Item) (k : String) (l : Item) (o : Option String)
    → find_item k items ≡ some l
    → opt_is o l.id ≡ true
    → dependency_settled o items ≡ settled l.state
unfolding dependency_settled
depends-settled items k l none f h = cc
depends-settled items k l (some x) f h =
    let same : x ≡ k =
      ground (arith, str_eq_iff x l.id, find-key item_key k (λ y. y) (λ y. refl) items l f) in
    rw same (ground (arith, f))

-- Two deliveries under way, one of them earlier, contradict each other.
not-Overtaken :
    (items : List Item) (v : InOrder items) (j k : String) (e l : Item)
    → find_item j items ≡ some e
    → find_item k items ≡ some l
    → is_sending e.state ≡ true
    → Overtaken e l
    → ⊥
not-Overtaken items v j k e l f g sends o = ground (
  arith,
  v.first j k e l f g o,
  v.cleared j e f sends,
  o.under_way,
  depends-settled items k l e.depends_on g,
)

module _ (like : String → String → Bool) where
  -- Over any sequence of operations on an ordered queue, no two items of one destination are being
  -- delivered at a time.
  pub Reach-one_delivery :
      {items items' : List Item} (r : Reach like items items') (v : InOrder items) (j k : String)
      (e l : Item)
      → find_item j items' ≡ some e
      → find_item k items' ≡ some l
      → e.destination_key ≡ l.destination_key
      → is_sending e.state ≡ true
      → is_sending l.state ≡ true
      → e.id ≡ l.id
  Reach-one_delivery {items} {items'} r v j k e l f g same a b =
      let w = Reach-InOrder like r v in
      elim (dec_lt e.enqueue_sequence l.enqueue_sequence) [
        | yes before ↦ absurd (
            not-Overtaken items' w j k e l f g a
              record { same_destination = same; before = before; under_way = b })
        | no after ↦ elim (dec_lt l.enqueue_sequence e.enqueue_sequence) [
          | yes before ↦ absurd (
              not-Overtaken items' w k j l e g f b
                record { same_destination = sym same; before = before; under_way = a })
          | no neither ↦ w.sequences j k e l f g (omega arith)
        ]
      ]

-- The row of `j` has been attempted more than `attempt` times.
abbrev pub Outrun : String → ℕ → List Item → Type 0
Outrun j attempt items =
    UniqueKeys item_key items × ((r : Item) × (find_item j items ≡ some r) × (attempt < r.attempts))

Outrun-Rewrites :
    (j : String) (attempt : ℕ) (items items' : List Item)
    → Rewrites items items'
    → Outrun j attempt items
    → Outrun j attempt items'
Outrun-Rewrites j attempt items items' w (u, (r, f, n)) =
    let law = (w.lawful j r f).more_attempts in
    (λ k. rw (w.counts k) (u k), (w.step r, ground (arith, w.finds j, f), omega (arith, law)))

Outrun-Adds :
    (j : String) (attempt : ℕ) (items items' : List Item)
    → Adds items items'
    → Outrun j attempt items
    → Outrun j attempt items'
Outrun-Adds j attempt items items' a (u, (r, f, n)) = rw a.added (
  (λ k. ground (
    arith,
    key_count-append item_key k items a.item,
    u k,
    str_eq_iff a.item.id k,
    key_count-absent item_key a.item.id items a.fresh,
  )),
  (r, ground (arith, f, find-append item_key j items a.item), n),
)

holds_lease-key :
    (j owner : String) (attempt : ℕ) (r : Item) → holds_lease j owner attempt r ≡ true → r.id ≡ j
unfolding holds_lease
holds_lease-key j owner attempt r h = ground (arith, str_eq_iff r.id j)

Outrun-refused :
    (j owner : String) (attempt : ℕ) (items : List Item)
    → Outrun j attempt items
    → count_where (holds_lease j owner attempt) items ≡ 0
unfolding holds_lease
Outrun-refused j owner attempt items (u, (r, f, n)) = ground (
  arith,
  count_where-find (holds_lease j owner attempt) j (holds_lease-key j owner attempt) items r f
      (u j),
)

module _ (like : String → String → Bool) where
  -- A lease that has been overtaken by a later attempt is lost for good: whatever the operations
  -- after it, an acknowledgement or a retry under it is a conflict, and a renewal answers no.
  pub lost_lease-refused :
      {items items' : List Item} (r : Reach like items items') (j : String) (attempt : ℕ)
      → Outrun j attempt items
      → (owner : String) (message : Option String) (code : String) (next : ℕ) (permanent : Bool)
        (lease_ms now : ℕ)
      → 0 < lease_ms
      → (ack_delivery j owner attempt message items' ≡ err conflict)
        × (retry_outbox j owner attempt code next permanent items' ≡ err conflict)
        × (answer_of (renew_outbox_lease j owner attempt lease_ms now items') ≡ some false)
  unfolding ack_delivery retry_outbox under_lease renew_outbox_lease
  lost_lease-refused {items} {items'} r j attempt o owner message code next permanent lease_ms now
        positive =
      let w =
        Reach-keeps like (Outrun j attempt) (λ rows p. p.0) (Outrun-Rewrites j attempt)
          (Outrun-Adds j attempt) r o in
      let none_held = Outrun-refused j owner attempt items' w in
      (rw none_held refl, rw none_held refl, rw (none_held, lt→ltb 0 lease_ms positive) refl)
