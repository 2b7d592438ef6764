-- ===== src/Storage/Outbox/Order.antt =====
-- The order of deliveries: within a destination an item is delivered only when those before it are
-- settled, over any sequence of operations.
use code_xd.Prelude.{
  ℕ, ◌<◌, ◌≡◌, refl, inl, inr, true, ◌||◌, Option, none, some, List, String, str_eq_iff, opt_is,
  arith, Option-cases, lt→ltb,
}
use code_xd.Storage.Schema.{UniqueKeys, find-unless}
use code_xd.Storage.Outbox.{
  Item, item_key, find_item, settled, is_sending, eligible, blocks, linked, dependency_settled,
}
use code_xd.Storage.Outbox.Rows.{Rewrites}

-- `e` comes before `l` in a destination, and `l` is under way.
pub record Overtaken (e l : Item) : Type 0 where
  pub same_destination : e.destination_key ≡ l.destination_key
  pub before : e.enqueue_sequence < l.enqueue_sequence
  pub under_way : is_sending l.state ≡ true

pub record InOrder (items : List Item) : Type 0 where
  pub keys : UniqueKeys item_key items
  pub sequences :
      (j k : String) (e l : Item)
      → find_item j items ≡ some e
      → find_item k items ≡ some l
      → e.enqueue_sequence ≡ l.enqueue_sequence
      → e.id ≡ l.id
  pub links :
      (j : String) (e : Item) → find_item j items ≡ some e → linked e.depends_on items ≡ true
  pub cleared :
      (j : String) (e : Item)
      → find_item j items ≡ some e
      → is_sending e.state ≡ true
      → dependency_settled e.depends_on items ≡ true
  pub first :
      (j k : String) (e l : Item)
      → find_item j items ≡ some e
      → find_item k items ≡ some l
      → Overtaken e l
      → (settled e.state || opt_is e.depends_on l.id) ≡ true

-- What comes before an eligible item in its destination is settled, or depends on it.
eligible-first :
    (now : ℕ) (items : List Item) (l : Item) (j : String) (e : Item)
    → eligible now items l ≡ true
    → find_item j items ≡ some e
    → e.destination_key ≡ l.destination_key
    → e.enqueue_sequence < l.enqueue_sequence
    → (settled e.state || opt_is e.depends_on l.id) ≡ true
unfolding eligible blocks
eligible-first now items l j e h f same before = ground (
  arith,
  find-unless item_key (blocks l) j items e,
  str_eq_iff e.destination_key l.destination_key,
  lt→ltb e.enqueue_sequence l.enqueue_sequence before,
)

module _ (items items' : List Item) (r : Rewrites items items') where
  -- The row that a rewritten one comes from.
  abbrev Origin : String → Item → Type 0
  Origin j s = (e : Item) × (find_item j items ≡ some e) × (s ≡ r.step e)

  origin : (j : String) (s : Item) → find_item j items' ≡ some s → Origin j s
  origin j s found = elim (Option-cases (find_item j items)) [
    | inl absent ↦ absurd (ground (arith, r.finds j))
    | inr (e, there) ↦ (e, there, ground (arith, r.finds j))
  ]

  linked-keeps : (o : Option String) → linked o items ≡ true → linked o items' ≡ true
  unfolding linked
  linked-keeps none h = refl
  linked-keeps (some k) h = ground (arith, r.finds k)

  dependency_settled-keeps :
      (o : Option String) → dependency_settled o items ≡ true → dependency_settled o items' ≡ true
  unfolding dependency_settled
  dependency_settled-keeps none h = refl
  dependency_settled-keeps (some k) h = elim (Option-cases (find_item k items)) [
    | inl absent ↦ ground (arith, r.finds k)
    | inr (e, there) ↦ ground (arith, r.finds k, (r.lawful k e there).stays_settled)
  ]

  module _ (v : InOrder items) where
    sequences-keeps :
        (j k : String) (e l : Item)
        → find_item j items' ≡ some e
        → find_item k items' ≡ some l
        → e.enqueue_sequence ≡ l.enqueue_sequence
        → e.id ≡ l.id
    sequences-keeps j k e l f g same =
        let (e', f', p) = origin j e f in
        let (l', g', q) = origin k l g in
        let a = r.lawful j e' f' in
        let b = r.lawful k l' g' in
        let m = v.sequences j k e' l' f' g' in
        ground (arith, p, q, a.same_id, b.same_id, a.same_sequence, b.same_sequence, m)

    links-keeps :
        (j : String) (e : Item) → find_item j items' ≡ some e → linked e.depends_on items' ≡ true
    links-keeps j e f =
        let (e', f', p) = origin j e f in
        let a = r.lawful j e' f' in
        let m = linked-keeps e'.depends_on (v.links j e' f') in
        let d : e.depends_on ≡ e'.depends_on = ground (arith, p, a.same_dependency) in rw d m

    cleared-keeps :
        (j : String) (e : Item)
        → find_item j items' ≡ some e
        → is_sending e.state ≡ true
        → dependency_settled e.depends_on items' ≡ true
    unfolding eligible
    cleared-keeps j e f sends =
        let (e', f', p) = origin j e f in
        let a = r.lawful j e' f' in
        let d : e.depends_on ≡ e'.depends_on = ground (arith, p, a.same_dependency) in
        rw d (
          dependency_settled-keeps e'.depends_on (elim (a.enters (ground (arith, p))) [
            | inl before ↦ v.cleared j e' f' before
            | inr (now, eligible_then) ↦ ground (arith, eligible_then)
          ]))

    first-keeps :
        (j k : String) (e l : Item)
        → find_item j items' ≡ some e
        → find_item k items' ≡ some l
        → Overtaken e l
        → (settled e.state || opt_is e.depends_on l.id) ≡ true
    unfolding eligible blocks
    first-keeps j k e l f g o =
        let (e', f', p) = origin j e f in
        let (l', g', q) = origin k l g in
        let a = r.lawful j e' f' in
        let b = r.lawful k l' g' in
        let d : e'.destination_key ≡ l'.destination_key =
          ground (arith, p, q, a.same_destination, b.same_destination, o.same_destination) in
        let n : e'.enqueue_sequence < l'.enqueue_sequence =
          ground (arith, p, q, a.same_sequence, b.same_sequence, o.before) in
        let old : (settled e'.state || opt_is e'.depends_on l'.id) ≡ true =
          elim (b.enters (ground (arith, q, o.under_way))) [
            | inl before ↦
                v.first j k e' l' f' g'
                  record { same_destination = d; before = n; under_way = before }
            | inr (now, eligible_then) ↦ eligible-first now items l' j e' eligible_then f' d n
          ] in
        ground (arith, p, q, a.same_dependency, b.same_id, a.stays_settled, old)

  pub InOrder-rewrites : InOrder items → InOrder items'
  InOrder-rewrites v = record {
    keys = λ k. rw (r.counts k) (v.keys k);
    sequences = sequences-keeps v;
    links = links-keeps v;
    cleared = cleared-keeps v;
    first = first-keeps v;
  }
