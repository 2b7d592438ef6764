-- ===== src/Storage/Outbox/Added.antt =====
-- A delivery that is added comes last in its destination.
use code_xd.Prelude.{
  ◌+◌, ◌≤◌, ◌≡◌, refl, ◌⊎◌, inl, inr, true, false, ◌||◌, Option, none, some, List, [], ◌∷◌, ◌++◌,
  String, str_eq_iff, opt_is, arith, Option-cases,
}
use code_xd.Storage.Schema.{find, UniqueKeys, find-append, key_count-append, key_count-absent}
use code_xd.Storage.Outbox.{
  Item, item_key, find_item, settled, is_sending, linked, dependency_settled, last_sequence,
}
use code_xd.Storage.Outbox.Changes.{Adds}
use code_xd.Storage.Outbox.Order.{InOrder, Overtaken}

last_sequence-bound :
    (j : String) (items : List Item) (e : Item)
    → find_item j items ≡ some e
    → e.enqueue_sequence ≤ last_sequence items
unfolding last_sequence find
last_sequence-bound j [] e f = cc
last_sequence-bound j (x ∷ items) e f = ground (arith, last_sequence-bound j items e)

module _ (items : List Item) (x : Item) (fresh : find_item x.id items ≡ none)
    (last : x.enqueue_sequence ≡ 1 + last_sequence items) (idle : is_sending x.state ≡ false)
    (present : linked x.depends_on items ≡ true) (v : InOrder items) where
  abbrev longer : List Item
  longer = items ++ x ∷ []

  -- A row of the longer table is an old one or the added one.
  old_or_new :
      (j : String) (e : Item) → find_item j longer ≡ some e → (find_item j items ≡ some e) ⊎ (e ≡ x)
  old_or_new j e f = ground (arith, find-append item_key j items x)

  keys-added : UniqueKeys item_key longer
  keys-added k = ground (
    arith,
    key_count-append item_key k items x,
    v.keys k,
    str_eq_iff x.id k,
    key_count-absent item_key x.id items fresh,
  )

  sequences-added :
      (j k : String) (e l : Item)
      → find_item j longer ≡ some e
      → find_item k longer ≡ some l
      → e.enqueue_sequence ≡ l.enqueue_sequence
      → e.id ≡ l.id
  sequences-added j k e l f g same = ground (
    arith,
    last,
    old_or_new j e f,
    old_or_new k l g,
    last_sequence-bound j items e,
    last_sequence-bound k items l,
    v.sequences j k e l,
  )

  linked-added : (o : Option String) → linked o items ≡ true → linked o longer ≡ true
  unfolding linked
  linked-added none h = refl
  linked-added (some k) h = ground (arith, find-append item_key k items x)

  -- A dependency that is present is the same row as before.
  dependency_settled-added :
      (o : Option String)
      → linked o items ≡ true
      → dependency_settled o items ≡ true
      → dependency_settled o longer ≡ true
  unfolding linked dependency_settled
  dependency_settled-added none l h = refl
  dependency_settled-added (some k) l h = elim (Option-cases (find_item k items)) [
    | inl absent ↦ ground (arith, absent)
    | inr (e, there) ↦ ground (arith, there, find-append item_key k items x)
  ]

  links-added :
      (j : String) (e : Item) → find_item j longer ≡ some e → linked e.depends_on longer ≡ true
  links-added j e f = elim (old_or_new j e f) [
    | inl old ↦ linked-added e.depends_on (v.links j e old)
    | inr new ↦ rw new (linked-added x.depends_on present)
  ]

  cleared-added :
      (j : String) (e : Item)
      → find_item j longer ≡ some e
      → is_sending e.state ≡ true
      → dependency_settled e.depends_on longer ≡ true
  cleared-added j e f sends = elim (old_or_new j e f) [
    | inl old ↦ dependency_settled-added e.depends_on (v.links j e old) (v.cleared j e old sends)
    | inr new ↦ absurd (ground (arith, new, idle))
  ]

  first-added :
      (j k : String) (e l : Item)
      → find_item j longer ≡ some e
      → find_item k longer ≡ some l
      → Overtaken e l
      → (settled e.state || opt_is e.depends_on l.id) ≡ true
  first-added j k e l f g o = elim (old_or_new k l g) [
    | inr new ↦ absurd (ground (arith, new, idle, o.under_way))
    | inl old ↦ elim (old_or_new j e f) [
      | inl before ↦ v.first j k e l before old o
      | inr new ↦ absurd (ground (arith, new, last, o.before, last_sequence-bound k items l old))
    ]
  ]

  pub InOrder-longer : InOrder longer
  InOrder-longer = record {
    keys = keys-added;
    sequences = sequences-added;
    links = links-added;
    cleared = cleared-added;
    first = first-added;
  }

pub InOrder-Adds : (items items' : List Item) → Adds items items' → InOrder items → InOrder items'
InOrder-Adds items items' a v =
    rw a.added (InOrder-longer items a.item a.fresh a.last a.idle a.present v)
