-- ===== src/Storage/Outbox/Rows.antt =====
-- What each operation does to the table of deliveries: it rewrites the rows, lawfully, or adds one.
use code_xd.Prelude.{
  ℕ, ◌≤◌, ◌≡◌, refl, ◌⊎◌, inl, inr, Bool, true, false, ◌&&◌, none, some, List, [], ◌∷◌, String,
  Option-cases, str_eq, str_eq_iff, any, arith, option_map, if◌then◌else◌, Bool-cases, ltb,
}
use text.Mathlib.TextPositions.{eq_refl}
use code_xd.Storage.Schema.{
  find, update_where, count_where, key_count, find-update_where, key_count-update_where,
}
use code_xd.Storage.Outbox.{Item, item_key, find_item, settled, is_sending, eligible, earliest}

pub record Lawful (items : List Item) (r s : Item) : Type 0 where
  pub same_id : s.id ≡ r.id
  pub same_destination : s.destination_key ≡ r.destination_key
  pub same_sequence : s.enqueue_sequence ≡ r.enqueue_sequence
  pub same_dependency : s.depends_on ≡ r.depends_on
  pub stays_settled : settled r.state ≡ true → settled s.state ≡ true
  pub more_attempts : r.attempts ≤ s.attempts
  pub enters :
      is_sending s.state ≡ true
      → (is_sending r.state ≡ true) ⊎ ((now : ℕ) × (eligible now items r ≡ true))

pub record Rewrites (items items' : List Item) : Type 0 where
  pub step : Item → Item
  pub finds : (j : String) → find_item j items' ≡ option_map step (find_item j items)
  pub counts : (j : String) → key_count item_key j items' ≡ key_count item_key j items
  pub lawful : (j : String) (r : Item) → find_item j items ≡ some r → Lawful items r (step r)

pub Lawful-refl : (items : List Item) (r : Item) → Lawful items r r
Lawful-refl items r = record {
  same_id = refl;
  same_destination = refl;
  same_sequence = refl;
  same_dependency = refl;
  stays_settled = λ h. h;
  more_attempts = omega arith;
  enters = λ h. inl h;
}

module _ (items : List Item) (test : Item → Bool) (f : Item → Item)
    (keeps : (r : Item) → (f r).id ≡ r.id) where
  pub update_where-Rewrites :
      ((j : String) (r : Item) → find_item j items ≡ some r → test r ≡ true → Lawful items r (f r))
      → Rewrites items (update_where test f items)
  update_where-Rewrites law = record {
    step = λ r. if test r then f r else r;
    finds = λ j. find-update_where item_key test f keeps j items;
    counts = λ j. key_count-update_where item_key test f keeps j items;
    lawful = λ j r found. elim (Bool-cases (test r)) [
      | inl passes ↦ rw passes (law j r found passes)
      | inr fails ↦ rw fails (Lawful-refl items r)
    ];
  }

-- The row that `earliest` chooses passes the test.
pub earliest-test :
    (test : Item → Bool) (items : List Item) (r : Item)
    → earliest test items ≡ some r
    → test r ≡ true
unfolding earliest
earliest-test test [] r e = cc
earliest-test test (x ∷ items) r e = elim (Option-cases (earliest test items)) [
  | inl nothing ↦ ground (arith, nothing)
  | inr (s, found) ↦ ground (arith, found, earliest-test test items s found)
]

pub earliest-none :
    (test : Item → Bool) (items : List Item) → earliest test items ≡ none → any test items ≡ false
unfolding earliest
earliest-none test [] e = refl
earliest-none test (x ∷ items) e = ground (arith, earliest-none test items)

any-weaken :
    (p q : Item → Bool) (items : List Item)
    → any p items ≡ false
    → any (λ (s : Item). p s && q s) items ≡ false
any-weaken p q [] h = refl
any-weaken p q (x ∷ items) h = ground (arith, any-weaken p q items)

-- No other row that passes comes before it.
pub earliest-first :
    (test : Item → Bool) (items : List Item) (r : Item) (n : ℕ)
    → earliest test items ≡ some r
    → n ≤ r.enqueue_sequence
    → any (λ (s : Item). test s && ltb s.enqueue_sequence n) items ≡ false
unfolding earliest
earliest-first test [] r n e h = refl
earliest-first test (x ∷ items) r n e h = elim (Option-cases (earliest test items)) [
  | inl nothing ↦ ground (
    arith,
    nothing,
    any-weaken test (λ s. ltb s.enqueue_sequence n) items (earliest-none test items nothing),
  )
  | inr (y, found) ↦ ground (arith, found, earliest-first test items y n found)
]

earliest-count :
    (test : Item → Bool) (items : List Item) (r : Item)
    → earliest test items ≡ some r
    → 1 ≤ key_count item_key r.id items
unfolding earliest
earliest-count test [] r e = cc
earliest-count test (x ∷ items) r e = elim (Option-cases (earliest test items)) [
  | inl nothing ↦ ground (arith, nothing, eq_refl r.id)
  | inr (s, found) ↦ ground (arith, found, eq_refl r.id, earliest-count test items s found)
]

-- With unique keys the row chosen is the row that its key finds.
pub earliest-find :
    (test : Item → Bool) (items : List Item) (r : Item)
    → earliest test items ≡ some r
    → key_count item_key r.id items ≤ 1
    → find_item r.id items ≡ some r
unfolding earliest find
earliest-find test [] r e u = cc
earliest-find test (x ∷ items) r e u = elim (Option-cases (earliest test items)) [
  | inl nothing ↦ ground (arith, nothing, eq_refl r.id)
  | inr (s, found) ↦ ground (
    arith,
    found,
    eq_refl r.id,
    earliest-count test items s found,
    earliest-find test items s found,
  )
]

count_where-absent :
    (test : Item → Bool) (j : String)
    → ((r : Item) → test r ≡ true → r.id ≡ j)
    → (items : List Item) → key_count item_key j items ≡ 0
    → count_where test items ≡ 0
unfolding count_where
count_where-absent test j only [] u = refl
count_where-absent test j only (x ∷ items) u =
    ground (arith, only x, str_eq_iff x.id j, count_where-absent test j only items)

-- With unique keys a test on one key counts the row of that key.
pub count_where-find :
    (test : Item → Bool) (j : String)
    → ((r : Item) → test r ≡ true → r.id ≡ j)
    → (items : List Item) (r : Item) → find_item j items ≡ some r
    → key_count item_key j items ≤ 1
    → count_where test items ≡ (if test r then 1 else 0)
unfolding count_where find
count_where-find test j only [] r e u = cc
count_where-find test j only (x ∷ items) r e u = elim (Bool-cases (str_eq x.id j)) [
  | inl same ↦ ground (arith, count_where-absent test j only items)
  | inr other ↦ ground (arith, only x, str_eq_iff x.id j, count_where-find test j only items r)
]
