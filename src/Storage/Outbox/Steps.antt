-- ===== src/Storage/Outbox/Steps.antt =====
-- Any sequence of the operations on the table of deliveries.
use code_xd.Prelude.{ℕ, ◌≡◌, Bool, Option, List, String, ok}
use code_xd.Storage.Schema.{UniqueKeys}
use code_xd.Storage.Outbox.{
  Item, Request, item_key, enqueue_outbox, OutboxRecord, reconcile_expired, claim_outbox,
  renew_outbox_lease, ack_delivery, retry_outbox,
}
use code_xd.Storage.Outbox.Rows.{Rewrites}
use code_xd.Storage.Outbox.Changes.{
  Adds, Change, unchanged, rewrites, adds, reconcile_expired-Rewrites, supersede_stale-Rewrites,
  enqueue-Change, claim-Change, renew-Rewrites, ack-Rewrites, retry-Rewrites,
}

module _ (like : String → String → Bool) where
  pub data Step (items items' : List Item) : Type 0 where
    enqueues :
        (events : List ℕ) (q : Request) (id : String) (now : ℕ) (answer : String)
        → enqueue_outbox events q id now items ≡ ok (items', answer)
        → Step items items'
    claims :
        (worker_id : String) (lease_ms now : ℕ) (answer : Option OutboxRecord)
        → claim_outbox like worker_id lease_ms now items ≡ ok (items', answer)
        → Step items items'
    renews :
        (outbox_id owner : String) (attempt lease_ms now : ℕ) (answer : Bool)
        → renew_outbox_lease outbox_id owner attempt lease_ms now items ≡ ok (items', answer)
        → Step items items'
    acknowledges :
        (outbox_id owner : String) (attempt : ℕ) (message : Option String)
        → ack_delivery outbox_id owner attempt message items ≡ ok items'
        → Step items items'
    retries :
        (outbox_id owner : String) (attempt : ℕ) (code : String) (next : ℕ) (permanent : Bool)
        → retry_outbox outbox_id owner attempt code next permanent items ≡ ok items'
        → Step items items'

  pub data Reach (items : List Item) : List Item → Type 0 where
    here : Reach items items
    next : {e f : List Item} → Reach items e → Step e f → Reach items f

-- A property of tables that every rewriting and every addition keeps, every step keeps.
module _ (like : String → String → Bool) (P : List Item → Type 0)
    (keys : (items : List Item) → P items → UniqueKeys item_key items)
    (on_rewrite : (items items' : List Item) → Rewrites items items' → P items → P items')
    (on_add : (items items' : List Item) → Adds items items' → P items → P items') where
  Change-keeps : {items items' : List Item} → Change items items' → P items → P items'
  Change-keeps unchanged p = p
  Change-keeps {items} {items'} (rewrites r) p = on_rewrite items items' r p
  Change-keeps {items} {items'} (adds a) p = on_add items items' a p

  pub Step-keeps : {items items' : List Item} → Step like items items' → P items → P items'
  Step-keeps {items} {items'} (enqueues events q id now answer h) p =
      Change-keeps (enqueue-Change events q id now items items' answer h) p
  Step-keeps {items} {items'} (claims w l now answer h) p =
      let q =
        on_rewrite _ _ (supersede_stale-Rewrites like (reconcile_expired now items))
          (on_rewrite _ _ (reconcile_expired-Rewrites now items) p) in
      Change-keeps (claim-Change like w l now items items' answer (keys _ q) h) q
  Step-keeps {items} {items'} (renews i o a l n answer h) p =
      on_rewrite _ _ (renew-Rewrites i o a l n items items' answer h) p
  Step-keeps {items} {items'} (acknowledges i o a m h) p =
      on_rewrite _ _ (ack-Rewrites i o a m items items' h) p
  Step-keeps {items} {items'} (retries i o a c n b h) p =
      on_rewrite _ _ (retry-Rewrites i o a c n b items items' h) p

  pub Reach-keeps : {items items' : List Item} → Reach like items items' → P items → P items'
  Reach-keeps here p = p
  Reach-keeps (next r s) p = Step-keeps s (Reach-keeps r p)
