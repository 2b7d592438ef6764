-- ===== src/Runtime/EventPump/Keys.antt =====
-- The keys under which events are merged.
use code_xd.Prelude.{
  ℕ, ◌≡◌, refl, sym, ap, ◌∙◌, subst, true, false, Option, none, some, List, String, str_eq_iff,
  is_some, coalesce, ==_iff, arith,
}
use code_xd.Python.Separators.{same_iff-eq}
use code_xd.Python.Numerals.{ℤ, pos, negsuc}
use code_xd.Runtime.EventPump.{
  Json, null, number, text, other, NormalizedEvent, or_null, get, replaced_kind, buffered_kind,
  BufferKey, of_kind, of_item, of_summary, item_key, buffer_key, same_number, same_json, same_key,
}
use code_xd.Runtime.EventPump.Merge.{merged_event, text_payload}

same_number-eq : (m n : ℤ) → same_number m n ≡ true → m ≡ n
same_number-eq (pos m) (pos n) h = ap pos ((==_iff m n).0 h)
same_number-eq (negsuc m) (negsuc n) h = ap negsuc ((==_iff m n).0 h)
same_number-eq (pos m) (negsuc n) h = cc
same_number-eq (negsuc m) (pos n) h = cc

same_json-eq : (u v : Json) → same_json u v ≡ true → u ≡ v
same_json-eq null null h = refl
same_json-eq null (number n) h = cc
same_json-eq null (text t) h = cc
same_json-eq null (other n) h = cc
same_json-eq (number m) null h = cc
same_json-eq (number m) (number n) h = ap number (same_number-eq m n h)
same_json-eq (number m) (text t) h = cc
same_json-eq (number m) (other n) h = cc
same_json-eq (text s) null h = cc
same_json-eq (text s) (number n) h = cc
same_json-eq (text s) (text t) h = ap text (same_iff-eq s t h)
same_json-eq (text s) (other n) h = cc
same_json-eq (other m) null h = cc
same_json-eq (other m) (number n) h = cc
same_json-eq (other m) (text t) h = cc
same_json-eq (other m) (other n) h = ap other ((==_iff m n).0 h)

-- Events with the same key have equal keys.
pub same_key-eq : (a b : Option BufferKey) → same_key a b ≡ true → a ≡ b
same_key-eq none none h = refl
same_key-eq none (some b) h = cc
same_key-eq (some (of_kind k)) none h = cc
same_key-eq (some (of_item k i)) none h = cc
same_key-eq (some (of_summary k i m)) none h = cc
same_key-eq (some (of_kind k)) (some (of_kind l)) h = ground (arith, str_eq_iff k l)
same_key-eq (some (of_kind k)) (some (of_item l j)) h = cc
same_key-eq (some (of_kind k)) (some (of_summary l j n)) h = cc
same_key-eq (some (of_item k i)) (some (of_kind l)) h = cc
same_key-eq (some (of_item k i)) (some (of_item l j)) h =
    ground (arith, str_eq_iff k l, same_iff-eq i j)
same_key-eq (some (of_item k i)) (some (of_summary l j n)) h = cc
same_key-eq (some (of_summary k i m)) (some (of_kind l)) h = cc
same_key-eq (some (of_summary k i m)) (some (of_item l j)) h = cc
same_key-eq (some (of_summary k i m)) (some (of_summary l j n)) h =
    ground (arith, str_eq_iff k l, same_iff-eq i j, same_json-eq m n)

-- The kind of the events with a key.
abbrev pub key_kind : BufferKey → String
key_kind (of_kind k) = k
key_kind (of_item k i) = k
key_kind (of_summary k i m) = k

item_key-kind :
    (kind : String) (id index : Json) (k : BufferKey)
    → item_key kind id index ≡ some k
    → key_kind k ≡ kind
item_key-kind kind null index k h = cc
item_key-kind kind (number n) index k h = cc
item_key-kind kind (other n) index k h = cc
item_key-kind kind (text i) index (of_kind l) h = ground arith
item_key-kind kind (text i) index (of_item l j) h = ground arith
item_key-kind kind (text i) index (of_summary l j n) h = ground arith

pub buffer_key-kind :
    (e : NormalizedEvent) (k : BufferKey) → buffer_key e ≡ some k → key_kind k ≡ e.kind
unfolding buffer_key
buffer_key-kind e (of_kind l) h =
    ground (arith, item_key-kind e.kind (get e "item_id") (get e "summary_index") (of_kind l))
buffer_key-kind e (of_item l j) h =
    ground (arith, item_key-kind e.kind (get e "item_id") (get e "summary_index") (of_item l j))
buffer_key-kind e (of_summary l j n) h =
    ground
      (arith, item_key-kind e.kind (get e "item_id") (get e "summary_index") (of_summary l j n))

-- What an event that has a key, and is not replaced, is like.
pub record Keyed (e : NormalizedEvent) : Type 0 where
  pub is_buffered : buffered_kind e.kind ≡ true
  pub is_local : is_some e.provider_event_id ≡ false
  pub is_item : item_key e.kind (get e "item_id") (get e "summary_index") ≡ buffer_key e

pub buffer_key-Keyed :
    (e : NormalizedEvent) → is_some (buffer_key e) ≡ true → replaced_kind e.kind ≡ false → Keyed e
unfolding buffer_key
buffer_key-Keyed e h r = record {
  is_buffered = ground arith;
  is_local = ground arith;
  is_item = ground arith;
}

-- The two payloads put together have the key that both have.
item_key-merged :
    (kind : String) (pi ci ps cs : Option Json)
    → item_key kind (or_null pi) (or_null ps) ≡ item_key kind (or_null ci) (or_null cs)
    → is_some (item_key kind (or_null ci) (or_null cs)) ≡ true
    → item_key kind (or_null (coalesce ci pi)) (or_null (coalesce cs ps))
      ≡ item_key kind (or_null ci) (or_null cs)
item_key-merged kind pi none ps cs e h = cc
item_key-merged kind pi (some null) ps cs e h = cc
item_key-merged kind pi (some (number n)) ps cs e h = cc
item_key-merged kind pi (some (other n)) ps cs e h = cc
item_key-merged kind pi (some (text i)) ps (some c) e h = refl
item_key-merged kind none (some (text i)) ps none e h = ground arith
item_key-merged kind (some null) (some (text i)) ps none e h = ground arith
item_key-merged kind (some (number n)) (some (text i)) ps none e h = ground arith
item_key-merged kind (some (other n)) (some (text i)) ps none e h = ground arith
item_key-merged kind (some (text j)) (some (text i)) ps none e h = ground arith

-- Merging the texts of two events keeps their key.
pub buffer_key-merged :
    (p c : NormalizedEvent) (t : List ℕ)
    → buffer_key p ≡ buffer_key c
    → is_some (buffer_key c) ≡ true
    → replaced_kind c.kind ≡ false
    → p.kind ≡ c.kind
    → buffer_key (merged_event p c (text_payload p c t)) ≡ buffer_key c
unfolding buffer_key
buffer_key-merged p c t e h r k =
    let keyed = buffer_key-Keyed c h r in
    let keyed' = buffer_key-Keyed p (rw e h) (rw k r) in
    let items =
      subst
        (λ kind.
          item_key kind (get p "item_id") (get p "summary_index")
          ≡ item_key c.kind (get c "item_id") (get c "summary_index"))
        k (keyed'.is_item ∙ e ∙ sym keyed.is_item) in
    let merged =
      item_key-merged c.kind (p.payload "item_id") (c.payload "item_id") (p.payload "summary_index")
        (c.payload "summary_index") items (rw keyed.is_item h) in
    ground (arith, keyed.is_buffered, keyed.is_local, r, merged)
