-- ===== src/Runtime/EventPump/Texts.antt =====
-- No text is lost, doubled or moved by the merging.
use code_xd.Prelude.{
  ℕ, ◌≡◌, refl, sym, ap, ◌∙◌, subst, Bool, true, false, not, ◌&&◌, ◌||◌, Option, none, some, List,
  [], ◌∷◌, ◌++◌, str_eq, is_some, if◌then◌else◌, arith, Bool-cases, Option-cases, inl, inr, ok,
  from_ok,
}
use code_xd.Python.Numerals.{pos}
use code_xd.Runtime.EventPump.{
  Json, null, number, text, other, NormalizedEvent, or_null, get, replaced_kind, BufferKey,
  buffer_key, same_key, Builtins, ◌+ℤ◌, or_zero,
}
use code_xd.Runtime.EventPump.Merge.{
  merge_buffered, merge_hidden, merged_event, merged_texts, text_payload, hidden_payload, int_or,
  text_or_empty, hidden_delta,
}
use code_xd.Runtime.EventPump.Keys.{same_key-eq, key_kind, buffer_key-kind, buffer_key-merged}

abbrev pub text_value : Json → List ℕ
text_value (text t) = t
text_value _ = []

-- A key of texts that are put together: the kind is neither replaced nor hidden.
abbrev pub of_texts : BufferKey → Bool
of_texts k = not (replaced_kind (key_kind k)) && not (str_eq (key_kind k) hidden_delta)

-- The text that an event adds under a key.
abbrev pub text_in : BufferKey → NormalizedEvent → List ℕ
text_in k e = if same_key (some k) (buffer_key e) then text_value (get e "text") else []

-- The text of events under a key.
abbrev pub text_under : BufferKey → List NormalizedEvent → List ℕ
text_under k [] = []
text_under k (e ∷ es) = text_in k e ++ text_under k es

-- An event of a replaced or hidden kind adds no text.
text_in-other :
    (k : BufferKey) (e : NormalizedEvent)
    → of_texts k ≡ true
    → (replaced_kind e.kind || str_eq e.kind hidden_delta) ≡ true
    → text_in k e ≡ []
text_in-other k e h o = elim (Bool-cases (same_key (some k) (buffer_key e))) [
  | inl match ↦
      let kind = buffer_key-kind e k (sym (same_key-eq (some k) (buffer_key e) match)) in
      ground (arith, kind)
  | inr differs ↦ ground (arith, differs)
]

text_or_empty-value :
    (u : Option Json) (s : List ℕ) → text_or_empty u ≡ some s → text_value (or_null u) ≡ s
text_or_empty-value none s h = cc
text_or_empty-value (some (text t)) s h = cc
text_or_empty-value (some null) s h = cc
text_or_empty-value (some (number n)) s h = cc
text_or_empty-value (some (other n)) s h = cc

same_key-kind :
    (p c : NormalizedEvent)
    → buffer_key p ≡ buffer_key c
    → is_some (buffer_key c) ≡ true
    → p.kind ≡ c.kind
same_key-kind p c e s = elim (Option-cases (buffer_key c)) [
  | inl h ↦ ground (arith, h)
  | inr (k, h) ↦ sym (buffer_key-kind p k (e ∙ h)) ∙ buffer_key-kind c k h
]

module _ (k : BufferKey) (p c m : NormalizedEvent) (e : buffer_key p ≡ buffer_key c) where
  -- Events of a replaced or hidden kind, put together, add no text.
  text_in-none :
      of_texts k ≡ true
      → p.kind ≡ c.kind
      → m.kind ≡ c.kind
      → (replaced_kind c.kind || str_eq c.kind hidden_delta) ≡ true
      → text_in k m ≡ text_in k p ++ text_in k c
  text_in-none o pk mk r =
      rw (text_in-other k p o (rw pk r))
        (rw (text_in-other k c o r) (text_in-other k m o (rw mk r)))

  text_in-merged :
      (s t : Option (List ℕ))
      → text_or_empty (p.payload "text") ≡ s
      → text_or_empty (c.payload "text") ≡ t
      → is_some (buffer_key c) ≡ true
      → replaced_kind c.kind ≡ false
      → p.kind ≡ c.kind
      → merged_texts p c s t ≡ some m
      → text_in k m ≡ text_in k p ++ text_in k c
  text_in-merged none t f g some_key r pk h = cc
  text_in-merged (some s) none f g some_key r pk h = cc
  text_in-merged (some s) (some t) f g some_key r pk h =
      let made : merged_event p c (text_payload p c (s ++ t)) ≡ m = cc in
      subst (λ n. text_in k n ≡ text_in k p ++ text_in k c) made
        (ground (
          arith,
          e,
          buffer_key-merged p c (s ++ t) e some_key r pk,
          text_or_empty-value (p.payload "text") s f,
          text_or_empty-value (c.payload "text") t g,
        ))

merge_hidden-kind :
    (lib : Builtins) (p c m : NormalizedEvent)
    → merge_hidden lib p c ≡ ok (some m)
    → m.kind ≡ c.kind
unfolding merge_hidden
merge_hidden-kind lib p c m h =
    from_ok (int_or lib (or_zero p.raw_size) (p.payload "raw_size")) _ h λ before a h1.
      from_ok (int_or lib (or_zero c.raw_size) (c.payload "raw_size")) _ h1 λ after b h2.
        from_ok (int_or lib (pos 1) (p.payload "chunk_count")) _ h2 λ chunks d h3.
          let made : merged_event p c
                (hidden_payload (get c "item_id") (chunks +ℤ pos 1) (before +ℤ after))
              ≡ m =
            cc in
          ap (λ (n : NormalizedEvent). n.kind) (sym made)

-- Merging adds the texts of the two events.
pub merge_buffered-text :
    (lib : Builtins) (k : BufferKey) (p c m : NormalizedEvent)
    → of_texts k ≡ true
    → is_some (buffer_key c) ≡ true
    → merge_buffered lib p c ≡ ok (some m)
    → text_in k m ≡ text_in k p ++ text_in k c
unfolding merge_buffered
merge_buffered-text lib k p c m o s h = elim (Bool-cases (same_key (buffer_key p) (buffer_key c))) [
  | inr differ ↦ ground (arith, differ)
  | inl agree ↦
      let e = same_key-eq (buffer_key p) (buffer_key c) agree in
      let pk = same_key-kind p c e s in
      elim (Bool-cases (replaced_kind c.kind)) [
        | inl replaced ↦
            let made : c ≡ m = ground (arith, agree, replaced) in
            text_in-none k p c m e o pk (ap (λ (n : NormalizedEvent). n.kind) (sym made))
              (ground (arith, replaced))
        | inr r ↦ elim (Bool-cases (str_eq c.kind hidden_delta)) [
          | inl hidden ↦
              let made : merge_hidden lib p c ≡ ok (some m) = ground (arith, agree, r, hidden) in
              text_in-none k p c m e o pk (merge_hidden-kind lib p c m made)
                (ground (arith, hidden))
          | inr plain ↦
              text_in-merged k p c m e (text_or_empty (p.payload "text"))
                (text_or_empty (c.payload "text")) refl refl s r pk
                (ground (arith, agree, r, plain))
        ]
      ]
]
