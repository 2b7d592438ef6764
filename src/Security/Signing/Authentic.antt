-- ===== src/Security/Signing/Authentic.antt =====
-- An id is accepted only under the signature of its own body.
use code_xd.Prelude.{
  ℕ, ◌≡◌, refl, sym, ap, ◌∙◌, true, ◌&&◌, List, [], ◌∷◌, ◌++◌, codes, ok, arith, from_guard,
  from_some, from_ok,
}
use code_xd.Python.Separators.{same, same_iff-eq, split, join, join-split}
use code_xd.Security.Signing.{
  Crypto, signature, compare_digest, colon, signed_id, check_signature, task_card_action,
  verify_task_card_parts, verify_task_card_id, TaskCardAction, draft_action,
  verify_schedule_draft_parts, verify_schedule_draft_id, ScheduleDraftAction, kind_of, modal_kinds,
  catalog_kinds, verify_modal_parts, verify_modal_id, ModalAction, verify_catalog_choice_parts,
  verify_catalog_choice_id, CatalogChoiceAction,
}

module _ (lib : Crypto) (key : List ℕ) where
  -- The id is a body that begins with `prefix`, version 1, and then the signature of that body.
  pub record IsSigned (prefix value : List ℕ) : Type 0 where
    pub fields : List (List ℕ)
    pub made : value ≡ signed_id lib key (prefix ∷ codes "v1" ∷ fields)

  check_signature-same :
      (parts : List (List ℕ)) (given : List ℕ) {u : Unit {0}}
      → check_signature lib key parts given ≡ ok u
      → given ≡ signature lib key (join colon parts)
  unfolding check_signature compare_digest
  check_signature-same parts given h =
      same_iff-eq given (signature lib key (join colon parts)) (ground arith)

  -- A text that was split into these parts is signed, when the check of its last part passes.
  IsSigned-from :
      (prefix version value given : List ℕ) (fields : List (List ℕ)) {u : Unit {0}}
      → split colon value ≡ prefix ∷ version ∷ (fields ++ given ∷ [])
      → (p : List ℕ) → (same prefix p && same version (codes "v1")) ≡ true
      → check_signature lib key (prefix ∷ version ∷ fields) given ≡ ok u
      → IsSigned p value
  unfolding signed_id
  IsSigned-from prefix version value given fields e p named checked =
      let g = check_signature-same (prefix ∷ version ∷ fields) given checked in
      let first : prefix ≡ p = same_iff-eq prefix p (ground arith) in
      let second : version ≡ codes "v1" = same_iff-eq version (codes "v1") (ground arith) in
      record {
        fields = fields;
        made = sym (join-split colon value) ∙ ap (join colon) e ∙ rw (g, first, second) refl;
      }

  card-IsSigned :
      (value : List ℕ) (parts : List (List ℕ)) (t : TaskCardAction)
      → split colon value ≡ parts
      → verify_task_card_parts lib key parts ≡ ok t
      → IsSigned (codes "tc") value
  unfolding verify_task_card_parts
  card-IsSigned value (p ∷ v ∷ x1 ∷ x2 ∷ x3 ∷ x4 ∷ given ∷ []) t e h =
      from_guard (same p (codes "tc") && same v (codes "v1") && task_card_action x3) _ _ h
        (λ named k.
          from_ok (check_signature lib key (p ∷ v ∷ x1 ∷ x2 ∷ x3 ∷ x4 ∷ []) given) _ k
            (λ u checked l.
              IsSigned-from p v value given (x1 ∷ x2 ∷ x3 ∷ x4 ∷ []) e (codes "tc") (ground arith)
                checked))
  card-IsSigned value parts t e h = absurd (cc)

  draft-IsSigned :
      (value : List ℕ) (parts : List (List ℕ)) (t : ScheduleDraftAction)
      → split colon value ≡ parts
      → verify_schedule_draft_parts lib key parts ≡ ok t
      → IsSigned (codes "sd") value
  unfolding verify_schedule_draft_parts
  draft-IsSigned value (p ∷ v ∷ x1 ∷ x2 ∷ x3 ∷ given ∷ []) t e h =
      from_guard (same p (codes "sd") && same v (codes "v1") && draft_action x2) _ _ h (λ named k.
        from_ok (check_signature lib key (p ∷ v ∷ x1 ∷ x2 ∷ x3 ∷ []) given) _ k (λ u checked l.
          IsSigned-from p v value given (x1 ∷ x2 ∷ x3 ∷ []) e (codes "sd") (ground arith) checked))
  draft-IsSigned value parts t e h = absurd (cc)

  modal-IsSigned :
      (value : List ℕ) (parts : List (List ℕ)) (t : ModalAction)
      → split colon value ≡ parts
      → verify_modal_parts lib key parts ≡ ok t
      → IsSigned (codes "mi") value
  unfolding verify_modal_parts
  modal-IsSigned value (p ∷ v ∷ x1 ∷ x2 ∷ x3 ∷ x4 ∷ given ∷ []) t e h =
      from_some (kind_of x2 modal_kinds) _ _ h (λ kind found j.
        from_guard (same p (codes "mi") && same v (codes "v1")) _ _ j (λ named k.
          from_ok (check_signature lib key (p ∷ v ∷ x1 ∷ x2 ∷ x3 ∷ x4 ∷ []) given) _ k
            (λ u checked l.
              IsSigned-from p v value given (x1 ∷ x2 ∷ x3 ∷ x4 ∷ []) e (codes "mi") named checked)))
  modal-IsSigned value parts t e h = absurd (cc)

  choice-IsSigned :
      (value : List ℕ) (parts : List (List ℕ)) (t : CatalogChoiceAction)
      → split colon value ≡ parts
      → verify_catalog_choice_parts lib key parts ≡ ok t
      → IsSigned (codes "cc") value
  unfolding verify_catalog_choice_parts
  choice-IsSigned value (p ∷ v ∷ x1 ∷ x2 ∷ x3 ∷ x4 ∷ given ∷ []) t e h =
      from_some (kind_of x2 catalog_kinds) _ _ h (λ kind found j.
        from_guard (same p (codes "cc") && same v (codes "v1")) _ _ j (λ named k.
          from_ok (check_signature lib key (p ∷ v ∷ x1 ∷ x2 ∷ x3 ∷ x4 ∷ []) given) _ k
            (λ u checked l.
              IsSigned-from p v value given (x1 ∷ x2 ∷ x3 ∷ x4 ∷ []) e (codes "cc") named checked)))
  choice-IsSigned value parts t e h = absurd (cc)

  -- One of the four readers accepts the id, each for its own prefix.
  pub data Accepted (prefix value : List ℕ) : Type 0 where
    card :
        (t : TaskCardAction)
        → prefix ≡ codes "tc"
        → verify_task_card_id lib key value ≡ ok t
        → Accepted prefix value
    draft :
        (t : ScheduleDraftAction)
        → prefix ≡ codes "sd"
        → verify_schedule_draft_id lib key value ≡ ok t
        → Accepted prefix value
    modal :
        (t : ModalAction)
        → prefix ≡ codes "mi"
        → verify_modal_id lib key value ≡ ok t
        → Accepted prefix value
    choice :
        (t : CatalogChoiceAction)
        → prefix ≡ codes "cc"
        → verify_catalog_choice_id lib key value ≡ ok t
        → Accepted prefix value

  -- An id that any of the four readers accepts is, to the letter, one that was signed with the key:
  -- its own prefix, the version, the fields, and then the signature of exactly that body.
  pub Accepted-IsSigned : (prefix value : List ℕ) → Accepted prefix value → IsSigned prefix value
  unfolding verify_task_card_id verify_schedule_draft_id verify_modal_id verify_catalog_choice_id
  Accepted-IsSigned prefix value (card t p h) =
      rw p (card-IsSigned value (split colon value) t refl h)
  Accepted-IsSigned prefix value (draft t p h) =
      rw p (draft-IsSigned value (split colon value) t refl h)
  Accepted-IsSigned prefix value (modal t p h) =
      rw p (modal-IsSigned value (split colon value) t refl h)
  Accepted-IsSigned prefix value (choice t p h) =
      rw p (choice-IsSigned value (split colon value) t refl h)
