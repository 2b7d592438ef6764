-- ===== src/Security/Signing/RoundTrip.antt =====
-- An id that the signer makes, it accepts and reads back.
use code_xd.Prelude.{
  ℕ, ◌≡◌, refl, true, false, not, ◌&&◌, some, List, [], ◌∷◌, codes, ltb, leb, ok, arith, from_guard,
  from_some, ok-injective, length,
}
use code_xd.Python.Separators.{has, join}
use code_xd.Python.Numerals.{ℤ, pos, negsuc, digits, print_int}
use code_xd.Python.Numerals.RoundTrip.{
  parse_int-print_int, parse_int-digits, print_int-colon, digits-colon,
}
use code_xd.Security.Signing.{
  Crypto, signature, bad_nonce, colon, signed_id, check_signature, task_card_action, task_card_id,
  verify_task_card_parts, verify_task_card_id, draft_action, schedule_draft_id,
  verify_schedule_draft_parts, verify_schedule_draft_id, base36, modal_kinds, code_of, kind_of,
  modal_id, verify_modal_parts, verify_modal_id, catalog_kinds, catalog_choice_id,
  verify_catalog_choice_parts, verify_catalog_choice_id,
}
use code_xd.Security.Signing.Parts.{
  Alphabet, check-signature, split-signed_id, one_of_two, bad_nonce-plain,
}
use code_xd.Security.Signing.Kinds.{code_of-kind_of, modal_kinds_good, catalog_kinds_good}

module _ (lib : Crypto) (a : Alphabet lib) (key : List ℕ) where
  task_card_action-plain : (s : List ℕ) → task_card_action s ≡ true → has colon s ≡ false
  unfolding task_card_action
  task_card_action-plain s h =
      one_of_two lib a key s (codes "expand") (codes "collapse") refl refl h

  verify-task_card_parts :
      (view_id : List ℕ) (revision : ℤ) (action nonce given : List ℕ)
      → task_card_action action ≡ true
      → check_signature lib key
          (codes "tc" ∷ codes "v1" ∷ view_id ∷ print_int revision ∷ action ∷ nonce ∷ [])
          given
        ≡ ok tt
      → verify_task_card_parts lib key
          (codes "tc" ∷ codes "v1" ∷ view_id ∷ print_int revision ∷ action ∷ nonce ∷ given ∷ [])
        ≡ ok (record { view_id = view_id; revision = revision; action = action; nonce = nonce })
  unfolding verify_task_card_parts
  verify-task_card_parts view_id revision action nonce given known checks =
      ground (arith, known, checks, parse_int-print_int lib.decimal revision)

  -- A task card's id is accepted and read back, when its view's id has no colon.
  pub verify-task_card_id :
      (view_id : List ℕ) (revision : ℤ) (action nonce : List ℕ) {value : List ℕ}
      → has colon view_id ≡ false
      → task_card_id lib key view_id revision action nonce ≡ ok value
      → verify_task_card_id lib key value
        ≡ ok (record { view_id = view_id; revision = revision; action = action; nonce = nonce })
  unfolding task_card_id verify_task_card_id
  verify-task_card_id view_id revision action nonce {value} plain h =
      let parts : List (List ℕ) = codes "v1" ∷ view_id ∷ print_int revision ∷ action ∷ nonce ∷ [] in
      from_guard (task_card_action action) _ _ h (λ known k.
        from_guard (not (bad_nonce nonce)) _ _ k (λ good l.
          let made : signed_id lib key (codes "tc" ∷ parts) ≡ value = ok-injective l in
          rw (← made) (
            rw
              (split-signed_id lib a key (codes "tc") parts (
                ground (
                  arith,
                  plain,
                  print_int-colon revision,
                  task_card_action-plain action known,
                  bad_nonce-plain lib a key nonce,
                )))
              (verify-task_card_parts view_id revision action nonce
                (signature lib key (join colon (codes "tc" ∷ parts))) known
                (check-signature lib a key (codes "tc" ∷ parts))))))

  draft_action-plain : (s : List ℕ) → draft_action s ≡ true → has colon s ≡ false
  unfolding draft_action
  draft_action-plain s h = one_of_two lib a key s (codes "confirm") (codes "cancel") refl refl h

  verify-schedule_draft_parts :
      (draft_id action nonce given : List ℕ)
      → draft_action action ≡ true
      → check_signature lib key (codes "sd" ∷ codes "v1" ∷ draft_id ∷ action ∷ nonce ∷ []) given
        ≡ ok tt
      → verify_schedule_draft_parts lib key
          (codes "sd" ∷ codes "v1" ∷ draft_id ∷ action ∷ nonce ∷ given ∷ [])
        ≡ ok (record { draft_id = draft_id; action = action; nonce = nonce })
  unfolding verify_schedule_draft_parts
  verify-schedule_draft_parts draft_id action nonce given known checks =
      ground (arith, known, checks)

  -- The id of a draft's button is accepted and read back, when the draft's id has no colon.
  pub verify-schedule_draft_id :
      (draft_id action nonce : List ℕ) {value : List ℕ}
      → has colon draft_id ≡ false
      → schedule_draft_id lib key draft_id action nonce ≡ ok value
      → verify_schedule_draft_id lib key value
        ≡ ok (record { draft_id = draft_id; action = action; nonce = nonce })
  unfolding schedule_draft_id verify_schedule_draft_id
  verify-schedule_draft_id draft_id action nonce {value} plain h =
      let parts : List (List ℕ) = codes "v1" ∷ draft_id ∷ action ∷ nonce ∷ [] in
      from_guard (draft_action action) _ _ h (λ known k.
        from_guard (not (bad_nonce nonce)) _ _ k (λ good l.
          let made : signed_id lib key (codes "sd" ∷ parts) ≡ value = ok-injective l in
          rw (← made) (
            rw
              (split-signed_id lib a key (codes "sd") parts (
                ground
                  (arith, plain, draft_action-plain action known, bad_nonce-plain lib a key nonce)))
              (verify-schedule_draft_parts draft_id action nonce
                (signature lib key (join colon (codes "sd" ∷ parts))) known
                (check-signature lib a key (codes "sd" ∷ parts))))))

  verify-modal_parts :
      (intent_id kind kind_code : List ℕ) (n : ℕ) (nonce given : List ℕ)
      → kind_of kind_code modal_kinds ≡ some kind
      → check_signature lib key
          (codes "mi" ∷ codes "v1" ∷ intent_id ∷ kind_code ∷ digits 36 n ∷ nonce ∷ [])
          given
        ≡ ok tt
      → verify_modal_parts lib key
          (codes "mi" ∷ codes "v1" ∷ intent_id ∷ kind_code ∷ digits 36 n ∷ nonce ∷ given ∷ [])
        ≡ ok (record { intent_id = intent_id; kind = kind; expires_at = pos n; nonce = nonce })
  unfolding verify_modal_parts
  verify-modal_parts intent_id kind kind_code n nonce given known checks =
      ground (arith, known, checks, parse_int-digits 36 (omega arith) (omega arith) lib.decimal n)

  -- A modal's id is accepted and read back, with the time in base 36, when its intent's id has no
  -- colon.
  pub verify-modal_id :
      (intent_id kind : List ℕ) (expires_at : ℤ) (nonce : List ℕ) {value : List ℕ}
      → has colon intent_id ≡ false
      → modal_id lib key intent_id kind expires_at nonce ≡ ok value
      → verify_modal_id lib key value
        ≡ ok (record { intent_id = intent_id; kind = kind; expires_at = expires_at; nonce = nonce })
  unfolding modal_id verify_modal_id base36
  verify-modal_id intent_id kind (negsuc n) nonce {value} plain h =
      from_some (code_of kind modal_kinds) _ _ h
        (λ c found k. from_guard (not (bad_nonce nonce)) _ _ k (λ good l. absurd (cc)))
  verify-modal_id intent_id kind (pos n) nonce {value} plain h =
      from_some (code_of kind modal_kinds) _ _ h (λ c found k.
        from_guard (not (bad_nonce nonce)) _ _ k (λ good l.
          let parts : List (List ℕ) = codes "v1" ∷ intent_id ∷ c ∷ digits 36 n ∷ nonce ∷ [] in
          from_guard (leb (length (signed_id lib key (codes "mi" ∷ parts))) 100) _ _ l (λ fits m.
            let made : signed_id lib key (codes "mi" ∷ parts) ≡ value = ok-injective m in
            let (back, bare) = code_of-kind_of kind c modal_kinds modal_kinds_good found in
            rw (← made) (
              rw
                (split-signed_id lib a key (codes "mi") parts
                  (ground (arith, plain, bare, digits-colon n, bad_nonce-plain lib a key nonce)))
                (verify-modal_parts intent_id kind c n nonce
                  (signature lib key (join colon (codes "mi" ∷ parts))) back
                  (check-signature lib a key (codes "mi" ∷ parts)))))))

  verify-catalog_choice_parts :
      (intent_id kind kind_code : List ℕ) (n : ℕ) (nonce given : List ℕ)
      → kind_of kind_code catalog_kinds ≡ some kind
      → check_signature lib key
          (codes "cc" ∷ codes "v1" ∷ intent_id ∷ kind_code ∷ digits 36 n ∷ nonce ∷ [])
          given
        ≡ ok tt
      → verify_catalog_choice_parts lib key
          (codes "cc" ∷ codes "v1" ∷ intent_id ∷ kind_code ∷ digits 36 n ∷ nonce ∷ given ∷ [])
        ≡ ok (record {
          intent_id = intent_id;
          kind = kind;
          runtime_generation = pos n;
          nonce = nonce;
        })
  unfolding verify_catalog_choice_parts
  verify-catalog_choice_parts intent_id kind kind_code n nonce given known checks =
      ground (arith, known, checks, parse_int-digits 36 (omega arith) (omega arith) lib.decimal n)

  -- The id of a choice from the catalog is accepted and read back, with the generation in base 36,
  -- when its intent's id has no colon.
  pub verify-catalog_choice_id :
      (intent_id kind : List ℕ) (generation : ℤ) (nonce : List ℕ) {value : List ℕ}
      → has colon intent_id ≡ false
      → catalog_choice_id lib key intent_id kind generation nonce ≡ ok value
      → verify_catalog_choice_id lib key value
        ≡ ok (record {
          intent_id = intent_id;
          kind = kind;
          runtime_generation = generation;
          nonce = nonce;
        })
  unfolding catalog_choice_id verify_catalog_choice_id base36
  verify-catalog_choice_id intent_id kind (negsuc n) nonce {value} plain h =
      from_some (code_of kind catalog_kinds) _ _ h (λ c found k. absurd (cc))
  verify-catalog_choice_id intent_id kind (pos n) nonce {value} plain h =
      from_some (code_of kind catalog_kinds) _ _ h (λ c found k.
        from_guard (not (ltb n 1) && not (bad_nonce nonce)) _ _ k (λ good l.
          let parts : List (List ℕ) = codes "v1" ∷ intent_id ∷ c ∷ digits 36 n ∷ nonce ∷ [] in
          from_guard (leb (length (signed_id lib key (codes "cc" ∷ parts))) 100) _ _ l (λ fits m.
            let made : signed_id lib key (codes "cc" ∷ parts) ≡ value = ok-injective m in
            let (back, bare) = code_of-kind_of kind c catalog_kinds catalog_kinds_good found in
            rw (← made) (
              rw
                (split-signed_id lib a key (codes "cc") parts
                  (ground (arith, plain, bare, digits-colon n, bad_nonce-plain lib a key nonce)))
                (verify-catalog_choice_parts intent_id kind c n nonce
                  (signature lib key (join colon (codes "cc" ∷ parts))) back
                  (check-signature lib a key (codes "cc" ∷ parts)))))))
