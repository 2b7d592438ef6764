-- ===== src/Security/Signing/Tests.antt =====
-- A signer over toy functions, and the instances of the theorems about signed ids.
use code_xd.Prelude.{
  ℕ, ◌+◌, ◌%◌, ◌≡◌, refl, true, false, none, List, [], ◌∷◌, codes, map, ok, arith,
}
use code_xd.Python.Separators.{has, join}
use code_xd.Python.Numerals.{pos, print_int, digits}
use code_xd.Security.Signing.{
  Crypto, colon, ascii, signature, rstrip, bad_nonce, signed_id, task_card_action, task_card_id,
  verify_task_card_id, draft_action, schedule_draft_id, verify_schedule_draft_id, code_of, modal_id,
  verify_modal_id, catalog_choice_id, verify_catalog_choice_id, base36,
}
use code_xd.Security.Signing.Parts.{Alphabet}
use code_xd.Security.Signing.RoundTrip.{
  verify-task_card_id, verify-schedule_draft_id, verify-modal_id, verify-catalog_choice_id,
}
use code_xd.Security.Signing.Authentic.{IsSigned, Accepted-IsSigned, modal}

-- A letter for each number.
abbrev letters : List ℕ → List ℕ
letters = map (λ c. 65 + c % 26)

abbrev toy : Crypto
toy = record { hmac = λ k v. v; base64 = letters; encode = λ v. v; decimal = λ c. none }

letters-colon : (s : List ℕ) → has colon (letters s) ≡ false
letters-colon [] = refl
letters-colon (c ∷ s) = ground (arith, letters-colon s)

letters-ascii : (s : List ℕ) → ascii (letters s) ≡ true
letters-ascii [] = refl
letters-ascii (c ∷ s) = ground (arith, letters-ascii s)

toy-Alphabet : Alphabet toy
toy-Alphabet = record { no_colon = letters-colon; is_ascii = letters-ascii }

abbrev card_id : List ℕ
card_id = codes "tc:v1:view:7:expand:n1:MVGOXGOBX"

makes_card : task_card_id toy [] (codes "view") (pos 7) (codes "expand") (codes "n1") ≡ ok card_id
unfolding task_card_id task_card_action bad_nonce signed_id signature rstrip join print_int digits
makes_card = refl

verify-task_card_id_example :
    verify_task_card_id toy [] card_id
    ≡ ok (record {
      view_id = codes "view";
      revision = pos 7;
      action = codes "expand";
      nonce = codes "n1";
    })
verify-task_card_id_example =
    verify-task_card_id toy toy-Alphabet [] (codes "view") (pos 7) (codes "expand") (codes "n1")
      refl makes_card

makes_draft :
    schedule_draft_id toy [] (codes "d") (codes "confirm") (codes "n1")
    ≡ ok (codes "sd:v1:d:confirm:n1:LWGOXGWGV")
unfolding schedule_draft_id draft_action bad_nonce signed_id signature rstrip join
makes_draft = refl

verify-schedule_draft_id_example :
    verify_schedule_draft_id toy [] (codes "sd:v1:d:confirm:n1:LWGOXGWGV")
    ≡ ok (record { draft_id = codes "d"; action = codes "confirm"; nonce = codes "n1" })
verify-schedule_draft_id_example =
    verify-schedule_draft_id toy toy-Alphabet [] (codes "d") (codes "confirm") (codes "n1") refl
      makes_draft

abbrev steer_id : List ℕ
steer_id = codes "mi:v1:i:st:1jk:n1:FBGOXGBGL"

makes_modal : modal_id toy [] (codes "i") (codes "steer") (pos 2000) (codes "n1") ≡ ok steer_id
unfolding modal_id code_of base36 digits bad_nonce signed_id signature rstrip join
makes_modal = refl

verify-modal_id_example :
    verify_modal_id toy [] steer_id
    ≡ ok (record {
      intent_id = codes "i";
      kind = codes "steer";
      expires_at = pos 2000;
      nonce = codes "n1";
    })
verify-modal_id_example =
    verify-modal_id toy toy-Alphabet [] (codes "i") (codes "steer") (pos 2000) (codes "n1") refl
      makes_modal

makes_choice :
    catalog_choice_id toy [] (codes "i") (codes "model") (pos 3) (codes "n1")
    ≡ ok (codes "cc:v1:i:m:3:n1:VVGOXGBGF")
unfolding catalog_choice_id code_of base36 digits bad_nonce signed_id signature rstrip join
makes_choice = refl

verify-catalog_choice_id_example :
    verify_catalog_choice_id toy [] (codes "cc:v1:i:m:3:n1:VVGOXGBGF")
    ≡ ok (record {
      intent_id = codes "i";
      kind = codes "model";
      runtime_generation = pos 3;
      nonce = codes "n1";
    })
verify-catalog_choice_id_example =
    verify-catalog_choice_id toy toy-Alphabet [] (codes "i") (codes "model") (pos 3) (codes "n1")
      refl makes_choice

Accepted-IsSigned_example : IsSigned toy [] (codes "mi") steer_id
Accepted-IsSigned_example = Accepted-IsSigned toy [] (codes "mi") steer_id (
    modal
      (record {
        intent_id = codes "i";
        kind = codes "steer";
        expires_at = pos 2000;
        nonce = codes "n1";
      })
      refl verify-modal_id_example)
