-- ===== src/Security/Signing.antt =====
-- security/signing.py: the ids of Discord's components, signed with the process's key. A text is
-- the list of its code points. `hmac`, `base64` and `encode` are HMAC-SHA256, the URL-safe base64
-- encoding and UTF-8, and `decimal` is `unicodedata.decimal`.
mod Tests
pub mod Parts
pub mod Kinds
pub mod RoundTrip
pub mod Authentic
use code_xd.Prelude.{
  ℕ, ◌+◌, ◌≤◌, Bool, true, false, not, ◌&&◌, ◌||◌, Option, none, some, List, [], ◌∷◌, ◌++◌, codes,
  all, length, take, if◌then◌else◌, ltb, leb, ◌==◌, Result, ok, err, ◌>>=◌, ◌>>◌, guard, or_raise,
}
use code_xd.Python.Separators.{same, has, split, join}
use code_xd.Python.Numerals.{ℤ, pos, negsuc, digits, print_int, parse_int}

-- `ValueError`, `SecurityError`, and the `TypeError` of `hmac.compare_digest`
pub data SigningError : Type 0 where
  value_error security_error type_error : SigningError

-- The separator of the ids.
abbrev pub colon : ℕ
colon = b':'

pub record TaskCardAction : Type 0 where
  pub view_id : List ℕ
  pub revision : ℤ
  pub action : List ℕ
  pub nonce : List ℕ

pub record ScheduleDraftAction : Type 0 where
  pub draft_id : List ℕ
  pub action : List ℕ
  pub nonce : List ℕ

pub record ModalAction : Type 0 where
  pub intent_id : List ℕ
  pub kind : List ℕ
  pub expires_at : ℤ
  pub nonce : List ℕ

pub record CatalogChoiceAction : Type 0 where
  pub intent_id : List ℕ
  pub kind : List ℕ
  pub runtime_generation : ℤ
  pub nonce : List ℕ

-- What `hmac`, `base64`, `str.encode` and `unicodedata` compute.
pub record Crypto : Type 0 where
  pub hmac : List ℕ → List ℕ → List ℕ
  pub base64 : List ℕ → List ℕ
  pub encode : List ℕ → List ℕ
  pub decimal : ℕ → Option ℕ

-- What `rstrip` makes of a character and the stripped text after it.
abbrev pub before_stripped : ℕ → ℕ → List ℕ → List ℕ
before_stripped c d [] = if d == c then [] else d ∷ []
before_stripped c d (e ∷ t) = d ∷ e ∷ t

-- `text.rstrip("=")`
unfoldable pub rstrip : ℕ → List ℕ → List ℕ
rstrip c [] = []
rstrip c (d ∷ s) = before_stripped c d (rstrip c s)

-- `_signature`
pub signature : Crypto → List ℕ → List ℕ → List ℕ
signature lib key value = rstrip b'=' (lib.base64 (take 9 (lib.hmac key (lib.encode value))))

-- `ComponentSigner(key)`: the key, if it is long enough.
pub new_signer : List ℕ → Result SigningError (List ℕ)
new_signer key = guard (leb 32 (length key)) value_error >> ok key

-- `not nonce or ":" in nonce`
unfoldable pub bad_nonce : List ℕ → Bool
bad_nonce [] = true
bad_nonce (c ∷ s) = has colon (c ∷ s)

abbrev pub ascii : List ℕ → Bool
ascii s = all (λ c. ltb c 128) s

-- `hmac.compare_digest(given, expected)` on texts, which raises on a character outside ASCII.
unfoldable pub compare_digest : List ℕ → List ℕ → Result SigningError Bool
compare_digest given expected = do
  guard (ascii given && ascii expected) type_error
  ok (same given expected)

-- `_base36`
unfoldable pub base36 : ℤ → Result SigningError (List ℕ)
base36 (pos n) = ok (digits 36 n)
base36 (negsuc n) = err value_error

unfoldable pub task_card_action : List ℕ → Bool
task_card_action a = same a (codes "expand") || same a (codes "collapse")

unfoldable pub draft_action : List ℕ → Bool
draft_action a = same a (codes "confirm") || same a (codes "cancel")

abbrev pub modal_kinds : List (List ℕ × List ℕ)
modal_kinds =
    (codes "schedule_create", codes "sc")
    ∷ (codes "schedule_update", codes "su")
    ∷ (codes "steer", codes "st")
    ∷ (codes "side_query", codes "bt")
    ∷ []

abbrev pub catalog_kinds : List (List ℕ × List ℕ)
catalog_kinds = (codes "model", codes "m") ∷ (codes "reasoning", codes "r") ∷ []

-- The code of a kind.
unfoldable pub code_of : List ℕ → List (List ℕ × List ℕ) → Option (List ℕ)
code_of kind [] = none
code_of kind (e ∷ kinds) = if same e.0 kind then some e.1 else code_of kind kinds

-- The kind of a code.
unfoldable pub kind_of : List ℕ → List (List ℕ × List ℕ) → Option (List ℕ)
kind_of c [] = none
kind_of c (e ∷ kinds) = if same e.1 c then some e.0 else kind_of c kinds

module _ (lib : Crypto) (key : List ℕ) where
  -- The parts of the body, and the signature of the body.
  unfoldable pub signed_id : List (List ℕ) → List ℕ
  signed_id parts = join colon (parts ++ signature lib key (join colon parts) ∷ [])

  -- `if not hmac.compare_digest(signature, self._signature(body)): raise ...`
  unfoldable pub check_signature : List (List ℕ) → List ℕ → Result SigningError (Unit {0})
  check_signature parts given = do
    agree ← compare_digest given (signature lib key (join colon parts))
    guard agree security_error

  unfoldable pub task_card_id : List ℕ → ℤ → List ℕ → List ℕ → Result SigningError (List ℕ)
  task_card_id view_id revision action nonce = do
    guard (task_card_action action) value_error
    guard (not (bad_nonce nonce)) value_error
    ok (signed_id (codes "tc" ∷ codes "v1" ∷ view_id ∷ print_int revision ∷ action ∷ nonce ∷ []))

  unfoldable pub verify_task_card_parts : List (List ℕ) → Result SigningError TaskCardAction
  verify_task_card_parts (prefix ∷ version ∷ view_id ∷ revision_raw ∷ action ∷ nonce ∷ given ∷ []) =
      do
        guard (same prefix (codes "tc") && same version (codes "v1") && task_card_action action)
            security_error
        check_signature (prefix ∷ version ∷ view_id ∷ revision_raw ∷ action ∷ nonce ∷ []) given
        revision ← or_raise (parse_int lib.decimal 10 revision_raw) security_error
        ok (record { view_id = view_id; revision = revision; action = action; nonce = nonce })
  verify_task_card_parts _ = err security_error

  unfoldable pub verify_task_card_id : List ℕ → Result SigningError TaskCardAction
  verify_task_card_id value = verify_task_card_parts (split colon value)

  unfoldable pub schedule_draft_id : List ℕ → List ℕ → List ℕ → Result SigningError (List ℕ)
  schedule_draft_id draft_id action nonce = do
    guard (draft_action action) value_error
    guard (not (bad_nonce nonce)) value_error
    ok (signed_id (codes "sd" ∷ codes "v1" ∷ draft_id ∷ action ∷ nonce ∷ []))

  unfoldable pub verify_schedule_draft_parts :
      List (List ℕ) → Result SigningError ScheduleDraftAction
  verify_schedule_draft_parts (prefix ∷ version ∷ draft_id ∷ action ∷ nonce ∷ given ∷ []) = do
    guard (same prefix (codes "sd") && same version (codes "v1") && draft_action action)
        security_error
    check_signature (prefix ∷ version ∷ draft_id ∷ action ∷ nonce ∷ []) given
    ok (record { draft_id = draft_id; action = action; nonce = nonce })
  verify_schedule_draft_parts _ = err security_error

  unfoldable pub verify_schedule_draft_id : List ℕ → Result SigningError ScheduleDraftAction
  verify_schedule_draft_id value = verify_schedule_draft_parts (split colon value)

  unfoldable pub modal_id : List ℕ → List ℕ → ℤ → List ℕ → Result SigningError (List ℕ)
  modal_id intent_id kind expires_at nonce = do
    kind_code ← or_raise (code_of kind modal_kinds) value_error
    guard (not (bad_nonce nonce)) value_error
    expires ← base36 expires_at
    let value = signed_id (codes "mi" ∷ codes "v1" ∷ intent_id ∷ kind_code ∷ expires ∷ nonce ∷ [])
    guard (leb (length value) 100) value_error
    ok value

  unfoldable pub verify_modal_parts : List (List ℕ) → Result SigningError ModalAction
  verify_modal_parts (prefix ∷ version ∷ intent_id ∷ kind_code ∷ expires_raw ∷ nonce ∷ given ∷ []) =
      do
        kind ← or_raise (kind_of kind_code modal_kinds) security_error
        guard (same prefix (codes "mi") && same version (codes "v1")) security_error
        check_signature (prefix ∷ version ∷ intent_id ∷ kind_code ∷ expires_raw ∷ nonce ∷ []) given
        expires_at ← or_raise (parse_int lib.decimal 36 expires_raw) security_error
        ok (record { intent_id = intent_id; kind = kind; expires_at = expires_at; nonce = nonce })
  verify_modal_parts _ = err security_error

  unfoldable pub verify_modal_id : List ℕ → Result SigningError ModalAction
  verify_modal_id value = verify_modal_parts (split colon value)

  -- `runtime_generation < 1`
  abbrev pub below_one : ℤ → Bool
  below_one (pos n) = ltb n 1
  below_one (negsuc n) = true

  unfoldable pub catalog_choice_id : List ℕ → List ℕ → ℤ → List ℕ → Result SigningError (List ℕ)
  catalog_choice_id intent_id kind runtime_generation nonce = do
    kind_code ← or_raise (code_of kind catalog_kinds) value_error
    guard (not (below_one runtime_generation) && not (bad_nonce nonce)) value_error
    generation ← base36 runtime_generation
    let value =
        signed_id (codes "cc" ∷ codes "v1" ∷ intent_id ∷ kind_code ∷ generation ∷ nonce ∷ [])
    guard (leb (length value) 100) value_error
    ok value

  unfoldable pub verify_catalog_choice_parts :
      List (List ℕ) → Result SigningError CatalogChoiceAction
  verify_catalog_choice_parts
        (prefix ∷ version ∷ intent_id ∷ kind_code ∷ generation_raw ∷ nonce ∷ given ∷ []) =
      do
        kind ← or_raise (kind_of kind_code catalog_kinds) security_error
        guard (same prefix (codes "cc") && same version (codes "v1")) security_error
        check_signature (prefix ∷ version ∷ intent_id ∷ kind_code ∷ generation_raw ∷ nonce ∷ [])
            given
        generation ← or_raise (parse_int lib.decimal 36 generation_raw) security_error
        ok (record {
          intent_id = intent_id;
          kind = kind;
          runtime_generation = generation;
          nonce = nonce;
        })
  verify_catalog_choice_parts _ = err security_error

  unfoldable pub verify_catalog_choice_id : List ℕ → Result SigningError CatalogChoiceAction
  verify_catalog_choice_id value = verify_catalog_choice_parts (split colon value)
