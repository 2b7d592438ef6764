-- ===== src/Storage/Transcript.antt =====
-- storage/transcript.py: the text that a reader of the thread sees of a Turn's messages. A block of
-- the content's tree is a dictionary whose values are texts, Booleans, numbers or null, or is no
-- dictionary at all. A text is stripped to nothing when `is_space` holds of each of its code points.
mod Tests
pub mod Selection
use code_xd.Prelude.{
  ℕ, suc, Bool, true, false, not, ◌&&◌, ◌||◌, Option, none, some, List, [], ◌∷◌, ◌++◌, String,
  str_eq, codes, all, map, if◌then◌else◌, get, ◌==◌,
}
use Prim.Native.String.{◌++◌ as str_append}
use code_xd.Rendering.Split.{is_space}

pub data Value : Type 0 where
  string : String → Value
  boolean : Bool → Value
  number : ℕ → Value
  null : Value

pub data Block : Type 0 where
  dictionary : List (String × Value) → Block
  not_a_dictionary : Block

-- The tree's `blocks`, or none when they are no list.
pub record Ast : Type 0 where
  pub blocks : Option (List Block)

-- `candidate.get("kind") == "text"`
abbrev pub is_text : String → Option Value → Bool
is_text t (some (string s)) = str_eq s t
is_text t _ = false

-- `candidate.get("completed") is True`
abbrev pub is_true : Option Value → Bool
is_true (some (boolean true)) = true
is_true _ = false

-- `phase is None`, also when the key is missing
abbrev pub is_null : Option Value → Bool
is_null none = true
is_null (some null) = true
is_null _ = false

-- `_VISIBLE_PHASES`
unfoldable pub visible_phase : Option Value → Bool
visible_phase phase = is_null phase || is_text "commentary" phase || is_text "final_answer" phase

-- `not text.strip()`
abbrev pub is_blank : String → Bool
is_blank s = all is_space (codes s)

-- An entry of `_visible_text_blocks`: the index, the phase and the text.
pub record Visible : Type 0 where
  pub index : ℕ
  pub phase : Option Value
  pub content : String

abbrev pub text_of : Option Value → Option String
text_of (some (string s)) = if is_blank s then none else some s
text_of _ = none

abbrev pub visible_with : ℕ → Option Value → Option String → Option Visible
visible_with index phase none = none
visible_with index phase (some s) = some record { index = index; phase = phase; content = s }

unfoldable pub visible_block : Bool → ℕ → Block → Option Visible
visible_block completed_only index not_a_dictionary = none
visible_block completed_only index (dictionary d) =
    if not (is_text "text" (get "kind" d))
    then none
    else if completed_only && not (is_true (get "completed" d))
    then none
    else if not (visible_phase (get "phase" d))
    then none
    else visible_with index (get "phase" d) (text_of (get "text" d))

abbrev pub keep_some : Option Visible → List Visible → List Visible
keep_some none rest = rest
keep_some (some v) rest = v ∷ rest

unfoldable pub visible_from : Bool → ℕ → List Block → List Visible
visible_from completed_only index [] = []
visible_from completed_only index (b ∷ blocks) =
    keep_some (visible_block completed_only index b)
      (visible_from completed_only (suc index) blocks)

unfoldable pub visible_text_blocks : Bool → Ast → List Visible
visible_text_blocks completed_only ast = elim ast.blocks [
  | none ↦ []
  | some blocks ↦ visible_from completed_only 0 blocks
]

-- `separator.join(parts)`
unfoldable pub join : String → List String → String
join separator [] = ""
join separator (p ∷ []) = p
join separator (p ∷ q ∷ parts) = str_append p (str_append separator (join separator (q ∷ parts)))

abbrev pub contents : List Visible → List String
contents = map (λ v. v.content)

unfoldable pub visible_assistant_text : Ast → Bool → String
visible_assistant_text ast completed_only =
    join "\n\n" (contents (visible_text_blocks completed_only ast))

-- `[entry for entry in blocks if test][-1]`, if any
unfoldable pub last_where : (Visible → Bool) → List Visible → Option Visible
last_where test [] = none
last_where test (v ∷ vs) = elim (last_where test vs) [
  | some w ↦ some w
  | none ↦ if test v then some v else none
]

abbrev pub is_final : Visible → Bool
is_final v = is_text "final_answer" v.phase

abbrev pub is_compatible : Visible → Bool
is_compatible v = is_null v.phase

unfoldable pub canonical_among : List Visible → Option Visible
canonical_among vs = elim (last_where is_final vs) [
  | some w ↦ some w
  | none ↦ last_where is_compatible vs
]

-- `_canonical_final_block`
abbrev pub canonical_final_block : Ast → Option Visible
canonical_final_block ast = canonical_among (visible_text_blocks true ast)

pub record Transcript : Type 0 where
  pub visible_text : String
  pub canonical_final_answer : Option String

-- `[text for index, _block, text in blocks if index != selected_index]`
unfoldable pub without : ℕ → List Visible → List Visible
without index [] = []
without index (v ∷ vs) = if v.index == index then without index vs else v ∷ without index vs

unfoldable pub terminal_parts : List Visible → Option Visible → String → List String
terminal_parts vs (some selected) fallback =
    contents (without selected.index vs) ++ selected.content ∷ []
terminal_parts vs none fallback =
    if is_blank fallback then contents vs else contents vs ++ fallback ∷ []

abbrev pub content_of : Option Visible → Option String
content_of none = none
content_of (some v) = some v.content

unfoldable pub terminal_assistant_transcript : Ast → String → Transcript
terminal_assistant_transcript ast fallback = record {
  visible_text =
      join "\n\n"
        (terminal_parts (visible_text_blocks true ast) (canonical_final_block ast) fallback);
  canonical_final_answer = content_of (canonical_final_block ast);
}
