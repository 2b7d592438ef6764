-- ===== src/Application/Volatile.antt =====
-- application/volatile_turns.py: the content of the Turns that a process holds in memory, one entry
-- for a Turn, the oldest entry dropped when there are too many. `Input` is a Turn's input and `Usage`
-- its usage, which the store only keeps. A read gives back the store too, since it may add an entry.
mod Tests
pub mod Bounds
use code_xd.Prelude.{
  ℕ, Bool, true, false, not, Option, none, some, List, [], ◌∷◌, String, if◌then◌else◌, ltb, leb,
  length, get, put, pop, or_default, is_some,
}
use code_xd.Storage.Transcript.{Ast, terminal_assistant_transcript, visible_assistant_text}

abbrev pub max_volatile_turns : ℕ
max_volatile_turns = 1024

pub record FinalContent : Type 0 where
  pub visible_text : String
  pub final_answer_text : Option String

pub record VolatileTurn (Input Usage : Type 0) : Type 0 where
  pub input : Option Input
  pub content_ast : Ast
  pub latest_usage : Option Usage
  pub final : Option FinalContent

-- `{"schema_version": 1, "blocks": []}`
abbrev pub empty_ast : Ast
empty_ast = record { blocks = some [] }

abbrev pub final_of : Ast → String → FinalContent
final_of ast fallback = record {
  visible_text = (terminal_assistant_transcript ast fallback).visible_text;
  final_answer_text = (terminal_assistant_transcript ast fallback).canonical_final_answer;
}

module _ {Input Usage : Type 0} where
  abbrev pub new_turn : VolatileTurn Input Usage
  new_turn = record { input = none; content_ast = empty_ast; latest_usage = none; final = none }

  -- `self._turns.pop(next(iter(self._turns)), None)`
  abbrev pub drop_oldest :
      List (String × VolatileTurn Input Usage) → List (String × VolatileTurn Input Usage)
  drop_oldest [] = []
  drop_oldest (x ∷ turns) = pop x.0 (x ∷ turns)

  -- `_entry`: the store with an entry for the Turn; the entry itself is read with `entry_of`.
  unfoldable pub with_entry :
      String → List (String × VolatileTurn Input Usage) → List (String × VolatileTurn Input Usage)
  with_entry turn_id turns =
      if is_some (get turn_id turns)
      then turns
      else put turn_id new_turn
          (if leb max_volatile_turns (length turns) then drop_oldest turns else turns)

  abbrev pub entry_of : String → List (String × VolatileTurn Input Usage) → VolatileTurn Input Usage
  entry_of turn_id turns = or_default (get turn_id turns) new_turn

  -- An assignment to fields of `self._entry(turn_id)`.
  unfoldable pub assign :
      String
      → (VolatileTurn Input Usage → VolatileTurn Input Usage)
      → List (String × VolatileTurn Input Usage)
      → List (String × VolatileTurn Input Usage)
  assign turn_id f turns =
      put turn_id (f (entry_of turn_id (with_entry turn_id turns))) (with_entry turn_id turns)

  unfoldable pub put_input :
      String
      → Input
      → List (String × VolatileTurn Input Usage)
      → List (String × VolatileTurn Input Usage)
  put_input turn_id turn_input = assign turn_id (λ t. record t { input = some turn_input })

  pub input : String → List (String × VolatileTurn Input Usage) → Option Input
  input turn_id turns = elim (get turn_id turns) [ none ↦ none | some t ↦ t.input ]

  unfoldable pub drop_input :
      String → List (String × VolatileTurn Input Usage) → List (String × VolatileTurn Input Usage)
  drop_input turn_id turns = elim (get turn_id turns) [
    | none ↦ turns
    | some t ↦ put turn_id (record t { input = none }) turns
  ]

  unfoldable pub content_ast :
      String
      → List (String × VolatileTurn Input Usage)
      → List (String × VolatileTurn Input Usage) × Ast
  content_ast turn_id turns =
      (with_entry turn_id turns, (entry_of turn_id (with_entry turn_id turns)).content_ast)

  unfoldable pub save_content_ast :
      String
      → Ast
      → List (String × VolatileTurn Input Usage)
      → List (String × VolatileTurn Input Usage)
  save_content_ast turn_id ast = assign turn_id (λ t. record t { content_ast = ast })

  unfoldable pub save_usage :
      String
      → Usage
      → List (String × VolatileTurn Input Usage)
      → List (String × VolatileTurn Input Usage)
  save_usage turn_id latest = assign turn_id (λ t. record t { latest_usage = some latest })

  pub usage : String → List (String × VolatileTurn Input Usage) → Option Usage
  usage turn_id turns = elim (get turn_id turns) [ none ↦ none | some t ↦ t.latest_usage ]

  pub preview : String → List (String × VolatileTurn Input Usage) → String
  preview turn_id turns = elim (get turn_id turns) [
    | none ↦ ""
    | some t ↦ visible_assistant_text t.content_ast false
  ]

  abbrev pub with_final : FinalContent → VolatileTurn Input Usage → VolatileTurn Input Usage
  with_final content t = record t { final = some content; input = none; content_ast = empty_ast }

  -- What `finalize` does with the entry.
  abbrev pub finalize_entry :
      String
      → String
      → Option FinalContent
      → Ast
      → List (String × VolatileTurn Input Usage)
      → List (String × VolatileTurn Input Usage) × FinalContent
  finalize_entry turn_id fallback (some content) ast turns = (turns, content)
  finalize_entry turn_id fallback none ast turns = (
    put turn_id (with_final (final_of ast fallback) (entry_of turn_id turns)) turns,
    final_of ast fallback,
  )

  unfoldable pub finalize :
      String
      → String
      → List (String × VolatileTurn Input Usage)
      → List (String × VolatileTurn Input Usage) × FinalContent
  finalize turn_id fallback turns =
      let t = entry_of turn_id (with_entry turn_id turns) in
      finalize_entry turn_id fallback t.final t.content_ast (with_entry turn_id turns)

  pub final : String → List (String × VolatileTurn Input Usage) → Option FinalContent
  final turn_id turns = elim (get turn_id turns) [ none ↦ none | some t ↦ t.final ]

  unfoldable pub put_final :
      String
      → String
      → Option String
      → List (String × VolatileTurn Input Usage)
      → List (String × VolatileTurn Input Usage)
  put_final turn_id visible_text final_answer_text =
      assign turn_id
        (with_final record { visible_text = visible_text; final_answer_text = final_answer_text })

  abbrev pub discard :
      String → List (String × VolatileTurn Input Usage) → List (String × VolatileTurn Input Usage)
  discard = pop
