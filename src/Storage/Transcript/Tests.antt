-- ===== src/Storage/Transcript/Tests.antt =====
-- A Turn with a commentary after its answer, and the instance of the theorem about transcripts.
use code_xd.Prelude.{true, ◌≡◌, refl, some, [], ◌∷◌, String, get}
use code_xd.Storage.Transcript.{
  Ast, Block, dictionary, string, boolean, Visible, visible_text_blocks, visible_from,
  visible_block, visible_phase, last_where, canonical_among, terminal_parts,
  terminal_assistant_transcript, without, join,
}
use code_xd.Rendering.Split.{is_space}

abbrev message : String → String → Block
message phase words = dictionary (
    ("kind", string "text")
    ∷ ("completed", boolean true)
    ∷ ("phase", string phase)
    ∷ ("text", string words)
    ∷ [])

abbrev answer_first : Ast
answer_first = record {
  blocks = some (message "final_answer" "Done." ∷ message "commentary" "Bye." ∷ []);
}

abbrev answer : Visible
answer = record { index = 0; phase = some (string "final_answer"); content = "Done." }

reads : (terminal_assistant_transcript answer_first "").visible_text ≡ "Bye.\n\nDone."
unfolding canonical_among last_where visible_text_blocks visible_from visible_block visible_phase
    get is_space terminal_assistant_transcript terminal_parts without join
reads = refl
