-- ===== src/Storage/Turns/Rows.antt =====
-- What each operation does to the table of Turns: it leaves the table alone, or changes one row,
-- lawfully.
use code_xd.Prelude.{
  Bool, true, false, not, ◌&&◌, ◌||◌, some, List, String, ◌≡◌, ◌⊎◌, opt_is, is_some,
}
use code_xd.Domain.TurnState.{
  TurnState, queued, starting, running, cancelling, terminal, active, is_queued, Moves,
}
use code_xd.Storage.Schema.{Turn, Db, find_turn, update_turn}
use code_xd.Storage.Turns.{busy}

abbrev pub leased : Turn → Bool
leased t = is_some t.runtime_lease_id && is_some t.runtime_generation

abbrev pub released : Turn → Bool
released t =
    not (is_some t.queued_input_text)
    && not (is_some t.queued_skill_inputs)
    && is_some t.ended_at
    && is_some t.terminal_code

-- What a row holds in each state: an active Turn has its lease, a running one its identity at the
-- provider, a Turn that is being cancelled an origin; a terminal one is dated, and its input is gone.
abbrev pub row_ok_at : TurnState → Turn → Bool
row_ok_at queued t = true
row_ok_at starting t = leased t
row_ok_at running t = leased t && is_some t.provider_turn_id
row_ok_at cancelling t = leased t && is_some t.interrupt_origin
row_ok_at _ t = released t

abbrev pub row_ok : Turn → Bool
row_ok t = row_ok_at t.state t

-- No interrupt can be claimed any more.
abbrev pub spent : Turn → Bool
spent t =
    terminal t.state
    || not (is_queued t.state)
      && is_some t.interrupt_reason
      && not (opt_is t.interrupt_reason "requested")

pub record Lawful (turns : List Turn) (r s : Turn) : Type 0 where
  pub same_conversation : s.conversation_id ≡ r.conversation_id
  pub moves : Moves r.state s.state
  pub keeps_row : row_ok r ≡ true → row_ok s ≡ true
  pub keeps_spent : spent r ≡ true → spent s ≡ true
  pub exclusive :
      active s.state ≡ true → (active r.state ≡ true) ⊎ (busy r.id r.conversation_id turns ≡ false)

pub data Change (d d' : Db) : Type 0 where
  nothing : d'.turns ≡ d.turns → Change d d'
  one_row :
      (turn_id : String) (r : Turn) (f : Turn → Turn)
      → ((t : Turn) → (f t).id ≡ t.id)
      → find_turn turn_id d.turns ≡ some r
      → r.id ≡ turn_id
      → d'.turns ≡ update_turn turn_id f d.turns
      → Lawful d.turns r (f r)
      → Change d d'
