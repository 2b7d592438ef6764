-- ===== src/Storage/Leases/Lost.antt =====
-- What the loss of a Runtime does to the Turns.
use code_xd.Prelude.{
  ℕ, ◌≡◌, refl, sym, ◌∙◌, ap, subst, inl, inr, true, false, Option, none, some, List, [], ◌∷◌,
  String, arith, if◌then◌else◌, any, option_map, Bool-cases, ok, from_some, ok-injective,
}
use code_xd.Domain.TurnState.{interrupted, active, transition_allowed, Moves}
use code_xd.Storage.Schema.{
  Turn, Lease, Db, turn_key, find_turn, find_lease, update_where, find-update_where,
  key_count-update_where, total-update_where,
}
use code_xd.Storage.Turns.Rows.{row_ok}
use code_xd.Storage.Turns.Trace.{IsValid, active_in}
use code_xd.Storage.Leases.{runs_under, lost_turn, mark_runtime_unhealthy}

module _ (lease_id code : String) (now : ℕ) (lease : Lease) where
  -- The row that a Turn has after the loss.
  abbrev pub after_loss : Turn → Turn
  after_loss t = if runs_under lease_id lease.generation t then lost_turn code now t else t

  runs_under-active :
      (t : Turn) → runs_under lease_id lease.generation t ≡ true → active t.state ≡ true
  unfolding runs_under
  runs_under-active t h = ground arith

  lost_turn-moves :
      (t : Turn)
      → runs_under lease_id lease.generation t ≡ true
      → transition_allowed t.state interrupted ≡ true
  unfolding runs_under
  lost_turn-moves t h = ground arith

  none_left :
      (turns : List Turn)
      → any
          (runs_under lease_id lease.generation)
          (update_where (runs_under lease_id lease.generation) (lost_turn code now) turns)
        ≡ false
  unfolding update_where runs_under
  none_left [] = refl
  none_left (t ∷ turns) = ground (arith, none_left turns)

  seen-all :
      (d d' : Db)
      → d'.turns ≡ update_where (runs_under lease_id lease.generation) (lost_turn code now) d.turns
      → (j : String) → find_turn j d'.turns ≡ option_map after_loss (find_turn j d.turns)
  seen-all d d' e j = rw e (find-update_where turn_key _ (lost_turn code now) (λ t. refl) j d.turns)

  row_after-ok :
      (t : Turn) (o : Option Turn)
      → ((u : Turn) → o ≡ some u → row_ok u ≡ true)
      → some t ≡ option_map after_loss o
      → row_ok t ≡ true
  row_after-ok t none h e = cc
  row_after-ok t (some u) h e = ground (arith, h u refl)

  lost-IsValid :
      (d d' : Db)
      → d'.turns ≡ update_where (runs_under lease_id lease.generation) (lost_turn code now) d.turns
      → IsValid d
      → IsValid d'
  lost-IsValid d d' e v = record {
    keys = λ k. rw e (
        rw (key_count-update_where turn_key _ (lost_turn code now) (λ t. refl) k d.turns)
          (v.keys k));
    exclusive = λ c. rw e (
        omega (
          arith,
          v.exclusive c,
          total-update_where (runs_under lease_id lease.generation) (lost_turn code now)
              (active_in c) (λ t h. omega arith) d.turns,
        ));
    rows = λ j t f. row_after-ok t (find_turn j d.turns) (v.rows j) (sym f ∙ seen-all d d' e j);
  }

-- The Turns after the loss of a Runtime's lease.
pub record Lost (lease_id code : String) (now : ℕ) (lease : Lease) (d d' : Db) : Type 0 where
  pub valid : IsValid d'
  pub none_runs : any (runs_under lease_id lease.generation) d'.turns ≡ false
  pub each :
      (j : String)
      → find_turn j d'.turns ≡ option_map (after_loss lease_id code now lease) (find_turn j d.turns)
  pub allowed : (t : Turn) → Moves t.state (after_loss lease_id code now lease t).state

after_loss-Moves :
    (lease_id code : String) (now : ℕ) (lease : Lease) (t : Turn)
    → Moves t.state (after_loss lease_id code now lease t).state
after_loss-Moves lease_id code now lease t =
    elim (Bool-cases (runs_under lease_id lease.generation t)) [
      | inl runs ↦ inr (ground (arith, runs, lost_turn-moves lease_id code now lease t runs))
      | inr idle ↦ inl (ground (arith, idle))
    ]

-- When the lease of a Runtime is marked as lost, the active Turns of that lease and generation, and
-- no others, are interrupted, along the table of transitions; none of them is left active, every
-- other Turn stays as it was, and the table of Turns stays valid.
pub mark_runtime_unhealthy-Lost :
    (lease_id code : String) (now : ℕ) (lease : Lease) (ids : List String) (d d' : Db)
    → IsValid d
    → find_lease lease_id d.leases ≡ some lease
    → mark_runtime_unhealthy lease_id code now d ≡ ok (d', ids)
    → Lost lease_id code now lease d d'
unfolding mark_runtime_unhealthy
mark_runtime_unhealthy-Lost lease_id code now lease ids d d' v f h =
    from_some (find_lease lease_id d.leases) _ _ h (λ l found k.
      let same : l ≡ lease = ground (arith, found, f) in
      let e : d'.turns
          ≡ update_where (runs_under lease_id lease.generation) (lost_turn code now) d.turns =
        subst
          (λ (x : Lease).
            d'.turns ≡ update_where (runs_under lease_id x.generation) (lost_turn code now) d.turns)
          same (sym (ap (λ (p : Db × List String). p.0.turns) (ok-injective k))) in
      record {
        valid = lost-IsValid lease_id code now lease d d' e v;
        none_runs = rw e (none_left lease_id code now lease d.turns);
        each = seen-all lease_id code now lease d d' e;
        allowed = λ t. after_loss-Moves lease_id code now lease t;
      })
