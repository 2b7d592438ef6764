-- ===== src/Application/Volatile/Bounds.antt =====
-- The bound on the store.
use code_xd.Prelude.{
  ◌-◌, ◌≤◌, ◌≡◌, refl, true, List, [], ◌∷◌, String, is_some, if◌then◌else◌, leb, length, get, pop,
  length-put, arith, Bool-cases, inl, inr, get-put,
}
use text.Mathlib.TextPositions.{eq_refl}
use code_xd.Application.Volatile.{VolatileTurn, new_turn, drop_oldest, with_entry, assign, entry_of}

module _ {Input Usage : Type 0} where
  drop_oldest-shorter :
      (turns : List (String × VolatileTurn Input Usage))
      → length (drop_oldest turns) ≤ length turns - 1
  unfolding pop
  drop_oldest-shorter [] = omega arith
  drop_oldest-shorter (x ∷ turns) = rw (eq_refl x.0) (omega arith)

  with_entry-bound :
      (k : String) (turns : List (String × VolatileTurn Input Usage))
      → length turns ≤ 1024
      → length (with_entry k turns) ≤ 1024
  unfolding with_entry
  with_entry-bound k turns h = elim (Bool-cases (leb 1024 (length turns))) [
    | inl full ↦
        ground (arith, full, drop_oldest-shorter turns, length-put k new_turn (drop_oldest turns))
    | inr room ↦ ground (arith, room, length-put k new_turn turns)
  ]

  with_entry-present :
      (k : String) (turns : List (String × VolatileTurn Input Usage))
      → is_some (get k (with_entry k turns)) ≡ true
  unfolding with_entry
  with_entry-present k turns = elim (Bool-cases (is_some (get k turns))) [
    | inl there ↦ rw there there
    | inr absent ↦ rw absent (
        rw
          (
            get-put k k new_turn (if leb 1024 (length turns) then drop_oldest turns else turns),
            eq_refl k,
          )
          refl)
  ]

  -- An assignment to a Turn's entry, made when there is none, keeps the store within 1024 entries.
  pub assign-bound :
      (k : String) (f : VolatileTurn Input Usage → VolatileTurn Input Usage)
      (turns : List (String × VolatileTurn Input Usage))
      → length turns ≤ 1024
      → length (assign k f turns) ≤ 1024
  unfolding assign
  assign-bound k f turns h = ground (
    arith,
    with_entry-present k turns,
    with_entry-bound k turns h,
    length-put k (f (entry_of k (with_entry k turns))) (with_entry k turns),
  )
