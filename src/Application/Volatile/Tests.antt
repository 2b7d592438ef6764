-- ===== src/Application/Volatile/Tests.antt =====
-- An input put for a Turn, and the instance of the theorem about the bound.
use code_xd.Prelude.{ℕ, ◌≤◌, some, [], ◌∷◌, List, String, length, arith}
use code_xd.Application.Volatile.{VolatileTurn, assign, new_turn}
use code_xd.Application.Volatile.Bounds.{assign-bound}

abbrev one_turn : List (String × VolatileTurn String ℕ)
one_turn = ("a", new_turn) ∷ []

assign-bound_example : length (assign "b" (λ t. record t { input = some "hello" }) one_turn) ≤ 1024
assign-bound_example =
    assign-bound "b" (λ t. record t { input = some "hello" }) one_turn (omega arith)
