-- ===== src/Workflow/Spending.antt =====
-- What the executions of a run cost that packages/longhub-core/src/workflow-engine.ts asks for.
use longhub_platform.Common.{
  ℕ, ◌+◌, ◌≤◌, none, some, List, [], ◌∷◌, ◌++◌, ◌≡◌, refl, ap, arith, or_else,
}
use longhub_platform.Workflow.Engine.{Dependencies, Execution}

-- What an execution costs, as far as the answer says.
abbrev pub price : Dependencies → Execution → ℕ
price env x = elim (env.authorize_and_execute x) [ none ↦ 0 | some a ↦ or_else a.cost_micros 0 ]

abbrev pub spent : Dependencies → List Execution → ℕ
spent env [] = 0
spent env (x ∷ xs) = price env x + spent env xs

abbrev pub all_but_last : List Execution → List Execution
all_but_last [] = []
all_but_last (x ∷ []) = []
all_but_last (x ∷ y ∷ xs) = x ∷ all_but_last (y ∷ xs)

pub spent-append :
    (env : Dependencies) (xs : List Execution) (x : Execution)
    → spent env (xs ++ x ∷ []) ≡ spent env xs + price env x
spent-append env [] x = omega arith
spent-append env (y ∷ xs) x = omega (arith, spent-append env xs x)

pub spent-all_but_last-le :
    (env : Dependencies) (xs : List Execution) → spent env (all_but_last xs) ≤ spent env xs
spent-all_but_last-le env [] = omega arith
spent-all_but_last-le env (x ∷ []) = omega arith
spent-all_but_last-le env (x ∷ y ∷ xs) = omega (arith, spent-all_but_last-le env (y ∷ xs))

pub all_but_last-append : (xs : List Execution) (x : Execution) → all_but_last (xs ++ x ∷ []) ≡ xs
all_but_last-append [] x = refl
all_but_last-append (y ∷ []) x = refl
all_but_last-append (y ∷ z ∷ xs) x = ap (λ ys. y ∷ ys) (all_but_last-append (z ∷ xs) x)
