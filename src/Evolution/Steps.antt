-- ===== src/Evolution/Steps.antt =====
-- What happens to the governance state of openclaw_memory_os/evolution.py over time: cycles are
-- recorded, promotions are tried, and rollbacks happen, in any order.
use openclaw_memory_os.Prelude.{ℕ, ◌+◌, Option, List, [], ◌∷◌, nat_eq, string_eq, if◌then◌else◌}
use openclaw_memory_os.Evolution.{
  Eval, Window, State, record_cycle_result, can_promote, after_promotion, after_rollback,
}

pub data Step (F : Type 0) : Type 0 where
  cycle : Window → Step F
  attempt : (query_count now : ℕ) → Option ℕ → Eval F → Step F
  rollback : (now : ℕ) → Option (Eval F) → Step F

module _ {F : Type 0} where
  -- The end of `run_evolution_cycle`: a promotion that is not allowed leaves the state.
  abbrev pub try_promotion : (query_count now : ℕ) → Option ℕ → Eval F → State F → State F
  try_promotion q now v e s = if can_promote q now s v then after_promotion now e s else s

  abbrev pub step : Step F → State F → State F
  step (cycle w) s = record_cycle_result w.cycle w.result w.candidate_version s
  step (attempt q now v e) s = try_promotion q now v e s
  step (rollback now e) s = after_rollback now e s

  -- The latest step comes first.
  abbrev pub run : List (Step F) → State F → State F
  run [] s = s
  run (x ∷ xs) s = step x (run xs s)

  abbrev pub promoted_by : Step F → State F → ℕ
  promoted_by (attempt q now v e) s = if can_promote q now s v then 1 else 0
  promoted_by _ s = 0

  -- How many promotions a run has.
  abbrev pub promotions : List (Step F) → State F → ℕ
  promotions [] s = 0
  promotions (x ∷ xs) s = promoted_by x (run xs s) + promotions xs s

  -- Runs without a promotion.
  pub data IsQuiet : List (Step F) → Type 0 where
    quiet_nil : IsQuiet []
    quiet_cycle : (w : Window) (xs : List (Step F)) → IsQuiet xs → IsQuiet (cycle w ∷ xs)
    quiet_rollback :
        (now : ℕ) (e : Option (Eval F)) (xs : List (Step F))
        → IsQuiet xs
        → IsQuiet (rollback now e ∷ xs)
