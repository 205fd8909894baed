-- ===== src/Tests/Evolution.antt =====
-- Examples for the governance of openclaw_memory_os/evolution.py.
use openclaw_memory_os.Prelude.{
  ℕ, ◌+◌, ◌*◌, ◌≤◌, ◌≡◌, refl, true, none, some, List, [], ◌∷◌, arith, nat_eq, string_eq, list_eq,
  pair_eq, ok,
}
use openclaw_memory_os.Policy.Files.{Store}
use openclaw_memory_os.Policy.Store.{revert, restored_from}
use openclaw_memory_os.Policy.Files.{save, compute_checksum}
use openclaw_memory_os.Evolution.{
  Eval, State, Window, passed, record_cycle_result, can_promote, after_rollback,
  two_consecutive_pass_windows, one_second, distance,
}
use openclaw_memory_os.Evolution.Steps.{Step, cycle, attempt, promotions}
use openclaw_memory_os.Evolution.Windows.{recorded, can_promote-run}
use openclaw_memory_os.Evolution.Budget.{promotions_run_out}
use openclaw_memory_os.Evolution.Rollback.{
  check_rollback, absolute_trigger, relative_trigger, IsMonotone, check_rollback-reverts,
}
use openclaw_memory_os.Tests.Data.{
  fixed, policy_digest, first_policy, first_store, working, sample_eval, first_state,
}

abbrev pass : (minutes version : ℕ) → Window
pass minutes version = record {
  cycle = minutes * 60_000_000;
  result = passed;
  candidate_version = some version;
}

abbrev two_passes : List (Step ℕ)
two_passes = cycle (pass 15 2) ∷ cycle (pass 1 2) ∷ []

abbrev e1 : Eval ℕ
e1 = sample_eval 500_000 500_000

can_promote-run_example :
    (30 ≤ 40)
    × ((a b : Window) × (r : List (Step ℕ)) × (recorded two_passes first_state
          ≡ cycle b ∷ cycle a ∷ r)
        × (a.result ≡ passed)
        × (b.result ≡ passed)
        × (a.candidate_version ≡ some 2)
        × (b.candidate_version ≡ some 2)
        × (600 * one_second ≤ distance a.cycle b.cycle))
unfolding can_promote two_consecutive_pass_windows record_cycle_result
can_promote-run_example = can_promote-run 40 1_000_000_000 2 two_passes first_state refl refl

promotions_run_out_example :
    promotions (attempt 40 1_000_000_000 (some 2) e1 ∷ two_passes) first_state + 0 ≤ 2
promotions_run_out_example =
    promotions_run_out (attempt 40 1_000_000_000 (some 2) e1 ∷ two_passes) first_state (omega arith)

-- Eight days after the promotion.
abbrev late_passes : List (Step ℕ)
late_passes = cycle (pass 11_520 3) ∷ cycle (pass 11_500 3) ∷ []

abbrev rolled_back_once : State ℕ
rolled_back_once = record first_state { consecutive_rollbacks = 1 }

abbrev better : Eval ℕ
better = sample_eval 520_000 500_000

-- Far fewer useful hits than before.
abbrev worse : Eval ℕ
worse = sample_eval 500_000 200_000

abbrev reverted : Store ℕ
reverted = (revert policy_digest first_policy working first_store).1

check-worse :
    check_rollback fixed policy_digest first_policy working 7 (some worse) first_state first_store
    ≡ (ok true, after_rollback 7 (some worse) first_state, reverted)
unfolding check_rollback absolute_trigger relative_trigger revert save compute_checksum
check-worse = refl

check_rollback-reverts_example :
    (reverted.policy ≡ restored_from policy_digest first_policy none)
    × (reverted.candidate ≡ none)
    × (reverted.previous ≡ none)
    × ((after_rollback 7 (some worse) first_state).pass_windows ≡ [])
    × ((after_rollback 7 (some worse) first_state).consecutive_rollbacks ≡ 1)
check_rollback-reverts_example =
    check_rollback-reverts fixed policy_digest first_policy working 7 (some worse) first_state
      (after_rollback 7 (some worse) first_state) first_store reverted check-worse

fixed-IsMonotone : IsMonotone fixed policy_digest
fixed-IsMonotone = record {
  drop = λ x n k. ground arith;
  rise = λ x n k. ground arith;
  double = λ x. ground arith;
}
