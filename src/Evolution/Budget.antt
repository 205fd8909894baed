-- ===== src/Evolution/Budget.antt =====
-- How often a policy is promoted: the budget, the cooldown and the circuit breaker.
use openclaw_memory_os.Prelude.{
  ℕ, ◌+◌, ◌-◌, ◌*◌, ◌/◌, ◌≤◌, ◌≡◌, refl, ◌∙◌, true, Option, some, List, [], ◌∷◌, map, arith, nat_eq,
  string_eq,
}
use openclaw_memory_os.Evolution.{
  Eval, CycleResult, Window, State, record_cycle_result, can_promote, after_promotion,
  after_rollback, one_day, one_hour,
}
use openclaw_memory_os.Evolution.Steps.{
  Step, cycle, attempt, rollback, step, run, promoted_by, promotions, IsQuiet, quiet_cycle,
  quiet_rollback,
}

module _ {F : Type 0} where
  record-promotion_count :
      (now : ℕ) (r : CycleResult) (v : Option ℕ) (s : State F)
      → (record_cycle_result now r v s).promotion_count_30d ≡ s.promotion_count_30d
  unfolding record_cycle_result
  record-promotion_count now r v s = ground arith

  record-last_promotion_at :
      (now : ℕ) (r : CycleResult) (v : Option ℕ) (s : State F)
      → (record_cycle_result now r v s).last_promotion_at ≡ s.last_promotion_at
  unfolding record_cycle_result
  record-last_promotion_at now r v s = ground arith

  step-promotion_count :
      (x : Step F) (s : State F)
      → s.promotion_count_30d ≤ 2
      → ((step x s).promotion_count_30d ≡ promoted_by x s + s.promotion_count_30d)
        × ((step x s).promotion_count_30d ≤ 2)
  unfolding after_promotion after_rollback can_promote
  step-promotion_count (cycle w) s h =
      ground (arith, record-promotion_count w.cycle w.result w.candidate_version s)
  step-promotion_count (attempt q now v e) s h = ground arith
  step-promotion_count (rollback now e) s h = ground arith

  run-promotion_count :
      (xs : List (Step F)) (s : State F)
      → s.promotion_count_30d ≤ 2
      → ((run xs s).promotion_count_30d ≡ promotions xs s + s.promotion_count_30d)
        × ((run xs s).promotion_count_30d ≤ 2)
  run-promotion_count [] s h = (omega arith, h)
  run-promotion_count (x ∷ xs) s h =
      let (a, b) = run-promotion_count xs s h in
      let (c, d) = step-promotion_count x (run xs s) b in (omega arith, d)

  -- However many cycles, attempts and rollbacks follow each other, and however much time passes
  -- between them, there are never more than two promotions, those counted before included, if these
  -- were two at most: the count that is called one of thirty days never goes down.
  pub promotions_run_out :
      (xs : List (Step F)) (s : State F)
      → s.promotion_count_30d ≤ 2
      → promotions xs s + s.promotion_count_30d ≤ 2
  promotions_run_out xs s h = let (a, b) = run-promotion_count xs s h in omega arith

  quiet-last_promotion_at :
      (xs : List (Step F)) (s : State F)
      → IsQuiet xs
      → (run xs s).last_promotion_at ≡ s.last_promotion_at
  unfolding after_rollback
  quiet-last_promotion_at [] s q = refl
  quiet-last_promotion_at (_ ∷ _) s (quiet_cycle w xs q) =
      record-last_promotion_at w.cycle w.result w.candidate_version (run xs s)
      ∙ quiet-last_promotion_at xs s q
  quiet-last_promotion_at (_ ∷ _) s (quiet_rollback now e xs q) = quiet-last_promotion_at xs s q

  can_promote-cooled :
      (query_count now t : ℕ) (s : State F) (v : Option ℕ)
      → can_promote query_count now s v ≡ true
      → s.last_promotion_at ≡ some t
      → 7 ≤ (now - t) / one_day
  unfolding can_promote
  can_promote-cooled query_count now t s v h l = ground arith

  -- After a promotion, whatever cycles and rollbacks follow, the next one is allowed no sooner than
  -- seven days later.
  pub promotion_cooldown :
      (query_count now t : ℕ) (v : Option ℕ) (e : Eval F) (xs : List (Step F)) (s : State F)
      → IsQuiet xs
      → can_promote query_count now (run xs (after_promotion t e s)) v ≡ true
      → 7 * one_day ≤ now - t
  unfolding after_promotion
  promotion_cooldown query_count now t v e xs s q h =
      let l = quiet-last_promotion_at xs (after_promotion t e s) q in
      omega (arith, can_promote-cooled query_count now t (run xs (after_promotion t e s)) v h l)

  -- Whoever rolls back twice in a row opens the circuit breaker.
  record-rollbacks :
      (now : ℕ) (r : CycleResult) (v : Option ℕ) (s : State F)
      → ((record_cycle_result now r v s).consecutive_rollbacks ≡ s.consecutive_rollbacks)
        × ((record_cycle_result now r v s).cooldown_start_at ≡ s.cooldown_start_at)
  unfolding record_cycle_result
  record-rollbacks now r v s = ground arith

  abbrev pub cycles : List Window → List (Step F)
  cycles ws = map cycle ws

  cycles-rollbacks :
      (ws : List Window) (s : State F)
      → ((run (cycles ws) s).consecutive_rollbacks ≡ s.consecutive_rollbacks)
        × ((run (cycles ws) s).cooldown_start_at ≡ s.cooldown_start_at)
  cycles-rollbacks [] s = (refl, refl)
  cycles-rollbacks (w ∷ ws) s =
      let (a, b) = cycles-rollbacks ws s in
      let (c, d) = record-rollbacks w.cycle w.result w.candidate_version (run (cycles ws) s) in
      (c ∙ a, d ∙ b)

  can_promote-breaker :
      (query_count now t : ℕ) (s : State F) (v : Option ℕ)
      → can_promote query_count now s v ≡ true
      → 2 ≤ s.consecutive_rollbacks
      → s.cooldown_start_at ≡ some t
      → 24 * one_hour ≤ now - t
  unfolding can_promote
  can_promote-breaker query_count now t s v h n l = ground arith

  -- After a rollback that follows another one with no promotion between, whatever cycles are
  -- recorded, no promotion is allowed for twenty-four hours.
  pub breaker_blocks_promotion :
      (query_count now t : ℕ) (v : Option ℕ) (e : Option (Eval F)) (ws : List Window) (s : State F)
      → 1 ≤ s.consecutive_rollbacks
      → can_promote query_count now (run (cycles ws) (after_rollback t e s)) v ≡ true
      → 24 * one_hour ≤ now - t
  unfolding after_rollback
  breaker_blocks_promotion query_count now t v e ws s n h =
      let s' = after_rollback t e s in
      let (a, b) = cycles-rollbacks ws s' in
      ground (arith, can_promote-breaker query_count now t (run (cycles ws) s') v)
