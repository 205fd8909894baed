-- ===== src/Evolution/Windows.antt =====
-- The pass windows: what was recorded when a promotion is allowed.
use openclaw_memory_os.Prelude.{
  ℕ, suc, ◌-◌, ◌*◌, ◌≤◌, ◌<◌, ◌≡◌, refl, ap, ◌⊎◌, inl, inr, true, Option, none, some, List, [], ◌∷◌,
  ◌++◌, arith, ==_refl, nat_eq, string_eq, Bool-cases, if◌then◌else◌, length, drop, length-append,
}
use openclaw_memory_os.Evolution.{
  CycleResult, passed, failed, Window, State, record_cycle_result, can_promote, after_promotion,
  after_rollback, two_consecutive_pass_windows, one_second, is_version, distance, cooled, last_two,
  good_pair,
}
use openclaw_memory_os.Evolution.Steps.{Step, cycle, attempt, rollback, run}

last_two-cons : (x : Window) (ws : List Window) → 2 ≤ length ws → last_two (x ∷ ws) ≡ last_two ws
last_two-cons x ws h =
    let e : suc (length ws) - 2 ≡ suc (length ws - 2) = omega arith in ap (λ k. drop k (x ∷ ws)) e

last_two-snoc :
    (ws : List Window) (a : Window)
    → (last_two (ws ++ (a ∷ [])) ≡ a ∷ [])
      ⊎ ((y : Window) × (last_two (ws ++ (a ∷ [])) ≡ y ∷ a ∷ []))
last_two-snoc [] a = inl refl
last_two-snoc (x ∷ []) a = inr (x, refl)
last_two-snoc (x ∷ y ∷ ws) a =
    rw (last_two-cons x (y ∷ (ws ++ (a ∷ []))) (omega (arith, length-append ws (a ∷ []))))
      (last_two-snoc (y ∷ ws) a)

module _ {F : Type 0} where
  -- The windows of the bank are the latest steps.
  abbrev IsRecent : List Window → List (Step F) → Type 0
  IsRecent [] xs = Unit {0}
  IsRecent (a ∷ []) xs = (r : List (Step F)) × (xs ≡ cycle a ∷ r)
  IsRecent (a ∷ b ∷ []) xs = (r : List (Step F)) × (xs ≡ cycle b ∷ cycle a ∷ r)
  IsRecent _ xs = ⊥

  push-IsRecent :
      (ws : List Window) (w : Window) (xs : List (Step F))
      → IsRecent ws xs
      → IsRecent (last_two (ws ++ (w ∷ []))) (cycle w ∷ xs)
  push-IsRecent [] w xs h = (xs, refl)
  push-IsRecent (a ∷ []) w xs (r, h) = (r, ap (λ z. cycle w ∷ z) h)
  push-IsRecent (a ∷ b ∷ []) w xs (r, h) = (cycle a ∷ r, ap (λ z. cycle w ∷ z) h)
  push-IsRecent (a ∷ b ∷ c ∷ ws) w xs h = ground arith

  record-IsRecent :
      (now : ℕ) (r : CycleResult) (v : Option ℕ) (s : State F) (xs : List (Step F))
      → IsRecent s.pass_windows xs
      → IsRecent
          (record_cycle_result now r v s).pass_windows
          (cycle (record { cycle = now; result = r; candidate_version = v }) ∷ xs)
  unfolding record_cycle_result
  record-IsRecent now failed v s xs h =
      push-IsRecent s.pass_windows (record { cycle = now; result = failed; candidate_version = v })
        xs h
  record-IsRecent now passed none s xs h =
      push-IsRecent s.pass_windows
        (record { cycle = now; result = passed; candidate_version = none }) xs h
  record-IsRecent now passed (some v) s xs h =
      elim (Bool-cases (is_version s.pass_candidate_version v)) [
        | inl t ↦ rw t (
            push-IsRecent s.pass_windows
              (record { cycle = now; result = passed; candidate_version = some v }) xs h)
        | inr f ↦ rw f (xs, refl)
      ]

  -- The steps that had an effect: all but the attempts that were refused.
  abbrev pub recorded : List (Step F) → State F → List (Step F)
  recorded [] s = []
  recorded (cycle w ∷ xs) s = cycle w ∷ recorded xs s
  recorded (attempt q now v e ∷ xs) s =
      if can_promote q now (run xs s) v then attempt q now v e ∷ recorded xs s else recorded xs s
  recorded (rollback now e ∷ xs) s = rollback now e ∷ recorded xs s

  run-IsRecent :
      (xs : List (Step F)) (s : State F)
      → s.pass_windows ≡ []
      → IsRecent (run xs s).pass_windows (recorded xs s)
  unfolding after_promotion after_rollback
  run-IsRecent [] s h = rw h tt
  run-IsRecent (cycle w ∷ xs) s h =
      record-IsRecent w.cycle w.result w.candidate_version (run xs s) (recorded xs s)
        (run-IsRecent xs s h)
  run-IsRecent (attempt q now v e ∷ xs) s h = elim (Bool-cases (can_promote q now (run xs s) v)) [
    | inl t ↦ rw t tt
    | inr f ↦ rw f (run-IsRecent xs s h)
  ]
  run-IsRecent (rollback now e ∷ xs) s h = tt

  good_pair-recent :
      (v : ℕ) (s : State F) (ws : List Window) (xs : List (Step F))
      → IsRecent ws xs
      → good_pair (some v) s (last_two ws) ≡ true
      → (a b : Window) × (r : List (Step F)) × (xs ≡ cycle b ∷ cycle a ∷ r)
        × (a.result ≡ passed)
        × (b.result ≡ passed)
        × (a.candidate_version ≡ some v)
        × (b.candidate_version ≡ some v)
        × (600 * one_second ≤ distance a.cycle b.cycle)
  good_pair-recent v s [] xs i h = ground arith
  good_pair-recent v s (a ∷ []) xs i h = ground arith
  good_pair-recent v s (a ∷ b ∷ []) xs (r, i) h =
      (a, b, r, i, ground arith, ground arith, ground arith, ground arith, ground arith)
  good_pair-recent v s (a ∷ b ∷ c ∷ ws) xs i h = ground arith

  -- After any steps at all from a state with an empty bank, a promotion of a candidate is allowed
  -- only if, apart from refused attempts, the last two steps were passes of that very candidate,
  -- ten minutes apart at least, and thirty queries are judged.
  pub can_promote-run :
      (query_count now v : ℕ) (xs : List (Step F)) (s : State F)
      → s.pass_windows ≡ []
      → can_promote query_count now (run xs s) (some v) ≡ true
      → (30 ≤ query_count)
        × ((a b : Window) × (r : List (Step F)) × (recorded xs s ≡ cycle b ∷ cycle a ∷ r)
            × (a.result ≡ passed)
            × (b.result ≡ passed)
            × (a.candidate_version ≡ some v)
            × (b.candidate_version ≡ some v)
            × (600 * one_second ≤ distance a.cycle b.cycle))
  unfolding can_promote two_consecutive_pass_windows
  can_promote-run query_count now v xs s e h = (
    ground arith,
    good_pair-recent v (run xs s) (run xs s).pass_windows (recorded xs s) (run-IsRecent xs s e)
        (ground arith),
  )

  -- Two passes of a candidate, ten minutes apart at least, allow its promotion, if thirty queries
  -- are judged, there was no promotion in the last seven days, fewer than two were counted, and
  -- fewer than two rollbacks were counted since.
  pub two_passes_promote :
      (query_count now t t' v : ℕ) (s : State F)
      → 30 ≤ query_count
      → 600 * one_second ≤ distance t t'
      → cooled now s.last_promotion_at ≡ true
      → s.promotion_count_30d < 2
      → s.consecutive_rollbacks < 2
      → can_promote query_count now
          (record_cycle_result t' passed (some v) (record_cycle_result t passed (some v) s))
          (some v)
        ≡ true
  unfolding can_promote two_consecutive_pass_windows record_cycle_result
  two_passes_promote query_count now t t' v s q d c n b =
      elim (last_two-snoc s.pass_windows
        (record { cycle = t; result = passed; candidate_version = some v })) [
          | inl e ↦ ground (arith, ==_refl v)
          | inr (y, e) ↦ ground (arith, ==_refl v)
        ]
