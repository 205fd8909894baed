-- ===== src/Evolution.antt =====
-- The governance of openclaw_memory_os/evolution.py: the state that is kept between cycles, the pass
-- windows, and the checks before a promotion. Moments are microseconds; the state holds
-- the ones that the code wrote, so that `fromisoformat` gives back what `isoformat` was given.
pub mod Gate
pub mod Rollback
pub mod Steps
pub mod Windows
pub mod Budget
use openclaw_memory_os.Prelude.{
  ℕ, suc, ◌+◌, ◌-◌, ◌*◌, ◌/◌, Bool, true, false, ◌&&◌, ◌||◌, Option, none, some, List, ◌∷◌, ◌++◌,
  ltb, leb, ◌==◌, nat_eq, string_eq, if◌then◌else◌, length, drop, [],
}

-- The fields of `EvalResult` that the cycle reads.
pub record Eval (F : Type 0) : Type 0 where
  pub useful_at_1 : F
  pub useful_at_5 : F
  pub mrr_at_10 : F
  pub ndcg_at_10 : F
  pub explicit_negative_at_5 : F
  pub no_result_rate : F
  pub p95_latency : F
  pub degraded_rate : F
  pub fallback_useful_rate : F
  pub useful_superseded_fallback_rate : Option F

-- `previous_metrics`; a snapshot has every key but the last one, which is optional.
pub record Metrics (F : Type 0) : Type 0 where
  pub useful_at_1 : F
  pub mrr_at_10 : F
  pub explicit_negative_at_5 : F
  pub no_result_rate : F
  pub p95_latency : F
  pub degraded_rate : F
  pub fallback_useful_rate : Option F

pub data CycleResult : Type 0 where
  passed failed : CycleResult

pub record Window : Type 0 where
  pub cycle : ℕ
  pub result : CycleResult
  pub candidate_version : Option ℕ

pub record State (F : Type 0) : Type 0 where
  pub pass_windows : List Window
  pub consecutive_passes : ℕ
  pub pass_candidate_version : Option ℕ
  pub last_promotion_at : Option ℕ
  pub promotion_count_30d : ℕ
  pub consecutive_rollbacks : ℕ
  pub cooldown_start_at : Option ℕ
  pub previous_metrics : Option (Metrics F)
  pub post_rollback_metrics : Option (Metrics F)

-- In microseconds.
abbrev pub one_second : ℕ
one_second = 1_000_000

abbrev pub one_hour : ℕ
one_hour = 3_600_000_000

abbrev pub one_day : ℕ
one_day = 86_400_000_000

abbrev pub is_version : Option ℕ → ℕ → Bool
is_version none v = false
is_version (some u) v = u == v

-- `windows[-2:]`
abbrev pub last_two : List Window → List Window
last_two ws = drop (length ws - 2) ws

abbrev pub snapshot : {F : Type 0} → Eval F → Metrics F
snapshot e = record {
  useful_at_1 = e.useful_at_1;
  mrr_at_10 = e.mrr_at_10;
  explicit_negative_at_5 = e.explicit_negative_at_5;
  no_result_rate = e.no_result_rate;
  p95_latency = e.p95_latency;
  degraded_rate = e.degraded_rate;
  fallback_useful_rate = e.useful_superseded_fallback_rate;
}

abbrev is_passed : CycleResult → Bool
is_passed passed = true
is_passed failed = false

abbrev pub distance : ℕ → ℕ → ℕ
distance a b = (a - b) + (b - a)

-- Before the last promotion counts as less than a day since: both are below the limit.
abbrev pub cooled : (now : ℕ) → Option ℕ → Bool
cooled now none = true
cooled now (some t) = leb 7 ((now - t) / one_day)

-- The circuit breaker; `hours_elapsed < 24` is a comparison with a day.
abbrev breaker_expired : (now : ℕ) → Option ℕ → Bool
breaker_expired now none = false
breaker_expired now (some t) = leb (24 * one_hour) (now - t)

module _ {F : Type 0} where
  abbrev add_window : Window → State F → State F
  add_window w s = record s { pass_windows = last_two (s.pass_windows ++ (w ∷ [])) }

  -- `_record_cycle_result`. A pass of another candidate empties the bank first.
  unfoldable pub record_cycle_result : (now : ℕ) → CycleResult → Option ℕ → State F → State F
  record_cycle_result now passed (some v) s =
      let w : Window = record { cycle = now; result = passed; candidate_version = some v } in
      if is_version s.pass_candidate_version v
      then record (add_window w s) { consecutive_passes = suc s.consecutive_passes }
      else record s {
        pass_windows = w ∷ [];
        consecutive_passes = 1;
        pass_candidate_version = some v;
      }
  record_cycle_result now passed none s =
      record (add_window (record { cycle = now; result = passed; candidate_version = none }) s) {
        consecutive_passes = suc s.consecutive_passes;
      }
  record_cycle_result now failed v s =
      record (add_window (record { cycle = now; result = failed; candidate_version = v }) s) {
        consecutive_passes = 0;
        pass_candidate_version = none;
      }

  abbrev of_candidate : Option ℕ → State F → Window → Window → Bool
  of_candidate none s a b = true
  of_candidate (some v) s a b =
      is_version a.candidate_version v
      && is_version b.candidate_version v
      && is_version s.pass_candidate_version v

  abbrev good_pair : Option ℕ → State F → List Window → Bool
  good_pair v s (a ∷ b ∷ []) =
      is_passed a.result
      && is_passed b.result
      && of_candidate v s a b
      && leb (600 * one_second) (distance a.cycle b.cycle)
  good_pair v s _ = false

  -- `_two_consecutive_pass_windows`
  unfoldable pub two_consecutive_pass_windows : State F → Option ℕ → Bool
  two_consecutive_pass_windows s v = good_pair v s (last_two s.pass_windows)

  -- `_can_promote`
  unfoldable pub can_promote : (query_count now : ℕ) → State F → Option ℕ → Bool
  can_promote query_count now s v =
      leb 30 query_count
      && leb 2 s.consecutive_passes
      && two_consecutive_pass_windows s v
      && cooled now s.last_promotion_at
      && ltb s.promotion_count_30d 2
      && (ltb s.consecutive_rollbacks 2 || breaker_expired now s.cooldown_start_at)

  -- What `run_evolution_cycle` writes to the state after a promotion.
  unfoldable pub after_promotion : (now : ℕ) → Eval F → State F → State F
  after_promotion now e s = record s {
    last_promotion_at = some now;
    promotion_count_30d = suc s.promotion_count_30d;
    consecutive_rollbacks = 0;
    previous_metrics = some (snapshot e);
    consecutive_passes = 0;
    pass_candidate_version = none;
    pass_windows = [];
  }

  -- `_force_rollback_with_metrics`, after the store has reverted.
  unfoldable pub after_rollback : (now : ℕ) → Option (Eval F) → State F → State F
  after_rollback now e s =
      let n = suc s.consecutive_rollbacks in
      record s {
        consecutive_rollbacks = n;
        cooldown_start_at = (if leb 2 n then some now else s.cooldown_start_at);
        post_rollback_metrics = elim e [
          | none ↦ s.post_rollback_metrics
          | some e ↦ some (snapshot e)
        ];
        previous_metrics = elim e [ none ↦ s.previous_metrics | some e ↦ some (snapshot e) ];
        consecutive_passes = 0;
        pass_windows = [];
      }
