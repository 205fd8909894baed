-- ===== src/Evaluation/Counters.antt =====
-- The counters of `evaluate` in openclaw_memory_os/evaluation.py: bounds on its rates.
use openclaw_memory_os.Prelude.{
  ℕ, suc, ◌+◌, ◌≤◌, ◌≡◌, subst, List, [], ◌∷◌, arith, nat_eq, string_eq, list_eq, pair_eq, length,
}
use openclaw_memory_os.Prelude.Text.{Text}
use openclaw_memory_os.Prelude.Floats.{Floats}
use openclaw_memory_os.Evaluation.Runner.{
  Judged, Outcome, Answer, coerce_rank_result, Totals, no_totals, evaluate_case, evaluate_cases,
}

module _ (floats : Floats) (log2 : floats.F → floats.F) where
  open floats use {F}

  abbrev Sums : Type 0
  Sums = Totals floats log2

  -- How the counters of `n` queries stand to each other.
  abbrev pub IsCounted : ℕ → Sums → Type 0
  IsCounted n t =
      (t.judged_case_with_negative ≤ t.judged_case_count)
      × ((t.judged_case_count + t.no_results ≤ n)
          × ((t.fallback_useful_count ≤ t.judged_case_count) × (t.degraded_count ≤ n)))

  evaluate_case-IsCounted :
      (c : Judged) (o : Outcome) (elapsed : F) (n : ℕ) (t : Sums)
      → IsCounted n t
      → IsCounted (suc n) (evaluate_case floats log2 c o elapsed t)
  unfolding evaluate_case
  evaluate_case-IsCounted c o elapsed n t h = ground arith

  IsCounted-evaluate_cases :
      (rank_fn : Text → Text → Answer) (elapsed : Judged → F) (cases : List Judged) (n : ℕ)
      (t : Sums)
      → IsCounted n t
      → IsCounted (n + length cases) (evaluate_cases floats log2 rank_fn elapsed cases t)
  unfolding evaluate_cases
  IsCounted-evaluate_cases rank_fn elapsed [] n t h = ground arith
  IsCounted-evaluate_cases rank_fn elapsed (c ∷ cases) n t h =
      let o = coerce_rank_result (rank_fn c.query_text c.query_id) in
      ground (
        arith,
        IsCounted-evaluate_cases rank_fn elapsed cases (suc n)
            (evaluate_case floats log2 c o (elapsed c) t)
            (evaluate_case-IsCounted c o (elapsed c) n t h),
      )

  -- In the totals over any list of queries, the queries with a negative hit and those with a useful
  -- fallback are at most the judged queries that have results; these and the queries without
  -- results are at most all queries, as are the degraded ones.
  pub evaluate_cases-IsCounted :
      (rank_fn : Text → Text → Answer) (elapsed : Judged → F) (cases : List Judged)
      → IsCounted
          (length cases)
          (evaluate_cases floats log2 rank_fn elapsed cases (no_totals floats log2))
  evaluate_cases-IsCounted rank_fn elapsed cases =
      subst
        (λ n.
          IsCounted n (evaluate_cases floats log2 rank_fn elapsed cases (no_totals floats log2)))
        zero_plus
        (IsCounted-evaluate_cases rank_fn elapsed cases 0 (no_totals floats log2) (ground arith))
    where
      zero_plus : 0 + length cases ≡ length cases
      zero_plus = omega arith
