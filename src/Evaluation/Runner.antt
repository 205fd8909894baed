-- ===== src/Evaluation/Runner.antt =====
-- `evaluate` and `evaluate_candidate` of openclaw_memory_os/evaluation.py: the totals over the judged
-- queries. The rank function and the time that it takes are parameters.
use openclaw_memory_os.Prelude.{
  ℕ, zero, suc, ◌+◌, ◌*◌, ◌/◌, Bool, false, ◌&&◌, ◌||◌, not, Option, List, [], ◌∷◌, ◌++◌, ◌==◌,
  nat_eq, string_eq, list_eq, pair_eq, or_else, if◌then◌else◌, length, take, any,
}
use openclaw_memory_os.Prelude.Text.{Text}
use openclaw_memory_os.Prelude.Floats.{Floats}
use openclaw_memory_os.Evaluation.Metrics.{member, added_hits, recall_at_k, mrr, ndcg_at_k}

-- `_EvaluationCase`
pub record Judged : Type 0 where
  pub query_id : Text
  pub query_text : Text
  pub positives : List Text
  pub negatives : List Text

-- `_RankFnOutcome`
pub record Outcome : Type 0 where
  pub ranked : List Text
  pub degraded : Bool
  pub fallback_used : Bool
  pub fallback_keys : List Text

-- What a rank function can return: an outcome, a dict, whose keys may be missing, a list, or
-- something that cannot be iterated over.
pub data Answer : Type 0 where
  outcome : Outcome → Answer
  mapping :
      (ranked keys : Option (List Text)) (degraded fallback_used : Option Bool)
      (fallback_keys : Option (List Text))
      → Answer
  listing : List Text → Answer
  other : Answer

abbrev nonempty_or : List Text → List Text → List Text
nonempty_or [] ys = ys
nonempty_or (x ∷ xs) ys = x ∷ xs

unfoldable pub coerce_rank_result : Answer → Outcome
coerce_rank_result (outcome value) = value
coerce_rank_result (mapping ranked keys degraded fallback_used fallback_keys) = record {
  ranked = nonempty_or (or_else ranked []) (or_else keys []);
  degraded = or_else degraded false;
  fallback_used = or_else fallback_used false;
  fallback_keys = or_else fallback_keys [];
}
coerce_rank_result (listing keys) = record {
  ranked = keys;
  degraded = false;
  fallback_used = false;
  fallback_keys = [];
}
coerce_rank_result other = record {
  ranked = [];
  degraded = false;
  fallback_used = false;
  fallback_keys = [];
}

abbrev pub flag : Bool → ℕ
flag b = if b then 1 else 0

abbrev pub is_judged : Judged → Bool
is_judged c = not (length c.positives == 0) || not (length c.negatives == 0)

-- `any(d in wanted for d in ranked[:k])`
abbrev pub any_at : ℕ → List Text → List Text → Bool
any_at k ranked wanted = any (λ d. member d wanted) (take k ranked)

-- Whether the keys that the fallback added have a positive one.
abbrev pub fallback_useful : Judged → Outcome → Bool
fallback_useful c o =
    o.fallback_used
    && not (length c.positives == 0)
    && any (λ k. member k c.positives) (added_hits o.ranked o.fallback_keys)

module _ (floats : Floats) (log2 : floats.F → floats.F) where
  open floats use {F, lit, add, sub, mul, div, lt}

  -- The accumulators of the loop.
  pub record Totals : Type 0 where
    pub r1 : F
    pub r5 : F
    pub r10 : F
    pub mrrs : F
    pub ndcg : F
    pub u1_cases : F
    pub u5_cases : F
    pub no_results : ℕ
    pub degraded_count : ℕ
    pub fallback_useful_count : ℕ
    pub latencies : List F
    pub judged_case_count : ℕ
    pub judged_case_with_negative : ℕ

  abbrev pub no_totals : Totals
  no_totals = record {
    r1 = lit 0 0;
    r5 = lit 0 0;
    r10 = lit 0 0;
    mrrs = lit 0 0;
    ndcg = lit 0 0;
    u1_cases = lit 0 0;
    u5_cases = lit 0 0;
    no_results = 0;
    degraded_count = 0;
    fallback_useful_count = 0;
    latencies = [];
    judged_case_count = 0;
    judged_case_with_negative = 0;
  }

  -- What is counted before the answer is known to be empty.
  abbrev timed : F → Outcome → Totals → Totals
  timed elapsed o t = record t {
    latencies = t.latencies ++ (elapsed ∷ []);
    degraded_count = t.degraded_count + flag o.degraded;
  }

  abbrev unranked : Totals → Totals
  unranked t = record t { no_results = suc t.no_results }

  abbrev scored : Judged → Outcome → Totals → Totals
  scored c o t = record t {
    r1 = add t.r1 (recall_at_k floats log2 o.ranked c.positives 1);
    r5 = add t.r5 (recall_at_k floats log2 o.ranked c.positives 5);
    r10 = add t.r10 (recall_at_k floats log2 o.ranked c.positives 10);
    mrrs = add t.mrrs (mrr floats log2 o.ranked c.positives);
    ndcg = add t.ndcg (ndcg_at_k floats log2 o.ranked c.positives 10);
    u1_cases = add t.u1_cases (lit (flag (any_at 1 o.ranked c.positives)) 0);
    u5_cases = add t.u5_cases (lit (flag (any_at 5 o.ranked c.positives)) 0);
    judged_case_count = t.judged_case_count + flag (is_judged c);
    judged_case_with_negative =
        t.judged_case_with_negative + flag (is_judged c && any_at 5 o.ranked c.negatives);
    fallback_useful_count = t.fallback_useful_count + flag (fallback_useful c o);
  }

  -- One pass of the loop.
  unfoldable pub evaluate_case : Judged → Outcome → F → Totals → Totals
  evaluate_case c o elapsed t =
      if length o.ranked == 0 then unranked (timed elapsed o t) else scored c o (timed elapsed o t)

  unfoldable pub evaluate_cases :
      (rank_fn : Text → Text → Answer) (elapsed : Judged → F) → List Judged → Totals → Totals
  evaluate_cases rank_fn elapsed [] t = t
  evaluate_cases rank_fn elapsed (c ∷ cases) t =
      evaluate_cases rank_fn elapsed cases
        (evaluate_case c (coerce_rank_result (rank_fn c.query_text c.query_id)) (elapsed c) t)

  -- `latencies.sort()`
  abbrev insert_latency : F → List F → List F
  insert_latency x [] = x ∷ []
  insert_latency x (y ∷ ys) =
      let rest = insert_latency x ys in if lt x y then x ∷ y ∷ ys else y ∷ rest

  abbrev sort_latencies : List F → List F → List F
  sort_latencies sorted [] = sorted
  sort_latencies sorted (x ∷ xs) = sort_latencies (insert_latency x sorted) xs

  abbrev item_or : F → List F → ℕ → F
  item_or d [] i = d
  item_or d (x ∷ xs) zero = x
  item_or d (x ∷ xs) (suc i) = item_or d xs i

  pub record EvalResult : Type 0 where
    pub recall_at_1 : F
    pub recall_at_5 : F
    pub recall_at_10 : F
    pub mrr_at_10 : F
    pub ndcg_at_10 : F
    pub useful_at_1 : F
    pub useful_at_5 : F
    pub explicit_negative_at_5 : F
    pub no_result_rate : F
    pub p50_latency : F
    pub p95_latency : F
    pub degraded_rate : F
    pub fallback_useful_rate : F
    pub num_cases : ℕ

  abbrev rate : ℕ → ℕ → F
  rate a n = if n == 0 then lit 0 0 else div (lit a 0) (lit n 0)

  abbrev mean : F → ℕ → F
  mean sum n = if n == 0 then lit 0 0 else div sum (lit n 0)

  -- `evaluate`: without a case every number is zero. The index of the median is zero, as written.
  unfoldable pub evaluate :
      (rank_fn : Text → Text → Answer) (elapsed : Judged → F) → List Judged → EvalResult
  evaluate rank_fn elapsed cases =
      let n = length cases in
      let t = evaluate_cases rank_fn elapsed cases no_totals in
      let sorted = sort_latencies [] t.latencies in
      record {
        recall_at_1 = mean t.r1 n;
        recall_at_5 = mean t.r5 n;
        recall_at_10 = mean t.r10 n;
        mrr_at_10 = mean t.mrrs n;
        ndcg_at_10 = mean t.ndcg n;
        useful_at_1 = mean t.u1_cases n;
        useful_at_5 = mean t.u5_cases n;
        explicit_negative_at_5 = rate t.judged_case_with_negative t.judged_case_count;
        no_result_rate = rate t.no_results n;
        p50_latency = item_or (lit 0 0) sorted (length sorted * 0 / 2);
        p95_latency = item_or (lit 0 0) sorted (length sorted * 95 / 100);
        degraded_rate = rate t.degraded_count n;
        fallback_useful_rate = rate t.fallback_useful_count n;
        num_cases = n;
      }

  abbrev at_least : F → F → Bool
  at_least a b = not (lt a b)

  -- The names of the checks that fail, by their number in the list `checks`; no number is NaN.
  unfoldable pub evaluate_candidate : (baseline candidate : EvalResult) → Bool → Bool × List ℕ
  evaluate_candidate b c strict_validation =
      let failing = λ (n : ℕ). λ (passed : Bool). if passed then [] else n ∷ [] in
      let reasons =
        failing 1 (at_least c.recall_at_5 (sub b.recall_at_5 (lit 1 6)))
        ++ failing 2 (at_least c.mrr_at_10 (sub b.mrr_at_10 (lit 5 3)))
        ++ failing 3 (not strict_validation || at_least c.ndcg_at_10 (mul b.ndcg_at_10 (lit 101 2)))
        ++ failing 4 (at_least c.useful_at_1 (sub b.useful_at_1 (lit 1 6)))
        ++ failing 5 (at_least (add b.explicit_negative_at_5 (lit 1 6)) c.explicit_negative_at_5)
        ++ failing 6 (at_least (add b.no_result_rate (lit 1 2)) c.no_result_rate) in
      (length reasons == 0, reasons)
