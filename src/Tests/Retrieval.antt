-- ===== src/Tests/Retrieval.antt =====
-- Examples for the ranking of openclaw_memory_os/retrieval_engine.py.
use openclaw_memory_os.Retrieval.Order.{
  IsAsymmetric, IsReversing, IsDescending, rank_pool_band-IsDescending,
}
use openclaw_memory_os.Prelude.{
  ℕ, ◌+◌, ◌*◌, ◌/◌, ◌^◌, ◌≤◌, ◌<◌, max, String, ◌≡◌, refl, ◌⊎◌, true, false, Option, none, some,
  List, [], ◌∷◌, ◌++◌, map, arith, ltb, nat_eq, string_eq, list_eq, pair_eq, length,
}
use openclaw_memory_os.Prelude.Floats.{Floats}
use openclaw_memory_os.Policy.{Policy}
use openclaw_memory_os.Prelude.Table.{lookup, insert}
use openclaw_memory_os.Prelude.Text.{codes}
use openclaw_memory_os.Retrieval.{Candidate, QueryCandidatePool, calibrate}
use openclaw_memory_os.Retrieval.Ranking.{rank_pool_band, rank_candidate_pool}
use openclaw_memory_os.Retrieval.Bands.{count_key, rank_pool_band-count}
use openclaw_memory_os.Retrieval.Calibration.{IsUnitOrder, InUnit, calibrate-InUnit}
use openclaw_memory_os.Retrieval.Hits.{Within, rank_candidate_pool-bands}
use openclaw_memory_os.Tests.Data.{fixed, first_policy}

abbrev memory : String → (dense lexical : Option ℕ) → Candidate ℕ
memory key dense lexical = record {
  candidate_key = key;
  text = codes "the text";
  summary = none;
  source = none;
  tags = [];
  importance = 500_000;
  created_at = some 7;
  updated_at = none;
  dense_score = dense;
  lexical_score = lexical;
  rrf_score = none;
  score = 0;
}

abbrev dense_hits : List (Candidate ℕ)
dense_hits = memory "a" (some 900_000) none ∷ memory "b" (some 400_000) none ∷ []

abbrev lexical_hits : List (Candidate ℕ)
lexical_hits = memory "b" none (some 3_000_000) ∷ memory "c" none (some 1_000_000) ∷ []

abbrev pool : QueryCandidatePool ℕ
pool = record {
  query = codes "text";
  dense_active = dense_hits;
  lexical_active = lexical_hits;
  dense_superseded = memory "old" (some 800_000) none ∷ [];
  lexical_superseded = [];
  dense_available = true;
  lexical_available = true;
}

rank_pool_band-count_example :
    count_key "b" (rank_pool_band fixed (λ s. s) 20 pool.query first_policy dense_hits lexical_hits)
    ≡ 1
rank_pool_band-count_example =
    rank_pool_band-count fixed (λ s. s) 20 pool.query first_policy dense_hits lexical_hits "b"

fixed-IsUnitOrder : IsUnitOrder fixed
fixed-IsUnitOrder = record { asymmetric = λ x y h. ground arith; one_zero = refl }

calibrate-InUnit_example : InUnit fixed 1_000_000
unfolding calibrate lookup insert
calibrate-InUnit_example =
    calibrate-InUnit fixed fixed-IsUnitOrder (λ c. c.dense_score) dense_hits "a" 1_000_000 refl

rank_candidate_pool-bands_example :
    (xs ys : List (Candidate ℕ)) × ((rank_candidate_pool fixed
        (λ s. s)
        20
        first_policy
        pool
        10).hits
      ≡ xs ++ ys)
    × Within pool.dense_active pool.lexical_active xs
    × Within pool.dense_superseded pool.lexical_superseded ys
    × (length (xs ++ ys) ≤ 10)
    × ((ys ≡ [])
        ⊎ ((length xs ≡ (rank_candidate_pool fixed (λ s. s) 20 first_policy pool 10).active_count)
            × (length xs < 5)))
rank_candidate_pool-bands_example = rank_candidate_pool-bands fixed (λ s. s) 20 first_policy pool 10

-- Numbers with six decimals and a sign, as differences.
abbrev signed : Floats
signed = record {
  F = ℕ × ℕ;
  lit = λ n k. (n * 1_000_000 / 10 ^ k, 0);
  add = λ x y. (x.0 + y.0, x.1 + y.1);
  sub = λ x y. (x.0 + y.1, x.1 + y.0);
  mul = λ x y. ((x.0 * y.0 + x.1 * y.1) / 1_000_000, (x.0 * y.1 + x.1 * y.0) / 1_000_000);
  div = λ x y. (x.0 * 1_000_000 / max y.0 1, x.1 * 1_000_000 / max y.0 1);
  neg = λ x. (x.1, x.0);
  exp = λ x. (1_000_000, 0);
  lt = λ x y. ltb (x.0 + y.1) (y.0 + x.1);
  is_nan = λ x. false;
}

signed-IsAsymmetric : IsAsymmetric signed
signed-IsAsymmetric = record { asymmetric = λ x y h. ground arith }

signed-IsReversing : IsReversing signed
signed-IsReversing = record { reverses = λ x y. ground arith }

abbrev plus : ℕ → ℕ × ℕ
plus n = (n, 0)

abbrev plus_option : Option ℕ → Option (ℕ × ℕ)
plus_option none = none
plus_option (some n) = some (n, 0)

abbrev signed_policy : Policy (ℕ × ℕ)
signed_policy = record {
  schema_version = first_policy.schema_version;
  version = first_policy.version;
  created_at = first_policy.created_at;
  parent_version = first_policy.parent_version;
  status = first_policy.status;
  dense_k = first_policy.dense_k;
  lexical_k = first_policy.lexical_k;
  rrf_k = first_policy.rrf_k;
  fallback_min_results = first_policy.fallback_min_results;
  weights = record {
    rrf_dense_weight = plus first_policy.weights.rrf_dense_weight;
    rrf_lexical_weight = plus first_policy.weights.rrf_lexical_weight;
    final_rrf_weight = plus first_policy.weights.final_rrf_weight;
    final_vector_weight = plus first_policy.weights.final_vector_weight;
    final_lexical_weight = plus first_policy.weights.final_lexical_weight;
    importance_weight = plus first_policy.weights.importance_weight;
    recency_weight = plus first_policy.weights.recency_weight;
    feedback_weight = plus first_policy.weights.feedback_weight;
    exact_match_boost = plus first_policy.weights.exact_match_boost;
    recency_half_life_hours = plus first_policy.weights.recency_half_life_hours;
  };
}

abbrev signed_candidate : Candidate ℕ → Candidate (ℕ × ℕ)
signed_candidate c = record {
  candidate_key = c.candidate_key;
  text = c.text;
  summary = c.summary;
  source = c.source;
  tags = c.tags;
  importance = plus c.importance;
  created_at = c.created_at;
  updated_at = c.updated_at;
  dense_score = plus_option c.dense_score;
  lexical_score = plus_option c.lexical_score;
  rrf_score = plus_option c.rrf_score;
  score = plus c.score;
}

rank_pool_band-IsDescending_example : IsDescending signed (
    rank_pool_band signed
      (λ s. s)
      20
      pool.query
      signed_policy
      (map signed_candidate dense_hits)
      (map signed_candidate lexical_hits))
rank_pool_band-IsDescending_example =
    rank_pool_band-IsDescending signed signed-IsAsymmetric signed-IsReversing (λ s. s) 20 pool.query
      signed_policy (map signed_candidate dense_hits) (map signed_candidate lexical_hits)
