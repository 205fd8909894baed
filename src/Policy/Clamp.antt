-- ===== src/Policy/Clamp.antt =====
-- A policy that was built has its numbers within bounds.
use openclaw_memory_os.Prelude.{
  ℕ, ◌*◌, ◌^◌, ◌≤◌, String, ◌≡◌, false, Option, none, some, arith, ltb, nat_eq, string_eq,
}
use openclaw_memory_os.Prelude.Int.{ℤ, pos, negsuc}
use openclaw_memory_os.Prelude.Floats.{Floats}
use openclaw_memory_os.Policy.{
  Status, Policy, Given, clamp_int, clamp_float, build, int_field, float_field,
}

abbrev Between : ℕ → ℕ → ℕ → Type 0
Between lo hi n = (lo ≤ n) × (n ≤ hi)

clamp_int-Between : (lo hi : ℕ) (v : ℤ) → lo ≤ hi → Between lo hi (clamp_int lo hi v)
unfolding clamp_int
clamp_int-Between lo hi (pos n) h = ground arith
clamp_int-Between lo hi (negsuc n) h = ground arith

int_field-Between :
    (lo hi : ℕ) (o : Option ℤ) (d : ℕ) → lo ≤ d → d ≤ hi → Between lo hi (int_field lo hi o d)
int_field-Between lo hi none d a b = (a, b)
int_field-Between lo hi (some v) d a b = clamp_int-Between lo hi v (omega arith)

module _ (floats : Floats) where
  open floats use {F, lit, lt}

  -- Not below `lo` and not above `hi`. NaN is neither.
  abbrev Inside : F → F → F → Type 0
  Inside lo hi v = (lt v lo ≡ false) × (lt hi v ≡ false)

  -- What the theorem uses of the order: nothing is less than itself, and literals are ordered as
  -- the numbers that they stand for.
  pub record IsOrder : Type 0 where
    pub irreflexive : (x : F) → lt x x ≡ false
    pub literals : (n j m k : ℕ) → lt (lit n j) (lit m k) ≡ ltb (n * 10 ^ k) (m * 10 ^ j)

  clamp_float-Inside :
      IsOrder
      → (m : ℕ) (v : F) → Inside (lit 0 0) (lit m 0) (clamp_float floats (lit 0 0) (lit m 0) v)
  unfolding clamp_float
  clamp_float-Inside o m v =
      ground (arith, o.irreflexive (lit 0 0), o.irreflexive (lit m 0), o.literals m 0 0 0)

  float_field-Inside :
      IsOrder
      → (m : ℕ) (v : Option F) (d : F) → Inside (lit 0 0) (lit m 0) d
      → Inside (lit 0 0) (lit m 0) (float_field floats (lit 0 0) (lit m 0) v d)
  float_field-Inside o m none d h = h
  float_field-Inside o m (some v) d h = clamp_float-Inside o m v

  pub record IsBounded (p : Policy F) : Type 0 where
    pub version : Between 1 10_000_000 p.version
    pub dense_k : Between 1 500 p.dense_k
    pub lexical_k : Between 1 500 p.lexical_k
    pub rrf_k : Between 1 500 p.rrf_k
    pub fallback_min_results : Between 1 200 p.fallback_min_results
    pub rrf_dense_weight : Inside (lit 0 0) (lit 10 0) p.weights.rrf_dense_weight
    pub rrf_lexical_weight : Inside (lit 0 0) (lit 10 0) p.weights.rrf_lexical_weight
    pub final_rrf_weight : Inside (lit 0 0) (lit 2 0) p.weights.final_rrf_weight
    pub final_vector_weight : Inside (lit 0 0) (lit 2 0) p.weights.final_vector_weight
    pub final_lexical_weight : Inside (lit 0 0) (lit 2 0) p.weights.final_lexical_weight
    pub importance_weight : Inside (lit 0 0) (lit 2 0) p.weights.importance_weight
    pub recency_weight : Inside (lit 0 0) (lit 2 0) p.weights.recency_weight
    pub feedback_weight : Inside (lit 0 0) (lit 2 0) p.weights.feedback_weight
    pub exact_match_boost : Inside (lit 0 0) (lit 1 0) p.weights.exact_match_boost

  -- Whatever numbers are given, and whichever are missing, the policy that is built has every
  -- bounded number within its bounds.
  pub build-IsBounded :
      IsOrder
      → (g : Given F) (schema created_at : String) (status : Status)
      → IsBounded (build floats g schema created_at status)
  unfolding build
  build-IsBounded o g schema created_at status = record {
    version = int_field-Between 1 10_000_000 g.version 1 (omega arith) (omega arith);
    dense_k = int_field-Between 1 500 g.dense_k 20 (omega arith) (omega arith);
    lexical_k = int_field-Between 1 500 g.lexical_k 40 (omega arith) (omega arith);
    rrf_k = int_field-Between 1 500 g.rrf_k 60 (omega arith) (omega arith);
    fallback_min_results =
        int_field-Between 1 200 g.fallback_min_results 5 (omega arith) (omega arith);
    rrf_dense_weight =
        float_field-Inside o 10 g.rrf_dense_weight _ (o.literals 1 0 0 0, o.literals 10 0 1 0);
    rrf_lexical_weight =
        float_field-Inside o 10 g.rrf_lexical_weight _ (o.literals 1 0 0 0, o.literals 10 0 1 0);
    final_rrf_weight =
        float_field-Inside o 2 g.final_rrf_weight _ (o.literals 6 1 0 0, o.literals 2 0 6 1);
    final_vector_weight =
        float_field-Inside o 2 g.final_vector_weight _ (o.literals 2 1 0 0, o.literals 2 0 2 1);
    final_lexical_weight =
        float_field-Inside o 2 g.final_lexical_weight _ (o.literals 2 1 0 0, o.literals 2 0 2 1);
    importance_weight =
        float_field-Inside o 2 g.importance_weight _ (o.literals 55 2 0 0, o.literals 2 0 55 2);
    recency_weight =
        float_field-Inside o 2 g.recency_weight _ (o.literals 25 2 0 0, o.literals 2 0 25 2);
    feedback_weight =
        float_field-Inside o 2 g.feedback_weight _ (o.literals 20 2 0 0, o.literals 2 0 20 2);
    exact_match_boost =
        float_field-Inside o 1 g.exact_match_boost _ (o.literals 15 2 0 0, o.literals 1 0 15 2);
  }
