-- ===== src/Policy.antt =====
-- openclaw_memory_os/policy_store.py: the retrieval policy and its store.
pub mod Clamp
pub mod Files
pub mod Store
use openclaw_memory_os.Prelude.{ℕ, String, Option, none, some, ltb, or_else, if◌then◌else◌}
use openclaw_memory_os.Prelude.Int.{ℤ, pos, negsuc}
use openclaw_memory_os.Prelude.Floats.{Floats}

pub data Status : Type 0 where
  baseline shadow active retired : Status

-- The float fields of a policy.
pub record Weights (F : Type 0) : Type 0 where
  pub rrf_dense_weight : F
  pub rrf_lexical_weight : F
  pub final_rrf_weight : F
  pub final_vector_weight : F
  pub final_lexical_weight : F
  pub importance_weight : F
  pub recency_weight : F
  pub feedback_weight : F
  pub exact_match_boost : F
  pub recency_half_life_hours : F

pub record Policy (F : Type 0) : Type 0 where
  pub schema_version : String
  pub version : ℕ
  pub created_at : String
  pub parent_version : Option ℕ
  pub status : Status
  pub dense_k : ℕ
  pub lexical_k : ℕ
  pub rrf_k : ℕ
  pub fallback_min_results : ℕ
  pub weights : Weights F

abbrev pub schema_version : String
schema_version = "1"

-- The numbers of a policy as they are given, before they are clamped; a missing field is `none`.
pub record Given (F : Type 0) : Type 0 where
  pub version : Option ℤ
  pub parent_version : Option ℤ
  pub dense_k : Option ℤ
  pub lexical_k : Option ℤ
  pub rrf_k : Option ℤ
  pub fallback_min_results : Option ℤ
  pub rrf_dense_weight : Option F
  pub rrf_lexical_weight : Option F
  pub final_rrf_weight : Option F
  pub final_vector_weight : Option F
  pub final_lexical_weight : Option F
  pub importance_weight : Option F
  pub recency_weight : Option F
  pub feedback_weight : Option F
  pub exact_match_boost : Option F
  pub recency_half_life_hours : Option F

-- `lo if v < lo else hi if v > hi else v`, with bounds that are not negative.
pub clamp_int : ℕ → ℕ → ℤ → ℕ
clamp_int lo hi (negsuc n) = lo
clamp_int lo hi (pos n) = if ltb n lo then lo else if ltb hi n then hi else n

abbrev pub int_field : ℕ → ℕ → Option ℤ → ℕ → ℕ
int_field lo hi none default = default
int_field lo hi (some v) default = clamp_int lo hi v

abbrev pub optional_int : ℕ → ℕ → Option ℤ → Option ℕ
optional_int lo hi none = none
optional_int lo hi (some v) = some (clamp_int lo hi v)

module _ (floats : Floats) where
  open floats use {F, lit, lt}

  pub clamp_float : F → F → F → F
  clamp_float lo hi v = if lt v lo then lo else if lt hi v then hi else v

  abbrev pub float_field : F → F → Option F → F → F
  float_field lo hi none default = default
  float_field lo hi (some v) default = clamp_float lo hi v

  -- `Policy(**given)`: every bounded field is clamped, a missing one takes its default. The half-
  -- life has no bounds.
  pub build : Given F → (schema_version created_at : String) → Status → Policy F
  unfolding clamp_int clamp_float
  build g schema created_at status = record {
    schema_version = schema;
    version = int_field 1 10_000_000 g.version 1;
    created_at = created_at;
    parent_version = optional_int 1 10_000_000 g.parent_version;
    status = status;
    dense_k = int_field 1 500 g.dense_k 20;
    lexical_k = int_field 1 500 g.lexical_k 40;
    rrf_k = int_field 1 500 g.rrf_k 60;
    fallback_min_results = int_field 1 200 g.fallback_min_results 5;
    weights = record {
      rrf_dense_weight = float_field (lit 0 0) (lit 10 0) g.rrf_dense_weight (lit 1 0);
      rrf_lexical_weight = float_field (lit 0 0) (lit 10 0) g.rrf_lexical_weight (lit 1 0);
      final_rrf_weight = float_field (lit 0 0) (lit 2 0) g.final_rrf_weight (lit 6 1);
      final_vector_weight = float_field (lit 0 0) (lit 2 0) g.final_vector_weight (lit 2 1);
      final_lexical_weight = float_field (lit 0 0) (lit 2 0) g.final_lexical_weight (lit 2 1);
      importance_weight = float_field (lit 0 0) (lit 2 0) g.importance_weight (lit 55 2);
      recency_weight = float_field (lit 0 0) (lit 2 0) g.recency_weight (lit 25 2);
      feedback_weight = float_field (lit 0 0) (lit 2 0) g.feedback_weight (lit 20 2);
      exact_match_boost = float_field (lit 0 0) (lit 1 0) g.exact_match_boost (lit 15 2);
      recency_half_life_hours = or_else g.recency_half_life_hours (lit 336 0);
    };
  }

  -- `Policy(**baseline_policy)`. Only the keys that the dict really stores reach the constructor; the
  -- virtual ones (version, status, dense_k) come from the defaults.
  pub baseline_policy : Policy F
  unfolding build
  baseline_policy =
      build
        (record {
          version = none;
          parent_version = none;
          dense_k = none;
          lexical_k = some (pos 40);
          rrf_k = some (pos 60);
          fallback_min_results = some (pos 5);
          rrf_dense_weight = some (lit 1 0);
          rrf_lexical_weight = some (lit 1 0);
          final_rrf_weight = some (lit 6 1);
          final_vector_weight = some (lit 2 1);
          final_lexical_weight = some (lit 2 1);
          importance_weight = some (lit 55 2);
          recency_weight = some (lit 25 2);
          feedback_weight = some (lit 20 2);
          exact_match_boost = some (lit 15 2);
          recency_half_life_hours = none;
        })
        schema_version "2026-07-14T00:00:00Z" baseline
