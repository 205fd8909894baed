-- ===== src/Tests/Data.antt =====
-- Stand-ins for the platform, and the sessions, policies and states that the examples use.
use openclaw_memory_os.Prelude.{
  ℕ, zero, suc, ◌+◌, ◌-◌, ◌*◌, ◌/◌, ◌^◌, String, ◌≡◌, refl, ap, ◌≢◌, true, false, Option, none,
  some, [], arith, ltb, ◌==◌, ==_iff, nat_eq, string_eq, list_eq, pair_eq,
}
use openclaw_memory_os.Prelude.Floats.{Floats}
use openclaw_memory_os.Sessions.{Platform, aware}
use openclaw_memory_os.Policy.{Policy, Status, active, shadow, schema_version}
use openclaw_memory_os.Policy.Files.{Store, Disk, Io, no_metadata}
use openclaw_memory_os.Evolution.{Eval, State}

-- An instant is written as a row of strokes.
abbrev pub strokes : ℕ → String
strokes zero = ""
strokes (suc n) = String.◌∷◌ "l" (strokes n)

abbrev pub count_strokes : String → ℕ
count_strokes String.[] = 0
count_strokes (String.◌∷◌ c s) = suc (count_strokes s)

pub count_strokes-strokes : (n : ℕ) → count_strokes (strokes n) ≡ n
count_strokes-strokes zero = refl
count_strokes-strokes (suc n) = ap (λ k. suc k) (count_strokes-strokes n)

abbrev pub platform : Platform
platform = record {
  digest = λ s. s;
  isoformat = strokes;
  fromisoformat = λ s. some (aware (count_strokes s));
}

pub reads_back : (t : ℕ) → platform.fromisoformat (platform.isoformat t) ≡ some (aware t)
reads_back t = ap (λ k. some (aware k)) (count_strokes-strokes t)

-- Numbers with six decimals.
abbrev pub fixed : Floats
fixed = record {
  F = ℕ;
  lit = λ n k. n * 1_000_000 / 10 ^ k;
  add = λ a b. a + b;
  sub = λ a b. a - b;
  mul = λ a b. a * b / 1_000_000;
  div = λ a b. a * 1_000_000 / b;
  neg = λ a. 0;
  exp = λ a. 1_000_000;
  lt = ltb;
  is_nan = λ a. false;
}

-- A decimal number n / 10 ^ k, as the pair of both.
abbrev pub decimal : Floats
decimal = record {
  F = ℕ × ℕ;
  lit = λ n k. (n, k);
  add = λ a b. (a.0 * 10 ^ b.1 + b.0 * 10 ^ a.1, a.1 + b.1);
  sub = λ a b. (a.0 * 10 ^ b.1 - b.0 * 10 ^ a.1, a.1 + b.1);
  mul = λ a b. (a.0 * b.0, a.1 + b.1);
  div = λ a b. (a.0 * 10 ^ b.1 / (b.0 * 10 ^ a.1), 0);
  neg = λ a. (0, a.1);
  exp = λ a. (1, 0);
  lt = λ a b. ltb (a.0 * 10 ^ b.1) (b.0 * 10 ^ a.1);
  is_nan = λ a. false;
}

abbrev pub sample_policy : ℕ → Option ℕ → Status → Policy ℕ
sample_policy version parent status = record {
  schema_version = schema_version;
  version = version;
  created_at = "now";
  parent_version = parent;
  status = status;
  dense_k = 50;
  lexical_k = 50;
  rrf_k = 60;
  fallback_min_results = 5;
  weights = record {
    rrf_dense_weight = 1_000_000;
    rrf_lexical_weight = 1_000_000;
    final_rrf_weight = 500_000;
    final_vector_weight = 200_000;
    final_lexical_weight = 200_000;
    importance_weight = 50_000;
    recency_weight = 50_000;
    feedback_weight = 0;
    exact_match_boost = 100_000;
    recency_half_life_hours = 336_000_000;
  };
}

-- A digest that tells versions apart.
abbrev pub policy_digest : Policy ℕ → String
policy_digest p = strokes p.version

abbrev pub first_policy : Policy ℕ
first_policy = sample_policy 1 none active

abbrev pub second_policy : Policy ℕ
second_policy = sample_policy 2 (some 1) shadow

abbrev pub working : Io
working = record {
  makes_directory = true;
  secures_directory = true;
  moves_legacy = true;
  secures_legacy = true;
  writes_active = true;
  secures_active = true;
  stats_active = true;
  writes_previous = true;
  secures_previous = true;
  writes_candidate = true;
  secures_candidate = true;
  unlinks = true;
  quarantines = true;
  secures_quarantine = true;
  archives = true;
}

-- A disk that is full.
abbrev pub failing : Io
failing = record {
  makes_directory = true;
  secures_directory = true;
  moves_legacy = false;
  secures_legacy = true;
  writes_active = false;
  secures_active = true;
  stats_active = true;
  writes_previous = false;
  secures_previous = true;
  writes_candidate = false;
  secures_candidate = true;
  unlinks = false;
  quarantines = false;
  secures_quarantine = true;
  archives = false;
}

abbrev pub empty_disk : Disk ℕ
empty_disk = record {
  named_active = true;
  legacy_file = none;
  legacy_mtime = 0;
  active_file = none;
  active_mtime = 0;
  previous_file = none;
  candidate_file = none;
  history = [];
}

abbrev pub first_store : Store ℕ
first_store = record {
  has_path = true;
  disk = empty_disk;
  last_mtime = none;
  policy = first_policy;
  previous = none;
  candidate = some second_policy;
  metadata = no_metadata;
  recovery_reason = none;
}

abbrev pub sample_eval : (ndcg useful : ℕ) → Eval ℕ
sample_eval ndcg useful = record {
  useful_at_1 = useful;
  useful_at_5 = useful;
  mrr_at_10 = useful;
  ndcg_at_10 = ndcg;
  explicit_negative_at_5 = 0;
  no_result_rate = 0;
  p95_latency = 500_000;
  degraded_rate = 0;
  fallback_useful_rate = 0;
  useful_superseded_fallback_rate = some 500_000;
}

abbrev pub first_state : State ℕ
first_state = record {
  pass_windows = [];
  consecutive_passes = 0;
  pass_candidate_version = none;
  last_promotion_at = none;
  promotion_count_30d = 0;
  consecutive_rollbacks = 0;
  cooldown_start_at = none;
  previous_metrics = none;
  post_rollback_metrics = none;
}

pub differ : (a b : String) → (a == b) ≡ false → a ≢ b
differ a b h = ground (arith, ==_iff a b)
