-- ===== src/Evolution/Gate.antt =====
-- `_promotion_passes_all_thresholds` of openclaw_memory_os/evolution.py: the comparison of a
-- candidate's evaluation with the active policy's.
use openclaw_memory_os.Prelude.{
  String, ◌≡◌, Bool, true, false, ◌||◌, List, [], ◌∷◌, ◌++◌, ◌==◌, nat_eq, string_eq, list_eq,
  pair_eq, length,
}
use openclaw_memory_os.Prelude.Floats.{Floats}
use openclaw_memory_os.Evolution.{Eval}

-- `reasons.append(name)` where a check fails, check after check.
abbrev append_failed : List (Bool × String) → List String → List String
append_failed [] reasons = reasons
append_failed ((true, name) ∷ checks) reasons = append_failed checks (reasons ++ (name ∷ []))
append_failed ((false, name) ∷ checks) reasons = append_failed checks reasons

abbrev NoneFails : List (Bool × String) → Type 0
NoneFails [] = Unit {0}
NoneFails ((b, name) ∷ checks) = (b ≡ false) × NoneFails checks

module _ (floats : Floats) where
  open floats use {F, lit, add, sub, mul, lt, is_nan}

  -- `_ge` and `_le`. `_gt_with_delta`, `_le_with_delta` and `_mult` apply them to the sum or the
  -- product.
  abbrev below : F → F → F → Bool
  below a b limit = is_nan a || is_nan b || lt a limit

  abbrev above : F → F → F → Bool
  above a b limit = is_nan a || is_nan b || lt limit a

  -- The checks in the order of the code; `positive_hit_at_5` is an alias of `useful_at_5`.
  abbrev checks : (active candidate : Eval F) → List (Bool × String)
  checks a c =
      (below c.useful_at_1 a.useful_at_1 a.useful_at_1, "useful_at_1")
      ∷ (below c.mrr_at_10 a.mrr_at_10 a.mrr_at_10, "mrr_at_10")
      ∷ (below c.ndcg_at_10 a.ndcg_at_10 (add a.ndcg_at_10 (lit 1 2)), "ndcg_at_10")
      ∷ (below c.useful_at_5 a.useful_at_5 a.useful_at_5, "useful_at_5")
      ∷ (
        above c.explicit_negative_at_5 a.explicit_negative_at_5
            (add a.explicit_negative_at_5 (lit 0 1)),
        "negative_at_5",
      )
      ∷ (
        below c.fallback_useful_rate a.fallback_useful_rate (sub a.fallback_useful_rate (lit 0 1)),
        "fallback_useful_rate",
      )
      ∷ (above c.degraded_rate a.degraded_rate a.degraded_rate, "degraded_rate")
      ∷ (above c.p95_latency a.p95_latency (mul a.p95_latency (lit 115 2)), "p95_latency")
      ∷ (below c.useful_at_5 a.useful_at_5 a.useful_at_5, "positive_hit_at_5")
      ∷ []

  -- `_promotion_passes_all_thresholds`
  unfoldable pub promotion_passes : (active candidate : Eval F) → Bool × List String
  promotion_passes a c =
      let reasons = append_failed (checks a c) [] in (length reasons == 0, reasons)

  -- `x` is a number that is not below the limit, or not above it.
  abbrev pub NotBelow : (x other limit : F) → Type 0
  NotBelow x other limit = (is_nan x ≡ false) × (is_nan other ≡ false) × (lt x limit ≡ false)

  abbrev pub NotAbove : (x other limit : F) → Type 0
  NotAbove x other limit = (is_nan x ≡ false) × (is_nan other ≡ false) × (lt limit x ≡ false)

  -- What is used of the order of the floats, and of 0.01: a number between two that are ordered is
  -- above the lower or below the higher, no two are each less than the other, and adding 0.01 to an
  -- nDCG makes a greater number.
  pub record IsOrder (ndcg : F) : Type 0 where
    pub between : (x y z : F) → lt x y ≡ true → lt x z ≡ false → lt z y ≡ true
    pub asymmetric : (x y : F) → lt x y ≡ true → lt y x ≡ false
    pub increases : lt ndcg (add ndcg (lit 1 2)) ≡ true
