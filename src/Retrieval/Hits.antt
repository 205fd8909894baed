-- ===== src/Retrieval/Hits.antt =====
-- The hits that `rank_candidate_pool` of openclaw_memory_os/retrieval_engine.py returns.
use openclaw_memory_os.Prelude.{
  ℕ, zero, suc, ◌-◌, ◌≤◌, ◌<◌, max, String, ◌≡◌, refl, ap, ◌⊎◌, inl, inr, Bool, true, ◌||◌, List,
  [], ◌∷◌, ◌++◌, arith, ltb, nat_eq, string_eq, Bool-cases, length, take, length-take, any,
}
use openclaw_memory_os.Prelude.Floats.{Floats}
use openclaw_memory_os.Prelude.Text.{Text}
use openclaw_memory_os.Policy.{Policy}
use openclaw_memory_os.Retrieval.{Candidate, QueryCandidatePool, has_key}
use openclaw_memory_os.Retrieval.Ranking.{
  sort, rank_pool_band, lowered, lower_to, floor_of, fallback, rank_candidate_pool,
}
use openclaw_memory_os.Retrieval.Bands.{
  count_key, present, present-count, count-map, count-sort, rank_pool_band-count,
}

module _ {ℓ} {A : Type ℓ} where
  take-append : (n : ℕ) (xs ys : List A) → take n (xs ++ ys) ≡ take n xs ++ take (n - length xs) ys
  take-append zero xs ys = let e : 0 - length xs ≡ 0 = omega arith in rw e refl
  take-append (suc n) [] ys = let e : suc n - 0 ≡ suc n = omega arith in rw e refl
  take-append (suc n) (x ∷ xs) ys =
      let e : suc n - suc (length xs) ≡ n - length xs = omega arith in
      rw e (ap (λ zs. x ∷ zs) (take-append n xs ys))

  take-nil : (n : ℕ) → take {A = A} n [] ≡ []
  take-nil zero = refl
  take-nil (suc n) = refl

  any-take : (p : A → Bool) (n : ℕ) (xs : List A) → any p (take n xs) ≡ true → any p xs ≡ true
  any-take p zero xs h = ground arith
  any-take p (suc n) [] h = h
  any-take p (suc n) (x ∷ xs) h = ground (arith, any-take p n xs)

module _ {F : Type 0} where
  -- Every candidate of the list has its key in one of the channels.
  abbrev pub Within : (dense lexical cs : List (Candidate F)) → Type 0
  Within dense lexical cs =
      (k : String) → present k cs ≡ true → (present k dense || present k lexical) ≡ true

  Within-take :
      (dense lexical cs : List (Candidate F)) (n : ℕ)
      → Within dense lexical cs
      → Within dense lexical (take n cs)
  Within-take dense lexical cs n w k h = w k (any-take (has_key k) n cs h)

module _ (floats : Floats) where
  open floats use {F, lt}

  module _ (casefold : Text → Text) (now : ℕ) (query : Text) (policy : Policy F) where
    band-Within :
        (dense lexical : List (Candidate F))
        → Within dense lexical (rank_pool_band floats casefold now query policy dense lexical)
    band-Within dense lexical k h = ground (
      arith,
      rank_pool_band-count floats casefold now query policy dense lexical k,
      present-count k (rank_pool_band floats casefold now query policy dense lexical),
      any-take (has_key k) (max 1 policy.dense_k) dense,
      any-take (has_key k) (max 1 policy.lexical_k) lexical,
    )

  count-lowered :
      (k : String) (active cs : List (Candidate F))
      → count_key k (lowered floats active cs) ≡ count_key k cs
  count-lowered k [] cs = refl
  count-lowered k (a ∷ active) cs =
      count-map k (lower_to floats (floor_of floats a active)) (λ c. refl) cs

  module _ (casefold : Text → Text) (now : ℕ) (policy : Policy F) where
    fallback-Within :
        (pool : QueryCandidatePool F) (active : List (Candidate F))
        → Within pool.dense_superseded pool.lexical_superseded
            (fallback floats casefold now policy pool active)
    fallback-Within pool active k h =
        let band =
          rank_pool_band floats casefold now pool.query policy pool.dense_superseded
            pool.lexical_superseded in
        let low = lowered floats active band in
        elim (Bool-cases (ltb (length active) policy.fallback_min_results)) [
          | inl t ↦
              let h' : present k (sort floats low) ≡ true = rw t at h in
              let p : present k band ≡ true = ground (
                arith,
                present-count k (sort floats low),
                count-sort floats k low,
                count-lowered k active band,
                present-count k band,
              ) in
              band-Within casefold now pool.query policy pool.dense_superseded
                pool.lexical_superseded k p
          | inr f ↦ let h' : present {F = F} k [] ≡ true = rw f at h in ground arith
        ]

    -- How much of the fallback is shown.
    shown :
        (pool : QueryCandidatePool F) (active : List (Candidate F)) (n : ℕ)
        → (take (n - length active) (fallback floats casefold now policy pool active) ≡ [])
          ⊎ ((length (take n active) ≡ length active)
              × (length active < policy.fallback_min_results))
    shown pool active n = elim (Bool-cases (ltb (length active) policy.fallback_min_results)) [
      | inl t ↦ elim (Bool-cases (ltb (length active) n)) [
        | inl u ↦ inr (ground (arith, length-take n active), ground arith)
        | inr v ↦ let e : n - length active ≡ 0 = ground arith in inl (rw e refl)
      ]
      | inr f ↦ inl (rw f (take-nil (n - length active)))
    ]

    -- The hits are active memories first and superseded ones after them, at most as many as the
    -- limit (or one); superseded ones are there only if fewer active ones than the policy asks for
    -- were found, and all of these are shown.
    pub rank_candidate_pool-bands :
        (pool : QueryCandidatePool F) (limit : ℕ)
        → (xs ys : List (Candidate F)) × ((rank_candidate_pool floats casefold now policy pool
              limit).hits
            ≡ xs ++ ys)
          × Within pool.dense_active pool.lexical_active xs
          × Within pool.dense_superseded pool.lexical_superseded ys
          × (length (xs ++ ys) ≤ max 1 limit)
          × ((ys ≡ [])
              ⊎ ((length xs
                    ≡ (rank_candidate_pool floats casefold now policy pool limit).active_count)
                  × (length xs < policy.fallback_min_results)))
    unfolding rank_candidate_pool
    rank_candidate_pool-bands pool limit =
        let n = max 1 limit in
        let active =
          rank_pool_band floats casefold now pool.query policy pool.dense_active
            pool.lexical_active in
        let more = fallback floats casefold now policy pool active in
        let xs = take n active in
        let ys = take (n - length active) more in
        let whole = take-append n active more in
        let bound : length (xs ++ ys) ≤ n =
          rw (← whole) (omega (arith, length-take n (active ++ more))) in
        (
          xs,
          ys,
          whole,
          Within-take pool.dense_active pool.lexical_active active n
              (band-Within casefold now pool.query policy pool.dense_active pool.lexical_active),
          Within-take pool.dense_superseded pool.lexical_superseded more (n - length active)
              (fallback-Within pool active),
          bound,
          elim (shown pool active n) [ inl e ↦ inl e | inr (e, l) ↦ inr (e, rw e l) ],
        )
