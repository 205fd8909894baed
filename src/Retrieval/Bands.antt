-- ===== src/Retrieval/Bands.antt =====
-- What the ranking shows of a pool, and in which order of bands.
use openclaw_memory_os.Prelude.{
  ℕ, ◌+◌, ◌≤◌, max, String, ◌≡◌, refl, ap, inl, inr, Bool, true, false, ◌||◌, List, [], ◌∷◌, ◌++◌,
  map, arith, ltb, ◌==◌, ==_iff, nat_eq, string_eq, Bool-cases, if◌then◌else◌, take, count_if, any,
}
use openclaw_memory_os.Prelude.Floats.{Floats}
use openclaw_memory_os.Prelude.Text.{Text}
use openclaw_memory_os.Policy.{Policy}
use openclaw_memory_os.Retrieval.{
  Candidate, QueryCandidatePool, has_key, add_unseen, unique_candidates, calibrate,
}
use openclaw_memory_os.Retrieval.Ranking.{put, put_all, ranks, place, sort, scored, rank_pool_band}

abbrev pub bit : Bool → ℕ
bit true = 1
bit false = 0

module _ {F : Type 0} where
  -- How many candidates have the key.
  abbrev pub count_key : String → List (Candidate F) → ℕ
  count_key k cs = count_if (has_key k) cs

  abbrev pub present : String → List (Candidate F) → Bool
  present k cs = any (has_key k) cs

  pub present-count : (k : String) (cs : List (Candidate F)) → present k cs ≡ ltb 0 (count_key k cs)
  present-count k [] = ground arith
  present-count k (c ∷ cs) = ground (arith, present-count k cs)

  count-put :
      (k : String) (c : Candidate F) (base : List (Candidate F))
      → count_key k (put c base) ≡ (
          if c.candidate_key == k
          then (if present k base then count_key k base else 1)
          else count_key k base)
  unfolding put
  count-put k c [] = ground arith
  count-put k c (d ∷ base) = ground (
    arith,
    count-put k c base,
    present-count k base,
    ==_iff c.candidate_key k,
    ==_iff d.candidate_key k,
    ==_iff d.candidate_key c.candidate_key,
  )

  count-put_all :
      (k : String) (cs base : List (Candidate F))
      → count_key k base ≤ 1
      → count_key k (put_all cs base) ≡ bit (present k cs || present k base)
  unfolding put_all
  count-put_all k [] base h = ground (arith, present-count k base)
  count-put_all k (c ∷ cs) base h = ground (
    arith,
    count-put_all k cs (put c base),
    count-put k c base,
    present-count k base,
    present-count k (put c base),
  )

  count-snoc :
      (k : String) (c : Candidate F) (cs : List (Candidate F))
      → count_key k (cs ++ (c ∷ [])) ≡ count_key k cs + bit (has_key k c)
  count-snoc k c [] = ground arith
  count-snoc k c (d ∷ cs) = ground (arith, count-snoc k c cs)

  abbrev unseen : Candidate F → List (Candidate F) → List (Candidate F)
  unseen c out = if any (has_key c.candidate_key) out then out else out ++ (c ∷ [])

  present-key :
      (k : String) (c : Candidate F) (out : List (Candidate F))
      → has_key k c ≡ true
      → present c.candidate_key out ≡ present k out
  present-key k c out e = ap (λ z. present z out) ((==_iff c.candidate_key k).0 e)

  count-unseen :
      (k : String) (c : Candidate F) (out : List (Candidate F))
      → count_key k out ≤ 1
      → count_key k (unseen c out) ≡ bit (has_key k c || present k out)
  count-unseen k c out h = elim (Bool-cases (present c.candidate_key out)) [
    | inl p ↦ rw p (ground (arith, present-count k out, present-key k c out))
    | inr n ↦ rw n (ground (arith, count-snoc k c out, present-count k out, present-key k c out))
  ]

  count-add_unseen :
      (k : String) (cs out : List (Candidate F))
      → count_key k out ≤ 1
      → count_key k (add_unseen cs out) ≡ bit (present k cs || present k out)
  unfolding add_unseen
  count-add_unseen k [] out h = ground (arith, present-count k out)
  count-add_unseen k (c ∷ cs) out h = ground (
    arith,
    count-add_unseen k cs (unseen c out),
    count-unseen k c out h,
    present-count k (unseen c out),
    present-count k out,
  )

  -- The candidates of a pool, each key once: a key is among them exactly if a channel has it.
  pub unique_candidates-count :
      (pool : QueryCandidatePool F) (k : String)
      → count_key k (unique_candidates pool)
        ≡ bit (
            present k pool.dense_active
            || present k pool.lexical_active
            || present k pool.dense_superseded
            || present k pool.lexical_superseded)
  unfolding unique_candidates
  unique_candidates-count pool k =
      let d = add_unseen pool.dense_active [] in
      let l = add_unseen pool.lexical_active d in
      let sd = add_unseen pool.dense_superseded l in
      ground (
        arith,
        count-add_unseen k pool.dense_active [],
        count-add_unseen k pool.lexical_active d,
        count-add_unseen k pool.dense_superseded l,
        count-add_unseen k pool.lexical_superseded sd,
        present-count k d,
        present-count k l,
        present-count k sd,
      )

  pub count-map :
      (k : String) (f : Candidate F → Candidate F)
      → ((c : Candidate F) → (f c).candidate_key ≡ c.candidate_key)
      → (cs : List (Candidate F)) → count_key k (map f cs) ≡ count_key k cs
  count-map k f same [] = refl
  count-map k f same (c ∷ cs) = rw (same c) (ground (arith, count-map k f same cs))

module _ (floats : Floats) where
  open floats use {F, lt}

  count-place :
      (k : String) (c : Candidate F) (ds : List (Candidate F))
      → count_key k (place floats c ds) ≡ count_key k (c ∷ ds)
  unfolding place
  count-place k c [] = refl
  count-place k c (d ∷ ds) = ground (arith, count-place k c ds)

  pub count-sort :
      (k : String) (cs : List (Candidate F)) → count_key k (sort floats cs) ≡ count_key k cs
  unfolding sort
  count-sort k [] = refl
  count-sort k (c ∷ cs) = ground (arith, count-place k c (sort floats cs), count-sort k cs)

  module _ (casefold : Text → Text) (now : ℕ) (query : Text) (policy : Policy F) where
    -- A band ranks each key of its channels, cut to the lengths of the policy, exactly once, and no
    -- other key.
    pub rank_pool_band-count :
        (dense lexical : List (Candidate F)) (k : String)
        → count_key k (rank_pool_band floats casefold now query policy dense lexical)
          ≡ bit (
              present k (take (max 1 policy.dense_k) dense)
              || present k (take (max 1 policy.lexical_k) lexical))
    unfolding rank_pool_band
    rank_pool_band-count dense lexical k =
        let d = take (max 1 policy.dense_k) dense in
        let l = take (max 1 policy.lexical_k) lexical in
        let base = put_all d [] in
        let f =
          scored floats casefold now query policy (ranks 1 d []) (ranks 1 l [])
            (calibrate floats (λ c. c.dense_score) d) (calibrate floats (λ c. c.lexical_score) l) in
        let e : count_key k (put_all d []) ≡ bit (present k d || false) =
          count-put_all k d [] (omega arith) in
        let e' = count-add_unseen k l base (ground arith) in
        ground (
          arith,
          count-sort k (map f (add_unseen l base)),
          count-map k f (λ c. refl) (add_unseen l base),
          present-count k base,
        )
