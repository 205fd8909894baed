-- ===== src/Retrieval/Order.antt =====
-- The order of a band of `_rank_pool_band` in openclaw_memory_os/retrieval_engine.py.
use openclaw_memory_os.Prelude.{
  ℕ, String, ◌≡◌, inl, inr, true, false, List, [], ◌∷◌, arith, nat_eq, string_eq, list_eq, pair_eq,
  Bool-cases,
}
use Prim.Native.String.compare
use openclaw_memory_os.Prelude.Floats.{Floats}
use openclaw_memory_os.Prelude.Text.{Text}
use openclaw_memory_os.Policy.{Policy}
use openclaw_memory_os.Retrieval.{Candidate}
use openclaw_memory_os.Retrieval.Ranking.{key_before, before, place, sort, rank_pool_band}

module _ (floats : Floats) where
  open floats use {F, neg, lt, is_nan}

  key-asymmetric : (a b : String) → key_before floats a b ≡ true → key_before floats b a ≡ false
  key-asymmetric String.[] String.[] h = ground (arith, compare.nil-nil)
  key-asymmetric String.[] (String.◌∷◌ d t) h = ground (arith, compare.cons-nil d t)
  key-asymmetric (String.◌∷◌ c s) String.[] h = ground (arith, compare.cons-nil c s)
  key-asymmetric (String.◌∷◌ c s) (String.◌∷◌ d t) h =
      ground (arith, compare.cons-cons c d s t, compare.cons-cons d c t s, key-asymmetric s t)

  -- What is used of the order of the scores.
  pub record IsAsymmetric : Type 0 where
    pub asymmetric : (x y : F) → lt x y ≡ true → lt y x ≡ false

  before-asymmetric :
      IsAsymmetric → (a b : Candidate F) → before floats a b ≡ true → before floats b a ≡ false
  before-asymmetric o a b h = ground (
    arith,
    o.asymmetric (neg a.score) (neg b.score),
    key-asymmetric a.candidate_key b.candidate_key,
  )

  abbrev pub NotBefore : Candidate F → List (Candidate F) → Type 0
  NotBefore a [] = Unit {0}
  NotBefore a (b ∷ cs) = before floats b a ≡ false

  -- No candidate comes before the one that it follows.
  abbrev pub IsRanked : List (Candidate F) → Type 0
  IsRanked [] = Unit {0}
  IsRanked (a ∷ cs) = NotBefore a cs × IsRanked cs

  place-NotBefore :
      (d c : Candidate F) (cs : List (Candidate F))
      → before floats c d ≡ false
      → NotBefore d cs
      → NotBefore d (place floats c cs)
  unfolding place
  place-NotBefore d c [] h n = h
  place-NotBefore d c (x ∷ cs) h n = elim (Bool-cases (before floats x c)) [
    | inl t ↦ rw t n
    | inr f ↦ rw f h
  ]

  place-IsRanked :
      IsAsymmetric
      → (c : Candidate F) (ds : List (Candidate F)) → IsRanked ds
      → IsRanked (place floats c ds)
  unfolding place
  place-IsRanked o c [] r = (tt, tt)
  place-IsRanked o c (d ∷ ds) (n, r) = elim (Bool-cases (before floats d c)) [
    | inl t ↦ rw t (place-NotBefore d c ds (before-asymmetric o d c t) n, place-IsRanked o c ds r)
    | inr f ↦ rw f (f, (n, r))
  ]

  sort-IsRanked : IsAsymmetric → (cs : List (Candidate F)) → IsRanked (sort floats cs)
  unfolding sort
  sort-IsRanked o [] = tt
  sort-IsRanked o (c ∷ cs) = place-IsRanked o c (sort floats cs) (sort-IsRanked o cs)

  -- What is used of the negation that the sort key has: it reverses the order.
  pub record IsReversing : Type 0 where
    pub reverses : (x y : F) → lt (neg x) (neg y) ≡ lt y x

  -- The first candidate has no lower score than the second, and if it has no higher one either and
  -- both are numbers, the key of the second does not come before its key.
  abbrev pub IsAbove : Candidate F → Candidate F → Type 0
  IsAbove a b =
      (lt a.score b.score ≡ false)
      × (lt b.score a.score ≡ false
          → is_nan a.score ≡ false
          → is_nan b.score ≡ false
          → key_before floats b.candidate_key a.candidate_key ≡ false)

  -- Each candidate is above the next one.
  abbrev pub IsDescending : List (Candidate F) → Type 0
  IsDescending [] = Unit {0}
  IsDescending (a ∷ []) = Unit {0}
  IsDescending (a ∷ (b ∷ cs)) = IsAbove a b × IsDescending (b ∷ cs)

  IsAbove-before : IsReversing → (a b : Candidate F) → before floats b a ≡ false → IsAbove a b
  IsAbove-before r a b h = ground (
    arith,
    h,
    r.reverses a.score b.score,
    r.reverses b.score a.score,
    key-asymmetric b.candidate_key a.candidate_key,
  )

  IsDescending-IsRanked : IsReversing → (cs : List (Candidate F)) → IsRanked cs → IsDescending cs
  IsDescending-IsRanked r [] h = tt
  IsDescending-IsRanked r (a ∷ []) h = tt
  IsDescending-IsRanked r (a ∷ (b ∷ cs)) (n, h) =
      (IsAbove-before r a b n, IsDescending-IsRanked r (b ∷ cs) h)

  -- A band is ranked by score, the highest first, and by key where neither score is less, if of two
  -- scores at most one is less than the other and negation reverses their order.
  pub rank_pool_band-IsDescending :
      IsAsymmetric
      → IsReversing
      → (casefold : Text → Text) (now : ℕ) (query : Text) (policy : Policy F)
        (dense lexical : List (Candidate F))
      → IsDescending (rank_pool_band floats casefold now query policy dense lexical)
  unfolding rank_pool_band
  rank_pool_band-IsDescending o r casefold now query policy dense lexical =
      IsDescending-IsRanked r _ (search sort-IsRanked)
