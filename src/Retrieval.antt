-- ===== src/Retrieval.antt =====
-- The candidates of openclaw_memory_os/contracts.py and the pools of
-- openclaw_memory_os/candidate_pool.py, with the scores of a query: calibration, recency and exact
-- match of openclaw_memory_os/retrieval_engine.py.
pub mod Ranking
pub mod Bands
pub mod Hits
pub mod Order
pub mod Calibration
use openclaw_memory_os.Prelude.{
  ℕ, ◌-◌, String, Bool, ◌&&◌, ◌||◌, not, Option, none, some, List, [], ◌∷◌, ◌++◌, ◌==◌, nat_eq,
  string_eq, or_else, if◌then◌else◌, any,
}
use openclaw_memory_os.Prelude.Floats.{Floats}
use openclaw_memory_os.Prelude.Table.{insert}
use openclaw_memory_os.Prelude.Text.{Text, is_empty, strip, starts_with}

-- The fields of `ScoredMemoryCandidate` that the ranking reads or sets. Dates are in microseconds.
pub record Candidate (F : Type 0) : Type 0 where
  pub candidate_key : String
  pub text : Text
  pub summary : Option Text
  pub source : Option Text
  pub tags : List Text
  pub importance : F
  pub created_at : Option ℕ
  pub updated_at : Option ℕ
  pub dense_score : Option F
  pub lexical_score : Option F
  pub rrf_score : Option F
  pub score : F

pub record QueryCandidatePool (F : Type 0) : Type 0 where
  pub query : Text
  pub dense_active : List (Candidate F)
  pub lexical_active : List (Candidate F)
  pub dense_superseded : List (Candidate F)
  pub lexical_superseded : List (Candidate F)
  pub dense_available : Bool
  pub lexical_available : Bool

module _ {F : Type 0} where
  abbrev pub has_key : String → Candidate F → Bool
  has_key k c = c.candidate_key == k

  -- One channel of `unique_candidates`: a candidate whose key was seen is passed over.
  unfoldable pub add_unseen : List (Candidate F) → (out : List (Candidate F)) → List (Candidate F)
  add_unseen [] out = out
  add_unseen (c ∷ channel) out =
      add_unseen channel (if any (has_key c.candidate_key) out then out else out ++ (c ∷ []))

  unfoldable pub unique_candidates : QueryCandidatePool F → List (Candidate F)
  unfolding add_unseen
  unique_candidates pool = add_unseen pool.lexical_superseded (
      add_unseen pool.dense_superseded
        (add_unseen pool.lexical_active (add_unseen pool.dense_active [])))

-- `needle in text`
abbrev occurs_in : (needle text : Text) → Bool
occurs_in needle [] = is_empty needle
occurs_in needle (c ∷ text) = starts_with (c ∷ text) needle || occurs_in needle text

module _ (floats : Floats) where
  open floats use {F, lit, add, sub, mul, div, neg, exp, lt, is_nan}

  -- `a <= b`
  abbrev at_most : F → F → Bool
  at_most a b = not (is_nan a) && not (is_nan b) && not (lt b a)

  -- Python's `min` and `max` keep the first of two values that are not ordered.
  abbrev pub py_min : F → F → F
  py_min a b = if lt b a then b else a

  abbrev pub py_max : F → F → F
  py_max a b = if lt a b then b else a

  abbrev least : F → List F → F
  least m [] = m
  least m (x ∷ xs) = least (py_min m x) xs

  abbrev greatest : F → List F → F
  greatest m [] = m
  greatest m (x ∷ xs) = greatest (py_max m x) xs

  abbrev scores_of : (Candidate F → Option F) → List (Candidate F) → List F
  scores_of field [] = []
  scores_of field (c ∷ cs) = elim (field c) [
    | none ↦ scores_of field cs
    | some x ↦ x ∷ scores_of field cs
  ]

  -- `max(0.0, min(1.0, x))`
  abbrev pub clip : F → F
  clip x = py_max (lit 0 1) (py_min (lit 10 1) x)

  -- A candidate without a score is passed over.
  abbrev pub note_score : String → Option F → (F → F) → List (String × F) → List (String × F)
  note_score k none f t = t
  note_score k (some x) f t = insert k (f x) t

  -- The loop that fills the table of calibrated scores.
  abbrev pub fill :
      (Candidate F → Option F)
      → (F → F)
      → List (Candidate F)
      → List (String × F)
      → List (String × F)
  fill field f [] t = t
  fill field f (c ∷ cs) t = fill field f cs (note_score c.candidate_key (field c) f t)

  abbrev calibrate_between :
      (Candidate F → Option F) → (lo hi : F) → List (Candidate F) → List (String × F)
  calibrate_between field lo hi cs =
      if at_most (sub hi lo) (lit 1 9)
      then fill field (λ x. lit 10 1) cs []
      else fill field (λ x. clip (div (sub x lo) (sub hi lo))) cs []

  abbrev calibrate_scores :
      (Candidate F → Option F) → List F → List (Candidate F) → List (String × F)
  calibrate_scores field [] cs = []
  calibrate_scores field (x ∷ xs) cs = calibrate_between field (least x xs) (greatest x xs) cs

  -- `_calibrate_dense_scores` and `_calibrate_lexical_scores`, which differ in the field they read.
  unfoldable pub calibrate : (Candidate F → Option F) → List (Candidate F) → List (String × F)
  calibrate field cs = calibrate_scores field (scores_of field cs) cs

  -- `x or 336.0`: zero is as good as missing.
  abbrev half_life : F → F
  half_life x =
      if not (lt x (lit 0 1)) && not (lt (lit 0 1) x) && not (is_nan x) then lit 3360 1 else x

  abbrev elapsed_hours : (now ts : ℕ) → F
  elapsed_hours now ts = div (lit (now - ts) 6) (lit 36000 1)

  abbrev decay : (now : ℕ) → Option ℕ → (half_life_hours : F) → F
  decay now none h = lit 5 1
  decay now (some ts) h = exp (div (neg (elapsed_hours now ts)) h)

  abbrev first_date : Option ℕ → Option ℕ → Option ℕ
  first_date none b = b
  first_date (some a) b = some a

  -- `_compute_recency`. A date in the future counts as no time ago.
  unfoldable pub compute_recency : (now : ℕ) → Candidate F → (half_life_hours : F) → F
  compute_recency now c h =
      if at_most (half_life h) (lit 0 1)
      then lit 10 1
      else decay now (first_date c.updated_at c.created_at) (half_life h)

  -- `_exact_match_feature`, as a test. `str.casefold` is an argument.
  unfoldable pub exact_match : (casefold : Text → Text) → (query : Text) → Candidate F → Bool
  exact_match casefold query c =
      let q = casefold (strip query) in
      not (is_empty q)
      && any (λ value. occurs_in q (casefold value))
          (c.text ∷ or_else c.summary [] ∷ or_else c.source [] ∷ c.tags)
