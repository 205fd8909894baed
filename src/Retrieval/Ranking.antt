-- ===== src/Retrieval/Ranking.antt =====
-- `_rank_pool_band` and `rank_candidate_pool` of openclaw_memory_os/retrieval_engine.py. A band's
-- dict from keys to candidates is the list of its values, each under its own key. The diagnostics
-- keep only whether the result is degraded.
use openclaw_memory_os.Prelude.{
  ℕ, suc, ◌+◌, max, String, Bool, true, false, ◌&&◌, ◌||◌, not, Option, none, some, List, [], ◌∷◌,
  ◌++◌, map, ltb, ◌==◌, nat_eq, string_eq, or_else, if◌then◌else◌, length, take,
}
use Prim.Native.String.{compare}
use Prim.Native.Nat.{Ordering}
use openclaw_memory_os.Prelude.Floats.{Floats}
use openclaw_memory_os.Prelude.Table.{lookup, insert}
use openclaw_memory_os.Prelude.Text.{Text}
use openclaw_memory_os.Policy.{Policy}
use openclaw_memory_os.Retrieval.{
  add_unseen, Candidate, QueryCandidatePool, py_min, calibrate, compute_recency, exact_match,
}

pub record RetrievalResult (F : Type 0) : Type 0 where
  pub hits : List (Candidate F)
  pub degraded : Bool
  pub active_count : ℕ
  pub fallback_used : Bool
  pub fallback_added : ℕ

module _ {F : Type 0} where
  -- `base[key] = candidate`
  unfoldable pub put : Candidate F → List (Candidate F) → List (Candidate F)
  put c [] = c ∷ []
  put c (d ∷ base) = if d.candidate_key == c.candidate_key then c ∷ base else d ∷ put c base

  unfoldable pub put_all : List (Candidate F) → List (Candidate F) → List (Candidate F)
  unfolding put
  put_all [] base = base
  put_all (c ∷ cs) base = put_all cs (put c base)

  -- `{c.candidate_key: i for i, c in enumerate(cs, start=i)}`
  abbrev pub ranks : ℕ → List (Candidate F) → List (String × ℕ) → List (String × ℕ)
  ranks i [] t = t
  ranks i (c ∷ cs) t = ranks (suc i) cs (insert c.candidate_key i t)

module _ (floats : Floats) where
  open floats use {F, lit, add, sub, mul, div, neg, lt, is_nan}

  abbrev pub key_before : String → String → Bool
  key_before a b = elim (compare a b) [ Ordering.lt ↦ true | _ ↦ false ]

  -- `<` on the sort keys `(-c.score, c.candidate_key)`.
  abbrev pub before : Candidate F → Candidate F → Bool
  before a b =
      if not (lt (neg a.score) (neg b.score))
        && not (lt (neg b.score) (neg a.score))
        && not (is_nan a.score)
        && not (is_nan b.score)
      then key_before a.candidate_key b.candidate_key
      else lt (neg a.score) (neg b.score)

  unfoldable pub place : Candidate F → List (Candidate F) → List (Candidate F)
  place c [] = c ∷ []
  place c (d ∷ ds) = if before d c then d ∷ place c ds else c ∷ d ∷ ds

  -- The stable sort.
  unfoldable pub sort : List (Candidate F) → List (Candidate F)
  unfolding place
  sort [] = []
  sort (c ∷ cs) = place c (sort cs)

  abbrev share : (weight : F) → (rrf_k : ℕ) → Option ℕ → F → F
  share weight k none raw = raw
  share weight k (some rank) raw = add raw (div weight (lit (k + rank) 0))

  module _ (casefold : Text → Text) (now : ℕ) (query : Text) (policy : Policy F) where
    -- The body of the loop over the keys of a band.
    abbrev pub scored :
        (dense_rank lexical_rank : List (String × ℕ))
        → (dense_cal lexical_cal : List (String × F)) → Candidate F
        → Candidate F
    scored dense_rank lexical_rank dense_cal lexical_cal c =
        let w = policy.weights in
        let k = c.candidate_key in
        let max_rrf =
          div (add w.rrf_dense_weight w.rrf_lexical_weight) (lit (max 1 (policy.rrf_k + 1)) 0) in
        let raw = share w.rrf_dense_weight policy.rrf_k (lookup k dense_rank) (lit 0 1) in
        let raw = share w.rrf_lexical_weight policy.rrf_k (lookup k lexical_rank) raw in
        let rrf = if lt (lit 0 1) max_rrf then div raw max_rrf else lit 0 1 in
        let vector = or_else (lookup k dense_cal) (lit 0 1) in
        let plain = or_else (lookup k lexical_cal) (lit 0 1) in
        let lexical =
          if exact_match floats casefold query c
          then py_min floats (lit 10 1) (add plain (mul (lit 2 2) w.exact_match_boost))
          else plain in
        let recency = compute_recency floats now c w.recency_half_life_hours in
        record c {
          dense_score = some vector;
          lexical_score = some lexical;
          rrf_score = some rrf;
          score =
              add
                (add
                  (add
                    (add (add (mul w.final_rrf_weight rrf) (mul w.final_vector_weight vector))
                      (mul w.final_lexical_weight lexical))
                    (mul w.importance_weight c.importance))
                  (mul w.recency_weight recency))
                (mul w.feedback_weight (lit 0 1));
        }

    -- `_rank_pool_band`; `base.setdefault` passes over a key that is there.
    unfoldable pub rank_pool_band : (dense lexical : List (Candidate F)) → List (Candidate F)
    unfolding put_all sort
    rank_pool_band dense lexical =
        let d = take (max 1 policy.dense_k) dense in
        let l = take (max 1 policy.lexical_k) lexical in
        sort (
          map
            (scored (ranks 1 d []) (ranks 1 l []) (calibrate floats (λ c. c.dense_score) d)
              (calibrate floats (λ c. c.lexical_score) l))
            (add_unseen l (put_all d [])))

  abbrev lowest : F → List (Candidate F) → F
  lowest m [] = m
  lowest m (c ∷ cs) = lowest (py_min floats m c.score) cs

  abbrev pub floor_of : Candidate F → List (Candidate F) → F
  floor_of c cs = sub (lowest c.score cs) (lit 1 3)

  -- `candidate.score = min(candidate.score, floor)`
  abbrev pub lower_to : F → Candidate F → Candidate F
  lower_to floor c = record c { score = py_min floats c.score floor }

  -- The superseded hits below the active ones.
  abbrev pub lowered : (active superseded : List (Candidate F)) → List (Candidate F)
  lowered [] superseded = superseded
  lowered (c ∷ cs) superseded = map (lower_to (floor_of c cs)) superseded

  module _ (casefold : Text → Text) (now : ℕ) (policy : Policy F) where
    abbrev pub fallback : QueryCandidatePool F → (active : List (Candidate F)) → List (Candidate F)
    fallback pool active =
        if ltb (length active) policy.fallback_min_results
        then sort (
            lowered active (
              rank_pool_band casefold now pool.query policy pool.dense_superseded
                pool.lexical_superseded))
        else []

    -- `rank_candidate_pool`. A limit below one counts as one.
    unfoldable pub rank_candidate_pool : QueryCandidatePool F → (limit : ℕ) → RetrievalResult F
    unfolding sort rank_pool_band
    rank_candidate_pool pool limit =
        let active =
          rank_pool_band casefold now pool.query policy pool.dense_active pool.lexical_active in
        let superseded = fallback pool active in
        record {
          hits = take (max 1 limit) (active ++ superseded);
          degraded = not pool.dense_available || not pool.lexical_available;
          active_count = length active;
          fallback_used = ltb (length active) policy.fallback_min_results;
          fallback_added = length superseded;
        }
