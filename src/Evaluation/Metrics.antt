-- ===== src/Evaluation/Metrics.antt =====
-- The metrics of a ranking in openclaw_memory_os/evaluation.py. A set is a list without repeated keys;
-- `log2` is `math.log2`.
use openclaw_memory_os.Prelude.{
  ℕ, zero, suc, ◌+◌, min, Bool, ◌&&◌, ◌||◌, not, Option, none, some, List, [], ◌∷◌, ◌==◌, nat_eq,
  string_eq, list_eq, pair_eq, if◌then◌else◌, length, take, keep, count_if, any,
}
use openclaw_memory_os.Prelude.Text.{Text, is_empty}
use openclaw_memory_os.Prelude.Floats.{Floats}

abbrev pub member : Text → List Text → Bool
member d keys = any (λ k. k == d) keys

-- `len(set(ranked[:k]) & relevant)`
unfoldable pub hits : List Text → List Text → ℕ → ℕ
hits ranked relevant k = count_if (λ d. member d (take k ranked)) relevant

-- The place of the first relevant document, from 1.
unfoldable pub first_rank : List Text → List Text → ℕ → Option ℕ
first_rank [] relevant i = none
first_rank (doc ∷ ranked) relevant i =
    let later = first_rank ranked relevant (suc i) in
    if member doc relevant then some (suc i) else later

-- `added` of `_useful_superseded_fallback_rate`
unfoldable pub added_hits : List Text → List Text → List Text
added_hits active fallback = keep (λ h. not (is_empty h) && not (member h active)) fallback

module _ (floats : Floats) (log2 : floats.F → floats.F) where
  open floats use {F, lit, add, div, lt}

  abbrev pub whole : ℕ → F
  whole n = lit n 0

  unfoldable pub recall_at_k : List Text → List Text → ℕ → F
  recall_at_k ranked relevant k =
      if length relevant == 0
      then whole 0
      else div (whole (hits ranked relevant k)) (whole (length relevant))

  abbrev pub reciprocal : Option ℕ → F
  reciprocal none = whole 0
  reciprocal (some rank) = div (lit 1 0) (whole rank)

  unfoldable pub mrr : List Text → List Text → F
  mrr ranked relevant =
      if length relevant == 0 then whole 0 else reciprocal (first_rank ranked relevant 0)

  -- The sum of the discounted gains of the items from place `i` on.
  abbrev pub discounted : ℕ → List F → F → F
  discounted i [] sum = sum
  discounted i (gain ∷ gains) sum =
      discounted (suc i) gains (add sum (div gain (log2 (whole (i + 2)))))

  -- The gain of an item is 1 if it is relevant; the code adds nothing for the others.
  abbrev pub binary_dcg : ℕ → List Text → List Text → F → F
  binary_dcg i [] relevant sum = sum
  binary_dcg i (doc ∷ ranked) relevant sum =
      binary_dcg (suc i) ranked relevant
        (if member doc relevant then add sum (div (lit 1 0) (log2 (whole (i + 2)))) else sum)

  abbrev ones : ℕ → List F
  ones zero = []
  ones (suc n) = lit 1 0 ∷ ones n

  abbrev ratio_of : F → F → F
  ratio_of dcg idcg = if lt (whole 0) idcg then div dcg idcg else whole 0

  unfoldable pub ndcg_at_k : List Text → List Text → ℕ → F
  ndcg_at_k ranked relevant k =
      let num_rel = min (length relevant) k in
      if length relevant == 0 || num_rel == 0
      then whole 0
      else ratio_of (binary_dcg 0 (take k ranked) relevant (whole 0))
          (discounted 0 (ones num_rel) (whole 0))

  -- `_useful_at_k` with the positives, `_explicit_negative_at_k` with the negatives.
  unfoldable pub share_at_k : List Text → List Text → ℕ → F
  share_at_k ranked wanted k =
      let top_k = take k ranked in
      if length top_k == 0
      then whole 0
      else div (whole (count_if (λ d. member d wanted) top_k)) (whole (min (length top_k) k))

  unfoldable pub useful_superseded_fallback_rate : List Text → List Text → List Text → Option F
  useful_superseded_fallback_rate active fallback judged_positives =
      let added = added_hits active fallback in
      if length judged_positives == 0 || length added == 0
      then none
      else some
          (div (whole (count_if (λ h. member h judged_positives) added)) (whole (length added)))
