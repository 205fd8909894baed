-- ===== src/Evaluation/Partition.antt =====
-- `split_cases` of openclaw_memory_os/evaluation.py keeps the cases of a query together, and loses none.
use openclaw_memory_os.Prelude.{
  ◌≡◌, refl, sym, ap, ◌∙◌, ◌≢◌, inl, inr, false, some, List, [], ◌∷◌, ◌++◌, arith, ◌==◌, ==_iff,
  nat_eq, string_eq, list_eq, pair_eq, Bool-cases, is_some, or_else, if◌then◌else◌, keep, Result,
  ok, err, ◌>>=◌,
}
use openclaw_memory_os.Prelude.Text.{Text}
use openclaw_memory_os.Prelude.Table.{lookup, lookup-insert}
use openclaw_memory_os.Prelude.Count.{count}
use openclaw_memory_os.Evaluation.{Unicode, Case, Clock, normalize_query}
use openclaw_memory_os.Evaluation.Split.{
  Split, Bucket, to_train, to_validation, to_test, Groups, add_case, group_cases, no_groups, Ratios,
  slices, place, append_to, fill, empty_split, representatives, sort_onto, split_cases,
}
use openclaw_memory_os.Evaluation.Buckets.{
  contents, same_bucket, same_bucket_refl, same_bucket→eq, append_assoc, append_nil, keep-append,
  count-append, copies, copies-step, copies-known, contents-append_to,
}

module _ (unicode : Unicode) where
  -- The cases of a normalised query, in order.
  abbrev pub of_query : Text → List Case → List Case
  of_query q cases = keep (λ c. normalize_query unicode c.query_text == q) cases

  abbrev pub members : Text → Groups → List Case
  members q g = or_else (lookup q g.groups) []

  members-add_case :
      (q : Text) (c : Case) (g : Groups)
      → members q (add_case unicode c g) ≡ members q g ++ of_query q (c ∷ [])
  unfolding add_case
  members-add_case q c g =
      rw lookup-insert (elim (Bool-cases (normalize_query unicode c.query_text == q)) [
        | inl h ↦ rw h (ap (λ k. members k g ++ (c ∷ [])) ((==_iff _ _).0 h))
        | inr h ↦ rw h (sym (append_nil (members q g)))
      ])

  pub members-group_cases :
      (q : Text) (cases : List Case) (g : Groups)
      → members q (group_cases unicode cases g) ≡ members q g ++ of_query q cases
  unfolding group_cases
  members-group_cases q [] g = sym (append_nil (members q g))
  members-group_cases q (c ∷ cases) g =
      members-group_cases q cases (add_case unicode c g)
      ∙ ap (λ t. t ++ of_query q cases) (members-add_case q c g)
      ∙ append_assoc (members q g) (of_query q (c ∷ [])) (of_query q cases)
      ∙ ap (λ t. members q g ++ t)
          (sym (keep-append (λ d. normalize_query unicode d.query_text == q) (c ∷ []) cases))

  -- The order names each group once.
  abbrev pub IsOrdered : Groups → Type 0
  IsOrdered g = (q : Text) → count q g.group_order ≡ (if is_some (lookup q g.groups) then 1 else 0)

  ordered-known :
      (norm q : Text) (new : List Case) (table : List (Text × List Case)) (order : List Text)
      → count q order ≡ (if is_some (lookup q table) then 1 else 0)
      → count norm order ≡ (if is_some (lookup norm table) then 1 else 0)
      → count q (if is_some (lookup norm table) then order else order ++ (norm ∷ []))
        ≡ (if is_some (if norm == q then some new else lookup q table) then 1 else 0)
  unfolding count
  ordered-known norm q new table order h k =
      ground (arith, count-append q order (norm ∷ []), ==_iff norm q)

  add_case-IsOrdered : (c : Case) (g : Groups) → IsOrdered g → IsOrdered (add_case unicode c g)
  unfolding add_case
  add_case-IsOrdered c g h q =
      rw lookup-insert (
        ordered-known (normalize_query unicode c.query_text) q _ g.groups g.group_order (h q) (h _))

  pub group_cases-IsOrdered :
      (cases : List Case) (g : Groups) → IsOrdered g → IsOrdered (group_cases unicode cases g)
  unfolding group_cases
  group_cases-IsOrdered [] g h = h
  group_cases-IsOrdered (c ∷ cases) g h =
      group_cases-IsOrdered cases (add_case unicode c g) (add_case-IsOrdered c g h)

  -- What a group adds to a bucket.
  abbrev piece : Bucket → Split → List Case → List Case
  piece b reps cases = if same_bucket (place reps cases) b then cases else []

  of_query-of_query :
      (q k : Text) (cases : List Case)
      → of_query q (of_query k cases) ≡ (if k == q then of_query k cases else [])
  of_query-of_query q k [] = ground arith
  of_query-of_query q k (c ∷ cases) = ground (
    arith,
    of_query-of_query q k cases,
    ==_iff k q,
    ==_iff (normalize_query unicode c.query_text) k,
    ==_iff (normalize_query unicode c.query_text) q,
  )

  of_query-piece :
      (q k : Text) (b : Bucket) (reps : Split) (cases : List Case)
      → of_query q (piece b reps (of_query k cases))
        ≡ (if k == q then piece b reps (of_query q cases) else [])
  of_query-piece q k b reps cases = ground (arith, of_query-of_query q k cases, ==_iff k q)

  module _ (reps : Split) (groups : List (Text × List Case)) (cases : List Case) (q : Text)
      (b : Bucket) where
    of_query-fill :
        ((k : Text) → or_else (lookup k groups) [] ≡ of_query k cases)
        → (order : List Text) (s : Split)
        → of_query q (contents b (fill reps groups order s))
          ≡ of_query q (contents b s) ++ copies (count q order) (piece b reps (of_query q cases))
    unfolding fill count
    of_query-fill h [] s = sym (append_nil (of_query q (contents b s)))
    of_query-fill h (k ∷ order) s =
        ap (λ ms. of_query q (contents b (fill reps groups order (append_to (place reps ms) ms s))))
          (h k)
        ∙ of_query-fill h order (append_to (place reps (of_query k cases)) (of_query k cases) s)
        ∙ ap (λ t. t ++ copies (count q order) (piece b reps (of_query q cases)))
            (ap (λ xs. of_query q xs)
                (contents-append_to (place reps (of_query k cases)) b (of_query k cases) s)
              ∙ keep-append (λ d. normalize_query unicode d.query_text == q) (contents b s)
                  (piece b reps (of_query k cases))
              ∙ ap (λ t. of_query q (contents b s) ++ t) (of_query-piece q k b reps cases))
        ∙ copies-step (k == q) (of_query q (contents b s)) (piece b reps (of_query q cases))
            (count q order)

  pub no_groups-IsOrdered : IsOrdered no_groups
  unfolding lookup count
  no_groups-IsOrdered q = refl

  missing-nil :
      (q : Text) (cases : List Case)
      → is_some (lookup q (group_cases unicode cases no_groups).groups) ≡ false
      → of_query q cases ≡ []
  unfolding lookup
  missing-nil q cases h = ground (arith, members-group_cases q cases no_groups)

  piece-nil : (b : Bucket) (reps : Split) (cs : List Case) → cs ≡ [] → piece b reps cs ≡ []
  piece-nil b reps cs h = ground arith

  contents-empty : (q : Text) (b : Bucket) → of_query q (contents b empty_split) ≡ []
  contents-empty q to_train = refl
  contents-empty q to_validation = refl
  contents-empty q to_test = refl

  -- A bucket has all cases of a query, or none.
  grouped-contents :
      (reps : Split) (cases : List Case) (q : Text) (b : Bucket)
      → let g = group_cases unicode cases no_groups in
        of_query q (contents b (fill reps g.groups g.group_order empty_split))
        ≡ piece b reps (of_query q cases)
  unfolding lookup
  grouped-contents reps cases q b =
      let g = group_cases unicode cases no_groups in
      of_query-fill reps g.groups cases q b (λ k. members-group_cases k cases no_groups)
        g.group_order empty_split
      ∙ ap (λ t. t ++ copies (count q g.group_order) (piece b reps (of_query q cases)))
          (contents-empty q b)
      ∙ ap (λ n. copies n (piece b reps (of_query q cases)))
          (group_cases-IsOrdered cases no_groups no_groups-IsOrdered q)
      ∙ copies-known (is_some (lookup q g.groups)) (piece b reps (of_query q cases))
          (λ e. piece-nil b reps (of_query q cases) (missing-nil q cases e))

-- What a chain that returns has returned.
last-ok :
    {B C : Type 0} (m : Result B) (last : B → C) (c : C)
    → (m >>= (λ b. ok (last b))) ≡ ok c
    → (b : B) × (c ≡ last b)
last-ok (err e) last c h = ground arith
last-ok (ok b) last c h = (b, ground arith)

ends-ok :
    {A B C : Type 0} (first : Result A) (second : A → Result B) (last : B → C) (c : C)
    → (first >>= (λ a. second a >>= (λ b. ok (last b)))) ≡ ok c
    → (b : B) × (c ≡ last b)
ends-ok (err e) second last c h = ground arith
ends-ok (ok a) second last c h = last-ok (second a) last c h

module _ (unicode : Unicode) (clock : Clock) (r : Ratios) (cases : List Case) (s : Split) where
  split_cases-fill :
      split_cases unicode clock r cases ≡ ok s
      → let g = group_cases unicode cases no_groups in
        (reps : Split) × (s ≡ fill reps g.groups g.group_order empty_split)
  unfolding split_cases
  split_cases-fill h =
      let g = group_cases unicode cases no_groups in
      let (sorted, e) =
        ends-ok (representatives clock g.groups g.group_order) (sort_onto clock [])
          (λ sorted. fill (slices r sorted) g.groups g.group_order empty_split) s h in
      (slices r sorted, e)

  held :
      (reps : Split)
      → (let g = group_cases unicode cases no_groups in
          s ≡ fill reps g.groups g.group_order empty_split)
      → (q : Text) (b : Bucket)
      → of_query unicode q (contents b s) ≡ piece unicode b reps (of_query unicode q cases)
  held reps e q b =
      ap (λ t. of_query unicode q (contents b t)) e ∙ grouped-contents unicode reps cases q b

  -- If `split_cases` returns, then for each normalised query there is a bucket that has all cases of that
  -- query, in their order, and the two other buckets have none of them.
  pub split_cases-of_query :
      split_cases unicode clock r cases ≡ ok s
      → (q : Text)
      → (b : Bucket) × ((of_query unicode q (contents b s) ≡ of_query unicode q cases)
          × ((other : Bucket) → b ≢ other → of_query unicode q (contents other s) ≡ []))
  split_cases-of_query h q =
      let (reps, e) = split_cases-fill h in
      let b = place reps (of_query unicode q cases) in
      (
        b,
        (
          held reps e q b ∙ ground (arith, same_bucket_refl b),
          λ other. λ ne. held reps e q other ∙ ground (arith, ne, same_bucket→eq b other),
        ),
      )
