-- ===== src/Evaluation/Split.antt =====
-- `split_cases` of openclaw_memory_os/evaluation.py. The ratios are given in hundredths, where the code
-- has floats.
use openclaw_memory_os.Prelude.{
  ℕ, suc, ◌+◌, ◌*◌, ◌/◌, ◌%◌, min, max, Bool, List, [], ◌∷◌, ◌++◌, ltb, leb, ◌==◌, nat_eq,
  string_eq, list_eq, pair_eq, is_some, or_else, if◌then◌else◌, length, take, drop, any,
  value_error, Result, ok, err, ◌>>=◌,
}
use openclaw_memory_os.Prelude.Text.{Text}
use openclaw_memory_os.Prelude.Table.{lookup, insert}
use openclaw_memory_os.Evaluation.{
  Unicode, Case, Clock, Key, normalize_query, sort_key_for_timestamp, key_less,
}

pub record Split : Type 0 where
  pub train : List Case
  pub validation : List Case
  pub test : List Case

pub data Bucket : Type 0 where
  to_train to_validation to_test : Bucket

-- The `groups` and `group_order` of the code.
pub record Groups : Type 0 where
  pub groups : List (Text × List Case)
  pub group_order : List Text

unfoldable pub add_case : Unicode → Case → Groups → Groups
add_case unicode c g =
    let norm = normalize_query unicode c.query_text in
    let members = or_else (lookup norm g.groups) [] in
    record {
      groups = insert norm (members ++ (c ∷ [])) g.groups;
      group_order =
          if is_some (lookup norm g.groups) then g.group_order else g.group_order ++ (norm ∷ []);
    }

unfoldable pub group_cases : Unicode → List Case → Groups → Groups
group_cases unicode [] g = g
group_cases unicode (c ∷ cases) g = group_cases unicode cases (add_case unicode c g)

module _ (clock : Clock) where
  abbrev pub key_of : Case → Key
  key_of c = sort_key_for_timestamp clock c.created_at

  -- `min(members, key=...)`, with the first member as the least so far.
  unfoldable pub earliest : Case → List Case → Result Case
  earliest best [] = ok best
  earliest best (m ∷ members) = do
    less ← key_less (key_of m) (key_of best)
    earliest (if less then m else best) members

  -- The representative of a group; `min` of no members raises.
  unfoldable pub representative : List Case → Result Case
  representative [] = err value_error
  representative (m ∷ members) = earliest m members

  -- The representatives, in the order of the groups.
  unfoldable pub representatives : List (Text × List Case) → List Text → Result (List Case)
  representatives groups [] = ok []
  representatives groups (norm ∷ order) = do
    rep ← representative (or_else (lookup norm groups) [])
    reps ← representatives groups order
    ok (rep ∷ reps)

  -- Python's stable sort, with comparisons that may raise.
  unfoldable pub insert_sorted : Case → List Case → Result (List Case)
  insert_sorted c [] = ok (c ∷ [])
  insert_sorted c (r ∷ reps) =
      let rest = insert_sorted c reps in
      do
        less ← key_less (key_of c) (key_of r)
        if less then ok (c ∷ r ∷ reps) else (rest >>= (λ after. ok (r ∷ after)))

  unfoldable pub sort_onto : List Case → List Case → Result (List Case)
  sort_onto sorted [] = ok sorted
  sort_onto sorted (c ∷ cases) = do more ← insert_sorted c sorted; sort_onto more cases

-- `int(round(n * ratio))`: a half goes to the even neighbour.
abbrev pub round_ratio : ℕ → ℕ → ℕ
round_ratio n ratio =
    let whole = n * ratio / 100 in
    let part = n * ratio % 100 in
    if ltb part 50 then whole else if part == 50 then whole + whole % 2 else suc whole

pub record Ratios : Type 0 where
  pub train_ratio : ℕ
  pub val_ratio : ℕ
  pub test_ratio : ℕ

unfoldable pub train_end : Ratios → ℕ → ℕ
train_end r n =
    if r.train_ratio + r.val_ratio + r.test_ratio == 0
    then n
    else max 1 (round_ratio n r.train_ratio)

unfoldable pub val_end : Ratios → ℕ → ℕ
val_end r n =
    let end = train_end r n in
    if r.train_ratio + r.val_ratio + r.test_ratio == 0
    then n
    else min n
        (if leb 3 n then max (suc end) (round_ratio n (r.train_ratio + r.val_ratio)) else end)

-- `id(m) in set(id(r) for r in reps)`
abbrev pub has_id : List Case → Case → Bool
has_id reps m = any (λ r. r.address == m.address) reps

-- The bucket of a group: that of its first member among the representatives.
unfoldable pub place : Split → List Case → Bucket
place reps [] = to_train
place reps (m ∷ members) =
    let later = place reps members in
    if has_id reps.train m
    then to_train
    else if has_id reps.validation m
    then to_validation
    else if has_id reps.test m
    then to_test
    else later

abbrev pub append_to : Bucket → List Case → Split → Split
append_to to_train members s = record {
  train = s.train ++ members;
  validation = s.validation;
  test = s.test;
}
append_to to_validation members s = record {
  train = s.train;
  validation = s.validation ++ members;
  test = s.test;
}
append_to to_test members s = record {
  train = s.train;
  validation = s.validation;
  test = s.test ++ members;
}

unfoldable pub fill : Split → List (Text × List Case) → List Text → Split → Split
fill reps groups [] s = s
fill reps groups (norm ∷ order) s =
    let members = or_else (lookup norm groups) [] in
    fill reps groups order (append_to (place reps members) members s)

abbrev pub empty_split : Split
empty_split = record { train = []; validation = []; test = [] }

-- `representatives[:train_end]`, `[train_end:val_end]` and `[val_end:]`
abbrev pub slices : Ratios → List Case → Split
slices r reps = record {
  train = take (train_end r (length reps)) reps;
  validation = drop (train_end r (length reps)) (take (val_end r (length reps)) reps);
  test = drop (val_end r (length reps)) reps;
}

abbrev pub no_groups : Groups
no_groups = record { groups = []; group_order = [] }

-- No case gives no group, hence three empty lists, as in the code's early return.
unfoldable pub split_cases : Unicode → Clock → Ratios → List Case → Result Split
split_cases unicode clock r cases =
    let g = group_cases unicode cases no_groups in
    do
      reps ← representatives clock g.groups g.group_order
      sorted ← sort_onto clock [] reps
      ok (fill (slices r sorted) g.groups g.group_order empty_split)
