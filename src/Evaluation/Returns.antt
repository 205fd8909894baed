-- ===== src/Evaluation/Returns.antt =====
-- When `split_cases` of openclaw_memory_os/evaluation.py can order the timestamps.
use openclaw_memory_os.Prelude.{
  ℕ, ◌≡◌, refl, sym, subst, ◌≢◌, ◌⊎◌, inl, inr, Bool, true, false, some, List, [], ◌∷◌, ◌++◌, arith,
  ltb, ◌==◌, ==_refl, nat_eq, string_eq, list_eq, pair_eq, Bool-cases, or_else, if◌then◌else◌, All,
  ok, ◌>>=◌,
}
use openclaw_memory_os.Prelude.Text.{Text}
use openclaw_memory_os.Prelude.Text.{Text}
use openclaw_memory_os.Prelude.Table.{lookup, lookup-insert}
use openclaw_memory_os.Prelude.Count.{count}
use openclaw_memory_os.Evaluation.{
  Unicode, Case, Clock, Key, absent, ordinal, moment, raw, normalize_query, key_less,
}
use openclaw_memory_os.Evaluation.Split.{
  Split, Groups, add_case, group_cases, no_groups, Ratios, key_of, earliest, representative,
  representatives, insert_sorted, sort_onto, split_cases, fill, slices, empty_split,
}
use openclaw_memory_os.Evaluation.Partition.{
  of_query, members, members-group_cases, group_cases-IsOrdered, no_groups-IsOrdered,
}

-- The kinds of keys that are ordered with each other, and 0 for an absent one.
abbrev pub kind_of : Key → ℕ
kind_of absent = 0
kind_of (ordinal n) = 1
kind_of (moment false n) = 2
kind_of (moment true n) = 3
kind_of (raw t) = 4

abbrev pub IsOf : ℕ → Key → Type 0
IsOf kind key = (kind_of key ≡ 0) ⊎ (kind_of key ≡ kind)

key_less-returns :
    (kind : ℕ) (a b : Key) → IsOf kind a → IsOf kind b → (less : Bool) × (key_less a b ≡ ok less)
unfolding key_less
key_less-returns kind absent absent h k = (false, refl)
key_less-returns kind absent (ordinal n) h k = (false, refl)
key_less-returns kind absent (moment z n) h k = (false, refl)
key_less-returns kind absent (raw t) h k = (false, refl)
key_less-returns kind (ordinal m) absent h k = (true, refl)
key_less-returns kind (moment y m) absent h k = (true, refl)
key_less-returns kind (raw s) absent h k = (true, refl)
key_less-returns kind (ordinal m) (ordinal n) h k = (ltb m n, refl)
key_less-returns kind (moment false m) (moment false n) h k = (ltb m n, refl)
key_less-returns kind (moment true m) (moment true n) h k = (ltb m n, refl)
key_less-returns kind (raw s) (raw t) h k = (_, refl)
key_less-returns kind (ordinal m) (moment false n) h k = absurd (ground arith)
key_less-returns kind (ordinal m) (moment true n) h k = absurd (ground arith)
key_less-returns kind (ordinal m) (raw t) h k = absurd (ground arith)
key_less-returns kind (moment false m) (ordinal n) h k = absurd (ground arith)
key_less-returns kind (moment true m) (ordinal n) h k = absurd (ground arith)
key_less-returns kind (moment false m) (moment true n) h k = absurd (ground arith)
key_less-returns kind (moment true m) (moment false n) h k = absurd (ground arith)
key_less-returns kind (moment false m) (raw t) h k = absurd (ground arith)
key_less-returns kind (moment true m) (raw t) h k = absurd (ground arith)
key_less-returns kind (raw s) (ordinal n) h k = absurd (ground arith)
key_less-returns kind (raw s) (moment false n) h k = absurd (ground arith)
key_less-returns kind (raw s) (moment true n) h k = absurd (ground arith)

module _ (clock : Clock) (kind : ℕ) where
  -- The timestamps of the cases are of one kind, or missing.
  abbrev pub AllOf : List Case → Type 0
  AllOf cases = All (λ c. IsOf kind (key_of clock c)) cases

  picked :
      (less : Bool) (m best : Case)
      → IsOf kind (key_of clock m)
      → IsOf kind (key_of clock best)
      → IsOf kind (key_of clock (if less then m else best))
  picked true m best h k = h
  picked false m best h k = k

  inserted :
      (less : Bool) (c r : Case) (reps more : List Case)
      → IsOf kind (key_of clock c)
      → IsOf kind (key_of clock r)
      → AllOf reps
      → insert_sorted clock c reps ≡ ok more
      → AllOf more
      → (all : List Case) × (((if less
              then ok (c ∷ r ∷ reps)
              else (insert_sorted clock c reps >>= (λ after. ok (r ∷ after))))
            ≡ ok all)
          × AllOf all)
  inserted true c r reps more h g a e b = (c ∷ r ∷ reps, (refl, (h, (g, a))))
  inserted false c r reps more h g a e b = (r ∷ more, (rw e refl, (g, b)))

  earliest-returns :
      (best : Case) (members : List Case)
      → IsOf kind (key_of clock best)
      → AllOf members
      → (rep : Case) × ((earliest clock best members ≡ ok rep) × (IsOf kind (key_of clock rep)))
  unfolding earliest
  earliest-returns best [] h a = (best, (refl, h))
  earliest-returns best (m ∷ members) h (g, a) =
      let (less, e) = key_less-returns kind (key_of clock m) (key_of clock best) g h in
      let (rep, (f, k)) =
        earliest-returns (if less then m else best) members (picked less m best g h) a in
      (rep, (rw e f, k))

  insert_sorted-returns :
      (c : Case) (reps : List Case)
      → IsOf kind (key_of clock c)
      → AllOf reps
      → (more : List Case) × ((insert_sorted clock c reps ≡ ok more) × AllOf more)
  unfolding insert_sorted
  insert_sorted-returns c [] h a = (c ∷ [], (refl, (h, tt)))
  insert_sorted-returns c (r ∷ reps) h (g, a) =
      let (less, e) = key_less-returns kind (key_of clock c) (key_of clock r) h g in
      let (more, (f, b)) = insert_sorted-returns c reps h a in
      let (all, (i, d)) = inserted less c r reps more h g a f b in (all, (rw e i, d))

  sort_onto-returns :
      (sorted cases : List Case)
      → AllOf sorted
      → AllOf cases
      → (all : List Case) × (sort_onto clock sorted cases ≡ ok all)
  unfolding sort_onto
  sort_onto-returns sorted [] a b = (sorted, refl)
  sort_onto-returns sorted (c ∷ cases) a (h, b) =
      let (more, (e, all)) = insert_sorted-returns c sorted h a in
      let (done, f) = sort_onto-returns more cases all b in (done, rw e f)

  -- Some members, whose timestamps are of one kind.
  abbrev IsFilled : List Case → Type 0
  IsFilled [] = ⊥
  IsFilled (m ∷ members) = AllOf (m ∷ members)

  representative-returns :
      (members : List Case)
      → IsFilled members
      → (rep : Case) × ((representative clock members ≡ ok rep) × IsOf kind (key_of clock rep))
  unfolding representative
  representative-returns [] a = absurd a
  representative-returns (m ∷ members) (h, a) = earliest-returns m members h a

  representatives-returns :
      (groups : List (Text × List Case)) (order : List Text)
      → ((q : Text) → count q order ≢ 0 → IsFilled (or_else (lookup q groups) []))
      → (reps : List Case) × ((representatives clock groups order ≡ ok reps) × AllOf reps)
  unfolding representatives count
  representatives-returns groups [] h = ([], (refl, tt))
  representatives-returns groups (norm ∷ order) h =
      let (rep, (e, k)) =
        representative-returns (or_else (lookup norm groups) [])
          (h norm (λ z. ground (arith, z, ==_refl norm))) in
      let (reps, (f, a)) =
        representatives-returns groups order (λ q. λ n. h q (λ z. n (ground (arith, z)))) in
      (rep ∷ reps, (rw e (rw f refl), (k, a)))

  AllOf-of_query :
      (unicode : Unicode) (q : Text) (cases : List Case)
      → AllOf cases
      → AllOf (of_query unicode q cases)
  AllOf-of_query unicode q [] a = tt
  AllOf-of_query unicode q (c ∷ cases) (h, a) =
      elim (Bool-cases (normalize_query unicode c.query_text == q)) [
        | inl e ↦ rw e (h, AllOf-of_query unicode q cases a)
        | inr e ↦ rw e (AllOf-of_query unicode q cases a)
      ]

  IsFilled-AllOf : (cases : List Case) → cases ≢ [] → AllOf cases → IsFilled cases
  IsFilled-AllOf [] ne a = ne refl
  IsFilled-AllOf (c ∷ cases) ne a = a

-- No group is empty.
abbrev NoneEmpty : Groups → Type 0
NoneEmpty g = (q : Text) → lookup q g.groups ≢ some []

append-ne_nil : (xs : List Case) (c : Case) → xs ++ (c ∷ []) ≢ []
append-ne_nil [] c h = ground arith
append-ne_nil (x ∷ xs) c h = ground arith

module _ (unicode : Unicode) where
  add_case-NoneEmpty : (c : Case) (g : Groups) → NoneEmpty g → NoneEmpty (add_case unicode c g)
  unfolding add_case
  add_case-NoneEmpty c g h q e = ground (
    arith,
    e,
    h q,
    append-ne_nil (members unicode (normalize_query unicode c.query_text) g) c,
    lookup-insert (normalize_query unicode c.query_text) q
        (members unicode (normalize_query unicode c.query_text) g ++ (c ∷ [])) g.groups,
  )

  group_cases-NoneEmpty :
      (cases : List Case) (g : Groups) → NoneEmpty g → NoneEmpty (group_cases unicode cases g)
  unfolding group_cases
  group_cases-NoneEmpty [] g h = h
  group_cases-NoneEmpty (c ∷ cases) g h =
      group_cases-NoneEmpty cases (add_case unicode c g) (add_case-NoneEmpty c g h)

  grouped-ne_nil :
      (cases : List Case) (q : Text)
      → count q (group_cases unicode cases no_groups).group_order ≢ 0
      → members unicode q (group_cases unicode cases no_groups) ≢ []
  unfolding lookup
  grouped-ne_nil cases q n e = ground (
    arith,
    n,
    e,
    group_cases-IsOrdered unicode cases no_groups (no_groups-IsOrdered unicode) q,
    group_cases-NoneEmpty cases no_groups (λ k. λ f. ground (arith, f)) q,
  )

  grouped-IsFilled :
      (clock : Clock) (kind : ℕ) (cases : List Case)
      → AllOf clock kind cases
      → (q : Text) → count q (group_cases unicode cases no_groups).group_order ≢ 0
      → IsFilled clock kind (members unicode q (group_cases unicode cases no_groups))
  unfolding lookup
  grouped-IsFilled clock kind cases a q n =
      IsFilled-AllOf clock kind (members unicode q (group_cases unicode cases no_groups))
        (grouped-ne_nil cases q n)
        (subst (λ ms. AllOf clock kind ms) (sym (members-group_cases unicode q cases no_groups))
          (AllOf-of_query clock kind unicode q cases a))

  -- If the timestamps of the cases are all numbers, all moments without a time zone, all moments with
  -- one, or all other texts, where any of them may be missing, then `split_cases` returns.
  pub split_cases-returns :
      (clock : Clock) (kind : ℕ) (r : Ratios) (cases : List Case)
      → AllOf clock kind cases
      → (s : Split) × (split_cases unicode clock r cases ≡ ok s)
  unfolding split_cases
  split_cases-returns clock kind r cases a =
      let g = group_cases unicode cases no_groups in
      let (reps, (e, b)) =
        representatives-returns clock kind g.groups g.group_order
          (grouped-IsFilled clock kind cases a) in
      let (sorted, f) = sort_onto-returns clock kind [] reps tt b in
      (fill (slices r sorted) g.groups g.group_order empty_split, rw e (rw f refl))
