-- ===== src/Migration/Copied.antt =====
-- The columns and the rows of the feedback table that `_migration_v2_to_v3` of
-- openclaw_memory_os/migration.py copies.
use openclaw_memory_os.Prelude.{
  String, ◌≡◌, refl, subst, ◌∙◌, inl, inr, Bool, true, false, none, List, [], ◌∷◌, ◌++◌, map, arith,
  ◌==◌, ==_iff, ==_refl, nat_eq, string_eq, list_eq, pair_eq, Bool-cases, if◌then◌else◌, keep, All,
}
use openclaw_memory_os.Prelude.Table.{lookup}
use openclaw_memory_os.Migration.Feedback.{has_column, add_columns, ordered, default_for, copied}

abbrev SameCells : (columns : List String) → (old new : List (String × String)) → Type 0
SameCells columns old new =
    (c : String)
    → has_column ordered c ≡ true
    → has_column columns c ≡ true
    → lookup c new ≡ lookup c old

-- The rows one by one, with the values of the table's columns that the current schema has.
abbrev pub SameRows : (columns : List String) → (old new : List (List (String × String))) → Type 0
SameRows columns [] [] = Unit
SameRows columns [] (n ∷ new) = ⊥
SameRows columns (o ∷ old) [] = ⊥
SameRows columns (o ∷ old) (n ∷ new) = SameCells columns o n × SameRows columns old new

pub SameRows-refl :
    (columns : List String) (rows : List (List (String × String))) → SameRows columns rows rows
SameRows-refl columns [] = tt
SameRows-refl columns (r ∷ rows) = ((λ c. λ h. λ k. refl), SameRows-refl columns rows)

pub clash : {b : Bool} → b ≡ true → b ≡ false → ⊥
clash {b = true} h e = cc
clash {b = false} h e = cc

lookup-kept :
    (c : String) (row : List (String × String))
    → has_column ordered c ≡ true
    → lookup c (keep (λ cell. has_column ordered cell.0) row) ≡ lookup c row
unfolding lookup
lookup-kept c [] h = refl
lookup-kept c ((d, v) ∷ row) h = elim (Bool-cases (has_column ordered d)) [
  | inl e ↦ rw e (rw (lookup-kept c row h) refl)
  | inr e ↦ rw e (elim (Bool-cases (d == c)) [
    | inl p ↦ absurd (clash h (subst (λ x. has_column ordered x ≡ false) ((==_iff d c).0 p) e))
    | inr p ↦ rw p (lookup-kept c row h)
  ])
]

lookup-default_for :
    (c d v : String) (existing : List String)
    → has_column existing c ≡ true
    → lookup c (default_for existing d v) ≡ none
unfolding lookup
lookup-default_for c d v existing h = elim (Bool-cases (has_column existing d)) [
  | inl e ↦ rw e refl
  | inr e ↦ rw e (elim (Bool-cases (d == c)) [
    | inl p ↦ absurd (clash h (subst (λ x. has_column existing x ≡ false) ((==_iff d c).0 p) e))
    | inr p ↦ rw p refl
  ])
]

lookup-append :
    (c : String) (xs ys : List (String × String))
    → lookup c ys ≡ none
    → lookup c (xs ++ ys) ≡ lookup c xs
unfolding lookup
lookup-append c [] ys h = h
lookup-append c ((d, v) ∷ xs) ys h = ground (arith, lookup-append c xs ys)

lookup-copied :
    (c now : String) (existing : List String) (row : List (String × String))
    → has_column ordered c ≡ true
    → has_column existing c ≡ true
    → lookup c (copied now existing row) ≡ lookup c row
lookup-copied c now existing row h k =
    lookup-append c _ (default_for existing "feedback_source" "dashboard")
      (lookup-default_for c "feedback_source" "dashboard" existing k)
    ∙ (lookup-append c _ (default_for existing "created_at" now)
          (lookup-default_for c "created_at" now existing k)
        ∙ lookup-kept c row h)

pub copied-SameRows :
    (now : String) (columns existing : List String) (rows : List (List (String × String)))
    → ((c : String) → has_column columns c ≡ true → has_column existing c ≡ true)
    → SameRows columns rows (map (copied now existing) rows)
copied-SameRows now columns existing [] w = tt
copied-SameRows now columns existing (r ∷ rows) w = (
  (λ c. λ h. λ k. lookup-copied c now existing r h (w c k)),
  copied-SameRows now columns existing rows w,
)

has_column-append :
    (c d : String) (columns : List String)
    → has_column columns c ≡ true
    → has_column (columns ++ (d ∷ [])) c ≡ true
has_column-append c d [] h = cc
has_column-append c d (e ∷ columns) h = ground (arith, has_column-append c d columns)

has_column-last : (c : String) (columns : List String) → has_column (columns ++ (c ∷ [])) c ≡ true
has_column-last c [] = ground (arith, ==_refl c)
has_column-last c (e ∷ columns) = ground (arith, has_column-last c columns)

add_one-has_column :
    (c d : String) (columns : List String)
    → has_column columns c ≡ true
    → has_column (if has_column columns d then columns else columns ++ (d ∷ [])) c ≡ true
add_one-has_column c d columns h = elim (Bool-cases (has_column columns d)) [
  | inl e ↦ rw e h
  | inr e ↦ rw e (has_column-append c d columns h)
]

added-has_column :
    (d : String) (columns : List String)
    → has_column (if has_column columns d then columns else columns ++ (d ∷ [])) d ≡ true
added-has_column d columns = elim (Bool-cases (has_column columns d)) [
  | inl e ↦ rw e e
  | inr e ↦ rw e (has_column-last d columns)
]

pub add_columns-keeps :
    (c : String) (added columns : List String)
    → has_column columns c ≡ true
    → has_column (add_columns added columns) c ≡ true
unfolding add_columns
add_columns-keeps c [] columns h = h
add_columns-keeps c (d ∷ added) columns h =
    add_columns-keeps c added _ (add_one-has_column c d columns h)

pub add_columns-has :
    (added columns : List String) → All (λ c. has_column (add_columns added columns) c ≡ true) added
unfolding add_columns
add_columns-has [] columns = tt
add_columns-has (c ∷ added) columns =
    (add_columns-keeps c added _ (added-has_column c columns), add_columns-has added _)

pub add_columns-absorbed :
    (added columns : List String)
    → All (λ c. has_column columns c ≡ true) added
    → add_columns added columns ≡ columns
unfolding add_columns
add_columns-absorbed [] columns a = refl
add_columns-absorbed (c ∷ added) columns (h, a) = rw h (add_columns-absorbed added columns a)
