-- ===== src/Lexical/Values.antt =====
-- Lookups among the values that a function has on the entries of a dict, as
-- openclaw_memory_os/lexical.py collects its scores.
use openclaw_memory_os.Prelude.{
  ◌≡◌, refl, ap, ◌∙◌, inl, inr, Option, none, some, List, [], ◌∷◌, arith, ◌==◌, ==_iff, nat_eq,
  string_eq, list_eq, pair_eq, Bool-cases, Option-cases, if◌then◌else◌,
}
use openclaw_memory_os.Prelude.Text.{Text}
use openclaw_memory_os.Prelude.Table.{lookup}
use openclaw_memory_os.Prelude.Count.{IsUnique}
use openclaw_memory_os.Lexical.Search.{with_value, filter_values}

-- The values of a dict under a function.
abbrev pub bind_option : {A B : Type 0} → Option A → (A → Option B) → Option B
bind_option none f = none
bind_option (some a) f = f a

lookup-with_value :
    {W : Type 0} (k j : Text) (o : Option W) (m : List (Text × W))
    → lookup k m ≡ none
    → lookup j (with_value k o m) ≡ (if k == j then o else lookup j m)
unfolding lookup
lookup-with_value k j none m h = ground (arith, ==_iff k j)
lookup-with_value k j (some w) m h = refl

missing_value :
    {V W : Type 0} (f : Text → V → Option W) (k : Text) (m : List (Text × V))
    → lookup k m ≡ none
    → lookup k (filter_values f m) ≡ none
unfolding lookup filter_values
missing_value f k [] h = refl
missing_value f k ((j, v) ∷ m) h = elim (Option-cases (f j v)) [
  | inl e ↦ rw (e, with_value) (missing_value f k m (ground arith))
  | inr (w, e) ↦ rw (e, with_value) (ground (arith, missing_value f k m))
]

pub lookup-filter_values :
    {V W : Type 0} (f : Text → V → Option W) (k : Text) (m : List (Text × V))
    → IsUnique m
    → lookup k (filter_values f m) ≡ bind_option (lookup k m) (f k)
unfolding lookup filter_values
lookup-filter_values f k [] u = refl
lookup-filter_values f k ((j, v) ∷ m) (a, u) =
    lookup-with_value j k (f j v) (filter_values f m) (missing_value f j m a)
    ∙ elim (Bool-cases (j == k)) [
      | inl p ↦ rw p (ap (λ x. f x v) ((==_iff j k).0 p))
      | inr p ↦ rw p (lookup-filter_values f k m u)
    ]

pub filter_values-IsUnique :
    {V W : Type 0} (f : Text → V → Option W) (m : List (Text × V))
    → IsUnique m
    → IsUnique (filter_values f m)
unfolding filter_values
filter_values-IsUnique f [] u = tt
filter_values-IsUnique f ((j, v) ∷ m) (a, u) = elim (Option-cases (f j v)) [
  | inl e ↦ rw (e, with_value) (filter_values-IsUnique f m u)
  | inr (w, e) ↦ rw (e, with_value) (missing_value f j m a, filter_values-IsUnique f m u)
]
