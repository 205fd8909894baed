-- ===== src/Lexical/Candidates.antt =====
-- The candidates that `BM25Index.search` of openclaw_memory_os/lexical.py finds by the inverted index
-- against a scan of all documents.
use openclaw_memory_os.Prelude.{
  ℕ, ◌≡◌, refl, ◌∙◌, inl, inr, true, false, Option, none, some, List, [], ◌∷◌, arith, ◌==◌, ==_iff,
  ==_refl, nat_eq, string_eq, list_eq, pair_eq, Bool-cases, Option-cases, if◌then◌else◌,
}
use openclaw_memory_os.Prelude.Text.{Text}
use openclaw_memory_os.Prelude.Table.{lookup}
use openclaw_memory_os.Prelude.Count.{count, IsUnique, unless_zero}
use openclaw_memory_os.Lexical.{Document, Postings}
use openclaw_memory_os.Lexical.Postings.{add_posting, postings_of}
use openclaw_memory_os.Lexical.Search.{seen_in, drop_dupes}

-- The term frequencies of the query tokens that a document contains, in the query's order.
unfoldable pub row : List Text → Document → Postings
row [] d = []
row (t ∷ ts) d = add_posting t (unless_zero (count t d.lexical_tokens)) (row ts d)

-- The same for a key; there are none if the key has no document.
abbrev pub row_at : List Text → Option Document → Postings
row_at ts none = []
row_at ts (some d) = row ts d

abbrev pub frequency : Text → Option Document → Option ℕ
frequency t none = none
frequency t (some d) = unless_zero (count t d.lexical_tokens)

lookup-add_posting :
    (k j : Text) (o : Option ℕ) (ps : Postings)
    → lookup k ps ≡ none
    → lookup j (add_posting k o ps) ≡ (if k == j then o else lookup j ps)
unfolding lookup
lookup-add_posting k j none ps h = ground (arith, ==_iff k j)
lookup-add_posting k j (some n) ps h = refl

missing-posting :
    (t k : Text) (docs : List (Text × Document))
    → lookup k docs ≡ none
    → lookup k (postings_of t docs) ≡ none
unfolding postings_of lookup
missing-posting t k [] h = refl
missing-posting t k ((j, d) ∷ docs) h =
    elim (Option-cases (unless_zero (count t d.lexical_tokens))) [
      | inl e ↦ rw e (missing-posting t k docs (ground arith))
      | inr (n, e) ↦ rw e (ground (arith, missing-posting t k docs))
    ]

pub lookup-postings_of :
    (t k : Text) (docs : List (Text × Document))
    → IsUnique docs
    → lookup k (postings_of t docs) ≡ frequency t (lookup k docs)
unfolding postings_of lookup
lookup-postings_of t k [] u = refl
lookup-postings_of t k ((j, d) ∷ docs) (a, u) =
    lookup-add_posting j k (unless_zero (count t d.lexical_tokens)) (postings_of t docs)
      (missing-posting t j docs a)
    ∙ ground (arith, lookup-postings_of t k docs u)

pub postings_of-IsUnique :
    (t : Text) (docs : List (Text × Document)) → IsUnique docs → IsUnique (postings_of t docs)
unfolding postings_of lookup
postings_of-IsUnique t [] u = tt
postings_of-IsUnique t ((j, d) ∷ docs) (a, u) =
    elim (Option-cases (unless_zero (count t d.lexical_tokens))) [
      | inl e ↦ rw e (postings_of-IsUnique t docs u)
      | inr (n, e) ↦ rw e (missing-posting t j docs a, postings_of-IsUnique t docs u)
    ]

-- A token that is not in the list.
abbrev pub Fresh : Text → List Text → Type 0
Fresh t [] = Unit
Fresh t (u ∷ ts) = ((u == t) ≡ false) × Fresh t ts

abbrev pub Distinct : List Text → Type 0
Distinct [] = Unit
Distinct (t ∷ ts) = Fresh t ts × Distinct ts

dupe-dropped :
    (t : Text) (seen ts : List Text)
    → seen_in t seen ≡ true
    → drop_dupes seen (t ∷ ts) ≡ drop_dupes seen ts
unfolding drop_dupes
dupe-dropped t seen ts h = ground arith

first-kept :
    (t : Text) (seen ts : List Text)
    → seen_in t seen ≡ false
    → drop_dupes seen (t ∷ ts) ≡ t ∷ drop_dupes (t ∷ seen) ts
unfolding drop_dupes
first-kept t seen ts h = ground arith

drop_dupes-Fresh :
    (t : Text) (seen ts : List Text) → seen_in t seen ≡ true → Fresh t (drop_dupes seen ts)
unfolding drop_dupes
drop_dupes-Fresh t seen [] h = tt
drop_dupes-Fresh t seen (u ∷ ts) h = elim (Bool-cases (seen_in u seen)) [
  | inl p ↦ rw (dupe-dropped u seen ts p) (drop_dupes-Fresh t seen ts h)
  | inr p ↦
      rw (first-kept u seen ts p)
        (ground (arith, ==_iff u t), drop_dupes-Fresh t (u ∷ seen) ts (ground arith))
]

pub drop_dupes-Distinct : (seen ts : List Text) → Distinct (drop_dupes seen ts)
unfolding drop_dupes
drop_dupes-Distinct seen [] = tt
drop_dupes-Distinct seen (t ∷ ts) = elim (Bool-cases (seen_in t seen)) [
  | inl p ↦ rw (dupe-dropped t seen ts p) (drop_dupes-Distinct seen ts)
  | inr p ↦ rw (first-kept t seen ts p) (
    drop_dupes-Fresh t (t ∷ seen) ts (ground (arith, ==_refl t)),
    drop_dupes-Distinct (t ∷ seen) ts,
  )
]
