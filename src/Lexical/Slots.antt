-- ===== src/Lexical/Slots.antt =====
-- `candidate_tfs` in `BM25Index.search` of openclaw_memory_os/lexical.py: the slot of a key holds what
-- its document says of the query tokens.
use openclaw_memory_os.Prelude.{
  ℕ, ◌≡◌, refl, sym, ap, ◌∙◌, inl, inr, false, Option, none, some, List, [], ◌∷◌, ◌++◌, arith, ◌==◌,
  ==_iff, nat_eq, string_eq, list_eq, pair_eq, Option-cases, or_else, if◌then◌else◌,
}
use mathlib.Core.List.{append_assoc}
use openclaw_memory_os.Prelude.Text.{Text}
use openclaw_memory_os.Prelude.Table.{lookup, lookup-insert}
use openclaw_memory_os.Prelude.Count.{
  count, IsUnique, unless_zero, updated, for_each, for_each_lem, insert-append, insert-IsUnique,
}
use openclaw_memory_os.Lexical.{Document, Postings, Index}
use openclaw_memory_os.Lexical.Postings.{view, postings_of, expected}
use openclaw_memory_os.Lexical.Invariant.{IsIndexed}
use openclaw_memory_os.Lexical.Search.{raise_slot, note_posting, collect}
use openclaw_memory_os.Lexical.Candidates.{
  row, row_at, frequency, Fresh, Distinct, lookup-postings_of, postings_of-IsUnique,
}

-- A slot with more entries; a slot is made when there is a first one.
abbrev pub extend : Option Postings → Postings → Option Postings
extend o [] = o
extend none (p ∷ ps) = some (p ∷ ps)
extend (some qs) (p ∷ ps) = some (qs ++ (p ∷ ps))

abbrev pub AllNew : List Text → Option Postings → Type 0
AllNew [] o = Unit
AllNew (t ∷ ts) o = (lookup t (or_else o []) ≡ none) × AllNew ts o

lookup-append :
    (u t : Text) (n : ℕ) (ps : Postings)
    → lookup u ps ≡ none
    → (u == t) ≡ false
    → lookup u (ps ++ ((t, n) ∷ [])) ≡ none
unfolding lookup
lookup-append u t n [] h f = ground (arith, ==_iff u t, ==_iff t u)
lookup-append u t n ((j, v) ∷ ps) h f = ground (arith, lookup-append u t n ps)

AllNew-extend :
    (t : Text) (n : ℕ) (ts : List Text) (o : Option Postings)
    → Fresh t ts
    → AllNew ts o
    → AllNew ts (some (or_else o [] ++ ((t, n) ∷ [])))
AllNew-extend t n [] o f a = tt
AllNew-extend t n (u ∷ ts) o (f, fs) (a, new) =
    (lookup-append u t n (or_else o []) a f, AllNew-extend t n ts o fs new)

-- What the loop over one token's postings makes of the slot of a key.
abbrev slot_view : Text → ℕ → Option Postings → Option Postings
slot_view t n o = some (raise_slot t n (or_else o []))

lookup-note_posting :
    (t a b : Text) (n : ℕ) (table : List (Text × Postings))
    → lookup b (note_posting t a n table)
      ≡ (if a == b then slot_view t n (lookup b table) else lookup b table)
lookup-note_posting t a b n table =
    ground
      (arith, lookup-insert a b (raise_slot t n (or_else (lookup a table) [])) table, ==_iff a b)

slot_view-new :
    (t : Text) (n : ℕ) (o : Option Postings)
    → lookup t (or_else o []) ≡ none
    → slot_view t n o ≡ some (or_else o [] ++ ((t, n) ∷ []))
slot_view-new t n o h = rw h (ap (λ ps. some ps) (insert-append t n (or_else o []) h))

-- The slot of a key after the loops over the remaining tokens.
abbrev pub grown : List Text → Option Document → Option Postings → Option Postings
grown ts d o = extend o (row_at ts d)

grown-nil : (d : Option Document) (o : Option Postings) → grown [] d o ≡ o
unfolding row
grown-nil none o = refl
grown-nil (some d) o = refl

extend_first :
    (t : Text) (n : ℕ) (o : Option Postings) (ps : Postings)
    → extend (some (or_else o [] ++ ((t, n) ∷ []))) ps ≡ extend o ((t, n) ∷ ps)
extend_first t n none [] = refl
extend_first t n none (p ∷ ps) = refl
extend_first t n (some qs) [] = refl
extend_first t n (some qs) (p ∷ ps) = ap (λ x. some x) (append_assoc qs ((t, n) ∷ []) (p ∷ ps))

step_grown :
    (t : Text) (ts : List Text) (d : Option Document) (o : Option Postings)
    → lookup t (or_else o []) ≡ none
    → grown ts d (updated (slot_view t) (frequency t d) o) ≡ grown (t ∷ ts) d o
unfolding row
step_grown t ts none o h = refl
step_grown t ts (some d) o h = elim (Option-cases (unless_zero (count t d.lexical_tokens))) [
  | inl e ↦ rw e refl
  | inr (n, e) ↦
      rw e (ap (λ x. extend x (row ts d)) (slot_view-new t n o h) ∙ extend_first t n o (row ts d))
]

step_AllNew :
    (t : Text) (ts : List Text) (q : Option ℕ) (o : Option Postings)
    → Fresh t ts
    → AllNew (t ∷ ts) o
    → AllNew ts (updated (slot_view t) q o)
step_AllNew t ts none o f (h, new) = new
step_AllNew t ts (some n) o f (h, new) = rw (slot_view-new t n o h) (AllNew-extend t n ts o f new)

seen_postings :
    {F : Type 0} (t : Text) (s : Index F) (ps : Postings)
    → view t s ≡ expected ps
    → or_else (lookup t s.inverted_index) [] ≡ ps
seen_postings t s [] h = rw (ap (λ v. v.1) h) refl
seen_postings t s (p ∷ ps) h = rw (ap (λ v. v.1) h) refl

lookup-noted :
    (k t : Text) (ps : Postings) (table : List (Text × Postings))
    → IsUnique ps
    → lookup k (for_each (note_posting t) ps table)
      ≡ updated (slot_view t) (lookup k ps) (lookup k table)
lookup-noted k t ps table u =
    for_each_lem lookup (note_posting t) (slot_view t)
      (λ a. λ b. λ n. λ m. lookup-note_posting t a b n m) k ps table u

-- The posting list of a token, as the search reads it.
postings_read :
    {F : Type 0} (t : Text) (s : Index F)
    → IsIndexed s
    → or_else (lookup t s.inverted_index) [] ≡ postings_of t s.documents
postings_read t s i = seen_postings t s (postings_of t s.documents) (i.agrees t)

pub lookup-collect :
    {F : Type 0} (k : Text) (s : Index F)
    → IsIndexed s
    → (ts : List Text) (table : List (Text × Postings)) → Distinct ts
    → AllNew ts (lookup k table)
    → lookup k (collect s.inverted_index ts table)
      ≡ grown ts (lookup k s.documents) (lookup k table)
unfolding collect
lookup-collect k s i [] table d new = sym (grown-nil (lookup k s.documents) (lookup k table))
lookup-collect k s i (t ∷ ts) table (f, d) (a, new) =
    let noted : lookup k (for_each (note_posting t) (or_else (lookup t s.inverted_index) []) table)
        ≡ updated (slot_view t) (frequency t (lookup k s.documents)) (lookup k table) =
      rw (postings_read t s i) (
        lookup-noted k t (postings_of t s.documents) table
          (postings_of-IsUnique t s.documents i.unique)
        ∙ ap (λ q. updated (slot_view t) q (lookup k table))
            (lookup-postings_of t k s.documents i.unique)) in
    lookup-collect k s i ts _ d
      (rw noted (step_AllNew t ts (frequency t (lookup k s.documents)) (lookup k table) f (a, new)))
    ∙ (ap (λ o. grown ts (lookup k s.documents) o) noted
        ∙ step_grown t ts (lookup k s.documents) (lookup k table) a)

noted-IsUnique :
    (t : Text) (ps : Postings) (table : List (Text × Postings))
    → IsUnique table
    → IsUnique (for_each (note_posting t) ps table)
noted-IsUnique t [] table u = u
noted-IsUnique t ((k, n) ∷ ps) table u = noted-IsUnique t ps _ (insert-IsUnique k _ table u)

pub collect-IsUnique :
    (index : List (Text × Postings)) (ts : List Text) (table : List (Text × Postings))
    → IsUnique table
    → IsUnique (collect index ts table)
unfolding collect
collect-IsUnique index [] table u = u
collect-IsUnique index (t ∷ ts) table u =
    collect-IsUnique index ts _ (noted-IsUnique t (or_else (lookup t index) []) table u)

pub AllNew-none : (ts : List Text) → AllNew ts none
unfolding lookup
AllNew-none [] = tt
AllNew-none (t ∷ ts) = (refl, AllNew-none ts)
