-- ===== src/Lexical/Restored.antt =====
-- An index of openclaw_memory_os/lexical.py that `from_dict` restores from a cache file.
use openclaw_memory_os.Prelude.{
  ℕ, ◌+◌, ◌≡◌, refl, ◌≢◌, ◌⊎◌, inl, inr, true, false, ◌&&◌, not, Option, none, some, List, [], ◌∷◌,
  arith, leb, ◌==◌, ==_refl, nat_eq, string_eq, list_eq, pair_eq, Bool-cases, if◌then◌else◌, keep,
}
use openclaw_memory_os.Prelude.Floats.{Floats}
use openclaw_memory_os.Prelude.Text.{Text}
use openclaw_memory_os.Prelude.Table.{lookup}
use openclaw_memory_os.Prelude.Count.{count, counter, IsUnique, unless_zero, lookup-counter}
use openclaw_memory_os.Lexical.{Document, Postings}
use openclaw_memory_os.Lexical.Tokens.{Builtins}
use openclaw_memory_os.Lexical.Postings.{postings_of, expected}
use openclaw_memory_os.Lexical.Disk.{
  Payload, post_documents, tf_or, token_counts, best_counts, text_counts, is_nil, has_postings,
  read_index, needs_fallback,
}
use openclaw_memory_os.Lexical.Recounted.{AllCounted, reposted}

-- Each document has tokens, and its cached counts are theirs.
abbrev pub AllCached : List (Text × Document) → Type 0
AllCached [] = Unit
AllCached ((k, d) ∷ docs) =
    ((d.lexical_tf ≡ counter d.lexical_tokens) × (is_nil d.lexical_tokens ≡ false)) × AllCached docs

nil-lookup : (t : Text) (m : List (Text × ℕ)) → is_nil m ≡ true → lookup t m ≡ none
unfolding lookup
nil-lookup t [] h = refl
nil-lookup t (e ∷ m) h = cc

unless_zero-suc : (n : ℕ) → unless_zero (1 + n) ≢ none
unless_zero-suc n h = ground arith

counted-once : (t : Text) (ts : List Text) → lookup t (counter (t ∷ ts)) ≢ none
unfolding count
counted-once t ts h =
    unless_zero-suc (count t ts) (ground (arith, h, lookup-counter t (t ∷ ts), ==_refl t))

counter-some : (ts : List Text) → is_nil ts ≡ false → is_nil (counter ts) ≡ false
counter-some [] h = cc
counter-some (t ∷ ts) h = elim (Bool-cases (is_nil (counter (t ∷ ts)))) [
  | inl e ↦ absurd (counted-once t ts (nil-lookup t (counter (t ∷ ts)) e))
  | inr e ↦ e
]

pub cached-AllCounted :
    (docs : List (Text × Document))
    → AllCached docs
    → AllCounted (λ d. d.lexical_tf) (λ d. d.lexical_tokens) docs
cached-AllCounted [] a = tt
cached-AllCounted ((k, d) ∷ docs) ((e, h), a) = (e, cached-AllCounted docs a)

pub cached-fallback : (docs : List (Text × Document)) → AllCached docs → needs_fallback docs ≡ false
cached-fallback [] a = refl
cached-fallback ((k, d) ∷ docs) ((e, h), a) =
    rw e (rw (counter-some d.lexical_tokens h) (cached-fallback docs a))

token_counts-some :
    (text : List (Text × ℕ)) (ts : List Text)
    → is_nil ts ≡ false
    → token_counts text ts ≡ counter ts
token_counts-some text [] h = cc
token_counts-some text (t ∷ ts) h = refl

tf_or-same : (tf other : List (Text × ℕ)) → tf ≡ other → tf_or tf other ≡ other
tf_or-same [] other h = refl
tf_or-same (e ∷ tf) other h = h

best-AllCounted :
    {F : Type 0} (builtins : Builtins F) (docs : List (Text × Document))
    → AllCached docs
    → AllCounted (best_counts builtins) (λ d. d.lexical_tokens) docs
best-AllCounted builtins [] a = tt
best-AllCounted builtins ((k, d) ∷ docs) ((e, h), a) = (
  rw (token_counts-some (text_counts builtins d) d.lexical_tokens h)
      (tf_or-same d.lexical_tf (counter d.lexical_tokens) e),
  best-AllCounted builtins docs a,
)

-- The posting lists say what the documents say.
abbrev pub IsPosted : List (Text × Document) → List (Text × Postings) → Type 0
IsPosted docs m = (t : Text) → lookup t m ≡ (expected (postings_of t docs)).1

lookup-keep :
    (t : Text) (m : List (Text × Postings)) (o : Option Postings)
    → lookup t m ≡ o
    → o ≢ some []
    → lookup t (keep has_postings m) ≡ o
unfolding lookup
lookup-keep t [] o h n = h
lookup-keep t ((u, []) ∷ m) o h n = elim (Bool-cases (u == t)) [
  | inl p ↦ absurd (n (ground arith))
  | inr p ↦ lookup-keep t m o (ground arith) n
]
lookup-keep t ((u, p ∷ ps) ∷ m) o h n = elim (Bool-cases (u == t)) [
  | inl p ↦ ground arith
  | inr p ↦ rw p (lookup-keep t m o (ground arith) n)
]

expected-some : (ps : Postings) → (expected ps).1 ≢ some []
expected-some [] h = cc
expected-some (p ∷ ps) h = cc

pub keep-IsPosted :
    (docs : List (Text × Document)) (m : List (Text × Postings))
    → IsPosted docs m
    → IsPosted docs (keep has_postings m)
keep-IsPosted docs m h t =
    lookup-keep t m (expected (postings_of t docs)).1 (h t) (expected-some (postings_of t docs))

module _ (floats : Floats) (builtins : Builtins floats.F) where
  open floats use {F}

  -- A cache file as `save` writes it, or as it was written before there were posting lists.
  pub record IsWritten (p : Payload F) : Type 0 where
    pub version : leb p.schema_version 2 ≡ true
    pub unique : IsUnique p.documents
    pub cached : AllCached p.documents
    pub posted :
        (p.inverted_index ≡ none)
        ⊎ ((m : List (Text × Postings)) × ((p.inverted_index ≡ some m) × IsPosted p.documents m))

  abbrev pub IsReadable : List (Text × Document) → List (Text × Postings) → Type 0
  IsReadable docs m = (m ≡ []) ⊎ IsPosted docs m

  pub read_index-IsReadable :
      (p : Payload F) → IsWritten p → IsReadable p.documents (read_index p.inverted_index)
  read_index-IsReadable p w = elim w.posted [
    | inl e ↦ inl (rw e refl)
    | inr (m, (e, h)) ↦ inr (rw e (keep-IsPosted p.documents m h))
  ]

  IsReadable-IsPosted :
      (docs : List (Text × Document)) (m : List (Text × Postings))
      → (is_nil m && not (is_nil docs)) ≡ false
      → IsReadable docs m
      → IsPosted docs m
  unfolding lookup postings_of
  IsReadable-IsPosted docs m h (inr posted) = posted
  IsReadable-IsPosted [] m h (inl e) = λ t. rw e refl
  IsReadable-IsPosted (d ∷ docs) m h (inl e) = absurd (ground arith)

  -- The posting lists after the tests for a missing index.
  abbrev pub ensured : List (Text × Document) → List (Text × Postings) → List (Text × Postings)
  ensured docs m = if is_nil m && not (is_nil docs) then post_documents builtins docs [] else m

  pub ensured-IsPosted :
      (docs : List (Text × Document)) (m : List (Text × Postings))
      → AllCached docs
      → IsReadable docs m
      → IsPosted docs (ensured docs m)
  ensured-IsPosted docs m a r = elim (Bool-cases (is_nil m && not (is_nil docs))) [
    | inl e ↦ rw e (λ t. reposted builtins t docs (best-AllCounted builtins docs a))
    | inr e ↦ rw e (IsReadable-IsPosted docs m e r)
  ]
