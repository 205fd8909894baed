-- ===== src/Lexical/Scan.antt =====
-- `BM25Index.search` of openclaw_memory_os/lexical.py scores the candidates that the inverted index
-- gives: the same documents, with the same scores, as a scan of all documents.
use openclaw_memory_os.Prelude.{
  ℕ, ◌≡◌, refl, sym, ap, ◌∙◌, Option, none, some, List, [], ◌∷◌, nat_eq, string_eq, list_eq,
  pair_eq,
}
use openclaw_memory_os.Prelude.Floats.{Floats}
use openclaw_memory_os.Prelude.Text.{Text}
use openclaw_memory_os.Prelude.Table.{lookup}
use openclaw_memory_os.Prelude.Floats.{Floats}
use openclaw_memory_os.Lexical.Tokens.{Builtins}
use openclaw_memory_os.Prelude.Count.{IsUnique}
use openclaw_memory_os.Lexical.{Document, Postings, Index}
use openclaw_memory_os.Lexical.Tokens.{Builtins}
use openclaw_memory_os.Lexical.Invariant.{IsIndexed}
use openclaw_memory_os.Lexical.Search.{
  drop_dupes, collect, filter_values, score_document, score_candidate, scores,
}
use openclaw_memory_os.Lexical.Candidates.{row, drop_dupes-Distinct}
use openclaw_memory_os.Lexical.Values.{bind_option, lookup-filter_values, filter_values-IsUnique}
use openclaw_memory_os.Lexical.Slots.{extend, grown, AllNew-none, lookup-collect, collect-IsUnique}

module _ (floats : Floats) (builtins : Builtins floats.F) (boost : ℕ) (exacts : List Text) where
  open floats use {F}

  -- The score of a document that contains a query token.
  abbrev pub score_row : Index F → Document → Postings → Option F
  score_row s d [] = none
  score_row s d (p ∷ ps) = score_document floats builtins boost exacts s d (p ∷ ps)

  -- The scores by a scan of all documents.
  unfoldable pub scan : List Text → Index F → List (Text × F)
  unfolding row filter_values
  scan ts s = filter_values (λ k. λ d. score_row s d (row ts d)) s.documents

  score_slot :
      (s : Index F) (d : Document) (ps : Postings)
      → bind_option
          (extend none ps)
          (λ slot. score_candidate floats builtins boost exacts s slot (some d))
        ≡ score_row s d ps
  score_slot s d [] = refl
  score_slot s d (p ∷ ps) = refl

  score_grown :
      (s : Index F) (ts : List Text) (d : Option Document)
      → bind_option
          (grown ts d none)
          (λ slot. score_candidate floats builtins boost exacts s slot d)
        ≡ bind_option d (λ e. score_row s e (row ts e))
  score_grown s ts none = refl
  score_grown s ts (some d) = score_slot s d (row ts d)

  candidates : List Text → Index F → List (Text × Postings)
  candidates tokens s = collect s.inverted_index (drop_dupes [] tokens) []

  candidates-IsUnique : (tokens : List Text) (s : Index F) → IsUnique (candidates tokens s)
  unfolding candidates
  candidates-IsUnique tokens s = collect-IsUnique s.inverted_index (drop_dupes [] tokens) [] tt

  lookup-candidates :
      (k : Text) (s : Index F)
      → IsIndexed s
      → (tokens : List Text)
      → lookup k (candidates tokens s) ≡ grown (drop_dupes [] tokens) (lookup k s.documents) none
  unfolding candidates lookup
  lookup-candidates k s i tokens =
      lookup-collect k s i (drop_dupes [] tokens) [] (drop_dupes-Distinct [] tokens)
        (AllNew-none (drop_dupes [] tokens))

  score_at : Index F → Text → Postings → Option F
  score_at s k slot = score_candidate floats builtins boost exacts s slot (lookup k s.documents)

  lookup-scores :
      (k : Text) (s : Index F)
      → IsIndexed s
      → (tokens : List Text)
      → lookup k (scores floats builtins boost (drop_dupes [] tokens) exacts s)
        ≡ lookup k (scan (drop_dupes [] tokens) s)
  unfolding scores scan candidates score_at
  lookup-scores k s i tokens =
      lookup-filter_values (score_at s) k (candidates tokens s) (candidates-IsUnique tokens s)
      ∙ (ap (λ o. bind_option o (score_at s k)) (lookup-candidates k s i tokens)
          ∙ (score_grown s (drop_dupes [] tokens) (lookup k s.documents)
              ∙ sym (
                  lookup-filter_values (λ j. λ d. score_row s d (row (drop_dupes [] tokens) d)) k
                    s.documents i.unique)))

  -- On an index whose tables agree with its documents, the search gives each key the score, if any,
  -- that a scan of all documents gives it, and scores no key twice.
  pub scores-scan :
      (s : Index F)
      → IsIndexed s
      → (tokens : List Text)
      → ((k : Text)
          → lookup k (scores floats builtins boost (drop_dupes [] tokens) exacts s)
            ≡ lookup k (scan (drop_dupes [] tokens) s))
        × IsUnique (scores floats builtins boost (drop_dupes [] tokens) exacts s)
  unfolding scores candidates score_at
  scores-scan s i tokens = (
    (λ k. lookup-scores k s i tokens),
    filter_values-IsUnique (score_at s) (candidates tokens s) (candidates-IsUnique tokens s),
  )
