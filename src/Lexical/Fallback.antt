-- ===== src/Lexical/Fallback.antt =====
-- What `from_dict` of openclaw_memory_os/lexical.py makes of a cache in which a document has no tokens.
use openclaw_memory_os.Prelude.{
  ◌≡◌, refl, sym, ap, subst, ◌∙◌, true, List, [], ◌∷◌, leb, nat_eq, string_eq, list_eq, pair_eq, ok,
}
use openclaw_memory_os.Prelude.Floats.{Floats}
use openclaw_memory_os.Prelude.Text.{Text}
use openclaw_memory_os.Prelude.Table.{lookup}
use openclaw_memory_os.Lexical.{Document, Index, refresh_average, clear}
use openclaw_memory_os.Lexical.Tokens.{Builtins, tokenize_lexical}
use openclaw_memory_os.Lexical.Postings.{postings_of, expected}
use openclaw_memory_os.Lexical.Disk.{
  Payload, count_documents, read_index, text_counts, needs_fallback, rebuild_stats,
  rebuild_stats_from_cached_tf, migrated, from_dict,
}
use openclaw_memory_os.Lexical.Recounted.{retokened, AllCounted, recounted}
use openclaw_memory_os.Lexical.Reload.{rebuilt-stats, migrated-documents}

module _ (floats : Floats) (builtins : Builtins floats.F) where
  open floats use {F}

  abbrev text_tokens : Document → List Text
  text_tokens d = tokenize_lexical builtins d.record_dict.text

  text-AllCounted :
      (docs : List (Text × Document)) → AllCounted (text_counts builtins) text_tokens docs
  text-AllCounted [] = tt
  text-AllCounted ((k, d) ∷ docs) = (refl, text-AllCounted docs)

  -- Every document with the tokens of its `text` alone.
  abbrev pub text_only : List (Text × Document) → List (Text × Document)
  text_only docs = retokened text_tokens docs

  fallback-stats :
      (t : Text) (s : Index F)
      → needs_fallback s.documents ≡ true
      → lookup t (rebuild_stats_from_cached_tf floats builtins s).stats
        ≡ (expected (postings_of t (text_only s.documents))).0
  unfolding rebuild_stats_from_cached_tf rebuild_stats refresh_average
  fallback-stats t s h = rw h (
      ap (λ m. lookup t m)
        (rebuilt-stats floats builtins
          (record s { stats = count_documents (text_counts builtins) s.documents [] }))
      ∙ recounted (text_counts builtins) text_tokens t s.documents (text-AllCounted s.documents))

  abbrev read_back : (weights : List (Text × F)) → Payload F → Index F
  read_back weights payload = record (clear floats builtins weights) {
    documents = payload.documents;
    inverted_index = read_index payload.inverted_index;
    last_indexed_at = payload.last_indexed_at;
    average_doc_len = payload.average_doc_len;
  }

  -- As soon as one document of a cache has no token, `from_dict` counts the tokens of every document
  -- from its `text` alone: `stats` has no entry for a token of summaries, tags or keywords only.
  pub from_dict-text_only :
      (weights : List (Text × F)) (p : Payload F)
      → leb p.schema_version 2 ≡ true
      → needs_fallback p.documents ≡ true
      → (s : Index F) × ((from_dict floats builtins weights p ≡ ok s)
          × ((t : Text) → lookup t s.stats ≡ (expected (postings_of t (text_only p.documents))).0))
  unfolding from_dict
  from_dict-text_only weights p v h =
      let s = migrated floats builtins p.schema_version (read_back weights p) in
      let same : s.documents ≡ p.documents =
        migrated-documents floats builtins p.schema_version (read_back weights p) in
      (
        rebuild_stats_from_cached_tf floats builtins s,
        (
          rw v refl,
          λ t.
              fallback-stats t s (subst (λ docs. needs_fallback docs ≡ true) (sym same) h)
              ∙ ap (λ docs. (expected (postings_of t (text_only docs))).0) same,
        ),
      )
