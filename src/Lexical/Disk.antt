-- ===== src/Lexical/Disk.antt =====
-- The cache file of the index of openclaw_memory_os/lexical.py: `to_dict`, `from_dict` with its
-- migration, `save` and `load`. A missing `__lexical_tf__` or `__lexical_tokens__` is an empty one,
-- which the code treats alike. What is read is a JSON value of the shape that is written.
use openclaw_memory_os.Prelude.{
  ℕ, String, Bool, true, false, ◌&&◌, not, Option, none, some, List, [], ◌∷◌, ◌++◌, leb, ◌==◌,
  nat_eq, string_eq, list_eq, pair_eq, or_else, if◌then◌else◌, keep, any, value_error, Result, ok,
  err, ◌>>◌, guard,
}
use openclaw_memory_os.Prelude.Floats.{Floats}
use openclaw_memory_os.Prelude.Text.{Text}
use openclaw_memory_os.Prelude.Table.{lookup, insert}
use openclaw_memory_os.Prelude.Count.{counter, for_each}
use openclaw_memory_os.Lexical.{
  Stats, Document, Postings, Index, no_stats, count_in, refresh_average, clear,
}
use openclaw_memory_os.Lexical.Tokens.{Builtins, tokenize_lexical}

-- The plain dict of an index; caches of schema 1 have no `inverted_index`.
pub record Payload (F : Type 0) : Type 0 where
  pub schema_version : ℕ
  pub documents : List (Text × Document)
  pub inverted_index : Option (List (Text × Postings))
  pub last_indexed_at : Option String
  pub average_doc_len : F

-- The file `lexical-index.json`, less what is not read back.
pub record Wrapper (F : Type 0) : Type 0 where
  pub checksum : String
  pub body : Payload F

unfoldable pub to_dict : {F : Type 0} → Index F → Payload F
to_dict s = record {
  schema_version = s.schema_version;
  documents = s.documents;
  inverted_index = some s.inverted_index;
  last_indexed_at = s.last_indexed_at;
  average_doc_len = s.average_doc_len;
}

abbrev pub is_nil : {A : Type 0} → List A → Bool
is_nil [] = true
is_nil (x ∷ xs) = false

abbrev pub has_postings : Text × Postings → Bool
has_postings (t, ps) = not (is_nil ps)

-- The posting lists that are read back: those that are not empty.
abbrev pub read_index : Option (List (Text × Postings)) → List (Text × Postings)
read_index none = []
read_index (some m) = keep has_postings m

abbrev pub count_token : Text → ℕ → List (Text × Stats) → List (Text × Stats)
count_token t tf stats = insert t (count_in tf (or_else (lookup t stats) no_stats)) stats

abbrev pub post_token : (key token : Text) → ℕ → List (Text × Postings) → List (Text × Postings)
post_token key token tf m = insert token (or_else (lookup token m) [] ++ ((key, tf) ∷ [])) m

-- The loop over the documents that counts their tokens.
unfoldable pub count_documents :
    (Document → List (Text × ℕ))
    → List (Text × Document)
    → List (Text × Stats)
    → List (Text × Stats)
count_documents tf_map [] stats = stats
count_documents tf_map ((k, d) ∷ docs) stats =
    count_documents tf_map docs (for_each count_token (tf_map d) stats)

-- Whether a document has no cached term frequencies.
abbrev pub needs_fallback : List (Text × Document) → Bool
needs_fallback docs = any (λ e. is_nil e.1.lexical_tf) docs

abbrev pub token_counts : (text : List (Text × ℕ)) → List Text → List (Text × ℕ)
token_counts text [] = text
token_counts text (t ∷ ts) = counter (t ∷ ts)

abbrev pub tf_or : List (Text × ℕ) → List (Text × ℕ) → List (Text × ℕ)
tf_or [] other = other
tf_or (e ∷ tf) other = e ∷ tf

module _ {F : Type 0} (builtins : Builtins F) where
  abbrev pub text_counts : Document → List (Text × ℕ)
  text_counts d = counter (tokenize_lexical builtins d.record_dict.text)

  -- The cached counts, or those of the cached tokens, or those of the text.
  abbrev pub best_counts : Document → List (Text × ℕ)
  best_counts d = tf_or d.lexical_tf (token_counts (text_counts d) d.lexical_tokens)

  -- `_rebuild_inverted_index_from_documents`
  unfoldable pub post_documents :
      List (Text × Document) → List (Text × Postings) → List (Text × Postings)
  post_documents [] m = m
  post_documents ((k, d) ∷ docs) m = post_documents docs (for_each (post_token k) (best_counts d) m)

module _ (floats : Floats) (builtins : Builtins floats.F) where
  open floats use {F}

  abbrev pub missing_index : Index F → Bool
  missing_index s = is_nil s.inverted_index && not (is_nil s.documents)

  abbrev pub rebuild_missing : Index F → Index F
  rebuild_missing s =
      if missing_index s
      then record s { inverted_index = post_documents builtins s.documents [] }
      else s

  -- `_rebuild_stats`
  unfoldable pub rebuild_stats : Index F → Index F
  unfolding count_documents post_documents refresh_average
  rebuild_stats s =
      refresh_average floats builtins (
        rebuild_missing
          (record s { stats = count_documents (text_counts builtins) s.documents [] }))

  -- `_rebuild_stats_from_cached_tf`. The counts that a fallback has made so far are cleared by it.
  unfoldable pub rebuild_stats_from_cached_tf : Index F → Index F
  unfolding count_documents post_documents refresh_average rebuild_stats
  rebuild_stats_from_cached_tf s =
      if needs_fallback s.documents
      then rebuild_stats s
      else refresh_average floats builtins (
          rebuild_missing (record s { stats = count_documents (λ d. d.lexical_tf) s.documents [] }))

  -- The migration of a cache without posting lists.
  abbrev pub migrated : (payload_schema : ℕ) → Index F → Index F
  migrated version s =
      if missing_index s
      then record s { inverted_index = post_documents builtins s.documents []; schema_version = 2 }
      else record s { schema_version = if leb 1 version then version else 2 }

  -- The index has the weights that a new index has by default.
  unfoldable pub from_dict : (weights : List (Text × F)) → Payload F → Result (Index F)
  unfolding clear post_documents rebuild_stats_from_cached_tf
  from_dict weights payload = do
    guard (leb payload.schema_version 2) value_error
    ok (
        rebuild_stats_from_cached_tf (
          migrated payload.schema_version (record (clear floats builtins weights) {
            documents = payload.documents;
            inverted_index = read_index payload.inverted_index;
            last_indexed_at = payload.last_indexed_at;
            average_doc_len = payload.average_doc_len;
          })))

  module _ (digest : Payload F → String) where
    -- `save`: what the file holds.
    unfoldable pub save : Index F → Wrapper F
    unfolding to_dict
    save s = record { checksum = digest (to_dict s); body = to_dict s }

    abbrev loaded : Result (Index F) → Option (Index F)
    loaded (ok s) = some s
    loaded (err e) = none

    -- `load` of a file that exists.
    unfoldable pub load : (weights : List (Text × F)) → Wrapper F → Option (Index F)
    unfolding from_dict
    load weights raw =
        if digest raw.body == raw.checksum then loaded (from_dict weights raw.body) else none
