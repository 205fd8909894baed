-- ===== src/Lexical/Batch.antt =====
-- `incremental_refresh` of openclaw_memory_os/lexical.py against adding the records one by one.
use openclaw_memory_os.Prelude.{
  ℕ, suc, String, ◌≡◌, refl, sym, ap, ◌∙◌, Option, none, some, List, [], ◌∷◌, nat_eq, string_eq,
  list_eq, pair_eq, is_some, or_else, if◌then◌else◌, length,
}
use openclaw_memory_os.Prelude.Floats.{Floats}
use openclaw_memory_os.Prelude.Text.{Text}
use openclaw_memory_os.Prelude.Table.{lookup, insert, remove}
use openclaw_memory_os.Prelude.Count.{counter, for_each}
use openclaw_memory_os.Lexical.{
  Stats, Document, Index, CacheKey, index_token, forget_token, forget, remove_document,
  remove_internal, document_of, insert_document, add_one, average_of, later, refresh_average,
  add_record, add_all, incremental_refresh,
}
use openclaw_memory_os.Lexical.Tokens.{Builtins, MemoryRecord}

module _ {F : Type 0} (average : F) (cache : List (CacheKey × List (Text × F))) where
  -- Another average and another cache.
  with_derived : Index F → Index F
  with_derived s = record s { average_doc_len = average; search_cache = cache }

  for_each-with_derived :
      (step : Text → ℕ → Index F → Index F)
      → ((a : Text) (n : ℕ) (s : Index F) → step a n (with_derived s) ≡ with_derived (step a n s))
      → (m : List (Text × ℕ)) (s : Index F)
      → for_each step m (with_derived s) ≡ with_derived (for_each step m s)
  for_each-with_derived step h [] s = refl
  for_each-with_derived step h ((a, n) ∷ m) s =
      ap (λ x. for_each step m x) (h a n s) ∙ for_each-with_derived step h m (step a n s)

  index_token-with_derived :
      (key a : Text) (n : ℕ) (s : Index F)
      → index_token key a n (with_derived s) ≡ with_derived (index_token key a n s)
  unfolding index_token with_derived
  index_token-with_derived key a n s = refl

  forget-with_derived :
      (key a : Text) (n : ℕ) (o : Option Stats) (s : Index F)
      → forget key a n o (with_derived s) ≡ with_derived (forget key a n o s)
  unfolding with_derived
  forget-with_derived key a n none s = refl
  forget-with_derived key a n (some st) s = refl

  forget_token-with_derived :
      (key a : Text) (n : ℕ) (s : Index F)
      → forget_token key a n (with_derived s) ≡ with_derived (forget_token key a n s)
  unfolding forget_token with_derived
  forget_token-with_derived key a n s = forget-with_derived key a n (lookup a s.stats) s

  remove_document-with_derived :
      (key : Text) (o : Option Document) (s : Index F)
      → remove_document key o (with_derived s) ≡ with_derived (remove_document key o s)
  unfolding with_derived
  remove_document-with_derived key none s = refl
  remove_document-with_derived key (some d) s =
      for_each-with_derived (forget_token key) (forget_token-with_derived key)
        (counter d.lexical_tokens) (record s { documents = remove key s.documents })

  evict : (key : Text) → Option Document → Index F → Index F
  evict key o s = if is_some o then remove_internal key s else s

  evict-with_derived :
      (key : Text) (o : Option Document) (s : Index F)
      → evict key o (with_derived s) ≡ with_derived (evict key o s)
  unfolding evict with_derived remove_internal
  evict-with_derived key none s = refl
  evict-with_derived key (some d) s = remove_document-with_derived key (lookup key s.documents) s

module _ (floats : Floats) (builtins : Builtins floats.F) where
  open floats use {F}

  -- The end of `_add_one`.
  stored : (key : Text) → Document → (ts : String) → Index F → Index F
  stored key d ts s = record s {
    documents = insert key d s.documents;
    last_indexed_at = later ts s.last_indexed_at;
  }

  insert-with_derived :
      (average : F) (cache : List (CacheKey × List (Text × F)))
      → (key : Text) (d : Document) (ts : String) (s : Index F)
      → insert_document floats builtins key d ts (with_derived average cache s)
        ≡ with_derived average cache (insert_document floats builtins key d ts s)
  unfolding with_derived stored
  insert-with_derived average cache key d ts s = ap (stored key d ts) (
      for_each-with_derived average cache (index_token key)
        (index_token-with_derived average cache key) (counter d.lexical_tokens) s)

  -- `_add_one` neither reads nor changes the average and the cache.
  add_one-with_derived :
      (average : F) (cache : List (CacheKey × List (Text × F)))
      → (now : ℕ) (r : MemoryRecord) (s : Index F)
      → add_one floats builtins now r (with_derived average cache s)
        ≡ with_derived average cache (add_one floats builtins now r s)
  unfolding add_one with_derived evict
  add_one-with_derived average cache now r s =
      ap
        (λ x.
          insert_document floats builtins r.candidate_key
            (document_of floats builtins s.field_weights r)
            (builtins.isoformat (or_else r.created_at now)) x)
        (evict-with_derived average cache r.candidate_key (lookup r.candidate_key s.documents) s)
      ∙ insert-with_derived average cache r.candidate_key
          (document_of floats builtins s.field_weights r)
          (builtins.isoformat (or_else r.created_at now))
          (evict average cache r.candidate_key (lookup r.candidate_key s.documents) s)

  -- `for r in records: index.add(r)`
  abbrev pub add_each : (now : ℕ) → List MemoryRecord → Index F → Index F
  add_each now [] s = s
  add_each now (r ∷ rs) s = add_each now rs (add_record floats builtins now r s)

  add_each-refreshed :
      (now : ℕ) (average : F) (rs : List MemoryRecord) (s : Index F)
      → add_each now rs (refresh_average floats builtins (with_derived average [] s))
        ≡ refresh_average floats builtins
            (add_all floats builtins now rs (with_derived average [] s))
  unfolding refresh_average add_record with_derived
  add_each-refreshed now average [] s = refl
  add_each-refreshed now average (r ∷ rs) s =
      ap (λ x. add_each now rs (refresh_average floats builtins x))
        (add_one-with_derived (average_of floats builtins s.documents) [] now r s)
      ∙ (add_each-refreshed now average rs (add_one floats builtins now r s)
          ∙ ap (λ x. refresh_average floats builtins (add_all floats builtins now rs x))
              (sym (add_one-with_derived average [] now r s)))

  -- A batch of at least one record leaves the same index as a call of `add` for each of its
  -- records in order, and counts them all.
  pub incremental_refresh-add_each :
      (now : ℕ) (r : MemoryRecord) (rs : List MemoryRecord) (s : Index F)
      → incremental_refresh floats builtins now (r ∷ rs) s
        ≡ (add_each now (r ∷ rs) s, suc (length rs))
  unfolding incremental_refresh add_record with_derived
  incremental_refresh-add_each now r rs s =
      ap (λ x. (x, suc (length rs)))
        (sym (
          ap (λ x. add_each now rs (refresh_average floats builtins x))
            (add_one-with_derived s.average_doc_len [] now r s)
          ∙ (add_each-refreshed now s.average_doc_len rs (add_one floats builtins now r s)
              ∙ ap (λ x. refresh_average floats builtins (add_all floats builtins now rs x))
                  (sym (add_one-with_derived s.average_doc_len [] now r s)))))

  -- Adding records leaves the cache as it is.
  pub add_all-search_cache :
      (now : ℕ) (rs : List MemoryRecord) (s : Index F)
      → (add_all floats builtins now rs s).search_cache ≡ s.search_cache
  unfolding with_derived
  add_all-search_cache now [] s = refl
  add_all-search_cache now (r ∷ rs) s =
      add_all-search_cache now rs (add_one floats builtins now r s)
      ∙ ap (λ x. x.search_cache) (add_one-with_derived s.average_doc_len s.search_cache now r s)
