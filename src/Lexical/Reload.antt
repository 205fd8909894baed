-- ===== src/Lexical/Reload.antt =====
-- `from_dict` and `load` of openclaw_memory_os/lexical.py restore the index that was saved, and migrate
-- the caches of the first schema.
use openclaw_memory_os.Prelude.{
  ℕ, String, ◌≡◌, refl, sym, ap, subst, ◌∙◌, inl, inr, true, Option, some, List, [], arith, leb,
  ==_refl, nat_eq, string_eq, list_eq, pair_eq, Bool-cases, ok,
}
use openclaw_memory_os.Prelude.Floats.{Floats}
use openclaw_memory_os.Prelude.Text.{Text}
use openclaw_memory_os.Prelude.Table.{lookup}
use openclaw_memory_os.Prelude.Count.{IsUnique}
use openclaw_memory_os.Lexical.{Stats, Document, Postings, Index, refresh_average, clear}
use openclaw_memory_os.Lexical.Tokens.{Builtins}
use openclaw_memory_os.Lexical.Postings.{view, postings_of, expected}
use openclaw_memory_os.Lexical.Invariant.{IsIndexed}
use openclaw_memory_os.Lexical.Updates.{IsCurrent, refresh_average-IsCurrent}
use openclaw_memory_os.Lexical.Disk.{
  Payload, to_dict, count_documents, read_index, missing_index, rebuild_missing,
  rebuild_stats_from_cached_tf, migrated, from_dict, save, load,
}
use openclaw_memory_os.Lexical.Recounted.{retokened-same, recounted}
use openclaw_memory_os.Lexical.Restored.{
  AllCached, IsPosted, cached-fallback, cached-AllCounted, IsWritten, IsReadable,
  read_index-IsReadable, ensured, ensured-IsPosted,
}

module _ (floats : Floats) (builtins : Builtins floats.F) where
  open floats use {F}

  migrated-index :
      (v : ℕ) (s : Index F)
      → (migrated floats builtins v s).inverted_index
        ≡ ensured floats builtins s.documents s.inverted_index
  migrated-index v s = elim (Bool-cases (missing_index floats builtins s)) [
    | inl e ↦ rw e refl
    | inr e ↦ rw e refl
  ]

  pub migrated-documents :
      (v : ℕ) (s : Index F) → (migrated floats builtins v s).documents ≡ s.documents
  migrated-documents v s = elim (Bool-cases (missing_index floats builtins s)) [
    | inl e ↦ rw e refl
    | inr e ↦ rw e refl
  ]

  rebuilt-index :
      (s : Index F)
      → (rebuild_missing floats builtins s).inverted_index
        ≡ ensured floats builtins s.documents s.inverted_index
  rebuilt-index s = elim (Bool-cases (missing_index floats builtins s)) [
    | inl e ↦ rw e refl
    | inr e ↦ rw e refl
  ]

  rebuilt-documents : (s : Index F) → (rebuild_missing floats builtins s).documents ≡ s.documents
  rebuilt-documents s = elim (Bool-cases (missing_index floats builtins s)) [
    | inl e ↦ rw e refl
    | inr e ↦ rw e refl
  ]

  pub rebuilt-stats : (s : Index F) → (rebuild_missing floats builtins s).stats ≡ s.stats
  rebuilt-stats s = elim (Bool-cases (missing_index floats builtins s)) [
    | inl e ↦ rw e refl
    | inr e ↦ rw e refl
  ]

  view-pair : (x y : Option Stats × Option Postings) → x.0 ≡ y.0 → x.1 ≡ y.1 → x ≡ y
  view-pair (a, b) (c, d) p q = ground arith

  rebuilt-view :
      (t : Text) (s : Index F)
      → lookup t s.stats ≡ (expected (postings_of t s.documents)).0
      → IsPosted s.documents (ensured floats builtins s.documents s.inverted_index)
      → view t (rebuild_missing floats builtins s) ≡ expected (postings_of t s.documents)
  rebuilt-view t s h posted =
      view-pair _ _ (ap (λ m. lookup t m) (rebuilt-stats s) ∙ h)
        (ap (λ m. lookup t m) (rebuilt-index s) ∙ posted t)

  rebuilt-IsIndexed :
      (s : Index F)
      → IsUnique s.documents
      → ((t : Text) → lookup t s.stats ≡ (expected (postings_of t s.documents)).0)
      → IsPosted s.documents (ensured floats builtins s.documents s.inverted_index)
      → IsIndexed (rebuild_missing floats builtins s)
  rebuilt-IsIndexed s u counted posted = record {
    unique = subst IsUnique (sym (rebuilt-documents s)) u;
    agrees = λ t.
        rebuilt-view t s (counted t) posted
        ∙ ap (λ docs. expected (postings_of t docs)) (sym (rebuilt-documents s));
  }

  -- The table of the document frequencies after the rebuild.
  counted-again :
      (t : Text) (docs : List (Text × Document))
      → AllCached docs
      → lookup t (count_documents (λ d. d.lexical_tf) docs []) ≡ (expected (postings_of t docs)).0
  counted-again t docs a =
      recounted (λ d. d.lexical_tf) (λ d. d.lexical_tokens) t docs (cached-AllCounted docs a)
      ∙ ap (λ ds. (expected (postings_of t ds)).0) (retokened-same docs)

  rebuilt-IsCurrent :
      (s : Index F)
      → IsUnique s.documents
      → AllCached s.documents
      → IsReadable floats builtins s.documents s.inverted_index
      → IsCurrent floats builtins (rebuild_stats_from_cached_tf floats builtins s)
        × ((rebuild_stats_from_cached_tf floats builtins s).documents ≡ s.documents)
  unfolding rebuild_stats_from_cached_tf refresh_average
  rebuilt-IsCurrent s u a r = rw (cached-fallback s.documents a) (
      (
        refresh_average-IsCurrent floats builtins _ (
            rebuilt-IsIndexed
              (record s { stats = count_documents (λ d. d.lexical_tf) s.documents [] }) u
              (λ t. counted-again t s.documents a)
              (ensured-IsPosted floats builtins s.documents s.inverted_index a r)),
        rebuilt-documents (record s { stats = count_documents (λ d. d.lexical_tf) s.documents [] }),
      ))

  restored_from : (weights : List (Text × F)) → Payload F → Index F
  restored_from weights payload = record (clear floats builtins weights) {
    documents = payload.documents;
    inverted_index = read_index payload.inverted_index;
    last_indexed_at = payload.last_indexed_at;
    average_doc_len = payload.average_doc_len;
  }

  restored : (weights : List (Text × F)) → Payload F → Index F
  restored weights payload =
      rebuild_stats_from_cached_tf floats builtins
        (migrated floats builtins payload.schema_version (restored_from weights payload))

  restored-IsReadable :
      (weights : List (Text × F)) (p : Payload F)
      → IsWritten floats builtins p
      → IsPosted p.documents
          (migrated floats builtins p.schema_version (restored_from weights p)).inverted_index
  unfolding restored_from
  restored-IsReadable weights p w =
      subst (λ m. IsPosted p.documents m)
        (sym (migrated-index p.schema_version (restored_from weights p)))
        (ensured-IsPosted floats builtins p.documents (read_index p.inverted_index) w.cached
          (read_index-IsReadable floats builtins p w))

  restored-IsCurrent :
      (weights : List (Text × F)) (p : Payload F)
      → IsWritten floats builtins p
      → IsCurrent floats builtins (restored weights p)
        × ((restored weights p).documents ≡ p.documents)
  unfolding restored restored_from
  restored-IsCurrent weights p w =
      let s = migrated floats builtins p.schema_version (restored_from weights p) in
      let same : p.documents ≡ s.documents =
        sym (migrated-documents p.schema_version (restored_from weights p)) in
      let (current, documents) =
        rebuilt-IsCurrent s (subst IsUnique same w.unique) (subst AllCached same w.cached) (
          inr (
            subst (λ docs. IsPosted docs s.inverted_index) same
              (restored-IsReadable weights p w))) in
      (current, documents ∙ sym same)

  -- From what `save` writes, and from a cache of the first schema, which has no posting lists,
  -- `from_dict` makes an index with the same documents whose tables agree with them, if each document
  -- has a token and its cached counts are those of its tokens.
  pub from_dict-IsCurrent :
      (weights : List (Text × F)) (p : Payload F)
      → IsWritten floats builtins p
      → (s : Index F) × ((from_dict floats builtins weights p ≡ ok s)
          × (IsCurrent floats builtins s × (s.documents ≡ p.documents)))
  unfolding from_dict restored restored_from
  from_dict-IsCurrent weights p w =
      (restored weights p, (rw w.version refl, restored-IsCurrent weights p w))

  saved-IsWritten :
      (s : Index F)
      → leb s.schema_version 2 ≡ true
      → IsIndexed s
      → AllCached s.documents
      → IsWritten floats builtins (to_dict s)
  unfolding to_dict
  saved-IsWritten s v i a = record {
    version = v;
    unique = i.unique;
    cached = a;
    posted = inr (s.inverted_index, (refl, λ t. ap (λ x. x.1) (i.agrees t)));
  }

  -- An index whose tables agree with its documents, each of which has a token and the counts of its
  -- tokens, is loaded from what is saved of it: with the same documents and for every token the same
  -- entries in `stats` and `inverted_index`.
  pub load-save :
      (digest : Payload F → String) (weights : List (Text × F)) (s : Index F)
      → leb s.schema_version 2 ≡ true
      → IsIndexed s
      → AllCached s.documents
      → (r : Index F) × ((load floats builtins digest weights (save floats builtins digest s)
            ≡ some r)
          × ((r.documents ≡ s.documents) × ((t : Text) → view t r ≡ view t s)))
  unfolding load save to_dict
  load-save digest weights s v i a =
      let (r, (made, (current, documents))) =
        from_dict-IsCurrent weights (to_dict s) (saved-IsWritten s v i a) in
      (
        r,
        (
          rw (==_refl (digest (to_dict s)), made) refl,
          (
            documents,
            λ t.
                current.indexed.agrees t
                ∙ (ap (λ docs. expected (postings_of t docs)) documents ∙ sym (i.agrees t)),
          ),
        ),
      )
