-- ===== src/Lexical/Updates.antt =====
-- What the operations of the index of openclaw_memory_os/lexical.py leave behind: tables that agree
-- with the documents, and their average.
use openclaw_memory_os.Prelude.{
  ℕ, ◌≡◌, refl, sym, ap, ◌∙◌, inl, inr, none, List, [], ◌∷◌, ◌++◌, arith, ==_refl, nat_eq,
  string_eq, list_eq, pair_eq, Option-cases, is_some, or_else, if◌then◌else◌,
}
use openclaw_memory_os.Prelude.Floats.{Floats}
use openclaw_memory_os.Prelude.Text.{Text}
use openclaw_memory_os.Prelude.Table.{lookup, remove, lookup-remove, remove-missing}
use openclaw_memory_os.Lexical.{
  Index, remove_internal, document_of, add_one, average_of, refresh_average, add_record,
  remove_record, add_all, clear_cache, incremental_refresh, clear,
}
use openclaw_memory_os.Lexical.Tokens.{Builtins, MemoryRecord}
use openclaw_memory_os.Lexical.Postings.{postings_of}
use openclaw_memory_os.Lexical.Invariant.{
  IsIndexed, remove_internal-IsIndexed, remove_internal-documents, insert_document-documents,
  insert_document-IsIndexed,
}

module _ (floats : Floats) (builtins : Builtins floats.F) where
  open floats use {F}

  -- What is left of the index once an old document of the key is gone.
  evicted : Text → Index F → Index F
  evicted key s = if is_some (lookup key s.documents) then remove_internal key s else s

  evicted-documents :
      (key : Text) (s : Index F) → (evicted key s).documents ≡ remove key s.documents
  unfolding evicted
  evicted-documents key s = elim (Option-cases (lookup key s.documents)) [
    | inl e ↦ rw e (sym (remove-missing key s.documents e))
    | inr (d, e) ↦ rw e (remove_internal-documents key s)
  ]

  evicted-IsIndexed : (key : Text) (s : Index F) → IsIndexed s → IsIndexed (evicted key s)
  unfolding evicted
  evicted-IsIndexed key s i = elim (Option-cases (lookup key s.documents)) [
    | inl e ↦ rw e i
    | inr (d, e) ↦ rw e (remove_internal-IsIndexed key s i)
  ]

  evicted-absent : (key : Text) (s : Index F) → lookup key (evicted key s).documents ≡ none
  evicted-absent key s =
      rw (evicted-documents key s) (ground (arith, lookup-remove key key s.documents, ==_refl key))

  -- The documents after an insertion: the new one last, the old one of its key gone.
  pub add_one-documents :
      (now : ℕ) (r : MemoryRecord) (s : Index F)
      → (add_one floats builtins now r s).documents
        ≡ remove r.candidate_key s.documents
          ++ ((r.candidate_key, document_of floats builtins s.field_weights r) ∷ [])
  unfolding add_one evicted
  add_one-documents now r s =
      insert_document-documents floats builtins r.candidate_key
        (document_of floats builtins s.field_weights r)
        (builtins.isoformat (or_else r.created_at now)) (evicted r.candidate_key s)
        (evicted-absent r.candidate_key s)
      ∙ ap (λ docs. docs ++ ((r.candidate_key, document_of floats builtins s.field_weights r) ∷ []))
          (evicted-documents r.candidate_key s)

  pub add_one-IsIndexed :
      (now : ℕ) (r : MemoryRecord) (s : Index F)
      → IsIndexed s
      → IsIndexed (add_one floats builtins now r s)
  unfolding add_one evicted
  add_one-IsIndexed now r s i =
      insert_document-IsIndexed floats builtins r.candidate_key _ _ (evicted r.candidate_key s)
        (evicted-absent r.candidate_key s) (evicted-IsIndexed r.candidate_key s i)

  add_all-IsIndexed :
      (now : ℕ) (rs : List MemoryRecord) (s : Index F)
      → IsIndexed s
      → IsIndexed (add_all floats builtins now rs s)
  add_all-IsIndexed now [] s i = i
  add_all-IsIndexed now (r ∷ rs) s i = add_all-IsIndexed now rs _ (add_one-IsIndexed now r s i)

  -- The tables agree with the documents, and the average is theirs.
  pub record IsCurrent (s : Index F) : Type 0 where
    pub indexed : IsIndexed s
    pub averaged : s.average_doc_len ≡ average_of floats builtins s.documents

  pub refresh_average-IsCurrent :
      (s : Index F) → IsIndexed s → IsCurrent (refresh_average floats builtins s)
  unfolding refresh_average
  refresh_average-IsCurrent s i = record {
    indexed = record { unique = i.unique; agrees = i.agrees };
    averaged = refl;
  }

  touched : (s : Index F) → IsIndexed s → IsIndexed (clear_cache floats builtins s)
  touched s i = record { unique = i.unique; agrees = i.agrees }

  -- An empty index is current.
  pub clear-IsCurrent : (weights : List (Text × F)) → IsCurrent (clear floats builtins weights)
  unfolding clear postings_of lookup
  clear-IsCurrent weights = record {
    indexed = record { unique = tt; agrees = λ t. refl };
    averaged = refl;
  }

  -- `add`
  pub add_record-IsCurrent :
      (now : ℕ) (r : MemoryRecord) (s : Index F)
      → IsIndexed s
      → IsCurrent (add_record floats builtins now r s)
  unfolding add_record
  add_record-IsCurrent now r s i =
      refresh_average-IsCurrent _ (add_one-IsIndexed now r _ (touched s i))

  -- `remove`
  pub remove_record-IsCurrent :
      (key : Text) (s : Index F) → IsIndexed s → IsCurrent (remove_record floats builtins key s)
  unfolding remove_record
  remove_record-IsCurrent key s i =
      refresh_average-IsCurrent _ (touched _ (remove_internal-IsIndexed key s i))

  -- `incremental_refresh`
  pub incremental_refresh-IsCurrent :
      (now : ℕ) (rs : List MemoryRecord) (s : Index F)
      → IsIndexed s
      → IsCurrent (incremental_refresh floats builtins now rs s).0
  unfolding incremental_refresh
  incremental_refresh-IsCurrent now rs s i =
      refresh_average-IsCurrent _ (add_all-IsIndexed now rs _ (touched s i))

  -- A call on the index.
  pub data Call : Type 0 where
    call_add : (now : ℕ) → MemoryRecord → Call
    call_remove : (candidate_key : Text) → Call
    call_refresh : (now : ℕ) → List MemoryRecord → Call
    call_clear : Call

  abbrev pub call : Call → Index F → Index F
  call (call_add now r) s = add_record floats builtins now r s
  call (call_remove key) s = remove_record floats builtins key s
  call (call_refresh now rs) s = (incremental_refresh floats builtins now rs s).0
  call call_clear s = clear floats builtins s.field_weights

  -- The calls in order.
  abbrev pub calls : List Call → Index F → Index F
  calls [] s = s
  calls (c ∷ cs) s = calls cs (call c s)

  pub call-IsCurrent : (c : Call) (s : Index F) → IsCurrent s → IsCurrent (call c s)
  call-IsCurrent (call_add now r) s i = add_record-IsCurrent now r s i.indexed
  call-IsCurrent (call_remove key) s i = remove_record-IsCurrent key s i.indexed
  call-IsCurrent (call_refresh now rs) s i = incremental_refresh-IsCurrent now rs s i.indexed
  call-IsCurrent call_clear s i = clear-IsCurrent s.field_weights

  calls-keep : (cs : List Call) (s : Index F) → IsCurrent s → IsCurrent (calls cs s)
  calls-keep [] s i = i
  calls-keep (c ∷ cs) s i = calls-keep cs (call c s) (call-IsCurrent c s i)

  -- After any sequence of `add`, `remove`, `incremental_refresh` and `clear` on a new index: each
  -- key has one document, the average length is that of the documents, and for every token its
  -- posting list is the list of the documents that contain it, its `df` their number and its
  -- `total_tf` the sum of their term frequencies, with no entry if no document contains it.
  pub calls-IsCurrent :
      (cs : List Call) (weights : List (Text × F))
      → IsCurrent (calls cs (clear floats builtins weights))
  calls-IsCurrent cs weights = calls-keep cs _ (clear-IsCurrent weights)
