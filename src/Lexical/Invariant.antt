-- ===== src/Lexical/Invariant.antt =====
-- The tables of the index of openclaw_memory_os/lexical.py agree with its documents, whatever is
-- added or removed.
use openclaw_memory_os.Prelude.{
  ℕ, zero, suc, String, ◌≡◌, refl, sym, ap, ◌∙◌, inl, inr, Option, none, some, List, [], ◌∷◌, ◌++◌,
  nat_eq, string_eq, list_eq, pair_eq, Option-cases,
}
use mathlib.Core.List.{append-nil}
use openclaw_memory_os.Prelude.Floats.{Floats}
use openclaw_memory_os.Prelude.Text.{Text}
use openclaw_memory_os.Prelude.Table.{lookup, insert, remove, remove-missing}
use openclaw_memory_os.Prelude.Count.{
  count, counter, IsUnique, unless_zero, updated, for_each, for_each_lem, for_each-keeps,
  counter-IsUnique, lookup-counter, insert-IsUnique, remove-IsUnique, insert-append,
}
use openclaw_memory_os.Lexical.{
  Document, Postings, Index, without, index_token, forget_token, remove_document, remove_internal,
  insert_document,
}
use openclaw_memory_os.Lexical.Tokens.{Builtins}
use openclaw_memory_os.Lexical.Postings.{
  view, postings_of, expected, index_view, forget_view, add_posting, view-index_token,
  view-forget_token, index_view-expected, postings_of-append, postings_of-remove, without-plain,
  forget_view-postings,
}

-- Each key has one document, and the entry of a token in `stats` and in `inverted_index` is what
-- the documents say: there is none if no document has the token.
pub record IsIndexed {F : Type 0} (s : Index F) : Type 0 where
  pub unique : IsUnique s.documents
  pub agrees : (t : Text) → view t s ≡ expected (postings_of t s.documents)

updated-index :
    (key : Text) (o : Option ℕ) (ps : Postings)
    → updated (index_view key) o (expected ps) ≡ expected (ps ++ add_posting key o [])
updated-index key none ps = ap expected (sym (append-nil ps))
updated-index key (some n) ps = index_view-expected key n ps

updated-forget :
    (t key : Text) (d : Document) (docs : List (Text × Document)) (n : ℕ)
    → IsUnique docs
    → lookup key docs ≡ some d
    → count t d.lexical_tokens ≡ n
    → updated (forget_view key) (unless_zero n) (expected (postings_of t docs))
      ≡ expected (without key (postings_of t docs))
updated-forget t key d docs zero u h z = ap expected (sym (without-plain t key d docs u h z))
updated-forget t key d docs (suc n) u h z = forget_view-postings t key d docs n u h z

module _ {F : Type 0} where
  view-index :
      (key t : Text) (tokens : List Text) (s : Index F)
      → view t (for_each (index_token key) (counter tokens) s)
        ≡ updated (index_view key) (unless_zero (count t tokens)) (view t s)
  view-index key t tokens s =
      for_each_lem view (index_token key) (index_view key)
        (λ a. λ b. λ n. λ x. view-index_token key a b n x) t (counter tokens) s
        (counter-IsUnique tokens)
      ∙ ap (λ o. updated (index_view key) o (view t s)) (lookup-counter t tokens)

  view-forget :
      (key t : Text) (tokens : List Text) (s : Index F)
      → view t (for_each (forget_token key) (counter tokens) s)
        ≡ updated (forget_view key) (unless_zero (count t tokens)) (view t s)
  view-forget key t tokens s =
      for_each_lem view (forget_token key) (forget_view key)
        (λ a. λ b. λ n. λ x. view-forget_token key a b n x) t (counter tokens) s
        (counter-IsUnique tokens)
      ∙ ap (λ o. updated (forget_view key) o (view t s)) (lookup-counter t tokens)

  index-keeps_documents :
      (key : Text) (m : List (Text × ℕ)) (s : Index F)
      → (for_each (index_token key) m s).documents ≡ s.documents
  unfolding index_token
  index-keeps_documents key m s =
      for_each-keeps (index_token key) (λ x. x.documents) (λ a. λ n. λ x. refl) m s

  forget_token-documents :
      (key a : Text) (n : ℕ) (s : Index F) → (forget_token key a n s).documents ≡ s.documents
  unfolding forget_token
  forget_token-documents key a n s = elim (Option-cases (lookup a s.stats)) [
    | inl e ↦ rw e refl
    | inr (st, e) ↦ rw e refl
  ]

  forget-keeps_documents :
      (key : Text) (m : List (Text × ℕ)) (s : Index F)
      → (for_each (forget_token key) m s).documents ≡ s.documents
  forget-keeps_documents key m s =
      for_each-keeps (forget_token key) (λ x. x.documents) (forget_token-documents key) m s

  remove_document-IsIndexed :
      (key : Text) (s : Index F) (o : Option Document)
      → lookup key s.documents ≡ o
      → IsIndexed s
      → IsIndexed (remove_document key o s)
  remove_document-IsIndexed key s none h i = i
  remove_document-IsIndexed key s (some d) h i = record {
    unique = rw (forget-keeps_documents key) (remove-IsUnique key s.documents i.unique);
    agrees = λ t. rw (view-forget key t) (
        rw (i.agrees t) (
          rw (updated-forget t key d s.documents (count t d.lexical_tokens) i.unique h refl) (
            rw (forget-keeps_documents key)
              (ap expected (sym (postings_of-remove t key s.documents))))));
  }

  pub remove_internal-IsIndexed :
      (key : Text) (s : Index F) → IsIndexed s → IsIndexed (remove_internal key s)
  unfolding remove_internal
  remove_internal-IsIndexed key s i =
      remove_document-IsIndexed key s (lookup key s.documents) refl i

  remove_document-documents :
      (key : Text) (s : Index F) (o : Option Document)
      → lookup key s.documents ≡ o
      → (remove_document key o s).documents ≡ remove key s.documents
  remove_document-documents key s none h = sym (remove-missing key s.documents h)
  remove_document-documents key s (some d) h =
      forget-keeps_documents key (counter d.lexical_tokens) _

  pub remove_internal-documents :
      (key : Text) (s : Index F) → (remove_internal key s).documents ≡ remove key s.documents
  unfolding remove_internal
  remove_internal-documents key s = remove_document-documents key s (lookup key s.documents) refl

module _ (floats : Floats) (builtins : Builtins floats.F) where
  open floats use {F}

  pub insert_document-documents :
      (key : Text) (d : Document) (ts : String) (s : Index F)
      → lookup key s.documents ≡ none
      → (insert_document floats builtins key d ts s).documents ≡ s.documents ++ ((key, d) ∷ [])
  insert_document-documents key d ts s h =
      ap (λ docs. insert key d docs) (index-keeps_documents key (counter d.lexical_tokens) s)
      ∙ insert-append key d s.documents h

  insert_document-agrees :
      (key t : Text) (d : Document) (ts : String) (s : Index F)
      → lookup key s.documents ≡ none
      → IsIndexed s
      → view t (insert_document floats builtins key d ts s)
        ≡ expected (postings_of t (s.documents ++ ((key, d) ∷ [])))
  insert_document-agrees key t d ts s h i =
      view-index key t d.lexical_tokens s
      ∙ (ap (λ v. updated (index_view key) (unless_zero (count t d.lexical_tokens)) v) (i.agrees t)
          ∙ (updated-index key (unless_zero (count t d.lexical_tokens)) (postings_of t s.documents)
              ∙ ap expected (sym (postings_of-append t key d s.documents))))

  pub insert_document-IsIndexed :
      (key : Text) (d : Document) (ts : String) (s : Index F)
      → lookup key s.documents ≡ none
      → IsIndexed s
      → IsIndexed (insert_document floats builtins key d ts s)
  insert_document-IsIndexed key d ts s h i = record {
    unique = rw (index-keeps_documents key) (insert-IsUnique key d s.documents i.unique);
    agrees =
        λ t. rw (insert_document-documents key d ts s h) (insert_document-agrees key t d ts s h i);
  }
