-- ===== src/Lexical/Repeated.antt =====
-- Two searches in a row of `BM25Index.search` in openclaw_memory_os/lexical.py.
use openclaw_memory_os.Prelude.{
  ℕ, zero, suc, ◌-◌, ◌≤◌, ◌≡◌, refl, inl, inr, true, false, Option, none, some, List, [], ◌∷◌, ◌++◌,
  arith, ==_refl, nat_eq, string_eq, list_eq, pair_eq, Bool-cases, length, drop, length-append,
}
use openclaw_memory_os.Prelude.Floats.{Floats}
use openclaw_memory_os.Prelude.Text.{Text, is_empty}
use openclaw_memory_os.Prelude.Table.{lookup, remove, lookup-remove}
use openclaw_memory_os.Lexical.{Index, CacheKey, search_cache_max}
use openclaw_memory_os.Lexical.Tokens.{Builtins}
use openclaw_memory_os.Lexical.Search.{trimmed, answer, search_tokens, has_documents, search}
use openclaw_memory_os.Lexical.Cache.{uniq}

lookup-last :
    {V : Type 0} (key : CacheKey) (v : V) (n : ℕ) (cache : List (CacheKey × V))
    → n ≤ length cache
    → lookup key cache ≡ none
    → lookup key (drop n (cache ++ ((key, v) ∷ []))) ≡ some v
unfolding lookup
lookup-last key v zero [] b h = ground (arith, ==_refl key)
lookup-last key v (suc n) [] b h = absurd (omega arith)
lookup-last key v zero (e ∷ cache) b h = ground (arith, lookup-last key v 0 cache)
lookup-last key v (suc n) (e ∷ cache) b h = lookup-last key v n cache (omega arith) (ground arith)

lookup-trimmed :
    {V : Type 0} (key : CacheKey) (v : V) (cache : List (CacheKey × V))
    → lookup key (trimmed (remove key cache ++ ((key, v) ∷ []))) ≡ some v
lookup-trimmed key v cache =
    lookup-last key v (length (remove key cache ++ ((key, v) ∷ [])) - search_cache_max)
      (remove key cache) (omega (arith, length-append (remove key cache) ((key, v) ∷ [])))
      (ground (arith, lookup-remove key key cache, ==_refl key))

module _ (floats : Floats) (builtins : Builtins floats.F) where
  open floats use {F}

  answer-documents :
      (key : CacheKey) (hits : List (Text × F)) (s : Index F) (o : Option (List (Text × F)))
      → (answer floats builtins key hits o s).1.documents ≡ s.documents
  answer-documents key hits s none = refl
  answer-documents key hits s (some found) = refl

  search_tokens-documents :
      (query : Text) (limit boost : ℕ) (ts : List Text) (s : Index F)
      → (search_tokens floats builtins query limit boost ts s).1.documents ≡ s.documents
  search_tokens-documents query limit boost [] s = refl
  search_tokens-documents query limit boost (t ∷ ts) s =
      answer-documents (t ∷ ts, (limit, boost)) _ s (lookup (t ∷ ts, (limit, boost)) s.search_cache)

  answer_again :
      (key : CacheKey) (hits others : List (Text × F)) (s : Index F)
      → (answer floats builtins key others
          (lookup key (answer floats builtins key hits none s).1.search_cache)
          (answer floats builtins key hits none s).1).0
        ≡ hits
  answer_again key hits others s = rw (lookup-trimmed key hits s.search_cache) refl

  search_tokens_again :
      (first second : Text) (limit boost : ℕ) (ts : List Text) (s : Index F)
      → lookup (ts, (limit, boost)) s.search_cache ≡ none
      → (search_tokens floats builtins second limit boost ts
          (search_tokens floats builtins first limit boost ts s).1).0
        ≡ (search_tokens floats builtins first limit boost ts s).0
  search_tokens_again first second limit boost [] s h = refl
  search_tokens_again first second limit boost (t ∷ ts) s h =
      rw h (answer_again (t ∷ ts, (limit, boost)) _ _ s)

  search_open :
      (query : Text) (limit boost : ℕ) (s : Index F)
      → is_empty query ≡ false
      → has_documents floats builtins s ≡ true
      → search floats builtins query limit boost s
        ≡ search_tokens floats builtins query limit boost (uniq floats builtins query) s
  unfolding search uniq
  search_open query limit boost s e d = rw (e, d) refl

  still_open :
      (query : Text) (limit boost : ℕ) (s : Index F)
      → has_documents floats builtins s ≡ true
      → has_documents floats builtins
          (search_tokens floats builtins query limit boost (uniq floats builtins query) s).1
        ≡ true
  still_open query limit boost s d =
      rw (search_tokens-documents query limit boost (uniq floats builtins query) s) d

  search_closed :
      (query : Text) (limit boost : ℕ) (s : Index F)
      → has_documents floats builtins s ≡ false
      → search floats builtins query limit boost s ≡ ([], s)
  unfolding search
  search_closed query limit boost s d = ground arith

  -- If no answer for a query is cached, a second query with the same unique tokens gets the hits of
  -- the first, whatever its own exact identifiers are.
  pub search-search :
      (first second : Text) (limit boost : ℕ) (s : Index F)
      → is_empty first ≡ false
      → is_empty second ≡ false
      → uniq floats builtins second ≡ uniq floats builtins first
      → lookup (uniq floats builtins first, (limit, boost)) s.search_cache ≡ none
      → (search floats builtins second limit boost (search floats builtins first limit boost s).1).0
        ≡ (search floats builtins first limit boost s).0
  search-search first second limit boost s e f same h =
      elim (Bool-cases (has_documents floats builtins s)) [
        | inl d ↦ rw (search_open first limit boost s e d) (
            rw (search_open second limit boost _ f (still_open first limit boost s d)) (
              rw same
                (search_tokens_again first second limit boost (uniq floats builtins first) s h)))
        | inr d ↦
            rw (search_closed first limit boost s d)
              (rw (search_closed second limit boost s d) refl)
      ]
