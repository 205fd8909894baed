-- ===== src/Lexical/Cache.antt =====
-- The cache of results of `BM25Index.search` in openclaw_memory_os/lexical.py: its key is made of the
-- query's tokens, not of its exact identifiers.
use openclaw_memory_os.Prelude.{
  ℕ, zero, suc, ◌≡◌, refl, sym, subst, inl, inr, false, ◌||◌, not, Option, none, some, List, [],
  ◌∷◌, ◌++◌, arith, ◌==◌, ==_iff, nat_eq, string_eq, list_eq, pair_eq, Bool-cases, if◌then◌else◌,
  drop,
}
use openclaw_memory_os.Prelude.Floats.{Floats}
use openclaw_memory_os.Prelude.Text.{Text, is_empty}
use openclaw_memory_os.Prelude.Table.{lookup, remove}
use openclaw_memory_os.Lexical.{Index, CacheKey}
use openclaw_memory_os.Lexical.Tokens.{Builtins, tokenize_lexical, extract_exact_identifiers}
use openclaw_memory_os.Lexical.Search.{
  drop_dupes, collect, filter_values, score_document, scores, sort_hits, fresh, answer,
  search_tokens, has_documents, search,
}

module _ (floats : Floats) (builtins : Builtins floats.F) where
  open floats use {F}

  abbrev Cache : Type 0
  Cache = List (CacheKey × List (Text × F))

  -- The unique tokens of a query.
  unfoldable pub uniq : Text → List Text
  uniq query = drop_dupes [] (tokenize_lexical builtins query)

  -- The hits are those of a query with these unique tokens.
  pub record IsFresh (s : Index F) (key : CacheKey) (hits : List (Text × F)) : Type 0 where
    pub asked : Text
    pub tokens : uniq asked ≡ key.0
    pub found :
        hits
        ≡ fresh floats builtins key.1.0 key.1.1 key.0 (extract_exact_identifiers builtins asked) s

  abbrev pub AllFresh : Index F → Cache → Type 0
  AllFresh s [] = Unit
  AllFresh s ((key, hits) ∷ cache) = IsFresh s key hits × AllFresh s cache

  AllFresh-lookup :
      (s : Index F) (key : CacheKey) (hits : List (Text × F)) (cache : Cache)
      → AllFresh s cache
      → lookup key cache ≡ some hits
      → IsFresh s key hits
  unfolding lookup
  AllFresh-lookup s key hits [] a h = cc
  AllFresh-lookup s key hits ((k, found) ∷ cache) (f, a) h = elim (Bool-cases (k == key)) [
    | inl p ↦
        subst (λ x. IsFresh s x hits) ((==_iff k key).0 p)
          (subst (λ x. IsFresh s k x) (ground arith) f)
    | inr p ↦ AllFresh-lookup s key hits cache a (ground arith)
  ]

  AllFresh-remove :
      (s : Index F) (key : CacheKey) (cache : Cache)
      → AllFresh s cache
      → AllFresh s (remove key cache)
  unfolding remove
  AllFresh-remove s key [] a = tt
  AllFresh-remove s key ((k, found) ∷ cache) (f, a) = elim (Bool-cases (k == key)) [
    | inl p ↦ rw p (AllFresh-remove s key cache a)
    | inr p ↦ rw p (f, AllFresh-remove s key cache a)
  ]

  AllFresh-append :
      (s : Index F) (key : CacheKey) (hits : List (Text × F)) (cache : Cache)
      → AllFresh s cache
      → IsFresh s key hits
      → AllFresh s (cache ++ ((key, hits) ∷ []))
  AllFresh-append s key hits [] a f = (f, tt)
  AllFresh-append s key hits ((k, found) ∷ cache) (g, a) f =
      (g, AllFresh-append s key hits cache a f)

  AllFresh-drop :
      (s : Index F) (n : ℕ) (cache : Cache) → AllFresh s cache → AllFresh s (drop n cache)
  AllFresh-drop s zero cache a = a
  AllFresh-drop s (suc n) [] a = a
  AllFresh-drop s (suc n) ((k, found) ∷ cache) (f, a) = AllFresh-drop s n cache a

  -- A change of the cache does not change what is fresh.
  IsFresh-recached :
      (s : Index F) (other : Cache) (key : CacheKey) (hits : List (Text × F))
      → IsFresh s key hits
      → IsFresh (record s { search_cache = other }) key hits
  unfolding fresh scores score_document
  IsFresh-recached s other key hits f = record {
    asked = f.asked;
    tokens = f.tokens;
    found = f.found;
  }

  AllFresh-recached :
      (s : Index F) (other cache : Cache)
      → AllFresh s cache
      → AllFresh (record s { search_cache = other }) cache
  AllFresh-recached s other [] a = tt
  AllFresh-recached s other ((k, found) ∷ cache) (f, a) =
      (IsFresh-recached s other k found f, AllFresh-recached s other cache a)

  -- What `search` answers without the cache, with the exact identifiers of the query `asked`.
  unfoldable pub uncached : (query asked : Text) → (limit boost : ℕ) → Index F → List (Text × F)
  unfolding uniq fresh
  uncached query asked limit boost s =
      if is_empty query || not (has_documents floats builtins s)
      then []
      else fresh floats builtins limit boost (uniq query) (extract_exact_identifiers builtins asked)
          s

  -- The answer, and the entries of the cache, are those of queries with the same unique tokens.
  pub record IsAnswered (query : Text) (limit boost : ℕ) (s : Index F)
      (r : List (Text × F) × Index F) : Type 0 where
    pub asked : Text
    pub same_tokens : uniq asked ≡ uniq query
    pub answered : r.0 ≡ uncached query asked limit boost s
    pub kept : AllFresh r.1 r.1.search_cache
    pub only_cache : r.1 ≡ record s { search_cache = r.1.search_cache }

  answer_lem :
      (query : Text) (limit boost : ℕ) (s : Index F) (o : Option (List (Text × F)))
      → lookup (uniq query, (limit, boost)) s.search_cache ≡ o
      → AllFresh s s.search_cache
      → IsFresh s
          (uniq query, (limit, boost))
          (answer floats builtins
            (uniq query, (limit, boost))
            (fresh floats builtins limit boost
              (uniq query)
              (extract_exact_identifiers builtins query)
              s)
            o
            s).0
  answer_lem query limit boost s none h a = record { asked = query; tokens = refl; found = refl }
  answer_lem query limit boost s (some hits) h a =
      AllFresh-lookup s (uniq query, (limit, boost)) hits s.search_cache a h

  answer-AllFresh :
      (key : CacheKey) (hits : List (Text × F)) (s : Index F) (o : Option (List (Text × F)))
      → AllFresh s s.search_cache
      → IsFresh s key (answer floats builtins key hits o s).0
      → AllFresh
          (answer floats builtins key hits o s).1
          (answer floats builtins key hits o s).1.search_cache
  answer-AllFresh key hits s none a f = AllFresh-recached s _ _ (
      AllFresh-drop s _ _ (AllFresh-append s key hits _ (AllFresh-remove s key s.search_cache a) f))
  answer-AllFresh key hits s (some found) a f =
      AllFresh-recached s _ _
        (AllFresh-append s key found _ (AllFresh-remove s key s.search_cache a) f)

  fresh_nothing :
      (limit boost : ℕ) (exacts : List Text) (s : Index F)
      → fresh floats builtins limit boost [] exacts s ≡ []
  unfolding fresh scores sort_hits collect filter_values
  fresh_nothing zero boost exacts s = refl
  fresh_nothing (suc limit) boost exacts s = refl

  answer-only_cache :
      (key : CacheKey) (hits : List (Text × F)) (s : Index F) (o : Option (List (Text × F)))
      → (answer floats builtins key hits o s).1
        ≡ record s { search_cache = (answer floats builtins key hits o s).1.search_cache }
  answer-only_cache key hits s none = refl
  answer-only_cache key hits s (some found) = refl

  answered_by : (query : Text) (limit boost : ℕ) → List Text → Index F → List (Text × F) × Index F
  answered_by query limit boost ts s =
      answer floats builtins (ts, (limit, boost))
        (fresh floats builtins limit boost ts (extract_exact_identifiers builtins query) s)
        (lookup (ts, (limit, boost)) s.search_cache) s

  answer-IsAnswered :
      (query : Text) (limit boost : ℕ) (s : Index F)
      → (is_empty query || not (has_documents floats builtins s)) ≡ false
      → AllFresh s s.search_cache
      → IsAnswered query limit boost s (answered_by query limit boost (uniq query) s)
  unfolding uncached answered_by
  answer-IsAnswered query limit boost s e a =
      let key : CacheKey = (uniq query, (limit, boost)) in
      let f = answer_lem query limit boost s (lookup key s.search_cache) refl a in
      record {
        asked = f.asked;
        same_tokens = f.tokens;
        answered = rw e f.found;
        kept = answer-AllFresh key _ s (lookup key s.search_cache) a f;
        only_cache = answer-only_cache key _ s (lookup key s.search_cache);
      }

  search_tokens-IsAnswered :
      (query : Text) (limit boost : ℕ) (s : Index F)
      → (is_empty query || not (has_documents floats builtins s)) ≡ false
      → AllFresh s s.search_cache
      → (ts : List Text) → uniq query ≡ ts
      → IsAnswered query limit boost s (search_tokens floats builtins query limit boost ts s)
  unfolding uncached answered_by
  search_tokens-IsAnswered query limit boost s e a [] h = record {
    asked = query;
    same_tokens = refl;
    answered =
        rw e (rw h (sym (fresh_nothing limit boost (extract_exact_identifiers builtins query) s)));
    kept = a;
    only_cache = refl;
  }
  search_tokens-IsAnswered query limit boost s e a (t ∷ ts) h =
      subst (λ u. IsAnswered query limit boost s (answered_by query limit boost u s)) h
        (answer-IsAnswered query limit boost s e a)

  -- What `search` answers is what it would compute without its cache for this query, or for
  -- another one with the same unique tokens; it changes the cache only, and leaves it so.
  pub search-IsAnswered :
      (query : Text) (limit boost : ℕ) (s : Index F)
      → AllFresh s s.search_cache
      → IsAnswered query limit boost s (search floats builtins query limit boost s)
  unfolding search uncached uniq
  search-IsAnswered query limit boost s a =
      elim (Bool-cases (is_empty query || not (has_documents floats builtins s))) [
        | inl e ↦ rw e (record {
          asked = query;
          same_tokens = refl;
          answered = rw e refl;
          kept = a;
          only_cache = refl;
        })
        | inr e ↦ rw e (search_tokens-IsAnswered query limit boost s e a (uniq query) refl)
      ]
