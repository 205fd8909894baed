-- ===== src/Lexical/Search.antt =====
-- `BM25Index.search` of openclaw_memory_os/lexical.py, with its cache of results. The limit is not
-- negative, and the boost is a whole number, as at the calls.
use openclaw_memory_os.Prelude.{
  ℕ, ◌-◌, Bool, true, false, ◌&&◌, ◌||◌, not, Option, none, some, List, [], ◌∷◌, ◌++◌, ltb, ◌==◌,
  nat_eq, nat_eqb, string_eq, list_eq, pair_eq, or_else, if◌then◌else◌, length, take, drop, any,
}
use openclaw_memory_os.Prelude.Floats.{Floats}
use openclaw_memory_os.Prelude.Text.{Text, is_empty}
use openclaw_memory_os.Prelude.Table.{lookup, insert, remove}
use openclaw_memory_os.Prelude.Count.{for_each}
use openclaw_memory_os.Lexical.{Stats, Document, Postings, Index, CacheKey, search_cache_max}
use openclaw_memory_os.Lexical.Tokens.{Builtins, tokenize_lexical, extract_exact_identifiers}

-- `t in seen`
abbrev pub seen_in : Text → List Text → Bool
seen_in t seen = any (λ u. u == t) seen

-- The loop that drops the duplicates.
unfoldable pub drop_dupes : (seen : List Text) → List Text → List Text
drop_dupes seen [] = []
drop_dupes seen (t ∷ ts) = elim (seen_in t seen) [
  | true ↦ drop_dupes seen ts
  | false ↦ t ∷ drop_dupes (t ∷ seen) ts
]

abbrev Slot : Type 0
Slot = List (Text × ℕ)

abbrev pub keep_higher : (token : Text) → (tf : ℕ) → (prev : Option ℕ) → Slot → Slot
keep_higher token tf none slot = insert token tf slot
keep_higher token tf (some prev) slot = if ltb prev tf then insert token tf slot else slot

abbrev pub raise_slot : (token : Text) → (tf : ℕ) → Slot → Slot
raise_slot token tf slot = keep_higher token tf (lookup token slot) slot

-- The body of the loop over the postings of a query token.
abbrev pub note_posting :
    (token doc_key : Text) → (tf : ℕ) → List (Text × Slot) → List (Text × Slot)
note_posting token doc_key tf table =
    insert doc_key (raise_slot token tf (or_else (lookup doc_key table) [])) table

-- The loop over the query tokens: `candidate_tfs`.
unfoldable pub collect :
    List (Text × Postings) → List Text → List (Text × Slot) → List (Text × Slot)
collect index [] table = table
collect index (t ∷ ts) table =
    collect index ts (for_each (note_posting t) (or_else (lookup t index) []) table)

abbrev pub with_value : {W : Type 0} → Text → Option W → List (Text × W) → List (Text × W)
with_value k none rest = rest
with_value k (some w) rest = (k, w) ∷ rest

-- `[(k, f(k, v)) for k, v in m.items()]`, where `f` has a value.
unfoldable pub filter_values :
    {V W : Type 0} → (Text → V → Option W) → List (Text × V) → List (Text × W)
filter_values f [] = []
filter_values f ((k, v) ∷ m) = with_value k (f k v) (filter_values f m)

abbrev code_before : Text → Text → Bool
code_before s [] = false
code_before [] (d ∷ t) = true
code_before (c ∷ s) (d ∷ t) = if c == d then code_before s t else ltb c d

-- `d.popitem(last=False)` until the cache is small enough.
abbrev pub trimmed : {A : Type 0} → List A → List A
trimmed cache = drop (length cache - search_cache_max) cache

module _ (floats : Floats) (builtins : Builtins floats.F) where
  open floats use {F, lit, add, sub, mul, div, neg, lt, is_nan}
  open builtins use {log, truthy}

  -- `x or 1.0`
  abbrev or_one : F → F
  or_one x = if truthy x then x else lit 10 1

  abbrev k1 : F
  k1 = lit 12 1

  abbrev b : F
  b = lit 75 2

  abbrev idf : (n_docs df : ℕ) → F
  idf n df =
      log
        (add (lit 1 0) (div (add (sub (lit n 0) (lit df 0)) (lit 5 1)) (add (lit df 0) (lit 5 1))))

  abbrev denom : (tf doc_len : ℕ) → (avg : F) → F
  denom tf doc_len avg =
      add (lit tf 0) (mul k1 (add (sub (lit 1 0) b) (div (mul b (lit doc_len 0)) avg)))

  abbrev weighed : (n_docs doc_len tf : ℕ) → (avg : F) → Option Stats → F → F
  weighed n doc_len tf avg none s = s
  weighed n doc_len tf avg (some st) s =
      if nat_eqb st.df 0
      then s
      else add s (
          div (mul (idf n st.df) (mul (lit tf 0) (add k1 (lit 1 0))))
            (or_one (denom tf doc_len avg)))

  -- The loop over the tokens of a candidate.
  abbrev sum_tokens :
      (stats : List (Text × Stats)) → (n_docs doc_len : ℕ) → (avg : F) → Slot → F → F
  sum_tokens stats n doc_len avg [] s = s
  sum_tokens stats n doc_len avg ((t, tf) ∷ slot) s =
      sum_tokens stats n doc_len avg slot
        (if nat_eqb tf 0 then s else weighed n doc_len tf avg (lookup t stats) s)

  -- The score of a document for the query tokens that it contains, if it is positive.
  unfoldable pub score_document :
      (boost : ℕ) → (query_exacts : List Text) → Index F → Document → Slot → Option F
  score_document boost exacts s d slot =
      let n = length s.documents in
      let sum = sum_tokens s.stats n d.doc_len (or_one s.average_doc_len) slot (lit 0 1) in
      let score = if any (λ x. seen_in x exacts) d.exact_ids then add sum (lit boost 0) else sum in
      if lt (lit 0 1) score then some score else none

  abbrev pub score_candidate :
      (boost : ℕ) → (query_exacts : List Text) → Index F → Slot → Option Document → Option F
  score_candidate boost exacts s slot none = none
  score_candidate boost exacts s slot (some d) = score_document boost exacts s d slot

  -- The scores before they are sorted.
  unfoldable pub scores :
      (boost : ℕ) → (uniq_query query_exacts : List Text) → Index F → List (Text × F)
  unfolding collect filter_values score_document
  scores boost uniq exacts s =
      filter_values (λ k. λ slot. score_candidate boost exacts s slot (lookup k s.documents))
        (collect s.inverted_index uniq [])

  -- `<` on the sort keys `(-x[1], x[0])`
  abbrev hit_before : Text × F → Text × F → Bool
  hit_before (k, x) (j, y) =
      if not (lt (neg x) (neg y)) && not (lt (neg y) (neg x)) && not (is_nan x) && not (is_nan y)
      then code_before k j
      else lt (neg x) (neg y)

  abbrev place_hit : Text × F → List (Text × F) → List (Text × F)
  place_hit h [] = h ∷ []
  place_hit h (g ∷ gs) =
      let rest = place_hit h gs in if hit_before g h then g ∷ rest else h ∷ g ∷ gs

  -- The stable sort.
  unfoldable pub sort_hits : List (Text × F) → List (Text × F)
  sort_hits [] = []
  sort_hits (h ∷ hs) = place_hit h (sort_hits hs)

  -- What `search` computes when the cache has no answer.
  unfoldable pub fresh :
      (limit boost : ℕ) → (uniq_query query_exacts : List Text) → Index F → List (Text × F)
  unfolding scores sort_hits
  fresh limit boost uniq exacts s = take limit (sort_hits (scores boost uniq exacts s))

  -- A cached answer becomes the most recent one; a new one is stored, and the oldest are dropped.
  abbrev pub answer :
      CacheKey
      → (found : List (Text × F)) → Option (List (Text × F))
      → Index F
      → List (Text × F) × Index F
  answer key found (some cached) s =
      (cached, record s { search_cache = remove key s.search_cache ++ ((key, cached) ∷ []) })
  answer key found none s = (
    found,
    record s { search_cache = trimmed (remove key s.search_cache ++ ((key, found) ∷ [])) },
  )

  abbrev pub search_tokens :
      (query : Text)
      → (limit boost : ℕ) → (uniq_query : List Text) → Index F
      → List (Text × F) × Index F
  search_tokens query limit boost [] s = ([], s)
  search_tokens query limit boost (t ∷ uniq) s =
      let key : CacheKey = (t ∷ uniq, (limit, boost)) in
      answer key (fresh limit boost (t ∷ uniq) (extract_exact_identifiers builtins query) s)
        (lookup key s.search_cache) s

  abbrev pub has_documents : Index F → Bool
  has_documents s = ltb 0 (length s.documents)

  -- The hits, and the index with its cache.
  unfoldable pub search : (query : Text) → (limit boost : ℕ) → Index F → List (Text × F) × Index F
  unfolding drop_dupes fresh
  search query limit boost s =
      if is_empty query || not (has_documents s)
      then ([], s)
      else search_tokens query limit boost (drop_dupes [] (tokenize_lexical builtins query)) s
