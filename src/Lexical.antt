-- ===== src/Lexical.antt =====
-- openclaw_memory_os/lexical.py: the BM25 index over the memories, its updates and its search.
pub mod Regex
pub mod Tokens
pub mod Postings
pub mod Invariant
pub mod Updates
pub mod Batch
pub mod Search
pub mod Candidates
pub mod Values
pub mod Slots
pub mod Scan
pub mod Cache
pub mod Serving
pub mod Repeated
pub mod Disk
pub mod Recounted
pub mod Restored
pub mod Reload
pub mod Fallback
pub mod Matching
use openclaw_memory_os.Prelude.{
  ℕ, zero, suc, ◌+◌, ◌-◌, ◌*◌, ◌/◌, ◌%◌, ◌^◌, ◌≤◌, ◌<◌, min, max, String, ◌≡◌, refl, sym, ap, subst,
  ◌∙◌, ◌≢◌, ◌↔◌, ◌⊎◌, inl, inr, Bool, true, false, ◌&&◌, ◌||◌, not, Option, none, some, List, [],
  ◌∷◌, ◌++◌, map, arith, ltb, leb, ltb→lt, lt→ltb, Eq, ◌==◌, ==_iff, ==_refl, nat_eq, nat_eqb,
  string_eq, list_eq, pair_eq, Bool-cases, Option-cases, is_some, or_else, if◌then◌else◌, length,
  take, drop, length-append, length-take, keep, count_if, any, All, Among, length-keep-le, Exn,
  value_error, type_error, struct_error, overflow_error, runtime_error, oserror, future_schema,
  Result, ok, err, ◌>>=◌, ◌>>◌, guard, or_on_error,
}
use Prim.Native.Nat.{Ordering}
use Prim.Native.String.{compare}
use openclaw_memory_os.Prelude.Int.{ℤ, pos, plus_ℕ, minus_ℕ}
use openclaw_memory_os.Prelude.Floats.{Floats}
use openclaw_memory_os.Prelude.Text.{Text}
use openclaw_memory_os.Prelude.Table.{lookup, insert, remove}
use openclaw_memory_os.Prelude.Count.{counter, for_each}
use openclaw_memory_os.Lexical.Tokens.{
  Builtins, MemoryRecord, tokenize_lexical, extract_exact_identifiers, build_lexical_document,
}

-- `_BM25Stats`
pub record Stats : Type 0 where
  pub df : ℕ
  pub total_tf : ℤ

-- A value of `documents`: the record with its `__lexical_tokens__` and `__lexical_tf__`, the token
-- count and the exact identifiers.
pub record Document : Type 0 where
  pub record_dict : MemoryRecord
  pub lexical_tokens : List Text
  pub lexical_tf : List (Text × ℕ)
  pub doc_len : ℕ
  pub exact_ids : List Text

abbrev pub Postings : Type 0
Postings = List (Text × ℕ)

-- The unique tokens of a query, the limit and the boost.
abbrev pub CacheKey : Type 0
CacheKey = List Text × (ℕ × ℕ)

-- `BM25Index` with its `_IndexState`. The cache has its least recent entry first.
pub record Index (F : Type 0) : Type 0 where
  pub schema_version : ℕ
  pub stats : List (Text × Stats)
  pub documents : List (Text × Document)
  pub inverted_index : List (Text × Postings)
  pub last_indexed_at : Option String
  pub average_doc_len : F
  pub field_weights : List (Text × F)
  pub search_cache : List (CacheKey × List (Text × F))

abbrev pub search_cache_max : ℕ
search_cache_max = 256

abbrev pub no_stats : Stats
no_stats = record { df = 0; total_tf = pos 0 }

abbrev pub count_in : ℕ → Stats → Stats
count_in tf st = record { df = suc st.df; total_tf = plus_ℕ st.total_tf tf }

-- A table without the key if there is nothing to keep under it.
abbrev pub put_or_pop : {V : Type 0} → Text → Option V → List (Text × V) → List (Text × V)
put_or_pop k none table = remove k table
put_or_pop k (some v) table = insert k v table

-- `stats.df -= 1; stats.total_tf -= tf`, and the entry goes when its count has come down to zero.
abbrev pub count_out : ℕ → Stats → Option Stats
count_out tf st =
    if leb st.df 1
    then none
    else some (record { df = st.df - 1; total_tf = minus_ℕ st.total_tf tf })

abbrev pub nonempty : Postings → Option Postings
nonempty [] = none
nonempty (p ∷ ps) = some (p ∷ ps)

abbrev pub without : Text → Postings → Postings
without key ps = keep (λ p. not (p.0 == key)) ps

abbrev pub drop_postings : Text → Option Postings → Option Postings
drop_postings key none = none
drop_postings key (some ps) = nonempty (without key ps)

module _ {F : Type 0} where
  -- The body of the loop of `_add_one`.
  unfoldable pub index_token : (key token : Text) → (tf : ℕ) → Index F → Index F
  index_token key token tf s = record s {
    stats = insert token (count_in tf (or_else (lookup token s.stats) no_stats)) s.stats;
    inverted_index =
        insert token (or_else (lookup token s.inverted_index) [] ++ ((key, tf) ∷ []))
          s.inverted_index;
  }

  abbrev pub forget : (key token : Text) → (tf : ℕ) → Option Stats → Index F → Index F
  forget key token tf none s = s
  forget key token tf (some st) s = record s {
    stats = put_or_pop token (count_out tf st) s.stats;
    inverted_index =
        put_or_pop token (drop_postings key (lookup token s.inverted_index)) s.inverted_index;
  }

  -- The body of the loop of `_remove_internal`.
  unfoldable pub forget_token : (key token : Text) → (tf : ℕ) → Index F → Index F
  forget_token key token tf s = forget key token tf (lookup token s.stats) s

  abbrev pub remove_document : Text → Option Document → Index F → Index F
  remove_document key none s = s
  remove_document key (some d) s =
      for_each (forget_token key) (counter d.lexical_tokens)
        (record s { documents = remove key s.documents })

  unfoldable pub remove_internal : Text → Index F → Index F
  remove_internal key s = remove_document key (lookup key s.documents) s

abbrev pub later : String → Option String → Option String
later ts none = some ts
later ts (some seen) = elim (compare ts seen) [ Ordering.gt ↦ some ts | _ ↦ some seen ]

abbrev pub total_len : List (Text × Document) → ℕ
total_len [] = 0
total_len ((k, d) ∷ docs) = d.doc_len + total_len docs

module _ (floats : Floats) (builtins : Builtins floats.F) where
  open floats use {F, lit, add, sub, mul, div, neg, lt, is_nan}
  open builtins use {log, isoformat}

  unfoldable pub document_of : List (Text × F) → MemoryRecord → Document
  unfolding build_lexical_document
  document_of weights r =
      let built = build_lexical_document builtins weights r in
      record {
        record_dict = r;
        lexical_tokens = built.0;
        lexical_tf = counter built.0;
        doc_len = length built.0;
        exact_ids = built.1;
      }

  -- The part of `_add_one` after the removal of an old document.
  abbrev pub insert_document : (key : Text) → Document → (ts : String) → Index F → Index F
  insert_document key d ts s =
      let s = for_each (index_token key) (counter d.lexical_tokens) s in
      record s {
        documents = insert key d s.documents;
        last_indexed_at = later ts s.last_indexed_at;
      }

  unfoldable pub add_one : (now : ℕ) → MemoryRecord → Index F → Index F
  unfolding document_of remove_internal
  add_one now r s =
      insert_document r.candidate_key (document_of s.field_weights r)
        (isoformat (or_else r.created_at now))
        (if is_some (lookup r.candidate_key s.documents)
          then remove_internal r.candidate_key s
          else s)

  abbrev pub average_of : List (Text × Document) → F
  average_of [] = lit 0 1
  average_of (d ∷ docs) = div (lit (total_len (d ∷ docs)) 0) (lit (max 1 (length (d ∷ docs))) 0)

  unfoldable pub refresh_average : Index F → Index F
  refresh_average s = record s { average_doc_len = average_of s.documents }

  abbrev pub clear_cache : Index F → Index F
  clear_cache s = record s { search_cache = [] }

  -- `add`
  unfoldable pub add_record : (now : ℕ) → MemoryRecord → Index F → Index F
  unfolding add_one refresh_average
  add_record now r s = refresh_average (add_one now r (clear_cache s))

  -- `remove`
  unfoldable pub remove_record : Text → Index F → Index F
  unfolding remove_internal refresh_average
  remove_record key s = refresh_average (clear_cache (remove_internal key s))

  abbrev pub add_all : (now : ℕ) → List MemoryRecord → Index F → Index F
  add_all now [] s = s
  add_all now (r ∷ rs) s = add_all now rs (add_one now r s)

  -- The index, and how many records were added.
  unfoldable pub incremental_refresh : (now : ℕ) → List MemoryRecord → Index F → Index F × ℕ
  unfolding add_one refresh_average
  incremental_refresh now rs s = (refresh_average (add_all now rs (clear_cache s)), length rs)

  -- `clear`, and the index that the constructor makes.
  unfoldable pub clear : List (Text × F) → Index F
  clear weights = record {
    schema_version = 2;
    stats = [];
    documents = [];
    inverted_index = [];
    last_indexed_at = none;
    average_doc_len = lit 0 1;
    field_weights = weights;
    search_cache = [];
  }
