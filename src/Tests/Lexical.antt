-- ===== src/Tests/Lexical.antt =====
-- Examples for the index of openclaw_memory_os/lexical.py.
use openclaw_memory_os.Prelude.{
  ℕ, ◌/◌, ◌≡◌, refl, inl, Bool, true, ◌&&◌, ◌||◌, none, some, List, [], ◌∷◌, ltb, leb, ◌==◌, nat_eq,
  string_eq, list_eq, pair_eq, length, ok,
}
use openclaw_memory_os.Prelude.Text.{Text, codes}
use openclaw_memory_os.Prelude.Table.{lookup, insert}
use openclaw_memory_os.Prelude.Count.{count, counter, IsUnique}
use openclaw_memory_os.Lexical.{
  Document, Index, document_of, index_token, remove_internal, add_one, refresh_average, add_record,
  incremental_refresh, clear,
}
use openclaw_memory_os.Lexical.Tokens.{
  Builtins, MemoryRecord, tokenize_lexical, extract_exact_identifiers, emit, build_lexical_document,
}
use openclaw_memory_os.Lexical.Postings.{view, postings_of, expected}
use openclaw_memory_os.Lexical.Updates.{
  IsCurrent, Call, call_add, call_remove, call_refresh, calls, calls-IsCurrent,
}
use openclaw_memory_os.Lexical.Batch.{add_each, incremental_refresh-add_each}
use openclaw_memory_os.Lexical.Search.{
  drop_dupes, collect, filter_values, score_document, scores, sort_hits, fresh, search,
}
use openclaw_memory_os.Lexical.Scan.{scan, scores-scan}
use openclaw_memory_os.Lexical.Cache.{uniq, IsAnswered}
use openclaw_memory_os.Lexical.Serving.{change, search-requests}
use openclaw_memory_os.Lexical.Repeated.{search-search}
use openclaw_memory_os.Lexical.Disk.{Payload, from_dict, save, load}
use openclaw_memory_os.Lexical.Restored.{AllCached, IsWritten}
use openclaw_memory_os.Lexical.Reload.{from_dict-IsCurrent, load-save}
use openclaw_memory_os.Lexical.Fallback.{text_only, from_dict-text_only}
use openclaw_memory_os.Tests.Data.{fixed, strokes}

abbrev is_digit : ℕ → Bool
is_digit c = leb 48 c && leb c 57

abbrev is_word : ℕ → Bool
is_word c = is_digit c || (leb 65 c && leb c 90) || (leb 97 c && leb c 122) || c == 95

abbrev builtins : Builtins ℕ
builtins = record {
  is_word = is_word;
  is_decimal = is_digit;
  whole = λ w. w / 1_000_000;
  truthy = λ w. ltb 0 w;
  log = λ x. x;
  isoformat = strokes;
}

abbrev memory : Text → Text → List Text → MemoryRecord
memory key text tags = record {
  candidate_key = key;
  text = text;
  summary = none;
  source = none;
  tags = tags;
  keywords = [];
  recall_triggers = [];
  entities = [];
  created_at = some 3;
}

tokens_of_a_path :
    tokenize_lexical builtins (codes "Use MEMORY_OS_TOKEN at /api/recall")
    ≡ codes "use"
      ∷ codes "memory_os_token"
      ∷ codes "at"
      ∷ codes "api"
      ∷ codes "recall"
      ∷ codes "MEMORY_OS_TOKEN"
      ∷ codes "api"
      ∷ codes "recall"
      ∷ []
unfolding tokenize_lexical
tokens_of_a_path = refl

identifiers_of_an_address :
    extract_exact_identifiers builtins (codes "Qdrant on 127.0.0.1:6333")
    ≡ codes "127.0.0.1:6333" ∷ codes "0.0.1" ∷ codes "Qdrant" ∷ []
unfolding extract_exact_identifiers
identifiers_of_an_address = refl

-- The middle one has no token.
abbrev memories : List MemoryRecord
memories =
    memory (codes "a") (codes "the Qdrant host") (codes "Net" ∷ [])
    ∷ memory (codes "b") (codes "host") []
    ∷ []

abbrev first_calls : List (Call fixed builtins)
first_calls =
    call_refresh 1 memories
    ∷ call_add 2 (memory (codes "a") (codes "a host") [])
    ∷ call_remove (codes "b")
    ∷ []

calls-IsCurrent_example :
    IsCurrent fixed builtins (calls fixed builtins first_calls (clear fixed builtins []))
calls-IsCurrent_example = calls-IsCurrent fixed builtins first_calls []

incremental_refresh-add_each_example :
    incremental_refresh fixed builtins 1
      (memory (codes "a") (codes "the host") [] ∷ [])
      (clear fixed builtins [])
    ≡ (
      add_each fixed builtins 1
          (memory (codes "a") (codes "the host") [] ∷ [])
          (clear fixed builtins []),
      1,
    )
incremental_refresh-add_each_example =
    incremental_refresh-add_each fixed builtins 1 (memory (codes "a") (codes "the host") []) []
      (clear fixed builtins [])

abbrev loaded : Index ℕ
loaded = calls fixed builtins (call_refresh 1 memories ∷ []) (clear fixed builtins [])

scores-scan_example :
    ((k : Text)
      → lookup k
          (scores fixed builtins 2 (drop_dupes [] (codes "host" ∷ codes "net" ∷ [])) [] loaded)
        ≡ lookup k
            (scan fixed builtins 2 [] (drop_dupes [] (codes "host" ∷ codes "net" ∷ [])) loaded))
    × IsUnique (scores fixed builtins 2 (drop_dupes [] (codes "host" ∷ codes "net" ∷ [])) [] loaded)
scores-scan_example =
    scores-scan fixed builtins 2 [] loaded
      (calls-IsCurrent fixed builtins (call_refresh 1 memories ∷ []) []).indexed
      (codes "host" ∷ codes "net" ∷ [])

search-requests_example :
    IsAnswered fixed builtins
      (codes "host")
      5
      2
      loaded
      (search fixed builtins (codes "host") 5 2 loaded)
search-requests_example =
    search-requests fixed builtins (change (call_refresh 1 memories) ∷ []) [] (codes "host") 5 2

-- The name in its own case is an exact identifier, in lower case it is not.
search-search_example :
    (search fixed builtins
      (codes "Qdrant")
      5
      2
      (search fixed builtins (codes "qdrant") 5 2 loaded).1).0
    ≡ (search fixed builtins (codes "qdrant") 5 2 loaded).0
unfolding uniq tokenize_lexical drop_dupes lookup insert incremental_refresh add_one refresh_average
    clear index_token remove_internal document_of counter emit build_lexical_document
search-search_example =
    search-search fixed builtins (codes "qdrant") (codes "Qdrant") 5 2 loaded refl refl refl refl

-- A document with these tokens.
abbrev stored : MemoryRecord → List Text → Document
stored r tokens = record {
  record_dict = r;
  lexical_tokens = tokens;
  lexical_tf = counter tokens;
  doc_len = length tokens;
  exact_ids = [];
}

abbrev net : MemoryRecord
net = memory (codes "a") (codes "the host") (codes "Net" ∷ [])

abbrev net_tokens : List Text
net_tokens = codes "the" ∷ codes "host" ∷ codes "net" ∷ []

-- A cache of the first schema.
abbrev old_cache : Payload ℕ
old_cache = record {
  schema_version = 1;
  documents = (codes "a", stored net net_tokens) ∷ [];
  inverted_index = none;
  last_indexed_at = none;
  average_doc_len = 0;
}

old_cache-IsWritten : IsWritten fixed builtins old_cache
unfolding lookup
old_cache-IsWritten = record {
  version = refl;
  unique = (refl, tt);
  cached = ((refl, refl), tt);
  posted = inl refl;
}

from_dict-IsCurrent_example :
    (s : Index ℕ) × ((from_dict fixed builtins [] old_cache ≡ ok s)
      × (IsCurrent fixed builtins s × (s.documents ≡ old_cache.documents)))
from_dict-IsCurrent_example = from_dict-IsCurrent fixed builtins [] old_cache old_cache-IsWritten

abbrev one_memory : Index ℕ
one_memory = calls fixed builtins (call_add 1 net ∷ []) (clear fixed builtins [])

one_memory-AllCached : AllCached one_memory.documents
unfolding tokenize_lexical lookup insert add_record add_one refresh_average clear index_token
    remove_internal document_of counter emit build_lexical_document
one_memory-AllCached = ((refl, refl), tt)

one_memory-version : leb one_memory.schema_version 2 ≡ true
unfolding add_record add_one refresh_average clear index_token remove_internal counter lookup
    tokenize_lexical emit build_lexical_document document_of insert
one_memory-version = refl

load-save_example :
    (r : Index ℕ) × ((load fixed builtins
          (λ p. "digest")
          []
          (save fixed builtins (λ p. "digest") one_memory)
        ≡ some r)
      × ((r.documents ≡ one_memory.documents) × ((t : Text) → view t r ≡ view t one_memory)))
load-save_example =
    load-save fixed builtins (λ p. "digest") [] one_memory one_memory-version
      (calls-IsCurrent fixed builtins (call_add 1 net ∷ []) []).indexed one_memory-AllCached

-- The second memory has no token.
abbrev silent_cache : Payload ℕ
silent_cache = record old_cache {
  documents =
      (codes "a", stored net net_tokens)
      ∷ (codes "b", stored (memory (codes "b") (codes "!") []) [])
      ∷ [];
}

from_dict-text_only_example :
    (s : Index ℕ) × ((from_dict fixed builtins [] silent_cache ≡ ok s)
      × ((t : Text)
          → lookup t s.stats
            ≡ (expected (postings_of t (text_only fixed builtins silent_cache.documents))).0))
unfolding counter insert
from_dict-text_only_example = from_dict-text_only fixed builtins [] silent_cache refl refl

-- The tag of the first memory is no longer counted.
silent_cache_loses_a_tag :
    (expected (postings_of (codes "net") (text_only fixed builtins silent_cache.documents))).0
    ≡ none
unfolding postings_of count tokenize_lexical
silent_cache_loses_a_tag = refl

abbrev named : Index ℕ
named =
    calls fixed builtins (call_add 1 (memory (codes "a") (codes "Qdrant") []) ∷ [])
      (clear fixed builtins [])

-- With its own identifiers the second query would have a higher score.
boosted_name :
    ((search fixed builtins (codes "qdrant") 5 2 named).0 ≡ (codes "a", 1_333_332) ∷ [])
    × ((search fixed builtins (codes "Qdrant") 5 2 named).0 ≡ (codes "a", 3_333_332) ∷ [])
unfolding search fresh scores score_document sort_hits collect filter_values drop_dupes add_record
    add_one refresh_average clear index_token remove_internal counter lookup tokenize_lexical emit
    build_lexical_document document_of insert extract_exact_identifiers
boosted_name = (refl, refl)
