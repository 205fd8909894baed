-- ===== src/Lexical/Serving.antt =====
-- The index of openclaw_memory_os/lexical.py in service: searches between the calls that change it.
use openclaw_memory_os.Prelude.{
  ℕ, ◌≡◌, refl, sym, subst, List, [], ◌∷◌, nat_eq, string_eq, list_eq, pair_eq,
}
use openclaw_memory_os.Prelude.Floats.{Floats}
use openclaw_memory_os.Prelude.Text.{Text}
use openclaw_memory_os.Lexical.{
  Index, CacheKey, clear, clear_cache, add_record, remove_record, incremental_refresh,
  refresh_average,
}
use openclaw_memory_os.Lexical.Tokens.{Builtins}
use openclaw_memory_os.Lexical.Search.{search}
use openclaw_memory_os.Lexical.Updates.{
  IsCurrent, Call, call_add, call_remove, call_refresh, call_clear, call, call-IsCurrent,
  clear-IsCurrent,
}
use openclaw_memory_os.Lexical.Batch.{add_all-search_cache}
use openclaw_memory_os.Lexical.Cache.{AllFresh, IsAnswered, search-IsAnswered}

module _ (floats : Floats) (builtins : Builtins floats.F) where
  open floats use {F}

  -- A call that changes the index, or a search.
  pub data Request : Type 0 where
    change : Call floats builtins → Request
    ask : (query : Text) → (limit boost : ℕ) → Request

  abbrev pub request : Request → Index F → Index F
  request (change c) s = call floats builtins c s
  request (ask query limit boost) s = (search floats builtins query limit boost s).1

  abbrev pub requests : List Request → Index F → Index F
  requests [] s = s
  requests (r ∷ rs) s = requests rs (request r s)

  -- The tables agree with the documents, and the cache with the tables.
  record IsServing (s : Index F) : Type 0 where
    current : IsCurrent floats builtins s
    cached : AllFresh floats builtins s s.search_cache

  recached-IsCurrent :
      (s : Index F) (other : List (CacheKey × List (Text × F)))
      → IsCurrent floats builtins s
      → IsCurrent floats builtins (record s { search_cache = other })
  recached-IsCurrent s other c = record {
    indexed = record { unique = c.indexed.unique; agrees = c.indexed.agrees };
    averaged = c.averaged;
  }

  emptied-AllFresh : (s : Index F) → s.search_cache ≡ [] → AllFresh floats builtins s s.search_cache
  emptied-AllFresh s h = subst (λ cache. AllFresh floats builtins s cache) (sym h) tt

  call-AllFresh :
      (c : Call floats builtins) (s : Index F)
      → AllFresh floats builtins (call floats builtins c s) (call floats builtins c s).search_cache
  unfolding add_record remove_record incremental_refresh refresh_average clear
  call-AllFresh (call_add now r) s =
      emptied-AllFresh _
        (add_all-search_cache floats builtins now (r ∷ []) (clear_cache floats builtins s))
  call-AllFresh (call_remove key) s = tt
  call-AllFresh (call_refresh now rs) s =
      emptied-AllFresh _
        (add_all-search_cache floats builtins now rs (clear_cache floats builtins s))
  call-AllFresh call_clear s = tt

  request-IsServing : (r : Request) (s : Index F) → IsServing s → IsServing (request r s)
  request-IsServing (change c) s v = record {
    current = call-IsCurrent floats builtins c s v.current;
    cached = call-AllFresh c s;
  }
  request-IsServing (ask query limit boost) s v =
      let a = search-IsAnswered floats builtins query limit boost s v.cached in
      record {
        current =
            subst (IsCurrent floats builtins) (sym a.only_cache) (recached-IsCurrent s _ v.current);
        cached = a.kept;
      }

  requests-IsServing : (rs : List Request) (s : Index F) → IsServing s → IsServing (requests rs s)
  requests-IsServing [] s v = v
  requests-IsServing (r ∷ rs) s v = requests-IsServing rs (request r s) (request-IsServing r s v)

  -- Whatever was added, removed or asked before, what `search` answers is what it would compute
  -- from the documents without its cache, for this query or for another one with the same unique
  -- tokens, and it changes nothing of the index but the cache.
  pub search-requests :
      (rs : List Request) (weights : List (Text × F)) (query : Text) (limit boost : ℕ)
      → let s = requests rs (clear floats builtins weights) in
        IsAnswered floats builtins query limit boost s (search floats builtins query limit boost s)
  unfolding clear
  search-requests rs weights query limit boost =
      search-IsAnswered floats builtins query limit boost _
        (requests-IsServing rs _ (record {
          current = clear-IsCurrent floats builtins weights;
          cached = emptied-AllFresh (clear floats builtins weights) refl;
        })).cached
