-- ===== src/Tests/Policy.antt =====
-- Examples for the policies of openclaw_memory_os/policy_store.py.
use openclaw_memory_os.Prelude.{
  ℕ, suc, ◌≡◌, refl, true, false, none, some, [], ◌∷◌, arith, nat_eq, string_eq, list_eq, pair_eq,
  runtime_error, ok, err,
}
use openclaw_memory_os.Prelude.Int.{pos, negsuc}
use openclaw_memory_os.Policy.{Policy, Given, active, retired}
use openclaw_memory_os.Policy.Clamp.{IsOrder}
use openclaw_memory_os.Policy.Files.{
  Store, Disk, Io, read_file, retired_event, payload, garbage, with_status, compute_checksum,
  save_previous, save,
}
use openclaw_memory_os.Policy.Store.{promote, revert}
use openclaw_memory_os.Policy.Store.Open.{open_store}
use openclaw_memory_os.Policy.Store.Failure.{IsLeft}
use openclaw_memory_os.Policy.Store.Promotion.{promote_fails, revert-promote, promote-open_store}
use openclaw_memory_os.Policy.Store.Serving.{serves, CanOpen}
use openclaw_memory_os.Policy.Store.Recovery.{open_store-serves}
use openclaw_memory_os.Tests.Data.{
  decimal, policy_digest, first_policy, second_policy, first_store, working,
}

decimal-IsOrder : IsOrder decimal
decimal-IsOrder = record { irreflexive = λ x. ground arith; literals = λ n j m k. refl }

-- Some numbers far out of bounds, the others missing.
abbrev given : Given (ℕ × ℕ)
given = record {
  version = some (negsuc 4);
  parent_version = none;
  dense_k = some (pos 9000);
  lexical_k = none;
  rrf_k = none;
  fallback_min_results = none;
  rrf_dense_weight = some (900, 0);
  rrf_lexical_weight = none;
  final_rrf_weight = none;
  final_vector_weight = none;
  final_lexical_weight = none;
  importance_weight = none;
  recency_weight = none;
  feedback_weight = none;
  exact_match_boost = none;
  recency_half_life_hours = none;
}

abbrev promoted_policy : Policy ℕ
promoted_policy = with_status active second_policy

abbrev old_policy : Policy ℕ
old_policy = with_status retired first_policy

abbrev promoted_disk : Disk ℕ
promoted_disk = record {
  named_active = true;
  legacy_file = none;
  legacy_mtime = 0;
  active_file = some (payload policy_digest promoted_policy);
  active_mtime = 1;
  previous_file = some (payload policy_digest old_policy);
  candidate_file = none;
  history = (retired_event, old_policy) ∷ [];
}

-- A file system that has no file modes, once the file of the active policy is replaced.
abbrev insecure : Io
insecure = record working { secures_active = false }

-- The store after a promotion that replaced the file and then raised.
abbrev unnoticed : Store ℕ
unnoticed = record first_store {
  disk = record first_store.disk {
    active_file = some (payload policy_digest promoted_policy);
    active_mtime = suc first_store.disk.active_mtime;
    previous_file = some (payload policy_digest old_policy);
  };
}

promote-insecure : promote policy_digest insecure none first_store ≡ (err runtime_error, unnoticed)
unfolding promote save_previous save compute_checksum
promote-insecure = refl

promote_fails_example :
    (first_store.policy ≡ first_store.policy)
    × (first_store.previous ≡ first_store.previous)
    × (first_store.candidate ≡ first_store.candidate)
    × (first_store.metadata ≡ first_store.metadata)
    × IsLeft policy_digest insecure first_store
        (some second_policy)
        (some (payload policy_digest promoted_policy))
promote_fails_example =
    promote_fails policy_digest insecure none first_store unnoticed {e = runtime_error}
      promote-insecure

abbrev promoted_store : Store ℕ
promoted_store = record first_store {
  disk = promoted_disk;
  last_mtime = some 1;
  policy = promoted_policy;
  previous = some old_policy;
  candidate = none;
}

promote-first : promote policy_digest working none first_store ≡ (ok "ll", promoted_store)
unfolding promote save_previous save compute_checksum
promote-first = refl

abbrev reverted_store : Store ℕ
reverted_store = (revert policy_digest first_policy working promoted_store).1

revert-second : revert policy_digest first_policy working promoted_store ≡ (ok "l", reverted_store)
unfolding revert save compute_checksum
revert-second = refl

revert-promote_example :
    (reverted_store.policy ≡ first_policy)
    × (reverted_store.candidate ≡ none)
    × (reverted_store.previous ≡ none)
revert-promote_example =
    revert-promote policy_digest working working first_policy none first_store promoted_store
      reverted_store "ll" "l" promote-first revert-second

promote-open_store_example :
    ((open_store policy_digest working true first_policy promoted_disk).0 ≡ ok tt)
    × ((open_store policy_digest working true first_policy promoted_disk).1.policy
        ≡ promoted_policy)
    × ((open_store policy_digest working true first_policy promoted_disk).1.previous
        ≡ some old_policy)
    × ((open_store policy_digest working true first_policy promoted_disk).1.candidate ≡ none)
promote-open_store_example =
    promote-open_store policy_digest working working none first_policy first_store promoted_store
      "ll" refl refl refl refl promote-first refl refl

-- The file of the active policy was cut short; the previous one can be read.
abbrev broken_disk : Disk ℕ
broken_disk = record promoted_disk { active_file = some garbage }

open_store-serves_example :
    (CanOpen working → (open_store policy_digest working true second_policy broken_disk).0 ≡ ok tt)
    × ((open_store policy_digest working true second_policy broken_disk).0 ≡ ok tt
        → (open_store policy_digest working true second_policy broken_disk).1.policy
          ≡ serves policy_digest second_policy broken_disk)
open_store-serves_example = open_store-serves policy_digest working second_policy broken_disk

-- The file operations all succeed, and the previous policy is served.
working-CanOpen : CanOpen working
working-CanOpen = (refl, refl, refl, refl, refl, refl, refl, refl)

broken_serves : serves policy_digest second_policy broken_disk ≡ first_policy
unfolding read_file compute_checksum payload
broken_serves = refl

abbrev shadowed_disk : Disk ℕ
shadowed_disk = record {
  named_active = true;
  legacy_file = none;
  legacy_mtime = 0;
  active_file = some (payload policy_digest first_policy);
  active_mtime = 1;
  previous_file = none;
  candidate_file = some (payload policy_digest second_policy);
  history = [];
}

abbrev opened : Store ℕ
opened = (open_store policy_digest working true first_policy shadowed_disk).1
