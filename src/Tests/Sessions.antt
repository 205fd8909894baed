-- ===== src/Tests/Sessions.antt =====
-- Examples for the keys of openclaw_memory_os/contracts.py and the sessions of
-- openclaw_memory_os/sessions.py.
use openclaw_memory_os.Prelude.{
  String, ◌≡◌, refl, ◌≢◌, true, false, not, Option, none, some, List, [], ◌∷◌, nat_eq, string_eq,
  list_eq, pair_eq, Among, ok,
}
use openclaw_memory_os.Prelude.Int.{pos}
use openclaw_memory_os.Prelude.Text.{codes, prefix_chars}
use openclaw_memory_os.Contracts.{MemoryRef}
use openclaw_memory_os.Contracts.Keys.{IsAddressable}
use openclaw_memory_os.Sessions.{
  Row, create, revoke, is_valid, find, insert_or_replace, unexpired, add_seconds,
}
use openclaw_memory_os.Sessions.Lifetime.{is_valid-create, new_row}
use openclaw_memory_os.Sessions.Revocation.{Op, creates, revokes, run, is_valid-revoke}
use openclaw_memory_os.Sessions.Listing.{
  Entry, list, list-is_valid, insert_row, newest_first, expired, entry_of, entries,
}
use openclaw_memory_os.Tests.Data.{platform, reads_back, differ}

abbrev sample_ref : MemoryRef
sample_ref = record { collection = codes "notes"; memory_id = codes "a:b" }

sample_ref-IsAddressable : IsAddressable sample_ref
sample_ref-IsAddressable = record { named = refl; plain = refl; identified = refl }

abbrev laptop : String
laptop = "laptop"

laptop-≢ : laptop ≢ ""
laptop-≢ = differ laptop "" refl

abbrev row : String → Option String → Row
row token user = new_row platform token 60 5 user

-- A session that was issued at 5 for a minute.
is_valid-create_example : is_valid platform (row "laptop" none ∷ []) (some "laptop") 7 ≡ ok true
unfolding create insert_or_replace
is_valid-create_example =
    is_valid-create platform reads_back [] "laptop" 60 none 5 none (row "laptop" none ∷ []) refl
      "laptop" 7 laptop-≢

abbrev two_rows : List Row
two_rows = row "laptop" (some "ann") ∷ row "phone" (some "bob") ∷ []

-- A revocation, then a sign-in on another device.
abbrev later_calls : List Op
later_calls = creates "tablet" (some (pos 60)) none 9 none ∷ revokes (some "phone") ∷ []

tablet-≢ : platform.digest "tablet" ≢ platform.digest laptop
tablet-≢ = differ "tablet" laptop refl

is_valid-revoke_example :
    is_valid platform
      (run platform (revoke platform two_rows (some "laptop")).0 later_calls)
      (some "laptop")
      10
    ≡ ok false
is_valid-revoke_example =
    is_valid-revoke platform "laptop" two_rows later_calls 10 laptop-≢ (tablet-≢, (tt, tt))

abbrev shown : Entry
shown = record {
  fingerprint = "laptop";
  issued_at = "lllll";
  max_age = pos 60;
  revoked = false;
  current = true;
}

list-is_valid_example :
    (e : Entry) × Among e (shown ∷ [])
    × (e.fingerprint ≡ prefix_chars 16 "laptop")
    × (is_valid platform (row "laptop" none ∷ []) (some "laptop") 10 ≡ ok (not e.revoked))
unfolding list entries entry_of expired newest_first insert_row prefix_chars unexpired find
    add_seconds
list-is_valid_example =
    list-is_valid platform (row "laptop" none ∷ []) (some "laptop") 10 (shown ∷ []) "laptop"
      (row "laptop" none) refl laptop-≢ refl
