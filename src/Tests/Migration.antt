-- ===== src/Tests/Migration.antt =====
-- Examples for openclaw_memory_os/migration.py and for the opening of a sessions database.
use openclaw_memory_os.Prelude.{
  ◌<◌, ◌≡◌, refl, true, false, not, none, some, List, [], ◌∷◌, arith, ltb, ◌==◌, nat_eq, string_eq,
  list_eq, pair_eq, oserror, ok, err,
}
use openclaw_memory_os.Prelude.Int.{pos}
use openclaw_memory_os.Prelude.Table.{lookup}
use openclaw_memory_os.Migration.{
  number, Database, Io, read_current_version, run_migrations, apply_one, apply_from, record_step,
}
use openclaw_memory_os.Migration.Feedback.{
  FeedbackEvents, migration_v1_to_v2, migration_v2_to_v3, ordered, add_columns, widen, rebuild,
  create_indexes, keys_differ,
}
use openclaw_memory_os.Migration.Runner.{
  EndsWell, run_migrations-EndsWell, seen, run_migrations-resumes,
}
use openclaw_memory_os.Migration.Copied.{SameRows}
use openclaw_memory_os.Migration.Detached.{migration_v2_to_v3-IsDetached}
use openclaw_memory_os.Sessions.{Row, is_valid, row_valid}
use openclaw_memory_os.Sessions.Opening as Opening
use openclaw_memory_os.Sessions.Opening.{
  RawRow, raw, current, hash_row, open_database, create_v3_schema, schema_transaction,
  migrate_v1_to_v2, migrate_v2_to_v3, detect_schema_version,
}
use openclaw_memory_os.Sessions.Migrated.{EndsOpen, open_database-EndsOpen}
use openclaw_memory_os.Sessions.Carried.{find_raw, hashed_option, open_database-is_valid}
use openclaw_memory_os.Tests.Data.{platform, differ}

abbrev events : FeedbackEvents
events = record {
  columns = "id" ∷ "query_id" ∷ "candidate_key" ∷ "useful" ∷ "note" ∷ [];
  has_recall_fk = true;
  rows = (("id", "1") ∷ ("query_id", "q") ∷ ("candidate_key", "a:1") ∷ ("useful", "1") ∷ []) ∷ [];
}

abbrev old_database : Database
old_database = record {
  schema_version = number 1;
  migration_history = [];
  feedback_events = some events;
}

-- The step to version 3 does not commit.
abbrev interrupted : Io
interrupted = record { commits = λ n. ltb n 3; logs = λ n. true; now = "now" }

abbrev undisturbed : Io
undisturbed = record { commits = λ n. true; logs = λ n. true; now = "now" }

old_version : read_current_version old_database.schema_version < 3
unfolding read_current_version
old_version = omega arith

run_migrations-EndsWell_example :
    EndsWell interrupted old_database (run_migrations interrupted old_database)
run_migrations-EndsWell_example = run_migrations-EndsWell interrupted old_database old_version

abbrev after_interruption : Database
after_interruption = (run_migrations interrupted old_database).1

is_interrupted : run_migrations interrupted old_database ≡ (err oserror, after_interruption)
unfolding run_migrations read_current_version apply_from apply_one record_step migration_v1_to_v2
    migration_v2_to_v3 widen add_columns rebuild create_indexes keys_differ lookup
is_interrupted = refl

run_migrations-resumes_example :
    seen (run_migrations undisturbed after_interruption)
    ≡ seen (run_migrations undisturbed old_database)
run_migrations-resumes_example =
    run_migrations-resumes interrupted undisturbed old_database after_interruption oserror
      old_version (λ n. refl) is_interrupted

abbrev rebuilt_events : FeedbackEvents
rebuilt_events = record {
  columns = ordered;
  has_recall_fk = false;
  rows =
      (("id", "1")
        ∷ ("query_id", "q")
        ∷ ("candidate_key", "a:1")
        ∷ ("useful", "1")
        ∷ ("created_at", "now")
        ∷ ("feedback_source", "dashboard")
        ∷ [])
      ∷ [];
}

is_rebuilt : migration_v2_to_v3 "now" (some events) ≡ ok (some rebuilt_events)
unfolding migration_v2_to_v3 widen add_columns rebuild create_indexes keys_differ lookup
is_rebuilt = refl

migration_v2_to_v3-IsDetached_example :
    (rebuilt_events.has_recall_fk ≡ false)
    × (SameRows events.columns events.rows rebuilt_events.rows
        × (migration_v2_to_v3 "later" (some rebuilt_events) ≡ ok (some rebuilt_events)))
migration_v2_to_v3-IsDetached_example =
    migration_v2_to_v3-IsDetached "now" "later" events rebuilt_events is_rebuilt

abbrev raw_row : RawRow
raw_row = record {
  token = "laptop";
  issued_at = "l";
  max_age = pos 60;
  revoked = 0;
  last_seen_at = none;
}

abbrev raw_database : Opening.Database
raw_database = record { sessions = raw [] (raw_row ∷ []); sessions_v1_backup = none }

abbrev opened_database : Opening.Database
opened_database = record {
  sessions = current [] (hash_row platform raw_row ∷ []);
  sessions_v1_backup = none;
}

-- The third statement raises.
open_database-EndsOpen_example :
    EndsOpen platform true raw_database
      (open_database platform (λ i. not (i == 3)) true raw_database)
open_database-EndsOpen_example =
    open_database-EndsOpen platform (λ i. not (i == 3)) true raw_database

is_opened : open_database platform (λ i. true) true raw_database ≡ (ok tt, opened_database)
unfolding open_database detect_schema_version schema_transaction create_v3_schema migrate_v1_to_v2
is_opened = refl

open_database-is_valid_example :
    (new : List Row) × ((opened_database.sessions ≡ current [] new)
      × (is_valid platform new (some "laptop") 5
          ≡ row_valid platform (hashed_option platform (find_raw "laptop" (raw_row ∷ []))) 5))
open_database-is_valid_example =
    open_database-is_valid platform (λ i. true) true raw_database opened_database (raw_row ∷ [])
      "laptop" 5 [] refl is_opened ((λ same. refl), tt) (differ "laptop" "" refl)
