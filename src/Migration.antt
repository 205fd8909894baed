-- ===== src/Migration.antt =====
-- openclaw_memory_os/migration.py: the runner of the schema migrations, `run_migrations`, and the
-- migrations of the feedback database. A transaction that raises leaves the database as it was;
-- whether a transaction gets through is an argument (`Io`).
pub mod Feedback
pub mod Runner
pub mod Copied
pub mod Detached
use openclaw_memory_os.Prelude.{
  ℕ, zero, suc, ◌+◌, ◌-◌, ◌*◌, ◌/◌, ◌%◌, ◌^◌, ◌≤◌, ◌<◌, min, max, String, ◌≡◌, refl, sym, ap, subst,
  ◌∙◌, ◌≢◌, ◌↔◌, ◌⊎◌, inl, inr, Bool, true, false, ◌&&◌, ◌||◌, not, Option, none, some, List, [],
  ◌∷◌, ◌++◌, map, arith, ltb, leb, ltb→lt, lt→ltb, Eq, ◌==◌, ==_iff, ==_refl, nat_eq, nat_eqb,
  string_eq, list_eq, pair_eq, Bool-cases, Option-cases, is_some, or_else, if◌then◌else◌, length,
  take, drop, length-append, length-take, keep, count_if, any, All, Among, length-keep-le, Exn,
  value_error, type_error, struct_error, overflow_error, runtime_error, oserror, future_schema,
  Result, ok, err, ◌>>=◌, ◌>>◌, guard, or_on_error,
}
use openclaw_memory_os.Migration.Feedback.{FeedbackEvents, migration_v1_to_v2, migration_v2_to_v3}

-- The text of `metadata.schema_version`, read by `int`. A negative number acts like zero.
pub data Version : Type 0 where
  unrecorded : Version
  corrupted : Version
  number : ℕ → Version

-- A row of `migration_history`.
pub record Entry : Type 0 where
  pub from_version : ℕ
  pub to_version : ℕ
  pub success : Bool

pub record Database : Type 0 where
  pub schema_version : Version
  pub migration_history : List Entry
  pub feedback_events : Option FeedbackEvents

-- Whether the transaction of the step to a version commits, and whether the record of its failure
-- does, and what `datetime('now')` is.
pub record Io : Type 0 where
  pub commits : ℕ → Bool
  pub logs : ℕ → Bool
  pub now : String

abbrev pub Migration : Type 0
Migration = (ℕ × ℕ) × (Option FeedbackEvents → Result (Option FeedbackEvents))

abbrev pub schema_version : ℕ
schema_version = 3

abbrev pub migrations : (now : String) → List Migration
migrations now =
    ((0, 1), migration_v1_to_v2)
    ∷ ((1, 2), migration_v1_to_v2)
    ∷ ((2, 3), migration_v2_to_v3 now)
    ∷ []

unfoldable pub read_current_version : Version → ℕ
read_current_version unrecorded = 0
read_current_version corrupted = 0
read_current_version (number n) = n

abbrev entry : (from_version to_version : ℕ) → Bool → Entry
entry from to success = record { from_version = from; to_version = to; success = success }

-- `_write_current_version` and `_record_history`
unfoldable pub record_step : (from_version to_version : ℕ) → Database → Database
record_step from to db = record db {
  schema_version = number to;
  migration_history = db.migration_history ++ (entry from to true ∷ []);
}

abbrev pub record_failure : Io → (from_version to_version : ℕ) → Database → Database
record_failure io from to db =
    if io.logs to
    then record db { migration_history = db.migration_history ++ (entry from to false ∷ []) }
    else db

-- The end of the transaction.
abbrev pub commit :
    Io
    → (from_version to_version : ℕ) → Result (Option FeedbackEvents)
    → Database
    → Result (Unit {0}) × Database
commit io from to (err e) db = (err e, record_failure io from to db)
commit io from to (ok events) db =
    if io.commits to
    then (ok tt, record_step from to (record db { feedback_events = events }))
    else (err oserror, record_failure io from to db)

-- `_apply_one`
unfoldable pub apply_one : Io → Migration → Database → Result (Unit {0}) × Database
unfolding record_step
apply_one io ((from, to), body) db = commit io from to (body db.feedback_events) db

-- What follows a migration that was applied; an exception ends the loop.
abbrev pub after_one :
    (Database → Result ℕ × Database) → Result (Unit {0}) × Database → Result ℕ × Database
after_one rest (err e, db) = (err e, db)
after_one rest (ok u, db) = rest db

-- The loop over the migrations.
unfoldable pub apply_from : Io → List Migration → (applied : ℕ) → Database → Result ℕ × Database
unfolding apply_one
apply_from io [] applied db = (ok applied, db)
apply_from io (m ∷ ms) applied db =
    if ltb m.0.0 applied
    then apply_from io ms applied db
    else after_one (apply_from io ms m.0.1) (apply_one io m db)

-- The bump to the target version if the migrations end before it.
abbrev pub implicit_bump : Io → (applied : ℕ) → Database → Result ℕ × Database
implicit_bump io applied db =
    if ltb applied schema_version
    then if io.commits schema_version
      then (ok schema_version, record_step applied schema_version db)
      else (err oserror, db)
    else (ok applied, db)

abbrev pub after_all : Io → Result ℕ × Database → Result ℕ × Database
after_all io (err e, db) = (err e, db)
after_all io (ok applied, db) = implicit_bump io applied db

unfoldable pub run_migrations : Io → Database → Result ℕ × Database
unfolding read_current_version apply_from record_step
run_migrations io db =
    let current = read_current_version db.schema_version in
    if ltb schema_version current
    then (err future_schema, db)
    else if current == schema_version
    then (ok current, db)
    else after_all io (apply_from io (migrations io.now) current db)
