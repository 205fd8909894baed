-- ===== src/Sessions/Opening.antt =====
-- How `SessionStore.__init__` of openclaw_memory_os/sessions.py opens a database of any schema. The
-- statements of a transaction are functions that may raise; a transaction that raises is rolled
-- back. The indexes and the pragmas are left out.
use openclaw_memory_os.Prelude.{
  ℕ, zero, suc, String, Bool, true, false, ◌&&◌, not, Option, none, some, List, [], ◌∷◌, ◌++◌, map,
  ◌==◌, nat_eq, string_eq, list_eq, pair_eq, if◌then◌else◌, any, oserror, Result, ok, err,
}
use openclaw_memory_os.Prelude.Int.{ℤ}
use openclaw_memory_os.Sessions.{Platform, Row, matches}

-- A row of the first schema, under its raw token.
pub record RawRow : Type 0 where
  pub token : String
  pub issued_at : String
  pub max_age : ℤ
  pub revoked : ℕ
  pub last_seen_at : Option String

-- A row of the second schema, without a user.
pub record HashedRow : Type 0 where
  pub token_hash : String
  pub issued_at : String
  pub max_age : ℤ
  pub revoked : ℕ
  pub last_seen_at : Option String

-- The table `sessions`. It may have more columns than its schema, whose names are `extra`; a table
-- that lacks a column of each schema is known by its columns only.
pub data SessionsTable : Type 0 where
  missing : SessionsTable
  raw : (extra : List String) → List RawRow → SessionsTable
  hashed : (extra : List String) → List HashedRow → SessionsTable
  current : (extra : List String) → List Row → SessionsTable
  other : (columns : List String) → SessionsTable

-- The database, with the table that a migration of the first schema sets aside.
pub record Database : Type 0 where
  pub sessions : SessionsTable
  pub sessions_v1_backup : Option (List RawRow)

abbrev pub columns_of : SessionsTable → List String
columns_of missing = []
columns_of (raw extra rows) = "token" ∷ "issued_at" ∷ "max_age" ∷ "revoked" ∷ "last_seen_at" ∷ extra
columns_of (hashed extra rows) =
    "token_hash" ∷ "issued_at" ∷ "max_age" ∷ "revoked" ∷ "last_seen_at" ∷ extra
columns_of (current extra rows) =
    "token_hash" ∷ "issued_at" ∷ "max_age" ∷ "revoked" ∷ "last_seen_at" ∷ "user_id" ∷ extra
columns_of (other columns) = columns

abbrev pub has : String → List String → Bool
has c columns = any (λ d. d == c) columns

-- The tests on the columns `token_hash`, `user_id` and `token`.
abbrev pub recognise : (token_hash user_id token : Bool) → Result ℕ
recognise token_hash user_id token =
    if token_hash && user_id && not token
    then ok 3
    else if token_hash && not token
    then ok 2
    else if token && not token_hash
    then ok 1
    else err oserror

abbrev pub version_of : List String → Result ℕ
version_of [] = ok 0
version_of (c ∷ columns) =
    recognise (has "token_hash" (c ∷ columns)) (has "user_id" (c ∷ columns))
      (has "token" (c ∷ columns))

unfoldable pub detect_schema_version : Database → Result ℕ
detect_schema_version db = version_of (columns_of db.sessions)

abbrev pub Statement : Type 0
Statement = Database → Option Database

-- The statements from the one with this number, and COMMIT; `io` says which ones do not raise.
abbrev pub run_statements : (io : ℕ → Bool) → ℕ → List Statement → Statement
run_statements io i [] db = if io i then some db else none
run_statements io i (st ∷ sts) db =
    if io i
    then elim (st db) [ none ↦ none | some next ↦ run_statements io (suc i) sts next ]
    else none

abbrev pub end_transaction : Database → Option Database → Result (Unit {0}) × Database
end_transaction db none = (err oserror, db)
end_transaction db (some next) = (ok tt, next)

-- `_schema_transaction`, from BEGIN IMMEDIATE on.
unfoldable pub schema_transaction :
    (io : ℕ → Bool) → List Statement → Database → Result (Unit {0}) × Database
schema_transaction io sts db =
    end_transaction db (if io 0 then run_statements io 1 sts db else none)

-- `_create_v3_schema`; a table that exists is left alone.
unfoldable pub create_v3_schema : Statement
create_v3_schema db = elim db.sessions [
  | missing ↦ some (record db { sessions = current [] [] })
  | _ ↦ some db
]

abbrev pub set_aside : SessionsTable → Option (List RawRow) → Option Database
set_aside (raw extra rows) none =
    some (record { sessions = missing; sessions_v1_backup = some rows })
set_aside _ _ = none

-- ALTER TABLE sessions RENAME TO sessions_v1_backup
abbrev pub rename_table : Statement
rename_table db = set_aside db.sessions db.sessions_v1_backup

-- INSERT with the hash as the primary key.
abbrev pub insert_rows : List Row → List Row → Option (List Row)
insert_rows [] rows = some rows
insert_rows (r ∷ new) rows =
    if any (matches r.token_hash) rows then none else insert_rows new (rows ++ (r ∷ []))

abbrev pub with_rows : Database → Option (List Row) → Option Database
with_rows db none = none
with_rows db (some rows) = some (record db { sessions = current [] rows })

abbrev pub insert_transformed : List Row → Statement
insert_transformed new db = elim db.sessions [
  | current extra rows ↦ with_rows db (insert_rows new rows)
  | _ ↦ none
]

abbrev pub drop_backup : Statement
drop_backup db = elim db.sessions_v1_backup [
  | none ↦ none
  | some rows ↦ some (record db { sessions_v1_backup = none })
]

abbrev pub add_user : HashedRow → Row
add_user r = record {
  token_hash = r.token_hash;
  issued_at = r.issued_at;
  max_age = r.max_age;
  revoked = r.revoked;
  last_seen_at = r.last_seen_at;
  user_id = none;
}

-- ALTER TABLE sessions ADD COLUMN user_id, which raises if there is no table or the column is there.
abbrev pub with_user : SessionsTable → Option SessionsTable
with_user missing = none
with_user (raw extra rows) =
    if has "user_id" extra then none else some (raw (extra ++ ("user_id" ∷ [])) rows)
with_user (hashed extra rows) =
    if has "user_id" extra then none else some (current extra (map add_user rows))
with_user (current extra rows) = none
with_user (other columns) =
    if has "user_id" columns then none else some (other (columns ++ ("user_id" ∷ [])))

abbrev pub with_table : Database → Option SessionsTable → Option Database
with_table db none = none
with_table db (some t) = some (record db { sessions = t })

abbrev pub add_user_column : Statement
add_user_column db = with_table db (with_user db.sessions)

abbrev pub v1_to_v2 : (transformed : List Row) → List Statement
v1_to_v2 transformed =
    rename_table ∷ create_v3_schema ∷ insert_transformed transformed ∷ drop_backup ∷ []

module _ (platform : Platform) where
  open platform use {digest}

  -- A transformed row of the first schema.
  abbrev pub hash_row : RawRow → Row
  hash_row r = record {
    token_hash = digest r.token;
    issued_at = r.issued_at;
    max_age = r.max_age;
    revoked = r.revoked;
    last_seen_at = r.last_seen_at;
    user_id = none;
  }

  -- The SELECT of the five columns of the first schema, which raises if one is missing.
  abbrev pub select_raw : SessionsTable → Result (List RawRow)
  select_raw (raw extra rows) = ok rows
  select_raw _ = err oserror

  abbrev pub migrate_rows :
      (io : ℕ → Bool) → Result (List RawRow) → Database → Result (Unit {0}) × Database
  migrate_rows io (err e) db = (err e, db)
  migrate_rows io (ok rows) db = schema_transaction io (v1_to_v2 (map hash_row rows)) db

  -- `_migrate_v1_to_v2`
  unfoldable pub migrate_v1_to_v2 : (io : ℕ → Bool) → Database → Result (Unit {0}) × Database
  unfolding schema_transaction create_v3_schema
  migrate_v1_to_v2 io db = migrate_rows io (select_raw db.sessions) db

  -- `_migrate_v2_to_v3`
  unfoldable pub migrate_v2_to_v3 : (io : ℕ → Bool) → Database → Result (Unit {0}) × Database
  unfolding schema_transaction
  migrate_v2_to_v3 io db = schema_transaction io (add_user_column ∷ []) db

  abbrev pub open_version : (io : ℕ → Bool) → Result ℕ → Database → Result (Unit {0}) × Database
  open_version io (err e) db = (err e, db)
  open_version io (ok zero) db = schema_transaction io (create_v3_schema ∷ []) db
  open_version io (ok (suc zero)) db = migrate_v1_to_v2 io db
  open_version io (ok (suc (suc zero))) db = migrate_v2_to_v3 io db
  open_version io (ok (suc (suc (suc zero)))) db = (ok tt, db)
  open_version io (ok (suc (suc (suc (suc v))))) db = (err oserror, db)

  -- `_secure_sqlite_files` after the migration; a file whose mode cannot be set raises.
  abbrev pub secure_files :
      (secures : Bool) → Result (Unit {0}) × Database → Result (Unit {0}) × Database
  secure_files secures (err e, db) = (err e, db)
  secure_files true (ok u, db) = (ok u, db)
  secure_files false (ok u, db) = (err oserror, db)

  -- The part of the constructor that detects the schema, migrates it and secures the files.
  unfoldable pub open_database :
      (io : ℕ → Bool) (secures : Bool) → Database → Result (Unit {0}) × Database
  unfolding detect_schema_version schema_transaction create_v3_schema migrate_v1_to_v2
      migrate_v2_to_v3
  open_database io secures db = secure_files secures (open_version io (detect_schema_version db) db)
