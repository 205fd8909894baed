-- ===== src/Sessions/Migrated.antt =====
-- Opening a sessions database of openclaw_memory_os/sessions.py, of any schema and with any failures.
use openclaw_memory_os.Prelude.{
  ℕ, suc, String, ◌≡◌, refl, sym, ap, ◌∙◌, ◌⊎◌, inl, inr, Bool, true, false, Option, none, some,
  List, [], ◌∷◌, ◌++◌, map, arith, nat_eq, string_eq, list_eq, pair_eq, Bool-cases, Option-cases,
  if◌then◌else◌, any, Result, ok, err,
}
use openclaw_memory_os.Sessions.{Platform, Row, matches}
use openclaw_memory_os.Sessions.Opening.{
  RawRow, HashedRow, SessionsTable, missing, raw, hashed, current, other, Database, has, recognise,
  detect_schema_version, Statement, run_statements, end_transaction, schema_transaction,
  create_v3_schema, insert_rows, with_rows, drop_backup, add_user, with_user, add_user_column,
  hash_row, v1_to_v2, migrate_v1_to_v2, migrate_v2_to_v3, open_version, secure_files, open_database,
}
use mathlib.Core.List.{append-nil, append_assoc}
use openclaw_memory_os.Sessions.{Platform, Row, matches}

-- A table of no known schema gets the column for the user, if it has the hashes and not the user.
abbrev pub grown : (token_hash user_id : Bool) → List String → SessionsTable
grown true false columns = other (columns ++ ("user_id" ∷ []))
grown _ _ columns = other columns

abbrev pub with_users : (user_id : Bool) → List String → List HashedRow → SessionsTable
with_users true extra rows = hashed extra rows
with_users false extra rows = current extra (map add_user rows)

-- The table after a migration: every row is carried over, in order. Raw rows lose what the table
-- has in further columns.
abbrev pub carried : Platform → SessionsTable → SessionsTable
carried platform missing = current [] []
carried platform (raw extra rows) = current [] (map (hash_row platform) rows)
carried platform (hashed extra rows) = with_users (has "user_id" extra) extra rows
carried platform (current extra rows) = current extra rows
carried platform (other columns) = grown (has "token_hash" columns) (has "user_id" columns) columns

-- Nothing happened, or the rows were carried over; both can end in an exception, but the second
-- only if the files cannot be secured.
abbrev pub EndsOpen : Platform → (secures : Bool) → Database → Result (Unit {0}) × Database → Type 0
EndsOpen platform secures db (err e, after) =
    (after ≡ db) ⊎ ((secures ≡ false) × (after.sessions ≡ carried platform db.sessions))
EndsOpen platform secures db (ok u, after) = after.sessions ≡ carried platform db.sessions

-- What the migration alone does to a table.
abbrev Ends : SessionsTable → Database → Result (Unit {0}) × Database → Type 0
Ends target db (err e, after) = after ≡ db
Ends target db (ok u, after) = after.sessions ≡ target

-- The statements without failures.
abbrev succeed : List Statement → Statement
succeed [] db = some db
succeed (st ∷ sts) db = elim (st db) [ none ↦ none | some next ↦ succeed sts next ]

run-succeed :
    (io : ℕ → Bool) (i : ℕ) (sts : List Statement) (db next : Database)
    → run_statements io i sts db ≡ some next
    → succeed sts db ≡ some next
run-succeed io i [] db next h = ground arith
run-succeed io i (st ∷ sts) db next h = elim (Bool-cases (io i)) [
  | inl e ↦ elim (Option-cases (st db)) [
    | inl f ↦ absurd (ground arith)
    | inr (mid, f) ↦ rw f (run-succeed io (suc i) sts mid next (rw (e, f) at h))
  ]
  | inr e ↦ absurd (ground arith)
]

insert_rows-append :
    (new rows stored : List Row) → insert_rows new rows ≡ some stored → stored ≡ rows ++ new
insert_rows-append [] rows stored h = ground arith ∙ sym (append-nil rows)
insert_rows-append (r ∷ new) rows stored h = elim (Bool-cases (any (matches r.token_hash) rows)) [
  | inl e ↦ absurd (ground arith)
  | inr e ↦
      insert_rows-append new (rows ++ (r ∷ [])) stored (rw e at h) ∙ append_assoc rows (r ∷ []) new
]

some-eq : {A : Type 0} {a b : A} → some a ≡ some b → a ≡ b
some-eq h = ground arith

end-Ends :
    (target : SessionsTable) (db : Database) (o : Option Database)
    → ((next : Database) → o ≡ some next → next.sessions ≡ target)
    → Ends target db (end_transaction db o)
end-Ends target db none h = refl
end-Ends target db (some next) h = h next refl

begin-succeed :
    (io : ℕ → Bool) (sts : List Statement) (db next : Database) (begin : Bool)
    → (if begin then run_statements io 1 sts db else none) ≡ some next
    → succeed sts db ≡ some next
begin-succeed io sts db next true h = run-succeed io 1 sts db next h
begin-succeed io sts db next false h = cc

module _ (platform : Platform) (io : ℕ → Bool) where
  transaction-Ends :
      (target : SessionsTable) (sts : List Statement) (db : Database)
      → ((next : Database) → succeed sts db ≡ some next → next.sessions ≡ target)
      → Ends target db (schema_transaction io sts db)
  unfolding schema_transaction
  transaction-Ends target sts db h =
      end-Ends target db _ (λ next. λ e. h next (begin-succeed io sts db next (io 0) e))

  stored_after : List RawRow → Option (List Row) → Option Database
  stored_after rows none = none
  stored_after rows (some new) =
      some (record { sessions = current [] new; sessions_v1_backup = none })

  stored-carried :
      (rows : List RawRow) (o : Option (List Row)) (next : Database)
      → insert_rows (map (hash_row platform) rows) [] ≡ o
      → stored_after rows o ≡ some next
      → next.sessions ≡ current [] (map (hash_row platform) rows)
  unfolding stored_after
  stored-carried rows none next h e = cc
  stored-carried rows (some new) next h e =
      ap (λ db. db.sessions) (sym (some-eq e))
      ∙ ap (current []) (insert_rows-append (map (hash_row platform) rows) [] new h)

  -- The database once the old table is set aside and the new one is there.
  abbrev renamed : List RawRow → Database
  renamed rows = record { sessions = current [] []; sessions_v1_backup = some rows }

  abbrev dropped : Option Database → Option Database
  dropped none = none
  dropped (some next) = succeed (drop_backup ∷ []) next

  dropped-stored :
      (rows : List RawRow) (o : Option (List Row))
      → dropped (with_rows (renamed rows) o) ≡ stored_after rows o
  unfolding stored_after
  dropped-stored rows none = refl
  dropped-stored rows (some new) = refl

  raw-succeed :
      (extra : List String) (rows : List RawRow) (backup : Option (List RawRow)) (next : Database)
      → succeed
          (v1_to_v2 (map (hash_row platform) rows))
          (record { sessions = raw extra rows; sessions_v1_backup = backup })
        ≡ some next
      → next.sessions ≡ current [] (map (hash_row platform) rows)
  unfolding create_v3_schema
  raw-succeed extra rows none next e =
      stored-carried rows (insert_rows (map (hash_row platform) rows) []) next refl
        (sym (dropped-stored rows (insert_rows (map (hash_row platform) rows) [])) ∙ e)
  raw-succeed extra rows (some old) next e = cc

  -- One table, with what else is in the database.
  abbrev only : SessionsTable → Option (List RawRow) → Database
  only t backup = record { sessions = t; sessions_v1_backup = backup }

  added-sessions :
      (t target : SessionsTable) (backup : Option (List RawRow)) (next : Database)
      → with_user t ≡ some target
      → succeed (add_user_column ∷ []) (only t backup) ≡ some next
      → next.sessions ≡ target
  added-sessions t target backup next h e = ground (arith, e, h)

  -- Adding the column to a table that can have it.
  add_user-Ends :
      (t target : SessionsTable) (backup : Option (List RawRow))
      → with_user t ≡ some target
      → Ends target (only t backup) (migrate_v2_to_v3 platform io (only t backup))
  unfolding migrate_v2_to_v3
  add_user-Ends t target backup h =
      transaction-Ends target (add_user_column ∷ []) (only t backup)
        (λ next. λ e. added-sessions t target backup next h e)

  other-Ends :
      (token_hash user_id token : Bool) (columns : List String) (backup : Option (List RawRow))
      → has "user_id" columns ≡ user_id
      → Ends (grown token_hash user_id columns) (only (other columns) backup) (
          open_version platform io
            (recognise token_hash user_id token)
            (only (other columns) backup))
  unfolding migrate_v1_to_v2
  other-Ends true true true columns backup u = refl
  other-Ends true true false columns backup u = refl
  other-Ends true false true columns backup u = refl
  other-Ends true false false columns backup u = add_user-Ends (other columns) _ backup (rw u refl)
  other-Ends false user_id true columns backup u = refl
  other-Ends false user_id false columns backup u = refl

  hashed-Ends :
      (user_id token : Bool) (extra : List String) (rows : List HashedRow)
      (backup : Option (List RawRow))
      → has "user_id" extra ≡ user_id
      → Ends (with_users user_id extra rows) (only (hashed extra rows) backup) (
          open_version platform io (recognise true user_id token) (only (hashed extra rows) backup))
  hashed-Ends true true extra rows backup u = refl
  hashed-Ends true false extra rows backup u = refl
  hashed-Ends false true extra rows backup u = refl
  hashed-Ends false false extra rows backup u =
      add_user-Ends (hashed extra rows) _ backup (rw u refl)

  raw-Ends :
      (token_hash user_id : Bool) (extra : List String) (rows : List RawRow)
      (backup : Option (List RawRow))
      → Ends (current [] (map (hash_row platform) rows)) (only (raw extra rows) backup) (
          open_version platform io
            (recognise token_hash user_id true)
            (only (raw extra rows) backup))
  unfolding migrate_v1_to_v2
  raw-Ends true true extra rows backup = refl
  raw-Ends true false extra rows backup = refl
  raw-Ends false user_id extra rows backup =
      transaction-Ends _ (v1_to_v2 (map (hash_row platform) rows)) (only (raw extra rows) backup)
        (raw-succeed extra rows backup)

  current-Ends :
      (token : Bool) (db : Database)
      → Ends db.sessions db (open_version platform io (recognise true true token) db)
  current-Ends true db = refl
  current-Ends false db = refl

  opened-Ends :
      (t : SessionsTable) (backup : Option (List RawRow))
      → Ends
          (carried platform t)
          (only t backup)
          (open_version platform io (detect_schema_version (only t backup)) (only t backup))
  unfolding detect_schema_version create_v3_schema
  opened-Ends missing backup =
      transaction-Ends (current [] []) (create_v3_schema ∷ []) (only missing backup)
        (λ next. λ e. ap (λ db. db.sessions) (sym (some-eq e)))
  opened-Ends (raw extra rows) backup =
      raw-Ends (has "token_hash" extra) (has "user_id" extra) extra rows backup
  opened-Ends (hashed extra rows) backup =
      hashed-Ends (has "user_id" extra) (has "token" extra) extra rows backup refl
  opened-Ends (current extra rows) backup =
      current-Ends (has "token" extra) (only (current extra rows) backup)
  opened-Ends (other []) backup =
      transaction-Ends (other []) (create_v3_schema ∷ []) (only (other []) backup)
        (λ next. λ e. ap (λ db. db.sessions) (sym (some-eq e)))
  opened-Ends (other (c ∷ columns)) backup =
      other-Ends (has "token_hash" (c ∷ columns)) (has "user_id" (c ∷ columns))
        (has "token" (c ∷ columns)) (c ∷ columns) backup refl

  secured-EndsOpen :
      (secures : Bool) (db : Database) (r : Result (Unit {0}) × Database)
      → Ends (carried platform db.sessions) db r
      → EndsOpen platform secures db (secure_files platform secures r)
  secured-EndsOpen secures db (err e, after) h = inl h
  secured-EndsOpen true db (ok u, after) h = h
  secured-EndsOpen false db (ok u, after) h = inr (refl, h)

  -- Opening a database either raises and leaves it as it was, or carries every row of its table over
  -- to the current schema, in order: a raw token under its digest, a row without a user with none.
  -- Only if the files cannot be secured does it raise and leave the rows carried over.
  pub open_database-EndsOpen :
      (secures : Bool) (db : Database)
      → EndsOpen platform secures db (open_database platform io secures db)
  unfolding open_database
  open_database-EndsOpen secures db =
      secured-EndsOpen secures db _ (opened-Ends db.sessions db.sessions_v1_backup)
