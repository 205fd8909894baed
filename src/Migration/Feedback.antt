-- ===== src/Migration/Feedback.antt =====
-- The migrations of openclaw_memory_os/migration.py: what they do to the table `feedback_events`. A row
-- is the list of its columns that are not NULL, with their values; it has its `id`.
use openclaw_memory_os.Prelude.{
  String, Bool, true, false, ◌&&◌, ◌||◌, not, Option, none, some, List, [], ◌∷◌, ◌++◌, map, ◌==◌,
  nat_eq, string_eq, list_eq, pair_eq, is_some, if◌then◌else◌, keep, any, oserror, Result, ok, err,
  ◌>>=◌,
}
use openclaw_memory_os.Prelude.Table.{lookup}

pub record FeedbackEvents : Type 0 where
  pub columns : List String
  -- The foreign key from `query_id` to `recall_runs`.
  pub has_recall_fk : Bool
  pub rows : List (List (String × String))

-- `_migration_v1_to_v2` does nothing.
unfoldable pub migration_v1_to_v2 : Option FeedbackEvents → Result (Option FeedbackEvents)
migration_v1_to_v2 events = ok events

abbrev pub has_column : List String → String → Bool
has_column columns c = any (λ d. d == c) columns

-- ALTER TABLE ... ADD COLUMN, unless the column is there.
unfoldable pub add_columns : (added columns : List String) → List String
add_columns [] columns = columns
add_columns (c ∷ cs) columns =
    add_columns cs (if has_column columns c then columns else columns ++ (c ∷ []))

abbrev pub new_columns : List String
new_columns = "collection" ∷ "migration_status" ∷ "resolution_status" ∷ "legacy_source_key" ∷ []

-- The columns of `feedback_events_v3`.
abbrev pub ordered : List String
ordered =
    "id" ∷ "query_id" ∷ "candidate_key" ∷ "memory_id" ∷ "collection" ∷ "useful" ∷ "created_at"
    ∷ "feedback_source" ∷ "migration_status" ∷ "resolution_status" ∷ "legacy_source_key" ∷ []

-- Whether a NOT NULL column gets its value; `created_at` has a default if it is not copied.
abbrev pub is_complete : (existing : List String) → List (String × String) → Bool
is_complete existing row =
    is_some (lookup "query_id" row)
    && is_some (lookup "candidate_key" row)
    && is_some (lookup "useful" row)
    && (is_some (lookup "created_at" row) || not (has_column existing "created_at"))

-- A column that is not copied has its default.
abbrev pub default_for : (existing : List String) → (column value : String) → List (String × String)
default_for existing column value = if has_column existing column then [] else (column, value) ∷ []

-- A row of `feedback_events_v3`; `now` is `datetime('now')`.
abbrev pub copied :
    (now : String) → (existing : List String) → List (String × String) → List (String × String)
copied now existing row =
    keep (λ cell. has_column ordered cell.0) row
    ++ default_for existing "created_at" now
    ++ default_for existing "feedback_source" "dashboard"

abbrev pub every : {A : Type 0} → (A → Bool) → List A → Bool
every p xs = not (any (λ x. not (p x)) xs)

-- The rebuild without the foreign key.
unfoldable pub rebuild : (now : String) → FeedbackEvents → Result FeedbackEvents
rebuild now t =
    if every (is_complete t.columns) t.rows
    then ok (record {
      columns = ordered;
      has_recall_fk = false;
      rows = map (copied now t.columns) t.rows;
    })
    else err oserror

abbrev holds : String → Option String → Bool
holds k none = false
holds k (some j) = j == k

abbrev key_taken : Option String → List (List (String × String)) → Bool
key_taken none rows = false
key_taken (some k) rows = any (λ r. holds k (lookup "legacy_source_key" r)) rows

-- CREATE UNIQUE INDEX ... WHERE legacy_source_key IS NOT NULL
unfoldable pub keys_differ : List (List (String × String)) → Bool
keys_differ [] = true
keys_differ (r ∷ rows) = not (key_taken (lookup "legacy_source_key" r) rows) && keys_differ rows

unfoldable pub create_indexes : FeedbackEvents → Result FeedbackEvents
unfolding keys_differ
create_indexes t = if keys_differ t.rows then ok t else err oserror

-- The missing columns are added.
unfoldable pub widen : FeedbackEvents → FeedbackEvents
widen t = record t { columns = add_columns new_columns t.columns }

abbrev pub detach : (now : String) → (has_recall_fk : Bool) → FeedbackEvents → Result FeedbackEvents
detach now true t = rebuild now t
detach now false t = ok t

-- `_migration_v2_to_v3`
unfoldable pub migration_v2_to_v3 :
    (now : String) → Option FeedbackEvents → Result (Option FeedbackEvents)
migration_v2_to_v3 now none = ok none
migration_v2_to_v3 now (some t) = do
  detached ← detach now t.has_recall_fk (widen t)
  indexed ← create_indexes detached
  ok (some indexed)
