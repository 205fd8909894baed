-- ===== src/Policy/Files.antt =====
-- The state of `PolicyStore` (openclaw_memory_os/policy_store.py): the slots in memory, the files
-- beside them, and how the files are read and written. An atomic write (`_atomic_json_write`) fails
-- before its `os.replace`, with the file as it was, or after it, with the file replaced. The log is
-- not modelled.
use openclaw_memory_os.Prelude.{
  ℕ, suc, String, Bool, true, false, ◌&&◌, ◌||◌, not, Option, none, some, List, [], ◌∷◌, ◌++◌, ◌==◌,
  nat_eq, string_eq, list_eq, pair_eq, if◌then◌else◌, value_error, runtime_error, oserror, Result,
  ok, err, ◌>>◌, guard,
}
use openclaw_memory_os.Policy.{Status, Policy, schema_version}

-- The candidate's envelope.
pub record Metadata : Type 0 where
  pub created_at : Option String
  pub parent_version : Option ℕ
  pub corpus_snapshot_id : Option String
  pub offline_report_id : Option String
  pub shadow_started_at : Option String
  pub shadow_sample_count : ℕ
  pub consecutive_passes : ℕ

abbrev pub no_metadata : Metadata
no_metadata = record {
  created_at = none;
  parent_version = none;
  corpus_snapshot_id = none;
  offline_report_id = none;
  shadow_started_at = none;
  shadow_sample_count = 0;
  consecutive_passes = 0;
}

-- A policy file: one that does not parse or cannot be read, or the policy that `Policy(**body)` makes of its body,
-- the checksum that it declares, and the envelope's fields.
pub data File (F : Type 0) : Type 0 where
  garbage : File F
  policy_file : Policy F → Option String → Metadata → File F

pub data Event : Type 0 where
  rejected retired_event rolled_back : Event

-- The files in the policy directory; `named_active` says that the active one is called active.json,
-- and the legacy one is policy.json.
pub record Disk (F : Type 0) : Type 0 where
  pub named_active : Bool
  pub active_file : Option (File F)
  pub active_mtime : ℕ
  pub legacy_file : Option (File F)
  pub legacy_mtime : ℕ
  pub previous_file : Option (File F)
  pub candidate_file : Option (File F)
  pub history : List (Event × Policy F)

pub data Reason : Type 0 where
  recovery_previous recovery_baseline : Reason

pub record Store (F : Type 0) : Type 0 where
  pub has_path : Bool
  pub disk : Disk F
  pub last_mtime : Option ℕ
  pub policy : Policy F
  pub previous : Option (Policy F)
  pub candidate : Option (Policy F)
  pub metadata : Metadata
  pub recovery_reason : Option Reason

-- Which of a call's file operations succeed. `writes_` is an atomic write up to its `os.replace`,
-- `secures_` the `chmod` of the file or directory in its place. Files that a call removes go or stay
-- together.
pub record Io : Type 0 where
  pub makes_directory : Bool
  pub secures_directory : Bool
  pub moves_legacy : Bool
  pub secures_legacy : Bool
  pub writes_active : Bool
  pub secures_active : Bool
  pub stats_active : Bool
  pub writes_previous : Bool
  pub secures_previous : Bool
  pub writes_candidate : Bool
  pub secures_candidate : Bool
  pub unlinks : Bool
  pub quarantines : Bool
  pub secures_quarantine : Bool
  pub archives : Bool

-- `_secure_policy_path`
abbrev pub secured : Bool → Result (Unit {0})
secured true = ok tt
secured false = err runtime_error

module _ {F : Type 0} where
  -- What follows the `os.replace` of the active file.
  abbrev pub note_mtime : Io → Store F → Result (Unit {0}) × Store F
  note_mtime io s =
      if not io.secures_active
      then (err runtime_error, s)
      else if io.stats_active
      then (ok tt, record s { last_mtime = some s.disk.active_mtime })
      else (err oserror, s)

  abbrev pub with_status : Status → Policy F → Policy F
  with_status s p = record p { status = s }

-- `compute_checksum`: the digest of everything but `created_at`. The digest of the canonical JSON
-- text is an argument.
module _ {F : Type 0} (digest : Policy F → String) where
  unfoldable pub compute_checksum : Policy F → String
  compute_checksum p = digest (record p { created_at = "" })

  -- `_policy_payload`
  unfoldable pub payload : Policy F → File F
  unfolding compute_checksum
  payload p = policy_file p (some (compute_checksum p)) no_metadata

  abbrev declared_fits : Option String → Policy F → Bool
  declared_fits none p = true
  declared_fits (some c) p = c == compute_checksum p

  -- `_read_policy_file`. An empty schema version counts as the present one.
  unfoldable pub read_file : Option (File F) → Result (Policy F)
  unfolding compute_checksum
  read_file none = err oserror
  read_file (some garbage) = err value_error
  read_file (some (policy_file p declared m)) = do
    guard (p.schema_version == "" || p.schema_version == schema_version) value_error
    guard (declared_fits declared p) value_error
    ok p

  -- `_atomic_json_write` of the active file; a write gets a later modification time.
  abbrev pub write_active : File F → Disk F → Disk F
  write_active f d = record d { active_file = some f; active_mtime = suc d.active_mtime }

  abbrev pub archive : Io → Event → Policy F → Store F → Store F
  archive io e p s =
      if s.has_path && io.archives
      then record s { disk = record s.disk { history = s.disk.history ++ ((e, p) ∷ []) } }
      else s

  -- `_save_previous_to_disk`
  unfoldable pub save_previous : Io → Store F → Result (Unit {0}) × Store F
  unfolding payload
  save_previous io s = if not s.has_path then (ok tt, s) else elim s.previous [
    | none ↦ (ok tt, s)
    | some p ↦
        if io.writes_previous
        then (
          secured io.secures_previous,
          record s { disk = record s.disk { previous_file = some (payload p) } },
        )
        else (err oserror, s)
  ]

  -- `_save_shadow_to_disk`
  unfoldable pub save_shadow : Io → Store F → Result (Unit {0}) × Store F
  save_shadow io s = if not s.has_path then (ok tt, s) else elim s.candidate [
    | none ↦ (ok tt, s)
    | some p ↦
        if io.writes_candidate
        then (
          secured io.secures_candidate,
          record s {
            disk = record s.disk {
              candidate_file = some (policy_file p (some (compute_checksum p)) s.metadata);
            };
          },
        )
        else (err oserror, s)
  ]

  -- `save`: the modification time is read after the write.
  unfoldable pub save : Io → Policy F → Store F → Result (Unit {0}) × Store F
  unfolding payload
  save io p s =
      if not s.has_path
      then (ok tt, s)
      else if io.writes_active
      then note_mtime io (record s { disk = write_active (payload p) s.disk })
      else (err oserror, s)

-- What follows a step that may raise; the state of the step stays.
abbrev pub then_do :
    {F A B : Type 0} → Result A × Store F → (A → Store F → Result B × Store F) → Result B × Store F
then_do (ok a, s) f = f a s
then_do (err e, s) f = (err e, s)
