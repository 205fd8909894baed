-- ===== src/Policy/Store.antt =====
-- `PolicyStore` of openclaw_memory_os/policy_store.py. A call takes the store and returns it with the
-- result; what was done before an exception stays done. The lock makes every method one step.
pub mod Open
pub mod Failure
pub mod Promotion
pub mod Serving
pub mod Recovery
use openclaw_memory_os.Prelude.{
  ℕ, zero, suc, ◌+◌, ◌-◌, ◌*◌, ◌/◌, ◌%◌, ◌^◌, ◌≤◌, ◌<◌, min, max, String, ◌≡◌, refl, sym, ap, subst,
  ◌∙◌, ◌≢◌, ◌↔◌, ◌⊎◌, inl, inr, Bool, true, false, ◌&&◌, ◌||◌, not, Option, none, some, List, [],
  ◌∷◌, ◌++◌, map, arith, ltb, leb, ltb→lt, lt→ltb, Eq, ◌==◌, ==_iff, ==_refl, nat_eq, nat_eqb,
  string_eq, list_eq, pair_eq, Bool-cases, Option-cases, is_some, or_else, if◌then◌else◌, length,
  take, drop, length-append, length-take, keep, count_if, any, All, Among, length-keep-le, Exn,
  value_error, type_error, struct_error, overflow_error, runtime_error, oserror, future_schema,
  Result, ok, err, ◌>>=◌, ◌>>◌, guard, or_on_error,
}
use openclaw_memory_os.Policy.{shadow, active, retired, Policy}
use openclaw_memory_os.Policy.Files.{
  Metadata, no_metadata, File, policy_file, Event, rejected, retired_event, rolled_back, Disk,
  recovery_previous, recovery_baseline, Store, Io, with_status, compute_checksum, read_file,
  archive, save_previous, save_shadow, save, then_do,
}

-- `a or b` of two optional fields.
abbrev pub or_field {ℓ} : {A : Type ℓ} → Option A → Option A → Option A
or_field none b = b
or_field (some a) b = some a

module _ {F : Type 0} (digest : Policy F → String) where
  -- `set`: the previous slot in memory is assigned before the write that may raise.
  unfoldable pub set : Io → Policy F → Store F → Result String × Store F
  set io p s =
      then_do
        (save_previous digest io (record s { previous = some (with_status retired s.policy) }))
        λ _ s'. (
          ok (compute_checksum digest (with_status active p)),
          record s' { policy = with_status active p },
        )

  -- `set_shadow`. A field of the envelope that is not supplied takes its default.
  unfoldable pub set_shadow :
      Io → (now : String) → Policy F → Metadata → Store F → Result (Unit {0}) × Store F
  set_shadow io now p given s = save_shadow digest io (record s {
    candidate = some (with_status shadow p);
    metadata = record given {
      created_at = or_field given.created_at (some now);
      parent_version =
          or_field given.parent_version (or_field p.parent_version (some s.policy.version));
      shadow_started_at = or_field given.shadow_started_at (some now);
    };
  })

  abbrev merge : Metadata → (samples passes : Option ℕ) → Metadata → Metadata
  merge given samples passes m = record {
    created_at = or_field given.created_at m.created_at;
    parent_version = or_field given.parent_version m.parent_version;
    corpus_snapshot_id = or_field given.corpus_snapshot_id m.corpus_snapshot_id;
    offline_report_id = or_field given.offline_report_id m.offline_report_id;
    shadow_started_at = or_field given.shadow_started_at m.shadow_started_at;
    shadow_sample_count = or_else samples m.shadow_sample_count;
    consecutive_passes = or_else passes m.consecutive_passes;
  }

  -- `update_shadow_metadata`; the two counters are given apart, since zero is a value of theirs.
  pub update_shadow_metadata :
      Io → Metadata → (samples passes : Option ℕ) → Store F → Result Bool × Store F
  update_shadow_metadata io given samples passes s = elim s.candidate [
    | none ↦ (ok false, s)
    | some p ↦
        then_do
          (save_shadow digest io (record s { metadata = merge given samples passes s.metadata }))
          λ _ s'. (ok true, s')
  ]

  abbrev on_disk : Store F → Option (File F)
  on_disk s = if s.has_path then s.disk.candidate_file else none

  abbrev or_read : Option (Policy F) → Option (File F) → Option (Policy F)
  or_read (some p) f = some p
  or_read none none = none
  or_read none (some f) = elim (read_file digest (some f)) [ ok p ↦ some p | err e ↦ none ]

  abbrev archive_slot : Io → Event → Option (Policy F) → Store F → Store F
  archive_slot io e none s = s
  archive_slot io e (some p) s = archive digest io e p s

  -- `reject_shadow`: the file goes first, and if it cannot be deleted nothing changes.
  unfoldable pub reject_shadow : Io → Store F → Result (Option ℕ) × Store F
  reject_shadow io s =
      let found = or_read s.candidate (on_disk s) in
      if is_some (on_disk s) && not io.unlinks then (err oserror, s) else (
        ok (elim found [ none ↦ none | some p ↦ some p.version ]),
        archive_slot io rejected found (record s {
          candidate = none;
          metadata = no_metadata;
          disk = (if s.has_path then record s.disk { candidate_file = none } else s.disk);
        }),
      )

  -- `candidate_path.unlink()` after the switch: a failure is only logged.
  abbrev drop_candidate : Io → Disk F → Disk F
  drop_candidate io d = if io.unlinks then record d { candidate_file = none } else d

  abbrev pub parent_or : Policy F → ℕ → Policy F
  parent_or p v = record p { parent_version = or_field p.parent_version (some v) }

  -- The end of `promote`: if a write raised, the previous slot in memory is put back.
  abbrev pub finish_promote :
      Io
      → (old_previous : Option (Policy F)) → (old new : Policy F) → Result (Unit {0}) × Store F
      → Result String × Store F
  finish_promote io old_previous old new (err e, s) = (err e, record s { previous = old_previous })
  finish_promote io old_previous old new (ok _, s) = (
    ok (compute_checksum digest new),
    archive digest io retired_event old (record s {
      policy = new;
      candidate = none;
      metadata = no_metadata;
      disk = (if s.has_path then drop_candidate io s.disk else s.disk);
    }),
  )

  abbrev pub promote_chosen : Io → Option (Policy F) → Store F → Result String × Store F
  promote_chosen io none s = (err value_error, s)
  promote_chosen io (some chosen) s =
      let old = with_status retired s.policy in
      let new = parent_or (with_status active chosen) s.policy.version in
      finish_promote io s.previous old new (
        then_do (save_previous digest io (record s { previous = some old }))
          (λ _ s'. save digest io new s'))

  -- `promote`, of the given policy or else of the candidate.
  unfoldable pub promote : Io → Option (Policy F) → Store F → Result String × Store F
  promote io given s = promote_chosen io (or_field given s.candidate) s

  abbrev drop_both : Io → Disk F → Disk F
  drop_both io d =
      if io.unlinks then record d { previous_file = none; candidate_file = none } else d

  abbrev finish_revert :
      Io → (current restored : Policy F) → Result (Unit {0}) × Store F → Result String × Store F
  finish_revert io current restored (err e, s) = (err e, s)
  finish_revert io current restored (ok _, s) = (
    ok (compute_checksum digest restored),
    archive digest io rolled_back current (record s {
      policy = restored;
      previous = none;
      candidate = none;
      metadata = no_metadata;
      disk = (if s.has_path then drop_both io s.disk else s.disk);
    }),
  )

  abbrev pub restored_from : Policy F → Option (Policy F) → Policy F
  restored_from base none = base
  restored_from base (some p) = with_status active p

  -- `revert`: to the previous policy, or to the baseline if there is none.
  unfoldable pub revert : Policy F → Io → Store F → Result String × Store F
  revert base io s =
      let restored = restored_from base s.previous in
      finish_revert io s.policy restored (save digest io restored s)

  abbrev loaded : Result (Policy F) → Store F → Bool × Store F
  loaded (ok p) s = (true, record s { policy = p; last_mtime = some s.disk.active_mtime })
  loaded (err e) s = (false, s)

  abbrev same_mtime : ℕ → Option ℕ → Bool
  same_mtime t none = false
  same_mtime t (some u) = t == u

  -- `reload_if_changed`: a file that cannot be read leaves the policy as it is.
  unfoldable pub reload_if_changed : Option ℕ → Store F → Bool × Store F
  reload_if_changed mtime s =
      if not s.has_path
        || not (is_some s.disk.active_file)
        || same_mtime (or_else mtime s.disk.active_mtime) s.last_mtime
      then (false, s)
      else loaded (read_file digest s.disk.active_file) s
