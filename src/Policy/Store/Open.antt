-- ===== src/Policy/Store/Open.antt =====
-- How `PolicyStore` of openclaw_memory_os/policy_store.py opens: `__init__`,
-- `_load_auxiliary_policies`, `_load_from_disk` and `_discard_stale_shadow_after_active_load`.
use openclaw_memory_os.Prelude.{
  ℕ, String, Bool, true, false, ◌&&◌, ◌||◌, not, Option, none, some, ◌==◌, nat_eq, string_eq,
  list_eq, pair_eq, is_some, if◌then◌else◌, runtime_error, oserror, Result, ok, err,
}
use openclaw_memory_os.Policy.{shadow, active, retired, Policy}
use openclaw_memory_os.Policy.Files.{
  Metadata, no_metadata, File, policy_file, Disk, recovery_previous, recovery_baseline, Store, Io,
  with_status, read_file, save, then_do, secured,
}

module _ {F : Type 0} (digest : Policy F → String) where
  -- `_load_auxiliary_policies`
  abbrev pub load_previous : Option (File F) → Option (Policy F)
  load_previous f = elim (read_file digest f) [ ok p ↦ some (with_status retired p) | err e ↦ none ]

  abbrev envelope : Option (File F) → Metadata
  envelope (some (policy_file p c m)) = m
  envelope _ = no_metadata

  -- A candidate that is refused is moved away. Only an `OSError` of that is caught, so the
  -- `RuntimeError` of a `chmod` that fails escapes.
  abbrev pub quarantine : Io → Store F → Result (Unit {0}) × Store F
  quarantine io s =
      if is_some s.disk.candidate_file && io.quarantines
      then (
        secured io.secures_quarantine,
        record s { disk = record s.disk { candidate_file = none } },
      )
      else (ok tt, s)

  abbrev pub load_candidate : Io → Result (Policy F) → Store F → Result (Unit {0}) × Store F
  load_candidate io (ok p) s = (
    ok tt,
    record s { candidate = some (with_status shadow p); metadata = envelope s.disk.candidate_file },
  )
  load_candidate io (err e) s = quarantine io s

  unfoldable pub load_auxiliary : Io → Store F → Result (Unit {0}) × Store F
  load_auxiliary io s =
      load_candidate io (read_file digest s.disk.candidate_file)
        (record s { previous = load_previous s.disk.previous_file })

  -- The policy that is recovered when the active file is missing or refused.
  abbrev pub recover :
      Io → (missing : Bool) → Option (Policy F) → Store F → Result (Unit {0}) × Store F
  recover io missing (some p) s =
      let p' = with_status active p in
      save digest io p' (record s { policy = p'; recovery_reason = some recovery_previous })
  recover io true none s = (ok tt, s)
  recover io false none s = (ok tt, record s { recovery_reason = some recovery_baseline })

  abbrev pub load_active :
      Io → Option (File F) → Result (Policy F) → Store F → Result (Unit {0}) × Store F
  load_active io none r s = recover io true s.previous s
  load_active io (some f) (ok p) s =
      (ok tt, record s { policy = p; last_mtime = some s.disk.active_mtime })
  load_active io (some f) (err e) s = recover io false s.previous s

  abbrev differs : Option ℕ → ℕ → Bool
  differs none v = false
  differs (some u) v = not (u == v)

  abbrev pub is_stale : Policy F → Policy F → Bool
  is_stale p c = c.version == p.version || differs c.parent_version p.version

  -- `_discard_stale_shadow_after_active_load`
  abbrev pub discard_stale_slot : Io → Option (Policy F) → Store F → Result (Unit {0}) × Store F
  discard_stale_slot io none s = (ok tt, s)
  discard_stale_slot io (some c) s =
      if is_stale s.policy c
      then then_do (if s.has_path then quarantine io s else (ok tt, s))
          (λ _ s'. (ok tt, record s' { candidate = none; metadata = no_metadata }))
      else (ok tt, s)

  unfoldable pub discard_stale : Io → Store F → Result (Unit {0}) × Store F
  discard_stale io s = discard_stale_slot io s.candidate s

  -- The rename of a legacy file where no active file is there yet.
  abbrev adopt_legacy : Io → Store F → Result (Unit {0}) × Store F
  adopt_legacy io s =
      if s.disk.named_active && not (is_some s.disk.active_file) && is_some s.disk.legacy_file
      then if io.moves_legacy
        then (
          secured io.secures_legacy,
          record s {
            disk = record s.disk {
              active_file = s.disk.legacy_file;
              active_mtime = s.disk.legacy_mtime;
              legacy_file = none;
            };
          },
        )
        else (err oserror, s)
      else (ok tt, s)

  -- The directory of the files is made and secured first.
  abbrev pub prepare : Io → Store F → Result (Unit {0}) × Store F
  prepare io s =
      if not io.makes_directory
      then (err oserror, s)
      else if io.secures_directory
      then adopt_legacy io s
      else (err runtime_error, s)

  -- `__init__`, on the files that are there. `start` is the initial policy, or else the baseline.
  unfoldable pub open_store :
      Io → (has_path : Bool) → (start : Policy F) → Disk F → Result (Unit {0}) × Store F
  unfolding load_auxiliary discard_stale
  open_store io has_path start d =
      let s : Store F = record {
        has_path = has_path;
        disk = d;
        last_mtime = none;
        policy = start;
        previous = none;
        candidate = none;
        metadata = no_metadata;
        recovery_reason = none;
      } in
      if not has_path
      then (ok tt, s)
      else then_do (prepare io s) (λ _ s1. then_do (load_auxiliary io s1) (λ _ s2.
        then_do (load_active io s2.disk.active_file (read_file digest s2.disk.active_file) s2)
          (λ _ s3. discard_stale io s3)))
