-- ===== src/Migration/Runner.antt =====
-- `run_migrations` of openclaw_memory_os/migration.py: where it ends, and what an interruption leaves.
use openclaw_memory_os.Prelude.{
  ℕ, zero, suc, ◌<◌, ◌≡◌, refl, sym, ap, subst, ◌∙◌, ◌⊎◌, inl, inr, true, false, Option, arith,
  nat_eq, string_eq, list_eq, pair_eq, Bool-cases, Exn, oserror, Result, ok, err,
}
use openclaw_memory_os.Migration.{
  number, Database, Io, schema_version, read_current_version, record_step, record_failure, commit,
  apply_one, apply_from, after_one, after_all, run_migrations,
}
use openclaw_memory_os.Migration.Feedback.{FeedbackEvents, migration_v1_to_v2, migration_v2_to_v3}

-- How a run can end: at the current version with the table migrated, or by an exception with the
-- table as it was and a version that a later run starts from, because the table cannot be migrated
-- or a transaction did not commit.
abbrev pub EndsWell : Io → Database → Result ℕ × Database → Type 0
EndsWell io db (ok version, after) =
    (version ≡ schema_version)
    × ((after.schema_version ≡ number schema_version)
        × (migration_v2_to_v3 io.now db.feedback_events ≡ ok after.feedback_events))
EndsWell io db (err e, after) =
    (after.feedback_events ≡ db.feedback_events)
    × ((read_current_version after.schema_version < schema_version)
        × ((migration_v2_to_v3 io.now db.feedback_events ≡ err e)
            ⊎ ((n : ℕ) × (io.commits n ≡ false))))

-- A database whose table has not been migrated yet.
record IsPending (db now : Database) : Type 0 where
  same_events : now.feedback_events ≡ db.feedback_events
  older : read_current_version now.schema_version < schema_version

module _ (io : Io) (db : Database) where
  failure-IsPending :
      (from to : ℕ) (now : Database)
      → IsPending db now
      → IsPending db (record_failure io from to now)
  failure-IsPending from to now p = elim (Bool-cases (io.logs to)) [
    | inl e ↦ rw e (record { same_events = p.same_events; older = p.older })
    | inr e ↦ rw e p
  ]

  failed-EndsWell :
      (from to : ℕ) (now : Database) (e : Exn)
      → ((migration_v2_to_v3 io.now db.feedback_events ≡ err e)
          ⊎ ((n : ℕ) × (io.commits n ≡ false)))
      → IsPending db now
      → EndsWell io db (err e, record_failure io from to now)
  failed-EndsWell from to now e why p =
      let q = failure-IsPending from to now p in (q.same_events, (q.older, why))

  -- A step that changes the version only.
  bump-EndsWell :
      (rest : Database → Result ℕ × Database) (from to : ℕ) (now : Database)
      → to < schema_version
      → ((x : Database) → IsPending db x → EndsWell io db (rest x))
      → IsPending db now
      → EndsWell io db (after_one rest (apply_one io ((from, to), migration_v1_to_v2) now))
  unfolding apply_one migration_v1_to_v2 record_step read_current_version
  bump-EndsWell rest from to now b h p = elim (Bool-cases (io.commits to)) [
    | inl e ↦ rw e (h (record_step from to now) (record { same_events = p.same_events; older = b }))
    | inr e ↦ rw e (failed-EndsWell from to now oserror (inr (to, e)) p)
  ]

  abbrev last : Database → Result ℕ × Database
  last now =
      after_one (λ x. (ok schema_version, x)) (apply_one io ((2, 3), migration_v2_to_v3 io.now) now)

  commit-EndsWell :
      (now : Database) (r : Result (Option FeedbackEvents))
      → migration_v2_to_v3 io.now now.feedback_events ≡ r
      → IsPending db now
      → EndsWell io db (after_one (λ x. (ok schema_version, x)) (commit io 2 3 r now))
  unfolding record_step
  commit-EndsWell now (err e) h p =
      failed-EndsWell 2 3 now e (inl (ap (migration_v2_to_v3 io.now) (sym p.same_events) ∙ h)) p
  commit-EndsWell now (ok events) h p = elim (Bool-cases (io.commits 3)) [
    | inl e ↦ rw e (refl, (refl, ap (migration_v2_to_v3 io.now) (sym p.same_events) ∙ h))
    | inr e ↦ rw e (failed-EndsWell 2 3 now oserror (inr (3, e)) p)
  ]

  last-EndsWell : (now : Database) → IsPending db now → EndsWell io db (last now)
  unfolding apply_one
  last-EndsWell now p = commit-EndsWell now (migration_v2_to_v3 io.now now.feedback_events) refl p

  after_all-EndsWell :
      (r : Result ℕ × Database) → EndsWell io db r → EndsWell io db (after_all io r)
  after_all-EndsWell (err e, after) h = h
  after_all-EndsWell (ok v, after) h = rw h.0 (refl, h.1)

  run_from :
      (n : ℕ)
      → read_current_version db.schema_version ≡ n
      → n < schema_version
      → EndsWell io db (run_migrations io db)
  unfolding run_migrations apply_from
  run_from zero h b = rw h (
      after_all-EndsWell _ (
        bump-EndsWell _ 0 1 db (omega arith)
          (λ x. λ p. bump-EndsWell _ 1 2 x (omega arith) last-EndsWell p)
          (record { same_events = refl; older = rw h b })))
  run_from (suc zero) h b = rw h (
      after_all-EndsWell _ (
        bump-EndsWell _ 1 2 db (omega arith) last-EndsWell
          (record { same_events = refl; older = rw h b })))
  run_from (suc (suc zero)) h b =
      rw h (after_all-EndsWell _ (last-EndsWell db (record { same_events = refl; older = rw h b })))
  run_from (suc (suc (suc n))) h b = absurd (omega arith)

  -- A run on a database of an older version ends well, whatever transactions fail: at version 3 with
  -- the feedback table migrated; or by an exception, with the table as it was and still an older
  -- version, and then the table cannot be migrated or some transaction did not commit.
  pub run_migrations-EndsWell :
      read_current_version db.schema_version < schema_version
      → EndsWell io db (run_migrations io db)
  run_migrations-EndsWell b = run_from (read_current_version db.schema_version) refl b

-- What a caller sees: the version or the exception, and the table.
abbrev pub seen : Result ℕ × Database → Result ℕ × Option FeedbackEvents
seen (r, db) = (r, db.feedback_events)

abbrev completed :
    Option FeedbackEvents → Result (Option FeedbackEvents) → Result ℕ × Option FeedbackEvents
completed events (ok migrated) = (ok schema_version, migrated)
completed events (err e) = (err e, events)

seen-completed :
    (io : Io) (db : Database) (r : Result ℕ × Database)
    → ((n : ℕ) → io.commits n ≡ true)
    → EndsWell io db r
    → seen r ≡ completed db.feedback_events (migration_v2_to_v3 io.now db.feedback_events)
seen-completed io db (ok v, after) c h = rw (h.1.1, h.0) refl
seen-completed io db (err e, after) c (same, (older, inl m)) = rw (m, same) refl
seen-completed io db (err e, after) c (same, (older, inr (n, f))) = absurd (ground (arith, c n))

-- If a run was interrupted, a later run whose transactions all commit returns the same and leaves the
-- same feedback table as if the interrupted run had not been.
pub run_migrations-resumes :
    (io later : Io) (db now : Database) (e : Exn)
    → read_current_version db.schema_version < schema_version
    → ((n : ℕ) → later.commits n ≡ true)
    → run_migrations io db ≡ (err e, now)
    → seen (run_migrations later now) ≡ seen (run_migrations later db)
run_migrations-resumes io later db now e b c h =
    let (same, (older, why)) = subst (λ r. EndsWell io db r) h (run_migrations-EndsWell io db b) in
    seen-completed later now _ c (run_migrations-EndsWell later now older)
    ∙ (ap (λ events. completed events (migration_v2_to_v3 later.now events)) same
        ∙ sym (seen-completed later db _ c (run_migrations-EndsWell later db b)))
