-- ===== src/Migration/Detached.antt =====
-- What `_migration_v2_to_v3` of openclaw_memory_os/migration.py does to the feedback table.
use openclaw_memory_os.Prelude.{
  String, ◌≡◌, refl, subst, inl, inr, Bool, true, false, Option, some, map, arith, nat_eq,
  string_eq, list_eq, pair_eq, Bool-cases, if◌then◌else◌, Exn, oserror, Result, ok, err, ◌>>=◌,
}
use openclaw_memory_os.Migration.Feedback.{
  FeedbackEvents, add_columns, new_columns, ordered, copied, rebuild, keys_differ, create_indexes,
  migration_v2_to_v3, is_complete, every, widen, detach,
}
use openclaw_memory_os.Migration.Copied.{
  SameRows, SameRows-refl, copied-SameRows, add_columns-keeps, add_columns-has,
  add_columns-absorbed,
}

-- The table without the foreign key and with the current columns.
pub record IsDetached (t u : FeedbackEvents) : Type 0 where
  pub detached : u.has_recall_fk ≡ false
  pub widened : add_columns new_columns u.columns ≡ u.columns
  pub distinct : keys_differ u.rows ≡ true
  pub same_rows : SameRows t.columns t.rows u.rows

create_indexes-ok :
    (d u : FeedbackEvents)
    → (do indexed ← create_indexes d; ok (some indexed)) ≡ ok (some u)
    → (d ≡ u) × (keys_differ d.rows ≡ true)
unfolding create_indexes
create_indexes-ok d u h = ground arith

plain-IsDetached :
    (t u : FeedbackEvents)
    → t.has_recall_fk ≡ false
    → (widen t ≡ u) × (keys_differ t.rows ≡ true)
    → IsDetached t u
unfolding widen
plain-IsDetached t u f (same, k) = subst (IsDetached t) same (record {
  detached = f;
  widened = add_columns-absorbed new_columns _ (add_columns-has new_columns t.columns);
  distinct = k;
  same_rows = SameRows-refl t.columns t.rows;
})

refused : {A : Type 0} {e : Exn} {a : A} → err e ≡ ok a → ⊥
refused h = cc

ordered-widened : add_columns new_columns ordered ≡ ordered
unfolding add_columns
ordered-widened = refl

indexed_after : Result FeedbackEvents → Result (Option FeedbackEvents)
indexed_after r = do detached ← r; indexed ← create_indexes detached; ok (some indexed)

module _ (now : String) where
  rebuilt : FeedbackEvents → FeedbackEvents
  rebuilt t = record {
    columns = ordered;
    has_recall_fk = false;
    rows = map (copied now t.columns) t.rows;
  }

  rebuild-ok :
      (t u : FeedbackEvents)
      → indexed_after (rebuild now t) ≡ ok (some u)
      → (rebuilt t ≡ u) × (keys_differ (map (copied now t.columns) t.rows) ≡ true)
  unfolding rebuild rebuilt indexed_after
  rebuild-ok t u h = elim (Bool-cases (every (is_complete t.columns) t.rows)) [
    | inl e ↦
        create_indexes-ok (rebuilt t) u
          (subst (λ b. indexed_after (if b then ok (rebuilt t) else err oserror) ≡ ok (some u)) e h)
    | inr e ↦ absurd (
        refused (
          subst (λ b. indexed_after (if b then ok (rebuilt t) else err oserror) ≡ ok (some u)) e h))
  ]

  rebuilt-IsDetached :
      (t u : FeedbackEvents)
      → (rebuilt (widen t) ≡ u)
        × (keys_differ (map (copied now (add_columns new_columns t.columns)) t.rows) ≡ true)
      → IsDetached t u
  unfolding rebuilt widen
  rebuilt-IsDetached t u (same, k) = subst (IsDetached t) same (record {
    detached = refl;
    widened = ordered-widened;
    distinct = k;
    same_rows =
        copied-SameRows now t.columns (add_columns new_columns t.columns) t.rows
          (λ c. λ h. add_columns-keeps c new_columns t.columns h);
  })

  detach-IsDetached :
      (t u : FeedbackEvents) (fk : Bool)
      → t.has_recall_fk ≡ fk
      → indexed_after (detach now fk (widen t)) ≡ ok (some u)
      → IsDetached t u
  unfolding indexed_after widen
  detach-IsDetached t u true f h = rebuilt-IsDetached t u (rebuild-ok (widen t) u h)
  detach-IsDetached t u false f h = plain-IsDetached t u f (create_indexes-ok (widen t) u h)

  again-same :
      (later : String) (t u : FeedbackEvents)
      → IsDetached t u
      → migration_v2_to_v3 later (some u) ≡ ok (some u)
  unfolding migration_v2_to_v3 widen create_indexes
  again-same later t u d = rw d.detached (rw d.widened (rw d.distinct refl))

  -- A migration of the table that succeeds leaves no foreign key to the recall traces, keeps the
  -- rows in order with their values in those columns of the table that the current schema has, and
  -- is not changed by another run of it.
  pub migration_v2_to_v3-IsDetached :
      (later : String) (t u : FeedbackEvents)
      → migration_v2_to_v3 now (some t) ≡ ok (some u)
      → (u.has_recall_fk ≡ false)
        × (SameRows t.columns t.rows u.rows × (migration_v2_to_v3 later (some u) ≡ ok (some u)))
  unfolding migration_v2_to_v3 indexed_after
  migration_v2_to_v3-IsDetached later t u h =
      let d = detach-IsDetached t u t.has_recall_fk refl h in
      (d.detached, (d.same_rows, again-same later t u d))
