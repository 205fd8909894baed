-- ===== src/Policy/Store/Failure.antt =====
-- What a step of `promote` in openclaw_memory_os/policy_store.py leaves if it raises.
use openclaw_memory_os.Prelude.{
  String, ◌≡◌, refl, ap, subst, ◌⊎◌, inl, inr, Bool, true, false, Option, none, some, arith, nat_eq,
  string_eq, list_eq, pair_eq, Bool-cases, Option-cases, Exn, Result, ok, err,
}
use openclaw_memory_os.Policy.{active, retired, Policy}
use openclaw_memory_os.Policy.Files.{
  File, Store, Io, with_status, payload, save_previous, save, secured, note_mtime, then_do,
}
use openclaw_memory_os.Policy.Store.{promote_chosen, finish_promote, or_field}

module _ {F : Type 0} (digest : Policy F → String) where
  -- The policy that `promote` makes of the one that it is given.
  abbrev pub promoted : Policy F → Policy F → Policy F
  promoted chosen now = record chosen {
    status = active;
    parent_version = or_field chosen.parent_version (some now.version);
  }

  -- What a promotion that raises may leave in the active file: what was there, or the policy that
  -- is promoted, if the file was replaced before the failure.
  abbrev pub IsLeft : Io → Store F → Option (Policy F) → Option (File F) → Type 0
  IsLeft io s none after = after ≡ s.disk.active_file
  IsLeft io s (some chosen) after =
      (after ≡ s.disk.active_file)
      ⊎ ((after ≡ some (payload digest (promoted chosen s.policy)))
          × (io.writes_active ≡ true)
          × ((io.secures_active ≡ false) ⊎ (io.stats_active ≡ false)))

  -- The slots of `s`, and its active file or the one of a policy that was written.
  abbrev Kept : Io → Store F → Policy F → Store F → Type 0
  Kept io s new t =
      (t.policy ≡ s.policy)
      × (t.candidate ≡ s.candidate)
      × (t.metadata ≡ s.metadata)
      × ((t.disk.active_file ≡ s.disk.active_file)
          ⊎ ((t.disk.active_file ≡ some (payload digest new))
              × (io.writes_active ≡ true)
              × ((io.secures_active ≡ false) ⊎ (io.stats_active ≡ false))))

  -- What holds of the store if a step raises, and if it does not.
  abbrev Leaves : (Raised Done : Store F → Type 0) → Result (Unit {0}) × Store F → Type 0
  Leaves Raised Done (err e, t) = Raised t
  Leaves Raised Done (ok u, t) = Done t

  abbrev Same : Store F → Store F → Type 0
  Same s t =
      (t.policy ≡ s.policy)
      × (t.candidate ≡ s.candidate)
      × (t.metadata ≡ s.metadata)
      × (t.disk.active_file ≡ s.disk.active_file)

  secured-Leaves : (b : Bool) (P : Store F → Type 0) (t : Store F) → P t → Leaves P P (secured b, t)
  secured-Leaves true P t p = p
  secured-Leaves false P t p = p

  save_previous-Leaves :
      (io : Io) (s : Store F) → Leaves (Same s) (Same s) (save_previous digest io s)
  unfolding save_previous
  save_previous-Leaves io s = elim (Bool-cases s.has_path) [
    | inr e ↦ rw e (refl, refl, refl, refl)
    | inl e ↦ elim (Option-cases s.previous) [
      | inl n ↦ rw (e, n) (refl, refl, refl, refl)
      | inr (p, f) ↦ elim (Bool-cases io.writes_previous) [
        | inl w ↦
            rw (e, f, w) (secured-Leaves io.secures_previous (Same s) _ (refl, refl, refl, refl))
        | inr w ↦ rw (e, f, w) (refl, refl, refl, refl)
      ]
    ]
  ]

  note_mtime-Leaves :
      (io : Io) (s t : Store F) (new : Policy F)
      → io.writes_active ≡ true
      → Same s (record t { disk = record t.disk { active_file = s.disk.active_file } })
      → t.disk.active_file ≡ some (payload digest new)
      → Leaves (Kept io s new) (λ _. Unit {0}) (note_mtime io t)
  note_mtime-Leaves io s t new w (p, c, m, _) a = elim (Bool-cases io.secures_active) [
    | inr e ↦ rw e (p, c, m, inr (a, w, inl refl))
    | inl e ↦ elim (Bool-cases io.stats_active) [
      | inr f ↦ rw (e, f) (p, c, m, inr (a, w, inr refl))
      | inl f ↦ rw (e, f) tt
    ]
  ]

  save-Leaves :
      (io : Io) (s t : Store F) (new : Policy F)
      → Same s t
      → Leaves (Kept io s new) (λ _. Unit {0}) (save digest io new t)
  unfolding save
  save-Leaves io s t new (p, c, m, a) = elim (Bool-cases t.has_path) [
    | inr e ↦ rw e tt
    | inl e ↦ elim (Bool-cases io.writes_active) [
      | inl w ↦
          rw (e, w)
            (note_mtime-Leaves (record io { writes_active = true }) s _ new refl (p, c, m, refl)
              refl)
      | inr w ↦ rw (e, w) (p, c, m, inl a)
    ]
  ]

  then-Leaves :
      (io : Io) (s : Store F) (new : Policy F) (first : Result (Unit {0}) × Store F)
      → Leaves (Same s) (Same s) first
      → Leaves (Kept io s new) (λ _. Unit {0}) (then_do first (λ _ t. save digest io new t))
  then-Leaves io s new (ok u, t) h = save-Leaves io s t new h
  then-Leaves io s new (err e, t) (p, c, m, a) = (p, c, m, inl a)

  finish_promote-fails :
      (io : Io) (s : Store F) (old new : Policy F) (last : Result (Unit {0}) × Store F)
      (s' : Store F) {e : Exn}
      → Leaves (Kept io s new) (λ _. Unit {0}) last
      → finish_promote digest io s.previous old new last ≡ (err e, s')
      → (s'.previous ≡ s.previous) × Kept io s new s'
  finish_promote-fails io s old new (ok u, t) s' k h = absurd (ground arith)
  finish_promote-fails io s old new (err f, t) s' k h =
      subst (λ (x : Store F). (x.previous ≡ s.previous) × Kept io s new x) (ap (λ x. x.1) h)
        (refl, k)

  pub promote_chosen-fails :
      (io : Io) (chosen : Option (Policy F)) (s s' : Store F) {e : Exn}
      → promote_chosen digest io chosen s ≡ (err e, s')
      → (s'.policy ≡ s.policy)
        × (s'.previous ≡ s.previous)
        × (s'.candidate ≡ s.candidate)
        × (s'.metadata ≡ s.metadata)
        × IsLeft io s chosen s'.disk.active_file
  promote_chosen-fails io none s s' h =
      subst
        (λ (x : Store F).
          (x.policy ≡ s.policy)
          × (x.previous ≡ s.previous)
          × (x.candidate ≡ s.candidate)
          × (x.metadata ≡ s.metadata)
          × (x.disk.active_file ≡ s.disk.active_file))
        (ap (λ x. x.1) h) (refl, refl, refl, refl, refl)
  promote_chosen-fails io (some chosen) s s' h =
      let old = with_status retired s.policy in
      let t = record s { previous = some old } in
      let (q, (p, c, m, a)) =
        finish_promote-fails io s old (promoted chosen s.policy) _ s'
          (then-Leaves io s (promoted chosen s.policy) (save_previous digest io t)
            (save_previous-Leaves io t))
          h in
      (p, q, c, m, a)
