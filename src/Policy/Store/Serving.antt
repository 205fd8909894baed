-- ===== src/Policy/Store/Serving.antt =====
-- How the steps of `PolicyStore.__init__` in openclaw_memory_os/policy_store.py lead to the policy that is
-- served.
use openclaw_memory_os.Prelude.{
  String, ◌≡◌, refl, sym, ap, ◌∙◌, Bool, true, false, ◌&&◌, not, Option, none, some, arith, nat_eq,
  string_eq, list_eq, pair_eq, is_some, if◌then◌else◌, Exn, oserror, Result, ok, err,
}
use openclaw_memory_os.Policy.{active, retired, Policy}
use openclaw_memory_os.Policy.Files.{
  File, Disk, Store, Io, no_metadata, with_status, secured, read_file, save, then_do,
}
use openclaw_memory_os.Policy.Store.Open.{
  open_store, prepare, quarantine, load_previous, load_candidate, load_auxiliary, recover,
  load_active, is_stale, discard_stale_slot, discard_stale,
}
use openclaw_memory_os.Policy.Store.Promotion.{read-none}

-- The file operations without which opening may raise; a rename that fails is only logged where
-- a candidate is moved away.
abbrev pub CanOpen : Io → Type 0
CanOpen io =
    (io.makes_directory ≡ true)
    × (io.secures_directory ≡ true)
    × (io.moves_legacy ≡ true)
    × (io.secures_legacy ≡ true)
    × (io.writes_active ≡ true)
    × (io.secures_active ≡ true)
    × (io.stats_active ≡ true)
    × (io.secures_quarantine ≡ true)

module _ {F : Type 0} (digest : Policy F → String) where
  -- The active file that an opening finds: the legacy file, if that is to be renamed.
  abbrev pub found : Disk F → Option (File F)
  found d =
      if d.named_active
      then elim d.active_file [ none ↦ d.legacy_file | some f ↦ some f ]
      else d.active_file

  -- What the active file and the previous one give.
  abbrev serve_from : Policy F → (current previous : Result (Policy F)) → Policy F
  serve_from start (ok p) r = p
  serve_from start (err e) (ok q) = with_status active q
  serve_from start (err e) (err x) = start

  -- The policy that a store serves once it is open: that of the active file if the file can be
  -- read, else that of the previous file, marked as active, else the initial one.
  abbrev pub serves : Policy F → Disk F → Policy F
  serves start d = serve_from start (read_file digest (found d)) (read_file digest d.previous_file)

  -- What holds of the store if a step does not raise; it does not raise if `io` can open.
  abbrev pub Leads : Io → (Store F → Type 0) → Result (Unit {0}) × Store F → Type 0
  Leads io P (ok u, s) = P s
  Leads io P (err e, s) = CanOpen io → ⊥

  then-Leads :
      (io : Io) (P Q : Store F → Type 0) (m : Result (Unit {0}) × Store F)
      (next : Unit {0} → Store F → Result (Unit {0}) × Store F)
      → Leads io P m
      → ((u : Unit {0}) (s : Store F) → P s → Leads io Q (next u s))
      → Leads io Q (then_do m next)
  then-Leads io P Q (ok u, s) next h k = k u s h
  then-Leads io P Q (err e, s) next h k = h

  if-Leads :
      (io : Io) (P : Store F → Type 0) (b : Bool) (m n : Result (Unit {0}) × Store F)
      → (b ≡ true → Leads io P m)
      → (b ≡ false → Leads io P n)
      → Leads io P (if b then m else n)
  if-Leads io P true m n h k = h refl
  if-Leads io P false m n h k = k refl

  secured-Leads :
      (io : Io) (P : Store F → Type 0) (b : Bool) (s : Store F)
      → (CanOpen io → b ≡ true)
      → P s
      → Leads io P (secured b, s)
  secured-Leads io P true s h p = p
  secured-Leads io P false s h p = λ can. absurd (ground (arith, h can))

  -- The previous policy, marked as active, or else the initial one.
  abbrev restored_or : Policy F → Option (Policy F) → Policy F
  restored_or start none = start
  restored_or start (some q) = with_status active q

  restored-serve_from :
      (start : Policy F) (e : Exn) (r : Result (Policy F))
      → restored_or start (elim r [ ok p ↦ some (with_status retired p) | err x ↦ none ])
        ≡ serve_from start (err e) r
  restored-serve_from start e (ok q) = refl
  restored-serve_from start e (err x) = refl

  module _ (io : Io) (start : Policy F) (d : Disk F) where
    -- The files that the later steps read, and the policy so far.
    abbrev IsPrepared : Store F → Type 0
    IsPrepared s =
        (s.has_path ≡ true)
        × (s.disk.active_file ≡ found d)
        × (s.disk.previous_file ≡ d.previous_file)
        × (s.policy ≡ start)
        × (s.previous ≡ none)

    abbrev IsLoaded : Store F → Type 0
    IsLoaded s =
        (s.disk.active_file ≡ found d)
        × (s.policy ≡ start)
        × (s.previous ≡ load_previous digest d.previous_file)

    abbrev Serves : Store F → Type 0
    Serves s = s.policy ≡ serves start d

    found-legacy :
        d.named_active && not (is_some d.active_file) && is_some d.legacy_file ≡ true
        → d.legacy_file ≡ found d
    found-legacy h = ground arith

    found-active :
        d.named_active && not (is_some d.active_file) && is_some d.legacy_file ≡ false
        → d.active_file ≡ found d
    found-active h = ground arith

    -- The store before any file is read.
    abbrev fresh : Store F
    fresh = record {
      has_path = true;
      disk = d;
      last_mtime = none;
      policy = start;
      previous = none;
      candidate = none;
      metadata = no_metadata;
      recovery_reason = none;
    }

    prepare-Leads : Leads io IsPrepared (prepare digest io fresh)
    prepare-Leads =
        if-Leads io IsPrepared (not io.makes_directory) _ _ (λ m. λ can. ground (arith, can))
          (λ m.
            if-Leads io IsPrepared io.secures_directory _ _
              (λ b.
                if-Leads io IsPrepared
                  (d.named_active && not (is_some d.active_file) && is_some d.legacy_file) _ _
                  (λ l.
                    if-Leads io IsPrepared io.moves_legacy _ _
                      (λ w.
                        secured-Leads io IsPrepared io.secures_legacy _ (λ can. ground (arith, can))
                          (refl, found-legacy l, refl, refl, refl))
                      (λ w. λ can. ground (arith, can)))
                  (λ l. (refl, found-active l, refl, refl, refl)))
              (λ b. λ can. ground (arith, can)))

    quarantine-Leads :
        (P : Store F → Type 0) (s : Store F)
        → P s
        → P (record s { disk = record s.disk { candidate_file = none } })
        → Leads io P (quarantine digest io s)
    quarantine-Leads P s p q =
        if-Leads io P (is_some s.disk.candidate_file && io.quarantines) _ _
          (λ c. secured-Leads io P io.secures_quarantine _ (λ can. ground (arith, can)) q) (λ c. p)

    load_candidate-Leads :
        (r : Result (Policy F)) (s : Store F)
        → IsLoaded s
        → Leads io IsLoaded (load_candidate digest io r s)
    load_candidate-Leads (ok c) s h = h
    load_candidate-Leads (err e) s h = quarantine-Leads IsLoaded s h h

    load_auxiliary-Leads :
        (u : Unit {0}) (s : Store F) → IsPrepared s → Leads io IsLoaded (load_auxiliary digest io s)
    unfolding load_auxiliary
    load_auxiliary-Leads u s (h, a, q, p, n) =
        load_candidate-Leads _ _ (a, p, ap (load_previous digest) q)

    save-Leads :
        (p : Policy F) (s : Store F)
        → p ≡ serves start d
        → s.policy ≡ p
        → Leads io Serves (save digest io p s)
    unfolding save
    save-Leads p s e q =
        if-Leads io Serves (not s.has_path) _ _ (λ h. q ∙ e)
          (λ h.
            if-Leads io Serves io.writes_active _ _
              (λ w.
                if-Leads io Serves (not io.secures_active) _ _ (λ b. λ can. ground (arith, can))
                  (λ b.
                    if-Leads io Serves io.stats_active _ _ (λ t. q ∙ e)
                      (λ t. λ can. ground (arith, can))))
              (λ w. λ can. ground (arith, can)))

    recover-Leads :
        (missing : Bool) (previous : Option (Policy F)) (s : Store F)
        → s.policy ≡ start
        → restored_or start previous ≡ serves start d
        → Leads io Serves (recover digest io missing previous s)
    recover-Leads missing (some p) s e h = save-Leads (with_status active p) _ h refl
    recover-Leads true none s e h = e ∙ h
    recover-Leads false none s e h = e ∙ h

    restored-serves :
        (e : Exn)
        → read_file digest (found d) ≡ err e
        → restored_or start (load_previous digest d.previous_file) ≡ serves start d
    restored-serves e h =
        restored-serve_from start e (read_file digest d.previous_file)
        ∙ ap (λ r. serve_from start r (read_file digest d.previous_file)) (sym h)

    load_file-Leads :
        (f : Option (File F)) (r : Result (Policy F)) (s : Store F)
        → f ≡ found d
        → read_file digest f ≡ r
        → s.policy ≡ start
        → ((e : Exn)
            → read_file digest (found d) ≡ err e
            → restored_or start s.previous ≡ serves start d)
        → Leads io Serves (load_active digest io f r s)
    load_file-Leads none r s a h p k =
        recover-Leads true s.previous s p
          (k oserror (ap (read_file digest) (sym a) ∙ read-none digest))
    load_file-Leads (some f) (err e) s a h p k =
        recover-Leads false s.previous s p (k e (ap (read_file digest) (sym a) ∙ h))
    load_file-Leads (some f) (ok c) s a h p k =
        ap (λ r. serve_from start r (read_file digest d.previous_file))
          (sym h ∙ ap (read_file digest) a)

    load_active-Leads :
        (u : Unit {0}) (s : Store F)
        → IsLoaded s
        → Leads io Serves
            (load_active digest io s.disk.active_file (read_file digest s.disk.active_file) s)
    load_active-Leads u s (a, p, q) =
        load_file-Leads s.disk.active_file _ s a refl p
          (λ e. λ f. ap (restored_or start) q ∙ restored-serves e f)

    discard_slot-Leads :
        (c : Option (Policy F)) (s : Store F)
        → Serves s
        → Leads io Serves (discard_stale_slot digest io c s)
    discard_slot-Leads none s h = h
    discard_slot-Leads (some c) s h =
        if-Leads io Serves (is_stale digest s.policy c) _ _
          (λ t.
            then-Leads io Serves Serves _ _
              (if-Leads io Serves s.has_path _ _ (λ b. quarantine-Leads Serves s h h) (λ b. h))
              (λ u x k. k))
          (λ t. h)

    discard_stale-Leads :
        (u : Unit {0}) (s : Store F) → Serves s → Leads io Serves (discard_stale digest io s)
    unfolding discard_stale
    discard_stale-Leads u s h = discard_slot-Leads s.candidate s h

    pub opened-Leads : Leads io Serves (open_store digest io true start d)
    unfolding open_store
    opened-Leads = then-Leads io IsPrepared Serves _ _ prepare-Leads (λ u s p.
        then-Leads io IsLoaded Serves _ _ (load_auxiliary-Leads u s p)
          (λ v t l. then-Leads io Serves Serves _ _ (load_active-Leads v t l) discard_stale-Leads))

  pub Leads-ok :
      (io : Io) (P : Store F → Type 0) (m : Result (Unit {0}) × Store F)
      → Leads io P m
      → (CanOpen io → m.0 ≡ ok tt) × (m.0 ≡ ok tt → P m.1)
  Leads-ok io P (ok u, s) h = (λ c. refl, λ e. h)
  Leads-ok io P (err e, s) h = (λ c. absurd (h c), λ e. ground arith)
