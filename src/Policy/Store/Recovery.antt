-- ===== src/Policy/Store/Recovery.antt =====
-- What a store of openclaw_memory_os/policy_store.py serves when it is opened, whatever its files hold.
use openclaw_memory_os.Prelude.{
  ℕ, String, ◌≡◌, refl, sym, subst, ◌∙◌, ◌≢◌, inl, inr, true, false, Option, none, some, arith,
  nat_eq, string_eq, list_eq, pair_eq, Bool-cases, if◌then◌else◌, oserror, Result, ok, err,
}
use openclaw_memory_os.Policy.{Policy}
use openclaw_memory_os.Policy.Files.{Disk, Store, Io, no_metadata, read_file, then_do}
use openclaw_memory_os.Policy.Store.{reject_shadow}
use openclaw_memory_os.Policy.Store.Open.{
  open_store, prepare, quarantine, load_auxiliary, load_active, is_stale, discard_stale_slot,
  discard_stale,
}
use openclaw_memory_os.Policy.Store.Serving.{serves, CanOpen, Leads-ok, opened-Leads}

some-injective : {A : Type 0} {a b : A} → some a ≡ some b → a ≡ b
some-injective h = ground arith

module _ {F : Type 0} (digest : Policy F → String) where
  -- Opening a store on any files at all does not raise if the directory can be made and secured, a
  -- legacy file renamed, the active file written, secured and its time read, and a file that is
  -- moved away secured. Whenever opening does not raise, the store serves the policy of the active
  -- file, or of the legacy file that becomes the active one, if that can be read and fits its
  -- checksum, or else that of the previous file, marked as active, or else the initial one.
  pub open_store-serves :
      (io : Io) (start : Policy F) (d : Disk F)
      → (CanOpen io → (open_store digest io true start d).0 ≡ ok tt)
        × ((open_store digest io true start d).0 ≡ ok tt
            → (open_store digest io true start d).1.policy ≡ serves digest start d)
  open_store-serves io start d =
      Leads-ok digest io (λ s. s.policy ≡ serves digest start d) _ (opened-Leads digest io start d)

  -- What holds of the store if a step does not raise.
  abbrev Ended : (Store F → Type 0) → Result (Unit {0}) × Store F → Type 0
  Ended P (ok u, s) = P s
  Ended P (err e, s) = Unit {0}

  then-Ended :
      (P : Store F → Type 0) (m : Result (Unit {0}) × Store F)
      (next : Unit {0} → Store F → Result (Unit {0}) × Store F)
      → ((u : Unit {0}) (s : Store F) → Ended P (next u s))
      → Ended P (then_do m next)
  then-Ended P (ok u, s) next h = h u s
  then-Ended P (err e, s) next h = tt

  -- The candidate, if there is one, does not go with another policy than the one that is served.
  abbrev Fits : Store F → Type 0
  Fits s =
      (c : Policy F)
      → s.candidate ≡ some c
      → (c.version ≢ s.policy.version)
        × ((v : ℕ) → c.parent_version ≡ some v → v ≡ s.policy.version)

  no_candidate-Fits : (s : Store F) → s.candidate ≡ none → Fits s
  no_candidate-Fits s n c h = absurd (ground (arith, n, h))

  fresh-versions :
      (p c : Policy F)
      → is_stale digest p c ≡ false
      → (c.version ≢ p.version) × ((v : ℕ) → c.parent_version ≡ some v → v ≡ p.version)
  fresh-versions p c f = ground (arith, f)

  fresh-Fits :
      (s : Store F) (c : Policy F)
      → s.candidate ≡ some c
      → is_stale digest s.policy c ≡ false
      → Fits s
  fresh-Fits s c h f d e =
      subst
        (λ (x : Policy F).
          (x.version ≢ s.policy.version)
          × ((v : ℕ) → x.parent_version ≡ some v → v ≡ s.policy.version))
        (some-injective (sym h ∙ e)) (fresh-versions s.policy c f)

  discard_slot-Fits :
      (io : Io) (c : Option (Policy F)) (s : Store F)
      → s.candidate ≡ c
      → Ended Fits (discard_stale_slot digest io c s)
  discard_slot-Fits io none s h = no_candidate-Fits s h
  discard_slot-Fits io (some c) s h = elim (Bool-cases (is_stale digest s.policy c)) [
    | inl t ↦ rw t (
        then-Ended Fits (if s.has_path then quarantine digest io s else (ok tt, s))
          (λ u x. (ok tt, record x { candidate = none; metadata = no_metadata }))
          (λ u x. no_candidate-Fits (record x { candidate = none; metadata = no_metadata }) refl))
    | inr f ↦ rw f (fresh-Fits s c h f)
  ]

  -- The last two steps of opening, and those after the files are in place.
  abbrev serve_active : Io → Store F → Result (Unit {0}) × Store F
  serve_active io s =
      then_do (load_active digest io s.disk.active_file (read_file digest s.disk.active_file) s)
        (λ _ t. discard_stale digest io t)

  abbrev read_all : Io → Store F → Result (Unit {0}) × Store F
  read_all io s = then_do (load_auxiliary digest io s) (λ _ t. serve_active io t)

  serve_active-Fits : (io : Io) (s : Store F) → Ended Fits (serve_active io s)
  unfolding discard_stale
  serve_active-Fits io s =
      then-Ended Fits
        (load_active digest io s.disk.active_file (read_file digest s.disk.active_file) s)
        (λ _ t. discard_stale digest io t) (λ u t. discard_slot-Fits io t.candidate t refl)

  read_all-Fits : (io : Io) (s : Store F) → Ended Fits (read_all io s)
  read_all-Fits io s =
      then-Ended Fits (load_auxiliary digest io s) (λ _ t. serve_active io t)
        (λ u t. serve_active-Fits io t)

  opened-Fits :
      (io : Io) (start : Policy F) (d : Disk F) → Ended Fits (open_store digest io true start d)
  unfolding open_store
  opened-Fits io start d =
      then-Ended Fits
        (prepare digest io (record {
          has_path = true;
          disk = d;
          last_mtime = none;
          policy = start;
          previous = none;
          candidate = none;
          metadata = no_metadata;
          recovery_reason = none;
        }))
        (λ _ t. read_all io t) (λ u t. read_all-Fits io t)

  Ended-ok :
      (P : Store F → Type 0) (m : Result (Unit {0}) × Store F) → Ended P m → m.0 ≡ ok tt → P m.1
  Ended-ok P (ok u, s) h e = h
  Ended-ok P (err x, s) h e = ground arith

  -- A candidate that a store holds once it is open has another version than the policy that the
  -- store serves, and if it names a parent version, that is the version of the policy served.
  pub open_store-candidate :
      (io : Io) (start : Policy F) (d : Disk F) (c : Policy F)
      → (open_store digest io true start d).0 ≡ ok tt
      → (open_store digest io true start d).1.candidate ≡ some c
      → (c.version ≢ (open_store digest io true start d).1.policy.version)
        × ((v : ℕ)
            → c.parent_version ≡ some v
            → v ≡ (open_store digest io true start d).1.policy.version)
  open_store-candidate io start d c r h = Ended-ok Fits _ (opened-Fits io start d) r c h

  -- A candidate that was rejected is neither in memory nor in its file, if that can be deleted; if
  -- the file is there and cannot be deleted, the rejection raises and changes nothing.
  pub reject_shadow_forgets :
      (io : Io) (s : Store F)
      → s.has_path ≡ true
      → (io.unlinks ≡ true
          → ((reject_shadow digest io s).1.candidate ≡ none)
            × ((reject_shadow digest io s).1.disk.candidate_file ≡ none))
        × (io.unlinks ≡ false
            → s.disk.candidate_file ≢ none
            → reject_shadow digest io s ≡ (err oserror, s))
  unfolding reject_shadow
  reject_shadow_forgets io s path = (λ u. ground (arith, u, path), λ u f. ground arith)
