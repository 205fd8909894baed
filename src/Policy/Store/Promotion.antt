-- ===== src/Policy/Store/Promotion.antt =====
-- Promotion, its failure and its rollback, in memory and after a restart.
use openclaw_memory_os.Prelude.{
  String, ◌≡◌, refl, sym, ap, ◌∙◌, true, Option, none, some, arith, ==_iff, ==_refl, nat_eq,
  string_eq, list_eq, pair_eq, Exn, oserror, ok, err,
}
use openclaw_memory_os.Policy.{active, retired, Policy, schema_version}
use openclaw_memory_os.Policy.Files.{
  Disk, Store, Io, with_status, compute_checksum, payload, read_file, save_previous, save,
}
use openclaw_memory_os.Policy.Store.{promote, or_field, revert, restored_from}
use openclaw_memory_os.Policy.Store.Open.{open_store, load_auxiliary, discard_stale}
use openclaw_memory_os.Policy.Store.Failure.{IsLeft, promote_chosen-fails}

module _ {F : Type 0} (digest : Policy F → String) where
  -- Of the schema version that the program reads.
  abbrev IsCurrent : Policy F → Type 0
  IsCurrent p = p.schema_version ≡ schema_version

  pub read-payload :
      (p : Policy F) → IsCurrent p → read_file digest (some (payload digest p)) ≡ ok p
  unfolding read_file payload
  read-payload p h =
      ground (arith, ==_iff p.schema_version schema_version, ==_refl (compute_checksum digest p))

  pub read-none : read_file digest none ≡ err oserror
  unfolding read_file
  read-none = refl

  -- A promotion that raises leaves the active policy, the previous one, the candidate and its
  -- envelope in memory as they were. The file of the active policy is as it was too, or, if the
  -- failure came after the file was replaced, it holds the promoted policy, so that a restart
  -- would serve it: then it was written, and securing it or reading its time failed.
  pub promote_fails :
      (io : Io) (given : Option (Policy F)) (s s' : Store F) {e : Exn}
      → promote digest io given s ≡ (err e, s')
      → (s'.policy ≡ s.policy)
        × (s'.previous ≡ s.previous)
        × (s'.candidate ≡ s.candidate)
        × (s'.metadata ≡ s.metadata)
        × IsLeft digest io s (or_field given s.candidate) s'.disk.active_file
  unfolding promote
  promote_fails io given s s' h = promote_chosen-fails digest io (or_field given s.candidate) s s' h

  pub revert_restores :
      (io : Io) (base : Policy F) (s s' : Store F) (c : String)
      → revert digest base io s ≡ (ok c, s')
      → (s'.policy ≡ restored_from digest base s.previous)
        × (s'.candidate ≡ none)
        × (s'.previous ≡ none)
  unfolding revert save
  revert_restores io base s s' c h = ground arith

  pub revert_fails :
      (io : Io) (base : Policy F) (s s' : Store F) (e : Exn)
      → revert digest base io s ≡ (err e, s')
      → (s'.policy ≡ s.policy) × (s'.candidate ≡ s.candidate) × (s'.previous ≡ s.previous)
  unfolding revert save
  revert_fails io base s s' e h = ground arith

  -- A promotion that succeeds, followed by a rollback that succeeds, serves the policy from before
  -- again, marked as active, and leaves no candidate and no previous policy.
  pub revert-promote :
      (io io' : Io) (base : Policy F) (given : Option (Policy F)) (s s' s'' : Store F)
      (c c' : String)
      → promote digest io given s ≡ (ok c, s')
      → revert digest base io' s' ≡ (ok c', s'')
      → (s''.policy ≡ with_status active s.policy) × (s''.candidate ≡ none) × (s''.previous ≡ none)
  unfolding promote revert save_previous save
  revert-promote io io' base given s s' s'' c c' h h' = ground arith

  -- What the files show after a restart, if both can be read: the active policy, and the previous
  -- one.
  open_store-readable :
      (io : Io) (base p q : Policy F) (d : Disk F)
      → io.makes_directory ≡ true
      → io.secures_directory ≡ true
      → IsCurrent p
      → IsCurrent q
      → d.active_file ≡ some (payload digest p)
      → d.previous_file ≡ some (payload digest q)
      → d.candidate_file ≡ none
      → ((open_store digest io true base d).0 ≡ ok tt)
        × ((open_store digest io true base d).1.policy ≡ p)
        × ((open_store digest io true base d).1.previous ≡ some (with_status retired q))
        × ((open_store digest io true base d).1.candidate ≡ none)
  unfolding open_store load_auxiliary discard_stale
  open_store-readable io base p q d md sd hp hq a b c =
      let r : read_file digest d.active_file ≡ ok p = ap (read_file digest) a ∙ read-payload p hp in
      let r' : read_file digest d.previous_file ≡ ok q =
        ap (read_file digest) b ∙ read-payload q hq in
      let r'' : read_file digest d.candidate_file ≡ err oserror =
        ap (read_file digest) c ∙ read-none in
      ground arith

  -- The files that a promotion leaves.
  promote-files :
      (io : Io) (given : Option (Policy F)) (s s' : Store F) (c : String)
      → s.has_path ≡ true
      → io.unlinks ≡ true
      → promote digest io given s ≡ (ok c, s')
      → (s'.disk.active_file ≡ some (payload digest s'.policy))
        × (s'.disk.previous_file ≡ some (payload digest (with_status retired s.policy)))
        × (s'.disk.candidate_file ≡ none)
        × (s'.previous ≡ some (with_status retired s.policy))
  unfolding promote save_previous save
  promote-files io given s s' c path unlinks h = ground arith

  -- With a directory to write to, and if the file of the candidate can be removed and the policies
  -- before and after have the present schema version, a promotion outlives the process: a store
  -- opened on the files that it leaves, in a directory that can be made and secured, serves the same policy, has the same previous policy to roll
  -- back to, and no candidate.
  pub promote-open_store :
      (io io' : Io) (given : Option (Policy F)) (base : Policy F) (s s' : Store F) (c : String)
      → s.has_path ≡ true
      → io.unlinks ≡ true
      → io'.makes_directory ≡ true
      → io'.secures_directory ≡ true
      → promote digest io given s ≡ (ok c, s')
      → IsCurrent s.policy
      → IsCurrent s'.policy
      → ((open_store digest io' true base s'.disk).0 ≡ ok tt)
        × ((open_store digest io' true base s'.disk).1.policy ≡ s'.policy)
        × ((open_store digest io' true base s'.disk).1.previous ≡ s'.previous)
        × ((open_store digest io' true base s'.disk).1.candidate ≡ none)
  promote-open_store io io' given base s s' c path unlinks md sd h cur cur' =
      let (a, b, d, e) = promote-files io given s s' c path unlinks h in
      let (r, x, y, z) =
        open_store-readable io' base s'.policy (with_status retired s.policy) s'.disk md sd cur' cur
          a b d in
      (r, x, y ∙ sym e, z)
