-- ===== src/Sessions/Revocation.antt =====
-- A revoked session stays revoked, and revoking all sessions leaves none that is valid.
use openclaw_memory_os.Prelude.{
  ℕ, String, ◌≡◌, refl, ◌≢◌, inl, inr, Bool, true, false, Option, none, some, List, [], ◌∷◌, arith,
  ◌==◌, ==_iff, nat_eq, string_eq, Bool-cases, Option-cases, or_else, if◌then◌else◌, count_if, All,
  Result, ok, err,
}
use openclaw_memory_os.Prelude.Int.{ℤ, pos}
use openclaw_memory_os.Sessions.{
  Platform, Row, live, matches, find, revoke_where, create, revoke, revoke_digest, revoke_owned,
  revoke_all, revoke_all_for_user, is_valid, truthy, owned_live,
}
use openclaw_memory_os.Sessions.Lifetime.{find-insert_or_replace, new_row}

-- The row that stands under a key after an UPDATE.
pub find-revoke_where :
    (h : String) (p : Row → Bool) (rows : List Row)
    → find h (revoke_where p rows) ≡ (elim (find h rows) [
      | none ↦ none
      | some r ↦ some (if p r then record r { revoked = 1 } else r)
    ])
unfolding find revoke_where
find-revoke_where h p [] = refl
find-revoke_where h p (r ∷ rows) = ground (arith, find-revoke_where h p rows)

-- The calls that write to the store.
pub data Op : Type 0 where
  creates : String → Option ℤ → Option ℕ → ℕ → Option String → Op
  revokes : Option String → Op
  revokes_all : Op
  revokes_user : Option String → Op

module _ (p : Platform) where
  abbrev on_ok : List Row → Result (List Row) → List Row
  on_ok rows (ok after) = after
  on_ok rows (err e) = rows

  -- A call that raises has written nothing.
  unfoldable pub step : List Row → Op → List Row
  step rows (creates token age issued now user) =
      on_ok rows (create p rows token age issued now user)
  step rows (revokes token) = (revoke p rows token).0
  step rows revokes_all = (revoke_all rows).0
  step rows (revokes_user user) = (revoke_all_for_user rows user).0

  unfoldable pub run : List Row → List Op → List Row
  run rows [] = rows
  run rows (o ∷ os) = run (step rows o) os

  -- The call issues no session under this digest.
  abbrev Spares : String → Op → Type 0
  Spares h (creates token age issued now user) = p.digest token ≢ h
  Spares h _ = Unit

  abbrev Dead : Option Row → Type 0
  Dead none = Unit
  Dead (some r) = r.revoked ≢ 0

  -- No row under the digest, or one that is marked as revoked.
  abbrev IsDead : String → List Row → Type 0
  IsDead h rows = Dead (find h rows)

  revoke_where-IsDead :
      (h : String) (q : Row → Bool) (rows : List Row)
      → IsDead h rows
      → IsDead h (revoke_where q rows)
  revoke_where-IsDead h q rows dead = rw (find-revoke_where h q rows) (ground arith)

  create-IsDead :
      (h token : String) (age : Option ℤ) (issued : Option ℕ) (now : ℕ) (user : Option String)
      (rows : List Row)
      → p.digest token ≢ h
      → IsDead h rows
      → IsDead h (on_ok rows (create p rows token age issued now user))
  unfolding create
  create-IsDead h token (some (pos n)) issued now user rows other dead =
      elim (Bool-cases (token == "")) [
        | inl e ↦ rw e dead
        | inr e ↦
            rw (e, find-insert_or_replace h (new_row p token n (or_else issued now) user) rows)
              (ground (arith, ==_iff h (p.digest token)))
      ]
  create-IsDead h token _ issued now user rows other dead = ground arith

  revoke_digest-IsDead :
      (h : String) (o : Option String) (rows : List Row)
      → IsDead h rows
      → IsDead h (revoke_digest p rows o).0
  revoke_digest-IsDead h none rows dead = dead
  revoke_digest-IsDead h (some t) rows dead = revoke_where-IsDead h (matches (p.digest t)) rows dead

  revoke_owned-IsDead :
      (h : String) (o : Option String) (rows : List Row)
      → IsDead h rows
      → IsDead h (revoke_owned rows o).0
  revoke_owned-IsDead h none rows dead = dead
  revoke_owned-IsDead h (some u) rows dead = revoke_where-IsDead h (owned_live u) rows dead

  step-IsDead :
      (h : String) (o : Op) (rows : List Row) → Spares h o → IsDead h rows → IsDead h (step rows o)
  unfolding step revoke revoke_all revoke_all_for_user
  step-IsDead h (creates token age issued now user) rows s dead =
      create-IsDead h token age issued now user rows s dead
  step-IsDead h (revokes token) rows s dead = revoke_digest-IsDead h (truthy token) rows dead
  step-IsDead h revokes_all rows s dead = revoke_where-IsDead h live rows dead
  step-IsDead h (revokes_user user) rows s dead = revoke_owned-IsDead h (truthy user) rows dead

  run-IsDead :
      (h : String) (os : List Op) (rows : List Row)
      → All (Spares h) os
      → IsDead h rows
      → IsDead h (run rows os)
  unfolding run
  run-IsDead h [] rows s dead = dead
  run-IsDead h (o ∷ os) rows s dead =
      run-IsDead h os (step rows o) s.1 (step-IsDead h o rows s.0 dead)

  dead_is_invalid :
      (token : String) (rows : List Row) (now : ℕ)
      → IsDead (p.digest token) rows
      → is_valid p rows (some token) now ≡ ok false
  unfolding is_valid
  dead_is_invalid token rows now dead = ground arith

  find-matches :
      (h : String) (rows : List Row) (r : Row) → find h rows ≡ some r → matches h r ≡ true
  unfolding find
  find-matches h [] r e = cc
  find-matches h (x ∷ rows) r e = ground (arith, find-matches h rows r)

  revoke_self-IsDead : (h : String) (rows : List Row) → IsDead h (revoke_where (matches h) rows)
  revoke_self-IsDead h rows =
      rw (find-revoke_where h (matches h) rows) (elim (Option-cases (find h rows)) [
        | inl e ↦ rw e tt
        | inr (r, e) ↦ rw (e, find-matches h rows r e) (omega arith)
      ])

  revoke-IsDead :
      (token : String) (rows : List Row)
      → token ≢ ""
      → IsDead (p.digest token) (revoke p rows (some token)).0
  unfolding revoke
  revoke-IsDead token rows h =
      ground (arith, ==_iff token "", revoke_self-IsDead (p.digest token) rows)

  live-IsDead : (h : String) (rows : List Row) → IsDead h (revoke_where live rows)
  live-IsDead h rows = rw (find-revoke_where h live rows) (ground arith)

  count-live : (rows : List Row) → count_if live (revoke_where live rows) ≡ 0
  unfolding revoke_where
  count-live [] = refl
  count-live (r ∷ rows) = ground (arith, count-live rows)

  revoke_where_idem :
      (rows : List Row) → revoke_where live (revoke_where live rows) ≡ revoke_where live rows
  unfolding revoke_where
  revoke_where_idem [] = refl
  revoke_where_idem (r ∷ rows) = ground (arith, revoke_where_idem rows)

  pub revoked_now :
      (token : String) (rows : List Row) (now : ℕ)
      → token ≢ ""
      → is_valid p (revoke p rows (some token)).0 (some token) now ≡ ok false
  revoked_now token rows now h = dead_is_invalid token _ now (revoke-IsDead token rows h)

  -- Once a token is revoked it is never valid again, at any time and after any further calls, until
  -- a call issues a session under the same digest.
  pub is_valid-revoke :
      (token : String) (rows : List Row) (os : List Op) (now : ℕ)
      → token ≢ ""
      → All (Spares (p.digest token)) os
      → is_valid p (run (revoke p rows (some token)).0 os) (some token) now ≡ ok false
  is_valid-revoke token rows os now h s =
      dead_is_invalid token _ now (run-IsDead (p.digest token) os _ s (revoke-IsDead token rows h))

  -- Revoking all sessions returns how many were not revoked; none is valid afterwards, at any time
  -- and after any further calls that issue no session under its digest, and a second call finds
  -- none left.
  pub is_valid-revoke_all :
      (token : String) (rows : List Row) (os : List Op) (now : ℕ)
      → All (Spares (p.digest token)) os
      → (is_valid p (run (revoke_all rows).0 os) (some token) now ≡ ok false)
        × ((revoke_all rows).1 ≡ count_if live rows)
        × (revoke_all (revoke_all rows).0 ≡ ((revoke_all rows).0, 0))
  unfolding revoke_all
  is_valid-revoke_all token rows os now s = (
    dead_is_invalid token _ now
        (run-IsDead (p.digest token) os _ s (live-IsDead (p.digest token) rows)),
    refl,
    ground (arith, count-live rows, revoke_where_idem rows),
  )
