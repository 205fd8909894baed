-- ===== src/Sessions/Carried.antt =====
-- The raw tokens of an old sessions database of openclaw_memory_os/sessions.py stay valid.
use openclaw_memory_os.Prelude.{
  ℕ, String, ◌≡◌, refl, ap, subst, ◌∙◌, ◌≢◌, inl, inr, Bool, true, false, Option, none, some, List,
  [], ◌∷◌, map, ◌==◌, ==_iff, nat_eq, string_eq, list_eq, pair_eq, Bool-cases, if◌then◌else◌, ok,
}
use openclaw_memory_os.Sessions.{Platform, Row, find, row_valid, is_valid}
use openclaw_memory_os.Sessions.Lifetime.{is_valid-some}
use openclaw_memory_os.Sessions.Opening.{RawRow, raw, current, Database, hash_row, open_database}
use openclaw_memory_os.Sessions.Migrated.{carried, EndsOpen, open_database-EndsOpen}

-- The row of a raw token.
unfoldable pub find_raw : String → List RawRow → Option RawRow
find_raw token [] = none
find_raw token (r ∷ rows) = if r.token == token then some r else find_raw token rows

-- The digest of the token is not that of another token of the rows.
abbrev pub AllDiffer : Platform → String → List RawRow → Type 0
AllDiffer platform token [] = Unit
AllDiffer platform token (r ∷ rows) =
    (platform.digest r.token ≡ platform.digest token → r.token ≡ token)
    × AllDiffer platform token rows

clash : {b : Bool} → b ≡ false → b ≡ true → ⊥
clash {b = true} f t = cc
clash {b = false} f t = cc

module _ (platform : Platform) where
  -- Its row in the current schema.
  abbrev pub hashed_option : Option RawRow → Option Row
  hashed_option none = none
  hashed_option (some r) = some (hash_row platform r)

  find-hashed :
      (token : String) (rows : List RawRow)
      → AllDiffer platform token rows
      → find (platform.digest token) (map (hash_row platform) rows)
        ≡ hashed_option (find_raw token rows)
  unfolding find find_raw
  find-hashed token [] d = refl
  find-hashed token (r ∷ rows) (h, d) = elim (Bool-cases (r.token == token)) [
    | inl e ↦
        rw
          (
            e,
            (==_iff (platform.digest r.token) (platform.digest token)).1
                (ap platform.digest ((==_iff r.token token).0 e)),
          )
          refl
    | inr e ↦ rw e (elim (Bool-cases (platform.digest r.token == platform.digest token)) [
      | inl p ↦ absurd (
          clash e (
            (==_iff r.token token).1
              (h ((==_iff (platform.digest r.token) (platform.digest token)).0 p))))
      | inr p ↦ rw p (find-hashed token rows d)
    ])
  ]

  -- After a database of raw tokens was opened, a token is valid exactly if its old row says so, if no
  -- other token of the table has its digest.
  pub open_database-is_valid :
      (io : ℕ → Bool) (secures : Bool) (db after : Database) (rows : List RawRow) (token : String)
      (now : ℕ) (extra : List String)
      → db.sessions ≡ raw extra rows
      → open_database platform io secures db ≡ (ok tt, after)
      → AllDiffer platform token rows
      → token ≢ ""
      → (new : List Row) × ((after.sessions ≡ current [] new)
          × (is_valid platform new (some token) now
              ≡ row_valid platform (hashed_option (find_raw token rows)) now))
  open_database-is_valid io secures db after rows token now extra h opened d n = (
    map (hash_row platform) rows,
    (
      subst (λ r. EndsOpen platform secures db r) opened
            (open_database-EndsOpen platform io secures db)
          ∙ ap (carried platform) h,
      is_valid-some platform (map (hash_row platform) rows) token now n
          ∙ ap (λ o. row_valid platform o now) (find-hashed token rows d),
    ),
  )
