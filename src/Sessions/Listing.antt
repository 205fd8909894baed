-- ===== src/Sessions/Listing.antt =====
-- `SessionStore.list`, the sessions that the dashboard shows.
use openclaw_memory_os.Prelude.{
  ℕ, String, ◌≡◌, refl, ◌≢◌, ◌⊎◌, inl, inr, Bool, true, false, ◌||◌, not, Option, none, some, List,
  [], ◌∷◌, arith, leb, ◌==◌, ==_iff, nat_eq, string_eq, Bool-cases, if◌then◌else◌, Among, Result,
  ok, err, ◌>>=◌,
}
use Prim.Native.String.{compare}
use text.Mathlib.Text.{is_lt}
use openclaw_memory_os.Prelude.Int.{ℤ}
use openclaw_memory_os.Prelude.Text.{prefix_chars}
use openclaw_memory_os.Sessions.{
  Platform, Row, instant, live, matches, find, truthy, add_seconds, is_valid, unexpired, row_valid,
}
use openclaw_memory_os.Sessions.Lifetime.{is_valid-some}

pub record Entry : Type 0 where
  pub fingerprint : String
  pub issued_at : String
  pub max_age : ℤ
  pub revoked : Bool
  pub current : Bool

-- ORDER BY issued_at DESC, by code points. SQL leaves the order of equal texts open.
abbrev earlier : Row → Row → Bool
earlier r s = is_lt (compare r.issued_at s.issued_at)

unfoldable pub insert_row : Row → List Row → List Row
insert_row r [] = r ∷ []
insert_row r (s ∷ rows) = if earlier r s then s ∷ insert_row r rows else r ∷ s ∷ rows

unfoldable pub newest_first : List Row → List Row
unfolding insert_row
newest_first [] = []
newest_first (r ∷ rows) = insert_row r (newest_first rows)

module _ (p : Platform) where
  unfoldable pub expired : Row → ℕ → Result Bool
  expired r now = elim (p.fromisoformat r.issued_at) [
    | none ↦ ok true
    | some issued ↦ add_seconds (instant issued) r.max_age >>= λ expires. ok (leb expires now)
  ]

  abbrev is_current : Option String → Row → Bool
  is_current none r = false
  is_current (some t) r = p.digest t == r.token_hash

  unfoldable pub entry_of : Option String → ℕ → Row → Result Entry
  entry_of current_token now r = do
    gone ← expired r now
    ok (record {
      fingerprint = prefix_chars 16 r.token_hash;
      issued_at = r.issued_at;
      max_age = r.max_age;
      revoked = not (live r) || gone;
      current = is_current (truthy current_token) r;
    })

  unfoldable pub entries : Option String → ℕ → List Row → Result (List Entry)
  entries current_token now [] = ok []
  entries current_token now (r ∷ rows) = do
    e ← entry_of current_token now r
    es ← entries current_token now rows
    ok (e ∷ es)

  unfoldable pub list : List Row → Option String → ℕ → Result (List Entry)
  unfolding newest_first entries
  list rows current_token now = entries current_token now (newest_first rows)

  find-Among : (h : String) (rows : List Row) (r : Row) → find h rows ≡ some r → Among r rows
  unfolding find
  find-Among h [] r e = absurd (cc)
  find-Among h (x ∷ rows) r e = elim (Bool-cases (matches h x)) [
    | inl hit ↦ inl (ground arith)
    | inr miss ↦ inr (find-Among h rows r (ground arith))
  ]

  -- One step past the head: the element stands before, at or after it.
  past_head :
      (r s x : Row) (rows : List Row) (rest : List Row)
      → ((r ≡ s) ⊎ Among r rows → Among r rest)
      → (r ≡ s) ⊎ Among r (x ∷ rows)
      → Among r (x ∷ rest)
  past_head r s x rows rest f (inl e) = inr (f (inl e))
  past_head r s x rows rest f (inr (inl e)) = inl e
  past_head r s x rows rest f (inr (inr m)) = inr (f (inr m))

  insert_row-Among :
      (r s : Row) (rows : List Row) → (r ≡ s) ⊎ Among r rows → Among r (insert_row s rows)
  unfolding insert_row
  insert_row-Among r s [] m = m
  insert_row-Among r s (x ∷ rows) m =
      let rest = past_head r s x rows (insert_row s rows) (insert_row-Among r s rows) m in
      elim (Bool-cases (earlier s x)) [ inl e ↦ rw e rest | inr e ↦ rw e m ]

  newest_first-Among : (r : Row) (rows : List Row) → Among r rows → Among r (newest_first rows)
  unfolding newest_first
  newest_first-Among r [] m = m
  newest_first-Among r (x ∷ rows) (inl e) = insert_row-Among r x (newest_first rows) (inl e)
  newest_first-Among r (x ∷ rows) (inr m) =
      insert_row-Among r x (newest_first rows) (inr (newest_first-Among r rows m))

  -- What a listed entry says of its row.
  abbrev Shows : Option String → ℕ → Row → List Entry → Type 0
  Shows current now r es = (e : Entry) × Among e es × (entry_of current now r ≡ ok e)

  bind-ok :
      {A B : Type 0} {result : B} (first : Result A) (next : A → Result B)
      → (first >>= next) ≡ ok result
      → (value : A) × (next value ≡ ok result) × (first ≡ ok value)
  bind-ok (ok value) next h = (value, h, refl)
  bind-ok (err e) next h = cc

  Shows-cons :
      (current : Option String) (now : ℕ) (r x : Row) (rows : List Row) (e : Entry)
      (rest : List Entry)
      → entry_of current now x ≡ ok e
      → (Among r rows → Shows current now r rest)
      → (r ≡ x) ⊎ Among r rows
      → Shows current now r (e ∷ rest)
  Shows-cons current now r x rows e rest he f (inl q) = (e, inl refl, rw q he)
  Shows-cons current now r x rows e rest he f (inr m) = let (e', a, h) = f m in (e', inr a, h)

  entries-Shows :
      (current : Option String) (now : ℕ) (r : Row) (rows : List Row) (es : List Entry)
      → entries current now rows ≡ ok es
      → Among r rows
      → Shows current now r es
  unfolding entries
  entries-Shows current now r [] es h m = absurd m
  entries-Shows current now r (x ∷ rows) es h m =
      let (e, h', he) = bind-ok (entry_of current now x) _ h in
      let (rest, h'', hr) = bind-ok (entries current now rows) _ h' in
      let q : es ≡ e ∷ rest = ground arith in
      rw q (Shows-cons current now r x rows e rest he (entries-Shows current now r rows rest hr) m)

  entry_of-is_valid :
      (current : Option String) (now : ℕ) (r : Row) (e : Entry)
      → entry_of current now r ≡ ok e
      → (row_valid p (some r) now ≡ ok (not e.revoked))
        × (e.fingerprint ≡ prefix_chars 16 r.token_hash)
  unfolding entry_of expired unexpired
  entry_of-is_valid current now r e h = ground arith

  find-token_hash :
      (h : String) (rows : List Row) (r : Row) → find h rows ≡ some r → r.token_hash ≡ h
  unfolding find
  find-token_hash h [] r e = cc
  find-token_hash h (x ∷ rows) r e = ground (arith, find-token_hash h rows r, ==_iff x.token_hash h)

  -- When the listing succeeds, the session of a token that has a row is shown under the first 16
  -- characters of the token's digest, and as revoked exactly if the token is not valid at that
  -- moment.
  pub list-is_valid :
      (rows : List Row) (current : Option String) (now : ℕ) (es : List Entry) (token : String)
      (r : Row)
      → list rows current now ≡ ok es
      → token ≢ ""
      → find (p.digest token) rows ≡ some r
      → (e : Entry) × Among e es
        × (e.fingerprint ≡ prefix_chars 16 (p.digest token))
        × (is_valid p rows (some token) now ≡ ok (not e.revoked))
  unfolding list
  list-is_valid rows current now es token r listed h found =
      let (e, a, he) =
        entries-Shows current now r (newest_first rows) es listed
          (newest_first-Among r rows (find-Among (p.digest token) rows r found)) in
      let facts = entry_of-is_valid current now r e he in
      (
        e,
        a,
        ground (arith, facts, find-token_hash (p.digest token) rows r found),
        rw (is_valid-some p rows token now h, found) facts.0,
      )
