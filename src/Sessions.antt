-- ===== src/Sessions.antt =====
-- openclaw_memory_os/sessions.py: `SessionStore`, the table of browser sessions. A row is kept under
-- the digest of its token. The table is the list of its rows in insertion order; a method takes it
-- and returns the new one. Instants are microseconds since year 1, in UTC. The connection, the
-- write lock (every write is one atomic step here) and the file permissions are not modelled here.
pub mod Lifetime
pub mod Revocation
pub mod Users
pub mod Listing
pub mod Opening
pub mod Migrated
pub mod Carried
use openclaw_memory_os.Prelude.{
  ℕ, suc, ◌+◌, ◌-◌, ◌*◌, String, Bool, false, ◌&&◌, not, Option, none, some, List, ◌∷◌, ◌++◌, ltb,
  leb, ◌==◌, nat_eq, string_eq, is_some, or_else, if◌then◌else◌, keep, count_if, value_error,
  overflow_error, Result, ok, err, ◌>>=◌, guard, [], ◌>>◌,
}
use openclaw_memory_os.Prelude.Int.{ℤ, pos, negsuc}

-- What `datetime.fromisoformat` returns: a moment with an offset, or one without.
pub data Parsed : Type 0 where
  aware naive : ℕ → Parsed

-- `hashlib.sha256(...).hexdigest()` of a text, and `datetime`'s text form.
pub record Platform : Type 0 where
  pub digest : String → String
  pub isoformat : ℕ → String
  pub fromisoformat : String → Option Parsed

pub record Row : Type 0 where
  pub token_hash : String
  pub issued_at : String
  pub max_age : ℤ
  pub revoked : ℕ
  pub last_seen_at : Option String
  pub user_id : Option String

-- `datetime.max`, the end of year 9999.
abbrev pub max_instant : ℕ
max_instant = 315_537_897_599_999_999

abbrev pub second : ℕ
second = 1_000_000

-- issued_dt + timedelta(seconds=max_age)
unfoldable pub add_seconds : ℕ → ℤ → Result ℕ
add_seconds t (pos n) =
    if leb (t + n * second) max_instant then ok (t + n * second) else err overflow_error
add_seconds t (negsuc n) =
    if leb (suc n * second) t then ok (t - suc n * second) else err overflow_error

-- An offset that is missing counts as UTC.
abbrev pub instant : Parsed → ℕ
instant (aware t) = t
instant (naive t) = t

-- `if not token`: a missing token and the empty text are alike.
abbrev pub truthy : Option String → Option String
truthy none = none
truthy (some s) = if s == "" then none else some s

abbrev pub matches : String → Row → Bool
matches h r = r.token_hash == h

-- SELECT ... WHERE token_hash = ?
unfoldable pub find : String → List Row → Option Row
find h [] = none
find h (r ∷ rows) = if matches h r then some r else find h rows

-- UPDATE sessions SET revoked = 1 WHERE ...
unfoldable pub revoke_where : (Row → Bool) → List Row → List Row
revoke_where p [] = []
revoke_where p (r ∷ rows) = (if p r then record r { revoked = 1 } else r) ∷ revoke_where p rows

-- INSERT OR REPLACE: the old row with this key goes, the new one comes last.
unfoldable pub insert_or_replace : Row → List Row → List Row
insert_or_replace r rows = keep (λ x. not (matches r.token_hash x)) rows ++ (r ∷ [])

abbrev pub check_max_age : Option ℤ → Result ℤ
check_max_age none = err value_error
check_max_age (some (negsuc n)) = err value_error
check_max_age (some (pos n)) = ok (pos n)

abbrev pub live : Row → Bool
live r = r.revoked == 0

abbrev pub same_user : Option String → String → Bool
same_user none u = false
same_user (some v) u = v == u

abbrev pub owned_live : String → Row → Bool
owned_live u r = same_user r.user_id u && live r

unfoldable pub revoke_all : List Row → List Row × ℕ
unfolding revoke_where
revoke_all rows = (revoke_where live rows, count_if live rows)

abbrev pub revoke_owned : List Row → Option String → List Row × ℕ
revoke_owned rows none = (rows, 0)
revoke_owned rows (some u) = (revoke_where (owned_live u) rows, count_if (owned_live u) rows)

unfoldable pub revoke_all_for_user : List Row → Option String → List Row × ℕ
revoke_all_for_user rows user_id = revoke_owned rows (truthy user_id)

module _ (platform : Platform) where
  open platform use {digest, isoformat, fromisoformat}

  unfoldable pub create :
      List Row
      → (token : String) (max_age : Option ℤ) (issued_at : Option ℕ) (now : ℕ)
      → (user_id : Option String) → Result (List Row)
  unfolding insert_or_replace
  create rows token max_age issued_at now user_id = do
    guard (not (token == "")) value_error
    age ← check_max_age max_age
    let row : Row = record {
      token_hash = digest token;
      issued_at = isoformat (or_else issued_at now);
      max_age = age;
      revoked = 0;
      last_seen_at = none;
      user_id = user_id;
    }
    ok (insert_or_replace row rows)

  unfoldable pub contains : List Row → Option String → Bool
  unfolding find
  contains rows token = elim (truthy token) [
    | none ↦ false
    | some t ↦ is_some (find (digest t) rows)
  ]

  abbrev pub revoke_digest : List Row → Option String → List Row × Bool
  revoke_digest rows none = (rows, false)
  revoke_digest rows (some t) =
      (revoke_where (matches (digest t)) rows, ltb 0 (count_if (matches (digest t)) rows))

  unfoldable pub revoke : List Row → Option String → List Row × Bool
  revoke rows token = revoke_digest rows (truthy token)

  -- Has the row's life not ended yet?
  unfoldable pub unexpired : Row → ℕ → Result Bool
  unfolding add_seconds
  unexpired r now = elim (fromisoformat r.issued_at) [
    | none ↦ ok false
    | some issued ↦ add_seconds (instant issued) r.max_age >>= λ expires. ok (ltb now expires)
  ]

  abbrev pub row_valid : Option Row → ℕ → Result Bool
  row_valid none now = ok false
  row_valid (some r) now = if r.revoked == 0 then unexpired r now else ok false

  unfoldable pub is_valid : List Row → Option String → ℕ → Result Bool
  unfolding find unexpired
  is_valid rows token now = elim (truthy token) [
    | none ↦ ok false
    | some t ↦ row_valid (find (digest t) rows) now
  ]
