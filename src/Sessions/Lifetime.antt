-- ===== src/Sessions/Lifetime.antt =====
-- What `create` does to the validity of every token.
use openclaw_memory_os.Prelude.{
  ℕ, ◌+◌, ◌*◌, String, ◌≡◌, refl, ◌≢◌, not, Option, none, some, List, [], ◌∷◌, ◌++◌, arith, ltb,
  leb, ◌==◌, ==_iff, nat_eq, string_eq, or_else, if◌then◌else◌, keep, overflow_error, ok, err,
}
use openclaw_memory_os.Prelude.Int.{pos}
use openclaw_memory_os.Sessions.{
  Platform, aware, Row, max_instant, second, matches, find, insert_or_replace, create, unexpired,
  is_valid, row_valid,
}

find-append :
    (h : String) (xs ys : List Row)
    → find h (xs ++ ys) ≡ (elim (find h xs) [ none ↦ find h ys | some r ↦ some r ])
unfolding find
find-append h [] ys = refl
find-append h (x ∷ xs) ys = ground (arith, find-append h xs ys)

find-without :
    (h k : String) (rows : List Row)
    → find h (keep (λ x. not (matches k x)) rows) ≡ (if h == k then none else find h rows)
unfolding find
find-without h k [] = ground arith
find-without h k (r ∷ rows) =
    ground (arith, find-without h k rows, ==_iff r.token_hash h, ==_iff r.token_hash k, ==_iff h k)

pub find-insert_or_replace :
    (h : String) (r : Row) (rows : List Row)
    → find h (insert_or_replace r rows) ≡ (if h == r.token_hash then some r else find h rows)
unfolding insert_or_replace find
find-insert_or_replace h r rows = ground (
  arith,
  find-append h (keep (λ x. not (matches r.token_hash x)) rows) (r ∷ []),
  find-without h r.token_hash rows,
  ==_iff r.token_hash h,
  ==_iff h r.token_hash,
)

pub is_valid-some :
    (p : Platform) (rows : List Row) (token : String) (now : ℕ)
    → token ≢ ""
    → is_valid p rows (some token) now ≡ row_valid p (find (p.digest token) rows) now
unfolding is_valid
is_valid-some p rows token now h = ground (arith, ==_iff token "")

abbrev pub new_row : Platform → String → ℕ → ℕ → Option String → Row
new_row p token n issued user_id = record {
  token_hash = p.digest token;
  issued_at = p.isoformat issued;
  max_age = pos n;
  revoked = 0;
  last_seen_at = none;
  user_id = user_id;
}

create-eq-ok :
    (p : Platform) (rows : List Row) (token : String) (n : ℕ) (issued_at : Option ℕ) (now : ℕ)
    (user_id : Option String) {after : List Row}
    → create p rows token (some (pos n)) issued_at now user_id ≡ ok after
    → after ≡ insert_or_replace (new_row p token n (or_else issued_at now) user_id) rows
unfolding create
create-eq-ok p rows token n issued_at now user_id h = ground arith

unexpired-new_row :
    (p : Platform) (iso : (t : ℕ) → p.fromisoformat (p.isoformat t) ≡ some (aware t))
    (token : String) (n issued : ℕ) (user_id : Option String) (later : ℕ)
    → unexpired p (new_row p token n issued user_id) later ≡ (
        if leb (issued + n * second) max_instant
        then ok (ltb later (issued + n * second))
        else err overflow_error)
unfolding unexpired
unexpired-new_row p iso token n issued user_id later = rw (iso issued, unexpired) (ground arith)

-- After a successful `create` of a token, issued at `t` for `n` seconds, a token with the same
-- digest is valid exactly before `t` plus `n` seconds (if that instant is in the calendar, else the
-- check raises), and every other token is as valid as it was before.
pub is_valid-create :
    (p : Platform) (iso : (t : ℕ) → p.fromisoformat (p.isoformat t) ≡ some (aware t))
    (rows : List Row) (token : String) (n : ℕ) (issued_at : Option ℕ) (now : ℕ)
    (user_id : Option String) (after : List Row)
    → create p rows token (some (pos n)) issued_at now user_id ≡ ok after
    → (other : String) (later : ℕ) → other ≢ ""
    → is_valid p after (some other) later ≡ (
        if p.digest other == p.digest token
        then (if leb (or_else issued_at now + n * second) max_instant
            then ok (ltb later (or_else issued_at now + n * second))
            else err overflow_error)
        else is_valid p rows (some other) later)
is_valid-create p iso rows token n issued_at now user_id after made other later h =
    rw
      (
        is_valid-some p after other later h,
        is_valid-some p rows other later h,
        create-eq-ok p rows token n issued_at now user_id made,
        find-insert_or_replace (p.digest other) (new_row p token n (or_else issued_at now) user_id)
            rows,
      )
      (ground (arith, unexpired-new_row p iso token n (or_else issued_at now) user_id later))
