-- ===== src/Sessions/Users.antt =====
-- What revoking the sessions of one account does to the validity of every token.
use openclaw_memory_os.Prelude.{
  ℕ, String, ◌≡◌, refl, ◌≢◌, Bool, false, ◌&&◌, Option, none, some, List, arith, ==_iff, nat_eq,
  string_eq, if◌then◌else◌, count_if, ok,
}
use openclaw_memory_os.Sessions.{
  Platform, Row, live, find, revoke_where, owned_live, same_user, truthy, revoke_all_for_user,
  is_valid, unexpired, row_valid,
}
use openclaw_memory_os.Sessions.Lifetime.{is_valid-some}
use openclaw_memory_os.Sessions.Revocation.{find-revoke_where}

-- Does the session of this token belong to the account?
unfoldable pub belongs : Platform → List Row → String → String → Bool
belongs p rows token u = elim (find (p.digest token) rows) [
  | none ↦ false
  | some r ↦ same_user r.user_id u
]

truthy-some : (u : String) → u ≢ "" → truthy (some u) ≡ some u
truthy-some u h = ground (arith, ==_iff u "")

row_valid-owned :
    (p : Platform) (u : String) (o : Option Row) (now : ℕ)
    → row_valid p
        (elim o [
          | none ↦ none
          | some r ↦ some (if owned_live u r then record r { revoked = 1 } else r)
        ])
        now
      ≡ (if (elim o [ none ↦ false | some r ↦ same_user r.user_id u ])
          then ok false
          else row_valid p o now)
unfolding unexpired
row_valid-owned p u none now = refl
row_valid-owned p u (some r) now = ground arith

-- Revoking the sessions of an account that has a name: a token whose session belongs to it is not
-- valid afterwards, every other token is as valid as before, and the count is that of the account's
-- rows that were not revoked.
pub is_valid-revoke_all_for_user :
    (p : Platform) (rows : List Row) (u token : String) (now : ℕ)
    → u ≢ ""
    → token ≢ ""
    → (is_valid p (revoke_all_for_user rows (some u)).0 (some token) now
        ≡ (if belongs p rows token u then ok false else is_valid p rows (some token) now))
      × ((revoke_all_for_user rows (some u)).1
          ≡ count_if (λ r. same_user r.user_id u && live r) rows)
unfolding revoke_all_for_user belongs
is_valid-revoke_all_for_user p rows u token now hu ht =
    rw
      (
        truthy-some u hu,
        is_valid-some p (revoke_where (owned_live u) rows) token now ht,
        is_valid-some p rows token now ht,
        find-revoke_where (p.digest token) (owned_live u) rows,
      )
      (row_valid-owned p u (find (p.digest token) rows) now, refl)
