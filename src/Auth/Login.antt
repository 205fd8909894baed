-- ===== src/Auth/Login.antt =====
-- Sign-in and token checks of openclaw_memory_os/auth.py. The state is the module's: the revocation
-- cache, whether the session store has been opened, and the database behind it.
pub mod Gate
pub mod Factors
use openclaw_memory_os.Prelude.{
  ℕ, ◌/◌, String, Bool, true, false, ◌&&◌, ◌||◌, not, Option, none, some, List, ◌∷◌, ◌==◌, nat_eq,
  string_eq, if◌then◌else◌, any, runtime_error, oserror, Result, ok, err, ◌>>=◌, or_on_error, ◌>>◌,
}
use openclaw_memory_os.Sessions.{Platform, Row, truthy}
use openclaw_memory_os.Sessions
use openclaw_memory_os.Auth.Recovery.{CodeRow}
use openclaw_memory_os.Auth.Recovery
use openclaw_memory_os.Auth.Totp.{Crypto, verify_totp}
use openclaw_memory_os.Auth.Password.{Hashing, verify_password}
use openclaw_memory_os.Prelude.Text.{Text, is_empty}

pub record Settings : Type 0 where
  pub auth_enabled : Bool
  pub token : String
  pub password : Text
  pub totp_secret : Text
  pub password_totp_auth : Bool

pub record Auth : Type 0 where
  pub revoked_sessions : List String
  pub opened : Bool
  pub sessions : List Row
  pub codes : List CodeRow

-- What a call meets: can `SessionStore()` open the database, do queries on it work, and what time
-- is it?
pub record World : Type 0 where
  pub opens : Bool
  pub works : Bool
  pub now : ℕ

-- `get_session_store()`, which opens the store on first use.
unfoldable pub get_session_store : World → Auth → Result Auth
get_session_store w a = if a.opened || w.opens then ok (record a { opened = true }) else err oserror

module _ (platform : Platform) where
  -- `store.is_valid(token)`
  abbrev store_is_valid : World → Auth → String → Result Bool
  store_is_valid w a t =
      if w.works then Sessions.is_valid platform a.sessions (some t) w.now else err oserror

  abbrev known_invalid : World → Auth → String → Result Bool → Option Bool
  known_invalid w a t (ok true) = some false
  known_invalid w a t (ok false) =
      if Sessions.contains platform a.sessions (some t) then some true else none
  known_invalid w a t (err e) = none

  unfoldable pub store_rejects_token : World → Auth → String → Option Bool
  store_rejects_token w a t =
      if not a.opened || t == "" then none else known_invalid w a t (store_is_valid w a t)

  -- `_session_store`, opened if it can be.
  abbrev ensure_open : World → Auth → Auth
  ensure_open w a = record a { opened = a.opened || w.opens }

  abbrev is_rejected : Option Bool → Bool
  is_rejected none = false
  is_rejected (some b) = b

  abbrev check_token : World → Settings → Auth → Option String → Auth × Bool
  check_token w s a none = (a, false)
  check_token w s a (some t) =
      if any (λ u. u == t) a.revoked_sessions
      then (a, false)
      else if not (s.token == "") && (t == s.token)
      then (a, not (is_rejected (store_rejects_token w a t)))
      else (let a' = ensure_open w a in
          (a', a'.opened && or_on_error (store_is_valid w a' t) false))

  unfoldable pub verify_token : World → Settings → Auth → Option String → Auth × Bool
  unfolding store_rejects_token
  verify_token w s a provided =
      if not s.auth_enabled then (a, true) else check_token w s a (truthy provided)

  abbrev revoked_by : Auth → String → List Row × Bool → Auth × Bool
  revoked_by a t (rows, revoked) = (
    record a {
      sessions = rows;
      revoked_sessions = (if revoked then t ∷ a.revoked_sessions else a.revoked_sessions);
    },
    revoked,
  )

  abbrev revoke_in : World → String → Result Auth → Result (Auth × Bool)
  revoke_in w t (ok a) =
      if w.works
      then ok (revoked_by a t (Sessions.revoke platform a.sessions (some t)))
      else err runtime_error
  revoke_in w t (err e) = err runtime_error

  abbrev revoke_truthy : World → Auth → Option String → Result (Auth × Bool)
  revoke_truthy w a none = ok (a, false)
  revoke_truthy w a (some t) = revoke_in w t (get_session_store w a)

  -- Errors of the store reach the caller as RuntimeError, and then nothing has changed.
  unfoldable pub revoke_session : World → Auth → Option String → Result (Auth × Bool)
  unfolding get_session_store
  revoke_session w a token = revoke_truthy w a (truthy token)

  -- A code is looked up only in a store that is open; an error counts as a refusal.
  abbrev with_codes : Auth → List CodeRow × Bool → Auth × Bool
  with_codes a (codes, accepted) = (record a { codes = codes }, accepted)

  unfoldable pub consume_code : (String → String → Bool) → World → Auth → String → Auth × Bool
  consume_code verify w a code =
      if not a.opened || not w.works
      then (a, false)
      else with_codes a (Recovery.consume verify a.codes code w.now)

  module _ (crypto : Crypto) (hashing : Hashing) (verify : String → String → Bool) where
    -- `totp_code and verify_totp(...)`
    abbrev totp_passes : World → Settings → Text → Result Bool
    totp_passes w s totp_code =
        if is_empty totp_code
        then ok false
        else verify_totp crypto totp_code s.totp_secret (w.now / 1_000_000)

    unfoldable pub second_factor : World → Settings → Auth → Text → String → Result (Auth × Bool)
    second_factor w s a totp_code recovery_code = do
      passed ← totp_passes w s totp_code
      ok (
          if passed
          then (a, true)
          else if recovery_code == ""
          then (a, false)
          else consume_code verify w a recovery_code)

    abbrev after_password : World → Settings → Auth → Text → String → Bool → Result (Auth × Bool)
    after_password w s a totp_code recovery_code good =
        if not good
        then ok (a, false)
        else if is_empty s.totp_secret
        then ok (a, true)
        else second_factor w s a totp_code recovery_code

    unfoldable pub attempt_login :
        World
        → Settings
        → Auth
        → (password totp_code : Text) → (token recovery_code : String) → Result (Auth × Bool)
    attempt_login w s a password totp_code token recovery_code =
        if not s.auth_enabled
        then ok (a, true)
        else if not s.password_totp_auth
        then ok (verify_token w s a (some token))
        else if not (is_empty s.password) && not (is_empty password)
        then verify_password hashing password (some s.password)
          >>= after_password w s a totp_code recovery_code
        else ok (verify_token w s a (some token))
