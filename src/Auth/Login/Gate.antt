-- ===== src/Auth/Login/Gate.antt =====
-- Which tokens `verify_token` lets in.
use openclaw_memory_os.Prelude.{
  String, ◌≡◌, ◌≢◌, ◌⊎◌, Bool, true, false, some, [], arith, ◌==◌, ==_iff, ==_refl, nat_eq,
  string_eq, any, ok,
}
use openclaw_memory_os.Sessions
use openclaw_memory_os.Sessions.{Platform, Row, truthy}
use openclaw_memory_os.Sessions.Revocation.{revoked_now}
use openclaw_memory_os.Auth.Login.{
  Settings, Auth, World, store_rejects_token, verify_token, revoke_session,
}

module _ (p : Platform) where
  -- With authentication on, a token is let in only if it is the configured bearer token or a
  -- session that the store calls valid at that moment. In particular the login password is no
  -- token.
  pub verify_token_sound :
      (w : World) (s : Settings) (a : Auth) (token : String)
      → s.auth_enabled ≡ true
      → (verify_token p w s a (some token)).1 ≡ true
      → ((token ≡ s.token) × (s.token ≢ ""))
        ⊎ (Sessions.is_valid p a.sessions (some token) w.now ≡ ok true)
  unfolding verify_token store_rejects_token
  verify_token_sound w s a token on h =
      ground (arith, ==_iff token "", ==_iff token s.token, ==_iff s.token "")

  -- The store as a new process finds it: the rows are there, the cache is empty, the store is not
  -- open yet.
  abbrev pub restart : Auth → Auth
  restart a = record a { revoked_sessions = []; opened = false }

  revoked_row :
      (w : World) (a a' : Auth) (token : String) (b : Bool)
      → token ≢ ""
      → revoke_session p w a (some token) ≡ ok (a', b)
      → a'.sessions ≡ (Sessions.revoke p a.sessions (some token)).0
  unfolding revoke_session
  revoked_row w a a' token b h e = ground (arith, ==_iff token "")

  cached :
      (w : World) (a a' : Auth) (token : String)
      → token ≢ ""
      → revoke_session p w a (some token) ≡ ok (a', true)
      → any (λ u. u == token) a'.revoked_sessions ≡ true
  unfolding revoke_session
  cached w a a' token h e = ground (arith, ==_iff token "", ==_refl token)

  in_cache :
      (w : World) (s : Settings) (a : Auth) (token : String)
      → s.auth_enabled ≡ true
      → token ≢ ""
      → any (λ u. u == token) a.revoked_sessions ≡ true
      → (verify_token p w s a (some token)).1 ≡ false
  unfolding verify_token
  in_cache w s a token on h e = ground (arith, ==_iff token "")

  dead_session :
      (w : World) (s : Settings) (a : Auth) (token : String)
      → s.auth_enabled ≡ true
      → token ≢ ""
      → token ≢ s.token
      → Sessions.is_valid p a.sessions (some token) w.now ≡ ok false
      → (verify_token p w s a (some token)).1 ≡ false
  unfolding verify_token
  dead_session w s a token on h other e = ground (arith, ==_iff token "", ==_iff token s.token)

  -- With authentication on, a session whose revocation was reported is not let in again, in this
  -- process or after a restart, at any later time, whether or not the store works; in this process
  -- that holds of the bearer token too.
  pub verify_token-revoke_session :
      (w later : World) (s : Settings) (a a' : Auth) (token : String)
      → s.auth_enabled ≡ true
      → token ≢ ""
      → revoke_session p w a (some token) ≡ ok (a', true)
      → ((verify_token p later s a' (some token)).1 ≡ false)
        × (token ≢ s.token → (verify_token p later s (restart a') (some token)).1 ≡ false)
  verify_token-revoke_session w later s a a' token on named done = (
    in_cache later s a' token on named (cached w a a' token named done),
    λ other. dead_session later s (restart a') token on named other (
        rw (revoked_row w a a' token true named done)
          (revoked_now p token a.sessions later.now named)),
  )

  -- With authentication on and a bearer token configured, a new process lets the token in as long
  -- as it has not opened the store, whatever the token's row says.
  pub bearer_before_open :
      (w : World) (s : Settings) (a : Auth)
      → s.auth_enabled ≡ true
      → s.token ≢ ""
      → (verify_token p w s (restart a) (some s.token)).1 ≡ true
  unfolding verify_token store_rejects_token
  bearer_before_open w s a on named = ground (arith, ==_iff s.token "", ==_iff s.token s.token)
