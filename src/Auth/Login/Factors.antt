-- ===== src/Auth/Login/Factors.antt =====
-- What a password sign-in needs.
use openclaw_memory_os.Prelude.{
  ◌/◌, String, ◌≡◌, ◌⊎◌, Bool, true, false, some, arith, nat_eq, string_eq, ok,
}
use openclaw_memory_os.Prelude.Text.{Text, is_empty}
use openclaw_memory_os.Sessions.{Platform}
use openclaw_memory_os.Auth.Totp.{Crypto, verify_totp}
use openclaw_memory_os.Auth.Password.{Hashing, verify_password}
use openclaw_memory_os.Auth.Login.{
  Settings, Auth, World, second_factor, consume_code, attempt_login,
}

module _ (p : Platform) (crypto : Crypto) (hashing : Hashing)
    (verify : String → String → Bool) where
  -- With authentication and the password path on, and a password and a TOTP secret configured, a
  -- sign-in with a password succeeds only if the password is right and either the TOTP code is
  -- accepted, and then no recovery code is used up, or the recovery code is.
  pub attempt_login_two_factors :
      (w : World) (s : Settings) (a a' : Auth) (password totp_code : Text)
      (token recovery_code : String)
      → s.auth_enabled ≡ true
      → s.password_totp_auth ≡ true
      → is_empty s.password ≡ false
      → is_empty password ≡ false
      → is_empty s.totp_secret ≡ false
      → attempt_login p crypto hashing verify w s a password totp_code token recovery_code
        ≡ ok (a', true)
      → (verify_password hashing password (some s.password) ≡ ok true)
        × (((verify_totp crypto totp_code s.totp_secret (w.now / 1_000_000) ≡ ok true) × (a' ≡ a))
            ⊎ (consume_code p verify w a recovery_code ≡ (a', true)))
  unfolding attempt_login second_factor
  attempt_login_two_factors w s a a' password totp_code token recovery_code on flag stored given
        secret h =
      ground arith
