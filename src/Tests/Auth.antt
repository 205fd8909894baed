-- ===== src/Tests/Auth.antt =====
-- Examples for the login of openclaw_memory_os/auth.py.
use openclaw_memory_os.Prelude.{
  ℕ, ◌+◌, ◌/◌, ◌≤◌, String, ◌≡◌, refl, ◌≢◌, ◌⊎◌, Bool, true, false, ◌&&◌, none, some, List, [], ◌∷◌,
  arith, leb, ◌==◌, nat_eq, string_eq, list_eq, pair_eq, ok,
}
use openclaw_memory_os.Prelude.Table.{lookup}
use openclaw_memory_os.Prelude.Text.{Text, codes, strip, is_space}
use openclaw_memory_os.Sessions
use openclaw_memory_os.Sessions.{Row}
use openclaw_memory_os.Sessions.Lifetime.{new_row}
use openclaw_memory_os.Auth.Limiter.{Limiter, is_limited, record_failure, lockout_5}
use openclaw_memory_os.Auth.Limiter.Lockouts.{is_limited_iff, locked_until-record_failure}
use openclaw_memory_os.Auth.Recovery.{CodeRow, match_code}
use openclaw_memory_os.Auth.Recovery.Concurrent.{
  Calls, finish, step, run, overlapping, overlapping_twice,
}
use openclaw_memory_os.Prelude.Table.{lookup}
use openclaw_memory_os.Auth.Totp.{
  Crypto, verify_totp, totp_now, hotp, decode_secret, try_steps, clean_secret, truncate, six_digits,
  compare_digest, step_seconds,
}
use openclaw_memory_os.Auth.Totp.Window.{verify_totp-totp_now, verify_totp_sound}
use openclaw_memory_os.Auth.Password.{Hashing, verify_password, is_argon, salted_parts}
use openclaw_memory_os.Auth.Login.{
  Settings, Auth, World, verify_token, revoke_session, attempt_login, consume_code, second_factor,
  get_session_store, store_rejects_token,
}
use openclaw_memory_os.Auth.Login.Gate.{restart, verify_token_sound, verify_token-revoke_session}
use openclaw_memory_os.Auth.Login.Factors.{attempt_login_two_factors}
use openclaw_memory_os.Tests.Data.{platform, differ}

-- Four failures of one client, a second apart, and then none for a while.
abbrev four_failures : Limiter
four_failures = record {
  attempts = ("10.0.0.1", 1_000_000 ∷ 2_000_000 ∷ 3_000_000 ∷ 4_000_000 ∷ []) ∷ [];
  locked_until = [];
}

abbrev client : String
client = "10.0.0.1"

abbrev other_client : String
other_client = "10.0.0.2"

is_limited_iff_example : (is_limited four_failures client 5_000_000).1 ≡ false
unfolding lookup
is_limited_iff_example = is_limited_iff four_failures client 5_000_000

locked_until-record_failure_example :
    lookup client (record_failure four_failures client 5_000_000).locked_until
    ≡ some (5_000_000 + lockout_5)
unfolding lookup
locked_until-record_failure_example = locked_until-record_failure four_failures client 5_000_000

-- The lockout ends ten seconds from the moment of the next failure.
abbrev locked_out : Limiter
locked_out = record four_failures { locked_until = (client, 15_000_000) ∷ [] }

-- A verifier that compares texts.
abbrev same_text : String → String → Bool
same_text hash code = hash == code

abbrev unused_code : String → CodeRow
unused_code h = record { code_hash = h; used = 0; used_at = none }

abbrev two_codes : List CodeRow
two_codes = unused_code "aaaa" ∷ unused_code "bbbb" ∷ []

abbrev one_used : List CodeRow
one_used = record { code_hash = "aaaa"; used = 1; used_at = some 7 } ∷ unused_code "bbbb" ∷ []

-- Two calls have found the first code, and one of them marks it.
abbrev two_calls : Calls
two_calls = record { rows = two_codes; waiting = (1, "aaaa") ∷ (2, "aaaa") ∷ []; accepted = 0 }

abbrev one_done : Calls
one_done = run same_text [] (step same_text (finish 1 7) two_calls)

overlapping_twice_example :
    (run same_text
      (overlapping same_text "aaaa" 7 8)
      (record { rows = two_codes; waiting = []; accepted = 0 })).accepted
    ≡ 2
unfolding match_code
overlapping_twice_example = overlapping_twice same_text "aaaa" "aaaa" 7 8 two_codes refl

abbrev crypto : Crypto
crypto = record {
  hmac_sha1 = λ key c. c ∷ 1 ∷ 2 ∷ 3 ∷ 0 ∷ [];
  b32decode = λ s. some s;
  isdigit = λ c. leb 48 c && leb c 57;
}

abbrev secret : Text
secret = codes "abc"

-- The code of the fourth step.
abbrev shown_code : Text
shown_code = codes "397699"

verify_totp-totp_now_example : verify_totp crypto shown_code secret 130 ≡ ok true
unfolding totp_now decode_secret hotp truncate six_digits clean_secret is_space strip
verify_totp-totp_now_example =
    verify_totp-totp_now crypto (λ c lo hi. ground arith) secret 95 130 shown_code refl refl
      (omega arith) (omega arith) (omega arith)

verify_totp_sound_example :
    (key : List ℕ) × (c : ℕ) × (decode_secret crypto secret ≡ ok key)
    × (strip shown_code ≡ hotp crypto key c)
    × (c ≤ 130 / step_seconds + 1)
    × (130 / step_seconds ≤ c + 1)
unfolding decode_secret hotp truncate six_digits clean_secret strip is_space verify_totp try_steps
    compare_digest
verify_totp_sound_example = verify_totp_sound crypto shown_code secret 130 refl

abbrev hashing : Hashing
hashing = record { argon_verify = λ e s. false; sha256 = λ s. s }

abbrev accented : Text
accented = 228 ∷ codes "bc"

abbrev settings : Settings
settings = record {
  auth_enabled = true;
  token = "bearer";
  password = codes "pass";
  totp_secret = secret;
  password_totp_auth = true;
}

abbrev world : World
world = record { opens = true; works = true; now = 130_000_000 }

abbrev auth : Auth
auth = record {
  revoked_sessions = [];
  opened = true;
  sessions = new_row platform "laptop" 600 5 none ∷ [];
  codes = two_codes;
}

verify_token_sound_example :
    (("laptop" ≡ settings.token) × (settings.token ≢ ""))
    ⊎ (Sessions.is_valid platform auth.sessions (some "laptop") world.now ≡ ok true)
unfolding verify_token store_rejects_token Sessions.is_valid Sessions.find Sessions.unexpired
    Sessions.add_seconds
verify_token_sound_example = verify_token_sound platform world settings auth "laptop" refl refl

abbrev signed_out : Auth
signed_out = record auth {
  revoked_sessions = "laptop" ∷ [];
  sessions = record (new_row platform "laptop" 600 5 none) { revoked = 1 } ∷ [];
}

verify_token-revoke_session_example :
    ((verify_token platform world settings signed_out (some "laptop")).1 ≡ false)
    × ("laptop" ≢ settings.token
        → (verify_token platform world settings (restart platform signed_out) (some "laptop")).1
          ≡ false)
unfolding revoke_session get_session_store Sessions.revoke Sessions.revoke_where
verify_token-revoke_session_example =
    verify_token-revoke_session platform world world settings auth signed_out "laptop" refl
      (differ "laptop" "" refl) refl

attempt_login_two_factors_example :
    (verify_password hashing (codes "pass") (some settings.password) ≡ ok true)
    × (((verify_totp crypto shown_code settings.totp_secret 130 ≡ ok true) × (auth ≡ auth))
        ⊎ (consume_code platform same_text world auth "" ≡ (auth, true)))
unfolding attempt_login second_factor verify_password is_argon salted_parts verify_totp try_steps
    compare_digest decode_secret hotp truncate six_digits clean_secret is_space strip
attempt_login_two_factors_example =
    attempt_login_two_factors platform crypto hashing same_text world settings auth auth
      (codes "pass") shown_code "" "" refl refl refl refl refl refl
