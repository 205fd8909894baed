-- ===== src/Auth/Password.antt =====
-- `verify_password` of openclaw_memory_os/auth.py. Argon2's check and the digest of a text are
-- arguments.
use openclaw_memory_os.Prelude.{
  ℕ, ◌≡◌, Bool, false, ◌&&◌, ◌||◌, Option, none, some, [], ◌∷◌, ◌++◌, arith, nat_eq, string_eq,
  or_else, if◌then◌else◌, type_error, Result, ok, err,
}
use openclaw_memory_os.Prelude.Text.{
  Text, codes, starts_with, strip, is_empty, contains_char, before_char, after_char,
}
use openclaw_memory_os.Auth.Totp.{compare_digest, is_ascii}

pub record Hashing : Type 0 where
  pub argon_verify : Text → Text → Bool
  pub sha256 : Text → Text

abbrev dollar : ℕ
dollar = b'$'

unfoldable pub is_argon : Text → Bool
is_argon expected =
    starts_with expected (codes "$argon2id$") || starts_with expected (codes "$argon2i$")

-- `expected.split("$", 2)[1:]` of a text with the prefix `sha256$`, if it has three parts.
unfoldable pub salted_parts : Text → Option (Text × Text)
salted_parts expected =
    let rest = after_char dollar expected in
    if starts_with expected (codes "sha256$") && contains_char dollar rest
    then some (before_char dollar rest, after_char dollar rest)
    else none

abbrev check_legacy : Hashing → Text → Text → Option (Text × Text) → Result Bool
check_legacy h expected submitted none = compare_digest submitted expected
check_legacy h expected submitted (some (salt, digest)) =
    compare_digest (h.sha256 (salt ++ (b':' ∷ submitted))) digest

unfoldable pub verify_password : Hashing → Text → Option Text → Result Bool
unfolding is_argon salted_parts
verify_password h submitted configured =
    let expected = strip (or_else configured []) in
    if is_empty expected || is_empty submitted
    then ok false
    else if is_argon expected
    then ok (h.argon_verify expected submitted)
    else check_legacy h expected submitted (salted_parts expected)

-- With a password that is stored as plain text and has a character outside ASCII, the check raises
-- on every submission that is not empty.
pub plain_password_raises :
    (h : Hashing) (submitted configured : Text)
    → is_empty submitted ≡ false
    → is_empty (strip configured) ≡ false
    → is_argon (strip configured) ≡ false
    → salted_parts (strip configured) ≡ none
    → is_ascii (strip configured) ≡ false
    → verify_password h submitted (some configured) ≡ err type_error
unfolding verify_password compare_digest
plain_password_raises h submitted configured a b c d e = rw (b, a, c) (rw d (ground arith))
