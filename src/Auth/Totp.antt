-- ===== src/Auth/Totp.antt =====
-- The time-based codes of openclaw_memory_os/auth.py (RFC 4226 and 6238). HMAC-SHA1,
-- `base64.b32decode` and `str.isdigit` are arguments. Instants are seconds.
pub mod Window
use openclaw_memory_os.Prelude.{
  ℕ, zero, suc, ◌+◌, ◌-◌, ◌*◌, ◌/◌, ◌%◌, ◌^◌, Bool, true, false, ◌&&◌, ◌||◌, not, Option, none,
  some, List, ◌∷◌, ◌++◌, map, ltb, leb, ◌==◌, nat_eq, string_eq, if◌then◌else◌, length, keep,
  value_error, type_error, struct_error, Result, ok, err, [], ◌>>◌, ◌>>=◌,
}
use openclaw_memory_os.Prelude.Text.{Text, strip, is_empty, is_space}

pub record Crypto : Type 0 where
  pub hmac_sha1 : List ℕ → ℕ → List ℕ
  pub b32decode : Text → Option (List ℕ)
  pub isdigit : ℕ → Bool

abbrev pub step_seconds : ℕ
step_seconds = 30

abbrev byte_at : List ℕ → ℕ → ℕ
byte_at [] i = 0
byte_at (b ∷ bs) zero = b
byte_at (b ∷ bs) (suc i) = byte_at bs i

abbrev last_byte : List ℕ → ℕ
last_byte [] = 0
last_byte (b ∷ []) = b
last_byte (b ∷ bs) = last_byte bs

-- Dynamic truncation of the digest to 31 bits: `& 0x0F`, `& 0x7F` and `& 0xFF` as remainders, and the
-- disjoint fields joined by `|` as a sum.
unfoldable pub truncate : List ℕ → ℕ
truncate digest =
    let offset = last_byte digest % 16 in
    (byte_at digest offset % 128) * 2 ^ 24
    + (byte_at digest (offset + 1) % 256) * 2 ^ 16
    + (byte_at digest (offset + 2) % 256) * 2 ^ 8
    + byte_at digest (offset + 3) % 256

-- `str(n).zfill(6)` for n < 10 ** 6.
unfoldable pub six_digits : ℕ → Text
six_digits n =
    (48 + n / 100000 % 10)
    ∷ (48 + n / 10000 % 10)
    ∷ (48 + n / 1000 % 10)
    ∷ (48 + n / 100 % 10)
    ∷ (48 + n / 10 % 10)
    ∷ (48 + n % 10)
    ∷ []

-- `"".join(secret.split()).upper()` and the padding to a multiple of 8.
abbrev pub upper_ascii : ℕ → ℕ
upper_ascii c = if leb 97 c && leb c 122 then c - 32 else c

abbrev pub pad : ℕ → Text → Text
pad zero s = s
pad (suc n) s = pad n (s ++ (b'=' ∷ []))

unfoldable pub clean_secret : Text → Text
clean_secret secret =
    let cleaned = map upper_ascii (keep (λ c. not (is_space c)) secret) in
    pad ((8 - length cleaned % 8) % 8) cleaned

-- `hmac.compare_digest` on texts: a character that is not ASCII raises TypeError.
abbrev pub text_eqb : Text → Text → Bool
text_eqb [] [] = true
text_eqb (c ∷ s) (d ∷ t) = c == d && text_eqb s t
text_eqb _ _ = false

abbrev pub is_ascii : Text → Bool
is_ascii [] = true
is_ascii (c ∷ s) = ltb c 128 && is_ascii s

unfoldable pub compare_digest : Text → Text → Result Bool
compare_digest a b = if is_ascii a && is_ascii b then ok (text_eqb a b) else err type_error

abbrev pub all_digits : (ℕ → Bool) → Text → Bool
all_digits isdigit [] = true
all_digits isdigit (c ∷ s) = isdigit c && all_digits isdigit s

module _ (crypto : Crypto) where
  open crypto use {hmac_sha1, b32decode, isdigit}

  unfoldable pub decode_secret : Text → Result (List ℕ)
  unfolding clean_secret
  decode_secret secret = elim (b32decode (clean_secret secret)) [
    | none ↦ err value_error
    | some key ↦ ok key
  ]

  unfoldable pub hotp : List ℕ → ℕ → Text
  unfolding truncate six_digits
  hotp key counter = six_digits (truncate (hmac_sha1 key counter) % 10 ^ 6)

  unfoldable pub totp_now : Text → ℕ → Result Text
  totp_now secret now = do key ← decode_secret secret; ok (hotp key (now / step_seconds))

  -- `struct.pack(">Q", counter)` raises on the negative counter of the first step.
  abbrev at_step : List ℕ → Text → ℕ → ℕ → Result Bool
  at_step key submitted counter zero =
      if counter == 0 then err struct_error else compare_digest (hotp key (counter - 1)) submitted
  at_step key submitted counter (suc i) = compare_digest (hotp key (counter + i)) submitted

  -- The loop over the steps from -1 to +1, from the first that is left.
  unfoldable pub try_steps : List ℕ → Text → ℕ → List ℕ → Result Bool
  unfolding compare_digest
  try_steps key submitted counter [] = ok false
  try_steps key submitted counter (i ∷ is) = do
    hit ← at_step key submitted counter i
    let rest = try_steps key submitted counter is
    if hit then ok true else rest

  unfoldable pub verify_totp : Text → Text → ℕ → Result Bool
  verify_totp submitted secret now =
      if is_empty submitted || is_empty secret
      then ok false
      else (let s = strip submitted in
          if not (not (is_empty s) && all_digits isdigit s) || not (length s == 6)
          then ok false
          else (do
            key ← decode_secret secret
            try_steps key s (now / step_seconds) (0 ∷ 1 ∷ 2 ∷ [])))
