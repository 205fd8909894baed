-- ===== src/Auth/Totp/Window.antt =====
-- Which codes `verify_totp` accepts.
use openclaw_memory_os.Prelude.{
  ℕ, zero, suc, ◌+◌, ◌-◌, ◌/◌, ◌%◌, ◌^◌, ◌≤◌, ◌<◌, ◌≡◌, refl, sym, ◌⊎◌, inl, inr, Bool, true, false,
  List, [], ◌∷◌, arith, nat_eq, string_eq, if◌then◌else◌, length, All, Result, ok, err, ◌>>=◌,
}
use openclaw_memory_os.Prelude.Text.{Text, strip, is_empty, IsSolid, strip-solid, is_space-digit}
use openclaw_memory_os.Auth.Totp.{
  Crypto, step_seconds, truncate, six_digits, text_eqb, is_ascii, compare_digest, all_digits,
  decode_secret, hotp, totp_now, at_step, try_steps, verify_totp,
}

text_eqb_refl : (s : Text) → text_eqb s s ≡ true
text_eqb_refl [] = refl
text_eqb_refl (c ∷ s) = ground (arith, text_eqb_refl s)

abbrev IsDigit : ℕ → Type 0
IsDigit c = (48 ≤ c) × (c ≤ 57)

abbrev AllDigits : Text → Type 0
AllDigits [] = Unit
AllDigits (c ∷ s) = (48 ≤ c) × (c ≤ 57) × AllDigits s

six_digits-AllDigits : (n : ℕ) → AllDigits (six_digits n)
unfolding six_digits
six_digits-AllDigits n = omega arith

AllDigits-IsSolid : (s : Text) → AllDigits s → IsSolid s
AllDigits-IsSolid [] h = tt
AllDigits-IsSolid (c ∷ s) (lo, hi, h) = (is_space-digit c lo hi, AllDigits-IsSolid s h)

AllDigits-ascii : (s : Text) → AllDigits s → is_ascii s ≡ true
AllDigits-ascii [] h = refl
AllDigits-ascii (c ∷ s) (lo, hi, h) = ground (arith, AllDigits-ascii s h)

text_eqb-eq : (s t : Text) → text_eqb s t ≡ true → s ≡ t
text_eqb-eq [] [] h = refl
text_eqb-eq (c ∷ s) (d ∷ t) h = ground (arith, text_eqb-eq s t)
text_eqb-eq [] (d ∷ t) h = cc
text_eqb-eq (c ∷ s) [] h = cc

module _ (crypto : Crypto) where
  hotp-AllDigits : (key : List ℕ) (counter : ℕ) → AllDigits (hotp crypto key counter)
  unfolding hotp
  hotp-AllDigits key counter =
      six_digits-AllDigits (truncate (crypto.hmac_sha1 key counter) % 10 ^ 6)

  length-hotp : (key : List ℕ) (counter : ℕ) → length (hotp crypto key counter) ≡ 6
  unfolding hotp six_digits
  length-hotp key counter = refl

  compare-hotp :
      (key : List ℕ) (c d : ℕ)
      → compare_digest (hotp crypto key c) (hotp crypto key d)
        ≡ ok (text_eqb (hotp crypto key c) (hotp crypto key d))
  unfolding compare_digest
  compare-hotp key c d = rw (
    AllDigits-ascii (hotp crypto key c) (hotp-AllDigits key c),
    AllDigits-ascii (hotp crypto key d) (hotp-AllDigits key d),
  )

  -- The loop finds the code of a step that it goes over.
  try_steps-hotp :
      (key : List ℕ) (n c : ℕ)
      → 0 < n
      → (c ≡ n - 1) ⊎ ((c ≡ n) ⊎ (c ≡ n + 1))
      → try_steps crypto key (hotp crypto key c) n (0 ∷ 1 ∷ 2 ∷ []) ≡ ok true
  unfolding try_steps
  try_steps-hotp key n c pos near = ground (
    arith,
    compare-hotp key (n - 1) c,
    compare-hotp key n c,
    compare-hotp key (n + 1) c,
    text_eqb_refl (hotp crypto key c),
  )

  all_digits-true :
      (s : Text)
      → ((c : ℕ) → 48 ≤ c → c ≤ 57 → crypto.isdigit c ≡ true)
      → AllDigits s
      → all_digits crypto.isdigit s ≡ true
  all_digits-true [] f h = refl
  all_digits-true (c ∷ s) f (lo, hi, h) = rw (f c lo hi) (all_digits-true s f h)

  totp_now-key :
      (secret : Text) (t : ℕ) (code : Text)
      → totp_now crypto secret t ≡ ok code
      → (key : List ℕ) × (decode_secret crypto secret ≡ ok key)
        × (code ≡ hotp crypto key (t / step_seconds))
  unfolding totp_now
  totp_now-key secret t code h = ground arith

  not_empty : (s : Text) → length s ≡ 6 → is_empty s ≡ false
  not_empty [] h = absurd (omega arith)
  not_empty (c ∷ s) h = refl

  near : (c n : ℕ) → c ≤ n + 1 → n ≤ c + 1 → (c ≡ n - 1) ⊎ ((c ≡ n) ⊎ (c ≡ n + 1))
  near c n a b = grind arith

  accept :
      (s secret : Text) (now : ℕ) (key : List ℕ)
      → is_empty s ≡ false
      → is_empty secret ≡ false
      → strip s ≡ s
      → all_digits crypto.isdigit s ≡ true
      → length s ≡ 6
      → decode_secret crypto secret ≡ ok key
      → try_steps crypto key s (now / step_seconds) (0 ∷ 1 ∷ 2 ∷ []) ≡ ok true
      → verify_totp crypto s secret now ≡ ok true
  unfolding verify_totp
  accept s secret now key a b c d e f g = rw (a, b, c, d) (rw e (rw f (rw a g)))

  -- For a secret that is not empty, and if `str.isdigit` knows the ten digits, the code that
  -- `totp_now` shows at one moment is accepted at any other whose 30-second step is the same, the
  -- one before or the one after, from the second step of the epoch on.
  pub verify_totp-totp_now :
      ((c : ℕ) → 48 ≤ c → c ≤ 57 → crypto.isdigit c ≡ true)
      → (secret : Text) (shown_at now : ℕ) (code : Text) → is_empty secret ≡ false
      → totp_now crypto secret shown_at ≡ ok code
      → 0 < now / step_seconds
      → shown_at / step_seconds ≤ now / step_seconds + 1
      → now / step_seconds ≤ shown_at / step_seconds + 1
      → verify_totp crypto code secret now ≡ ok true
  verify_totp-totp_now digits secret shown_at now code named shown pos a b =
      let (key, d, e) = totp_now-key secret shown_at code shown in
      let c = shown_at / step_seconds in
      let shape = hotp-AllDigits key c in
      rw e (
        accept (hotp crypto key c) secret now key
          (not_empty (hotp crypto key c) (length-hotp key c)) named
          (strip-solid (hotp crypto key c) (AllDigits-IsSolid (hotp crypto key c) shape))
          (all_digits-true (hotp crypto key c) digits shape) (length-hotp key c) d
          (try_steps-hotp key (now / step_seconds) c pos (near c (now / step_seconds) a b)))

  hit_or_not :
      (m rest : Result Bool)
      → (m >>= λ hit. if hit then ok true else rest) ≡ ok true
      → (m ≡ ok true) ⊎ (rest ≡ ok true)
  hit_or_not (ok true) rest h = inl refl
  hit_or_not (ok false) rest h = inr h
  hit_or_not (err e) rest h = absurd (cc)

  abbrev Near : List ℕ → Text → ℕ → Type 0
  Near key s n = (c : ℕ) × (s ≡ hotp crypto key c) × (c ≤ n + 1) × (n ≤ c + 1)

  compare-eq : (a b : Text) → compare_digest a b ≡ ok true → a ≡ b
  unfolding compare_digest
  compare-eq a b h = ground (arith, text_eqb-eq a b)

  at_step-Near :
      (key : List ℕ) (s : Text) (n i : ℕ)
      → i ≤ 2
      → at_step crypto key s n i ≡ ok true
      → Near key s n
  at_step-Near key s n zero b h = (
    n - 1,
    sym (compare-eq (hotp crypto key (n - 1)) s (ground arith)),
    ground arith,
    ground arith,
  )
  at_step-Near key s n (suc i) b h =
      (n + i, sym (compare-eq (hotp crypto key (n + i)) s h), omega arith, omega arith)

  try_steps-Near :
      (key : List ℕ) (s : Text) (n : ℕ) (is : List ℕ)
      → All (λ i. i ≤ 2) is
      → try_steps crypto key s n is ≡ ok true
      → Near key s n
  unfolding try_steps
  try_steps-Near key s n [] b h = absurd (cc)
  try_steps-Near key s n (i ∷ is) b h =
      elim (hit_or_not (at_step crypto key s n i) (try_steps crypto key s n is) h) [
        | inl e ↦ at_step-Near key s n i b.0 e
        | inr e ↦ try_steps-Near key s n is b.1 e
      ]

  accepted :
      (submitted secret : Text) (now : ℕ)
      → verify_totp crypto submitted secret now ≡ ok true
      → (key : List ℕ) × (decode_secret crypto secret ≡ ok key)
        × (try_steps crypto key (strip submitted) (now / step_seconds) (0 ∷ 1 ∷ 2 ∷ []) ≡ ok true)
  unfolding verify_totp
  accepted submitted secret now h = ground arith

  -- A code that is accepted is, white space at its ends aside, the code of the present 30-second
  -- step, of the one before or of the one after.
  pub verify_totp_sound :
      (submitted secret : Text) (now : ℕ)
      → verify_totp crypto submitted secret now ≡ ok true
      → (key : List ℕ) × (c : ℕ) × (decode_secret crypto secret ≡ ok key)
        × (strip submitted ≡ hotp crypto key c)
        × (c ≤ now / step_seconds + 1)
        × (now / step_seconds ≤ c + 1)
  verify_totp_sound submitted secret now h =
      let (key, d, t) = accepted submitted secret now h in
      let (c, e, lo, hi) =
        try_steps-Near key (strip submitted) (now / step_seconds) _ (omega arith) t in
      (key, c, d, e, lo, hi)
