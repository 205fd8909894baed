-- ===== src/Prelude/Text.antt =====
-- Text as a list of code points, with the string methods that the program calls.
use Prim.Native.Char.{code}
use openclaw_memory_os.Prelude.{
  ℕ, zero, suc, ◌≤◌, String, ◌≡◌, refl, Bool, true, false, ◌&&◌, ◌||◌, List, [], ◌∷◌, arith, leb,
  ◌==◌, nat_eq, string_eq, if◌then◌else◌,
}

abbrev pub Text : Type 0
Text = List ℕ

-- The code points of a native text.
abbrev pub codes : String → Text
codes String.[] = []
codes (String.◌∷◌ c s) = code c ∷ codes s

-- `s.startswith(t)`
abbrev pub starts_with : Text → Text → Bool
starts_with s [] = true
starts_with [] (d ∷ t) = false
starts_with (c ∷ s) (d ∷ t) = c == d && starts_with s t

-- The characters that `str.strip` removes: those with `str.isspace`.
unfoldable pub is_space : ℕ → Bool
is_space c =
    (leb 9 c && leb c 13)
    || (leb 28 c && leb c 32)
    || c == 133
    || c == 160
    || c == 5760
    || (leb 8192 c && leb c 8202)
    || c == 8232
    || c == 8233
    || c == 8239
    || c == 8287
    || c == 12288

abbrev pub is_empty : Text → Bool
is_empty [] = true
is_empty (c ∷ s) = false

unfoldable pub lstrip : Text → Text
unfolding is_space
lstrip [] = []
lstrip (c ∷ s) = if is_space c then lstrip s else c ∷ s

unfoldable pub rstrip : Text → Text
unfolding is_space
rstrip [] = []
rstrip (c ∷ s) = let r = rstrip s in if is_space c && is_empty r then [] else c ∷ r

unfoldable pub strip : Text → Text
unfolding lstrip rstrip
strip s = rstrip (lstrip s)

-- `c in s`
abbrev pub contains_char : ℕ → Text → Bool
contains_char c [] = false
contains_char c (d ∷ s) = d == c || contains_char c s

-- `s.partition(c)`, the parts before and after the first `c`.
abbrev pub before_char : ℕ → Text → Text
before_char c [] = []
before_char c (d ∷ s) = if d == c then [] else d ∷ before_char c s

abbrev pub after_char : ℕ → Text → Text
after_char c [] = []
after_char c (d ∷ s) = if d == c then s else after_char c s

-- `s[:n]` of a native text.
unfoldable pub prefix_chars : ℕ → String → String
prefix_chars zero s = String.[]
prefix_chars (suc n) String.[] = String.[]
prefix_chars (suc n) (String.◌∷◌ c s) = String.◌∷◌ c (prefix_chars n s)

-- A text without white space is not changed by `strip`.
abbrev pub IsSolid : Text → Type 0
IsSolid [] = Unit
IsSolid (c ∷ s) = (is_space c ≡ false) × IsSolid s

lstrip-solid : (s : Text) → IsSolid s → lstrip s ≡ s
unfolding lstrip
lstrip-solid [] h = refl
lstrip-solid (c ∷ s) h = rw h.0

rstrip-solid : (s : Text) → IsSolid s → rstrip s ≡ s
unfolding rstrip
rstrip-solid [] h = refl
rstrip-solid (c ∷ s) h = rw h.0 (rw (rstrip-solid s h.1))

pub strip-solid : (s : Text) → IsSolid s → strip s ≡ s
unfolding strip
strip-solid s h = rw (lstrip-solid s h) (rstrip-solid s h)

pub is_space-digit : (c : ℕ) → 48 ≤ c → c ≤ 57 → is_space c ≡ false
unfolding is_space
is_space-digit c lo hi = ground arith
