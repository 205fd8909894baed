-- ===== src/Lexical/Regex.antt =====
-- Python's `re` as far as openclaw_memory_os/lexical.py uses it: character classes, sequences,
-- optional and repeated parts, word boundaries, the leftmost match, greedy parts first.
use openclaw_memory_os.Prelude.{
  ℕ, zero, suc, ◌-◌, Bool, false, not, Option, none, some, List, [], ◌∷◌, ◌++◌, nat_eq, nat_eqb,
  string_eq, list_eq, if◌then◌else◌, length, take,
}
use openclaw_memory_os.Prelude.Text.{Text}

pub data Regex : Type 0 where
  one : (ℕ → Bool) → Regex
  seq : Regex → Regex → Regex
  opt : Regex → Regex
  plus : Regex → Regex
  boundary : Regex

-- A place in a text: the character before it, the text that follows, and how many characters the
-- match has used so far.
pub record Place : Type 0 where
  pub before : Option ℕ
  pub rest : Text
  pub used : ℕ

abbrev pub concat_map : {A B : Type 0} → (A → List B) → List A → List B
concat_map f [] = []
concat_map f (x ∷ xs) = f x ++ concat_map f xs

abbrev pub step_over : (ℕ → Bool) → (used : ℕ) → Text → List Place
step_over p used [] = []
step_over p used (c ∷ s) =
    if p c then record { before = some c; rest = s; used = suc used } ∷ [] else []

-- One or more repetitions, as many as there are first.
abbrev pub again : (Place → List Place) → (fuel : ℕ) → Place → List Place
again part zero place = []
again part (suc fuel) place = concat_map (λ q. again part fuel q ++ (q ∷ [])) (part place)

abbrev head : Text → Option ℕ
head [] = none
head (c ∷ s) = some c

abbrev holds : (ℕ → Bool) → Option ℕ → Bool
holds p none = false
holds p (some c) = p c

module _ (is_word : ℕ → Bool) where
  abbrev pub at_boundary : Place → Bool
  at_boundary place =
      if holds is_word place.before
      then not (holds is_word (head place.rest))
      else holds is_word (head place.rest)

  -- The places where a match that starts at a place can end, in the order in which they are tried.
  abbrev pub ends : Regex → Place → List Place
  ends (one p) place = step_over p place.used place.rest
  ends (seq a b) place = concat_map (ends b) (ends a place)
  ends (opt a) place = ends a place ++ (place ∷ [])
  ends (plus a) place = again (ends a) (length place.rest) place
  ends boundary place = if at_boundary place then place ∷ [] else []

  abbrev first_used : List Place → ℕ
  first_used [] = 0
  first_used (q ∷ qs) = q.used

  -- `skip` characters belong to the match before.
  abbrev scan : Regex → (skip : ℕ) → (before : Option ℕ) → Text → List Text
  scan r skip before [] = []
  scan r (suc skip) before (c ∷ s) = scan r skip (some c) s
  scan r zero before (c ∷ s) =
      let n = first_used (ends r (record { before = before; rest = c ∷ s; used = 0 })) in
      let rest = scan r (n - 1) (some c) s in if nat_eqb n 0 then rest else take n (c ∷ s) ∷ rest

  -- `[m.group(0) for m in r.finditer(s)]`, for a pattern that does not match the empty text.
  unfoldable pub finditer : Regex → Text → List Text
  finditer r s = scan r 0 none s
