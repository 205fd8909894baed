-- ===== src/Lexical/Matching.antt =====
-- The repetitions of the matcher have enough fuel: a pattern that uses a character in every match
-- cannot be repeated more often than the text is long.
use openclaw_memory_os.Prelude.{
  ℕ, zero, suc, ◌≤◌, ◌<◌, ◌≡◌, refl, sym, ap, inl, inr, Bool, true, false, ◌||◌, List, [], ◌∷◌,
  ◌++◌, arith, nat_eq, string_eq, list_eq, pair_eq, Bool-cases, length,
}
use openclaw_memory_os.Prelude.Text.{Text}
use openclaw_memory_os.Lexical.Regex.{
  Regex, one, seq, opt, plus, boundary, Place, concat_map, step_over, again, at_boundary, ends,
}

-- Whether every match uses a character.
abbrev pub consumes : Regex → Bool
consumes (one p) = true
consumes (seq a b) = consumes a || consumes b
consumes (opt a) = false
consumes (plus a) = consumes a
consumes boundary = false

-- The places have at most so many characters left.
abbrev Within : ℕ → List Place → Type 0
Within n [] = Unit
Within n (q ∷ qs) = (length q.rest ≤ n) × Within n qs

-- The places have fewer characters left.
abbrev Below : ℕ → List Place → Type 0
Below n [] = Unit
Below n (q ∷ qs) = (length q.rest < n) × Below n qs

Below-Within : (n : ℕ) (qs : List Place) → Below n qs → Within n qs
Below-Within n [] b = tt
Below-Within n (q ∷ qs) (h, b) = (omega arith, Below-Within n qs b)

Within-append : (n : ℕ) (ps qs : List Place) → Within n ps → Within n qs → Within n (ps ++ qs)
Within-append n [] qs a b = b
Within-append n (p ∷ ps) qs (h, a) b = (h, Within-append n ps qs a b)

Below-append : (n : ℕ) (ps qs : List Place) → Below n ps → Below n qs → Below n (ps ++ qs)
Below-append n [] qs a b = b
Below-append n (p ∷ ps) qs (h, a) b = (h, Below-append n ps qs a b)

Within-weaker : (m n : ℕ) (qs : List Place) → m ≤ n → Within m qs → Within n qs
Within-weaker m n [] l w = tt
Within-weaker m n (q ∷ qs) l (h, w) = (omega arith, Within-weaker m n qs l w)

Within-Below : (m n : ℕ) (qs : List Place) → m < n → Within m qs → Below n qs
Within-Below m n [] l w = tt
Within-Below m n (q ∷ qs) l (h, w) = (omega arith, Within-Below m n qs l w)

Below-weaker : (m n : ℕ) (qs : List Place) → m ≤ n → Below m qs → Below n qs
Below-weaker m n [] l w = tt
Below-weaker m n (q ∷ qs) l (h, w) = (omega arith, Below-weaker m n qs l w)

module _ (f : Place → List Place) where
  Within-concat :
      (n : ℕ) (qs : List Place)
      → ((q : Place) → Within (length q.rest) (f q))
      → Within n qs
      → Within n (concat_map f qs)
  Within-concat n [] h w = tt
  Within-concat n (q ∷ qs) h (l, w) =
      Within-append n (f q) _ (Within-weaker (length q.rest) n (f q) l (h q))
        (Within-concat n qs h w)

  Within-concat_Below :
      (n : ℕ) (qs : List Place)
      → ((q : Place) → Within (length q.rest) (f q))
      → Below n qs
      → Below n (concat_map f qs)
  Within-concat_Below n [] h w = tt
  Within-concat_Below n (q ∷ qs) h (l, w) =
      Below-append n (f q) _ (Within-Below (length q.rest) n (f q) l (h q))
        (Within-concat_Below n qs h w)

  Below-concat :
      (n : ℕ) (qs : List Place)
      → ((q : Place) → Below (length q.rest) (f q))
      → Within n qs
      → Below n (concat_map f qs)
  Below-concat n [] h w = tt
  Below-concat n (q ∷ qs) h (l, w) =
      Below-append n (f q) _ (Below-weaker (length q.rest) n (f q) l (h q)) (Below-concat n qs h w)

again-Within :
    (f : Place → List Place)
    → ((q : Place) → Within (length q.rest) (f q))
    → (fuel : ℕ) (place : Place) → Within (length place.rest) (again f fuel place)
again-Within f h zero place = tt
again-Within f h (suc fuel) place =
    Within-concat (λ q. again f fuel q ++ (q ∷ [])) (length place.rest) (f place)
      (λ q.
        Within-append (length q.rest) (again f fuel q) (q ∷ []) (again-Within f h fuel q)
          (omega arith, tt))
      (h place)

again-Below :
    (f : Place → List Place)
    → ((q : Place) → Below (length q.rest) (f q))
    → (fuel : ℕ) (place : Place) → Below (length place.rest) (again f fuel place)
again-Below f h zero place = tt
again-Below f h (suc fuel) place =
    Within-concat_Below (λ q. again f fuel q ++ (q ∷ [])) (length place.rest) (f place)
      (λ q.
        Within-append (length q.rest) (again f fuel q) (q ∷ [])
          (Below-Within (length q.rest) _ (again-Below f h fuel q)) (omega arith, tt))
      (h place)

step_over-Below : (p : ℕ → Bool) (used : ℕ) (s : Text) → Below (length s) (step_over p used s)
step_over-Below p used [] = tt
step_over-Below p used (c ∷ s) = elim (Bool-cases (p c)) [
  | inl e ↦ rw e (omega arith, tt)
  | inr e ↦ rw e tt
]

-- A function that agrees with another on the places has the same results.
concat_map-same :
    (f g : Place → List Place) (n : ℕ) (qs : List Place)
    → ((q : Place) → length q.rest < n → f q ≡ g q)
    → Below n qs
    → concat_map f qs ≡ concat_map g qs
concat_map-same f g n [] h b = refl
concat_map-same f g n (q ∷ qs) h (l, b) = rw (h q l, concat_map-same f g n qs h b) refl

nowhere :
    (f : Place → List Place) (fuel : ℕ) (qs : List Place) (n : ℕ)
    → n ≤ 0
    → Below n qs
    → concat_map (λ q. again f fuel q ++ (q ∷ [])) qs ≡ []
nowhere f fuel [] n l b = refl
nowhere f fuel (q ∷ qs) n l (h, b) = absurd (omega arith)

again-same :
    (f : Place → List Place)
    → ((q : Place) → Below (length q.rest) (f q))
    → (a b : ℕ) (place : Place) → length place.rest ≤ a
    → length place.rest ≤ b
    → again f a place ≡ again f b place
again-same f h zero zero place l m = refl
again-same f h zero (suc b) place l m =
    sym (nowhere f b (f place) (length place.rest) (omega arith) (h place))
again-same f h (suc a) zero place l m =
    nowhere f a (f place) (length place.rest) (omega arith) (h place)
again-same f h (suc a) (suc b) place l m =
    concat_map-same (λ q. again f a q ++ (q ∷ [])) (λ q. again f b q ++ (q ∷ []))
      (length place.rest) (f place)
      (λ q. λ n. ap (λ ps. ps ++ (q ∷ [])) (again-same f h a b q (omega arith) (omega arith)))
      (h place)

module _ (is_word : ℕ → Bool) where
  ends-Within : (r : Regex) (place : Place) → Within (length place.rest) (ends is_word r place)
  ends-Within (one p) place =
      Below-Within (length place.rest) _ (step_over-Below p place.used place.rest)
  ends-Within (seq a b) place =
      Within-concat (ends is_word b) (length place.rest) (ends is_word a place) (ends-Within b)
        (ends-Within a place)
  ends-Within (opt a) place =
      Within-append (length place.rest) (ends is_word a place) (place ∷ []) (ends-Within a place)
        (omega arith, tt)
  ends-Within (plus a) place =
      again-Within (ends is_word a) (ends-Within a) (length place.rest) place
  ends-Within boundary place = elim (Bool-cases (at_boundary is_word place)) [
    | inl e ↦ rw e (omega arith, tt)
    | inr e ↦ rw e tt
  ]

  ends-Below :
      (r : Regex)
      → consumes r ≡ true
      → (place : Place) → Below (length place.rest) (ends is_word r place)
  ends-Below (one p) c place = step_over-Below p place.used place.rest
  ends-Below (seq a b) c place = elim (Bool-cases (consumes a)) [
    | inl e ↦
        Within-concat_Below (ends is_word b) (length place.rest) (ends is_word a place)
          (ends-Within b) (ends-Below a e place)
    | inr e ↦
        Below-concat (ends is_word b) (length place.rest) (ends is_word a place)
          (ends-Below b (ground arith)) (ends-Within a place)
  ]
  ends-Below (opt a) c place = cc
  ends-Below (plus a) c place =
      again-Below (ends is_word a) (ends-Below a c) (length place.rest) place
  ends-Below boundary c place = cc

  -- The repetitions of a pattern that uses a character in every match end: any fuel from the
  -- number of characters left on gives the matches that `plus` gives.
  pub again-enough :
      (a : Regex) (fuel : ℕ) (place : Place)
      → consumes a ≡ true
      → length place.rest ≤ fuel
      → again (ends is_word a) fuel place ≡ ends is_word (plus a) place
  again-enough a fuel place c l =
      again-same (ends is_word a) (ends-Below a c) fuel (length place.rest) place l (omega arith)
