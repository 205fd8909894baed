-- ===== src/Prelude/Count.antt =====
-- `collections.Counter`, the distinct keys of a dict, and loops over the entries of a dict.
use openclaw_memory_os.Prelude.{
  ℕ, zero, suc, ◌+◌, ◌≡◌, refl, ap, ◌∙◌, ◌≢◌, inl, inr, false, Option, none, some, List, [], ◌∷◌,
  ◌++◌, arith, Eq, ◌==◌, ==_iff, nat_eq, string_eq, list_eq, pair_eq, Bool-cases, or_else,
  if◌then◌else◌,
}
use openclaw_memory_os.Prelude.Table.{lookup, insert, remove, lookup-insert, lookup-remove}

abbrev pub unless_zero : ℕ → Option ℕ
unless_zero zero = none
unless_zero (suc n) = some (suc n)

unless_zero-or_else : (o : Option ℕ) → o ≢ some 0 → o ≡ unless_zero (or_else o 0)
unless_zero-or_else none h = refl
unless_zero-or_else (some zero) h = absurd (h refl)
unless_zero-or_else (some (suc n)) h = refl

module _ {ℓ} {A : Type ℓ} ⦃e : Eq A⦄ where
  unfoldable pub count : A → List A → ℕ
  count a [] = 0
  count a (x ∷ xs) = (if x == a then 1 else 0) + count a xs

  unfoldable tally : List A → List (A × ℕ) → List (A × ℕ)
  tally [] m = m
  tally (x ∷ xs) m = tally xs (insert x (suc (or_else (lookup x m) 0)) m)

  -- `Counter(xs)`
  unfoldable pub counter : List A → List (A × ℕ)
  unfolding tally
  counter xs = tally xs []

  module _ {κ} {V : Type κ} where
    abbrev pub IsUnique : List (A × V) → Type κ
    IsUnique [] = Unit
    IsUnique ((k, v) ∷ m) = (lookup k m ≡ none) × IsUnique m

    insert_absent :
        (j k : A) (v : V) (m : List (A × V))
        → (j == k) ≡ false
        → lookup j m ≡ none
        → lookup j (insert k v m) ≡ none
    insert_absent j k v m p h = ground (arith, lookup-insert k j v m, ==_iff j k, ==_iff k j)

    remove_absent : (j k : A) (m : List (A × V)) → lookup j m ≡ none → lookup j (remove k m) ≡ none
    remove_absent j k m h = ground (arith, lookup-remove k j m)

    pub insert-IsUnique : (k : A) (v : V) (m : List (A × V)) → IsUnique m → IsUnique (insert k v m)
    unfolding lookup insert
    insert-IsUnique k v [] u = (refl, tt)
    insert-IsUnique k v ((j, w) ∷ m) (h, u) = elim (Bool-cases (j == k)) [
      | inl p ↦ rw p (h, u)
      | inr p ↦ rw p (insert_absent j k v m p h, insert-IsUnique k v m u)
    ]

    pub remove-IsUnique : (k : A) (m : List (A × V)) → IsUnique m → IsUnique (remove k m)
    unfolding lookup remove
    remove-IsUnique k [] u = tt
    remove-IsUnique k ((j, w) ∷ m) (h, u) = elim (Bool-cases (j == k)) [
      | inl p ↦ rw p (remove-IsUnique k m u)
      | inr p ↦ rw p (remove_absent j k m h, remove-IsUnique k m u)
    ]

    -- A new key goes to the end.
    pub insert-append :
        (k : A) (v : V) (m : List (A × V)) → lookup k m ≡ none → insert k v m ≡ m ++ ((k, v) ∷ [])
    unfolding lookup insert
    insert-append k v [] h = refl
    insert-append k v ((j, w) ∷ m) h = ground (arith, insert-append k v m)

  tally-lookup :
      (a : A) (xs : List A) (m : List (A × ℕ))
      → or_else (lookup a (tally xs m)) 0 ≡ count a xs + or_else (lookup a m) 0
  unfolding tally count
  tally-lookup a [] m = omega arith
  tally-lookup a (x ∷ xs) m = ground (
    arith,
    tally-lookup a xs (insert x (suc (or_else (lookup x m) 0)) m),
    lookup-insert x a (suc (or_else (lookup x m) 0)) m,
    ==_iff x a,
  )

  -- No entry is zero.
  abbrev AllPositive : List (A × ℕ) → Type ℓ
  AllPositive m = (a : A) → lookup a m ≢ some 0

  tally-AllPositive : (xs : List A) (m : List (A × ℕ)) → AllPositive m → AllPositive (tally xs m)
  unfolding tally
  tally-AllPositive [] m h = h
  tally-AllPositive (x ∷ xs) m h =
      tally-AllPositive xs _
        (λ a. λ e. ground (arith, h a, e, lookup-insert x a (suc (or_else (lookup x m) 0)) m))

  tally-IsUnique : (xs : List A) (m : List (A × ℕ)) → IsUnique m → IsUnique (tally xs m)
  unfolding tally
  tally-IsUnique [] m u = u
  tally-IsUnique (x ∷ xs) m u = tally-IsUnique xs _ (insert-IsUnique x _ m u)

  pub counter-IsUnique : (xs : List A) → IsUnique (counter xs)
  unfolding counter
  counter-IsUnique xs = tally-IsUnique xs [] tt

  pub lookup-counter : (a : A) (xs : List A) → lookup a (counter xs) ≡ unless_zero (count a xs)
  unfolding counter lookup
  lookup-counter a xs =
      unless_zero-or_else (lookup a (tally xs [])) (tally-AllPositive xs [] (λ b. λ e. cc) a)
      ∙ ap (λ n. unless_zero n) (ground (arith, tally-lookup a xs []))

-- What an entry of a dict, if there is one, makes of a value.
abbrev pub updated {μ} : {V : Type μ} → (ℕ → V → V) → Option ℕ → V → V
updated f none v = v
updated f (some n) v = f n v

-- `for a, n in m.items(): ...`
abbrev pub for_each {ℓ κ} : {A : Type ℓ} {S : Type κ} → (A → ℕ → S → S) → List (A × ℕ) → S → S
for_each step [] s = s
for_each step ((a, n) ∷ m) s = for_each step m (step a n s)

-- If each entry changes what a state says of its own key only, the loop makes one change for each
-- key of the dict.
module _ {ℓ κ μ} {A : Type ℓ} {S : Type κ} {V : Type μ} ⦃e : Eq A⦄ where
  pub for_each_lem :
      (view : A → S → V) (step : A → ℕ → S → S) (f : ℕ → V → V)
      → ((a b : A) (n : ℕ) (s : S)
          → view b (step a n s) ≡ (if a == b then f n (view b s) else view b s))
      → (b : A) (m : List (A × ℕ)) (s : S) → IsUnique m
      → view b (for_each step m s) ≡ updated f (lookup b m) (view b s)
  unfolding lookup
  for_each_lem view step f law b [] s u = refl
  for_each_lem view step f law b ((a, n) ∷ m) s (h, u) =
      ground (arith, for_each_lem view step f law b m (step a n s), law a b n s, ==_iff a b)

-- What no step of the loop changes, the loop does not change.
pub for_each-keeps {ℓ κ μ} :
    {A : Type ℓ} {S : Type κ} {V : Type μ} (step : A → ℕ → S → S) (part : S → V)
    → ((a : A) (n : ℕ) (s : S) → part (step a n s) ≡ part s)
    → (m : List (A × ℕ)) (s : S) → part (for_each step m s) ≡ part s
for_each-keeps step part h [] s = refl
for_each-keeps step part h ((a, n) ∷ m) s = for_each-keeps step part h m (step a n s) ∙ h a n s
