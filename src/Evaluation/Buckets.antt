-- ===== src/Evaluation/Buckets.antt =====
-- The buckets of `split_cases` in openclaw_memory_os/evaluation.py as lists of cases, with the laws of lists that
-- the split needs.
use openclaw_memory_os.Prelude.{
  ℕ, zero, suc, ◌+◌, ◌≡◌, refl, sym, ap, ◌∙◌, inl, inr, Bool, true, false, List, [], ◌∷◌, ◌++◌,
  arith, nat_eq, string_eq, list_eq, pair_eq, Bool-cases, if◌then◌else◌, keep,
}
use openclaw_memory_os.Prelude.Text.{Text}
use openclaw_memory_os.Prelude.Count.{count}
use openclaw_memory_os.Evaluation.{Case}
use openclaw_memory_os.Evaluation.Split.{Split, Bucket, to_train, to_validation, to_test, append_to}

abbrev pub contents : Bucket → Split → List Case
contents to_train s = s.train
contents to_validation s = s.validation
contents to_test s = s.test

abbrev pub same_bucket : Bucket → Bucket → Bool
same_bucket to_train to_train = true
same_bucket to_validation to_validation = true
same_bucket to_test to_test = true
same_bucket _ _ = false

pub same_bucket_refl : (b : Bucket) → same_bucket b b ≡ true
same_bucket_refl to_train = refl
same_bucket_refl to_validation = refl
same_bucket_refl to_test = refl

pub same_bucket→eq : (a b : Bucket) → same_bucket a b ≡ true → a ≡ b
same_bucket→eq to_train to_train h = refl
same_bucket→eq to_validation to_validation h = refl
same_bucket→eq to_test to_test h = refl
same_bucket→eq to_train to_validation h = ground arith
same_bucket→eq to_train to_test h = ground arith
same_bucket→eq to_validation to_train h = ground arith
same_bucket→eq to_validation to_test h = ground arith
same_bucket→eq to_test to_train h = ground arith
same_bucket→eq to_test to_validation h = ground arith

pub append_assoc : {A : Type 0} (xs ys zs : List A) → xs ++ ys ++ zs ≡ xs ++ (ys ++ zs)
append_assoc [] ys zs = refl
append_assoc (x ∷ xs) ys zs = ap (λ t. x ∷ t) (append_assoc xs ys zs)

pub append_nil : {A : Type 0} (xs : List A) → xs ++ [] ≡ xs
append_nil [] = refl
append_nil (x ∷ xs) = ap (λ t. x ∷ t) (append_nil xs)

pub keep-append :
    {A : Type 0} (p : A → Bool) (xs ys : List A) → keep p (xs ++ ys) ≡ keep p xs ++ keep p ys
keep-append p [] ys = refl
keep-append p (x ∷ xs) ys = elim (Bool-cases (p x)) [
  | inl h ↦ rw h (ap (λ t. x ∷ t) (keep-append p xs ys))
  | inr h ↦ rw h (keep-append p xs ys)
]

pub count-append : (t : Text) (xs ys : List Text) → count t (xs ++ ys) ≡ count t xs + count t ys
unfolding count
count-append t [] ys = omega arith
count-append t (x ∷ xs) ys = omega (arith, count-append t xs ys)

-- `xs` taken `n` times.
abbrev pub copies : {A : Type 0} → ℕ → List A → List A
copies zero xs = []
copies (suc n) xs = xs ++ copies n xs

pub copies-step :
    {A : Type 0} (hit : Bool) (xs ys : List A) (n : ℕ)
    → xs ++ (if hit then ys else []) ++ copies n ys ≡ xs ++ copies ((if hit then 1 else 0) + n) ys
copies-step true xs ys n = append_assoc xs ys (copies n ys) ∙ ap (λ m. xs ++ copies m ys) one_plus
  where
    one_plus : suc n ≡ 1 + n
    one_plus = omega arith
copies-step false xs ys n =
    ap (λ t. t ++ copies n ys) (append_nil xs) ∙ ap (λ m. xs ++ copies m ys) zero_plus
  where
    zero_plus : n ≡ 0 + n
    zero_plus = omega arith

pub copies-none : {A : Type 0} (n : ℕ) → copies {A = A} n [] ≡ []
copies-none zero = refl
copies-none (suc n) = copies-none n

pub copies-known :
    {A : Type 0} (known : Bool) (xs : List A)
    → (known ≡ false → xs ≡ [])
    → copies (if known then 1 else 0) xs ≡ xs
copies-known true xs h = append_nil xs
copies-known false xs h = sym (h refl)

pub contents-append_to :
    (a b : Bucket) (xs : List Case) (s : Split)
    → contents b (append_to a xs s) ≡ contents b s ++ (if same_bucket a b then xs else [])
contents-append_to to_train to_train xs s = refl
contents-append_to to_validation to_validation xs s = refl
contents-append_to to_test to_test xs s = refl
contents-append_to to_train to_validation xs s = sym (append_nil s.validation)
contents-append_to to_train to_test xs s = sym (append_nil s.test)
contents-append_to to_validation to_train xs s = sym (append_nil s.train)
contents-append_to to_validation to_test xs s = sym (append_nil s.test)
contents-append_to to_test to_train xs s = sym (append_nil s.train)
contents-append_to to_test to_validation xs s = sym (append_nil s.validation)
