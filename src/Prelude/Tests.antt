-- ===== src/Prelude/Tests.antt =====
-- Boolean tests on numbers and texts, equality as an instance, and the conditional.
use Prim.Native.Nat.{ℕ, ◌<◌, compare, Ordering}
use Prim.Native.String.{String}
use mathlib.Core.Path.{◌≡◌, refl}
use mathlib.Core.Logic.{◌↔◌, ◌⊎◌, inl, inr}
use mathlib.Core.Bool.{Bool, true, false, ◌&&◌}
use mathlib.Core.List.{List, [], ◌∷◌}
use mathlib.Core.Option.{Option, none, some}
use native.Mathlib.Omega.{arith}
use text.Mathlib.Text.{◌==◌ as str_eq}
use text.Mathlib.TextEquality.{eq_iff}

abbrev pub ltb : ℕ → ℕ → Bool
ltb a b = elim (compare a b) [ Ordering.lt ↦ true | _ ↦ false ]

abbrev pub leb : ℕ → ℕ → Bool
leb a b = elim (compare a b) [ Ordering.gt ↦ false | _ ↦ true ]

abbrev pub nat_eqb : ℕ → ℕ → Bool
nat_eqb a b = elim (compare a b) [ Ordering.eq ↦ true | _ ↦ false ]

infix 1 if◌then◌else◌
abbrev pub if◌then◌else◌ {ℓ} : {A : Type ℓ} → Bool → A → A → A
if true then x else y = x
if false then x else y = y

pub ltb→lt : (a b : ℕ) → ltb a b ≡ true → a < b
ltb→lt a b h = ground arith

pub lt→ltb : (a b : ℕ) → a < b → ltb a b ≡ true
lt→ltb a b h = ground arith

pub nat_eqb_iff : (a b : ℕ) → (nat_eqb a b ≡ true) ↔ (a ≡ b)
nat_eqb_iff a b = ground arith

-- Python's `==` on the keys of a dict or of a table.
pub record Eq {ℓ} (A : Type ℓ) : Type ℓ where
  pub same : A → A → Bool
  pub decides : (x y : A) → (same x y ≡ true) ↔ (x ≡ y)

infix 50 ◌==◌
abbrev pub ◌==◌ {ℓ} : {A : Type ℓ} ⦃e : Eq A⦄ → A → A → Bool
◌==◌ ⦃e⦄ = e.same

pub ==_iff {ℓ} : {A : Type ℓ} ⦃e : Eq A⦄ (a b : A) → ((a == b) ≡ true) ↔ (a ≡ b)
==_iff ⦃e⦄ a b = e.decides a b

pub ==_refl {ℓ} : {A : Type ℓ} ⦃e : Eq A⦄ (a : A) → (a == a) ≡ true
==_refl ⦃e⦄ a = (e.decides a a).1 refl

instance abbrev pub nat_eq : Eq ℕ
nat_eq = record { same = nat_eqb; decides = nat_eqb_iff }

instance abbrev pub string_eq : Eq String
string_eq = record { same = str_eq; decides = eq_iff }

abbrev pub list_eqb {ℓ} : {A : Type ℓ} ⦃e : Eq A⦄ → List A → List A → Bool
list_eqb [] [] = true
list_eqb [] (y ∷ ys) = false
list_eqb (x ∷ xs) [] = false
list_eqb (x ∷ xs) (y ∷ ys) = x == y && list_eqb xs ys

pub list_eqb_iff {ℓ} :
    {A : Type ℓ} ⦃e : Eq A⦄ (xs ys : List A) → (list_eqb xs ys ≡ true) ↔ (xs ≡ ys)
list_eqb_iff [] [] = ground arith
list_eqb_iff [] (y ∷ ys) = ground arith
list_eqb_iff (x ∷ xs) [] = ground arith
list_eqb_iff (x ∷ xs) (y ∷ ys) = ground (arith, ==_iff x y, list_eqb_iff xs ys)

instance abbrev pub list_eq {ℓ} : {A : Type ℓ} ⦃e : Eq A⦄ → Eq (List A)
list_eq = record { same = list_eqb; decides = list_eqb_iff }

abbrev pub pair_eqb {ℓ κ} : {A : Type ℓ} {B : Type κ} ⦃a : Eq A⦄ ⦃b : Eq B⦄ → A × B → A × B → Bool
pair_eqb (x, y) (x', y') = x == x' && y == y'

pub pair_eqb_iff {ℓ κ} :
    {A : Type ℓ} {B : Type κ} ⦃a : Eq A⦄ ⦃b : Eq B⦄ (p q : A × B) → (pair_eqb p q ≡ true) ↔ (p ≡ q)
pair_eqb_iff (x, y) (x', y') = ground (arith, ==_iff x x', ==_iff y y')

instance abbrev pub pair_eq {ℓ κ} : {A : Type ℓ} {B : Type κ} ⦃a : Eq A⦄ ⦃b : Eq B⦄ → Eq (A × B)
pair_eq = record { same = pair_eqb; decides = pair_eqb_iff }

pub Bool-cases : (b : Bool) → (b ≡ true) ⊎ (b ≡ false)
Bool-cases true = inl refl
Bool-cases false = inr refl

pub Option-cases {ℓ} : {A : Type ℓ} (o : Option A) → (o ≡ none) ⊎ ((a : A) × (o ≡ some a))
Option-cases none = inl refl
Option-cases (some a) = inr (a, refl)

abbrev pub is_some {ℓ} : {A : Type ℓ} → Option A → Bool
is_some none = false
is_some (some a) = true

abbrev pub or_else {ℓ} : {A : Type ℓ} → Option A → A → A
or_else none d = d
or_else (some a) d = a
