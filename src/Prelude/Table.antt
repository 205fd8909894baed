-- ===== src/Prelude/Table.antt =====
-- A Python `dict`, as an association list without repeated keys, in insertion order.
use mathlib.Core.Path.{◌≡◌, refl}
use mathlib.Core.Logic.{◌≢◌}
use mathlib.Core.List.{List, [], ◌∷◌}
use mathlib.Core.Option.{Option, none, some}
use native.Mathlib.Omega.{arith}
use openclaw_memory_os.Prelude.Tests.{Eq, ◌==◌, ==_iff, if◌then◌else◌}

module _ {ℓ κ} {K : Type ℓ} {V : Type κ} ⦃e : Eq K⦄ where
  -- d.get(k)
  unfoldable pub lookup : K → List (K × V) → Option V
  lookup k [] = none
  lookup k ((j, v) ∷ m) = if j == k then some v else lookup k m

  -- d[k] = v: a key that is there keeps its place.
  unfoldable pub insert : K → V → List (K × V) → List (K × V)
  insert k v [] = (k, v) ∷ []
  insert k v ((j, w) ∷ m) = if j == k then (j, v) ∷ m else (j, w) ∷ insert k v m

  -- d.pop(k, None)
  unfoldable pub remove : K → List (K × V) → List (K × V)
  remove k [] = []
  remove k ((j, v) ∷ m) = if j == k then remove k m else (j, v) ∷ remove k m

  module _ (changed asked : K) where
    pub lookup-insert :
        (new : V) (table : List (K × V))
        → lookup asked (insert changed new table)
          ≡ (if changed == asked then some new else lookup asked table)
    unfolding lookup insert
    lookup-insert new [] = refl
    lookup-insert new ((there, old) ∷ table) = ground (
      arith,
      lookup-insert new table,
      ==_iff there changed,
      ==_iff there asked,
      ==_iff changed asked,
    )

    pub lookup-remove :
        (table : List (K × V))
        → lookup asked (remove changed table)
          ≡ (if changed == asked then none else lookup asked table)
    unfolding lookup remove
    lookup-remove [] = ground arith
    lookup-remove ((there, old) ∷ table) =
        ground (
          arith,
          lookup-remove table,
          ==_iff there changed,
          ==_iff there asked,
          ==_iff changed asked,
        )

    pub lookup-insert_ne :
        (new : V) (table : List (K × V))
        → changed ≢ asked
        → lookup asked (insert changed new table) ≡ lookup asked table
    lookup-insert_ne new table h = rw lookup-insert (ground (arith, ==_iff changed asked))

  pub remove-missing :
      (k : K) (table : List (K × V)) → lookup k table ≡ none → remove k table ≡ table
  unfolding lookup remove
  remove-missing k [] h = refl
  remove-missing k ((j, v) ∷ table) h = ground (arith, remove-missing k table)
