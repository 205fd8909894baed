-- ===== src/Retrieval/Calibration.antt =====
-- The calibrated scores lie between 0 and 1.
use openclaw_memory_os.Prelude.{
  String, ◌≡◌, inl, inr, true, false, Option, none, some, List, [], ◌∷◌, arith, ◌==◌, nat_eq,
  string_eq, Bool-cases,
}
use openclaw_memory_os.Prelude.Floats.{Floats}
use openclaw_memory_os.Prelude.Table.{lookup, insert, lookup-insert}
use openclaw_memory_os.Retrieval.{
  Candidate, calibrate, fill, note_score, clip, calibrate_scores, at_most, least, greatest,
  scores_of,
}

module _ (floats : Floats) where
  open floats use {F, lit, sub, div, lt}

  -- What is used of the order.
  pub record IsUnitOrder : Type 0 where
    pub asymmetric : (x y : F) → lt x y ≡ true → lt y x ≡ false
    pub one_zero : lt (lit 10 1) (lit 0 1) ≡ false

  abbrev pub InUnit : F → Type 0
  InUnit v = (lt v (lit 0 1) ≡ false) × (lt (lit 10 1) v ≡ false)

  clip-InUnit : IsUnitOrder → (x : F) → InUnit (clip floats x)
  clip-InUnit o x = ground (
    arith,
    o.one_zero,
    o.asymmetric x (lit 10 1),
    o.asymmetric (lit 0 1) x,
    o.asymmetric (lit 0 1) (lit 10 1),
    o.asymmetric (lit 0 1) (lit 0 1),
    o.asymmetric (lit 10 1) (lit 10 1),
  )

  insert-InUnit :
      (key : String) (y : F) (t : List (String × F))
      → InUnit y
      → ((k : String) (v : F) → lookup k t ≡ some v → InUnit v)
      → (k : String) (v : F) → lookup k (insert key y t) ≡ some v
      → InUnit v
  insert-InUnit key y t unit h k v e = elim (Bool-cases (key == k)) [
    | inl p ↦ let q : some y ≡ some v = rw (lookup-insert key k y t, p) at e in ground arith
    | inr n ↦ h k v (rw (lookup-insert key k y t, n) at e)
  ]

  one-InUnit : IsUnitOrder → InUnit (lit 10 1)
  one-InUnit o = ground (arith, o.one_zero, o.asymmetric (lit 10 1) (lit 10 1))

  none-InUnit : (k : String) (v : F) → lookup k [] ≡ some v → InUnit v
  unfolding lookup
  none-InUnit k v e = ground arith

  note_score-InUnit :
      (key : String) (o : Option F) (f : F → F) (t : List (String × F))
      → ((x : F) → InUnit (f x))
      → ((k : String) (v : F) → lookup k t ≡ some v → InUnit v)
      → (k : String) (v : F) → lookup k (note_score floats key o f t) ≡ some v
      → InUnit v
  note_score-InUnit key none f t unit h = h
  note_score-InUnit key (some x) f t unit h = insert-InUnit key (f x) t (unit x) h

  fill-InUnit :
      (field : Candidate F → Option F) (f : F → F)
      → ((x : F) → InUnit (f x))
      → (cs : List (Candidate F)) (t : List (String × F))
      → ((k : String) (v : F) → lookup k t ≡ some v → InUnit v)
      → (k : String) (v : F) → lookup k (fill floats field f cs t) ≡ some v
      → InUnit v
  fill-InUnit field f unit [] t h = h
  fill-InUnit field f unit (c ∷ cs) t h =
      fill-InUnit field f unit cs (note_score floats c.candidate_key (field c) f t)
        (note_score-InUnit c.candidate_key (field c) f t unit h)

  scores-InUnit :
      IsUnitOrder
      → (field : Candidate F → Option F) (xs : List F) (cs : List (Candidate F)) (k : String)
        (v : F)
      → lookup k (calibrate_scores floats field xs cs) ≡ some v
      → InUnit v
  scores-InUnit o field [] cs k v e = none-InUnit k v e
  scores-InUnit o field (x ∷ xs) cs k v e =
      let lo = least floats x xs in
      let hi = greatest floats x xs in
      elim (Bool-cases (at_most floats (sub hi lo) (lit 1 9))) [
        | inl t ↦
            fill-InUnit field (λ y. lit 10 1) (λ y. one-InUnit o) cs [] none-InUnit k v (rw t at e)
        | inr f ↦
            fill-InUnit field (λ y. clip floats (div (sub y lo) (sub hi lo)))
              (λ y. clip-InUnit o (div (sub y lo) (sub hi lo))) cs [] none-InUnit k v (rw f at e)
      ]

  -- Whatever scores the channel has, NaN and infinities included, a calibrated score is neither
  -- below 0 nor above 1, if of two numbers at most one is less than the other, and 1 is not less
  -- than 0.
  pub calibrate-InUnit :
      IsUnitOrder
      → (field : Candidate F → Option F) (cs : List (Candidate F)) (k : String) (v : F)
      → lookup k (calibrate floats field cs) ≡ some v
      → InUnit v
  unfolding calibrate
  calibrate-InUnit o field cs k v e = scores-InUnit o field (scores_of floats field cs) cs k v e
