-- ===== src/Evolution/Rollback.antt =====
-- `_check_rollback` and `_force_rollback_with_metrics` of openclaw_memory_os/evolution.py, with the
-- policy store. The evaluation is given, or missing where there are no cases or where it raised.
-- Reading the policy and its checksum in memory does not fail here; saving the state is not modelled.
use openclaw_memory_os.Prelude.{
  ℕ, suc, String, ◌≡◌, refl, ap, ◌≢◌, inl, inr, Bool, true, false, ◌||◌, Option, none, some, [],
  arith, nat_eq, string_eq, list_eq, pair_eq, Bool-cases, or_else, if◌then◌else◌, Exn, Result, ok,
  err,
}
use openclaw_memory_os.Prelude.Floats.{Floats}
use openclaw_memory_os.Policy.{Policy}
use openclaw_memory_os.Policy.Files.{Io, Store}
use openclaw_memory_os.Policy.Store.{revert, restored_from}
use openclaw_memory_os.Policy.Store.Promotion.{revert_restores, revert_fails}
use openclaw_memory_os.Evolution.{Eval, Metrics, State, snapshot, after_rollback}

module _ (floats : Floats) where
  open floats use {F, lit, add, sub, mul, lt}

  -- `_DEFAULT_PREVIOUS_METRICS`
  abbrev pub default_metrics : Metrics F
  default_metrics = record {
    useful_at_1 = lit 50 2;
    mrr_at_10 = lit 50 2;
    explicit_negative_at_5 = lit 5 2;
    no_result_rate = lit 5 2;
    p95_latency = lit 10 1;
    degraded_rate = lit 0 1;
    fallback_useful_rate = some (lit 50 2);
  }

  -- The readings: all zero if there is no evaluation.
  abbrev pub readings : Option (Eval F) → Metrics F
  readings none = record {
    useful_at_1 = lit 0 1;
    mrr_at_10 = lit 0 1;
    explicit_negative_at_5 = lit 0 1;
    no_result_rate = lit 0 1;
    p95_latency = lit 0 1;
    degraded_rate = lit 0 1;
    fallback_useful_rate = none;
  }
  readings (some e) = snapshot e

  -- The triggers that need no reference.
  unfoldable pub absolute_trigger : Metrics F → Bool
  absolute_trigger m =
      lt (lit 5 2) m.degraded_rate || lt (lit 10 2) m.no_result_rate || lt (lit 50 1) m.p95_latency

  -- `max(a, b)` of Python.
  abbrev py_max : F → F → F
  py_max a b = if lt a b then b else a

  abbrev fallback_dropped : (now before : Option F) → Bool
  fallback_dropped (some a) (some b) = lt a (sub b (lit 5 2))
  fallback_dropped _ _ = false

  -- The triggers that compare with the previous metrics.
  unfoldable pub relative_trigger : (now before : Metrics F) → Bool
  relative_trigger m p =
      lt m.useful_at_1 (sub p.useful_at_1 (lit 8 2))
      || lt m.mrr_at_10 (sub p.mrr_at_10 (lit 5 2))
      || lt (add p.explicit_negative_at_5 (lit 8 2)) m.explicit_negative_at_5
      || lt (add p.no_result_rate (lit 15 2)) m.no_result_rate
      || lt (mul (py_max p.p95_latency (lit 1 6)) (lit 20 1)) m.p95_latency
      || fallback_dropped m.fallback_useful_rate p.fallback_useful_rate

  abbrev pub needs_rollback : Option (Eval F) → State F → Bool
  needs_rollback e s =
      absolute_trigger (readings e)
      || relative_trigger (readings e) (or_else s.previous_metrics default_metrics)

  module _ (digest : Policy F → String) where
    -- A revert that raises leaves the state.
    abbrev pub finish_rollback :
        (now : ℕ)
        → Option (Eval F)
        → State F
        → Result String × Store F
        → Result Bool × State F × Store F
    finish_rollback now e s (ok c, store) = (ok true, after_rollback now e s, store)
    finish_rollback now e s (err x, store) = (err x, s, store)

    unfoldable pub check_rollback :
        (base : Policy F)
        → Io
        → (now : ℕ) → Option (Eval F)
        → State F
        → Store F
        → Result Bool × State F × Store F
    check_rollback base io now e s store =
        if needs_rollback e s
        then finish_rollback now e s (revert digest base io store)
        else (ok false, s, store)

    finish_rollback_ok :
        (now : ℕ) (e : Option (Eval F)) (s s' : State F) (r : Result String × Store F)
        (store' : Store F)
        → finish_rollback now e s r ≡ (ok true, s', store')
        → ((c : String) × (r ≡ (ok c, store'))) × (s' ≡ after_rollback now e s)
    finish_rollback_ok now e s s' (ok c, t) store' h = ((c, ground arith), ground arith)
    finish_rollback_ok now e s s' (err x, t) store' h = ground arith

    finish_rollback_not :
        (now : ℕ) (e : Option (Eval F)) (s s' : State F) (q : Result String × Store F)
        (store' : Store F) (r : Result Bool)
        → finish_rollback now e s q ≡ (r, s', store')
        → r ≢ ok true
        → ((x : Exn) × (q ≡ (err x, store'))) × (s' ≡ s)
    finish_rollback_not now e s s' (ok c, t) store' r h n = ground arith
    finish_rollback_not now e s s' (err x, t) store' r h n = ((x, ground arith), ground arith)

    check_rollback-rolled :
        (base : Policy F) (io : Io) (now : ℕ) (e : Option (Eval F)) (s s' : State F)
        (store store' : Store F)
        → check_rollback base io now e s store ≡ (ok true, s', store')
        → finish_rollback now e s (revert digest base io store) ≡ (ok true, s', store')
    unfolding check_rollback
    check_rollback-rolled base io now e s s' store store' h = ground arith

    -- A rollback serves the policy from before, marked as active, or the baseline if there is none,
    -- drops the candidate and the pass windows, and counts.
    pub check_rollback-reverts :
        (base : Policy F) (io : Io) (now : ℕ) (e : Option (Eval F)) (s s' : State F)
        (store store' : Store F)
        → check_rollback base io now e s store ≡ (ok true, s', store')
        → (store'.policy ≡ restored_from digest base store.previous)
          × (store'.candidate ≡ none)
          × (store'.previous ≡ none)
          × (s'.pass_windows ≡ [])
          × (s'.consecutive_rollbacks ≡ suc s.consecutive_rollbacks)
    unfolding after_rollback
    check_rollback-reverts base io now e s s' store store' h =
        let r = revert digest base io store in
        let ((c, q), k) =
          finish_rollback_ok now e s s' r store'
            (check_rollback-rolled base io now e s s' store store' h) in
        let (x, y, z) = revert_restores digest io base store store' c q in
        (x, y, z, ap (λ t. t.pass_windows) k, ap (λ t. t.consecutive_rollbacks) k)

    -- A check that raises or finds nothing leaves the policy, the candidate and the state as they
    -- were.
    pub check_rollback-keeps :
        (base : Policy F) (io : Io) (now : ℕ) (e : Option (Eval F)) (s s' : State F)
        (store store' : Store F) (r : Result Bool)
        → check_rollback base io now e s store ≡ (r, s', store')
        → r ≢ ok true
        → (s' ≡ s)
          × (store'.policy ≡ store.policy)
          × (store'.candidate ≡ store.candidate)
          × (store'.previous ≡ store.previous)
    unfolding check_rollback
    check_rollback-keeps base io now e s s' store store' r h n =
        elim (Bool-cases (needs_rollback e s)) [
          | inl t ↦
              let h' : finish_rollback now e s (revert digest base io store) ≡ (r, s', store') =
                rw t at h in
              let ((x, q), k) =
                finish_rollback_not now e s s' (revert digest base io store) store' r h' n in
              let (a, b, c) = revert_fails digest io base store store' x q in (k, a, b, c)
          | inr f ↦ ground arith
        ]

    -- Where the evaluation is missing and no metrics were stored, the check goes on to revert the
    -- store, as long as zero is less than 0.50 - 0.08: the missing numbers count as zero, which is
    -- a drop from the default metrics.
    pub missing_evaluation_reverts :
        (base : Policy F) (io : Io) (now : ℕ) (s : State F) (store : Store F)
        → lt (lit 0 1) (sub (lit 50 2) (lit 8 2)) ≡ true
        → s.previous_metrics ≡ none
        → check_rollback base io now none s store
          ≡ finish_rollback now none s (revert digest base io store)
    unfolding check_rollback relative_trigger
    missing_evaluation_reverts base io now s store l h = rw h (ground arith)

    -- What the next theorem uses of the arithmetic: subtracting or adding a literal, and doubling,
    -- do not turn the order around.
    pub record IsMonotone : Type 0 where
      pub drop : (x : F) (n k : ℕ) → lt x (sub x (lit n k)) ≡ false
      pub rise : (x : F) (n k : ℕ) → lt (add x (lit n k)) x ≡ false
      pub double : (x : F) → lt (mul (py_max x (lit 1 6)) (lit 20 1)) x ≡ false

    fallback-same : (x : Option F) → IsMonotone → fallback_dropped x x ≡ false
    fallback-same none o = refl
    fallback-same (some x) o = o.drop x 5 2

    relative-same : (m : Metrics F) → IsMonotone → relative_trigger m m ≡ false
    unfolding relative_trigger
    relative-same m o = ground (
      arith,
      o.drop m.useful_at_1 8 2,
      o.drop m.mrr_at_10 5 2,
      o.rise m.explicit_negative_at_5 8 2,
      o.rise m.no_result_rate 15 2,
      o.double m.p95_latency,
      fallback-same m.fallback_useful_rate o,
    )

    -- A rollback is not repeated: if the numbers stay as they were when it happened, and no
    -- absolute limit is exceeded, the next check finds nothing. Subtracting or adding a literal,
    -- and doubling, must not turn the order around.
    pub rollback_settles :
        (base : Policy F) (io io' : Io) (now now' : ℕ) (e : Eval F) (s s' : State F)
        (store store' store'' : Store F)
        → IsMonotone
        → absolute_trigger (snapshot e) ≡ false
        → check_rollback base io now (some e) s store ≡ (ok true, s', store')
        → check_rollback base io' now' (some e) s' store'' ≡ (ok false, s', store'')
    unfolding check_rollback after_rollback
    rollback_settles base io io' now now' e s s' store store' store'' m a h =
        let r = revert digest base io store in
        let (_, k) =
          finish_rollback_ok now (some e) s s' r store'
            (check_rollback-rolled base io now (some e) s s' store store' h) in
        let p : s'.previous_metrics ≡ some (snapshot e) = ap (λ t. t.previous_metrics) k in
        rw (a, p, relative-same (snapshot e) m) refl
