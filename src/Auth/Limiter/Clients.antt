-- ===== src/Auth/Limiter/Clients.antt =====
-- One client's failures do not limit another, and a successful login clears its own.
use openclaw_memory_os.Prelude.{
  ℕ, ◌+◌, String, ◌≡◌, refl, ◌∙◌, ◌≢◌, false, Option, none, some, arith, ◌==◌, ==_iff, nat_eq,
  string_eq, if◌then◌else◌, length,
}
use openclaw_memory_os.Prelude.Table.{lookup, lookup-insert, lookup-remove, lookup-insert_ne}
use openclaw_memory_os.Auth.Limiter.{
  Limiter, lockout_5, lockout_10, purge_window, consecutive_failures, remaining,
  lockout_seconds_remaining, is_limited, raise_lockout, record_failure, reset, append_failure,
  escalate,
}
use openclaw_memory_os.Auth.Limiter.Lockouts.{is_limited_iff, attempts-escalate}

attempts-escalate' :
    (c : Limiter × ℕ) (k j : String) (now : ℕ)
    → lookup j (escalate c k now).attempts ≡ lookup j c.0.attempts
attempts-escalate' (l, n) k j now = rw (attempts-escalate l n k now)

attempts-others :
    (l : Limiter) (k j : String) (now : ℕ)
    → k ≢ j
    → lookup j (record_failure l k now).attempts ≡ lookup j l.attempts
unfolding record_failure consecutive_failures append_failure purge_window
attempts-others l k j now h =
    let a = append_failure l k now in
    attempts-escalate' (consecutive_failures a k now) k j now
    ∙ (lookup-insert_ne k j _ a.attempts h
        ∙ (lookup-insert_ne k j _ (purge_window l k now).0.attempts h
            ∙ lookup-insert_ne k j _ l.attempts h))

remaining-others :
    (l : Limiter) (k j : String) (now : ℕ) (o : Option ℕ)
    → k ≢ j
    → lookup j (remaining l k now o).0.locked_until ≡ lookup j l.locked_until
remaining-others l k j now none h = refl
remaining-others l k j now (some until) h =
    ground (arith, lookup-remove k j l.locked_until, ==_iff k j)

raise-others :
    (l : Limiter) (k j : String) (now length : ℕ)
    → k ≢ j
    → lookup j (raise_lockout l k now length).locked_until ≡ lookup j l.locked_until
unfolding raise_lockout lockout_seconds_remaining
raise-others l k j now length h = ground (
  arith,
  remaining-others l k j now (lookup k l.locked_until) h,
  lookup-insert k j (now + length) (remaining l k now (lookup k l.locked_until)).0.locked_until,
  ==_iff k j,
)

lockout-escalate :
    (c : Limiter × ℕ) (k j : String) (now : ℕ)
    → k ≢ j
    → lookup j (escalate c k now).locked_until ≡ lookup j c.0.locked_until
lockout-escalate (l, n) k j now h =
    ground (arith, raise-others l k j now lockout_10 h, raise-others l k j now lockout_5 h)

lockout-others :
    (l : Limiter) (k j : String) (now : ℕ)
    → k ≢ j
    → lookup j (record_failure l k now).locked_until ≡ lookup j l.locked_until
unfolding record_failure consecutive_failures append_failure purge_window
lockout-others l k j now h =
    lockout-escalate (consecutive_failures (append_failure l k now) k now) k j now h

-- A failed login of one client leaves every other client exactly as limited as it was, at any later
-- time.
pub record_failure_others :
    (l : Limiter) (k j : String) (now later : ℕ)
    → k ≢ j
    → (is_limited (record_failure l k now) j later).1 ≡ (is_limited l j later).1
record_failure_others l k j now later h = rw (
  is_limited_iff (record_failure l k now) j later,
  is_limited_iff l j later,
  attempts-others l k j now h,
  lockout-others l k j now h,
)

-- A successful login lifts its client's limits and leaves every other client as limited as it was.
pub reset_limits :
    (l : Limiter) (k j : String) (now : ℕ)
    → (is_limited (reset l k) j now).1 ≡ (if k == j then false else (is_limited l j now).1)
unfolding reset
reset_limits l k j now =
    rw
      (
        is_limited_iff (reset l k) j now,
        is_limited_iff l j now,
        lookup-remove k j l.attempts,
        lookup-remove k j l.locked_until,
      )
      (ground arith)
