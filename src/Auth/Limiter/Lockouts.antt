-- ===== src/Auth/Limiter/Lockouts.antt =====
-- When a client is limited, and what a failed login does to it.
use openclaw_memory_os.Prelude.{
  ℕ, ◌+◌, ◌-◌, ◌≤◌, ◌<◌, String, ◌≡◌, refl, ◌∙◌, Bool, true, false, ◌||◌, Option, none, some, List,
  [], ◌∷◌, ◌++◌, arith, ltb, leb, ==_refl, nat_eq, string_eq, if◌then◌else◌, length, keep, count_if,
}
use openclaw_memory_os.Prelude.Table.{lookup, remove, lookup-insert}
use openclaw_memory_os.Auth.Limiter.{
  Limiter, max_attempts, lockout_5, lockout_10, consecutive_window, within, window_of, purge_window,
  consecutive_failures, remaining, lockout_seconds_remaining, is_limited, raise_lockout,
  record_failure, append_failure, escalate,
}

-- The failures of a client that still count at `now`.
abbrev pub recent : Limiter → String → ℕ → ℕ
recent l k now = count_if (within consecutive_window now) (window_of l k)

abbrev pub ends_after : ℕ → Option ℕ → Bool
ends_after now none = false
ends_after now (some until) = ltb now until

-- Is an escalating lockout in effect?
abbrev pub locked : Limiter → String → ℕ → Bool
locked l k now = ends_after now (lookup k l.locked_until)

length-keep : (p : ℕ → Bool) (xs : List ℕ) → length (keep p xs) ≡ count_if p xs
length-keep p [] = refl
length-keep p (x ∷ xs) = ground (arith, length-keep p xs)

pub window-purge :
    (l : Limiter) (k : String) (now : ℕ)
    → window_of (purge_window l k now).0 k ≡ keep (within consecutive_window now) (window_of l k)
unfolding purge_window
window-purge l k now = rw (lookup-insert, ==_refl k)

remaining-attempts :
    (l : Limiter) (k : String) (now : ℕ) (o : Option ℕ)
    → (remaining l k now o).0.attempts ≡ l.attempts
remaining-attempts l k now none = refl
remaining-attempts l k now (some until) = ground arith

pub attempts-lockout :
    (l : Limiter) (k : String) (now : ℕ)
    → (lockout_seconds_remaining l k now).0.attempts ≡ l.attempts
unfolding lockout_seconds_remaining
attempts-lockout l k now = remaining-attempts l k now (lookup k l.locked_until)

pub lockout-locked :
    (l : Limiter) (k : String) (now : ℕ)
    → ltb 0 (lockout_seconds_remaining l k now).1 ≡ locked l k now
unfolding lockout_seconds_remaining
lockout-locked l k now = ground arith

-- A client is limited exactly while a lockout is in effect or five of its failures lie within the
-- last 30 minutes.
pub is_limited_iff :
    (l : Limiter) (k : String) (now : ℕ)
    → (is_limited l k now).1 ≡ (locked l k now || leb max_attempts (recent l k now))
unfolding is_limited
is_limited_iff l k now = ground (
  arith,
  lockout-locked l k now,
  attempts-lockout l k now,
  window-purge (lockout_seconds_remaining l k now).0 k now,
  length-keep (within consecutive_window now) (window_of l k),
)

count-keep : (p : ℕ → Bool) (xs : List ℕ) → count_if p (keep p xs) ≡ count_if p xs
count-keep p [] = refl
count-keep p (x ∷ xs) = ground (arith, count-keep p xs)

count-append :
    (p : ℕ → Bool) (xs : List ℕ) (y : ℕ)
    → count_if p (xs ++ (y ∷ [])) ≡ count_if p xs + count_if p (y ∷ [])
count-append p [] y = omega arith
count-append p (x ∷ xs) y = omega (arith, count-append p xs y)

recent-append :
    (l : Limiter) (k : String) (now : ℕ)
    → recent (append_failure l k now) k now ≡ recent l k now + 1
unfolding append_failure
recent-append l k now =
    rw (lookup-insert k k, ==_refl k)
      (ground (
        arith,
        count-append (within consecutive_window now)
            (keep (within consecutive_window now) (window_of l k)) now,
        count-keep (within consecutive_window now) (window_of l k),
      ))

recent-purge :
    (l : Limiter) (k : String) (now : ℕ) → recent (purge_window l k now).0 k now ≡ recent l k now
recent-purge l k now =
    rw (window-purge l k now) (count-keep (within consecutive_window now) (window_of l k))

consecutive-recent :
    (l : Limiter) (k : String) (now : ℕ) → (consecutive_failures l k now).1 ≡ recent l k now
unfolding consecutive_failures purge_window
consecutive-recent l k now = count-keep (within consecutive_window now) (window_of l k)

recent-consecutive :
    (l : Limiter) (k : String) (now : ℕ)
    → recent (consecutive_failures l k now).0 k now ≡ recent l k now
unfolding consecutive_failures
recent-consecutive l k now = recent-purge l k now

pub attempts-raise :
    (l : Limiter) (k : String) (now length : ℕ)
    → (raise_lockout l k now length).attempts ≡ l.attempts
unfolding raise_lockout
attempts-raise l k now length = ground (arith, attempts-lockout l k now)

pub attempts-escalate :
    (l : Limiter) (n : ℕ) (k : String) (now : ℕ) → (escalate (l, n) k now).attempts ≡ l.attempts
attempts-escalate l n k now =
    ground (arith, attempts-raise l k now lockout_10, attempts-raise l k now lockout_5)

-- A failure adds one to the failures that count.
pub recent-record_failure :
    (l : Limiter) (k : String) (now : ℕ)
    → recent (record_failure l k now) k now ≡ recent l k now + 1
unfolding record_failure
recent-record_failure l k now =
    let a = append_failure l k now in
    let c = consecutive_failures a k now in
    rw (attempts-escalate c.0 c.1 k now) (recent-consecutive a k now ∙ recent-append l k now)

-- What a failure at `now` makes of a lockout that was to end at `until`.
abbrev pub extended : ℕ → ℕ → Option ℕ → Option ℕ
extended now length none = some (now + length)
extended now length (some until) =
    if ltb (until - now) length then some (now + length) else some until

-- The lockout that a client's `n`-th recent failure leaves.
abbrev pub tier : ℕ → ℕ → Option ℕ → Option ℕ
tier n now until =
    if leb 10 n
    then extended now lockout_10 until
    else if leb 5 n
    then extended now lockout_5 until
    else until

locked_until-raise :
    (l : Limiter) (k : String) (now length : ℕ)
    → 0 < length
    → lookup k (raise_lockout l k now length).locked_until
      ≡ extended now length (lookup k l.locked_until)
unfolding raise_lockout lockout_seconds_remaining
locked_until-raise l k now length h = ground (
  arith,
  lookup-insert k k (now + length) l.locked_until,
  lookup-insert k k (now + length) (remove k l.locked_until),
  ==_refl k,
)

locked_until-escalate :
    (l : Limiter) (n : ℕ) (k : String) (now : ℕ)
    → lookup k (escalate (l, n) k now).locked_until ≡ tier n now (lookup k l.locked_until)
locked_until-escalate l n k now =
    ground (arith, locked_until-raise l k now lockout_10, locked_until-raise l k now lockout_5)

consecutive-append :
    (l : Limiter) (k : String) (now : ℕ)
    → (consecutive_failures (append_failure l k now) k now).1 ≡ recent l k now + 1
consecutive-append l k now =
    consecutive-recent (append_failure l k now) k now ∙ recent-append l k now

-- The lockout after a failure depends on how many failures count then, this one included: five ask
-- for 5 minutes, ten for 30; a lockout with less than that left is set to end that long from now,
-- any other stays.
pub locked_until-record_failure :
    (l : Limiter) (k : String) (now : ℕ)
    → lookup k (record_failure l k now).locked_until
      ≡ tier (recent l k now + 1) now (lookup k l.locked_until)
unfolding record_failure
locked_until-record_failure l k now =
    rw
      (
        locked_until-escalate (consecutive_failures (append_failure l k now) k now).0
            (consecutive_failures (append_failure l k now) k now).1 k now,
        consecutive-append l k now,
      )
      (unfold append_failure consecutive_failures purge_window in refl)

-- The fifth recent failure, or a later one, limits the client for the next 5 minutes, and the
-- tenth, or a later one, for the next 30.
pub record_failure_locks :
    (l : Limiter) (k : String) (now later : ℕ)
    → (5 ≤ recent l k now + 1
        → later < now + lockout_5
        → (is_limited (record_failure l k now) k later).1 ≡ true)
      × (10 ≤ recent l k now + 1
          → later < now + lockout_10
          → (is_limited (record_failure l k now) k later).1 ≡ true)
record_failure_locks l k now later = (
  λ h b.
      rw (is_limited_iff (record_failure l k now) k later, locked_until-record_failure l k now)
        (ground arith),
  λ h b.
      rw (is_limited_iff (record_failure l k now) k later, locked_until-record_failure l k now)
        (ground arith),
)

-- A failure during a 5-minute lockout that has been running for a while moves its end further out.
pub record_failure_extends :
    (l : Limiter) (k : String) (now until : ℕ)
    → lookup k l.locked_until ≡ some until
    → now < until
    → until < now + lockout_5
    → 5 ≤ recent l k now + 1
    → (end : ℕ) × (lookup k (record_failure l k now).locked_until ≡ some end) × (until < end)
record_failure_extends l k now until e a b h = (
  if leb 10 (recent l k now + 1) then now + lockout_10 else now + lockout_5,
  ground (arith, locked_until-record_failure l k now),
  ground arith,
)
