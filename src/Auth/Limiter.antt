-- ===== src/Auth/Limiter.antt =====
-- `LoginRateLimiter` of openclaw_memory_os/auth.py. Instants are microseconds, and the clock's value
-- is an argument of each call. A method returns the new state with its result.
pub mod Lockouts
pub mod Clients
use openclaw_memory_os.Prelude.{
  ℕ, ◌+◌, ◌-◌, ◌*◌, max, String, Bool, true, Option, none, some, List, ◌∷◌, ◌++◌, ltb, leb, ◌==◌,
  nat_eq, string_eq, or_else, if◌then◌else◌, length, keep, count_if, [],
}
use openclaw_memory_os.Prelude.Table.{lookup, insert, remove}
use openclaw_memory_os.Prelude.Text.{prefix_chars}

pub record Limiter : Type 0 where
  pub attempts : List (String × List ℕ)
  pub locked_until : List (String × ℕ)

abbrev pub max_attempts : ℕ
max_attempts = 5

abbrev pub second : ℕ
second = 1_000_000

abbrev pub window_seconds : ℕ
window_seconds = 60 * second

abbrev pub lockout_5 : ℕ
lockout_5 = 300 * second

abbrev pub lockout_10 : ℕ
lockout_10 = 1800 * second

abbrev pub consecutive_window : ℕ
consecutive_window = 1800 * second

abbrev pub fresh : Limiter
fresh = record { attempts = []; locked_until = [] }

-- `now - ts < w`; a stamp from the future counts as within the window, here as in the source.
abbrev pub within : ℕ → ℕ → ℕ → Bool
within w now ts = ltb (now - ts) w

-- `sha256(ip)[:16]`; the digest is an argument.
pub ip_key : (String → String) → Option String → String
unfolding prefix_chars
ip_key digest client_ip = prefix_chars 16 (digest (or_else client_ip ""))

abbrev pub window_of : Limiter → String → List ℕ
window_of l k = or_else (lookup k l.attempts) []

pub purge_window : Limiter → String → ℕ → Limiter × List ℕ
purge_window l k now =
    let window = keep (within (max window_seconds consecutive_window) now) (window_of l k) in
    (record l { attempts = insert k window l.attempts }, window)

pub consecutive_failures : Limiter → String → ℕ → Limiter × ℕ
unfolding purge_window
consecutive_failures l k now =
    let (l', window) = purge_window l k now in (l', count_if (within consecutive_window now) window)

-- A lockout that is over is dropped.
abbrev pub remaining : Limiter → String → ℕ → Option ℕ → Limiter × ℕ
remaining l k now none = (l, 0)
remaining l k now (some until) =
    if until == 0
    then (l, 0)
    else if leb until now
    then (record l { locked_until = remove k l.locked_until }, 0)
    else (l, until - now)

pub lockout_seconds_remaining : Limiter → String → ℕ → Limiter × ℕ
lockout_seconds_remaining l k now = remaining l k now (lookup k l.locked_until)

pub is_limited : Limiter → String → ℕ → Limiter × Bool
unfolding lockout_seconds_remaining purge_window
is_limited l k now =
    let (l', left) = lockout_seconds_remaining l k now in
    if ltb 0 left
    then (l', true)
    else (let (l'', _) = purge_window l' k now in
        (l'', leb max_attempts (length (window_of l'' k))))

-- `_locked_until[key] = now + length`, if what is left of the present lockout is shorter.
pub raise_lockout : Limiter → String → ℕ → ℕ → Limiter
unfolding lockout_seconds_remaining
raise_lockout l k now length =
    let (l', existing) = lockout_seconds_remaining l k now in
    if ltb existing length
    then record l' { locked_until = insert k (now + length) l'.locked_until }
    else l'

-- `window = self._purge_window(key, now); window.append(now)`
pub append_failure : Limiter → String → ℕ → Limiter
unfolding purge_window
append_failure l k now =
    let (l', window) = purge_window l k now in
    record l' { attempts = insert k (window ++ (now ∷ [])) l'.attempts }

-- The tier that the number of failures asks for.
abbrev pub escalate : Limiter × ℕ → String → ℕ → Limiter
escalate (l, consecutive) k now =
    if leb 10 consecutive
    then raise_lockout l k now lockout_10
    else if leb max_attempts consecutive
    then raise_lockout l k now lockout_5
    else l

pub record_failure : Limiter → String → ℕ → Limiter
unfolding append_failure consecutive_failures raise_lockout
record_failure l k now = escalate (consecutive_failures (append_failure l k now) k now) k now

pub reset : Limiter → String → Limiter
reset l k = record l { attempts = remove k l.attempts; locked_until = remove k l.locked_until }
