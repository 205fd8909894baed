-- ===== src/Auth/Recovery/Concurrent.antt =====
-- Concurrent calls of `_consume_recovery_code` in openclaw_memory_os/auth.py. The SELECT with the checks of
-- its rows is one step and the UPDATE another, since no lock and no transaction holds them together.
use openclaw_memory_os.Prelude.{
  ℕ, suc, String, ◌≡◌, refl, Bool, ◌&&◌, Option, none, some, List, [], ◌∷◌, nat_eq, string_eq,
  list_eq, pair_eq,
}
use openclaw_memory_os.Prelude.Table.{lookup, insert, remove}
use openclaw_memory_os.Auth.Recovery.{CodeRow, unused, mark_used, match_code}

-- The table, the calls that have found a row and not marked it yet, by their number, and how many
-- calls returned True.
pub record Calls : Type 0 where
  pub rows : List CodeRow
  pub waiting : List (ℕ × String)
  pub accepted : ℕ

pub data Step : Type 0 where
  begin : (call : ℕ) (code : String) → Step
  finish : (call now : ℕ) → Step

-- A call that finds no row returns False at once.
abbrev selected : ℕ → Option String → Calls → Calls
selected call none s = s
selected call (some h) s = record s { waiting = insert call h s.waiting }

abbrev updated : (call now : ℕ) → Option String → Calls → Calls
updated call now none s = s
updated call now (some h) s = record {
  rows = mark_used h now s.rows;
  waiting = remove call s.waiting;
  accepted = suc s.accepted;
}

module _ (verify : String → String → Bool) where
  unfoldable pub step : Step → Calls → Calls
  step (begin call code) s = selected call (match_code verify code s.rows) s
  step (finish call now) s = updated call now (lookup call s.waiting) s

  unfoldable pub run : List Step → Calls → Calls
  run [] s = s
  run (t ∷ steps) s = run steps (step t s)

  module _ (code : String) where
    -- No row opens for the code.
    abbrev opens : CodeRow → Bool
    opens r = unused r && verify r.code_hash code

  -- The calls of two requests that both select before either updates.
  abbrev pub overlapping : (code : String) (first second : ℕ) → List Step
  overlapping code first second =
      begin 1 code ∷ begin 2 code ∷ finish 1 first ∷ finish 2 second ∷ []

  -- Two calls with a code that opens an unused row are both accepted if both select before either
  -- updates: the code is used twice.
  pub overlapping_twice :
      (code h : String) (first second : ℕ) (rows : List CodeRow)
      → match_code verify code rows ≡ some h
      → (run
          (overlapping code first second)
          (record { rows = rows; waiting = []; accepted = 0 })).accepted
        ≡ 2
  unfolding run step lookup insert remove
  overlapping_twice code h first second rows e = rw (e, e) refl
