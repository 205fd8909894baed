-- ===== src/Auth/Recovery.antt =====
-- The one-time recovery codes of openclaw_memory_os/auth.py: the `recovery_codes` table, its rows
-- in rowid order. Argon2's `hash` (salted, so it may differ from call to call) and `verify` are
-- arguments.
pub mod Concurrent
use openclaw_memory_os.Prelude.{
  ℕ, zero, suc, ◌+◌, ◌-◌, ◌*◌, ◌/◌, ◌%◌, ◌^◌, ◌≤◌, ◌<◌, min, max, String, ◌≡◌, refl, sym, ap, subst,
  ◌∙◌, ◌≢◌, ◌↔◌, ◌⊎◌, inl, inr, Bool, true, false, ◌&&◌, ◌||◌, not, Option, none, some, List, [],
  ◌∷◌, ◌++◌, map, arith, ltb, leb, ltb→lt, lt→ltb, Eq, ◌==◌, ==_iff, ==_refl, nat_eq, nat_eqb,
  string_eq, list_eq, pair_eq, Bool-cases, Option-cases, is_some, or_else, if◌then◌else◌, length,
  take, drop, length-append, length-take, keep, count_if, any, All, Among, length-keep-le, Exn,
  value_error, type_error, struct_error, overflow_error, runtime_error, oserror, future_schema,
  Result, ok, err, ◌>>=◌, ◌>>◌, guard, or_on_error,
}

pub record CodeRow : Type 0 where
  pub code_hash : String
  pub used : ℕ
  pub used_at : Option ℕ

abbrev pub unused : CodeRow → Bool
unused r = r.used == 0

-- UPDATE recovery_codes SET used = 1, used_at = now WHERE code_hash = h
unfoldable pub mark_used : String → ℕ → List CodeRow → List CodeRow
mark_used h now [] = []
mark_used h now (r ∷ rows) =
    (if r.code_hash == h then record r { used = 1; used_at = some now } else r)
    ∷ mark_used h now rows

-- The first of the selected rows whose hash verifies the code.
unfoldable pub match_code : (String → String → Bool) → String → List CodeRow → Option String
match_code verify code [] = none
match_code verify code (r ∷ rows) =
    if unused r && verify r.code_hash code then some r.code_hash else match_code verify code rows

abbrev pub consume_found : List CodeRow → ℕ → Option String → List CodeRow × Bool
consume_found rows now none = (rows, false)
consume_found rows now (some h) = (mark_used h now rows, true)

-- `_consume_recovery_code` when no other attempt runs between its SELECT and its UPDATE; Recovery/Concurrent
-- has the two statements as steps of their own. A database error, which gives False, is left out.
unfoldable pub consume : (String → String → Bool) → List CodeRow → String → ℕ → List CodeRow × Bool
unfolding mark_used match_code
consume verify rows code now =
    if code == "" then (rows, false) else consume_found rows now (match_code verify code rows)

-- INSERT OR IGNORE: the hash is the primary key.
pub insert_or_ignore : String → List CodeRow → List CodeRow
insert_or_ignore h rows =
    if any (λ r. r.code_hash == h) rows
    then rows
    else rows ++ (record { code_hash = h; used = 0; used_at = none } ∷ [])

pub insert_all : List String → List CodeRow → List CodeRow
unfolding insert_or_ignore
insert_all [] rows = rows
insert_all (h ∷ hs) rows = insert_all hs (insert_or_ignore h rows)

-- The unused codes go, and the new ones come in. `hashes` are those of the new codes.
pub store_codes : List String → List CodeRow → List CodeRow
unfolding insert_all
store_codes hashes rows = insert_all hashes (keep (λ r. not (unused r)) rows)
