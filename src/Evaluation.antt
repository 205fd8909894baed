-- ===== src/Evaluation.antt =====
-- The judged queries of openclaw_memory_os/evaluation.py: normalised query texts and the order of
-- their timestamps. `Unicode` stands for the tables of Python's `unicodedata` and `str.casefold`,
-- `Clock` for `str.isdigit`, `int` and `datetime.fromisoformat`.
pub mod Split
pub mod Buckets
pub mod Partition
pub mod Returns
pub mod Metrics
pub mod Runner
pub mod Counters
use openclaw_memory_os.Prelude.{
  ℕ, zero, suc, ◌+◌, ◌-◌, ◌*◌, ◌/◌, ◌%◌, ◌^◌, ◌≤◌, ◌<◌, min, max, String, ◌≡◌, refl, sym, ap, subst,
  ◌∙◌, ◌≢◌, ◌↔◌, ◌⊎◌, inl, inr, Bool, true, false, ◌&&◌, ◌||◌, not, Option, none, some, List, [],
  ◌∷◌, ◌++◌, map, arith, ltb, leb, ltb→lt, lt→ltb, Eq, ◌==◌, ==_iff, ==_refl, nat_eq, nat_eqb,
  string_eq, list_eq, pair_eq, Bool-cases, Option-cases, is_some, or_else, if◌then◌else◌, length,
  take, drop, length-append, length-take, keep, count_if, any, All, Among, length-keep-le, Exn,
  value_error, type_error, struct_error, overflow_error, runtime_error, oserror, future_schema,
  Result, ok, err, ◌>>=◌, ◌>>◌, guard, or_on_error,
}
use openclaw_memory_os.Prelude.Text.{Text, codes, is_space, is_empty, strip, starts_with}

pub record Unicode : Type 0 where
  pub nfkc : Text → Text
  pub category : ℕ → String
  pub casefold : Text → Text

-- `address` is the identity of the object, `id(case)`; a missing field is the empty text.
pub record Case : Type 0 where
  pub address : ℕ
  pub query_text : Text
  pub created_at : Text

-- Whether `normalize_query` drops a character.
abbrev is_dropped : Unicode → ℕ → Bool
is_dropped unicode c =
    unicode.category c == "Cf"
    || unicode.category c == "Cs"
    || unicode.category c == "Co"
    || unicode.category c == "Mn"
    || unicode.category c == "Me"
    || (starts_with (codes (unicode.category c)) (codes "C")
        && not (c == 32 || c == 9 || c == 10 || c == 13))

abbrev spaced : ℕ → ℕ
spaced c = if c == 9 || c == 10 || c == 13 then 32 else c

-- `" ".join(q.split())` of a stripped text: a run of white space becomes one space.
abbrev collapse : Bool → Text → Text
collapse after_space [] = []
collapse after_space (c ∷ s) =
    let rest = collapse (is_space c) s in
    if is_space c then (if after_space then rest else 32 ∷ rest) else c ∷ rest

unfoldable pub normalize_query : Unicode → Text → Text
normalize_query unicode query =
    if is_empty query
    then []
    else collapse false (
        strip (
          unicode.casefold
            (map spaced (keep (λ c. not (is_dropped unicode c)) (unicode.nfkc query)))))

-- A moment that `fromisoformat` reads: whether it has a time zone, and its place in time.
pub record Clock : Type 0 where
  pub isdigit : Text → Bool
  pub int : Text → Option ℕ
  pub fromisoformat : Text → Option (Bool × ℕ)

-- What `_sort_key_for_timestamp` returns.
pub data Key : Type 0 where
  absent : Key
  ordinal : ℕ → Key
  moment : Bool → ℕ → Key
  raw : Text → Key

abbrev parsed_key : Text → Option (Bool × ℕ) → Key
parsed_key ts (some (aware, at)) = moment aware at
parsed_key ts none = raw ts

abbrev digits_key : Key → Option ℕ → Key
digits_key other (some n) = ordinal n
digits_key other none = other

unfoldable pub sort_key_for_timestamp : Clock → Text → Key
sort_key_for_timestamp clock ts =
    let parsed = parsed_key ts (clock.fromisoformat ts) in
    if is_empty ts
    then absent
    else if clock.isdigit ts
    then digits_key parsed (clock.int ts)
    else parsed

-- The order of Python texts, by code points.
abbrev text_less : Text → Text → Bool
text_less [] [] = false
text_less [] (d ∷ t) = true
text_less (c ∷ s) [] = false
text_less (c ∷ s) (d ∷ t) = ltb c d || (c == d && text_less s t)

-- `a < b` on keys: numbers, moments and texts are not ordered with each other, nor are moments with
-- and without a time zone.
unfoldable pub key_less : Key → Key → Result Bool
key_less absent absent = ok false
key_less absent (ordinal n) = ok false
key_less absent (moment z n) = ok false
key_less absent (raw s) = ok false
key_less (ordinal m) absent = ok true
key_less (moment y m) absent = ok true
key_less (raw t) absent = ok true
key_less (ordinal m) (ordinal n) = ok (ltb m n)
key_less (ordinal m) (moment z n) = err type_error
key_less (ordinal m) (raw s) = err type_error
key_less (moment y m) (ordinal n) = err type_error
key_less (moment true m) (moment true n) = ok (ltb m n)
key_less (moment false m) (moment false n) = ok (ltb m n)
key_less (moment true m) (moment false n) = err type_error
key_less (moment false m) (moment true n) = err type_error
key_less (moment y m) (raw s) = err type_error
key_less (raw t) (ordinal n) = err type_error
key_less (raw t) (moment z n) = err type_error
key_less (raw t) (raw s) = ok (text_less t s)
