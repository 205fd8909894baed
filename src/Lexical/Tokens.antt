-- ===== src/Lexical/Tokens.antt =====
-- The tokenizer of openclaw_memory_os/lexical.py, and the assembly of a memory's document.
use openclaw_memory_os.Prelude.{
  ℕ, zero, suc, ◌+◌, max, String, Bool, ◌&&◌, ◌||◌, not, Option, none, some, List, [], ◌∷◌, ◌++◌,
  map, ltb, leb, ◌==◌, nat_eq, string_eq, list_eq, or_else, if◌then◌else◌, length, keep,
}
use openclaw_memory_os.Prelude.Text.{Text, is_empty, codes}
use openclaw_memory_os.Prelude.Table.{lookup}
use openclaw_memory_os.Lexical.Regex.{Regex, one, seq, opt, plus, boundary, concat_map, finditer}

-- What Unicode and Python's numbers say: `\w`, `\d`, `int(x)` of a weight (zero if it is negative),
-- whether a weight is true, `math.log` and `datetime.isoformat`.
pub record Builtins (F : Type 0) : Type 0 where
  pub is_word : ℕ → Bool
  pub is_decimal : ℕ → Bool
  pub whole : F → ℕ
  pub truthy : F → Bool
  pub log : F → F
  pub isoformat : ℕ → String

-- The fields of `MemoryRecord` that the index reads. `created_at` is in microseconds.
pub record MemoryRecord : Type 0 where
  pub candidate_key : Text
  pub text : Text
  pub summary : Option Text
  pub source : Option Text
  pub tags : List Text
  pub keywords : List Text
  pub recall_triggers : List Text
  pub entities : List Text
  pub created_at : Option ℕ

abbrev between : (lo hi : ℕ) → ℕ → Bool
between lo hi c = leb lo c && leb c hi

abbrev is_upper : ℕ → Bool
is_upper = between 65 90

abbrev is_lower : ℕ → Bool
is_lower = between 97 122

abbrev is_digit : ℕ → Bool
is_digit = between 48 57

abbrev is_name : ℕ → Bool
is_name c = is_upper c || is_lower c || is_digit c || c == 95

abbrev is_upper_or_digit : ℕ → Bool
is_upper_or_digit c = is_upper c || is_digit c

-- `[A-Za-z0-9_\-\.]`
abbrev is_path : ℕ → Bool
is_path c = is_name c || c == 45 || c == 46

-- `[A-Za-z0-9_\-\.:]`
abbrev is_lexical : ℕ → Bool
is_lexical c = is_path c || c == 58

abbrev star : Regex → Regex
star r = opt (plus r)

-- `r{1,n + 1}`
abbrev up_to : ℕ → Regex → Regex
up_to zero r = r
up_to (suc n) r = seq r (opt (up_to n r))

abbrev lexical_re : Regex
lexical_re = plus (one is_lexical)

abbrev envvar_re : Regex
envvar_re = seq boundary (
    seq (one is_upper) (
      seq (star (one is_upper_or_digit))
        (seq (plus (seq (one (λ c. c == 95)) (plus (one is_upper_or_digit)))) boundary)))

abbrev pathseg_re : Regex
pathseg_re = seq (one (λ c. c == 47 || c == 46)) (plus (one is_path))

abbrev mixed_case_re : Regex
mixed_case_re = seq boundary (
    seq (one is_upper)
      (seq (star (one is_name)) (seq (one is_lower) (seq (star (one is_name)) boundary))))

abbrev is_cjk : ℕ → Bool
is_cjk c = between 19968 40959 c || between 13312 19903 c || between 63744 64255 c

abbrev pub bigrams : Text → List Text
bigrams (a ∷ b ∷ s) = (a ∷ b ∷ []) ∷ bigrams (b ∷ s)
bigrams _ = []

abbrev pub trigrams : Text → List Text
trigrams (a ∷ b ∷ c ∷ s) = (a ∷ b ∷ c ∷ []) ∷ trigrams (b ∷ c ∷ s)
trigrams _ = []

unfoldable pub emit_cjk_ngrams : Text → List Text
emit_cjk_ngrams s = bigrams (keep is_cjk s) ++ trigrams (keep is_cjk s)

-- `t.lower()` of a text in the class of `lexical_re`
abbrev lower : Text → Text
lower s = map (λ c. if is_upper c then c + 32 else c) s

-- `s.lstrip("/.")`
abbrev lstrip_path : Text → Text
lstrip_path [] = []
lstrip_path (c ∷ s) = if c == 47 || c == 46 then lstrip_path s else c ∷ s

-- The segments of a path, those of one character left out.
abbrev segments : (Text → Text) → List Text → List Text
segments f ms = keep (λ s. ltb 1 (length s)) (map (λ m. f (lstrip_path m)) ms)

module _ {F : Type 0} (builtins : Builtins F) where
  open builtins use {is_word, is_decimal, whole, truthy}

  abbrev ipv4_port_re : Regex
  ipv4_port_re =
      let digits = up_to 2 (one is_decimal) in
      let group = seq (one (λ c. c == 46)) digits in
      let port = seq (one (λ c. c == 58)) (up_to 4 (one is_decimal)) in
      seq boundary (seq digits (seq (seq group (seq group group)) (seq (opt port) boundary)))

  unfoldable pub tokenize_lexical : Text → List Text
  unfolding finditer emit_cjk_ngrams
  tokenize_lexical s =
      map lower (finditer is_word lexical_re s)
      ++ finditer is_word envvar_re s
      ++ segments lower (finditer is_word pathseg_re s)
      ++ finditer is_word ipv4_port_re s
      ++ emit_cjk_ngrams s

  -- A set, as the list of what was added to it.
  unfoldable pub extract_exact_identifiers : Text → List Text
  unfolding finditer
  extract_exact_identifiers s =
      finditer is_word envvar_re s
      ++ finditer is_word ipv4_port_re s
      ++ segments (λ m. m) (finditer is_word pathseg_re s)
      ++ finditer is_word mixed_case_re s

  -- `s.rstrip("s")`
  abbrev rstrip_s : Text → Text
  rstrip_s [] = []
  rstrip_s (c ∷ s) = let r = rstrip_s s in if c == b's' && is_empty r then [] else c ∷ r

  abbrev true_weight : Option F → Option F
  true_weight none = none
  true_weight (some w) = if truthy w then some w else none

  -- `max(1, int(weights.get(field) or weights.get(field.rstrip("s")) or 1.0))`
  abbrev repeats : Option F → Option F → ℕ
  repeats (some w) v = max 1 (whole w)
  repeats none (some w) = max 1 (whole w)
  repeats none none = 1

  abbrev pub repeat_list : {A : Type 0} → ℕ → List A → List A
  repeat_list zero xs = []
  repeat_list (suc n) xs = xs ++ repeat_list n xs

  module _ (weights : List (Text × F)) where
    -- An empty value has no tokens.
    unfoldable pub emit : (field value : Text) → List Text
    unfolding tokenize_lexical
    emit field value =
        repeat_list
          (repeats (true_weight (lookup field weights))
            (true_weight (lookup (rstrip_s field) weights)))
          (tokenize_lexical value)

    -- `_stringify_list_field` of a list of texts leaves the empty ones out.
    abbrev stringify : List Text → List Text
    stringify xs = keep (λ x. not (is_empty x)) xs

    abbrev joined : List Text → Text
    joined [] = []
    joined (x ∷ []) = x
    joined (x ∷ y ∷ ys) = x ++ (32 ∷ joined (y ∷ ys))

    -- The tokens, and the exact identifiers.
    unfoldable pub build_lexical_document : MemoryRecord → List Text × List Text
    unfolding emit extract_exact_identifiers
    build_lexical_document r = (
      emit (codes "text") r.text
          ++ emit (codes "summary") (or_else r.summary [])
          ++ emit (codes "source") (or_else r.source [])
          ++ concat_map (emit (codes "tags")) r.tags
          ++ concat_map (emit (codes "keywords")) (stringify r.keywords)
          ++ concat_map (emit (codes "recall_triggers")) (stringify r.recall_triggers)
          ++ concat_map (emit (codes "entities")) (stringify r.entities),
      extract_exact_identifiers
          (joined (r.text ∷ or_else r.summary [] ∷ or_else r.source [] ∷ joined r.tags ∷ [])),
    )
