-- ===== src/Tests/Evaluation.antt =====
-- Examples for openclaw_memory_os/evaluation.py.
use openclaw_memory_os.Prelude.{
  ℕ, ◌+◌, String, ◌≡◌, refl, ◌≢◌, inr, true, false, ◌&&◌, some, List, [], ◌∷◌, map, ltb, leb, ◌==◌,
  nat_eq, string_eq, list_eq, pair_eq, if◌then◌else◌, length, count_if, type_error, ok, err,
}
use openclaw_memory_os.Prelude.Text.{Text, codes, strip, is_space, lstrip, rstrip}
use openclaw_memory_os.Prelude.Table.{lookup, insert}
use openclaw_memory_os.Evaluation.{
  Unicode, Case, Clock, normalize_query, sort_key_for_timestamp, key_less,
}
use openclaw_memory_os.Evaluation.Split.{
  Split, Bucket, Ratios, split_cases, representatives, group_cases, add_case, representative,
  earliest, sort_onto, insert_sorted, fill, place, train_end, val_end,
}
use openclaw_memory_os.Evaluation.Buckets.{contents}
use openclaw_memory_os.Evaluation.Partition.{of_query, split_cases-of_query}
use openclaw_memory_os.Evaluation.Returns.{split_cases-returns}
use openclaw_memory_os.Evaluation.Runner.{Judged, Answer, listing, no_totals, evaluate_cases}
use openclaw_memory_os.Evaluation.Counters.{IsCounted, evaluate_cases-IsCounted}
use openclaw_memory_os.Tests.Data.{fixed}

abbrev lower : ℕ → ℕ
lower c = if leb 65 c && leb c 90 then c + 32 else c

-- ASCII texts only.
abbrev ascii : Unicode
ascii = record {
  nfkc = λ s. s;
  category = λ c. if ltb c 32 then "Cc" else "Lu";
  casefold = map lower;
}

-- A text of one character is a number, a longer one a moment.
abbrev short_clock : Clock
short_clock = record {
  isdigit = λ s. length s == 1;
  int = λ s. some (count_if (λ c. true) s);
  fromisoformat = λ s. some (false, length s);
}

abbrev sixty : Ratios
sixty = record { train_ratio = 60; val_ratio = 20; test_ratio = 20 }

abbrev asked : ℕ → String → String → Case
asked n q at = record { address = n; query_text = codes q; created_at = codes at }

abbrev four : List Case
four =
    asked 1 "Deploy  now" "2026"
    ∷ asked 2 "logs" "202"
    ∷ asked 3 " deploy now" "20260"
    ∷ asked 4 "ports" "202607"
    ∷ []

-- Case and white space do not tell queries apart.
one_query : normalize_query ascii (codes " Deploy  now") ≡ codes "deploy now"
unfolding normalize_query strip
one_query = refl

-- Three queries give two for training, one for validation and none for testing.
abbrev four_split : Split
four_split = record {
  train = asked 1 "Deploy  now" "2026" ∷ asked 3 " deploy now" "20260" ∷ asked 2 "logs" "202" ∷ [];
  validation = asked 4 "ports" "202607" ∷ [];
  test = [];
}

four_cases : split_cases ascii short_clock sixty four ≡ ok four_split
unfolding split_cases representatives group_cases add_case lookup insert normalize_query strip
    representative earliest sort_onto insert_sorted key_less sort_key_for_timestamp fill place
    train_end val_end is_space lstrip rstrip
four_cases = refl

-- A number and a moment are not ordered: the split raises.
mixed_cases :
    split_cases ascii short_clock sixty (asked 1 "a" "1" ∷ asked 2 "b" "2026" ∷ []) ≡ err type_error
unfolding split_cases representatives group_cases add_case lookup insert normalize_query strip
    representative earliest sort_onto insert_sorted key_less sort_key_for_timestamp
mixed_cases = refl

split_cases-of_query_example :
    (b : Bucket) × ((of_query ascii (codes "deploy now") (contents b four_split)
        ≡ of_query ascii (codes "deploy now") four)
      × ((other : Bucket)
          → b ≢ other
          → of_query ascii (codes "deploy now") (contents other four_split) ≡ []))
split_cases-of_query_example =
    split_cases-of_query ascii short_clock sixty four four_split four_cases (codes "deploy now")

split_cases-returns_example : (s : Split) × (split_cases ascii short_clock sixty four ≡ ok s)
unfolding sort_key_for_timestamp
split_cases-returns_example =
    split_cases-returns ascii short_clock 2 sixty four
      (inr refl, (inr refl, (inr refl, (inr refl, tt))))

abbrev judged : List Judged
judged =
    record {
      query_id = codes "q";
      query_text = codes "deploy";
      positives = codes "a" ∷ [];
      negatives = codes "b" ∷ [];
    }
    ∷ []

abbrev ranked_keys : Text → Text → Answer
ranked_keys text id = listing (codes "b" ∷ codes "a" ∷ [])

evaluate_cases-IsCounted_example :
    IsCounted fixed
      (λ x. x)
      1
      (evaluate_cases fixed (λ x. x) ranked_keys (λ c. 5) judged (no_totals fixed (λ x. x)))
evaluate_cases-IsCounted_example =
    evaluate_cases-IsCounted fixed (λ x. x) ranked_keys (λ c. 5) judged
