-- ===== src/Lexical/Recounted.antt =====
-- What the loops of openclaw_memory_os/lexical.py that rebuild `stats` and `inverted_index` from the
-- documents of a cache file leave in the tables.
use openclaw_memory_os.Prelude.{
  ℕ, suc, ◌+◌, ◌≡◌, refl, sym, ap, ◌∙◌, Option, none, some, List, [], ◌∷◌, ◌++◌, arith, ◌==◌,
  ==_iff, nat_eq, string_eq, list_eq, pair_eq, or_else, if◌then◌else◌, length,
}
use openclaw_memory_os.Prelude.Int.{pos}
use mathlib.Core.List.{append-nil, append_assoc}
use openclaw_memory_os.Prelude.Text.{Text}
use openclaw_memory_os.Prelude.Table.{lookup, lookup-insert}
use openclaw_memory_os.Prelude.Count.{
  count, counter, unless_zero, updated, for_each_lem, counter-IsUnique, lookup-counter,
}
use openclaw_memory_os.Lexical.{Stats, Document, Postings, no_stats, count_in}
use openclaw_memory_os.Lexical.Tokens.{Builtins}
use openclaw_memory_os.Lexical.Postings.{add_posting, postings_of, total, expected}
use openclaw_memory_os.Lexical.Disk.{
  count_token, post_token, count_documents, post_documents, best_counts,
}

abbrev stat_view : ℕ → Option Stats → Option Stats
stat_view n o = some (count_in n (or_else o no_stats))

abbrev post_view : Text → ℕ → Option Postings → Option Postings
post_view key n o = some (or_else o [] ++ ((key, n) ∷ []))

lookup-count_token :
    (a b : Text) (n : ℕ) (m : List (Text × Stats))
    → lookup b (count_token a n m) ≡ (if a == b then stat_view n (lookup b m) else lookup b m)
lookup-count_token a b n m =
    ground (arith, lookup-insert a b (count_in n (or_else (lookup a m) no_stats)) m, ==_iff a b)

lookup-post_token :
    (key a b : Text) (n : ℕ) (m : List (Text × Postings))
    → lookup b (post_token key a n m)
      ≡ (if a == b then post_view key n (lookup b m) else lookup b m)
lookup-post_token key a b n m =
    ground (arith, lookup-insert a b (or_else (lookup a m) [] ++ ((key, n) ∷ [])) m, ==_iff a b)

-- The documents with other tokens.
abbrev pub retokened : (Document → List Text) → List (Text × Document) → List (Text × Document)
retokened g [] = []
retokened g ((k, d) ∷ docs) = (k, record d { lexical_tokens = g d }) ∷ retokened g docs

pub retokened-same : (docs : List (Text × Document)) → retokened (λ d. d.lexical_tokens) docs ≡ docs
retokened-same [] = refl
retokened-same ((k, d) ∷ docs) = ap (λ rest. (k, d) ∷ rest) (retokened-same docs)

abbrev pub AllCounted :
    (Document → List (Text × ℕ)) → (Document → List Text) → List (Text × Document) → Type 0
AllCounted f g [] = Unit
AllCounted f g ((k, d) ∷ docs) = (f d ≡ counter (g d)) × AllCounted f g docs

abbrev added : Option Stats → Postings → Option Stats
added o [] = o
added o (p ∷ ps) = added (stat_view p.1 o) ps

abbrev appended : Option Postings → Postings → Option Postings
appended o [] = o
appended o (p ∷ ps) = appended (post_view p.0 p.1 o) ps

added-posting :
    (key : Text) (q : Option ℕ) (o : Option Stats) (ps : Postings)
    → added (updated stat_view q o) ps ≡ added o (add_posting key q ps)
added-posting key none o ps = refl
added-posting key (some n) o ps = refl

appended-posting :
    (key : Text) (q : Option ℕ) (o : Option Postings) (ps : Postings)
    → appended (updated (post_view key) q o) ps ≡ appended o (add_posting key q ps)
appended-posting key none o ps = refl
appended-posting key (some n) o ps = refl

lookup-count_documents :
    (f : Document → List (Text × ℕ)) (g : Document → List Text)
    → (t : Text) (docs : List (Text × Document)) (m : List (Text × Stats)) → AllCounted f g docs
    → lookup t (count_documents f docs m) ≡ added (lookup t m) (postings_of t (retokened g docs))
unfolding count_documents postings_of
lookup-count_documents f g t [] m a = refl
lookup-count_documents f g t ((k, d) ∷ docs) m (e, a) =
    lookup-count_documents f g t docs _ a
    ∙ (ap (λ o. added o (postings_of t (retokened g docs)))
          (rw e (
            for_each_lem lookup count_token stat_view
              (λ x. λ b. λ n. λ s. lookup-count_token x b n s) t (counter (g d)) m
              (counter-IsUnique (g d))
            ∙ ap (λ q. updated stat_view q (lookup t m)) (lookup-counter t (g d))))
        ∙ added-posting k (unless_zero (count t (g d))) (lookup t m)
            (postings_of t (retokened g docs)))

lookup-post_documents :
    {F : Type 0} (builtins : Builtins F) (t : Text) (docs : List (Text × Document))
    (m : List (Text × Postings))
    → AllCounted (best_counts builtins) (λ d. d.lexical_tokens) docs
    → lookup t (post_documents builtins docs m) ≡ appended (lookup t m) (postings_of t docs)
unfolding post_documents postings_of
lookup-post_documents builtins t [] m a = refl
lookup-post_documents builtins t ((k, d) ∷ docs) m (e, a) =
    lookup-post_documents builtins t docs _ a
    ∙ (ap (λ o. appended o (postings_of t docs))
          (rw e (
            for_each_lem lookup (post_token k) (post_view k)
              (λ x. λ b. λ n. λ s. lookup-post_token k x b n s) t (counter d.lexical_tokens) m
              (counter-IsUnique d.lexical_tokens)
            ∙ ap (λ q. updated (post_view k) q (lookup t m)) (lookup-counter t d.lexical_tokens)))
        ∙ appended-posting k (unless_zero (count t d.lexical_tokens)) (lookup t m)
            (postings_of t docs))

added-some :
    (a b : ℕ) (ps : Postings)
    → added (some (record { df = a; total_tf = pos b })) ps
      ≡ some (record { df = a + length ps; total_tf = pos (b + total ps) })
added-some a b [] = ground arith
added-some a b (p ∷ ps) = ground (arith, added-some (suc a) (b + p.1) ps)

added-none : (ps : Postings) → added none ps ≡ (expected ps).0
added-none [] = refl
added-none (p ∷ ps) = ground (arith, added-some 1 p.1 ps)

appended-some : (qs ps : Postings) → appended (some qs) ps ≡ some (qs ++ ps)
appended-some qs [] = ap (λ x. some x) (sym (append-nil qs))
appended-some qs (p ∷ ps) =
    appended-some (qs ++ (p ∷ [])) ps ∙ ap (λ x. some x) (append_assoc qs (p ∷ []) ps)

appended-none : (ps : Postings) → appended none ps ≡ (expected ps).1
appended-none [] = refl
appended-none (p ∷ ps) = appended-some (p ∷ []) ps

pub recounted :
    (f : Document → List (Text × ℕ)) (g : Document → List Text) (t : Text)
    (docs : List (Text × Document))
    → AllCounted f g docs
    → lookup t (count_documents f docs []) ≡ (expected (postings_of t (retokened g docs))).0
unfolding lookup
recounted f g t docs a =
    lookup-count_documents f g t docs [] a ∙ added-none (postings_of t (retokened g docs))

pub reposted :
    {F : Type 0} (builtins : Builtins F) (t : Text) (docs : List (Text × Document))
    → AllCounted (best_counts builtins) (λ d. d.lexical_tokens) docs
    → lookup t (post_documents builtins docs []) ≡ (expected (postings_of t docs)).1
unfolding lookup
reposted builtins t docs a =
    lookup-post_documents builtins t docs [] a ∙ appended-none (postings_of t docs)
