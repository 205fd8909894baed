-- ===== src/Lexical/Postings.antt =====
-- What the tables of the index of openclaw_memory_os/lexical.py should hold, computed from the
-- documents alone, and how one document that comes or goes changes it.
use openclaw_memory_os.Prelude.{
  ℕ, suc, ◌+◌, ◌≡◌, refl, Option, none, some, List, [], ◌∷◌, ◌++◌, arith, ◌==◌, ==_iff, nat_eq,
  string_eq, list_eq, pair_eq, or_else, if◌then◌else◌, length, length-append,
}
use openclaw_memory_os.Prelude.Int.{pos}
use openclaw_memory_os.Prelude.Text.{Text}
use openclaw_memory_os.Prelude.Table.{lookup, remove, lookup-insert, lookup-remove}
use openclaw_memory_os.Prelude.Count.{count, IsUnique, unless_zero}
use openclaw_memory_os.Lexical.{
  Stats, Document, Postings, Index, no_stats, count_in, count_out, put_or_pop, nonempty, without,
  drop_postings, index_token, forget, forget_token,
}

abbrev View : Type 0
View = Option Stats × Option Postings

-- The entries of the two tables at a token.
abbrev pub view : {F : Type 0} → Text → Index F → View
view t s = (lookup t s.stats, lookup t s.inverted_index)

abbrev pub add_posting : (key : Text) → Option ℕ → Postings → Postings
add_posting key none ps = ps
add_posting key (some n) ps = (key, n) ∷ ps

-- The documents that contain a token, in the order of the table, with their term frequencies.
unfoldable pub postings_of : Text → List (Text × Document) → Postings
postings_of t [] = []
postings_of t ((k, d) ∷ docs) =
    add_posting k (unless_zero (count t d.lexical_tokens)) (postings_of t docs)

abbrev pub total : Postings → ℕ
total [] = 0
total (p ∷ ps) = p.1 + total ps

abbrev pub expected : Postings → View
expected [] = (none, none)
expected (p ∷ ps) =
    (some (record { df = length (p ∷ ps); total_tf = pos (total (p ∷ ps)) }), some (p ∷ ps))

abbrev pub index_view : (key : Text) → (tf : ℕ) → View → View
index_view key tf (st, ps) =
    (some (count_in tf (or_else st no_stats)), some (or_else ps [] ++ ((key, tf) ∷ [])))

abbrev pub forget_view : (key : Text) → (tf : ℕ) → View → View
forget_view key tf (none, ps) = (none, ps)
forget_view key tf (some st, ps) = (count_out tf st, drop_postings key ps)

lookup-put_or_pop :
    {V : Type 0} (a b : Text) (o : Option V) (m : List (Text × V))
    → lookup b (put_or_pop a o m) ≡ (if a == b then o else lookup b m)
lookup-put_or_pop a b none m = lookup-remove a b m
lookup-put_or_pop a b (some v) m = lookup-insert a b v m

module _ {F : Type 0} (key a b : Text) (tf : ℕ) where
  pub view-index_token :
      (s : Index F)
      → view b (index_token key a tf s)
        ≡ (if a == b then index_view key tf (view b s) else view b s)
  unfolding index_token
  view-index_token s = ground (
    arith,
    lookup-insert a b (count_in tf (or_else (lookup a s.stats) no_stats)) s.stats,
    lookup-insert a b (or_else (lookup a s.inverted_index) [] ++ ((key, tf) ∷ [])) s.inverted_index,
    ==_iff a b,
  )

  view-forget :
      (s : Index F) (o : Option Stats)
      → lookup a s.stats ≡ o
      → view b (forget key a tf o s) ≡ (if a == b then forget_view key tf (view b s) else view b s)
  view-forget s none h = ground (arith, ==_iff a b)
  view-forget s (some st) h = ground (
    arith,
    lookup-put_or_pop a b (count_out tf st) s.stats,
    lookup-put_or_pop a b (drop_postings key (lookup a s.inverted_index)) s.inverted_index,
    ==_iff a b,
  )

  pub view-forget_token :
      (s : Index F)
      → view b (forget_token key a tf s)
        ≡ (if a == b then forget_view key tf (view b s) else view b s)
  unfolding forget_token
  view-forget_token s = view-forget s (lookup a s.stats) refl

total-append : (ps qs : Postings) → total (ps ++ qs) ≡ total ps + total qs
total-append [] qs = omega arith
total-append (p ∷ ps) qs = omega (arith, total-append ps qs)

pub index_view-expected :
    (key : Text) (tf : ℕ) (ps : Postings)
    → index_view key tf (expected ps) ≡ expected (ps ++ ((key, tf) ∷ []))
index_view-expected key tf [] = ground arith
index_view-expected key tf (p ∷ ps) =
    ground (arith, total-append ps ((key, tf) ∷ []), length-append ps ((key, tf) ∷ []))

pub postings_of-append :
    (t key : Text) (d : Document) (docs : List (Text × Document))
    → postings_of t (docs ++ ((key, d) ∷ []))
      ≡ postings_of t docs ++ add_posting key (unless_zero (count t d.lexical_tokens)) []
unfolding postings_of
postings_of-append t key d [] = refl
postings_of-append t key d ((k, e) ∷ docs) = ground (arith, postings_of-append t key d docs)

pub postings_of-remove :
    (t key : Text) (docs : List (Text × Document))
    → postings_of t (remove key docs) ≡ without key (postings_of t docs)
unfolding postings_of remove
postings_of-remove t key [] = refl
postings_of-remove t key ((k, e) ∷ docs) = ground (arith, postings_of-remove t key docs)

-- The keys that have no document have no posting.
without-absent :
    (t key : Text) (docs : List (Text × Document))
    → lookup key docs ≡ none
    → without key (postings_of t docs) ≡ postings_of t docs
unfolding postings_of lookup
without-absent t key [] h = refl
without-absent t key ((k, e) ∷ docs) h = ground (arith, without-absent t key docs)

record Loses (key : Text) (n : ℕ) (ps : Postings) : Type 0 where
  fewer : suc (length (without key ps)) ≡ length ps
  less : n + total (without key ps) ≡ total ps

pub without-plain :
    (t key : Text) (d : Document) (docs : List (Text × Document))
    → IsUnique docs
    → lookup key docs ≡ some d
    → count t d.lexical_tokens ≡ 0
    → without key (postings_of t docs) ≡ postings_of t docs
unfolding postings_of lookup
without-plain t key d [] u h z = cc
without-plain t key d ((k, e) ∷ docs) (a, u) h z =
    ground (arith, without-plain t key d docs u, without-absent t key docs, ==_iff k key)

without-Loses :
    (t key : Text) (d : Document) (docs : List (Text × Document)) (n : ℕ)
    → IsUnique docs
    → lookup key docs ≡ some d
    → count t d.lexical_tokens ≡ suc n
    → Loses key (suc n) (postings_of t docs)
unfolding postings_of lookup
without-Loses t key d [] n u h z = cc
without-Loses t key d ((k, e) ∷ docs) n (a, u) h z =
    ground (arith, without-Loses t key d docs n u, without-absent t key docs, ==_iff k key)

count_out-expected :
    (n : ℕ) (p : Text × ℕ) (ps ws : Postings)
    → suc (length ws) ≡ length (p ∷ ps)
    → n + total ws ≡ total (p ∷ ps)
    → (count_out n (record { df = length (p ∷ ps); total_tf = pos (total (p ∷ ps)) }), nonempty ws)
      ≡ expected ws
count_out-expected n p ps [] f l = ground arith
count_out-expected n p ps (w ∷ ws) f l = ground arith

forget_view-expected :
    (key : Text) (n : ℕ) (ps : Postings)
    → Loses key n ps
    → forget_view key n (expected ps) ≡ expected (without key ps)
forget_view-expected key n [] l = ground arith
forget_view-expected key n (p ∷ ps) l =
    count_out-expected n p ps (without key (p ∷ ps)) l.fewer l.less

pub forget_view-postings :
    (t key : Text) (d : Document) (docs : List (Text × Document)) (n : ℕ)
    → IsUnique docs
    → lookup key docs ≡ some d
    → count t d.lexical_tokens ≡ suc n
    → forget_view key (suc n) (expected (postings_of t docs))
      ≡ expected (without key (postings_of t docs))
forget_view-postings t key d docs n u h z =
    forget_view-expected key (suc n) (postings_of t docs) (without-Loses t key d docs n u h z)
