-- ===== src/Std/Regexp.antt =====
-- The part of Go's regexp that the program uses: classes, sequences, `?` and `{0,n}`, matched
-- against the whole text (`^…$` with no flags).
use tenant_deck.Base.{ℕ, zero, suc, Bool, true, false, ◌&&◌, ◌||◌, List, [], ◌∷◌}

pub data Regex : Type 0 where
  class : (ℕ → Bool) → Regex
  seq : Regex → Regex → Regex
  opt : Regex → Regex
  up_to : ℕ → (ℕ → Bool) → Regex

abbrev pub is_end : List ℕ → Bool
is_end [] = true
is_end (_ ∷ _) = false

-- At most `n` characters of the class, then the rest of the pattern.
unfoldable pub run_up_to : ℕ → (ℕ → Bool) → (List ℕ → Bool) → List ℕ → Bool
run_up_to zero p k s = k s
run_up_to (suc n) p k [] = k []
run_up_to (suc n) p k (c ∷ s) = k (c ∷ s) || (p c && run_up_to n p k s)

unfoldable pub run_class : (ℕ → Bool) → (List ℕ → Bool) → List ℕ → Bool
run_class p k [] = false
run_class p k (c ∷ s) = p c && k s

-- A match of the pattern at the head, with `k` for what must match after it.
unfoldable pub run : Regex → (List ℕ → Bool) → List ℕ → Bool
unfolding run_up_to run_class
run (class p) k s = run_class p k s
run (seq a b) k s = run a (run b k) s
run (opt a) k s = run a k s || k s
run (up_to n p) k s = run_up_to n p k s

unfoldable pub match_string : Regex → List ℕ → Bool
unfolding run
match_string r s = run r is_end s
