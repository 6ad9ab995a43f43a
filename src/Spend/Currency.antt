-- ===== src/Spend/Currency.antt =====
-- `mostCommonCurrency` of spend.ts.
use infra_billing.Base.{
  Bool, List, Map, Option, Str, [], false, get_or_else, if◌then◌else◌, ltb, map_get, map_set, none,
  some, str_lt, ℕ, ◌&&◌, ◌+◌, ◌==◌, ◌>>=◌, ◌||◌, ◌∷◌,
}
use infra_billing.Spend.Data.{SpendCharge}

-- `counts` of `mostCommonCurrency`: how many charges have each currency, in the order first seen.
unfoldable pub count_currencies : {D : Type 0} → List (SpendCharge D) → Map ℕ → Map ℕ
count_currencies [] counts = counts
count_currencies (c ∷ cs) counts =
    count_currencies cs (map_set c.currency (get_or_else (map_get c.currency counts) 0 + 1) counts)

-- `bestN`: an empty text counts as no text.
abbrev pub count_of_best : Option (Str × ℕ) → ℕ
count_of_best none = 0
count_of_best (some ([], m)) = 0
count_of_best (some (x ∷ xs, m)) = m

abbrev pub ties_before : Str → Option (Str × ℕ) → Bool
ties_before cur none = false
ties_before cur (some (b, m)) = str_lt cur b

-- One round of the loop over the counts: `best`, with its count.
unfoldable pub better : Str → ℕ → Option (Str × ℕ) → Option (Str × ℕ)
better cur n best =
    if ltb (count_of_best best) n || ((n == count_of_best best) && ties_before cur best)
    then some (cur, n)
    else best

unfoldable pub best_of : Map ℕ → Option (Str × ℕ) → Option (Str × ℕ)
best_of [] best = best
best_of ((cur, n) ∷ rest) best = best_of rest (better cur n best)

module _ {D : Type 0} where
  -- `mostCommonCurrency`.
  unfoldable pub most_common_currency : List (SpendCharge D) → Option Str
  unfolding count_currencies best_of better
  most_common_currency cs = best_of (count_currencies cs []) none >>= λ b. some b.0
