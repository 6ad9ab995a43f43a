-- ===== src/Rates/Archive.antt =====
-- historical-rates.ts: the archive of daily rates, indexed by date.
pub mod Search
pub mod Cache
use infra_billing.Base.{
  Bool, List, Map, Option, Str, [], false, get_elem?, if◌then◌else◌, leb, length, ltb, map_get,
  map_set, none, some, suc, true, zero, ℕ, ◌++◌, ◌+◌, ◌-◌, ◌/◌, ◌==◌, ◌∷◌,
}
use infra_billing.Money.{utc_day}

pub record DailyRateRow (D : Type 0) : Type 0 where
  pub code : Str
  pub day : ℕ
  pub rate : D

-- The days of a code and their rates, oldest first.
pub record CodeSeries (D : Type 0) : Type 0 where
  pub days : List ℕ
  pub rates : List D

-- `new Map(…)` per day, and the series of each code; `cache` is the map of maps.
pub record HistoricalRates (D : Type 0) : Type 0 where
  pub by_code : Map (CodeSeries D)
  pub latest : Map D
  pub cache : List (ℕ × Map D)

-- `days[mid] <= day`, where a read outside the array is `undefined`, and no test holds of it.
abbrev pub at_most : Option ℕ → ℕ → Bool
at_most none day = false
at_most (some d) day = leb d day

-- The loop of `asOf`. `stop` is `hi + 1`, so that `hi` may be -1. Each round leaves less than half
-- of the days; at most `fuel` rounds.
unfoldable pub search_days : ℕ → List ℕ → ℕ → ℕ → ℕ → ℕ → ℕ
search_days zero days day lo stop found = found
search_days (suc fuel) days day lo stop found =
    let mid = (lo + (stop - 1)) / 2 in
    let up = search_days fuel days day (mid + 1) stop mid in
    let down = search_days fuel days day lo mid found in
    if ltb lo stop then (if at_most (get_elem? days mid) day then up else down) else found

module _ {D : Type 0} where
  abbrev pub append_row : Option (CodeSeries D) → DailyRateRow D → CodeSeries D
  append_row none r = record { days = r.day ∷ []; rates = r.rate ∷ [] }
  append_row (some s) r = record { days = s.days ++ r.day ∷ []; rates = s.rates ++ r.rate ∷ [] }

  -- The loop of the constructor.
  unfoldable pub index_rows : List (DailyRateRow D) → Map (CodeSeries D) → Map (CodeSeries D)
  index_rows [] by_code = by_code
  index_rows (r ∷ rs) by_code =
      index_rows rs (map_set r.code (append_row (map_get r.code by_code) r) by_code)

  -- `new HistoricalRates(rows, latest)`.
  unfoldable pub new_historical_rates : List (DailyRateRow D) → Map D → HistoricalRates D
  unfolding index_rows
  new_historical_rates rows latest = record {
    by_code = index_rows rows [];
    latest = latest;
    cache = [];
  }

  -- `isEmpty`.
  unfoldable pub is_empty : HistoricalRates D → Bool
  is_empty h = elim h.by_code [ [] ↦ true | s ∷ ss ↦ false ]

  -- `asOf` on a list of days that is not empty.
  abbrev pub as_of_days : ℕ → List ℕ → List D → ℕ → Option D
  as_of_days first days rates day =
      if ltb day first
      then get_elem? rates 0
      else get_elem? rates (search_days (length days) days day 0 (length days) 0)

  -- `asOf`.
  unfoldable pub as_of : CodeSeries D → ℕ → Option D
  unfolding search_days
  as_of s day = elim s.days [ [] ↦ none | d ∷ ds ↦ as_of_days d s.days s.rates day ]

  abbrev pub set_some : Str → Option D → Map D → Map D
  set_some code none m = m
  set_some code (some rate) m = map_set code rate m

  -- The loop of `ratesOn` over the series.
  unfoldable pub add_as_of : Map (CodeSeries D) → ℕ → Map D → Map D
  unfolding as_of
  add_as_of [] day m = m
  add_as_of ((code, s) ∷ rest) day m = add_as_of rest day (set_some code (as_of s day) m)

  unfoldable pub cached : ℕ → List (ℕ × Map D) → Option (Map D)
  cached day [] = none
  cached day ((d, m) ∷ rest) = let later = cached day rest in if d == day then some m else later

  abbrev pub answer : HistoricalRates D → ℕ → Option (Map D) → Map D × HistoricalRates D
  answer h day (some m) = (m, h)
  answer h day none =
      let m = add_as_of h.by_code day h.latest in (m, record h { cache = h.cache ++ (day, m) ∷ [] })

  -- `ratesOn`, with the archive as it is afterwards.
  unfoldable pub rates_on : HistoricalRates D → ℕ → Map D × HistoricalRates D
  unfolding add_as_of cached
  rates_on h date = answer h (utc_day date) (cached (utc_day date) h.cache)
