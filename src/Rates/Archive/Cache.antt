-- ===== src/Rates/Archive/Cache.antt =====
-- The cache of `ratesOn` of historical-rates.ts.
use infra_billing.Base.{
  IsUnique, List, Map, Option, Option-cases, Str, [], arith, if◌then◌else◌, inl, inr, map_get,
  map_get-map_set, map_set, map_set-IsUnique, none, refl, some, str_eq, str_eq_iff, ℕ, ◌++◌, ◌==◌,
  ◌∙◌, ◌∷◌, ◌≡◌,
}
use infra_billing.Money.{utc_day}
use infra_billing.Rates.Archive.{
  CodeSeries, DailyRateRow, HistoricalRates, append_row, index_rows, new_historical_rates, as_of,
  set_some, add_as_of, cached, rates_on,
}

module _ {D : Type 0} where
  -- What the cache holds for a day is what would be computed for it.
  abbrev pub IsFresh : HistoricalRates D → Type 0
  IsFresh h =
      (day : ℕ) (m : Map D) → cached day h.cache ≡ some m → m ≡ add_as_of h.by_code day h.latest

  index_rows-IsUnique :
      (rows : List (DailyRateRow D)) (m : Map (CodeSeries D))
      → IsUnique m
      → IsUnique (index_rows rows m)
  unfolding index_rows
  index_rows-IsUnique [] m h = h
  index_rows-IsUnique (r ∷ rs) m h =
      index_rows-IsUnique rs (map_set r.code (append_row (map_get r.code m) r) m)
        (map_set-IsUnique r.code (append_row (map_get r.code m) r) m h)

  cached-append :
      (day d : ℕ) (m : Map D) (cache : List (ℕ × Map D))
      → cached day (cache ++ (d, m) ∷ [])
        ≡ elim (cached day cache) [ none ↦ (if d == day then some m else none) | some x ↦ some x ]
  unfolding cached
  cached-append day d m [] = refl
  cached-append day d m ((e, x) ∷ rest) = ground (arith, cached-append day d m rest)

  abbrev pub over : Option (CodeSeries D) → ℕ → Option D → Option D
  over none day live = live
  over (some s) day live = elim (as_of s day) [ none ↦ live | some r ↦ some r ]

  map_get-set_some :
      (k code : Str) (r : Option D) (m : Map D)
      → map_get code (set_some k r m) ≡ (
          if str_eq k code
          then elim r [ none ↦ map_get code m | some x ↦ some x ]
          else map_get code m)
  map_get-set_some k code none m = ground arith
  map_get-set_some k code (some x) m = map_get-map_set k code x m

  add_as_of-map_get :
      (code : Str) (by_code : Map (CodeSeries D)) (day : ℕ) (m : Map D)
      → IsUnique by_code
      → map_get code (add_as_of by_code day m) ≡ over (map_get code by_code) day (map_get code m)
  unfolding add_as_of map_get
  add_as_of-map_get code [] day m h = refl
  add_as_of-map_get code ((c, s) ∷ rest) day m h =
      add_as_of-map_get code rest day (set_some c (as_of s day) m) h.1
      ∙ rw (map_get-set_some c code (as_of s day) m) (ground (arith, str_eq_iff c code, h.0))

  -- The map that `ratesOn` returns, whether from the cache or not, holds for each code the
  -- archive's rate as of that day, and today's rate for a code that the archive does not have; and
  -- the cache stays right for the calls to come.
  pub rates_on-IsFresh :
      (h : HistoricalRates D) (date : ℕ)
      → IsUnique h.by_code
      → IsFresh h
      → ((code : Str)
          → map_get code (rates_on h date).0
            ≡ over (map_get code h.by_code) (utc_day date) (map_get code h.latest))
        × IsFresh (rates_on h date).1
        × ((rates_on h date).1.by_code ≡ h.by_code)
        × ((rates_on h date).1.latest ≡ h.latest)
  unfolding rates_on
  rates_on-IsFresh h date u f = elim (Option-cases (cached (utc_day date) h.cache)) [
    | inl e ↦ rw e (
      λ code. add_as_of-map_get code h.by_code (utc_day date) h.latest u,
      λ day m p. ground (
        arith,
        cached-append day (utc_day date) (add_as_of h.by_code (utc_day date) h.latest) h.cache,
        f day m,
      ),
      refl,
      refl,
    )
    | inr (m, e) ↦ rw e (
      λ code.
          rw (f (utc_day date) m e) (add_as_of-map_get code h.by_code (utc_day date) h.latest u),
      f,
      refl,
      refl,
    )
  ]

  -- A new archive has one series for each code, and its empty cache is right.
  pub new_historical_rates-IsFresh :
      (rows : List (DailyRateRow D)) (latest : Map D)
      → IsUnique (new_historical_rates rows latest).by_code
        × IsFresh (new_historical_rates rows latest)
  unfolding new_historical_rates cached
  new_historical_rates-IsFresh rows latest = (index_rows-IsUnique rows [] tt, λ day m p. cc)
