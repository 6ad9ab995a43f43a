-- ===== src/Tests/Rates.antt =====
-- Two days of rates of the dollar, and today's rate.
use infra_billing.Base.{
  List, Str, [], arith, codes, if◌then◌else◌, map_get, some, str_eq, suc, zero, ◌∷◌, ◌≡◌,
}
use infra_billing.Decimal.{Whole, pos, whole_decimal}
use infra_billing.Money.{utc_day}
use infra_billing.Rates.Archive.{
  DailyRateRow, CodeSeries, HistoricalRates, new_historical_rates, as_of, rates_on,
}
use infra_billing.Rates.Archive.Search.{InOrder, AsOf, as_of-AsOf}
use infra_billing.Rates.Archive.Cache.{
  IsFresh, over, rates_on-IsFresh, new_historical_rates-IsFresh,
}
use infra_billing.Rates.Latest.{
  ExchangeRate, from_cbr, by_hand, get_rub_rates, list_rates, rate_in, rub,
}
use infra_billing.Rates.Latest.Agree.{get_rub_rates-list_rates}

abbrev series : CodeSeries Whole
series = record { days = 10 ∷ 20 ∷ []; rates = pos 90 ∷ pos 95 ∷ [] }

series-InOrder : InOrder series.days
series-InOrder zero zero d e h p q = ground (arith, p, q)
series-InOrder zero (suc zero) d e h p q = ground (arith, p, q)
series-InOrder (suc zero) (suc zero) d e h p q = ground (arith, p, q)
series-InOrder (suc zero) zero d e h p q = omega arith
series-InOrder (suc (suc i)) j d e h p q = ground (arith, p)
series-InOrder i (suc (suc j)) d e h p q = ground (arith, q)

as_of-AsOf_example : AsOf series 15 (as_of series 15)
as_of-AsOf_example = as_of-AsOf series 15 series-InOrder

abbrev rows : List (DailyRateRow Whole)
rows =
    record { code = codes "USD"; day = 10; rate = pos 90 }
    ∷ record { code = codes "USD"; day = 20; rate = pos 95 }
    ∷ []

abbrev archive : HistoricalRates Whole
archive = new_historical_rates rows ((codes "USD", pos 97) ∷ (codes "EUR", pos 101) ∷ [])

rates_on-IsFresh_example :
    ((code : Str)
      → map_get code (rates_on archive 1300000000).0
        ≡ over (map_get code archive.by_code) (utc_day 1300000000) (map_get code archive.latest))
    × IsFresh (rates_on archive 1300000000).1
    × ((rates_on archive 1300000000).1.by_code ≡ archive.by_code)
    × ((rates_on archive 1300000000).1.latest ≡ archive.latest)
rates_on-IsFresh_example =
    rates_on-IsFresh archive 1300000000
      (new_historical_rates-IsFresh rows ((codes "USD", pos 97) ∷ (codes "EUR", pos 101) ∷ [])).0
      (new_historical_rates-IsFresh rows ((codes "USD", pos 97) ∷ (codes "EUR", pos 101) ∷ [])).1

abbrev stored : List (ExchangeRate Whole)
stored =
    record { code = codes "USD"; rate = pos 97; source = by_hand; captured_at = 2 }
    ∷ record { code = codes "USD"; rate = pos 95; source = from_cbr; captured_at = 1 }
    ∷ []

get_rub_rates-list_rates_example :
    map_get (codes "USD") (get_rub_rates stored)
    ≡ (if str_eq rub (codes "USD") then some (pos 1) else rate_in (codes "USD") (list_rates stored))
get_rub_rates-list_rates_example = get_rub_rates-list_rates stored (codes "USD")
