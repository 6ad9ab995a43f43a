-- ===== src/Rates/Latest.antt =====
-- currency.service.ts: the latest rates, conversion, and the refresh.
pub mod Agree
use infra_billing.Base.{
  List, Map, Option, Str, [], any, codes, filter, if◌then◌else◌, map, map_get, map_set, none, not,
  some, str_eq, ℕ, ◌++◌, ◌∷◌,
}
use infra_billing.Decimal.{Decimal}

-- `rateSource` of the settings, and the `source` of a stored rate.
pub data RateSource : Type 0 where
  cbr manual : RateSource

pub data RowSource : Type 0 where
  from_cbr from_rapira from_cmc by_hand : RowSource

-- A row of `exchange_rates`, whose base is RUB.
pub record ExchangeRate (D : Type 0) : Type 0 where
  pub code : Str
  pub rate : D
  pub source : RowSource
  pub captured_at : ℕ

abbrev pub rub : Str
rub = codes "RUB"

abbrev pub usdt : Str
usdt = codes "USDT"

module _ {D : Type 0} where
  -- The loop of `getRubRates` over the rows, newest first.
  unfoldable pub add_latest : List (ExchangeRate D) → Map D → Map D
  add_latest [] rates = rates
  add_latest (r ∷ rs) rates =
      add_latest rs
        (elim (map_get r.code rates) [ none ↦ map_set r.code r.rate rates | some d ↦ rates ])

  -- The loop of `listRates`, with the codes `seen` so far.
  unfoldable pub list_rates_from : List Str → List (ExchangeRate D) → List (ExchangeRate D)
  list_rates_from seen [] = []
  list_rates_from seen (r ∷ rs) =
      let skip = list_rates_from seen rs in
      let take_it = r ∷ list_rates_from (r.code ∷ seen) rs in
      if any (str_eq r.code) seen then skip else take_it

  -- `listRates`.
  unfoldable pub list_rates : List (ExchangeRate D) → List (ExchangeRate D)
  unfolding list_rates_from
  list_rates = list_rates_from []

  -- The latest rate of a code: that of the first row that has it.
  abbrev pub rate_in : Str → List (ExchangeRate D) → Option D
  rate_in code [] = none
  rate_in code (r ∷ rs) =
      let later = rate_in code rs in if str_eq r.code code then some r.rate else later

module _ {D : Type 0} ⦃num : Decimal D⦄ where
  -- `getRubRates`.
  unfoldable pub get_rub_rates : List (ExchangeRate D) → Map D
  unfolding add_latest
  get_rub_rates rows = add_latest rows ((rub, num.of_ℕ 1) ∷ [])

  abbrev pub through_rub : D → Option D → Option D → D
  through_rub amount (some from_rate) (some base_rate) =
      num.div (num.mul amount from_rate) base_rate
  through_rub amount _ _ = amount

  -- `convert`. A rate that is a `Decimal` is an object, so `!fromRate` tests for a missing one.
  unfoldable pub convert : D → Str → Str → Map D → D
  convert amount from to_base rates =
      if str_eq from to_base
      then amount
      else through_rub amount (map_get from rates) (map_get to_base rates)

-- `expectedHistoryCodes`, from the CBR currencies of packages/shared/src/enums.ts.
unfoldable pub expected_history_codes : RateSource → List Str → List Str
expected_history_codes cbr currencies = filter (λ c. not (str_eq c rub)) currencies ++ usdt ∷ []
expected_history_codes manual currencies = usdt ∷ []

-- What `fetchRates` returns: quotes in roubles, and the day from which they hold.
pub record CbrSnapshot (D : Type 0) : Type 0 where
  pub day : ℕ
  pub quotes : List (Str × D)

-- A row that `refreshRates` stores, in both tables.
pub record RateRow : Type 0 where
  pub code : Str
  pub rate : Str
  pub source : RowSource
  pub day : ℕ

module _ {D : Type 0} ⦃num : Decimal D⦄ where
  abbrev pub cbr_row : ℕ → Str × D → RateRow
  cbr_row day (code, per_rub) = record {
    code = code;
    rate = num.to_fixed 8 per_rub;
    source = from_cbr;
    day = day;
  }

  abbrev pub usdt_row : ℕ → D → RateRow
  usdt_row today rate = record {
    code = usdt;
    rate = num.to_fixed 8 rate;
    source = from_rapira;
    day = today;
  }

  abbrev pub usdt_rows : ℕ → Option D → List RateRow
  usdt_rows today none = []
  usdt_rows today (some rate) = usdt_row today rate ∷ []

  -- The rows that `refreshRates` stores, from what its two fetches returned (`none` where one
  -- threw): a failure of CBR ends the refresh, and one of Rapira does not.
  unfoldable pub refresh_rates :
      RateSource → Option (CbrSnapshot D) → Option D → ℕ → Option (List RateRow)
  refresh_rates cbr none rapira today = none
  refresh_rates cbr (some snapshot) rapira today =
      some (map (cbr_row snapshot.day) snapshot.quotes ++ usdt_rows today rapira)
  refresh_rates manual fetched rapira today = some (usdt_rows today rapira)
