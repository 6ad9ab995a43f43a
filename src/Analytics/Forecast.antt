-- ===== src/Analytics/Forecast.antt =====
-- analytics.service.ts: `forecast`, the months behind and ahead. dayjs is not part of the
-- repository, so the calendar is a parameter; months are compared by their text `YYYY-MM`, as in
-- the code.
pub mod Tariffs
pub mod Whole
use infra_billing.Base.{
  Bool, List, Map, Option, Str, [], if◌then◌else◌, ltb, map_get, map_set, none, or_null, some,
  str_lt, suc, zero, ℕ, ◌&&◌, ◌>>=◌, ◌||◌, ◌∷◌,
}
use infra_billing.Decimal.{Decimal}
use infra_billing.Money.{monthly_cost, Period, monthly, hourly, quarterly, daily, yearly, onetime}
use infra_billing.Rates.Latest.{convert}
use infra_billing.Rates.Archive.{HistoricalRates, rates_on}
use infra_billing.Analytics.{ServiceCost, PaymentSpent}
use infra_billing.Analytics.Due.{is_none}
use infra_billing.Analytics.Costs.{is_charge, monthly_base}

pub data DateUnit : Type 0 where
  day month year : DateUnit

-- `startOf('month')`, `add(n, unit)`, `subtract(n, 'month')` and `format('YYYY-MM')` of dayjs.
pub record Calendar : Type 0 where
  pub start_of_month : ℕ → ℕ
  pub add_time : ℕ → DateUnit → ℕ → ℕ
  pub months_before : ℕ → ℕ → ℕ
  pub year_month : ℕ → Str

-- `periodStep`.
unfoldable pub period_step : Period → Option (ℕ × DateUnit)
period_step monthly = some (1, month)
period_step hourly = some (1, month)
period_step quarterly = some (3, month)
period_step daily = some (1, day)
period_step yearly = some (1, year)
period_step onetime = none

-- The settings of `forecast`.
pub record ForecastSettings : Type 0 where
  pub backfill : Bool
  pub respect_created_at : Bool
  pub backdate_from_payments : Bool
  pub force : Bool

-- The options of `tariffForMonth`.
pub record TariffOptions : Type 0 where
  pub respect_created_at : Bool
  pub backdate_from_payments : Bool
  pub earliest_payment_month : Map Str

-- The keys of the months from a date on.
unfoldable pub months_from : Calendar → ℕ → ℕ → ℕ → List Str
months_from calendar start i zero = []
months_from calendar start i (suc n) =
    calendar.year_month (calendar.add_time i month start) ∷ months_from calendar start (suc i) n

-- `startKey` of `tariffForMonth`: an empty text counts as none.
unfoldable pub start_key : Calendar → TariffOptions → Str → ℕ → Str
start_key calendar opts account_uuid created_at =
    let own = calendar.year_month created_at in
    if opts.backdate_from_payments
    then elim (map_get account_uuid opts.earliest_payment_month >>= or_null) [
      | none ↦ own
      | some pay_key ↦ if str_lt pay_key own then pay_key else own
    ]
    else own

-- Whether a service counts in a month.
unfoldable pub is_gated : {D : Type 0} → Calendar → TariffOptions → Str → ServiceCost D → Bool
unfolding start_key
is_gated calendar opts month_key s =
    opts.respect_created_at
    && str_lt month_key (start_key calendar opts s.account_uuid s.created_at)

abbrev pub guard_rounds : ℕ
guard_rounds = 5000

-- `while (d.isBefore(projStart) && guard < 5000)`.
unfoldable pub catch_up : Calendar → ℕ × DateUnit → ℕ → ℕ → ℕ → ℕ
catch_up calendar step proj_start zero d = d
catch_up calendar step proj_start (suc guard) d =
    let later = catch_up calendar step proj_start guard (calendar.add_time step.0 step.1 d) in
    if ltb d proj_start then later else d

-- What the chart shows: three maps from months to amounts.
pub record Buckets (D : Type 0) : Type 0 where
  pub actual : Map D
  pub estimated : Map D
  pub projected : Map D

module _ {D : Type 0} ⦃num : Decimal D⦄ where
  -- The loop of `tariffForMonth`. `to_base` is its third argument, of an amount and its currency.
  unfoldable pub tariff_loop :
      Calendar → TariffOptions → Str → (D → Str → D) → List (ServiceCost D) → D → D
  tariff_loop calendar opts month_key to_base [] total = total
  tariff_loop calendar opts month_key to_base (s ∷ rest) total =
      tariff_loop calendar opts month_key to_base rest (
        if is_gated calendar opts month_key s
        then total
        else num.add total (to_base (monthly_cost s.cost s.period) s.currency))

  -- `tariffForMonth`.
  abbrev pub tariff_for_month :
      Calendar → TariffOptions → Str → (D → Str → D) → List (ServiceCost D) → D
  tariff_for_month calendar opts month_key to_base services =
      tariff_loop calendar opts month_key to_base services num.nought

  -- `new Map` with zero for each month.
  unfoldable pub zero_buckets : List Str → Map D → Map D
  zero_buckets [] m = m
  zero_buckets (key ∷ rest) m = zero_buckets rest (map_set key num.nought m)

  -- `if (m.has(key)) m.set(key, m.get(key).add(amount))`.
  unfoldable pub add_in : Str → D → Map D → Map D
  add_in key amount m = elim (map_get key m) [
    | none ↦ m
    | some sum ↦ map_set key (num.add sum amount) m
  ]

  -- The loop over the payments: months after the current one are left out.
  unfoldable pub actual_loop :
      Calendar
      → Str
      → Str
      → (Str → Bool)
      → List (PaymentSpent D)
      → HistoricalRates D
      → Map D
      → Map D
  actual_loop calendar base current_key topups [] history m = m
  actual_loop calendar base current_key topups (p ∷ rest) history m =
      let key = calendar.year_month p.payment_date in
      let read = rates_on history p.payment_date in
      let skip = actual_loop calendar base current_key topups rest history m in
      let counted =
        actual_loop calendar base current_key topups rest read.1
          (add_in key (convert p.amount p.currency base read.0) m) in
      if (is_charge p && topups p.account_uuid) || is_none (map_get key m) || str_lt current_key key
      then skip
      else counted

  -- The loop over the months up to the current one; `force` overwrites the actual amounts.
  unfoldable pub estimate_loop : (Str → D) → Bool → Str → List Str → Buckets D → Buckets D
  estimate_loop tariff force current_key [] b = b
  estimate_loop tariff force current_key (key ∷ rest) b =
      estimate_loop tariff force current_key rest (
        if str_lt current_key key then b else record b {
          estimated = map_set key (tariff key) b.estimated;
          actual = if force then map_set key (tariff key) b.actual else b.actual;
        })

  -- `while (d.isBefore(projEnd) && guard < 5000)`.
  unfoldable pub project_loop : Calendar → ℕ × DateUnit → ℕ → D → ℕ → ℕ → Map D → Map D
  project_loop calendar step proj_end charge zero d m = m
  project_loop calendar step proj_end charge (suc guard) d m =
      let later =
        project_loop calendar step proj_end charge guard (calendar.add_time step.0 step.1 d)
          (add_in (calendar.year_month d) charge m) in
      if ltb d proj_end then later else m

  -- One billed service, whose next date is known.
  unfoldable pub project_service : Calendar → ℕ → ℕ → D → Option (ℕ × DateUnit) → ℕ → Map D → Map D
  unfolding catch_up project_loop add_in
  project_service calendar proj_start proj_end charge none d m =
      if ltb d proj_start then m else add_in (calendar.year_month d) charge m
  project_service calendar proj_start proj_end charge (some step) d m =
      project_loop calendar step proj_end charge guard_rounds
        (catch_up calendar step proj_start guard_rounds d) m
