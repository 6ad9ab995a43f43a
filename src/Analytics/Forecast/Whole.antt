-- ===== src/Analytics/Forecast/Whole.antt =====
-- analytics.service.ts: `forecast` from the rows that the repositories give.
use infra_billing.Base.{
  Bool, List, Map, Str, [], get_or_else, if◌then◌else◌, map, map_get, none, some, ℕ, ◌&&◌, ◌+◌,
  ◌||◌, ◌∷◌,
}
use infra_billing.Decimal.{Decimal}
use infra_billing.Rates.Latest.{convert}
use infra_billing.Rates.Archive.{HistoricalRates}
use infra_billing.Analytics.{ServiceCost, PaymentSpent}
use infra_billing.Analytics.Forecast.{
  Calendar, month, period_step, ForecastSettings, TariffOptions, months_from, Buckets,
  tariff_for_month, zero_buckets, actual_loop, estimate_loop, project_service,
}

-- The settings row: each flag counts only where those in front of it are set.
unfoldable pub forecast_settings : Bool → Bool → Bool → Bool → ForecastSettings
forecast_settings backfill respect backdate force = record {
  backfill = backfill;
  respect_created_at = backfill && respect;
  backdate_from_payments = (backfill && respect) && backdate;
  force = backfill && force;
}

-- What the repositories give: the payments since the window, the accounts with top-ups, the
-- services, those with a billing date, and the month of the first payment of each account.
pub record ForecastRows (D : Type 0) : Type 0 where
  pub payments : List (PaymentSpent D)
  pub has_topup : Str → Bool
  pub active_services : List (ServiceCost D)
  pub billed_services : List (ServiceCost D)
  pub earliest_payment_month : Map Str

-- `ForecastPoint`.
pub record ForecastPoint (D : Type 0) : Type 0 where
  pub month : Str
  pub actual : D
  pub estimated : D
  pub projected : D

module _ {D : Type 0} ⦃num : Decimal D⦄ where
  -- The loop over the billed services.
  unfoldable pub project_all : Calendar → ℕ → ℕ → Str → Map D → List (ServiceCost D) → Map D → Map D
  project_all calendar proj_start proj_end base rates [] m = m
  project_all calendar proj_start proj_end base rates (s ∷ rest) m =
      project_all calendar proj_start proj_end base rates rest (elim s.next_billing_at [
        | none ↦ m
        | some d ↦
            project_service calendar proj_start proj_end (convert s.cost s.currency base rates)
              (period_step s.period) d m
      ])

  abbrev pub bucket : Str → Map D → D
  bucket key m = get_or_else (map_get key m) num.nought

  abbrev pub point_of : Buckets D → Str → ForecastPoint D
  point_of b key = record {
    month = key;
    actual = bucket key b.actual;
    estimated = bucket key b.estimated;
    projected = bucket key b.projected;
  }

  abbrev pub options_of : ForecastSettings → ForecastRows D → TariffOptions
  options_of settings rows = record {
    respect_created_at = settings.respect_created_at;
    backdate_from_payments = settings.backdate_from_payments;
    earliest_payment_month = rows.earliest_payment_month;
  }

  -- `forecast`, `months` ahead and `months_back` behind.
  unfoldable pub forecast :
      Calendar
      → ForecastSettings
      → ℕ
      → ℕ
      → ℕ
      → Str
      → Map D
      → HistoricalRates D
      → ForecastRows D
      → List (ForecastPoint D)
  forecast calendar settings now months months_back base rates history rows =
      let current = calendar.start_of_month now in
      let current_key = calendar.year_month current in
      let keys =
        months_from calendar (calendar.months_before months_back current) 0
          (months_back + 1 + months) in
      let zeros = zero_buckets keys [] in
      let payments : List (PaymentSpent D) = if settings.force then [] else rows.payments in
      let start : Buckets D = record {
        actual = actual_loop calendar base current_key rows.has_topup payments history zeros;
        estimated = zeros;
        projected =
            project_all calendar (calendar.add_time 1 month current)
              (calendar.add_time (months + 1) month current) base rates rows.billed_services zeros;
      } in
      let tariff = λ (key : Str).
        tariff_for_month calendar (options_of settings rows) key
          (λ amount currency. convert amount currency base rates) rows.active_services in
      let full =
        if settings.backfill || settings.force
        then estimate_loop tariff settings.force current_key keys start
        else start in
      map (point_of full) keys
