-- ===== src/Analytics/Due.antt =====
-- analytics.service.ts: the charges ahead and the charges behind. Times are in milliseconds; a day
-- is a day of UTC, in which the backend runs.
pub mod Dates
use infra_billing.Base.{
  Bool, List, Option, [], false, if◌then◌else◌, ltb, none, not, some, true, ℕ, ◌&&◌, ◌*◌, ◌+◌, ◌-◌,
  ◌∷◌,
}
use infra_billing.Money.{is_metered_period, overdue_days, utc_day, ms_per_day}
use infra_billing.Analytics.{ServiceCost}

-- A dated charge of a service, with its cost in the base currency.
pub record Charge (D : Type 0) : Type 0 where
  pub service : ServiceCost D
  pub date : ℕ
  pub cost_base : D

abbrev pub is_none : {A : Type 0} → Option A → Bool
is_none none = true
is_none (some a) = false

-- `now.add(14, 'day')`.
abbrev pub horizon : ℕ → ℕ
horizon now = now + 14 * ms_per_day

-- The filter of `upcomingSorted`, on a date.
unfoldable pub is_ahead : {D : Type 0} → ℕ → ServiceCost D → ℕ → Bool
is_ahead now s date =
    not (is_metered_period s.period)
    && is_none (overdue_days (some date) now)
    && ltb date (horizon now)

-- The charges ahead, in the order of the services.
unfoldable pub charges_ahead :
    {D : Type 0} → ℕ → (ServiceCost D → D) → List (ServiceCost D) → List (Charge D)
charges_ahead now cost_base [] = []
charges_ahead now cost_base (s ∷ rest) =
    let later = charges_ahead now cost_base rest in
    elim s.next_billing_at [
      | none ↦ later
      | some date ↦
          if is_ahead now s date
          then record { service = s; date = date; cost_base = cost_base s } ∷ later
          else later
    ]

abbrev pub charge_date : {D : Type 0} → Charge D → ℕ
charge_date c = c.date

-- A charge that is overdue.
pub record Overdue (D : Type 0) : Type 0 where
  pub service : ServiceCost D
  pub days_overdue : ℕ

-- The loop of `overdueBillings`.
unfoldable pub overdue_loop : {D : Type 0} → ℕ → List (ServiceCost D) → List (Overdue D)
overdue_loop now [] = []
overdue_loop now (s ∷ rest) =
    let later = overdue_loop now rest in
    if is_metered_period s.period then later else elim (overdue_days s.next_billing_at now) [
      | none ↦ later
      | some days ↦ record { service = s; days_overdue = days } ∷ later
    ]

-- `daysUntil`.
abbrev pub days_until : ℕ → ℕ → ℕ
days_until now date = utc_day date - utc_day now
