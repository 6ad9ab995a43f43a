-- ===== src/Money.antt =====
-- apps/backend/src/common/money.ts, overdue.ts and billing-severity.ts: the cost of a service in a
-- month, which services are metered, and how urgent a dated charge is.
pub mod Urgency
use infra_billing.Base.{
  Bool, Option, false, if◌then◌else◌, leb, ltb, none, not, some, true, ℕ, ◌&&◌, ◌*◌, ◌-◌, ◌/◌, ◌||◌,
}
use infra_billing.Decimal.{Decimal}

-- `Period` of packages/shared/src/enums.ts.
pub data Period : Type 0 where
  monthly yearly quarterly daily hourly onetime : Period

abbrev pub hours_per_month : ℕ
hours_per_month = 730

-- `isMeteredPeriod`.
unfoldable pub is_metered_period : Period → Bool
is_metered_period daily = true
is_metered_period hourly = true
is_metered_period _ = false

module _ {D : Type 0} ⦃num : Decimal D⦄ where
  abbrev days_per_month : D
  days_per_month = num.div (num.of_ℕ hours_per_month) (num.of_ℕ 24)

  -- `monthlyCost`.
  unfoldable pub monthly_cost : D → Period → D
  monthly_cost c monthly = c
  monthly_cost c yearly = num.div c (num.of_ℕ 12)
  monthly_cost c quarterly = num.div c (num.of_ℕ 3)
  monthly_cost c daily = num.mul c days_per_month
  monthly_cost c hourly = num.mul c (num.of_ℕ hours_per_month)
  monthly_cost c onetime = num.nought

abbrev pub ms_per_day : ℕ
ms_per_day = 86400000

-- A calendar day of UTC, in which the backend runs, as its number since 1970-01-01: it stands for
-- `YYYY-MM-DD`, `startOf('day')` and `utcDay`, which name, order and tell apart days alike.
abbrev pub utc_day : ℕ → ℕ
utc_day ms = ms / ms_per_day

-- `overdueDays`.
unfoldable pub overdue_days : Option ℕ → ℕ → Option ℕ
overdue_days none now = none
overdue_days (some due) now =
    let today = utc_day now * ms_per_day in
    if ltb due today then some (utc_day today - utc_day due) else none

-- `BillingSeverity` of packages/shared/src/schemas/analytics.ts.
pub data Severity : Type 0 where
  critical warning ok : Severity

-- `covered === false`, and `covered === null`.
abbrev is_false : Option Bool → Bool
is_false none = false
is_false (some b) = not b

abbrev is_null : Option Bool → Bool
is_null none = true
is_null (some b) = false

-- `chargeSeverity`.
unfoldable pub charge_severity : Option Bool → ℕ → Bool → Severity
charge_severity covered days_until is_postpaid =
    if is_false covered && leb days_until 7
    then critical
    else if is_null covered && not is_postpaid && leb days_until 7
    then critical
    else if is_false covered || leb days_until 3
    then warning
    else ok
