-- ===== src/Analytics/Runways.antt =====
-- analytics.service.ts: how long the balances last where no dated charge depletes them.
pub mod Rows
use infra_billing.Base.{
  Bool, List, Map, Option, Str, [], any, filter, get_or_else, if◌then◌else◌, leb, map, map_get,
  map_set, none, not, or_null, some, sort_by, str_eq, ℕ, ◌&&◌, ◌++◌, ◌>>=◌, ◌||◌, ◌∷◌,
}
use infra_billing.Decimal.{Decimal}
use infra_billing.Money.{is_metered_period, monthly_cost}
use infra_billing.Runway.{SnapPoint, burn_from_snapshots, burn_from_monthly_cost, days_of_runway}
use infra_billing.Rates.Latest.{convert}
use infra_billing.Analytics.{ServiceCost, AccountBalance}
use infra_billing.Analytics.Due.{is_none}

-- A row of the balance history.
pub record Snapshot (D : Type 0) : Type 0 where
  pub account_uuid : Str
  pub balance : D
  pub currency : Str
  pub captured_at : ℕ

pub data Basis : Type 0 where
  by_snapshots by_services : Basis

pub data RunwaySeverity : Type 0 where
  critical warning ok : RunwaySeverity

-- A row of `balanceRunway`.
pub record RunwayRow (D : Type 0) : Type 0 where
  pub account : AccountBalance D
  pub currency : Str
  pub burn_per_day : D
  pub days_left : ℕ
  pub basis : Basis
  pub severity : RunwaySeverity

-- `datedAccountUuids.has(uuid)`.
unfoldable pub is_dated : {D : Type 0} → List (ServiceCost D) → Str → Bool
is_dated services uuid =
    any
      (λ s.
        not (is_none s.next_billing_at)
        && not (is_metered_period s.period)
        && str_eq s.account_uuid uuid)
      services

-- The loop of `snapsByAccount`.
unfoldable pub snaps_by_account :
    {D : Type 0} → List (Snapshot D) → Map (List (Snapshot D)) → Map (List (Snapshot D))
snaps_by_account [] m = m
snaps_by_account (snap ∷ rest) m =
    snaps_by_account rest
      (map_set snap.account_uuid (get_or_else (map_get snap.account_uuid m) [] ++ snap ∷ []) m)

abbrev pub snap_point : {D : Type 0} → Snapshot D → SnapPoint D
snap_point snap = record { balance = snap.balance; captured_at = snap.captured_at }

abbrev pub points_in : {D : Type 0} → Str → List (Snapshot D) → List (SnapPoint D)
points_in currency snaps =
    map snap_point (filter (λ (s : Snapshot _). str_eq s.currency currency) snaps)

unfoldable pub runway_severity : ℕ → RunwaySeverity
runway_severity days_left =
    if leb days_left 3 then critical else if leb days_left 7 then warning else ok

module _ {D : Type 0} ⦃num : Decimal D⦄ where
  -- The monthly cost of the account's services in its currency.
  unfoldable pub account_monthly : Str → Map D → Str → List (ServiceCost D) → D → D
  account_monthly currency rates uuid [] monthly = monthly
  account_monthly currency rates uuid (s ∷ rest) monthly =
      account_monthly currency rates uuid rest (
        if str_eq s.account_uuid uuid
        then num.add monthly (convert (monthly_cost s.cost s.period) s.currency currency rates)
        else monthly)

  -- The burn from the snapshots, and from the services where they do not show it.
  abbrev pub burn_of : Option D → Option D → Option (D × Basis)
  burn_of (some burn) from_services = some (burn, by_snapshots)
  burn_of none (some burn) = some (burn, by_services)
  burn_of none none = none

  -- `if (severity === 'ok') continue`.
  abbrev pub listed : RunwaySeverity → RunwayRow D → Option (RunwayRow D)
  listed ok row = none
  listed warning row = some row
  listed critical row = some row

  abbrev pub row_for : AccountBalance D → D → Str → Option (D × Basis) → Option (RunwayRow D)
  row_for a balance currency none = none
  row_for a balance currency (some (burn, basis)) =
      let days = days_of_runway balance burn in
      listed (runway_severity days) (record {
        account = a;
        currency = currency;
        burn_per_day = burn;
        days_left = days;
        basis = basis;
        severity = runway_severity days;
      })

  -- One round of the loop over the accounts.
  unfoldable pub runway_row :
      Map D
      → List (ServiceCost D)
      → Map (List (Snapshot D))
      → AccountBalance D
      → Option (RunwayRow D)
  runway_row rates services snaps a = elim a.balance [
    | none ↦ none
    | some balance ↦ elim (a.balance_currency >>= or_null) [
      | none ↦ none
      | some currency ↦
          if a.is_postpaid || is_dated services a.uuid
          then none
          else row_for a balance currency (
              burn_of
                (burn_from_snapshots (points_in currency (get_or_else (map_get a.uuid snaps) [])))
                (burn_from_monthly_cost
                  (account_monthly currency rates a.uuid services num.nought)))
    ]
  ]

  unfoldable pub runway_loop :
      Map D
      → List (ServiceCost D)
      → Map (List (Snapshot D))
      → List (AccountBalance D)
      → List (RunwayRow D)
  runway_loop rates services snaps [] = []
  runway_loop rates services snaps (a ∷ rest) =
      let later = runway_loop rates services snaps rest in
      elim (runway_row rates services snaps a) [ none ↦ later | some row ↦ row ∷ later ]

  abbrev pub row_days : RunwayRow D → ℕ
  row_days r = r.days_left

  -- `balanceRunway`.
  unfoldable pub balance_runway :
      Map D
      → List (ServiceCost D)
      → List (Snapshot D)
      → List (AccountBalance D)
      → List (RunwayRow D)
  unfolding runway_loop runway_row snaps_by_account
  balance_runway rates services snapshots accounts =
      sort_by row_days (runway_loop rates services (snaps_by_account snapshots []) accounts)
