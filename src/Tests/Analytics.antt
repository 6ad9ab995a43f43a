-- ===== src/Tests/Analytics.antt =====
-- Two accounts with three services, and their charges.
use infra_billing.Base.{
  All, List, Option, Str, [], codes, false, filter, get_elem?, get_or_else, length, map_get, none,
  refl, some, str_eq, true, ℕ, ◌%◌, ◌*◌, ◌++◌, ◌+◌, ◌-◌, ◌/◌, ◌>>=◌, ◌∷◌, ◌≡◌,
}
use infra_billing.Decimal.{Whole, pos, whole_decimal}
use infra_billing.Rates.Latest.{convert}
use infra_billing.Money.{Period, monthly, hourly, ms_per_day}
use infra_billing.Analytics.{ServiceCost, AccountBalance}
use infra_billing.Analytics.Costs.{Costs, cost_loop, no_costs}
use infra_billing.Analytics.Costs.Groups.{group, amount_in_base, of_key, cost_loop-group}
use infra_billing.Analytics.Due.{Charge, charges_ahead, overdue_loop}
use infra_billing.Analytics.Due.Dates.{Ahead, Behind, is_due, charges_ahead-overdue_loop}
use infra_billing.Analytics.Billings.{Running, Upcoming, running_of, covers, cover_loop}
use infra_billing.Analytics.Billings.Coverage.{left, cover_loop-covered}
use infra_billing.Accounts.Merging.{digits}
use infra_billing.Analytics.Forecast.{
  Calendar, DateUnit, day, month, year, TariffOptions, tariff_for_month,
}
use infra_billing.Analytics.Forecast.Tariffs.{counted, tariff_for_month-cost_loop}
use infra_billing.Analytics.Runways.{balance_runway}
use infra_billing.Analytics.Runways.Rows.{RunsOut, balance_runway-RunsOut}

abbrev service : Str → Str → ℕ → Period → Option ℕ → ServiceCost Whole
service uuid account cost period date = record {
  uuid = uuid;
  name = uuid;
  provider_uuid = codes "p";
  account_uuid = account;
  project_uuid = codes "j";
  type_name = codes "vps";
  country_code = none;
  meta = [];
  cost = pos cost;
  currency = codes "USD";
  period = period;
  next_billing_at = date;
  created_at = 0;
}

abbrev at_day : ℕ → ℕ
at_day n = n * ms_per_day

abbrev services : List (ServiceCost Whole)
services =
    service (codes "s1") (codes "a") 30 monthly (some (at_day 103))
    ∷ service (codes "s2") (codes "a") 20 monthly (some (at_day 98))
    ∷ service (codes "s3") (codes "b") 1 hourly (some (at_day 101))
    ∷ []

cost_loop-group_example :
    let amount : ServiceCost Whole → Whole = amount_in_base (codes "USD") [] in
    let r : Costs Whole = cost_loop (codes "USD") [] services no_costs in
    (map_get (codes "p") r.by_provider
      ≡ group amount (of_key (λ s. s.provider_uuid) (codes "p") services))
    × (map_get (codes "p") r.by_project
        ≡ group amount (of_key (λ s. s.project_uuid) (codes "p") services))
    × (map_get (codes "p") r.by_country
        ≡ group amount (of_key (λ s. get_or_else s.country_code (codes "XX")) (codes "p") services))
    × (map_get (codes "p") r.by_type
        ≡ group amount (of_key (λ s. s.type_name) (codes "p") services))
cost_loop-group_example = cost_loop-group (codes "USD") [] services (codes "p")

charges_ahead-overdue_loop_example :
    All (Ahead (at_day 100)) (charges_ahead (at_day 100) (λ s. s.cost) services)
    × All (Behind (at_day 100)) (overdue_loop (at_day 100) services)
    × (length (charges_ahead (at_day 100) (λ s. s.cost) services)
          + length (overdue_loop (at_day 100) services)
        ≡ length (filter (is_due (at_day 100)) services))
charges_ahead-overdue_loop_example = charges_ahead-overdue_loop (at_day 100) (λ s. s.cost) services

abbrev charge : Str → Str → ℕ → ℕ → Charge Whole
charge uuid account cost date = record {
  service = service uuid account cost monthly (some date);
  date = date;
  cost_base = pos cost;
}

abbrev running : Running Whole
running = record {
  base = (codes "a", some (pos 40)) ∷ (codes "b", some (pos 5)) ∷ [];
  native = (codes "a", some (pos 40)) ∷ (codes "b", some (pos 5)) ∷ [];
}

abbrev before : List (Charge Whole)
before =
    charge (codes "s1") (codes "a") 30 (at_day 101)
    ∷ charge (codes "s2") (codes "b") 4 (at_day 102)
    ∷ []

abbrev last : Charge Whole
last = charge (codes "s3") (codes "a") 20 (at_day 103)

cover_loop-covered_example :
    (get_elem?
        (cover_loop (at_day 100) [] (λ u. none) (λ u. false) (before ++ last ∷ []) running).0
        (length before)
      >>= λ (u : Upcoming Whole). some u.covered)
    ≡ some (covers (left (running_of (codes "a") running.base) (codes "a") before) (pos 20))
cover_loop-covered_example =
    cover_loop-covered (at_day 100) [] (λ u. none) (λ u. false) before [] last running

-- Of the 40 that the account has, the first charge leaves 10.
short_of_funds :
    covers (left (running_of (codes "a") running.base) (codes "a") before) (pos 20) ≡ some false
unfolding map_get str_eq
short_of_funds = refl

abbrev accounts : List (AccountBalance Whole)
accounts =
    record {
      uuid = codes "b";
      provider_uuid = codes "p";
      label = none;
      balance = some (pos 100);
      balance_currency = some (codes "USD");
      is_postpaid = false;
    }
    ∷ []

balance_runway-RunsOut_example : All (RunsOut services) (balance_runway [] services [] accounts)
balance_runway-RunsOut_example = balance_runway-RunsOut [] services [] accounts

abbrev length_of : DateUnit → ℕ
length_of day = ms_per_day
length_of month = 30 * ms_per_day
length_of year = 360 * ms_per_day

-- Twelve months of thirty days.
abbrev calendar : Calendar
calendar = record {
  start_of_month = λ d. d - d % (30 * ms_per_day);
  add_time = λ n unit d. d + n * length_of unit;
  months_before = λ n d. d - n * (30 * ms_per_day);
  year_month = λ d. digits (1000 + d / (30 * ms_per_day));
}

abbrev options : TariffOptions
options = record {
  respect_created_at = true;
  backdate_from_payments = false;
  earliest_payment_month = [];
}

tariff_for_month-cost_loop_example :
    tariff_for_month calendar options
      (codes "1002")
      (λ amount currency. convert amount currency (codes "USD") [])
      services
    ≡ (cost_loop
        (codes "USD")
        []
        (counted calendar options (codes "1002") services)
        no_costs).monthly_total
tariff_for_month-cost_loop_example =
    tariff_for_month-cost_loop calendar options (codes "1002") (codes "USD") [] services
