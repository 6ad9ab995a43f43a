-- ===== src/Analytics/Costs.antt =====
-- analytics.service.ts: the monthly costs of `summary` and `projectStats`, and what has been spent.
pub mod Groups
pub mod Project
use infra_billing.Base.{
  Bool, List, Map, Option, Str, [], any, codes, get_or_else, if◌then◌else◌, map_get, map_set, none,
  not, some, str_eq, ℕ, ◌&&◌, ◌+◌, ◌∷◌,
}
use infra_billing.Decimal.{Decimal}
use infra_billing.Money.{monthly_cost}
use infra_billing.Rates.Latest.{convert}
use infra_billing.Rates.Archive.{HistoricalRates, rates_on}
use infra_billing.Analytics.{ServiceCost, AccountBalance, PaymentSpent}

-- `Agg`.
pub record Agg (D : Type 0) : Type 0 where
  pub monthly : D
  pub count : ℕ

-- The entries of `byCurrency`.
pub record CurrencyAgg (D : Type 0) : Type 0 where
  pub original : D
  pub base : D
  pub count : ℕ

-- The totals of the loop over the services.
pub record Costs (D : Type 0) : Type 0 where
  pub monthly_total : D
  pub by_provider : Map (Agg D)
  pub by_project : Map (Agg D)
  pub by_country : Map (Agg D)
  pub by_type : Map (Agg D)
  pub by_currency : Map (CurrencyAgg D)

abbrev pub country_of : {D : Type 0} → ServiceCost D → Str
country_of s = get_or_else s.country_code (codes "XX")

module _ {D : Type 0} ⦃num : Decimal D⦄ where
  abbrev pub no_agg : Agg D
  no_agg = record { monthly = num.nought; count = 0 }

  abbrev pub no_currency : CurrencyAgg D
  no_currency = record { original = num.nought; base = num.nought; count = 0 }

  abbrev pub bumped : Option (Agg D) → D → Agg D
  bumped cur amount =
      let a = get_or_else cur no_agg in
      record { monthly = num.add a.monthly amount; count = a.count + 1 }

  -- `bump`.
  unfoldable pub bump : Str → D → Map (Agg D) → Map (Agg D)
  bump key amount m = map_set key (bumped (map_get key m) amount) m

  abbrev pub currency_bumped : Option (CurrencyAgg D) → D → D → CurrencyAgg D
  currency_bumped cur original base =
      let c = get_or_else cur no_currency in
      record {
        original = num.add c.original original;
        base = num.add c.base base;
        count = c.count + 1;
      }

  abbrev pub no_costs : Costs D
  no_costs = record {
    monthly_total = num.nought;
    by_provider = [];
    by_project = [];
    by_country = [];
    by_type = [];
    by_currency = [];
  }

  -- The cost of a service in a month, in its currency and in the base currency.
  abbrev pub monthly_original : ServiceCost D → D
  monthly_original s = monthly_cost s.cost s.period

  abbrev pub monthly_base : Str → Map D → ServiceCost D → D
  monthly_base base rates s = convert (monthly_original s) s.currency base rates

  -- One round of the loop of `summary`, which is that of `projectStats` with two more maps.
  unfoldable pub cost_step : Str → Map D → ServiceCost D → Costs D → Costs D
  cost_step base rates s c =
      let amount = monthly_base base rates s in
      record {
        monthly_total = num.add c.monthly_total amount;
        by_provider = bump s.provider_uuid amount c.by_provider;
        by_project = bump s.project_uuid amount c.by_project;
        by_country = bump (country_of s) amount c.by_country;
        by_type = bump s.type_name amount c.by_type;
        by_currency =
            map_set s.currency
              (currency_bumped (map_get s.currency c.by_currency) (monthly_original s) amount)
              c.by_currency;
      }

  unfoldable pub cost_loop : Str → Map D → List (ServiceCost D) → Costs D → Costs D
  cost_loop base rates [] c = c
  cost_loop base rates (s ∷ rest) c = cost_loop base rates rest (cost_step base rates s c)

  -- The row of one provider, one project: zero where the map has none.
  abbrev pub row_of : Str → Map (Agg D) → Agg D
  row_of key m = get_or_else (map_get key m) no_agg

  -- `yearlyProjection`.
  abbrev pub yearly_projection : Costs D → D
  yearly_projection c = num.mul c.monthly_total (num.of_ℕ 12)

  -- `balancesOf`: an empty currency counts as none.
  unfoldable pub balances_of : List (AccountBalance D) → Map D → Map D
  balances_of [] sums = sums
  balances_of (a ∷ rest) sums = elim a.balance [
    | none ↦ balances_of rest sums
    | some balance ↦ elim a.balance_currency [
      | none ↦ balances_of rest sums
      | some [] ↦ balances_of rest sums
      | some (x ∷ xs) ↦
          balances_of rest (
            map_set (x ∷ xs) (num.add (get_or_else (map_get (x ∷ xs) sums) num.nought) balance)
              sums)
    ]
  ]

abbrev pub is_charge : {D : Type 0} → PaymentSpent D → Bool
is_charge p = str_eq p.type_name (codes "charge")

-- `accountsWithTopups.has(uuid)`: an account with a payment that is not a charge.
abbrev pub has_topups : {D : Type 0} → List (PaymentSpent D) → Str → Bool
has_topups payments uuid = any (λ p. not (is_charge p) && str_eq p.account_uuid uuid) payments

-- `currentMonthPayments`, `totalSpent`, `spentByProvider`, and the archive of rates as it is read.
pub record Spent (D : Type 0) : Type 0 where
  pub current_month : D
  pub total : D
  pub by_provider : Map D
  pub history : HistoricalRates D

module _ {D : Type 0} ⦃num : Decimal D⦄ where
  -- A payment that counts. `in_month` says whether a time is in the current month.
  unfoldable pub spend_payment : Str → (ℕ → Bool) → PaymentSpent D → Spent D → Spent D
  spend_payment base in_month p st =
      let read = rates_on st.history p.payment_date in
      let amount = convert p.amount p.currency base read.0 in
      record {
        current_month =
            if in_month p.payment_date then num.add st.current_month amount else st.current_month;
        total = num.add st.total amount;
        by_provider =
            map_set p.provider_uuid
              (num.add (get_or_else (map_get p.provider_uuid st.by_provider) num.nought) amount)
              st.by_provider;
        history = read.1;
      }

  -- The loop over the payments. `topups` says which accounts have top-ups.
  unfoldable pub spent_loop :
      Str → (ℕ → Bool) → (Str → Bool) → List (PaymentSpent D) → Spent D → Spent D
  spent_loop base in_month topups [] st = st
  spent_loop base in_month topups (p ∷ rest) st =
      spent_loop base in_month topups rest
        (if is_charge p && topups p.account_uuid then st else spend_payment base in_month p st)

  unfoldable pub total_spent :
      Str → (ℕ → Bool) → List (PaymentSpent D) → HistoricalRates D → Spent D
  unfolding spent_loop
  total_spent base in_month payments history =
      spent_loop base in_month (has_topups payments) payments (record {
        current_month = num.nought;
        total = num.nought;
        by_provider = [];
        history = history;
      })
