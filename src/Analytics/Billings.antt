-- ===== src/Analytics/Billings.antt =====
-- analytics.service.ts: whether the balances cover the charges ahead. Times are in milliseconds.
pub mod Coverage
use infra_billing.Base.{
  Bool, List, Map, Option, Str, [], any, false, find, get_or_else, if◌then◌else◌, map_get, map_set,
  none, not, or_null, some, sort_by, str_eq, true, ℕ, ◌&&◌, ◌>>=◌, ◌||◌, ◌∷◌,
}
use infra_billing.Decimal.{Decimal}
use infra_billing.Money.{charge_severity, Severity, critical}
use infra_billing.Rates.Latest.{convert}
use infra_billing.Analytics.{ServiceCost, AccountBalance}
use infra_billing.Analytics.Due.{Charge, charge_date, charges_ahead, days_until}

-- The balances that the charges deplete: in the base currency, and in the account's own.
pub record Running (D : Type 0) : Type 0 where
  pub base : Map (Option D)
  pub native : Map (Option D)

-- A row of `upcomingBillings`.
pub record Upcoming (D : Type 0) : Type 0 where
  pub charge : Charge D
  pub days_until : ℕ
  pub covered : Option Bool
  pub severity : Severity

abbrev pub is_critical_severity : Severity → Bool
is_critical_severity critical = true
is_critical_severity other = false

module _ {D : Type 0} ⦃num : Decimal D⦄ where
  -- The cost of a service in a currency.
  abbrev pub cost_in : Str → Map D → ServiceCost D → D
  cost_in currency rates s = convert s.cost s.currency currency rates

  -- `upcomingSorted`.
  abbrev pub upcoming_sorted : ℕ → Str → Map D → List (ServiceCost D) → List (Charge D)
  upcoming_sorted now base rates services =
      sort_by charge_date (charges_ahead now (cost_in base rates) services)

  -- The balance of a prepaid account with its currency. An empty currency counts as none.
  abbrev pub prepaid : AccountBalance D → Option (D × Str)
  prepaid a = elim a.is_postpaid [
    | true ↦ none
    | false ↦ elim a.balance [
      | none ↦ none
      | some balance ↦ elim (a.balance_currency >>= or_null) [
        | none ↦ none
        | some currency ↦ some (balance, currency)
      ]
    ]
  ]

  -- The loop that fills the running balances.
  unfoldable pub start_running : Str → Map D → List (AccountBalance D) → Running D → Running D
  start_running base rates [] r = r
  start_running base rates (a ∷ rest) r = start_running base rates rest (record {
    base = map_set a.uuid (prepaid a >>= λ (p : D × Str). some (convert p.0 p.1 base rates)) r.base;
    native = map_set a.uuid (prepaid a >>= λ (p : D × Str). some p.0) r.native;
  })

  abbrev pub running_of : Str → Map (Option D) → Option D
  running_of uuid m = get_or_else (map_get uuid m) none

  -- What a covered or uncovered charge takes off the account's own balance.
  abbrev pub native_after : Map D → Option Str → ServiceCost D → Map (Option D) → Map (Option D)
  native_after rates currency s native = elim (running_of s.account_uuid native) [
    | none ↦ native
    | some n ↦ elim (currency >>= or_null) [
      | none ↦ native
      | some code ↦ map_set s.account_uuid (some (num.sub n (cost_in code rates s))) native
    ]
  ]

  -- Whether a balance covers a charge: `null` where the balance is not known.
  abbrev pub covers : Option D → D → Option Bool
  covers none cost = none
  covers (some balance) cost = some (num.lte cost balance)

  -- The running balances after a charge.
  unfoldable pub deplete : Map D → (Str → Option Str) → Charge D → Running D → Running D
  deplete rates currency_of c r = elim (running_of c.service.account_uuid r.base) [
    | none ↦ r
    | some balance ↦ record {
      base = map_set c.service.account_uuid (some (num.sub balance c.cost_base)) r.base;
      native = native_after rates (currency_of c.service.account_uuid) c.service r.native;
    }
  ]

  abbrev pub upcoming_row : ℕ → (Str → Bool) → Charge D → Running D → Upcoming D
  upcoming_row now is_postpaid c r =
      let covered = covers (running_of c.service.account_uuid r.base) c.cost_base in
      record {
        charge = c;
        days_until = days_until now c.date;
        covered = covered;
        severity =
            charge_severity covered (days_until now c.date) (is_postpaid c.service.account_uuid);
      }

  -- The map over the sorted charges, which changes the running balances as it goes.
  unfoldable pub cover_loop :
      ℕ
      → Map D
      → (Str → Option Str)
      → (Str → Bool)
      → List (Charge D)
      → Running D
      → List (Upcoming D) × Running D
  unfolding deplete
  cover_loop now rates currency_of is_postpaid [] r = ([], r)
  cover_loop now rates currency_of is_postpaid (c ∷ rest) r =
      let later =
        cover_loop now rates currency_of is_postpaid rest (deplete rates currency_of c r) in
      (upcoming_row now is_postpaid c r ∷ later.0, later.1)

  abbrev pub account_of : List (AccountBalance D) → Str → Option (AccountBalance D)
  account_of accounts uuid = find (λ (a : AccountBalance D). str_eq a.uuid uuid) accounts

  -- `upcomingBillings`, and the running balances after them.
  unfoldable pub upcoming_billings :
      ℕ
      → Str
      → Map D
      → List (AccountBalance D)
      → List (ServiceCost D)
      → List (Upcoming D) × Running D
  unfolding cover_loop start_running charges_ahead
  upcoming_billings now base rates accounts services =
      cover_loop now rates
        (λ uuid. account_of accounts uuid >>= λ (a : AccountBalance D). a.balance_currency)
        (λ uuid. elim (account_of accounts uuid) [ none ↦ false | some a ↦ a.is_postpaid ])
        (upcoming_sorted now base rates services)
        (start_running base rates accounts (record { base = []; native = [] }))

  -- The loop of `balanceTopUps`, before the sort: the amount that an account with a critical charge
  -- lacks.
  unfoldable pub top_ups :
      (Str → Bool) → Map (Option D) → List (AccountBalance D) → List (Str × D × Str)
  top_ups is_critical native [] = []
  top_ups is_critical native (a ∷ rest) =
      let later = top_ups is_critical native rest in
      elim (a.balance_currency >>= or_null) [
        | none ↦ later
        | some currency ↦ elim (running_of a.uuid native) [
          | none ↦ later
          | some n ↦
              if not (is_critical a.uuid) || num.lte num.nought n
              then later
              else (a.uuid, num.abs n, currency) ∷ later
        ]
      ]

  -- `criticalAccountUuids.has(uuid)`.
  abbrev pub has_critical : List (Upcoming D) → Str → Bool
  has_critical rows uuid =
      any
        (λ (u : Upcoming D).
          is_critical_severity u.severity && str_eq u.charge.service.account_uuid uuid)
        rows

  -- `upcomingBillings` with the top-ups that they ask for.
  unfoldable pub balance_top_ups :
      ℕ → Str → Map D → List (AccountBalance D) → List (ServiceCost D) → List (Str × D × Str)
  unfolding upcoming_billings top_ups
  balance_top_ups now base rates accounts services =
      let result = upcoming_billings now base rates accounts services in
      top_ups (has_critical result.0) result.1.native accounts
