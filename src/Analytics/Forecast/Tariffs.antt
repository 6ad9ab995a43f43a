-- ===== src/Analytics/Forecast/Tariffs.antt =====
-- The forecast and the monthly expenses of the panel agree: analytics.service.ts.
use infra_billing.Base.{
  Bool, Bool-cases, List, Map, Option-cases, Str, [], arith, false, filter, if◌then◌else◌, inl, inr,
  map_get, none, not, refl, some, str_eq, str_eq→eq, str_lt, str_lt_total, str_lt_trans, truthy,
  ◌&&◌, ◌||◌, ◌∷◌, ◌≡◌,
}
use infra_billing.Decimal.{Decimal}
use infra_billing.Rates.Latest.{convert}
use infra_billing.Analytics.{ServiceCost}
use infra_billing.Analytics.Costs.{Costs, cost_step, cost_loop, no_costs}
use infra_billing.Analytics.Forecast.{
  Calendar, TariffOptions, is_gated, start_key, tariff_loop, tariff_for_month,
}

-- The account has a known first payment, in the month or before.
abbrev pub has_paid_by : Map Str → Str → Str → Bool
has_paid_by earliest account month_key = elim (map_get account earliest) [
  | none ↦ false
  | some first ↦ truthy (some first) && not (str_lt month_key first)
]

-- A service counts in a month if dates are not looked at, if it was created in the month or before,
-- or if payments are looked at and its account has paid in the month or before.
abbrev pub counts : {D : Type 0} → Calendar → TariffOptions → Str → ServiceCost D → Bool
counts calendar opts month_key s =
    not opts.respect_created_at
    || not (str_lt month_key (calendar.year_month s.created_at))
    || (opts.backdate_from_payments
        && has_paid_by opts.earliest_payment_month s.account_uuid month_key)

-- A month is before the earlier of two exactly if it is before both.
str_lt-earlier :
    (m pay own : Str)
    → str_lt m (if str_lt pay own then pay else own) ≡ (str_lt m own && str_lt m pay)
str_lt-earlier m pay own = elim (Bool-cases (str_lt pay own)) [
  | inl y ↦ ground (arith, y, str_lt_trans m pay own)
  | inr n ↦ elim (Bool-cases (str_eq m pay)) [
    | inl e ↦ let q = str_eq→eq m pay e in ground (arith, n, q)
    | inr d ↦ ground (arith, n, d, str_lt_total m pay, str_lt_trans pay m own)
  ]
]

is_gated-counts :
    {D : Type 0}
    → (calendar : Calendar) (opts : TariffOptions) (month_key : Str) (s : ServiceCost D)
    → is_gated calendar opts month_key s ≡ not (counts calendar opts month_key s)
unfolding is_gated start_key
is_gated-counts calendar opts month_key s = elim (Bool-cases opts.backdate_from_payments) [
  | inr n ↦ rw n (ground arith)
  | inl y ↦ elim (Option-cases (map_get s.account_uuid opts.earliest_payment_month)) [
    | inl p ↦ rw (y, p) (ground arith)
    | inr ([], p) ↦ rw (y, p) (ground arith)
    | inr (x ∷ xs, p) ↦
        rw (y, p)
          (ground (arith, str_lt-earlier month_key (x ∷ xs) (calendar.year_month s.created_at)))
  ]
]

module _ {D : Type 0} ⦃num : Decimal D⦄ where
  -- The services that count in a month.
  abbrev pub counted : Calendar → TariffOptions → Str → List (ServiceCost D) → List (ServiceCost D)
  counted calendar opts month_key services = filter (λ s. counts calendar opts month_key s) services

  tariff_loop-cost_loop :
      (calendar : Calendar) (opts : TariffOptions) (month_key base : Str) (rates : Map D)
      (services : List (ServiceCost D)) (c : Costs D)
      → tariff_loop calendar opts month_key
          (λ amount currency. convert amount currency base rates)
          services
          c.monthly_total
        ≡ (cost_loop base rates (counted calendar opts month_key services) c).monthly_total
  unfolding tariff_loop cost_loop cost_step
  tariff_loop-cost_loop calendar opts month_key base rates [] c = refl
  tariff_loop-cost_loop calendar opts month_key base rates (s ∷ rest) c =
      elim (Bool-cases (counts calendar opts month_key s)) [
        | inl y ↦
            rw (is_gated-counts calendar opts month_key s, y)
              (tariff_loop-cost_loop calendar opts month_key base rates rest
                (cost_step base rates s c))
        | inr n ↦
            rw (is_gated-counts calendar opts month_key s, n)
              (tariff_loop-cost_loop calendar opts month_key base rates rest c)
      ]

  -- The amount that the forecast fills in for a past month is the monthly total that the panel
  -- would show for the services that count in that month: all of them if dates of creation are not
  -- looked at, and otherwise those that were created by then or, where payments are looked at,
  -- whose account has paid by then.
  pub tariff_for_month-cost_loop :
      (calendar : Calendar) (opts : TariffOptions) (month_key base : Str) (rates : Map D)
      (services : List (ServiceCost D))
      → tariff_for_month calendar opts month_key
          (λ amount currency. convert amount currency base rates)
          services
        ≡ (cost_loop base rates (counted calendar opts month_key services) no_costs).monthly_total
  tariff_for_month-cost_loop calendar opts month_key base rates services =
      tariff_loop-cost_loop calendar opts month_key base rates services no_costs
