-- ===== src/Analytics/Due/Dates.antt =====
-- Which charges are ahead and which are behind: analytics.service.ts.
use infra_billing.Base.{
  All, Bool, Bool-cases, List, Option-cases, [], arith, false, filter, inl, inr, length, ltb, none,
  not, refl, some, true, ℕ, ◌&&◌, ◌+◌, ◌-◌, ◌<◌, ◌∷◌, ◌≡◌, ◌≤◌, ◌⊎◌,
}
use infra_billing.Money.{is_metered_period, overdue_days, utc_day}
use infra_billing.Money.Urgency.{overdue_days_lem}
use infra_billing.Analytics.{ServiceCost}
use infra_billing.Analytics.Due.{Charge, Overdue, is_ahead, charges_ahead, overdue_loop, horizon}

-- The charge is due today or later, and within fourteen days.
abbrev pub Ahead : {D : Type 0} → ℕ → Charge D → Type 0
Ahead now c =
    (is_metered_period c.service.period ≡ false)
    × (c.service.next_billing_at ≡ some c.date)
    × (utc_day now ≤ utc_day c.date)
    × (c.date < horizon now)

-- The charge was due on an earlier day.
abbrev pub Behind : {D : Type 0} → ℕ → Overdue D → Type 0
Behind now o =
    (is_metered_period o.service.period ≡ false)
    × ((date : ℕ) × (o.service.next_billing_at ≡ some date)
        × (utc_day date < utc_day now)
        × (o.days_overdue ≡ utc_day now - utc_day date))

-- A service with a date before the horizon, whose charges are dated.
abbrev pub is_due : {D : Type 0} → ℕ → ServiceCost D → Bool
is_due now s = elim s.next_billing_at [
  | none ↦ false
  | some date ↦ not (is_metered_period s.period) && ltb date (horizon now)
]

overdue_days-none : (now : ℕ) → overdue_days none now ≡ none
unfolding overdue_days
overdue_days-none now = refl

module _ {D : Type 0} (now : ℕ) (cost_base : ServiceCost D → D) where
  is_ahead-bounds :
      (s : ServiceCost D) (date : ℕ)
      → is_ahead now s date ≡ true
      → (is_metered_period s.period ≡ false) × (utc_day now ≤ utc_day date) × (date < horizon now)
  unfolding is_ahead
  is_ahead-bounds s date h = elim (overdue_days_lem date now) [
    | inl (before, e) ↦ absurd (ground (arith, h, e))
    | inr (after, e) ↦ (ground (arith, h), after, ground (arith, h))
  ]

  charges_ahead-Ahead :
      (services : List (ServiceCost D)) → All (Ahead now) (charges_ahead now cost_base services)
  unfolding charges_ahead
  charges_ahead-Ahead [] = tt
  charges_ahead-Ahead (s ∷ rest) = elim (Option-cases s.next_billing_at) [
    | inl n ↦ rw n (charges_ahead-Ahead rest)
    | inr (date, e) ↦ elim (Bool-cases (is_ahead now s date)) [
      | inl y ↦
          let (dated, after, before) = is_ahead-bounds s date y in
          rw (e, y) ((dated, e, after, before), charges_ahead-Ahead rest)
      | inr n ↦ rw (e, n) (charges_ahead-Ahead rest)
    ]
  ]

  overdue_loop-Behind :
      (services : List (ServiceCost D)) → All (Behind now) (overdue_loop now services)
  unfolding overdue_loop
  overdue_loop-Behind [] = tt
  overdue_loop-Behind (s ∷ rest) = elim (Bool-cases (is_metered_period s.period)) [
    | inl y ↦ rw y (overdue_loop-Behind rest)
    | inr n ↦ elim (Option-cases s.next_billing_at) [
      | inl none_e ↦ rw (n, none_e, overdue_days-none now) (overdue_loop-Behind rest)
      | inr (date, e) ↦ elim (overdue_days_lem date now) [
        | inl (before, q) ↦ rw (n, e, q) ((n, (date, e, before, refl)), overdue_loop-Behind rest)
        | inr (after, q) ↦ rw (n, e, q) (overdue_loop-Behind rest)
      ]
    ]
  ]

  date_cases :
      (s : ServiceCost D) (date : ℕ)
      → ((is_ahead now s date ≡ (not (is_metered_period s.period) && ltb date (horizon now)))
          × (overdue_days (some date) now ≡ none))
        ⊎ ((is_ahead now s date ≡ false)
            × (ltb date (horizon now) ≡ true)
            × (overdue_days (some date) now ≡ some (utc_day now - utc_day date)))
  unfolding is_ahead
  date_cases s date = elim (overdue_days_lem date now) [
    | inl (before, q) ↦ inr (rw q (ground arith), ground (arith, before), q)
    | inr (after, q) ↦ inl (rw q (ground arith), q)
  ]

  -- Each service with a date before the horizon is in exactly one of the two lists.
  partition_length :
      (services : List (ServiceCost D))
      → length (charges_ahead now cost_base services) + length (overdue_loop now services)
        ≡ length (filter (is_due now) services)
  unfolding charges_ahead overdue_loop
  partition_length [] = refl
  partition_length (s ∷ rest) =
      let ih = partition_length rest in
      elim (Option-cases s.next_billing_at) [
        | inl none_e ↦ rw (none_e, overdue_days-none now) (ground (arith, ih))
        | inr (date, e) ↦ elim (date_cases s date) [
          | inl (a, q) ↦ rw (e, a, q) (ground (arith, ih))
          | inr (a, b, q) ↦ rw (e, a, b, q) (ground (arith, ih))
        ]
      ]

-- The panel shows each dated charge once: a charge that is listed as ahead is due today or later
-- and within fourteen days, one that is listed as overdue was due on an earlier day and is overdue
-- by the days since, none of them is of a metered service, and the two lists together are as long
-- as the list of the services that are not metered and have a date before the horizon.
pub charges_ahead-overdue_loop :
    {D : Type 0} (now : ℕ) (cost_base : ServiceCost D → D) (services : List (ServiceCost D))
    → All (Ahead now) (charges_ahead now cost_base services)
      × All (Behind now) (overdue_loop now services)
      × (length (charges_ahead now cost_base services) + length (overdue_loop now services)
          ≡ length (filter (is_due now) services))
charges_ahead-overdue_loop now cost_base services = (
  charges_ahead-Ahead now cost_base services,
  overdue_loop-Behind now cost_base services,
  partition_length now cost_base services,
)
