-- ===== src/Analytics/Runways/Rows.antt =====
-- Which accounts are listed as running out: analytics.service.ts.
use infra_billing.Base.{
  All, All-sort_by, Bool-cases, List, Map, Option, Option-cases, Str, [], arith, false, inl, inr,
  leb, none, or_null, refl, some, ℕ, ◌<◌, ◌>>=◌, ◌||◌, ◌∷◌, ◌≡◌, ◌≢◌, ◌≤◌, ◌⊎◌,
}
use infra_billing.Decimal.{Decimal}
use infra_billing.Runway.{days_of_runway}
use infra_billing.Analytics.{ServiceCost, AccountBalance}
use infra_billing.Analytics.Runways.{
  RunwayRow, Basis, critical, warning, is_dated, runway_severity, row_for, listed, RunwaySeverity,
  runway_row, runway_loop, row_days, balance_runway, snaps_by_account, ok, Snapshot,
}

runway_severity-cases :
    (days : ℕ)
    → (runway_severity days ≡ ok)
      ⊎ (((runway_severity days ≡ critical) × (days ≤ 3))
          ⊎ ((runway_severity days ≡ warning) × (3 < days) × (days ≤ 7)))
unfolding runway_severity
runway_severity-cases days = elim (Bool-cases (leb days 3)) [
  | inl y ↦ inr (inl (rw y refl, ground arith))
  | inr n ↦ elim (Bool-cases (leb days 7)) [
    | inl y ↦ inr (inr (rw (n, y) refl, ground arith, ground arith))
    | inr m ↦ inl (rw (n, m) refl)
  ]
]

module _ {D : Type 0} ⦃num : Decimal D⦄ where
  -- A prepaid account without a dated charge, whose balance lasts seven days at most.
  abbrev pub RunsOut : List (ServiceCost D) → RunwayRow D → Type 0
  RunsOut services r =
      (r.account.is_postpaid ≡ false)
      × (is_dated services r.account.uuid ≡ false)
      × ((balance : D) × (r.account.balance ≡ some balance)
          × (r.days_left ≡ days_of_runway balance r.burn_per_day))
      × (((r.severity ≡ critical) × (r.days_left ≤ 3))
          ⊎ ((r.severity ≡ warning) × (3 < r.days_left) × (r.days_left ≤ 7)))

  -- A predicate of the row, if there is one.
  abbrev Rows : (RunwayRow D → Type 0) → Option (RunwayRow D) → Type 0
  Rows P none = Unit
  Rows P (some r) = P r

  listed-Rows :
      (P : RunwayRow D → Type 0) (severity : RunwaySeverity) (row : RunwayRow D)
      → (severity ≢ ok → P row)
      → Rows P (listed severity row)
  listed-Rows P ok row p = tt
  listed-Rows P warning row p = p (cc)
  listed-Rows P critical row p = p (cc)

  row_for-RunsOut :
      (services : List (ServiceCost D)) (a : AccountBalance D) (balance : D) (currency : Str)
      (burn : Option (D × Basis))
      → a.is_postpaid ≡ false
      → is_dated services a.uuid ≡ false
      → a.balance ≡ some balance
      → Rows (RunsOut services) (row_for a balance currency burn)
  row_for-RunsOut services a balance currency none p d e = tt
  row_for-RunsOut services a balance currency (some (burn, basis)) p d e =
      listed-Rows (RunsOut services) (runway_severity (days_of_runway balance burn)) _ (λ shows. (
        p,
        d,
        (balance, e, refl),
        elim (runway_severity-cases (days_of_runway balance burn)) [
          | inl q ↦ absurd (shows q)
          | inr r ↦ r
        ],
      ))

  runway_row-RunsOut :
      (rates : Map D) (services : List (ServiceCost D)) (snaps : Map (List (Snapshot D)))
      (a : AccountBalance D)
      → Rows (RunsOut services) (runway_row rates services snaps a)
  unfolding runway_row
  runway_row-RunsOut rates services snaps a = elim (Option-cases a.balance) [
    | inl n ↦ rw (n, Rows) tt
    | inr (balance, e) ↦ elim (Option-cases (a.balance_currency >>= or_null)) [
      | inl n ↦ rw (e, n, Rows) tt
      | inr (currency, q) ↦ elim (Bool-cases (a.is_postpaid || is_dated services a.uuid)) [
        | inl y ↦ rw (e, q, y, Rows) tt
        | inr n ↦
            rw (e, q, n, Rows)
              (row_for-RunsOut services a balance currency _ (ground arith) (ground arith) e)
      ]
    ]
  ]

  runway_loop-RunsOut :
      (rates : Map D) (services : List (ServiceCost D)) (snaps : Map (List (Snapshot D)))
      (accounts : List (AccountBalance D))
      → All (RunsOut services) (runway_loop rates services snaps accounts)
  unfolding runway_loop
  runway_loop-RunsOut rates services snaps [] = tt
  runway_loop-RunsOut rates services snaps (a ∷ rest) =
      add (runway_row rates services snaps a) (runway_row-RunsOut rates services snaps a)
        (runway_loop-RunsOut rates services snaps rest)
    where
      add :
          (o : Option (RunwayRow D))
          → Rows (RunsOut services) o
          → All (RunsOut services) (runway_loop rates services snaps rest)
          → All (RunsOut services) (elim o [
            | none ↦ runway_loop rates services snaps rest
            | some row ↦ row ∷ runway_loop rates services snaps rest
          ])
      add none r h = h
      add (some row) r h = (r, h)

  -- An account is listed as running out only where it is prepaid, has a balance and no dated charge
  -- of a service that is not metered, and the balance lasts seven days at most at the rate that is
  -- shown; it is critical up to three days and a warning above.
  pub balance_runway-RunsOut :
      (rates : Map D) (services : List (ServiceCost D)) (snapshots : List (Snapshot D))
      (accounts : List (AccountBalance D))
      → All (RunsOut services) (balance_runway rates services snapshots accounts)
  unfolding balance_runway
  balance_runway-RunsOut rates services snapshots accounts =
      All-sort_by (RunsOut services) row_days
        (runway_loop rates services (snaps_by_account snapshots []) accounts)
        (runway_loop-RunsOut rates services (snaps_by_account snapshots []) accounts)
