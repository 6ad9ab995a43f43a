-- ===== src/Runway.antt =====
-- apps/backend/src/common/runway.ts: how fast a balance falls, and how long it lasts.
use infra_billing.Base.{
  List, Option, [], if◌then◌else◌, leb, length, ltb, none, some, sort_by, ℕ, ◌-◌, ◌||◌, ◌∷◌,
}
use infra_billing.Decimal.{Decimal}
use infra_billing.Money.{ms_per_day, hours_per_month}

pub record SnapPoint (D : Type 0) : Type 0 where
  pub balance : D
  pub captured_at : ℕ

-- `spent` and `spanDays`, the running sums of the loop.
pub record Burn (D : Type 0) : Type 0 where
  pub spent : D
  pub span_days : D

module _ {D : Type 0} ⦃num : Decimal D⦄ where
  -- One round of the loop of `burnFromSnapshots`, on two consecutive snapshots.
  unfoldable pub burn_step : SnapPoint D → SnapPoint D → Burn D → Burn D
  burn_step prev cur b =
      let delta = num.sub prev.balance cur.balance in
      let dt = cur.captured_at - prev.captured_at in
      if leb cur.captured_at prev.captured_at
      then b
      else if num.is_negative delta
      then b
      else record {
        spent = num.add b.spent delta;
        span_days = num.add b.span_days (num.of_ratio dt ms_per_day);
      }

  unfoldable pub burn_loop : SnapPoint D → List (SnapPoint D) → Burn D → Burn D
  burn_loop prev [] b = b
  burn_loop prev (cur ∷ rest) b = burn_loop cur rest (burn_step prev cur b)

  abbrev pub no_burn : Burn D
  no_burn = record { spent = num.nought; span_days = num.nought }

  -- The sums over all the snapshots, which are sorted.
  unfoldable pub burn_sums : List (SnapPoint D) → Burn D
  burn_sums [] = no_burn
  burn_sums (p ∷ ps) = burn_loop p ps no_burn

  -- `burnFromSnapshots`, with `minSpanDays` 1.
  unfoldable pub burn_from_snapshots : List (SnapPoint D) → Option D
  unfolding burn_sums
  burn_from_snapshots points =
      let sorted = sort_by (λ (p : SnapPoint D). p.captured_at) points in
      let b = burn_sums sorted in
      if ltb (length points) 2
      then none
      else if num.lt b.span_days (num.of_ℕ 1) || num.lte b.spent num.nought
      then none
      else some (num.div b.spent b.span_days)

  -- `burnFromMonthlyCost`.
  unfoldable pub burn_from_monthly_cost : D → Option D
  burn_from_monthly_cost monthly =
      if num.lte monthly num.nought
      then none
      else some (num.div monthly (num.div (num.of_ℕ hours_per_month) (num.of_ℕ 24)))

  -- `daysOfRunway`.
  unfoldable pub days_of_runway : D → D → ℕ
  days_of_runway balance burn_per_day =
      if num.lte burn_per_day num.nought || num.lte balance num.nought
      then 0
      else num.floor (num.div balance burn_per_day)
