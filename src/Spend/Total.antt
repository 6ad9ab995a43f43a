-- ===== src/Spend/Total.antt =====
-- The results of `accountSpend` of spend.ts.
use infra_billing.Base.{
  All, All-filter_of, Bool-cases, List, Option, Str, [], arith, filter, inl, inr, none, some, ℕ,
  ◌*◌, ◌+◌, ◌∷◌, ◌≡◌, ◌≤◌,
}
use infra_billing.Decimal.{Decimal}
use infra_billing.Money.{ms_per_day, utc_day}
use infra_billing.Spend.Data.{SpendCharge, SpendSnapshot, AccountSpendInput, Window, spend_window}
use infra_billing.Spend.Account.{
  in_window, spend_of_points, spend_of_charges, spend_in, account_spend,
}
use infra_billing.Spend.Consistent.{Returns, empty-Returns}
use infra_billing.Spend.Charges.Total.{Inside, from_charges-Returns}
use infra_billing.Spend.Snapshots.Total.{from_snapshots-Returns}

module _ {D : Type 0} ⦃num : Decimal D⦄ where
  -- The charges that `accountSpend` keeps fall on days of the window.
  kept-Inside :
      (w : Window) (n : ℕ) (cs : List (SpendCharge D))
      → w.start + n * ms_per_day ≡ w.end_ms
      → All (Inside w.start n) (filter (in_window w) cs)
  kept-Inside w n [] h = tt
  kept-Inside w n (c ∷ cs) h = elim (Bool-cases (in_window w c)) [
    | inl e ↦ rw e ((ground arith, ground arith), kept-Inside w n cs h)
    | inr e ↦ rw e (kept-Inside w n cs h)
  ]

  spend_of_points-Returns :
      (ps : List (SpendSnapshot D)) (currency : Str) (w : Window) (n : ℕ)
      → w.start + n * ms_per_day ≡ w.end_ms
      → Returns w.start n (spend_of_points ps currency w n)
  unfolding spend_of_points
  spend_of_points-Returns [] currency w n h = empty-Returns w.start n
  spend_of_points-Returns (p ∷ []) currency w n h = empty-Returns w.start n
  spend_of_points-Returns (p ∷ q ∷ ps) currency w n h =
      from_snapshots-Returns p (q ∷ ps) currency w.start w.end_ms n h

  spend_of_charges-Returns :
      (cs : List (SpendCharge D)) (currency : Str) (input : AccountSpendInput D) (w : Window)
      → w.start + input.days * ms_per_day ≡ w.end_ms
      → All (Inside w.start input.days) cs
      → Returns w.start input.days (spend_of_charges cs currency input w)
  unfolding spend_of_charges
  spend_of_charges-Returns (c ∷ cs) currency input w h inside =
      from_charges-Returns c cs input.first_charge_at currency w.start input.days inside
  spend_of_charges-Returns [] currency input w h inside = elim (Bool-cases input.use_snapshots) [
    | inl e ↦ rw e (spend_of_points-Returns _ currency w input.days h)
    | inr e ↦ rw e (empty-Returns w.start input.days)
  ]

  spend_in-Returns :
      (currency : Option Str) (cs : List (SpendCharge D)) (input : AccountSpendInput D) (w : Window)
      → w.start + input.days * ms_per_day ≡ w.end_ms
      → All (Inside w.start input.days) cs
      → Returns w.start input.days (spend_in currency cs input w)
  unfolding spend_in
  spend_in-Returns none cs input w h inside = empty-Returns w.start input.days
  spend_in-Returns (some []) cs input w h inside = empty-Returns w.start input.days
  spend_in-Returns (some (x ∷ xs)) cs input w h inside =
      spend_of_charges-Returns _ (x ∷ xs) input w h
        (All-filter_of (Inside w.start input.days) _ cs inside)

  -- Where the window starts in 1970 or later, `accountSpend` returns, so it never throws, and its
  -- result shows the `days` complete days that end with yesterday, in order; `last30d` is the sum
  -- of the amounts shown, `last7d` that of the last seven days shown, `coveredDays` the number of
  -- known days, and `approximate` tells whether some day is estimated.
  pub account_spend-Returns :
      (input : AccountSpendInput D)
      → input.days ≤ utc_day input.now
      → Returns (spend_window input.now input.days).start input.days (account_spend input)
  unfolding account_spend
  account_spend-Returns input h =
      spend_in-Returns _ (filter (in_window w) input.charges) input w fits
        (kept-Inside w input.days input.charges fits)
    where
      w : Window
      w = spend_window input.now input.days

      fits : w.start + input.days * ms_per_day ≡ w.end_ms
      fits = omega arith
