-- ===== src/Spend/Account.antt =====
-- `accountSpend` of spend.ts.
use infra_billing.Base.{
  Bool, List, Option, Str, [], filter, if◌then◌else◌, leb, ltb, none, not, some, sort_by, str_eq, ℕ,
  ◌&&◌, ◌∷◌,
}
use infra_billing.Decimal.{Decimal}
use infra_billing.Spend.Data.{
  SpendCharge, SpendSnapshot, AccountSpendResult, AccountSpendInput, Window, spend_window, empty,
}
use infra_billing.Spend.Currency.{most_common_currency}
use infra_billing.Spend.Charges.{from_charges}
use infra_billing.Spend.Snapshots.{from_snapshots}

module _ {D : Type 0} ⦃num : Decimal D⦄ where
  abbrev pub in_window : Window → SpendCharge D → Bool
  in_window w c = leb w.start c.payment_date && ltb c.payment_date w.end_ms

  -- `if (points.length < 2) return empty(…)`, and the call of `fromSnapshots`.
  unfoldable pub spend_of_points :
      List (SpendSnapshot D) → Str → Window → ℕ → Option (AccountSpendResult D)
  spend_of_points (p ∷ q ∷ ps) currency w days =
      from_snapshots p (q ∷ ps) currency w.start w.end_ms days
  spend_of_points _ currency w days = some (empty w.start days)

  -- The rest of `accountSpend`, once the currency is known, on the charges in it.
  unfoldable pub spend_of_charges :
      List (SpendCharge D) → Str → AccountSpendInput D → Window → Option (AccountSpendResult D)
  unfolding spend_of_points
  spend_of_charges (c ∷ cs) currency input w =
      from_charges c cs input.first_charge_at currency w.start input.days
  spend_of_charges [] currency input w =
      if not input.use_snapshots
      then some (empty w.start input.days)
      else spend_of_points
          (sort_by (λ (s : SpendSnapshot D). s.captured_at)
            (filter (λ (s : SpendSnapshot D). str_eq s.currency currency) input.snapshots))
          currency w input.days

  -- `if (!currency) return empty(…)`: an empty text counts as none.
  unfoldable pub spend_in :
      Option Str
      → List (SpendCharge D)
      → AccountSpendInput D
      → Window
      → Option (AccountSpendResult D)
  unfolding spend_of_charges
  spend_in none cs input w = some (empty w.start input.days)
  spend_in (some []) cs input w = some (empty w.start input.days)
  spend_in (some (x ∷ xs)) cs input w =
      spend_of_charges (filter (λ (c : SpendCharge D). str_eq c.currency (x ∷ xs)) cs) (x ∷ xs)
        input w

  abbrev pub currency_of : Option Str → List (SpendCharge D) → Option Str
  currency_of (some cur) cs = some cur
  currency_of none cs = most_common_currency cs

  -- `accountSpend`.
  unfoldable pub account_spend : AccountSpendInput D → Option (AccountSpendResult D)
  unfolding spend_in spend_window
  account_spend input =
      let w = spend_window input.now input.days in
      let inside = filter (in_window w) input.charges in
      spend_in (currency_of input.balance_currency inside) inside input w
