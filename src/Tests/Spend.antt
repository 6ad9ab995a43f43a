-- ===== src/Tests/Spend.antt =====
-- An account with two charges in a window of three days, and dated charges near a day.
use infra_billing.Base.{[], arith, codes, some, true, ◌*◌, ◌+◌, ◌-◌, ◌/◌, ◌∷◌, ◌≡◌}
use infra_billing.Decimal.{Whole, pos, whole_decimal}
use infra_billing.Money.{ms_per_day}
use infra_billing.Spend.Data.{AccountSpendInput, spend_window}
use infra_billing.Spend.Account.{account_spend}
use infra_billing.Spend.Consistent.{Returns}
use infra_billing.Spend.Total.{account_spend-Returns}
use infra_billing.Spend.Snapshots.{day_shares}
use infra_billing.Spend.Shares.{total_overlap, total_overlap-day_shares}

-- Noon of the eleventh day of 1970.
abbrev input : AccountSpendInput Whole
input = record {
  charges =
      record { amount = pos 30; currency = codes "USD"; payment_date = 7 * 86400000 }
      ∷ record { amount = pos 12; currency = codes "USD"; payment_date = 9 * 86400000 + 5 }
      ∷ [];
  first_charge_at = some (5 * 86400000);
  snapshots = [];
  balance_currency = some (codes "USD");
  use_snapshots = true;
  days = 3;
  now = 10 * 86400000 + 43200000;
}

account_spend-Returns_example :
    Returns (spend_window input.now input.days).start input.days (account_spend input)
account_spend-Returns_example = account_spend-Returns input (omega arith)

-- From the middle of the second day to the middle of the fourth.
total_overlap-day_shares_example :
    total_overlap (
      day_shares
        (5 - (129600000 - 0) / ms_per_day)
        ((129600000 - 0) / ms_per_day)
        0
        129600000
        302400000)
    ≡ 302400000 - 129600000
total_overlap-day_shares_example =
    total_overlap-day_shares 0 5 129600000 302400000 (omega arith) (omega arith) (omega arith)
