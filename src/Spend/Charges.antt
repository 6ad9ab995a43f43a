-- ===== src/Spend/Charges.antt =====
-- `fromCharges` of spend.ts.
pub mod Total
use infra_billing.Base.{
  List, Option, Str, [], false, if◌then◌else◌, ltb, min, none, replicate, some, suc, zero, ℕ, ◌*◌,
  ◌+◌, ◌-◌, ◌/◌, ◌>>=◌, ◌∷◌,
}
use infra_billing.Decimal.{Decimal}
use infra_billing.Money.{ms_per_day, utc_day}
use infra_billing.Spend.Data.{SpendCharge, SpendDay, charges, AccountSpendResult, summarize}

abbrev pub earliest_of : ℕ → Option ℕ → ℕ
earliest_of earliest none = earliest
earliest_of earliest (some first) = min earliest first

module _ {D : Type 0} ⦃num : Decimal D⦄ where
  -- `sums[i] = sums[i].add(amount)`.
  unfoldable pub add_at : List D → ℕ → D → Option (List D)
  add_at [] i x = none
  add_at (s ∷ ss) zero x = some (num.add s x ∷ ss)
  add_at (s ∷ ss) (suc i) x = add_at ss i x >>= λ rest. some (s ∷ rest)

  -- The rounds of `sums.map((sum, i) => …)` of `fromCharges`, from day `i` on.
  unfoldable pub charge_days : ℕ → ℕ → ℕ → List D → List (SpendDay D)
  charge_days start first_idx i [] = []
  charge_days start first_idx i (sum ∷ sums) =
      record {
        date = utc_day (start + i * ms_per_day);
        amount = if ltb i first_idx then none else some (num.round_half_up sum);
        estimated = false;
      }
      ∷ charge_days start first_idx (i + 1) sums

  -- The loop of `fromCharges`: `earliest` and `sums`.
  unfoldable pub charge_loop : ℕ → List (SpendCharge D) → ℕ → List D → Option (ℕ × List D)
  charge_loop start [] earliest sums = some (earliest, sums)
  charge_loop start (c ∷ cs) earliest sums =
      add_at sums ((c.payment_date - start) / ms_per_day) c.amount >>= λ sums'.
      charge_loop start cs (min earliest c.payment_date) sums'

  -- `fromCharges`. There is a first charge `c`, so `earliest` starts at its date where the code
  -- starts at infinity.
  unfoldable pub from_charges :
      SpendCharge D → List (SpendCharge D) → Option ℕ → Str → ℕ → ℕ → Option (AccountSpendResult D)
  from_charges c cs first_charge_at currency start days =
      charge_loop start (c ∷ cs) c.payment_date (replicate days num.nought) >>= λ (earliest, sums).
      let first_idx = (earliest_of earliest first_charge_at - start) / ms_per_day in
      summarize (charge_days start first_idx 0 sums) currency charges (num.of_ℕ (days - first_idx))
