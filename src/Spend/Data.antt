-- ===== src/Spend/Data.antt =====
-- The data of spend.ts, its window, `summarize` and `empty`.
use infra_billing.Base.{
  Bool, List, Option, Str, [], any, false, filter, get_or_else, length, none, some, suc, take_last,
  true, zero, ℕ, ◌*◌, ◌+◌, ◌-◌, ◌/◌, ◌>>=◌, ◌∷◌,
}
use infra_billing.Decimal.{Decimal}
use infra_billing.Money.{ms_per_day, utc_day}

pub record SpendCharge (D : Type 0) : Type 0 where
  pub amount : D
  pub currency : Str
  pub payment_date : ℕ

pub record SpendSnapshot (D : Type 0) : Type 0 where
  pub balance : D
  pub currency : Str
  pub captured_at : ℕ

pub record SpendDay (D : Type 0) : Type 0 where
  pub date : ℕ
  pub amount : Option D
  pub estimated : Bool

pub data Source : Type 0 where
  charges snapshots : Source

pub record AccountSpendResult (D : Type 0) : Type 0 where
  pub currency : Option Str
  pub source : Option Source
  pub approximate : Bool
  pub covered_days : ℕ
  pub days : List (SpendDay D)
  pub last_7d : Option D
  pub last_30d : Option D
  pub per_day : Option D

pub record AccountSpendInput (D : Type 0) : Type 0 where
  pub charges : List (SpendCharge D)
  pub first_charge_at : Option ℕ
  pub snapshots : List (SpendSnapshot D)
  pub balance_currency : Option Str
  pub use_snapshots : Bool
  pub days : ℕ
  pub now : ℕ

pub record Window : Type 0 where
  pub start : ℕ
  pub end_ms : ℕ

-- `spendWindow`. A window that starts before 1970 is not modelled: `-` stops at 0.
unfoldable pub spend_window : ℕ → ℕ → Window
spend_window now days = record {
  start = now / ms_per_day * ms_per_day - days * ms_per_day;
  end_ms = now / ms_per_day * ms_per_day;
}

module _ {D : Type 0} where
  abbrev pub is_known : SpendDay D → Bool
  is_known d = elim d.amount [ none ↦ false | some a ↦ true ]

  unfoldable pub empty_days : ℕ → ℕ → ℕ → List (SpendDay D)
  empty_days start i zero = []
  empty_days start i (suc left) =
      record { date = utc_day (start + i * ms_per_day); amount = none; estimated = false }
      ∷ empty_days start (i + 1) left

  -- `empty`.
  unfoldable pub empty : ℕ → ℕ → AccountSpendResult D
  unfolding empty_days
  empty start days = record {
    currency = none;
    source = none;
    approximate = false;
    covered_days = 0;
    days = empty_days start 0 days;
    last_7d = none;
    last_30d = none;
    per_day = none;
  }

module _ {D : Type 0} ⦃num : Decimal D⦄ where
  -- One round of `sumDays`.
  abbrev pub add_day : Option D → Option D → Option D
  add_day none total = total
  add_day (some a) total = some (num.add (get_or_else total num.nought) a)

  -- `sumDays`, with `total` so far.
  unfoldable pub sum_days_from : Option D → List (SpendDay D) → Option D
  sum_days_from total [] = total
  sum_days_from total (d ∷ ds) = sum_days_from (add_day d.amount total) ds

  unfoldable pub sum_days : List (SpendDay D) → Option D
  unfolding sum_days_from
  sum_days ds = sum_days_from none ds

  -- `summarize`; `sumDays(days)!` is `null` where no day is known.
  unfoldable pub summarize : List (SpendDay D) → Str → Source → D → Option (AccountSpendResult D)
  summarize days currency source span_days = sum_days days >>= λ last_30d. some (record {
    currency = some currency;
    source = some source;
    approximate = any (λ (d : SpendDay D). d.estimated) days;
    covered_days = length (filter is_known days);
    days = days;
    last_7d = sum_days (take_last 7 days);
    last_30d = some last_30d;
    per_day = some (num.round_half_up (num.div last_30d span_days));
  })
