-- ===== src/Spend/Consistent.antt =====
-- What a result of `accountSpend` has in common on every branch: its days are those of the window,
-- and its totals are sums over them.
use infra_billing.Base.{
  Bool, List, Option, Option-cases, Str, [], any, arith, drop, false, filter, get_or_else, inl, inr,
  length, none, refl, some, suc, sym, take_last, true, zero, ℕ, ◌*◌, ◌+◌, ◌∷◌, ◌≡◌,
}
use infra_billing.Decimal.{Decimal}
use infra_billing.Money.{ms_per_day, utc_day}
use infra_billing.Spend.Data.{
  SpendDay, Source, AccountSpendResult, sum_days, sum_days_from, is_known, summarize, empty,
  empty_days,
}

-- The days from `i` on, counted from the day of `start`.
abbrev pub dates : ℕ → ℕ → ℕ → List ℕ
dates start i zero = []
dates start i (suc left) = (utc_day start + i) ∷ dates start (i + 1) left

abbrev pub day_dates : {D : Type 0} → List (SpendDay D) → List ℕ
day_dates [] = []
day_dates (d ∷ ds) = d.date ∷ day_dates ds

abbrev pub is_estimated : {D : Type 0} → SpendDay D → Bool
is_estimated d = d.estimated

module _ {D : Type 0} ⦃num : Decimal D⦄ where
  -- The result shows the `n` days from `start` on, and its figures are those of the days shown.
  pub record IsConsistent (start n : ℕ) (r : AccountSpendResult D) : Type 0 where
    pub dated : day_dates r.days ≡ dates start 0 n
    pub month_total : r.last_30d ≡ sum_days r.days
    pub week_total : r.last_7d ≡ sum_days (take_last 7 r.days)
    pub counted : r.covered_days ≡ length (filter is_known r.days)
    pub marked : r.approximate ≡ any is_estimated r.days

  -- A step that returns a consistent result.
  pub record Returns (start n : ℕ) (o : Option (AccountSpendResult D)) : Type 0 where
    pub result : AccountSpendResult D
    pub returns : o ≡ some result
    pub consistent : IsConsistent start n result

pub date_of : (start i : ℕ) → utc_day (start + i * ms_per_day) ≡ utc_day start + i
date_of start i = omega arith

module _ (D : Type 0) where
  empty_days-dates :
      (start i left : ℕ) → day_dates (empty_days {D = D} start i left) ≡ dates start i left
  unfolding empty_days
  empty_days-dates start i zero = refl
  empty_days-dates start i (suc left) = ground (arith, empty_days-dates start (i + 1) left)

  empty_days-known : (start i left : ℕ) → filter is_known (empty_days {D = D} start i left) ≡ []
  unfolding empty_days
  empty_days-known start i zero = refl
  empty_days-known start i (suc left) = empty_days-known start (i + 1) left

  empty_days-estimated :
      (start i left : ℕ) → any is_estimated (empty_days {D = D} start i left) ≡ false
  unfolding empty_days
  empty_days-estimated start i zero = refl
  empty_days-estimated start i (suc left) = empty_days-estimated start (i + 1) left

module _ {D : Type 0} ⦃num : Decimal D⦄ where
  sum_days_from-empty :
      (start i left : ℕ) (total : Option D) → sum_days_from total (empty_days start i left) ≡ total
  unfolding sum_days_from empty_days
  sum_days_from-empty start i zero total = refl
  sum_days_from-empty start i (suc left) total = sum_days_from-empty start (i + 1) left total

  sum_days_from-drop_empty :
      (start i left n : ℕ) (total : Option D)
      → sum_days_from total (drop n (empty_days start i left)) ≡ total
  unfolding sum_days_from empty_days
  sum_days_from-drop_empty start i left zero total = sum_days_from-empty start i left total
  sum_days_from-drop_empty start i zero (suc n) total = refl
  sum_days_from-drop_empty start i (suc left) (suc n) total =
      sum_days_from-drop_empty start (i + 1) left n total

  pub empty-IsConsistent : (start n : ℕ) → IsConsistent start n (empty {D = D} start n)
  unfolding empty sum_days
  empty-IsConsistent start n = record {
    dated = empty_days-dates D start 0 n;
    month_total = sym (sum_days_from-empty start 0 n none);
    week_total = sym (sum_days_from-drop_empty start 0 n _ none);
    counted = rw (empty_days-known D start 0 n);
    marked = sym (empty_days-estimated D start 0 n);
  }

  pub empty-Returns : (start n : ℕ) → Returns start n (some (empty {D = D} start n))
  empty-Returns start n = record {
    result = empty start n;
    returns = refl;
    consistent = empty-IsConsistent start n;
  }

  sum_days_from-some :
      (t : D) (ds : List (SpendDay D)) → (s : D) × (sum_days_from (some t) ds ≡ some s)
  unfolding sum_days_from
  sum_days_from-some t [] = (t, refl)
  sum_days_from-some t (d ∷ ds) = elim (Option-cases d.amount) [
    | inl e ↦ rw e (sum_days_from-some t ds)
    | inr (a, e) ↦ rw e (sum_days_from-some (num.add t a) ds)
  ]

  -- Where some day is known, `sumDays(days)!` is a number.
  sum_days_from-known :
      (total : Option D) (ds : List (SpendDay D))
      → any is_known ds ≡ true
      → (s : D) × (sum_days_from total ds ≡ some s)
  unfolding sum_days_from
  sum_days_from-known total [] h = cc
  sum_days_from-known total (d ∷ ds) h = elim (Option-cases d.amount) [
    | inl e ↦ rw e (sum_days_from-known total ds (ground arith))
    | inr (a, e) ↦ rw e (sum_days_from-some (num.add (get_or_else total num.nought) a) ds)
  ]

  pub summarize-Returns :
      (start n : ℕ) (ds : List (SpendDay D)) (currency : Str) (source : Source) (span_days : D)
      → day_dates ds ≡ dates start 0 n
      → any is_known ds ≡ true
      → Returns start n (summarize ds currency source span_days)
  unfolding summarize sum_days
  summarize-Returns start n ds currency source span_days h k =
      let (s, e) = sum_days_from-known none ds k in
      record {
        result = record {
          currency = some currency;
          source = some source;
          approximate = any (λ (d : SpendDay D). d.estimated) ds;
          covered_days = length (filter is_known ds);
          days = ds;
          last_7d = sum_days (take_last 7 ds);
          last_30d = some s;
          per_day = some (num.round_half_up (num.div s span_days));
        };
        returns = rw e refl;
        consistent = record {
          dated = h;
          month_total = sym e;
          week_total = refl;
          counted = refl;
          marked = refl;
        };
      }
