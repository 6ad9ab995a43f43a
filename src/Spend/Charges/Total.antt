-- ===== src/Spend/Charges/Total.antt =====
-- The results of `fromCharges` of spend.ts.
use infra_billing.Base.{
  All, Bool-cases, List, Option, Str, [], any, ap, arith, inl, inr, length, length-replicate, ltb,
  min, none, refl, replicate, some, suc, true, zero, ℕ, ◌*◌, ◌+◌, ◌-◌, ◌/◌, ◌<◌, ◌∙◌, ◌∷◌, ◌≡◌, ◌≤◌,
}
use infra_billing.Decimal.{Decimal}
use infra_billing.Money.{ms_per_day}
use infra_billing.Spend.Data.{SpendCharge, charges, is_known}
use infra_billing.Spend.Charges.{add_at, charge_days, charge_loop, earliest_of, from_charges}
use infra_billing.Spend.Consistent.{dates, day_dates, date_of, Returns, summarize-Returns}

module _ {D : Type 0} ⦃num : Decimal D⦄ where
  add_at_total :
      (ss : List D) (i : ℕ) (x : D)
      → i < length ss
      → (r : List D) × (add_at ss i x ≡ some r) × (length r ≡ length ss)
  unfolding add_at
  add_at_total [] i x h = elim h [ ]
  add_at_total (s ∷ ss) zero x h = (num.add s x ∷ ss, refl, refl)
  add_at_total (s ∷ ss) (suc i) x h =
      let (r, e, l) = add_at_total ss i x (omega arith) in (s ∷ r, rw e refl, ap suc l)

  -- A charge of the window falls on one of its days.
  abbrev pub Inside : ℕ → ℕ → SpendCharge D → Type 0
  Inside start n c = (start ≤ c.payment_date) × (c.payment_date < start + n * ms_per_day)

  charge_loop_total :
      (start n : ℕ) (cs : List (SpendCharge D)) (earliest : ℕ) (sums : List D)
      → All (Inside start n) cs
      → length sums ≡ n
      → (e : ℕ) × (r : List D) × (charge_loop start cs earliest sums ≡ some (e, r))
        × (length r ≡ n)
        × (e ≤ earliest)
  unfolding charge_loop
  charge_loop_total start n [] earliest sums h l = (earliest, sums, refl, l, omega arith)
  charge_loop_total start n (c ∷ cs) earliest sums h l =
      let (s, e, k) =
        add_at_total sums ((c.payment_date - start) / ms_per_day) c.amount (omega (arith, h.0)) in
      let (m, r, e', k', le) =
        charge_loop_total start n cs (min earliest c.payment_date) s h.1 (k ∙ l) in
      (m, r, rw e e', k', omega arith)

  charge_days-dates :
      (start first i : ℕ) (sums : List D)
      → day_dates (charge_days start first i sums) ≡ dates start i (length sums)
  unfolding charge_days
  charge_days-dates start first i [] = refl
  charge_days-dates start first i (s ∷ ss) =
      ground (arith, date_of start i, charge_days-dates start first (i + 1) ss)

  charge_days-known :
      (start first i : ℕ) (sums : List D)
      → first < i + length sums
      → i ≤ first
      → any is_known (charge_days start first i sums) ≡ true
  unfolding charge_days
  charge_days-known start first i [] h k = absurd (omega arith)
  charge_days-known start first i (s ∷ ss) h k = elim (Bool-cases (ltb i first)) [
    | inl e ↦ rw e (charge_days-known start first (i + 1) ss (omega arith) (ground arith))
    | inr e ↦ rw e refl
  ]

earliest_of-le : (e : ℕ) (f : Option ℕ) → earliest_of e f ≤ e
earliest_of-le e none = omega arith
earliest_of-le e (some x) = omega arith

module _ {D : Type 0} ⦃num : Decimal D⦄ where
  pub from_charges-Returns :
      (c : SpendCharge D) (cs : List (SpendCharge D)) (first_charge_at : Option ℕ) (currency : Str)
      (start n : ℕ)
      → All (Inside start n) (c ∷ cs)
      → Returns start n (from_charges c cs first_charge_at currency start n)
  unfolding from_charges
  from_charges-Returns c cs f currency start n h =
      let (e, r, eq, l, le) =
        charge_loop_total start n (c ∷ cs) c.payment_date (replicate n num.nought) h
          (length-replicate n num.nought) in
      let first = (earliest_of e f - start) / ms_per_day in
      rw eq (
        summarize-Returns start n (charge_days start first 0 r) currency charges
          (num.of_ℕ (n - first)) (charge_days-dates start first 0 r ∙ ap (dates start 0) l)
          (charge_days-known start first 0 r (omega (arith, earliest_of-le e f, h.0))
            (omega arith)))
