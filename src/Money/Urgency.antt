-- ===== src/Money/Urgency.antt =====
-- When a charge is overdue, and how its severity grows: overdue.ts and billing-severity.ts.
use infra_billing.Base.{
  Bool, Bool-cases, Option, ap, arith, inl, inr, ltb, ltb→lt, none, some, ℕ, ◌*◌, ◌-◌, ◌<◌, ◌≡◌,
  ◌≤◌, ◌⊎◌,
}
use infra_billing.Money.{
  Severity, critical, warning, ok, charge_severity, overdue_days, utc_day, ms_per_day,
}

-- A dated charge is overdue exactly when its calendar day is before today's, and then by the number
-- of days between them; so it is either overdue, by at least one day, or due today or later.
pub overdue_days_lem :
    (due now : ℕ)
    → ((utc_day due < utc_day now)
        × (overdue_days (some due) now ≡ some (utc_day now - utc_day due)))
      ⊎ ((utc_day now ≤ utc_day due) × (overdue_days (some due) now ≡ none))
unfolding overdue_days
overdue_days_lem due now = elim (Bool-cases (ltb due (utc_day now * ms_per_day))) [
  | inl e ↦ inl (omega (arith, ltb→lt _ _ e), rw e (ap some (omega arith)))
  | inr e ↦ inr (ground arith, rw e)
]

-- The order of the severities.
pub rank : Severity → ℕ
rank critical = 2
rank warning = 1
rank ok = 0

-- The severity rises as the charge comes nearer: a charge that is critical stays critical, and one
-- that is not ok does not become ok.
pub charge_severity_mono :
    (covered : Option Bool) (d e : ℕ) (is_postpaid : Bool)
    → d ≤ e
    → rank (charge_severity covered e is_postpaid) ≤ rank (charge_severity covered d is_postpaid)
unfolding charge_severity rank
charge_severity_mono none d e p h = ground arith
charge_severity_mono (some b) d e p h = ground arith
