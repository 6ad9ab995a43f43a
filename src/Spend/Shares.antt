-- ===== src/Spend/Shares.antt =====
-- How `fromSnapshots` of spend.ts shares out an interval among its days.
use infra_billing.Base.{
  List, [], arith, max, suc, zero, ℕ, ◌*◌, ◌+◌, ◌-◌, ◌/◌, ◌<◌, ◌∙◌, ◌∷◌, ◌≡◌, ◌≤◌,
}
use infra_billing.Money.{ms_per_day}
use infra_billing.Spend.Snapshots.{day_shares}

abbrev pub total_overlap : List (ℕ × ℕ) → ℕ
total_overlap [] = 0
total_overlap ((i, overlap) ∷ shares) = overlap + total_overlap shares

-- What is left to share out once the days before day `i` have been dealt with.
day_shares-left :
    (left i start from to : ℕ)
    → from < start + (i + 1) * ms_per_day
    → to ≤ start + (i + left) * ms_per_day
    → total_overlap (day_shares left i start from to) ≡ to - max from (start + i * ms_per_day)
unfolding day_shares
day_shares-left zero i start from to h fits = omega arith
day_shares-left (suc left) i start from to h fits =
    ground (arith, day_shares-left left (i + 1) start from to)

-- An interval [from, to) inside the window of `days` days is shared out among the days that the
-- loop visits: their overlaps add up to the length of the interval, so no time is lost or counted
-- twice.
pub total_overlap-day_shares :
    (start days from to : ℕ)
    → start ≤ from
    → from < to
    → to ≤ start + days * ms_per_day
    → total_overlap (
        day_shares (days - (from - start) / ms_per_day) ((from - start) / ms_per_day) start from to)
      ≡ to - from
total_overlap-day_shares start days from to h lt fits =
    day_shares-left (days - first) first start from to (omega arith) (omega arith) ∙ omega arith
  where
    first : ℕ
    first = (from - start) / ms_per_day
