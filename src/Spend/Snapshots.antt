-- ===== src/Spend/Snapshots.antt =====
-- `fromSnapshots` of spend.ts.
pub mod Total
use infra_billing.Base.{
  Bool, List, Option, Str, [], false, get_or_else, if◌then◌else◌, leb, ltb, map, max, min, none,
  replicate, some, suc, zero, ℕ, ◌&&◌, ◌*◌, ◌+◌, ◌-◌, ◌/◌, ◌>>=◌, ◌||◌, ◌∷◌,
}
use infra_billing.Decimal.{Decimal}
use infra_billing.Money.{ms_per_day, utc_day}
use infra_billing.Runway.{SnapPoint, burn_from_snapshots}
use infra_billing.Spend.Data.{
  SpendSnapshot, SpendDay, snapshots, AccountSpendResult, summarize, empty,
}

-- The rounds of the loop of `fromSnapshots` over the days that an interval [from, to) touches, each
-- with its overlap in milliseconds: from day `i` on, `left` days being left of the window.
unfoldable pub day_shares : ℕ → ℕ → ℕ → ℕ → ℕ → List (ℕ × ℕ)
day_shares zero i start from to = []
day_shares (suc left) i start from to =
    let day_start = start + i * ms_per_day in
    let overlap = min to (day_start + ms_per_day) - max from day_start in
    let rest = day_shares left (i + 1) start from to in
    if leb to day_start then [] else if leb overlap 0 then rest else (i, overlap) ∷ rest

module _ {D : Type 0} ⦃num : Decimal D⦄ where
  -- The same, where an element of `sums` stands beside that of `estimated`.
  unfoldable pub add_share : List (D × Bool) → ℕ → D → Bool → Option (List (D × Bool))
  add_share [] i x top_up = none
  add_share ((s, e) ∷ cs) zero x top_up = some ((num.add s x, e || top_up) ∷ cs)
  add_share (c ∷ cs) (suc i) x top_up = add_share cs i x top_up >>= λ rest. some (c ∷ rest)

  -- The rounds of `sums.map((sum, i) => …)` of `fromSnapshots`, from day `i` on.
  unfoldable pub snapshot_days : ℕ → ℕ → ℕ → ℕ → List (D × Bool) → List (SpendDay D)
  snapshot_days start cover_start cover_end i [] = []
  snapshot_days start cover_start cover_end i ((sum, e) ∷ cells) =
      let day_start = start + i * ms_per_day in
      let covered = ltb day_start cover_end && ltb cover_start (day_start + ms_per_day) in
      record {
        date = utc_day day_start;
        amount = if covered then some (num.round_half_up sum) else none;
        estimated = covered && e;
      }
      ∷ snapshot_days start cover_start cover_end (i + 1) cells

  -- The inner loop of `fromSnapshots`, over the days that the interval touches.
  unfoldable pub share_loop :
      List (ℕ × ℕ) → D → ℕ → Bool → List (D × Bool) → Option (List (D × Bool))
  share_loop [] spent dt top_up cells = some cells
  share_loop ((i, overlap) ∷ shares) spent dt top_up cells =
      add_share cells i (num.div (num.mul spent (num.of_ℕ overlap)) (num.of_ℕ dt)) top_up
      >>= λ cells'. share_loop shares spent dt top_up cells'

  -- `spent` of an interval: a rise hides a top-up, so its spend is guessed from the average rate.
  abbrev pub spent_in : Option D → D → ℕ → D
  spent_in rate decline dt =
      if num.is_negative decline
      then get_or_else (rate >>= λ r. some (num.mul r (num.of_ratio dt ms_per_day))) num.nought
      else decline

  -- One round of the outer loop of `fromSnapshots`, on two consecutive snapshots.
  unfoldable pub interval_step :
      ℕ
      → ℕ
      → ℕ
      → Option D
      → SpendSnapshot D
      → SpendSnapshot D
      → List (D × Bool)
      → Option (List (D × Bool))
  interval_step start end_ms days rate p q cells =
      let dt = q.captured_at - p.captured_at in
      let from = max p.captured_at start in
      let to = min q.captured_at end_ms in
      let decline = num.sub p.balance q.balance in
      let first = (from - start) / ms_per_day in
      if leb dt 0 || leb to from
      then some cells
      else share_loop (day_shares (days - first) first start from to) (spent_in rate decline dt) dt
          (num.is_negative decline) cells

  unfoldable pub interval_loop :
      ℕ
      → ℕ
      → ℕ
      → Option D
      → SpendSnapshot D
      → List (SpendSnapshot D)
      → List (D × Bool)
      → Option (List (D × Bool))
  interval_loop start end_ms days rate p [] cells = some cells
  interval_loop start end_ms days rate p (q ∷ qs) cells =
      interval_step start end_ms days rate p q cells >>= λ cells'.
      interval_loop start end_ms days rate q qs cells'

  abbrev pub last_captured : SpendSnapshot D → List (SpendSnapshot D) → ℕ
  last_captured p [] = p.captured_at
  last_captured p (q ∷ qs) = last_captured q qs

  abbrev pub snap_point : SpendSnapshot D → SnapPoint D
  snap_point s = record { balance = s.balance; captured_at = s.captured_at }

  -- `fromSnapshots`, on the sorted snapshots `p ∷ ps`.
  unfoldable pub from_snapshots :
      SpendSnapshot D → List (SpendSnapshot D) → Str → ℕ → ℕ → ℕ → Option (AccountSpendResult D)
  from_snapshots p ps currency start end_ms days =
      let cover_start = max start p.captured_at in
      let cover_end = min end_ms (last_captured p ps) in
      let rate = burn_from_snapshots (map snap_point (p ∷ ps)) in
      if leb cover_end cover_start
      then some (empty start days)
      else interval_loop start end_ms days rate p ps (replicate days (num.nought, false))
        >>= λ cells.
            summarize (snapshot_days start cover_start cover_end 0 cells) currency snapshots
              (num.of_ratio (cover_end - cover_start) ms_per_day)
