-- ===== src/Spend/Snapshots/Total.antt =====
-- The results of `fromSnapshots` of spend.ts.
use infra_billing.Base.{
  All, Bool, Bool-cases, List, Option, Str, [], any, ap, arith, false, inl, inr, leb, length,
  length-replicate, ltb, map, max, min, refl, replicate, some, suc, true, zero, ℕ, ◌&&◌, ◌*◌, ◌+◌,
  ◌-◌, ◌/◌, ◌<◌, ◌||◌, ◌∙◌, ◌∷◌, ◌≡◌, ◌≤◌,
}
use infra_billing.Decimal.{Decimal}
use infra_billing.Money.{ms_per_day}
use infra_billing.Runway.{burn_from_snapshots}
use infra_billing.Spend.Data.{SpendSnapshot, snapshots, is_known}
use infra_billing.Spend.Snapshots.{
  day_shares, add_share, snapshot_days, share_loop, spent_in, snap_point, interval_step,
  interval_loop, last_captured, from_snapshots,
}
use infra_billing.Spend.Consistent.{
  dates, day_dates, date_of, Returns, empty-Returns, summarize-Returns,
}

module _ {D : Type 0} ⦃num : Decimal D⦄ where
  add_share_total :
      (cs : List (D × Bool)) (i : ℕ) (x : D) (top_up : Bool)
      → i < length cs
      → (r : List (D × Bool)) × (add_share cs i x top_up ≡ some r) × (length r ≡ length cs)
  unfolding add_share
  add_share_total [] i x u h = elim h [ ]
  add_share_total ((s, e) ∷ cs) zero x u h = ((num.add s x, e || u) ∷ cs, refl, refl)
  add_share_total ((s, e) ∷ cs) (suc i) x u h =
      let (r, eq, l) = add_share_total cs i x u (omega arith) in ((s, e) ∷ r, rw eq refl, ap suc l)

-- The rounds of the inner loop stay inside the window of `n` days.
pub day_shares_inside :
    (n left i start from to : ℕ)
    → left ≤ n - i
    → All (λ (s : ℕ × ℕ). s.0 < n) (day_shares left i start from to)
unfolding day_shares
day_shares_inside n zero i start from to h = tt
day_shares_inside n (suc left) i start from to h =
    ground (arith, day_shares_inside n left (i + 1) start from to)

module _ {D : Type 0} ⦃num : Decimal D⦄ where
  share_loop_total :
      (n : ℕ) (shares : List (ℕ × ℕ)) (spent : D) (dt : ℕ) (top_up : Bool) (cells : List (D × Bool))
      → All (λ (s : ℕ × ℕ). s.0 < n) shares
      → length cells ≡ n
      → (r : List (D × Bool)) × (share_loop shares spent dt top_up cells ≡ some r) × (length r ≡ n)
  unfolding share_loop
  share_loop_total n [] spent dt u cells h l = (cells, refl, l)
  share_loop_total n ((i, overlap) ∷ shares) spent dt u cells h l =
      let (s, e, k) =
        add_share_total cells i (num.div (num.mul spent (num.of_ℕ overlap)) (num.of_ℕ dt)) u
          (omega arith) in
      let (r, e', k') = share_loop_total n shares spent dt u s h.1 (k ∙ l) in (r, rw e e', k')

  interval_step_total :
      (start end_ms n : ℕ) (rate : Option D) (p q : SpendSnapshot D) (cells : List (D × Bool))
      → length cells ≡ n
      → (r : List (D × Bool)) × (interval_step start end_ms n rate p q cells ≡ some r)
        × (length r ≡ n)
  unfolding interval_step
  interval_step_total start end_ms n rate p q cells l =
      elim (Bool-cases (leb dt 0 || leb to from)) [
        | inl e ↦ (cells, rw e refl, l)
        | inr e ↦
            let (r, eq, k) =
              share_loop_total n (day_shares (n - first) first start from to)
                (spent_in rate (num.sub p.balance q.balance) dt) dt
                (num.is_negative (num.sub p.balance q.balance)) cells
                (day_shares_inside n (n - first) first start from to (omega arith)) l in
            (r, rw e eq, k)
      ]
    where
      dt : ℕ
      dt = q.captured_at - p.captured_at

      from : ℕ
      from = max p.captured_at start

      to : ℕ
      to = min q.captured_at end_ms

      first : ℕ
      first = (from - start) / ms_per_day

  interval_loop_total :
      (start end_ms n : ℕ) (rate : Option D) (p : SpendSnapshot D) (qs : List (SpendSnapshot D))
      (cells : List (D × Bool))
      → length cells ≡ n
      → (r : List (D × Bool)) × (interval_loop start end_ms n rate p qs cells ≡ some r)
        × (length r ≡ n)
  unfolding interval_loop
  interval_loop_total start end_ms n rate p [] cells l = (cells, refl, l)
  interval_loop_total start end_ms n rate p (q ∷ qs) cells l =
      let (s, e, k) = interval_step_total start end_ms n rate p q cells l in
      let (r, e', k') = interval_loop_total start end_ms n rate q qs s k in (r, rw e e', k')

  snapshot_days-dates :
      (start cover_start cover_end i : ℕ) (cells : List (D × Bool))
      → day_dates (snapshot_days start cover_start cover_end i cells) ≡ dates start i (length cells)
  unfolding snapshot_days
  snapshot_days-dates start a b i [] = refl
  snapshot_days-dates start a b i ((s, e) ∷ cs) =
      ground (arith, date_of start i, snapshot_days-dates start a b (i + 1) cs)

  -- The day on which the coverage starts is known.
  snapshot_days-known :
      (start cover_start cover_end i : ℕ) (cells : List (D × Bool))
      → start + i * ms_per_day ≤ cover_start
      → cover_start < cover_end
      → cover_start < start + (i + length cells) * ms_per_day
      → any is_known (snapshot_days start cover_start cover_end i cells) ≡ true
  unfolding snapshot_days
  snapshot_days-known start a b i [] h lt fits = absurd (omega arith)
  snapshot_days-known start a b i ((s, e) ∷ cs) h lt fits =
      elim (Bool-cases
        (ltb (start + i * ms_per_day) b && ltb a (start + i * ms_per_day + ms_per_day))) [
          | inl eq ↦ rw eq refl
          | inr eq ↦
              rw eq (snapshot_days-known start a b (i + 1) cs (ground arith) lt (omega arith))
        ]

  pub from_snapshots-Returns :
      (p : SpendSnapshot D) (ps : List (SpendSnapshot D)) (currency : Str) (start end_ms n : ℕ)
      → start + n * ms_per_day ≡ end_ms
      → Returns start n (from_snapshots p ps currency start end_ms n)
  unfolding from_snapshots
  from_snapshots-Returns p ps currency start end_ms n h =
      elim (Bool-cases (leb cover_end cover_start)) [
        | inl e ↦ rw e (empty-Returns start n)
        | inr e ↦
            let (r, eq, k) =
              interval_loop_total start end_ms n rate p ps (replicate n (num.nought, false))
                (length-replicate n (num.nought, false)) in
            rw (e, eq)
              (summarize-Returns start n (snapshot_days start cover_start cover_end 0 r) currency
                snapshots (num.of_ratio (cover_end - cover_start) ms_per_day)
                (snapshot_days-dates start cover_start cover_end 0 r ∙ ap (dates start 0) k)
                (snapshot_days-known start cover_start cover_end 0 r (omega arith) (ground arith)
                  (ground arith)))
      ]
    where
      cover_start : ℕ
      cover_start = max start p.captured_at

      cover_end : ℕ
      cover_end = min end_ms (last_captured p ps)

      rate : Option D
      rate = burn_from_snapshots (map snap_point (p ∷ ps))
