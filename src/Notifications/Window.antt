-- ===== src/Notifications/Window.antt =====
-- The quiet window of quiet-hours.ts: how long a message that comes in it is held.
use infra_billing.Base.{
  ==_iff, Bool-cases, Str, arith, codes, false, get_or_else, inl, inr, not, refl, some, sym, true,
  ℕ, ◌%◌, ◌*◌, ◌+◌, ◌-◌, ◌/◌, ◌<◌, ◌==◌, ◌||◌, ◌≡◌, ◌≤◌, ◌⊎◌,
}
use infra_billing.Notifications.Quiet.{
  is_inside, minutes_left, remaining_in, quiet_hours_remaining_ms, QuietHours, to_minutes,
}

-- The minute of the day at an instant, in a zone `zone` minutes east.
abbrev pub minute : ℕ → ℕ → ℕ
minute zone t = (t / 60000 + zone) % 1440

closing_instant :
    (now left : ℕ) → 0 < left → now + (left * 60000 - now % 60000) ≡ (now / 60000 + left) * 60000
closing_instant now left h = omega arith

closing_minute :
    (end zone a : ℕ)
    → end < 1440
    → (a + (end + 1440 - (a + zone) % 1440) % 1440 + zone) % 1440 ≡ end
closing_minute end zone a h = omega arith

left_pos : (end cur : ℕ) → end < 1440 → cur < 1440 → ¬ (cur ≡ end) → 0 < minutes_left end cur
left_pos end cur h k n = omega arith

is_inside-later :
    (start end cur k : ℕ)
    → start < 1440
    → end < 1440
    → cur < 1440
    → is_inside start end cur ≡ true
    → k < minutes_left end cur
    → is_inside start end ((cur + k) % 1440) ≡ true
unfolding is_inside
is_inside-later start end cur k h1 h2 h3 h4 h5 = ground arith

is_inside-not_end :
    (start end cur : ℕ) → is_inside start end cur ≡ true → ¬ (start ≡ end) → ¬ (cur ≡ end)
unfolding is_inside
is_inside-not_end start end cur h n e = ground arith

-- The three cases of `remaining_in`.
abbrev Closes : ℕ → ℕ → ℕ → ℕ → ℕ → Type 0
Closes start end zone now left =
    ((left ≡ 0) × ((start ≡ end) ⊎ (is_inside start end (minute zone now) ≡ false)))
    ⊎ ((0 < left)
        × (minute zone (now + left) ≡ end)
        × ((t : ℕ) → now ≤ t → t < now + left → is_inside start end (minute zone t) ≡ true))

between :
    (zone now t left : ℕ)
    → now ≤ t
    → t < (now / 60000 + left) * 60000
    → (t / 60000 - now / 60000 < left)
      × (minute zone t ≡ (minute zone now + (t / 60000 - now / 60000)) % 1440)
between zone now t left h k = (omega arith, omega arith)

open_lem :
    (start end zone now : ℕ)
    → start < 1440
    → end < 1440
    → ¬ (start ≡ end)
    → is_inside start end (minute zone now) ≡ true
    → Closes start end zone now (minutes_left end (minute zone now) * 60000 - now % 60000)
open_lem start end zone now h1 h2 n i =
    let cur = minute zone now in
    let left = minutes_left end cur in
    let pos = left_pos end cur h2 (omega arith) (is_inside-not_end start end cur i n) in
    let instant = closing_instant now left pos in
    inr (
      omega (arith, pos),
      rw instant (omega (arith, closing_minute end zone (now / 60000) h2)),
      λ t h k.
          let (before, same) = between zone now t left h (rw (sym instant) k) in
          rw same
            (is_inside-later start end cur (t / 60000 - now / 60000) h1 h2 (omega arith) i before),
    )

remaining_in-open :
    (start end cur now : ℕ)
    → (start == end) ≡ false
    → is_inside start end cur ≡ true
    → remaining_in start end cur now ≡ minutes_left end cur * 60000 - now % 60000
unfolding remaining_in
remaining_in-open start end cur now n i = rw (n, i) refl

remaining_in-shut :
    (start end cur now : ℕ)
    → (start == end) || not (is_inside start end cur) ≡ true
    → remaining_in start end cur now ≡ 0
unfolding remaining_in
remaining_in-shut start end cur now h = ground arith

remaining_in_lem :
    (start end zone now : ℕ)
    → start < 1440
    → end < 1440
    → Closes start end zone now (remaining_in start end (minute zone now) now)
remaining_in_lem start end zone now h1 h2 =
    let cur = minute zone now in
    elim (Bool-cases (start == end)) [
      | inl y ↦ inl (remaining_in-shut start end cur now (rw y refl), inl ((==_iff start end).0 y))
      | inr n ↦ elim (Bool-cases (is_inside start end cur)) [
        | inr o ↦ inl (remaining_in-shut start end cur now (rw (n, o) refl), inr o)
        | inl i ↦
            rw (remaining_in-open start end cur now n i)
              (open_lem start end zone now h1 h2 (λ e. ground (arith, n)) i)
      ]
    ]

abbrev WindowOf : QuietHours → ℕ → ℕ → Type 0
WindowOf s start end =
    (s.quiet_hours_enabled ≡ true)
    × (to_minutes s.quiet_hours_start ≡ some start)
    × (to_minutes s.quiet_hours_end ≡ some end)

module _ (local_minutes : ℕ → Str → ℕ) where
  remaining_lem :
      (s : QuietHours) (start end now : ℕ)
      → WindowOf s start end
      → quiet_hours_remaining_ms local_minutes s now
        ≡ remaining_in start end
            (local_minutes now (get_or_else s.quiet_hours_timezone (codes "UTC")))
            now
  unfolding quiet_hours_remaining_ms
  remaining_lem s start end now (p, q, r) = rw (p, q, r) refl

  -- In the hours that are switched on, of a window from `start` to `end`: no time is left exactly
  -- when the window is empty or the local time is outside it. Otherwise, if the zone keeps its
  -- offset until the window closes, it is `end` there on the instant that the remaining
  -- milliseconds give, and the window is open at every instant before.
  pub quiet_hours_remaining_ms-closes :
      (s : QuietHours) (start end zone now : ℕ)
      → WindowOf s start end
      → start < 1440
      → end < 1440
      → ((t : ℕ)
          → now ≤ t
          → t ≤ now + quiet_hours_remaining_ms local_minutes s now
          → local_minutes t (get_or_else s.quiet_hours_timezone (codes "UTC")) ≡ minute zone t)
      → ((quiet_hours_remaining_ms local_minutes s now ≡ 0)
          × ((start ≡ end) ⊎ (is_inside start end (minute zone now) ≡ false)))
        ⊎ ((0 < quiet_hours_remaining_ms local_minutes s now)
            × (minute zone (now + quiet_hours_remaining_ms local_minutes s now) ≡ end)
            × ((t : ℕ)
                → now ≤ t
                → t < now + quiet_hours_remaining_ms local_minutes s now
                → is_inside start end (minute zone t) ≡ true))
  quiet_hours_remaining_ms-closes s start end zone now w h1 h2 even =
      let now_even = even now (omega arith) (omega arith) in
      rw (remaining_lem s start end now w, now_even) (remaining_in_lem start end zone now h1 h2)
