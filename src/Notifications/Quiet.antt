-- ===== src/Notifications/Quiet.antt =====
-- quiet-hours.ts: the milliseconds until the quiet window closes. `Intl` gives the local time of an
-- instant in a zone, so `local_minutes` is a parameter. An instant is in milliseconds since 1970.
use infra_billing.Base.{
  Bool, Option, Str, [], codes, get_or_else, if◌then◌else◌, leb, ltb, none, some, ℕ, ◌%◌, ◌&&◌, ◌*◌,
  ◌+◌, ◌-◌, ◌==◌, ◌>>=◌, ◌||◌, ◌∷◌,
}

pub record QuietHours : Type 0 where
  pub quiet_hours_enabled : Bool
  pub quiet_hours_start : Str
  pub quiet_hours_end : Str
  pub quiet_hours_timezone : Option Str

abbrev pub day_minutes : ℕ
day_minutes = 24 * 60

-- `Number` of a digit; a text of the settings is checked to be HH:MM.
abbrev pub digit : ℕ → Option ℕ
digit c = if leb 48 c && leb c 57 then some (c - 48) else none

-- `toMinutes` of HH:MM; any other text is no number here.
unfoldable pub to_minutes : Str → Option ℕ
to_minutes (h1 ∷ h2 ∷ colon ∷ m1 ∷ m2 ∷ []) = do
  a ← digit h1
  b ← digit h2
  c ← digit m1
  d ← digit m2
  if colon == 58 then some ((10 * a + b) * 60 + (10 * c + d)) else none
to_minutes _ = none

-- `inside`, on minutes of the day.
unfoldable pub is_inside : ℕ → ℕ → ℕ → Bool
is_inside start end cur =
    if ltb start end then leb start cur && ltb cur end else leb start cur || ltb cur end

-- The minutes from `cur` to the next `end`.
abbrev pub minutes_left : ℕ → ℕ → ℕ
minutes_left end cur = (end + day_minutes - cur) % day_minutes

-- The rest of `quietHoursRemainingMs`, for the window [start, end).
unfoldable pub remaining_in : ℕ → ℕ → ℕ → ℕ → ℕ
remaining_in start end cur now =
    if start == end
    then 0
    else if is_inside start end cur
    then minutes_left end cur * 60000 - now % 60000
    else 0

module _ (local_minutes : ℕ → Str → ℕ) where
  unfoldable pub quiet_hours_remaining_ms : QuietHours → ℕ → ℕ
  unfolding to_minutes remaining_in
  quiet_hours_remaining_ms s now =
      if s.quiet_hours_enabled
      then elim (to_minutes s.quiet_hours_start) [
        | none ↦ 0
        | some start ↦ elim (to_minutes s.quiet_hours_end) [
          | none ↦ 0
          | some end ↦
              remaining_in start end
                (local_minutes now (get_or_else s.quiet_hours_timezone (codes "UTC"))) now
        ]
      ]
      else 0
