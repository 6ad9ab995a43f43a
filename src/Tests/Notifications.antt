-- ===== src/Tests/Notifications.antt =====
-- Quiet hours from 22:00 to 09:00 in a zone three hours east, and one alert.
use infra_billing.Base.{
  All, List, Str, [], any, arith, codes, false, leb, none, refl, some, str_eq, true, ℕ, ◌&&◌, ◌+◌,
  ◌<◌, ◌||◌, ◌∷◌, ◌≡◌, ◌≤◌, ◌⊎◌,
}
use infra_billing.Money.{critical}
use infra_billing.Notifications.Quiet.{QuietHours, is_inside, quiet_hours_remaining_ms, to_minutes}
use infra_billing.Notifications.Window.{minute, quiet_hours_remaining_ms-closes}
use infra_billing.Notifications.Alerts.{Summary, check_and_notify}
use infra_billing.Notifications.Throttle.{IsFresh, NoRepeat, check_and_notify-throttles}
use infra_billing.Tests.Tables.{list_log, list_log-IsNotificationLog}

abbrev hours : QuietHours
hours = record {
  quiet_hours_enabled = true;
  quiet_hours_start = codes "22:00";
  quiet_hours_end = codes "09:00";
  quiet_hours_timezone = some (codes "Europe/Moscow");
}

abbrev moscow : ℕ → Str → ℕ
moscow t zone = minute 180 t

abbrev opening : ℕ
opening = 1320

abbrev closing_time : ℕ
closing_time = 540

-- At 20:30:10 in UTC the window is open.
abbrev evening : ℕ
evening = 73810000

quiet_hours_remaining_ms-closes_example :
    ((quiet_hours_remaining_ms moscow hours evening ≡ 0)
      × ((opening ≡ closing_time) ⊎ (is_inside opening closing_time (minute 180 evening) ≡ false)))
    ⊎ ((0 < quiet_hours_remaining_ms moscow hours evening)
        × (minute 180 (evening + quiet_hours_remaining_ms moscow hours evening) ≡ 540)
        × ((t : ℕ)
            → evening ≤ t
            → t < evening + quiet_hours_remaining_ms moscow hours evening
            → is_inside opening closing_time (minute 180 t) ≡ true))
unfolding to_minutes
quiet_hours_remaining_ms-closes_example =
    quiet_hours_remaining_ms-closes moscow hours opening closing_time 180 evening (refl, refl, refl)
      (omega arith) (omega arith) (λ t from to. refl)

abbrev summary : Summary
summary = record {
  upcoming_billings =
      record { service_uuid = codes "s"; severity = critical; covered = none; next_billing_at = 9 }
      ∷ [];
  balance_runway = [];
  overdue_billings = codes "s" ∷ codes "s" ∷ [];
}

abbrev day_text : ℕ → Str
day_text t = codes "1970-01-01"

abbrev no_ms : ℕ
no_ms = 0

abbrev checked : List Str × List (Str × ℕ)
checked = check_and_notify (λ key. true) 86400000 true 0 day_text 5 summary (codes "a" ∷ []) []

check_and_notify-throttles_example :
    All (IsFresh list_log-IsNotificationLog (λ key. true) 86400000 []) checked.0
    × NoRepeat checked.0
    × ((k : Str) (since : ℕ)
        → list_log.was_sent_since k since checked.1
          ≡ (any (str_eq k) checked.0 && leb since 86400000) || list_log.was_sent_since k since [])
    × ((checked.0 ≡ []) ⊎ ((true ≡ true) × (no_ms ≡ 0)))
check_and_notify-throttles_example =
    check_and_notify-throttles list_log-IsNotificationLog (λ key. true) 86400000 true 0 day_text 5
      summary (codes "a" ∷ []) []
