-- ===== src/Notifications/Alerts.antt =====
-- `checkAndNotify` and `maybeSend` of notifications.service.ts. The texts of the messages are left
-- out: an alert is its dedup key. The notification log is a table of the database and Telegram is
-- outside the repository, so both are parameters, as are the formats of a day.
use infra_billing.Base.{
  Bool, List, Option, Str, [], any, codes, false, if◌then◌else◌, ltb, none, not, some, str_eq, true,
  ℕ, ◌*◌, ◌++◌, ◌-◌, ◌∷◌,
}
use infra_billing.Money.{Severity, critical}

pub record UpcomingBilling : Type 0 where
  pub service_uuid : Str
  pub severity : Severity
  pub covered : Option Bool
  pub next_billing_at : ℕ

pub record RunwayRow : Type 0 where
  pub account_uuid : Str
  pub severity : Severity

-- What the check reads of the dashboard's summary.
pub record Summary : Type 0 where
  pub upcoming_billings : List UpcomingBilling
  pub balance_runway : List RunwayRow
  -- The service of each overdue billing.
  pub overdue_billings : List Str

abbrev pub is_critical : Severity → Bool
is_critical critical = true
is_critical _ = false

abbrev pub coverage_prefix : Option Bool → Str
coverage_prefix none = codes "unknown-coverage:"
coverage_prefix (some b) = codes "low-balance:"

-- 1) of `checkAndNotify`.
unfoldable pub coverage_keys : List UpcomingBilling → List Str
coverage_keys [] = []
coverage_keys (ub ∷ ubs) =
    let rest = coverage_keys ubs in
    if is_critical ub.severity then (coverage_prefix ub.covered ++ ub.service_uuid) ∷ rest else rest

-- 1b)
unfoldable pub runway_keys : List RunwayRow → List Str
runway_keys [] = []
runway_keys (r ∷ rs) =
    let rest = runway_keys rs in
    if is_critical r.severity then (codes "runway:" ++ r.account_uuid) ∷ rest else rest

-- 1c)
unfoldable pub overdue_keys : List Str → List Str
overdue_keys [] = []
overdue_keys (service ∷ services) = (codes "overdue:" ++ service) ∷ overdue_keys services

-- 2) with the day of a charge as `YYYY-MM-DD`.
unfoldable pub upcoming_keys : (ℕ → Str) → ℕ → List UpcomingBilling → List Str
upcoming_keys day_text horizon [] = []
upcoming_keys day_text horizon (ub ∷ ubs) =
    let rest = upcoming_keys day_text horizon ubs in
    if ltb horizon ub.next_billing_at
    then rest
    else (codes "upcoming:" ++ ub.service_uuid ++ codes ":" ++ day_text ub.next_billing_at) ∷ rest

-- 3) with the account of each failed run, once.
unfoldable pub error_keys : List Str → List Str → List Str
error_keys seen [] = []
error_keys seen (account ∷ accounts) =
    let rest = error_keys seen accounts in
    let rest_seen = error_keys (account ∷ seen) accounts in
    if any (str_eq account) seen then rest else (codes "sync-error:" ++ account) ∷ rest_seen

abbrev pub throttle_ms : ℕ
throttle_ms = 24 * 3600000

-- `NotificationLogRepository`.
pub record NotificationLog (L : Type 0) : Type 0 where
  pub was_sent_since : Str → ℕ → L → Bool
  pub record_key : Str → ℕ → L → L

module _ {L : Type 0} ⦃log : NotificationLog L⦄ (telegram_send : Str → Bool) (now : ℕ) where
  -- Whether the message went out, and the log.
  unfoldable pub maybe_send : Str → L → Bool × L
  maybe_send key l =
      if log.was_sent_since key (now - throttle_ms) l
      then (false, l)
      else if telegram_send key
      then (true, log.record_key key now l)
      else (false, l)

  -- The alerts in their order: the keys that were sent, and the log.
  unfoldable pub send_all : List Str → L → List Str × L
  unfolding maybe_send
  send_all [] l = ([], l)
  send_all (key ∷ keys) l =
      let rest = send_all keys (maybe_send key l).1 in
      (if (maybe_send key l).0 then key ∷ rest.0 else rest.0, rest.1)

  -- `checkAndNotify`, outside the quiet hours, with Telegram on.
  unfoldable pub check_alerts : (ℕ → Str) → ℕ → Summary → List Str → L → List Str × L
  unfolding send_all coverage_keys runway_keys overdue_keys upcoming_keys error_keys
  check_alerts day_text horizon summary error_accounts l =
      send_all
        (coverage_keys summary.upcoming_billings
          ++ runway_keys summary.balance_runway
          ++ overdue_keys summary.overdue_billings
          ++ upcoming_keys day_text horizon summary.upcoming_billings
          ++ error_keys [] error_accounts)
        l

  unfoldable pub check_and_notify : Bool → ℕ → (ℕ → Str) → ℕ → Summary → List Str → L → List Str × L
  unfolding check_alerts
  check_and_notify is_enabled quiet_ms day_text horizon summary error_accounts l =
      if not is_enabled
      then ([], l)
      else if ltb 0 quiet_ms
      then ([], l)
      else check_alerts day_text horizon summary error_accounts l
