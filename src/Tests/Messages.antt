-- ===== src/Tests/Messages.antt =====
-- An alert whose service name looks like markup.
use infra_billing.Base.{Option, Str, codes, none, some, ◌+◌, ◌≡◌}
use infra_billing.Notifications.Messages.{Url, message, AlertRow}
use infra_billing.Notifications.Messages.Texts.{
  low_balance_message, unknown_coverage_message, low_runway_message, overdue_billing_message,
  upcoming_billing_message, sync_error_message,
}
use infra_billing.Notifications.Messages.Counts.{count}
use infra_billing.Notifications.Messages.Markup.{link_tags, count-messages}

abbrev parse_url : Str → Option Url
parse_url s = some (record { protocol = codes "https:"; href = s })

abbrev row : AlertRow
row = record {
  name = codes "<b>vps</b>";
  provider_name = codes "A & B";
  account_label = none;
  provider_login_url = some (codes "https://example.com/");
  cost = codes "5.00";
  currency = codes "USD";
  days = 2;
  account_balance = none;
  account_balance_currency = none;
}

count-messages_example :
    let link = link_tags parse_url row.provider_login_url in
    (count 60 (message (low_balance_message parse_url row)) ≡ 18 + link)
    × (count 60 (message (unknown_coverage_message parse_url row)) ≡ 14 + link)
    × (count 60 (message (low_runway_message parse_url row (codes "1") (codes "9"))) ≡ 16 + link)
    × (count 60 (message (overdue_billing_message parse_url row (codes "2026-01-02"))) ≡ 18 + link)
    × (count 60 (message (upcoming_billing_message parse_url row (codes "2026-01-02"))) ≡ 18 + link)
    × (count 60 (
          message
            (sync_error_message parse_url (codes "A") (codes "<script>") none (some (codes "x"))))
        ≡ 12 + link_tags parse_url none)
count-messages_example =
    count-messages parse_url row (codes "1") (codes "9") (codes "2026-01-02") (codes "A")
      (codes "<script>") none (some (codes "x"))
