-- ===== src/Notifications/Messages/Texts.antt =====
-- The texts of the alerts themselves: notifications/messages.ts.
use infra_billing.Base.{List, Option, Str, [], codes, get_or_else, take_front, ◌++◌, ◌∷◌}
use infra_billing.Notifications.Messages.{
  Part, markup, field, Url, units, emoji, provider_link, account_display_name, when_label, AlertRow,
  runway_label, ago_label_ru,
}

module _ (parse_url : Str → Option Url) where
  -- `ownerLink`.
  abbrev pub owner_link : AlertRow → List Part
  owner_link row =
      provider_link parse_url (account_display_name row.provider_name row.account_label)
        row.provider_login_url

  abbrev pub code_pair : Str → Str → List Part
  code_pair a b =
      markup (codes "<code>")
      ∷ field a
      ∷ markup (codes " ")
      ∷ field b
      ∷ markup (codes "</code>")
      ∷ []

  abbrev pub head : Part → Part → AlertRow → List Part
  head icon title row =
      icon ∷ title ∷ emoji "5258093637450866522" "🤖" ∷ markup (codes " ") ∷ owner_link row

  abbrev pub service_line : AlertRow → List Part
  service_line row =
      markup (codes "\n")
      ∷ emoji "5258423306255604960" "💻"
      ∷ markup (codes " ")
      ∷ field row.name
      ∷ markup (codes "\n\n")
      ∷ []

  -- `lowBalanceMessage`.
  unfoldable pub low_balance_message : AlertRow → List Part
  low_balance_message ub =
      head (emoji "5258474669769497337" "❗") (markup (units " <b>Низкий баланс</b>\n\n")) ub
      ++ service_line ub
      ++ (emoji "5258258882022612173" "⏲"
          ∷ markup (units " Списание ")
          ∷ code_pair ub.cost ub.currency)
      ++ (markup (codes " ")
          ∷ markup (when_label ub.days)
          ∷ markup (units " — баланса не хватит.\n")
          ∷ emoji "5258368777350816286" "🪙"
          ∷ markup (units " Баланс: ")
          ∷ code_pair (get_or_else ub.account_balance (codes "0"))
              (get_or_else ub.account_balance_currency []))

  -- `unknownCoverageMessage`.
  unfoldable pub unknown_coverage_message : AlertRow → List Part
  unknown_coverage_message ub =
      head (emoji "5258503720928288433" "ℹ") (markup (units " <b>Баланс неизвестен</b>\n\n")) ub
      ++ service_line ub
      ++ (emoji "5258258882022612173" "⏲"
          ∷ markup (units " Списание ")
          ∷ code_pair ub.cost ub.currency)
      ++ (markup (codes " ")
          ∷ markup (when_label ub.days)
          ∷ markup (units " — панель не видит баланс, проверь покрытие в ЛК.")
          ∷ [])

  -- `lowRunwayMessage`, of the burn in a day and the balance.
  unfoldable pub low_runway_message : AlertRow → Str → Str → List Part
  low_runway_message r burn_per_day balance =
      head (emoji "5258368777350816286" "🪙") (markup (units " <b>Запас кончается</b>\n\n")) r
      ++ (markup (codes "\n\n")
          ∷ emoji "5258258882022612173" "⏲"
          ∷ markup (units " Баланса хватит ещё на ")
          ∷ markup (runway_label r.days)
          ∷ markup (units " (трата ≈")
          ∷ code_pair burn_per_day r.currency)
      ++ (markup (units "/день).\n")
          ∷ emoji "5258368777350816286" "🪙"
          ∷ markup (units " Баланс: ")
          ∷ code_pair balance r.currency)

  -- `overdueBillingMessage`, of the first ten characters of the date.
  unfoldable pub overdue_billing_message : AlertRow → Str → List Part
  overdue_billing_message ob next_billing_at =
      head (emoji "5258474669769497337" "❗") (markup (units " <b>Просроченное списание</b>\n\n")) ob
      ++ service_line ob
      ++ (emoji "5258105663359294787" "🗓"
          ∷ markup (units " Дата: <code>")
          ∷ field (take_front 10 next_billing_at)
          ∷ markup (codes "</code> (")
          ∷ markup (ago_label_ru ob.days)
          ∷ markup (codes ")\n")
          ∷ emoji "5258368777350816286" "🪙"
          ∷ markup (units " Сумма: ")
          ∷ code_pair ob.cost ob.currency)

  -- `upcomingBillingMessage`.
  unfoldable pub upcoming_billing_message : AlertRow → Str → List Part
  upcoming_billing_message ub day =
      head (emoji "5258105663359294787" "🗓") (markup (units " <b>Скоро списание</b>\n\n")) ub
      ++ service_line ub
      ++ (emoji "5258105663359294787" "🗓"
          ∷ markup (units " Дата: <code>")
          ∷ field day
          ∷ markup (codes "</code>\n")
          ∷ emoji "5258368777350816286" "🪙"
          ∷ markup (units " Сумма: ")
          ∷ code_pair ub.cost ub.currency)

  -- `syncErrorMessage`.
  unfoldable pub sync_error_message : Str → Str → Option Str → Option Str → List Part
  sync_error_message provider_name error login_url account_label =
      (emoji "5260342697075416641" "❌"
        ∷ markup (units " <b>Ошибка синхронизации</b>\n\n")
        ∷ emoji "5258093637450866522" "🤖"
        ∷ markup (units " Провайдер: ")
        ∷ provider_link parse_url (account_display_name provider_name account_label) login_url)
      ++ (markup (codes "\n")
          ∷ emoji "5258503720928288433" "ℹ"
          ∷ markup (codes " <code>")
          ∷ field error
          ∷ markup (codes "</code>")
          ∷ [])
