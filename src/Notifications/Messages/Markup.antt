-- ===== src/Notifications/Messages/Markup.antt =====
-- The markup of the alerts does not depend on the data: notifications/messages.ts.
use infra_billing.Base.{
  Option, Option-cases, Str, ap, arith, inl, inr, none, refl, some, ℕ, ◌+◌, ◌∙◌, ◌≡◌,
}
use infra_billing.Notifications.Messages.{
  Url, message, safe_http_url, link_to, bold, provider_link, AlertRow,
}
use infra_billing.Notifications.Messages.Texts.{
  low_balance_message, unknown_coverage_message, low_runway_message, overdue_billing_message,
  upcoming_billing_message, sync_error_message,
}
use infra_billing.Notifications.Messages.Counts.{
  count, tags, count-message, count-when_label, count-runway_label, count-ago_label_ru,
}

module _ (parse_url : Str → Option Url) where
  -- What a valid link adds.
  abbrev pub link_tags : Option Str → ℕ
  link_tags url = elim (safe_http_url parse_url url) [ none ↦ 0 | some href ↦ 2 ]

  tags-link_to :
      (name : Str) (url : Option Str) → tags (provider_link parse_url name url) ≡ 2 + link_tags url
  tags-link_to name url = go (safe_http_url parse_url url)
    where
      go :
          (href : Option Str)
          → tags (link_to href (bold name)) ≡ 2 + elim href [ none ↦ 0 | some h ↦ 2 ]
      go none = refl
      go (some h) = refl

  link_tags-eq :
      (url o : Option Str)
      → safe_http_url parse_url url ≡ o
      → link_tags url ≡ elim o [ none ↦ 0 | some href ↦ 2 ]
  link_tags-eq url o e = ap (λ (q : Option Str). elim q [ none ↦ 0 | some href ↦ 2 ]) e

  tags-low_balance :
      (row : AlertRow)
      → tags (low_balance_message parse_url row) ≡ 18 + link_tags row.provider_login_url
  unfolding low_balance_message
  tags-low_balance row = elim (Option-cases (safe_http_url parse_url row.provider_login_url)) [
    | inl e ↦
        rw e (omega (arith, count-when_label row.days, link_tags-eq row.provider_login_url none e))
    | inr (href, e) ↦ rw e (
        omega (arith, count-when_label row.days, link_tags-eq row.provider_login_url (some href) e))
  ]

  tags-unknown_coverage :
      (row : AlertRow)
      → tags (unknown_coverage_message parse_url row) ≡ 14 + link_tags row.provider_login_url
  unfolding unknown_coverage_message
  tags-unknown_coverage row = elim (Option-cases (safe_http_url parse_url row.provider_login_url)) [
    | inl e ↦
        rw e (omega (arith, count-when_label row.days, link_tags-eq row.provider_login_url none e))
    | inr (href, e) ↦ rw e (
        omega (arith, count-when_label row.days, link_tags-eq row.provider_login_url (some href) e))
  ]

  tags-low_runway :
      (row : AlertRow) (burn_per_day balance : Str)
      → tags (low_runway_message parse_url row burn_per_day balance)
        ≡ 16 + link_tags row.provider_login_url
  unfolding low_runway_message
  tags-low_runway row burn_per_day balance =
      elim (Option-cases (safe_http_url parse_url row.provider_login_url)) [
        | inl e ↦
            rw e (
              omega
                (arith, count-runway_label row.days, link_tags-eq row.provider_login_url none e))
        | inr (href, e) ↦ rw e (
            omega (
              arith,
              count-runway_label row.days,
              link_tags-eq row.provider_login_url (some href) e,
            ))
      ]

  tags-overdue_billing :
      (row : AlertRow) (next_billing_at : Str)
      → tags (overdue_billing_message parse_url row next_billing_at)
        ≡ 18 + link_tags row.provider_login_url
  unfolding overdue_billing_message
  tags-overdue_billing row next_billing_at =
      elim (Option-cases (safe_http_url parse_url row.provider_login_url)) [
        | inl e ↦
            rw e (
              omega
                (arith, count-ago_label_ru row.days, link_tags-eq row.provider_login_url none e))
        | inr (href, e) ↦ rw e (
            omega (
              arith,
              count-ago_label_ru row.days,
              link_tags-eq row.provider_login_url (some href) e,
            ))
      ]

  tags-upcoming_billing :
      (row : AlertRow) (day : Str)
      → tags (upcoming_billing_message parse_url row day) ≡ 18 + link_tags row.provider_login_url
  unfolding upcoming_billing_message
  tags-upcoming_billing row day =
      elim (Option-cases (safe_http_url parse_url row.provider_login_url)) [
        | inl e ↦ rw e (omega (arith, link_tags-eq row.provider_login_url none e))
        | inr (href, e) ↦ rw e (omega (arith, link_tags-eq row.provider_login_url (some href) e))
      ]

  tags-sync_error :
      (name error : Str) (url label : Option Str)
      → tags (sync_error_message parse_url name error url label) ≡ 12 + link_tags url
  unfolding sync_error_message
  tags-sync_error name error url label = elim (Option-cases (safe_http_url parse_url url)) [
    | inl e ↦ rw e (omega (arith, link_tags-eq url none e))
    | inr (href, e) ↦ rw e (omega (arith, link_tags-eq url (some href) e))
  ]

  -- No field of an alert can add markup: the number of opening angle brackets of each of the six
  -- texts is that of its template, plus two where the login URL gives a link, whatever the names,
  -- amounts, dates and errors are.
  pub count-messages :
      (row : AlertRow) (burn_per_day balance day name error : Str) (url label : Option Str)
      → let link = link_tags row.provider_login_url in
        (count 60 (message (low_balance_message parse_url row)) ≡ 18 + link)
        × (count 60 (message (unknown_coverage_message parse_url row)) ≡ 14 + link)
        × (count 60 (message (low_runway_message parse_url row burn_per_day balance)) ≡ 16 + link)
        × (count 60 (message (overdue_billing_message parse_url row day)) ≡ 18 + link)
        × (count 60 (message (upcoming_billing_message parse_url row day)) ≡ 18 + link)
        × (count 60 (message (sync_error_message parse_url name error url label))
            ≡ 12 + link_tags url)
  count-messages row burn_per_day balance day name error url label = (
    count-message (low_balance_message parse_url row) ∙ tags-low_balance row,
    count-message (unknown_coverage_message parse_url row) ∙ tags-unknown_coverage row,
    count-message (low_runway_message parse_url row burn_per_day balance)
        ∙ tags-low_runway row burn_per_day balance,
    count-message (overdue_billing_message parse_url row day) ∙ tags-overdue_billing row day,
    count-message (upcoming_billing_message parse_url row day) ∙ tags-upcoming_billing row day,
    count-message (sync_error_message parse_url name error url label)
        ∙ tags-sync_error name error url label,
  )
