-- ===== src/Analytics.antt =====
-- analytics.service.ts: the rows that the panel computes with, and the texts of a service's badge.
pub mod Costs
pub mod Due
pub mod Billings
pub mod Runways
pub mod Forecast
use infra_billing.Base.{
  Bool, List, Map, Option, Str, [], codes, find, get_or_else, if◌then◌else◌, ltb, map_get, map_set,
  none, or_null, some, str_eq, trim, ℕ, ◌+◌, ◌∷◌,
}
use infra_billing.Money.{Period}
use infra_billing.Sync.Tables.{Json, text, Meta}

-- A service that is active, with its cost as a decimal.
pub record ServiceCost (D : Type 0) : Type 0 where
  pub uuid : Str
  pub name : Str
  pub provider_uuid : Str
  pub account_uuid : Str
  pub project_uuid : Str
  pub type_name : Str
  pub country_code : Option Str
  pub meta : Meta
  pub cost : D
  pub currency : Str
  pub period : Period
  pub next_billing_at : Option ℕ
  pub created_at : ℕ

-- An account with its balance.
pub record AccountBalance (D : Type 0) : Type 0 where
  pub uuid : Str
  pub provider_uuid : Str
  pub label : Option Str
  pub balance : Option D
  pub balance_currency : Option Str
  pub is_postpaid : Bool

pub record PaymentSpent (D : Type 0) : Type 0 where
  pub account_uuid : Str
  pub provider_uuid : Str
  pub type_name : Str
  pub amount : D
  pub currency : Str
  pub payment_date : ℕ

-- `metaString`: a text that is not blank.
unfoldable pub meta_string : Meta → Str → Option Str
unfolding map_get trim
meta_string meta key = elim (map_get key meta) [ some (text s) ↦ or_null (trim s) | other ↦ none ]

pub record Badge : Type 0 where
  pub type_name : Str
  pub country_code : Option Str
  pub marker : Option Str
  pub marker_bg : Option Str
  pub vendor : Option Str

-- `serviceBadgeFields`.
unfoldable pub service_badge_fields : {D : Type 0} → ServiceCost D → Badge
unfolding meta_string
service_badge_fields s = record {
  type_name = s.type_name;
  country_code = s.country_code;
  marker = meta_string s.meta (codes "marker");
  marker_bg = meta_string s.meta (codes "markerBg");
  vendor = elim (meta_string s.meta (codes "vendor")) [
    | none ↦ meta_string s.meta (codes "model")
    | some v ↦ some v
  ];
}

-- How many accounts each provider has: `perProvider` of `ownerFieldsFactory`.
unfoldable pub per_provider : {D : Type 0} → List (AccountBalance D) → Map ℕ → Map ℕ
per_provider [] counts = counts
per_provider (a ∷ rest) counts =
    per_provider rest
      (map_set a.provider_uuid (get_or_else (map_get a.provider_uuid counts) 0 + 1) counts)

-- `accountLabel` of `ownerFieldsFactory`: the empty text marks the account without a label among
-- several.
unfoldable pub account_label : {D : Type 0} → List (AccountBalance D) → Str → Option Str
account_label accounts uuid = elim (find (λ a. str_eq a.uuid uuid) accounts) [
  | none ↦ none
  | some a ↦
      if ltb 1 (get_or_else (map_get a.provider_uuid (per_provider accounts [])) 0)
      then some (get_or_else a.label [])
      else none
]
