-- ===== src/Sync/Services.antt =====
-- `upsertServices` of sync.service.ts.
use infra_billing.Base.{
  Bool, List, Option, Str, [], any, codes, false, get_or_else, if◌then◌else◌, length, map_get,
  map_set, none, not, or_null, some, str_eq, trim, true, ℕ, ◌&&◌, ◌∷◌,
}
use infra_billing.Decimal.{Decimal}
use infra_billing.Sync.Tables.{Json, text, null, Meta, ServiceRow, ServiceTable}

-- `nextBilling` of a fetched service: left out, null, an invalid date, or an instant.
pub data NextBilling : Type 0 where
  left_out no_date invalid : NextBilling
  at : ℕ → NextBilling

-- `ServiceData` of connector.interface.ts.
pub record ServiceData (D : Type 0) : Type 0 where
  pub external_id : Str
  pub name : Str
  pub type_name : Str
  pub country_code : Option Str
  pub cost : Option D
  pub currency : Option Str
  pub period : Option Str
  pub next_billing : NextBilling
  pub meta : Meta

-- `AccountOwner`.
pub record AccountOwner : Type 0 where
  pub account_uuid : Str
  pub provider_uuid : Str

-- `typeof v === 'string' && v.trim() ? v.trim() : null`.
abbrev pub as_text : Option Json → Option Str
as_text (some (text s)) = or_null (trim s)
as_text _ = none

abbrev pub text_at : Str → Meta → Option Str
text_at key m = as_text (map_get key m)

-- `...(v ? { key: v } : {})`.
abbrev pub set_truthy : Str → Option Str → Meta → Meta
set_truthy key none m = m
set_truthy key (some []) m = m
set_truthy key (some (c ∷ cs)) m = map_set key (text (c ∷ cs)) m

abbrev pub vendor_key : Str
vendor_key = codes "vendor"

abbrev pub synced_vendor_key : Str
synced_vendor_key = codes "syncedVendor"

-- `vendorOverridden`, from the vendors before and in the incoming data.
abbrev pub vendor_overridden : Option Str → Option Str → Option Str → Bool
vendor_overridden none prev_synced incoming = false
vendor_overridden (some prev) (some synced) incoming = not (str_eq prev synced)
vendor_overridden (some prev) none none = false
vendor_overridden (some prev) none (some incoming) = not (str_eq prev incoming)

abbrev pub kept_vendor : Option Str → Option Str → Option Str → Option Str
kept_vendor prev prev_synced incoming =
    if vendor_overridden prev prev_synced incoming then prev else none

-- `nextBilling`.
abbrev pub valid_date : NextBilling → Option ℕ
valid_date (at t) = some t
valid_date _ = none

abbrev pub default_project : Str
default_project = codes "00000000-0000-0000-0000-000000000001"

-- `if (v) data.x = v`.
abbrev pub if_truthy : Option Str → Str → Str
if_truthy none old = old
if_truthy (some []) old = old
if_truthy (some (c ∷ cs)) old = c ∷ cs

abbrev pub next_of : NextBilling → Option ℕ → Option ℕ
next_of left_out old = old
next_of no_date old = none
next_of invalid old = none
next_of (at t) old = some t

module _ {D : Type 0} ⦃num : Decimal D⦄ where
  abbrev pub cost_text : Option D → Json
  cost_text none = null
  cost_text (some c) = text (num.to_fixed 2 c)

  -- `meta`: the incoming data, what the provider proposes, and a vendor that the owner has set.
  unfoldable pub synced_meta : ServiceData D → Str → Meta → Meta
  unfolding map_set map_get
  synced_meta sd account_currency prev =
      let incoming_vendor = text_at vendor_key sd.meta in
      let m1 = map_set (codes "syncedName") (text sd.name) sd.meta in
      let m2 = map_set (codes "syncedType") (text sd.type_name) m1 in
      let m3 = map_set (codes "syncedCost") (cost_text sd.cost) m2 in
      let m4 = set_truthy (codes "syncedPeriod") sd.period m3 in
      let m5 =
        map_set (codes "syncedCurrency") (text (get_or_else sd.currency account_currency)) m4 in
      let m6 = set_truthy (codes "syncedCountry") sd.country_code m5 in
      let m7 = set_truthy synced_vendor_key incoming_vendor m6 in
      set_truthy vendor_key
        (kept_vendor (text_at vendor_key prev) (text_at synced_vendor_key prev) incoming_vendor) m7

  -- The row that `create` stores.
  unfoldable pub new_row : AccountOwner → Str → ServiceData D → Str → ServiceRow
  unfolding synced_meta
  new_row owner account_currency sd uuid = record {
    uuid = uuid;
    account_uuid = owner.account_uuid;
    provider_uuid = owner.provider_uuid;
    project_uuid = default_project;
    external_id = some sd.external_id;
    name = sd.name;
    description = none;
    type_name = sd.type_name;
    country_code = some (get_or_else sd.country_code (codes "XX"));
    cost = elim sd.cost [ none ↦ codes "0.00" | some c ↦ num.to_fixed 2 c ];
    currency = get_or_else sd.currency account_currency;
    period = get_or_else sd.period (codes "monthly");
    next_billing_at = valid_date sd.next_billing;
    is_active = true;
    is_managed = true;
    cost_overridden = false;
    name_overridden = false;
    type_overridden = false;
    active_overridden = false;
    meta = synced_meta sd account_currency [];
  }

  -- The row after `update(existing.uuid, data)`: what the owner has overridden stays.
  unfoldable pub updated_row : Str → ServiceData D → Meta → ServiceRow → ServiceRow
  updated_row account_currency sd meta r = record r {
    meta = meta;
    is_active = if r.active_overridden then r.is_active else true;
    name = if r.name_overridden then r.name else sd.name;
    type_name = if r.type_overridden then r.type_name else sd.type_name;
    country_code = elim sd.country_code as (λ _. Option Str) [
      | none ↦ r.country_code
      | some c ↦ elim c as (λ _. Option Str) [ [] ↦ r.country_code | x ∷ xs ↦ some (x ∷ xs) ]
    ];
    next_billing_at = next_of sd.next_billing r.next_billing_at;
    cost =
        if r.cost_overridden
        then r.cost
        else elim sd.cost [ none ↦ r.cost | some c ↦ num.to_fixed 2 c ];
    period = if r.cost_overridden then r.period else if_truthy sd.period r.period;
    currency = if r.cost_overridden then r.currency else get_or_else sd.currency account_currency;
  }

  module _ {T : Type 0} ⦃table : ServiceTable T⦄ where
    abbrev pub write : AccountOwner → Str → ServiceData D → Option ServiceRow → T → T
    write owner currency sd none t = table.create_row (new_row owner currency sd) t
    write owner currency sd (some r) t =
        table.update_row r.uuid (updated_row currency sd (synced_meta sd currency r.meta)) t

    -- One round of the loop of `upsertServices`.
    unfoldable pub upsert_service : AccountOwner → Str → ServiceData D → T → T
    upsert_service owner currency sd t =
        write owner currency sd (table.find_row owner.account_uuid sd.external_id t) t

    unfoldable pub upsert_loop : AccountOwner → Str → List (ServiceData D) → T → T
    upsert_loop owner currency [] t = t
    upsert_loop owner currency (sd ∷ sds) t =
        upsert_loop owner currency sds (upsert_service owner currency sd t)

-- The rows that `deactivateMissing` meets: a null is not "not in" a list.
abbrev pub is_missing : Str → List Str → ServiceRow → Bool
is_missing account seen r =
    str_eq r.account_uuid account
    && r.is_managed
    && elim r.external_id [ none ↦ false | some e ↦ not (any (str_eq e) seen) ]

abbrev pub deactivated : ServiceRow → ServiceRow
deactivated r = record r { is_active = false }

abbrev pub external_ids : {D : Type 0} → List (ServiceData D) → List Str
external_ids [] = []
external_ids (sd ∷ sds) = sd.external_id ∷ external_ids sds

module _ {D : Type 0} ⦃num : Decimal D⦄ {T : Type 0} ⦃table : ServiceTable T⦄ where
  -- `upsertServices`: the table afterwards, and the number of services.
  unfoldable pub upsert_services : AccountOwner → Str → List (ServiceData D) → T → T × ℕ
  unfolding upsert_loop upsert_service
  upsert_services owner currency fetched t = (
    table.update_rows (is_missing owner.account_uuid (external_ids fetched)) deactivated
        (upsert_loop owner currency fetched t),
    length fetched,
  )
