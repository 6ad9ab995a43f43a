-- ===== src/Services/Resync.antt =====
-- An edit of the owner between two syncs: services.service.ts and sync.service.ts.
use infra_billing.Base.{
  Bool, List, Option, Str, arith, false, if◌then◌else◌, none, not, refl, some, str_eq, str_eq_iff,
  true, ◌≡◌,
}
use infra_billing.Decimal.{Decimal}
use infra_billing.Sync.Tables.{ServiceRow}
use infra_billing.Sync.Services.{ServiceData, updated_row}
use infra_billing.Base.Results.{ok}
use infra_billing.Sync.Services.{AccountOwner}
use infra_billing.Services.Update.{update_service, Written, row_updated}
use infra_billing.Services.Baseline.{synced_row, baseline_name-synced_row, baseline_type-synced_row}
use infra_billing.Services.Edits.{
  set_or_keep, UpdateService, edited_row, edit_field, baseline_name, baseline_type, edited_name,
  Draft, synced_name_key, apply_client_meta, synced_type_key,
}

-- What a sync takes for a text field after an edit, from the text that the sync before the edit took.
abbrev pub settled : Str → Option Str → Bool → Str → Str → Str
settled first none flag current second = if flag then current else second
settled first (some v) flag current second = if str_eq first v then second else v

edit_field-settled :
    (key first : Str) (given : Option Str) (current : Str) (flag : Bool) (d : Draft) (second : Str)
    → (let e = edit_field str_eq key (some first) given current flag d in
        if e.overridden then e.value else second)
      ≡ settled first given flag current second
unfolding edit_field
edit_field-settled key first none current flag d second = refl
edit_field-settled key first (some v) current flag d second = ground (arith, str_eq_iff current v)

edited-settled :
    (key first : Str) (baseline given : Option Str) (current before : Str) (flag : Bool) (d : Draft)
    → (second : Str) → baseline ≡ some first
    → (let e = edit_field str_eq key baseline given (if flag then current else before) flag d in
        if e.overridden then e.value else second)
      ≡ settled first given flag current second
edited-settled key first baseline given current before true d second p =
    rw p (edit_field-settled key first given current true d second)
edited-settled key first baseline none current before false d second p =
    rw p (edit_field-settled key first none before false d second)
edited-settled key first baseline (some v) current before false d second p =
    rw p (edit_field-settled key first (some v) before false d second)

-- What a sync takes for the activity after an edit.
abbrev pub settled_activity : Option Bool → Bool → Bool → Bool
settled_activity none flag current = if flag then current else true
settled_activity (some is_on) flag current = is_on

activity-settled :
    (given : Option Bool) (flag current : Bool)
    → (if elim given [ none ↦ flag | some on ↦ not on ]
        then set_or_keep given (if flag then current else true)
        else true)
      ≡ settled_activity given flag current
activity-settled none true current = refl
activity-settled none false current = refl
activity-settled (some true) flag current = refl
activity-settled (some false) flag current = refl

module _ {D : Type 0} ⦃num : Decimal D⦄ (parse : Str → D) where
  -- A service that a sync returns, then an edit of the owner, then a sync that returns the service
  -- again; each of the two syncs writes its row once. A name that the owner has given stands, unless
  -- it is the one that the first sync brought: then the name of the second sync is taken. If the
  -- owner has given no name, the row's own stands if it was overridden before, and the name of the
  -- second sync is taken if not. The type goes the same way. If the owner has switched the service,
  -- it is on after the second sync exactly if it was switched on; if not, it is on unless its
  -- activity was overridden before.
  pub edited_row-updated_row :
      (currency : Str) (first second : ServiceData D) (dto : UpdateService) (r : ServiceRow)
      → let after =
          synced_row currency second (edited_row parse dto (synced_row currency first r)) in
        (after.name ≡ settled first.name dto.name r.name_overridden r.name second.name)
        × (after.type_name
            ≡ settled first.type_name dto.type_name r.type_overridden r.type_name second.type_name)
        × (after.is_active ≡ settled_activity dto.is_active r.active_overridden r.is_active)
  unfolding updated_row edited_row
  edited_row-updated_row currency first second dto r =
      let s = synced_row currency first r in
      (
        edited-settled synced_name_key first.name (baseline_name dto s) dto.name r.name first.name
            r.name_overridden (apply_client_meta dto.meta s.meta) second.name
            (baseline_name-synced_row currency first dto r),
        edited-settled synced_type_key first.type_name (baseline_type dto s) dto.type_name
            r.type_name first.type_name r.type_overridden (edited_name dto s).draft second.type_name
            (baseline_type-synced_row currency first dto r),
        activity-settled dto.is_active r.active_overridden r.is_active,
      )

module _ {D : Type 0} ⦃num : Decimal D⦄ (parse : Str → D) (find_account : Str → Option AccountOwner)
    (list_accounts : Str → List AccountOwner) (exists : Str → Bool) where
  edited_row-key :
      (dto : UpdateService) (r : ServiceRow)
      → ((edited_row parse dto r).account_uuid ≡ r.account_uuid)
        × ((edited_row parse dto r).provider_uuid ≡ r.provider_uuid)
        × ((edited_row parse dto r).external_id ≡ r.external_id)
  unfolding edited_row
  edited_row-key dto r = (refl, refl, refl)

  -- A service that the sync manages is never moved: an update of it that succeeds writes the edited
  -- row, which keeps its account, its provider and its external id.
  pub update_service-managed :
      (existing : ServiceRow) (dto : UpdateService) (w : Written)
      → existing.is_managed ≡ true
      → update_service parse find_account list_accounts exists (some existing) dto ≡ ok w
      → (w ≡ row_updated (edited_row parse dto existing))
        × ((edited_row parse dto existing).account_uuid ≡ existing.account_uuid)
        × ((edited_row parse dto existing).provider_uuid ≡ existing.provider_uuid)
        × ((edited_row parse dto existing).external_id ≡ existing.external_id)
  unfolding update_service
  update_service-managed existing dto w managed h =
      let (a, p, e) = edited_row-key dto existing in (ground arith, a, p, e)
