-- ===== src/Services/Update.antt =====
-- `update` of services.service.ts: the guards, and what is written.
use infra_billing.Base.{
  Bool, List, Option, Str, [], codes, false, get_or_else, if◌then◌else◌, none, some, str_eq, true,
  ℕ,
}
use infra_billing.Base.Results.{Result, ok, err}
use infra_billing.Decimal.{Decimal}
use infra_billing.Sync.Tables.{ServiceRow}
use infra_billing.Sync.Services.{AccountOwner}
use infra_billing.Services.Owner.{OwnerRef, OwnerError, resolve_account_owner}
use infra_billing.Services.Edits.{
  UpdateService, edited_row, non_empty_text, ServiceClientMeta, apply_client_meta,
}

pub data UpdateError : Type 0 where
  service_not_found project_not_found synced_service : UpdateError
  no_owner : OwnerError → UpdateError

-- The write: `update` of the row, or `moveToAccount`, after which the payments of the service
-- belong to the new account too.
pub data Written : Type 0 where
  row_updated row_moved : ServiceRow → Written

abbrev pub moved : AccountOwner → ServiceRow → ServiceRow
moved owner r = record r { account_uuid = owner.account_uuid; provider_uuid = owner.provider_uuid }

abbrev pub place : ServiceRow → Bool → AccountOwner → ServiceRow → Result UpdateError Written
place existing is_managed owner r =
    if str_eq owner.account_uuid existing.account_uuid
    then ok (row_updated r)
    else if is_managed
    then err synced_service
    else ok (row_moved (moved owner r))

abbrev pub names_owner : OwnerRef → Bool
names_owner ref = elim ref.account_uuid [
  | some a ↦ true
  | none ↦ elim ref.provider_uuid [ some p ↦ true | none ↦ false ]
]

abbrev pub project_exists : (Str → Bool) → Option Str → Bool
project_exists exists none = true
project_exists exists (some p) = exists p

module _ {D : Type 0} ⦃num : Decimal D⦄ (parse : Str → D) (find_account : Str → Option AccountOwner)
    (list_accounts : Str → List AccountOwner) (exists : Str → Bool) where
  abbrev pub place_named : OwnerRef → ServiceRow → ServiceRow → Result UpdateError Written
  place_named ref existing r =
      if names_owner ref
      then elim (resolve_account_owner find_account list_accounts ref) [
        | err e ↦ err (no_owner e)
        | ok owner ↦ place existing existing.is_managed owner r
      ]
      else ok (row_updated r)

  -- `update`.
  unfoldable pub update_service : Option ServiceRow → UpdateService → Result UpdateError Written
  update_service none dto = err service_not_found
  update_service (some existing) dto =
      if project_exists exists dto.project_uuid
      then place_named dto.owner existing (edited_row parse dto existing)
      else err project_not_found

-- `CreateService`.
pub record CreateService : Type 0 where
  pub owner : OwnerRef
  pub project_uuid : Str
  pub name : Str
  pub description : Option Str
  pub type_name : Str
  pub cost : Str
  pub currency : Str
  pub period : Str
  pub country_code : Option Str
  pub next_billing_at : Option ℕ
  pub is_active : Option Bool
  pub meta : Option ServiceClientMeta

-- The row that `create` stores under the uuid that the database draws.
abbrev pub created_row : CreateService → AccountOwner → Str → ServiceRow
created_row dto owner uuid = record {
  uuid = uuid;
  account_uuid = owner.account_uuid;
  provider_uuid = owner.provider_uuid;
  project_uuid = dto.project_uuid;
  external_id = none;
  name = dto.name;
  description = non_empty_text dto.description;
  type_name = dto.type_name;
  country_code = some (get_or_else dto.country_code (codes "XX"));
  cost = dto.cost;
  currency = dto.currency;
  period = dto.period;
  next_billing_at = dto.next_billing_at;
  is_active = get_or_else dto.is_active true;
  is_managed = false;
  cost_overridden = false;
  name_overridden = false;
  type_overridden = false;
  active_overridden = false;
  meta = (apply_client_meta dto.meta []).meta;
}

module _ (find_account : Str → Option AccountOwner) (list_accounts : Str → List AccountOwner)
    (exists : Str → Bool) where
  -- `create`.
  unfoldable pub create_service : CreateService → Str → Result UpdateError ServiceRow
  unfolding resolve_account_owner
  create_service dto uuid = elim (resolve_account_owner find_account list_accounts dto.owner) [
    | err e ↦ err (no_owner e)
    | ok owner ↦
        if exists dto.project_uuid then ok (created_row dto owner uuid) else err project_not_found
  ]
