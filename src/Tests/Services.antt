-- ===== src/Tests/Services.antt =====
-- The owner renames a synced service, goes back to the synced type and switches it off.
use infra_billing.Base.{Str, [], codes, false, length, none, refl, some, true, ◌∷◌, ◌≡◌}
use infra_billing.Decimal.{Whole, pos, whole_decimal}
use infra_billing.Sync.Tables.{ServiceRow, text}
use infra_billing.Sync.Services.{ServiceData, left_out}
use infra_billing.Services.Edits.{UpdateService, edited_row}
use infra_billing.Services.Update.{update_service, row_updated}
use infra_billing.Services.Baseline.{synced_row}
use infra_billing.Services.Resync.{
  settled, settled_activity, edited_row-updated_row, update_service-managed,
}

abbrev row : ServiceRow
row = record {
  uuid = codes "u1";
  account_uuid = codes "a";
  provider_uuid = codes "p";
  project_uuid = codes "main";
  external_id = some (codes "s1");
  name = codes "server";
  description = none;
  type_name = codes "mine";
  country_code = none;
  cost = codes "9.00";
  currency = codes "EUR";
  period = codes "monthly";
  next_billing_at = none;
  is_active = true;
  is_managed = true;
  cost_overridden = false;
  name_overridden = false;
  type_overridden = true;
  active_overridden = false;
  meta =
      (codes "syncedName", text (codes "server")) ∷ (codes "syncedType", text (codes "vps")) ∷ [];
}

abbrev edit : UpdateService
edit = record {
  owner = record { account_uuid = none; provider_uuid = none };
  project_uuid = none;
  name = some (codes "renamed");
  description = none;
  type_name = some (codes "vps");
  cost = none;
  currency = none;
  period = none;
  country_code = none;
  next_billing_at = none;
  is_active = some false;
  meta = none;
}

abbrev incoming : ServiceData Whole
incoming = record {
  external_id = codes "s1";
  name = codes "server 2";
  type_name = codes "vds";
  country_code = none;
  cost = none;
  currency = none;
  period = none;
  next_billing = left_out;
  meta = [];
}

abbrev parse : Str → Whole
parse s = pos (length s)

abbrev arrived : ServiceData Whole
arrived = record incoming { name = codes "server"; type_name = codes "vps" }

abbrev resynced : ServiceRow
resynced =
    synced_row (codes "EUR") incoming (edited_row parse edit (synced_row (codes "EUR") arrived row))

edited_row-updated_row_example :
    (resynced.name
      ≡ settled (codes "server") (some (codes "renamed")) false (codes "server") (codes "server 2"))
    × (resynced.type_name
        ≡ settled (codes "vps") (some (codes "vps")) true row.type_name (codes "vds"))
    × (resynced.is_active ≡ settled_activity (some false) false row.is_active)
edited_row-updated_row_example =
    edited_row-updated_row parse (codes "EUR") arrived incoming edit row

update_service-managed_example :
    (row_updated (edited_row parse edit row) ≡ row_updated (edited_row parse edit row))
    × ((edited_row parse edit row).account_uuid ≡ codes "a")
    × ((edited_row parse edit row).provider_uuid ≡ codes "p")
    × ((edited_row parse edit row).external_id ≡ some (codes "s1"))
unfolding update_service
update_service-managed_example =
    update_service-managed parse (λ a. none) (λ p. []) (λ p. true) row edit
      (row_updated (edited_row parse edit row)) refl refl
