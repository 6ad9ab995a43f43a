-- ===== src/Tests/Projects.antt =====
-- A project with one manual service is removed; a provider has two accounts that are on.
use infra_billing.Base.{
  List, Option, Str, [], any, arith, codes, false, find, if◌then◌else◌, length, none, refl, some,
  str_eq, true, ◌∷◌, ◌≡◌,
}
use infra_billing.Sync.Tables.{ServiceRow, has_uuid, map_option}
use infra_billing.Sync.Services.{default_project}
use infra_billing.Sync.Run.{synced}
use infra_billing.Sync.Run.{
  Failure, Connector, ProviderKind, AccountRow, thrown, sync_account, sync_body, with_retry,
}
use infra_billing.Sync.Batch.{Provider, enabled_accounts, sync_provider}
use infra_billing.Sync.Batch.Counts.{count_where, synced_ok, synced_badly, sync_provider-counts}
use infra_billing.Base.Results.{Result, ok, err}
use infra_billing.Decimal.{Whole, whole_decimal}
use infra_billing.Projects.{ProjectState, remove_project}
use infra_billing.Projects.Moves.{is_within, row_after, remove_project-keeps}
use infra_billing.Tests.Tables.{list_table, list_table-IsServiceTable}

abbrev row : Str → ServiceRow
row project = record {
  uuid = codes "u1";
  account_uuid = codes "a";
  provider_uuid = codes "p";
  project_uuid = project;
  external_id = none;
  name = codes "server";
  description = none;
  type_name = codes "vps";
  country_code = none;
  cost = codes "9.00";
  currency = codes "EUR";
  period = codes "monthly";
  next_billing_at = none;
  is_active = true;
  is_managed = false;
  cost_overridden = false;
  name_overridden = false;
  type_overridden = false;
  active_overridden = false;
  meta = [];
}

abbrev before : ProjectState (List ServiceRow)
before = record { services = row (codes "x") ∷ []; projects = default_project ∷ codes "x" ∷ [] }

abbrev after : ProjectState (List ServiceRow)
after = record { services = row default_project ∷ []; projects = default_project ∷ [] }

remove_project-keeps_example :
    (str_eq (codes "x") default_project ≡ false)
    × (any (str_eq (codes "x")) before.projects ≡ true)
    × (any (λ p. str_eq p (codes "x")) after.projects ≡ false)
    × (find (has_uuid (codes "u1")) after.services
        ≡ map_option (row_after (codes "x")) (find (has_uuid (codes "u1")) before.services))
    × (is_within (codes "x") (find (has_uuid (codes "u1")) after.services) ≡ false)
unfolding remove_project str_eq
remove_project-keeps_example =
    remove_project-keeps list_table-IsServiceTable (codes "x") before after (codes "u1") refl

abbrev account : Str → AccountRow
account uuid = record {
  uuid = uuid;
  provider_uuid = codes "p";
  kind = synced (codes "timeweb");
  is_enabled = true;
  credentials_enc = some uuid;
  favicon_link = none;
}

abbrev connector : Connector Whole
connector = record {
  fetch_account = λ n. ok (record { balance = none; currency = codes "USD" });
  fetch_services = λ n. ok [];
  fetch_payments = none;
  fetch_favicon_url = none;
}

-- The connector of the account "c" cannot be made.
abbrev create : Str → ProviderKind → Str → Result Failure (Connector Whole)
create uuid kind token =
    if str_eq uuid (codes "c") then err (thrown (codes "no token")) else ok connector

abbrev provider : Provider
provider = record {
  kind = synced (codes "timeweb");
  accounts =
      record { uuid = codes "a"; is_enabled = true }
      ∷ record { uuid = codes "b"; is_enabled = false }
      ∷ record { uuid = codes "c"; is_enabled = true }
      ∷ [];
}

abbrev find_account : Str → Option AccountRow
find_account uuid = some (account uuid)

sync_provider-counts_example :
    sync_provider ok create find_account (some provider)
    ≡ ok (record {
      total = length (enabled_accounts provider.accounts);
      ok_count = count_where (synced_ok ok create find_account) provider.accounts;
      failed = count_where (synced_badly ok create find_account) provider.accounts;
    })
sync_provider-counts_example =
    sync_provider-counts ok create find_account provider (codes "timeweb") refl (omega arith)

-- One of the two accounts that are on is synced.
counts_of_provider :
    (count_where (synced_ok ok create find_account) provider.accounts ≡ 1)
    × (count_where (synced_badly ok create find_account) provider.accounts ≡ 1)
unfolding sync_account sync_body with_retry str_eq
counts_of_provider = (refl, refl)
