-- ===== src/Tests/Sync.antt =====
-- A sync of an account with one service, whose owner has renamed it and set its price.
use infra_billing.Base.{
  All, List, Str, [], codes, false, find, if◌then◌else◌, none, refl, some, str_eq, true, ℕ, ◌++◌,
  ◌==◌, ◌∷◌, ◌≡◌,
}
use infra_billing.Base.Results.{Result, ok, err}
use infra_billing.Decimal.{Whole, pos, whole_decimal}
use infra_billing.Sync.Tables.{ServiceRow, has_key}
use infra_billing.Sync.Services.{ServiceData, AccountOwner, left_out, upsert_services}
use infra_billing.Sync.Kept.{Kept, IsLive}
use infra_billing.Sync.Upsert.{
  upsert_services-Kept, upsert_services-IsLive, upsert_services-deactivates,
}
use infra_billing.Sync.Run.{
  Failure, Connector, RemoteAccount, ProviderKind, synced, AccountRow, sync_account, Call,
  create_running, write_services, mark_synced, mark_ok, thrown, with_retry,
}
use infra_billing.Sync.Calls.{closing, IsWork}
use infra_billing.Sync.Ending.{sync_account-ends, sync_account-fetched}
use infra_billing.Tests.Tables.{list_table, list_table-IsServiceTable}

abbrev owner : AccountOwner
owner = record { account_uuid = codes "a"; provider_uuid = codes "p" }

abbrev service : Str → ServiceRow
service id = record {
  uuid = id;
  account_uuid = codes "a";
  provider_uuid = codes "p";
  project_uuid = codes "main";
  external_id = some id;
  name = codes "renamed";
  description = none;
  type_name = codes "vps";
  country_code = none;
  cost = codes "9.00";
  currency = codes "EUR";
  period = codes "monthly";
  next_billing_at = none;
  is_active = true;
  is_managed = true;
  cost_overridden = true;
  name_overridden = true;
  type_overridden = false;
  active_overridden = false;
  meta = [];
}

abbrev fetched : ServiceData Whole
fetched = record {
  external_id = codes "s1";
  name = codes "server";
  type_name = codes "vds";
  country_code = none;
  cost = some (pos 5);
  currency = none;
  period = none;
  next_billing = left_out;
  meta = [];
}

abbrev table : List ServiceRow
table = service (codes "s1") ∷ service (codes "s2") ∷ []

abbrev after_sync : List ServiceRow
after_sync = (upsert_services owner (codes "USD") (fetched ∷ []) table).0

upsert_services-Kept_example :
    (r1 : ServiceRow) × (find (has_key (codes "a") (codes "s1")) after_sync ≡ some r1)
    × Kept (service (codes "s1")) r1
unfolding str_eq
upsert_services-Kept_example =
    upsert_services-Kept list_table-IsServiceTable owner (codes "USD") (fetched ∷ []) (codes "a")
      (codes "s1") table (service (codes "s1")) refl

upsert_services-IsLive_example :
    (r1 : ServiceRow) × (find (has_key (codes "a") (codes "s1")) after_sync ≡ some r1) × IsLive r1
unfolding str_eq
upsert_services-IsLive_example =
    upsert_services-IsLive list_table-IsServiceTable owner (codes "USD") (fetched ∷ []) (codes "s1")
      table refl

upsert_services-deactivates_example :
    (r1 : ServiceRow) × (find (has_key (codes "a") (codes "s2")) after_sync ≡ some r1)
    × (r1.uuid ≡ codes "s2")
    × (r1.is_active ≡ false)
unfolding str_eq
upsert_services-deactivates_example =
    upsert_services-deactivates list_table-IsServiceTable owner (codes "USD") (fetched ∷ [])
      (codes "s2") table (service (codes "s2")) refl refl refl

abbrev account : AccountRow
account = record {
  uuid = codes "a";
  provider_uuid = codes "p";
  kind = synced (codes "timeweb");
  is_enabled = true;
  credentials_enc = some (codes "secret");
  favicon_link = none;
}

abbrev remote : RemoteAccount Whole
remote = record { balance = some (pos 100); currency = codes "USD" }

-- The first call of each fetch fails, the ledger always does.
abbrev connector : Connector Whole
connector = record {
  fetch_account = λ n. if n == 1 then err (thrown (codes "reset")) else ok remote;
  fetch_services = λ n. if n == 1 then err (thrown (codes "reset")) else ok (fetched ∷ []);
  fetch_payments = some (λ n. err (thrown (codes "no ledger")));
  fetch_favicon_url = none;
}

abbrev create : ProviderKind → Str → Result Failure (Connector Whole)
create kind token = ok connector

sync_account-ends_example :
    (work : List (Call Whole)) × (result : Result Str ℕ) × (sync_account ok create (some account)
      ≡ ok (create_running ∷ work ++ closing result, result))
    × All IsWork work
sync_account-ends_example = sync_account-ends ok create account (codes "timeweb") refl refl

sync_account-fetched_example :
    (before : List (Call Whole)) × (after : List (Call Whole)) × (sync_account ok create
        (some account)
      ≡ ok (
        create_running ∷ (before ++ write_services owner (fetched ∷ []) (codes "USD") ∷ after)
            ++ mark_synced ∷ mark_ok 1 ∷ [],
        ok 1,
      ))
unfolding with_retry
sync_account-fetched_example =
    sync_account-fetched ok create account (codes "timeweb") connector remote (fetched ∷ []) refl
      refl refl refl refl
