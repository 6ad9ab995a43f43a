-- ===== src/Sync/Batch.antt =====
-- `syncProvider`, `syncAll` and `summarize` of sync.service.ts: many accounts at once.
pub mod Counts
use infra_billing.Base.{
  Bool, List, Option, Str, [], false, filter, find, length, map, none, some, true, ℕ, ◌-◌, ◌∷◌,
}
use infra_billing.Base.Results.{Result, ok, err}
use infra_billing.Decimal.{Decimal}
use infra_billing.Sync.Run.{
  ProviderKind, manual, synced, Failure, Connector, Call, AccountRow, SyncError, sync_account,
}

-- How one `syncAccount` settled: it was rejected, or it gives the calls it made with how its run
-- ended.
abbrev pub Settled : Type 0 → Type 0
Settled D = Result SyncError (List (Call D) × Result Str ℕ)

pub record SyncSummary : Type 0 where
  pub total : ℕ
  pub ok_count : ℕ
  pub failed : ℕ

-- `r.status === 'fulfilled' && r.value.status === 'ok'`.
abbrev pub is_ok : {D : Type 0} → Settled D → Bool
is_ok (ok (calls, ok n)) = true
is_ok (ok (calls, err message)) = false
is_ok (err e) = false

unfoldable pub summarize_runs : {D : Type 0} → List (Settled D) → SyncSummary
summarize_runs results = record {
  total = length results;
  ok_count = length (filter is_ok results);
  failed = length results - length (filter is_ok results);
}

pub record ProviderAccount : Type 0 where
  pub uuid : Str
  pub is_enabled : Bool

pub record Provider : Type 0 where
  pub kind : ProviderKind
  pub accounts : List ProviderAccount

pub data BatchError : Type 0 where
  provider_not_found manual_kind provider_disabled : BatchError

abbrev pub enabled_accounts : List ProviderAccount → List ProviderAccount
enabled_accounts accounts = filter (λ (a : ProviderAccount). a.is_enabled) accounts

-- The accounts are synced in parallel, each on its own: `create` makes the connector of an account,
-- by its uuid, and `find` is `findByUuid`.
module _ {D : Type 0} ⦃num : Decimal D⦄ (decrypt : Str → Result Failure Str)
    (create : Str → ProviderKind → Str → Result Failure (Connector D))
    (find : Str → Option AccountRow) where
  -- `this.syncAccount(a.uuid)`, settled.
  abbrev pub sync_one : Str → Settled D
  sync_one uuid = sync_account decrypt (create uuid) (find uuid)

  abbrev pub sync_each : List ProviderAccount → SyncSummary
  sync_each accounts = summarize_runs (map (λ (a : ProviderAccount). sync_one a.uuid) accounts)

  abbrev pub sync_enabled : List ProviderAccount → Result BatchError SyncSummary
  sync_enabled [] = err provider_disabled
  sync_enabled (a ∷ rest) = ok (sync_each (a ∷ rest))

  abbrev pub sync_of_kind : ProviderKind → List ProviderAccount → Result BatchError SyncSummary
  sync_of_kind manual accounts = err manual_kind
  sync_of_kind (synced k) accounts = sync_enabled (enabled_accounts accounts)

  -- `syncProvider`.
  unfoldable pub sync_provider : Option Provider → Result BatchError SyncSummary
  sync_provider none = err provider_not_found
  sync_provider (some provider) = sync_of_kind provider.kind provider.accounts

  -- `syncAll`, of the accounts that `listSyncable` gives.
  unfoldable pub sync_all : List ProviderAccount → SyncSummary
  unfolding summarize_runs sync_account
  sync_all accounts = sync_each accounts
