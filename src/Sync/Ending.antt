-- ===== src/Sync/Ending.antt =====
-- How `syncAccount` of sync.service.ts ends.
use infra_billing.Base.{
  All, List, Option, Str, [], length, none, refl, some, true, ℕ, ◌++◌, ◌∙◌, ◌∷◌, ◌≡◌,
}
use infra_billing.Base.Results.{Result, ok}
use infra_billing.Decimal.{Decimal}
use infra_billing.Sync.Services.{AccountOwner, ServiceData}
use infra_billing.Sync.Run.{
  Failure, Fetch, PaymentData, RemoteAccount, Connector, Call, write_services, mark_synced, mark_ok,
  ProviderKind, AccountRow, favicon_step, balance_step, payments_step, connect, sync_body,
  with_retry, throws_or, ◌>>=◌, synced, ended, sync_account, create_running, call,
}
use infra_billing.Sync.Calls.{
  closing, All-bind, IsWork, favicon_step-IsWork, payments_step-IsWork, ended_lem, checked_lem,
  Quiet, Quiet-favicon_step, Quiet-payments_step, Makes, Makes-Quiet, Makes-fetched, is_work,
}

module _ {D : Type 0} ⦃num : Decimal D⦄ (decrypt : Str → Result Failure Str)
    (create : ProviderKind → Str → Result Failure (Connector D)) where
  balance_step-IsWork : (remote : RemoteAccount D) → All IsWork (balance_step remote).0
  unfolding balance_step is_work
  balance_step-IsWork remote =
      elim remote.balance
        as (λ o. All IsWork (balance_step (record { balance = o; currency = remote.currency })).0) [
          | none ↦ tt
          | some b ↦ (refl, (refl, tt))
        ]

  sync_body-IsWork : (account : AccountRow) → All IsWork (sync_body decrypt create account).0
  unfolding sync_body is_work
  sync_body-IsWork account =
      All-bind IsWork (throws_or (connect decrypt create account)) _ tt (λ connector.
        All-bind IsWork (favicon_step account connector.fetch_favicon_url) _
          (favicon_step-IsWork D account connector.fetch_favicon_url)
          (λ _. All-bind IsWork (throws_or (with_retry connector.fetch_account)) _ tt (λ remote.
            All-bind IsWork (balance_step remote) _ (balance_step-IsWork remote) (λ _.
              All-bind IsWork (throws_or (with_retry connector.fetch_services)) _ tt (λ fetched. (
                refl,
                All-bind IsWork (payments_step _ connector.fetch_payments) _
                    (payments_step-IsWork _ connector.fetch_payments) (λ _. tt),
              ))))))

  enabled :
      (account : AccountRow) (kind : Str)
      → account.kind ≡ synced kind
      → account.is_enabled ≡ true
      → sync_account decrypt create (some account) ≡ ok (ended (sync_body decrypt create account))
  unfolding sync_account
  enabled account kind p q =
      checked_lem account.kind kind account.is_enabled (sync_body decrypt create account) p q

  -- A sync of an enabled account of a provider that has a connector always makes a run: whatever
  -- the connector answers, `createRunning` is the first call and none but the last two calls end
  -- it: those are `markSynced` and `markOk` where the run is ok, `recordSyncError` and `markError`
  -- with one message where it failed.
  pub sync_account-ends :
      (account : AccountRow) (kind : Str)
      → account.kind ≡ synced kind
      → account.is_enabled ≡ true
      → (work : List (Call D)) × (result : Result Str ℕ) × (sync_account decrypt create
            (some account)
          ≡ ok (create_running ∷ work ++ closing result, result))
        × All IsWork work
  sync_account-ends account kind p q =
      let (result, h) = ended_lem (sync_body decrypt create account) in
      (
        (sync_body decrypt create account).0,
        result,
        enabled account kind p q ∙ rw h refl,
        sync_body-IsWork account,
      )

  Quiet-balance_step : (remote : RemoteAccount D) → Quiet (balance_step remote)
  unfolding balance_step
  Quiet-balance_step remote =
      elim remote.balance
        as (λ o. Quiet (balance_step (record { balance = o; currency = remote.currency }))) [
          | none ↦ ([], 0, refl)
          | some b ↦ (_, 0, refl)
        ]

  written :
      (owner : AccountOwner) (fetched : List (ServiceData D)) (currency : Str)
      → (fetch : Option (Fetch (List (PaymentData D))))
      → Makes (write_services owner fetched currency) (length fetched) (
          call (write_services owner fetched currency) >>= λ _.
          payments_step owner fetch >>= λ _. throws_or (ok (length fetched)))
  written owner fetched currency fetch =
      let (pre, m, e) = Quiet-payments_step owner fetch in ([], pre ++ [], rw e refl)

  -- What a run does whose account and services were fetched: neither the favicon nor the ledger
  -- decides.
  body-fetched :
      (account : AccountRow) (c : Connector D) (remote : RemoteAccount D)
      → (fetched : List (ServiceData D)) → connect decrypt create account ≡ ok c
      → with_retry c.fetch_account ≡ ok remote
      → with_retry c.fetch_services ≡ ok fetched
      → (before after : List (Call D)) × (sync_body decrypt create account ≡ (
        before
            ++ write_services
                (record { account_uuid = account.uuid; provider_uuid = account.provider_uuid })
                fetched
                remote.currency
              ∷ after,
        ok (length fetched),
      ))
  unfolding sync_body
  body-fetched account c remote fetched p q s =
      let owner : AccountOwner = record {
        account_uuid = account.uuid;
        provider_uuid = account.provider_uuid;
      } in
      let w = write_services owner fetched remote.currency in
      let n = length fetched in
      Makes-fetched w n (connect decrypt create account) c _ p (
        Makes-Quiet w n (favicon_step account c.fetch_favicon_url) _
          (Quiet-favicon_step account c.fetch_favicon_url)
          (Makes-fetched w n (with_retry c.fetch_account) remote _ q (
            Makes-Quiet w n (balance_step remote) _ (Quiet-balance_step remote) (
              Makes-fetched w n (with_retry c.fetch_services) fetched _ s
                (written owner fetched remote.currency c.fetch_payments)))))

  -- A sync of an enabled account whose connector is made, and whose account and services are
  -- fetched within the two attempts, ends ok with the number of the services and writes them,
  -- whatever the fetches of the favicon and of the ledger give.
  pub sync_account-fetched :
      (account : AccountRow) (kind : Str) (c : Connector D) (remote : RemoteAccount D)
      → (fetched : List (ServiceData D)) → account.kind ≡ synced kind
      → account.is_enabled ≡ true
      → connect decrypt create account ≡ ok c
      → with_retry c.fetch_account ≡ ok remote
      → with_retry c.fetch_services ≡ ok fetched
      → (before : List (Call D)) × (after : List (Call D)) × (sync_account decrypt create
            (some account)
          ≡ ok (
            create_running
                  ∷ (before
                      ++ write_services
                          (record {
                            account_uuid = account.uuid;
                            provider_uuid = account.provider_uuid;
                          })
                          fetched
                          remote.currency
                        ∷ after)
                ++ mark_synced ∷ mark_ok (length fetched) ∷ [],
            ok (length fetched),
          ))
  sync_account-fetched account kind c remote fetched k e p q s =
      let (before, after, h) = body-fetched account c remote fetched p q s in
      (before, after, enabled account kind k e ∙ rw h refl)
