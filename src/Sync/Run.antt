-- ===== src/Sync/Run.antt =====
-- `syncAccount` and `withRetry` of sync.service.ts: the calls that a sync of one account makes on
-- the database, in their order, and how it ends. The repositories stand for these calls, and a call
-- of theirs is taken to succeed; the connector, the cipher and the clock are parameters.
use infra_billing.Base.{
  Bool, List, Option, Str, [], codes, false, if◌then◌else◌, length, none, opt_eq, some, suc, true,
  zero, ℕ, ◌++◌, ◌+◌, ◌-◌, ◌∷◌,
}
use infra_billing.Base.Results.{Result, ok, err}
use infra_billing.Decimal.{Decimal}
use infra_billing.Sync.Services.{ServiceData, AccountOwner}

-- A thrown error, and whether the signal of the whole sync was aborted when it was caught.
pub record Failure : Type 0 where
  pub message : Str
  pub aborted : Bool

-- What the n-th call of a fetch gives, n from 1.
abbrev pub Fetch : Type 0 → Type 0
Fetch A = ℕ → Result Failure A

-- `PaymentData` of connector.interface.ts.
pub data PaymentType : Type 0 where
  topup charge : PaymentType

pub record PaymentData (D : Type 0) : Type 0 where
  pub external_id : Str
  pub payment_type : PaymentType
  pub amount : D
  pub currency : Str
  pub date : ℕ
  pub description : Option Str
  pub service_external_id : Option Str

-- `Account` of connector.interface.ts.
pub record RemoteAccount (D : Type 0) : Type 0 where
  pub balance : Option D
  pub currency : Str

-- `Connector`: an optional method that is left out is `none`.
pub record Connector (D : Type 0) : Type 0 where
  pub fetch_account : Fetch (RemoteAccount D)
  pub fetch_services : Fetch (List (ServiceData D))
  pub fetch_payments : Option (Fetch (List (PaymentData D)))
  pub fetch_favicon_url : Option (Result Failure (Option Str))

-- The calls on the repositories.
pub data Call (D : Type 0) : Type 0 where
  create_running : Call D
  update_favicon_link : Str → Call D
  update_balance : Str → Str → Call D
  record_snapshot : Str → Str → Call D
  write_services : AccountOwner → List (ServiceData D) → Str → Call D
  write_payments : AccountOwner → List (PaymentData D) → Call D
  mark_synced : Call D
  mark_ok : ℕ → Call D
  record_sync_error : Str → Call D
  mark_error : Str → Call D

pub data ProviderKind : Type 0 where
  manual : ProviderKind
  synced : Str → ProviderKind

-- The row of an account with its provider.
pub record AccountRow : Type 0 where
  pub uuid : Str
  pub provider_uuid : Str
  pub kind : ProviderKind
  pub is_enabled : Bool
  pub credentials_enc : Option Str
  pub favicon_link : Option Str

pub data SyncError : Type 0 where
  account_not_found manual_provider account_disabled : SyncError

-- Code that makes calls and may throw.
abbrev pub Run : Type 0 → Type 0 → Type 0
Run D A = List (Call D) × Result Failure A

infixl 5 ◌>>=◌
abbrev pub ◌>>=◌ : {D A B : Type 0} → Run D A → (A → Run D B) → Run D B
(calls, ok a) >>= k = let r = k a in (calls ++ r.0, r.1)
(calls, err e) >>= k = (calls, err e)

abbrev pub call : {D : Type 0} → Call D → Run D ℕ
call c = (c ∷ [], ok 0)

abbrev pub fetch_attempts : ℕ
fetch_attempts = 2

-- The loop of `withRetry` from attempt n, with `left` attempts after it.
unfoldable pub retry_from : {A : Type 0} → ℕ → ℕ → Fetch A → Result Failure A
retry_from zero n fn = fn n
retry_from (suc left) n fn =
    let rest = retry_from left (n + 1) fn in
    elim (fn n) [ ok a ↦ ok a | err e ↦ if e.aborted then err e else rest ]

unfoldable pub with_retry : {A : Type 0} → Fetch A → Result Failure A
unfolding retry_from
with_retry fn = retry_from (fetch_attempts - 1) 1 fn

-- `try { … } catch { log }`: the calls made before the throw stay made.
abbrev pub attempt : {D : Type 0} → Run D ℕ → Run D ℕ
attempt (calls, ok n) = (calls, ok n)
attempt (calls, err e) = (calls, ok 0)

abbrev pub throws_or : {D A : Type 0} → Result Failure A → Run D A
throws_or r = ([], r)

abbrev pub keep_favicon : {D : Type 0} → Option Str → Option Str → Run D ℕ
keep_favicon none link = ([], ok 0)
keep_favicon (some []) link = ([], ok 0)
keep_favicon (some (c ∷ cs)) link =
    if opt_eq (some (c ∷ cs)) link then ([], ok 0) else call (update_favicon_link (c ∷ cs))

abbrev pub favicon_step : {D : Type 0} → AccountRow → Option (Result Failure (Option Str)) → Run D ℕ
favicon_step account none = ([], ok 0)
favicon_step account (some answer) =
    attempt (do url ← throws_or answer; keep_favicon url account.favicon_link)

module _ {D : Type 0} ⦃num : Decimal D⦄ where
  unfoldable pub balance_step : RemoteAccount D → Run D ℕ
  balance_step remote = elim remote.balance [
    | none ↦ ([], ok 0)
    | some b ↦
        let balance = num.to_fixed 2 b in
        (
          update_balance balance remote.currency ∷ record_snapshot balance remote.currency ∷ [],
          ok 0,
        )
  ]

-- The import of the ledger; an empty one makes no call.
abbrev pub import_payments : {D : Type 0} → AccountOwner → List (PaymentData D) → Run D ℕ
import_payments owner [] = ([], ok 0)
import_payments owner (p ∷ ps) = (write_payments owner (p ∷ ps) ∷ [], ok (length (p ∷ ps)))

unfoldable pub payments_step :
    {D : Type 0} → AccountOwner → Option (Fetch (List (PaymentData D))) → Run D ℕ
payments_step owner none = ([], ok 0)
payments_step owner (some fetch) =
    attempt (do payments ← throws_or (with_retry fetch); import_payments owner payments)

abbrev pub thrown : Str → Failure
thrown message = record { message = message; aborted = false }

-- The message of `lastSyncError`.
abbrev pub reason : Failure → Str
reason e = if e.aborted then codes "Sync timed out after 120s" else e.message

abbrev pub ended : {D : Type 0} → Run D ℕ → List (Call D) × Result Str ℕ
ended (calls, ok n) = (create_running ∷ calls ++ mark_synced ∷ mark_ok n ∷ [], ok n)
ended (calls, err e) = (
  create_running ∷ calls ++ record_sync_error (reason e) ∷ mark_error (reason e) ∷ [],
  err (reason e),
)

-- The guards of `syncAccount` before a run is made.
abbrev pub checked :
    {D : Type 0} → ProviderKind → Bool → Run D ℕ → Result SyncError (List (Call D) × Result Str ℕ)
checked manual is_enabled body = err manual_provider
checked (synced kind) true body = ok (ended body)
checked (synced kind) false body = err account_disabled

module _ {D : Type 0} ⦃num : Decimal D⦄ (decrypt : Str → Result Failure Str)
    (create : ProviderKind → Str → Result Failure (Connector D)) where
  abbrev pub connect : AccountRow → Result Failure (Connector D)
  connect account = elim account.credentials_enc [
    | none ↦ err (thrown (codes "Account has no API token"))
    | some enc ↦ elim (decrypt enc) [ ok token ↦ create account.kind token | err e ↦ err e ]
  ]

  -- The body of the `try`: the number of services found.
  unfoldable pub sync_body : AccountRow → Run D ℕ
  unfolding balance_step payments_step
  sync_body account = do
    connector ← throws_or (connect account)
    _ ← favicon_step account connector.fetch_favicon_url
    remote ← throws_or (with_retry connector.fetch_account)
    _ ← balance_step remote
    fetched ← throws_or (with_retry connector.fetch_services)
    let owner : AccountOwner = record {
      account_uuid = account.uuid;
      provider_uuid = account.provider_uuid;
    }
    _ ← call (write_services owner fetched remote.currency)
    _ ← payments_step owner connector.fetch_payments
    throws_or (ok (length fetched))

  -- `syncAccount`: refused, or the calls it makes and how the run ended.
  unfoldable pub sync_account : Option AccountRow → Result SyncError (List (Call D) × Result Str ℕ)
  unfolding sync_body
  sync_account none = err account_not_found
  sync_account (some account) = checked account.kind account.is_enabled (sync_body account)
