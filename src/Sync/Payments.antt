-- ===== src/Sync/Payments.antt =====
-- `upsertPayments` of sync.service.ts on a table of payments, which stands for the database.
use infra_billing.Base.{
  List, Map, Option, Str, [], arith, if◌then◌else◌, length, map_get, map_set, none, some, str_eq, ℕ,
  ◌&&◌, ◌∷◌, ◌≡◌,
}
use infra_billing.Decimal.{Decimal}
use infra_billing.Sync.Services.{AccountOwner}
use infra_billing.Sync.Run.{PaymentData, PaymentType}

-- `ExternalPaymentData`: what an import writes.
pub record ExternalPayment : Type 0 where
  pub amount : Str
  pub currency : Str
  pub payment_type : PaymentType
  pub description : Option Str
  pub payment_date : ℕ
  pub service_uuid : Option Str

-- The payments that have an external id. `upsert_external` writes under (account, external id).
pub record PaymentTable (P : Type 0) : Type 0 where
  pub find_payment : Str → Str → P → Option ExternalPayment
  pub upsert_external : Str → Str → Str → ExternalPayment → P → P

-- What `upsert` by a unique key is documented to do.
pub record IsPaymentTable {P : Type 0} (table : PaymentTable P) : Type 0 where
  pub find_payment-upsert_external :
      (a e account provider external : Str) (data_ : ExternalPayment) (t : P)
      → table.find_payment a e (table.upsert_external account provider external data_ t)
        ≡ (if str_eq account a && str_eq external e then some data_ else table.find_payment a e t)

-- `serviceByExternalId`, from the uuid and the external id of each service of the account.
unfoldable pub add_services : List (Str × Option Str) → Map Str → Map Str
unfolding map_set
add_services [] m = m
add_services ((uuid, none) ∷ rows) m = add_services rows m
add_services ((uuid, some []) ∷ rows) m = add_services rows m
add_services ((uuid, some (c ∷ cs)) ∷ rows) m = add_services rows (map_set (c ∷ cs) uuid m)

abbrev pub linked_service : Map Str → Option Str → Option Str
linked_service m none = none
linked_service m (some []) = none
linked_service m (some (c ∷ cs)) = map_get (c ∷ cs) m

module _ {D : Type 0} ⦃num : Decimal D⦄ where
  unfoldable pub external_payment : Map Str → PaymentData D → ExternalPayment
  unfolding map_get
  external_payment m p = record {
    amount = num.to_fixed 2 p.amount;
    currency = p.currency;
    payment_type = p.payment_type;
    description = p.description;
    payment_date = p.date;
    service_uuid = linked_service m p.service_external_id;
  }

  module _ {P : Type 0} ⦃table : PaymentTable P⦄ where
    unfoldable pub payment_loop : AccountOwner → Map Str → List (PaymentData D) → P → P
    payment_loop owner m [] t = t
    payment_loop owner m (p ∷ ps) t = payment_loop owner m ps (
        table.upsert_external owner.account_uuid owner.provider_uuid p.external_id
          (external_payment m p) t)

    -- `upsertPayments`: the table afterwards, and the number of payments.
    unfoldable pub upsert_payments :
        AccountOwner → List (Str × Option Str) → List (PaymentData D) → P → P × ℕ
    upsert_payments owner services [] t = (t, 0)
    upsert_payments owner services (p ∷ ps) t =
        (payment_loop owner (add_services services []) (p ∷ ps) t, length (p ∷ ps))

-- The last of the payments with that external id.
unfoldable pub last_payment : {D : Type 0} → Str → List (PaymentData D) → Option (PaymentData D)
last_payment e [] = none
last_payment e (p ∷ ps) = elim (last_payment e ps) [
  | some q ↦ some q
  | none ↦ (if str_eq p.external_id e then some p else none)
]

module _ {D : Type 0} ⦃num : Decimal D⦄ {P : Type 0} ⦃table : PaymentTable P⦄
    (laws : IsPaymentTable table) (owner : AccountOwner) where
  -- A key after an import.
  abbrev pub imported :
      Map Str → Option (PaymentData D) → Option ExternalPayment → Option ExternalPayment
  imported m none old = old
  imported m (some p) old = some (external_payment m p)

  payment_loop-find :
      (m : Map Str) (ps : List (PaymentData D)) (a e : Str) (t : P)
      → table.find_payment a e (payment_loop owner m ps t) ≡ (
          if str_eq owner.account_uuid a
          then imported m (last_payment e ps) (table.find_payment a e t)
          else table.find_payment a e t)
  unfolding payment_loop last_payment
  payment_loop-find m [] a e t = ground arith
  payment_loop-find m (p ∷ ps) a e t = ground (
    arith,
    payment_loop-find m ps a e (
        table.upsert_external owner.account_uuid owner.provider_uuid p.external_id
          (external_payment m p) t),
    laws.find_payment-upsert_external a e owner.account_uuid owner.provider_uuid p.external_id
        (external_payment m p) t,
  )

  -- After an import, the payment under an external id of the account is the last one of that id
  -- that the ledger has, with its service linked; an id that the ledger does not have, and every
  -- payment of another account, is as before.
  pub upsert_payments-find :
      (services : List (Str × Option Str)) (ps : List (PaymentData D)) (a e : Str) (t : P)
      → table.find_payment a e (upsert_payments owner services ps t).0 ≡ (
          if str_eq owner.account_uuid a
          then imported (add_services services []) (last_payment e ps) (table.find_payment a e t)
          else table.find_payment a e t)
  unfolding upsert_payments payment_loop
  upsert_payments-find services [] a e t = payment_loop-find (add_services services []) [] a e t
  upsert_payments-find services (p ∷ ps) a e t =
      payment_loop-find (add_services services []) (p ∷ ps) a e t

  -- The import is idempotent: a second import of the same ledger leaves every payment as the first
  -- one left it.
  pub upsert_payments-again :
      (services : List (Str × Option Str)) (ps : List (PaymentData D)) (a e : Str) (t : P)
      → table.find_payment a e
          (upsert_payments owner services ps (upsert_payments owner services ps t).0).0
        ≡ table.find_payment a e (upsert_payments owner services ps t).0
  upsert_payments-again services ps a e t = ground (
    arith,
    upsert_payments-find services ps a e (upsert_payments owner services ps t).0,
    upsert_payments-find services ps a e t,
  )
