-- ===== src/Tests/Ledger.antt =====
-- A ledger with one charge of a known service.
use infra_billing.Base.{List, Option, Str, [], codes, if◌then◌else◌, none, some, str_eq, ◌∷◌, ◌≡◌}
use infra_billing.Decimal.{Whole, pos, whole_decimal}
use infra_billing.Sync.Services.{AccountOwner}
use infra_billing.Sync.Run.{PaymentData, charge}
use infra_billing.Sync.Payments.{
  upsert_payments, add_services, last_payment, imported, upsert_payments-find,
  upsert_payments-again,
}
use infra_billing.Tests.Tables.{Payments, find_payment, list_payments, list_payments-IsPaymentTable}

abbrev owner : AccountOwner
owner = record { account_uuid = codes "a"; provider_uuid = codes "p" }

abbrev services : List (Str × Option Str)
services = (codes "u1", some (codes "s1")) ∷ (codes "u2", none) ∷ []

abbrev payment : PaymentData Whole
payment = record {
  external_id = codes "expense:1";
  payment_type = charge;
  amount = pos 7;
  currency = codes "EUR";
  date = 5;
  description = none;
  service_external_id = some (codes "s1");
}

abbrev empty_table : Payments
empty_table = []

upsert_payments-find_example :
    find_payment
      (codes "a")
      (codes "expense:1")
      (upsert_payments owner services (payment ∷ []) empty_table).0
    ≡ (if str_eq (codes "a") (codes "a")
        then imported list_payments-IsPaymentTable owner
            (add_services services [])
            (last_payment (codes "expense:1") (payment ∷ []))
            (find_payment (codes "a") (codes "expense:1") empty_table)
        else find_payment (codes "a") (codes "expense:1") empty_table)
upsert_payments-find_example =
    upsert_payments-find list_payments-IsPaymentTable owner services (payment ∷ []) (codes "a")
      (codes "expense:1") empty_table

upsert_payments-again_example :
    find_payment
      (codes "a")
      (codes "expense:1")
      (upsert_payments owner services
        (payment ∷ [])
        (upsert_payments owner services (payment ∷ []) empty_table).0).0
    ≡ find_payment
        (codes "a")
        (codes "expense:1")
        (upsert_payments owner services (payment ∷ []) empty_table).0
upsert_payments-again_example =
    upsert_payments-again list_payments-IsPaymentTable owner services (payment ∷ []) (codes "a")
      (codes "expense:1") empty_table
