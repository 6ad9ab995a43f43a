-- ===== src/Tests/Tables.antt =====
-- Tables for the examples: a list of rows, searched from the front.
use infra_billing.Base.{
  Bool, Bool-cases, List, Option, Str, [], any, arith, codes, find, if◌then◌else◌, inl, inr, leb,
  map, none, refl, some, str_eq, sym, true, ℕ, ◌&&◌, ◌∙◌, ◌∷◌, ◌≡◌,
}
use infra_billing.Sync.Tables.{
  ServiceRow, ServiceTable, IsServiceTable, KeepsKey, when, has_uuid, has_key, map_option,
}
use infra_billing.Sync.Payments.{ExternalPayment, PaymentTable, IsPaymentTable}
use infra_billing.Notifications.Alerts.{NotificationLog}
use infra_billing.Notifications.Throttle.{IsNotificationLog}

instance abbrev pub list_table : ServiceTable (List ServiceRow)
list_table = record {
  find_row = λ a e t. find (has_key a e) t;
  find_uuid = λ u t. find (has_uuid u) t;
  next_uuid = λ t. codes "fresh";
  create_row = λ f t. f (codes "fresh") ∷ t;
  update_row = λ uuid f t. map (when (has_uuid uuid) f) t;
  update_rows = λ test f t. map (when test f) t;
}

find-holds :
    (p : ServiceRow → Bool) (t : List ServiceRow) (r : ServiceRow) → find p t ≡ some r → p r ≡ true
find-holds p [] r h = ground arith
find-holds p (x ∷ t) r h = elim (Bool-cases (p x)) [
  | inl y ↦ let e : some x ≡ some r = sym (rw y refl) ∙ h in cc
  | inr n ↦ find-holds p t r (sym (rw n refl) ∙ h)
]

has_key-when :
    (a e : Str) (test : ServiceRow → Bool) (f : ServiceRow → ServiceRow) (r : ServiceRow)
    → KeepsKey f
    → has_key a e (when test f r) ≡ has_key a e r
has_key-when a e test f r k = elim (Bool-cases (test r)) [
  | inl y ↦ rw y (rw (k.same_account r, k.same_external r) refl)
  | inr n ↦ rw n refl
]

has_uuid-when :
    (u : Str) (test : ServiceRow → Bool) (f : ServiceRow → ServiceRow) (r : ServiceRow)
    → KeepsKey f
    → has_uuid u (when test f r) ≡ has_uuid u r
has_uuid-when u test f r k = elim (Bool-cases (test r)) [
  | inl y ↦ rw y (rw (k.same_uuid r) refl)
  | inr n ↦ rw n refl
]

find-map :
    (p : ServiceRow → Bool) (g : ServiceRow → ServiceRow) (t : List ServiceRow)
    → ((r : ServiceRow) → p (g r) ≡ p r)
    → find p (map g t) ≡ map_option g (find p t)
find-map p g [] h = refl
find-map p g (x ∷ t) h = elim (Bool-cases (p x)) [
  | inl y ↦ rw (h x, y) refl
  | inr n ↦ rw (h x, n) (find-map p g t h)
]

pub list_table-IsServiceTable : IsServiceTable list_table
list_table-IsServiceTable = record {
  find_row-has_key = λ a e t r h. find-holds (has_key a e) t r h;
  find_row-create_row = λ a e f t. refl;
  find_row-update_row = λ a e uuid f t k.
      find-map (has_key a e) (when (has_uuid uuid) f) t
        (λ r. has_key-when a e (has_uuid uuid) f r k);
  find_row-update_rows =
      λ a e test f t k. find-map (has_key a e) (when test f) t (λ r. has_key-when a e test f r k);
  find_uuid-has_uuid = λ u t r h. find-holds (has_uuid u) t r h;
  find_uuid-update_row = λ u uuid f t k.
      find-map (has_uuid u) (when (has_uuid uuid) f) t (λ r. has_uuid-when u (has_uuid uuid) f r k);
  find_uuid-update_rows =
      λ u test f t k. find-map (has_uuid u) (when test f) t (λ r. has_uuid-when u test f r k);
}

-- A log is the keys sent, each with its time.
instance abbrev pub list_log : NotificationLog (List (Str × ℕ))
list_log = record {
  was_sent_since = λ key since l. any (λ (e : Str × ℕ). str_eq key e.0 && leb since e.1) l;
  record_key = λ key now l. (key, now) ∷ l;
}

pub list_log-IsNotificationLog : IsNotificationLog list_log
list_log-IsNotificationLog = record { was_sent_since-record_key = λ key k since now l. refl }

-- The payments, the last written first.
abbrev pub Payments : Type 0
Payments = List (Str × Str × ExternalPayment)

abbrev pub find_payment : Str → Str → Payments → Option ExternalPayment
find_payment a e [] = none
find_payment a e ((account, external, data_) ∷ rest) =
    if str_eq account a && str_eq external e then some data_ else find_payment a e rest

instance abbrev pub list_payments : PaymentTable Payments
list_payments = record {
  find_payment = find_payment;
  upsert_external = λ account provider external data_ t. (account, external, data_) ∷ t;
}

pub list_payments-IsPaymentTable : IsPaymentTable list_payments
list_payments-IsPaymentTable = record {
  find_payment-upsert_external = λ a e account provider external data_ t. refl;
}
