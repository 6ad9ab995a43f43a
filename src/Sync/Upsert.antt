-- ===== src/Sync/Upsert.antt =====
-- `upsertServices` of sync.service.ts: what a whole sync does to one row.
use infra_billing.Base.{
  Bool, List, Str, any, false, inl, inr, refl, some, str_eq, str_eq_refl, true, ◌&&◌, ◌∙◌, ◌≡◌,
}
use infra_billing.Decimal.{Decimal}
use infra_billing.Sync.Tables.{ServiceRow, ServiceTable, IsServiceTable, when}
use infra_billing.Sync.Services.{
  AccountOwner, ServiceData, upsert_loop, upsert_services, external_ids, is_missing, deactivated,
}
use infra_billing.Sync.Kept.{KeepsKey-when, IsLive, Kept, Kept-refl, Kept-trans, Kept-deactivated}
use infra_billing.Sync.Rounds.{loop-found, loop-IsLive, settled, keyed}

&&-never : (p q : Bool) → p && q && false ≡ false
&&-never true true = refl
&&-never true false = refl
&&-never false q = refl

module _ {D : Type 0} ⦃num : Decimal D⦄ {T : Type 0} ⦃table : ServiceTable T⦄
    (laws : IsServiceTable table) (owner : AccountOwner) (currency : Str) where
  is_missing-fetched :
      (fetched : List (ServiceData D)) (e : Str) (r : ServiceRow)
      → r.external_id ≡ some e
      → any (str_eq e) (external_ids fetched) ≡ true
      → is_missing owner.account_uuid (external_ids fetched) r ≡ false
  is_missing-fetched fetched e r q h =
      rw q (rw h (&&-never (str_eq r.account_uuid owner.account_uuid) r.is_managed))

  is_missing-left :
      (fetched : List (ServiceData D)) (e : Str) (r : ServiceRow)
      → r.account_uuid ≡ owner.account_uuid
      → r.external_id ≡ some e
      → any (str_eq e) (external_ids fetched) ≡ false
      → r.is_managed ≡ true
      → is_missing owner.account_uuid (external_ids fetched) r ≡ true
  is_missing-left fetched e r p q h m = rw (p, q, m) (rw (h, str_eq_refl owner.account_uuid) refl)

  -- A sync of services that the provider returned finds every row that was there before under its
  -- key, and what the owner has overridden in it stands: its name, its type, its price with its
  -- currency and period, and that it is off; its project and its flags stand too.
  pub upsert_services-Kept :
      (fetched : List (ServiceData D)) (a e : Str) (t : T) (r : ServiceRow)
      → table.find_row a e t ≡ some r
      → (r1 : ServiceRow) × (table.find_row a e (upsert_services owner currency fetched t).0
          ≡ some r1)
        × Kept r r1
  upsert_services-Kept fetched a e t r h =
      let (r1, h1, kept, _) = loop-found laws owner currency a e fetched t r h in
      let test = is_missing owner.account_uuid (external_ids fetched) in
      (
        when test deactivated r1,
        settled laws owner currency fetched a e t r1 h1,
        Kept-trans r r1 (when test deactivated r1) kept (elim (KeepsKey-when test deactivated r1) [
          | inl p ↦ rw p (Kept-refl r1)
          | inr p ↦ rw p (Kept-deactivated r1)
        ]),
      )

  -- After a sync, the service of each fetched id is there, and it is on unless the owner has taken
  -- over whether it is.
  pub upsert_services-IsLive :
      (fetched : List (ServiceData D)) (e : Str) (t : T)
      → any (str_eq e) (external_ids fetched) ≡ true
      → (r1 : ServiceRow) × (table.find_row owner.account_uuid e
            (upsert_services owner currency fetched t).0
          ≡ some r1)
        × IsLive r1
  upsert_services-IsLive fetched e t h =
      let (r1, h1, live) = loop-IsLive laws owner currency fetched t e h in
      let (p, q) = keyed laws owner.account_uuid e (upsert_loop owner currency fetched t) r1 h1 in
      (
        r1,
        settled laws owner currency fetched owner.account_uuid e t r1 h1
            ∙ rw (is_missing-fetched fetched e r1 q h) refl,
        live,
      )

  -- After a sync, a managed row of the account whose id the provider no longer returned is still
  -- there, and it is off.
  pub upsert_services-deactivates :
      (fetched : List (ServiceData D)) (e : Str) (t : T) (r : ServiceRow)
      → any (str_eq e) (external_ids fetched) ≡ false
      → table.find_row owner.account_uuid e t ≡ some r
      → r.is_managed ≡ true
      → (r1 : ServiceRow) × (table.find_row owner.account_uuid e
            (upsert_services owner currency fetched t).0
          ≡ some r1)
        × (r1.uuid ≡ r.uuid)
        × (r1.is_active ≡ false)
  upsert_services-deactivates fetched e t r n h managed =
      let (r1, h1, kept, _) = loop-found laws owner currency owner.account_uuid e fetched t r h in
      let (p, q) = keyed laws owner.account_uuid e (upsert_loop owner currency fetched t) r1 h1 in
      (
        deactivated r1,
        settled laws owner currency fetched owner.account_uuid e t r1 h1
            ∙ rw (is_missing-left fetched e r1 p q n (kept.kept_managed ∙ managed)) refl,
        kept.kept_uuid,
        refl,
      )
