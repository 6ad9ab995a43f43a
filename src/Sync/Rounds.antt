-- ===== src/Sync/Rounds.antt =====
-- `upsertServices` of sync.service.ts: the rounds of its loop, as one row sees them.
use infra_billing.Base.{
  Bool, Bool-cases, List, Option, Str, [], any, false, inl, inr, none, opt_eq, refl, some, str_eq,
  str_eq_refl, str_eq→eq, sym, true, ◌&&◌, ◌∙◌, ◌∷◌, ◌≡◌, ◌⊎◌,
}
use native.Mathlib.Omega.{arith}
use infra_billing.Decimal.{Decimal}
use infra_billing.Sync.Tables.{
  ServiceRow, ServiceTable, IsServiceTable, when, has_uuid, has_key, Meta,
}
use infra_billing.Sync.Services.{
  AccountOwner, ServiceData, updated_row, new_row, synced_meta, write, upsert_loop, upsert_service,
  upsert_services, external_ids, is_missing, deactivated,
}
use infra_billing.Sync.Kept.{
  KeepsKey-when, updated_row-KeepsKey, IsLive, Kept, Kept-refl, updated_row-IsLive, Kept-trans,
  Kept-updated_row, new_row-IsLive, deactivated-KeepsKey,
}

-- What one round leaves of a row: the row as it was, or updated from the fetched service.
abbrev After :
    {D : Type 0} → ⦃num : Decimal D⦄ → Str → ServiceData D → ServiceRow → ServiceRow → Type 0
After currency sd r r1 = (r1 ≡ r) ⊎ ((m : Meta) × (r1 ≡ updated_row currency sd m r))

and-both : (p q : Bool) → p && q ≡ true → (p ≡ true) × (q ≡ true)
and-both true q h = (refl, h)
and-both false q h = ground arith

opt_eq→eq : (o : Option Str) (e : Str) → opt_eq o (some e) ≡ true → o ≡ some e
opt_eq→eq none e h = absurd (ground (arith, h))
opt_eq→eq (some s) e h = rw (str_eq→eq s e h) refl

has_key-new_row :
    {D : Type 0}
    → ⦃num : Decimal D⦄ → (o : AccountOwner) (c u : Str) (sd : ServiceData D) → (a e : Str)
    → has_key a e (new_row o c sd u) ≡ true
    → (o.account_uuid ≡ a) × (sd.external_id ≡ e)
unfolding new_row
has_key-new_row o c u sd a e h =
    let (p, q) = and-both (str_eq o.account_uuid a) (str_eq sd.external_id e) h in
    (str_eq→eq o.account_uuid a p, str_eq→eq sd.external_id e q)

new_row-has_key :
    {D : Type 0}
    → ⦃num : Decimal D⦄ → (o : AccountOwner) (c u : Str) (sd : ServiceData D)
    → has_key o.account_uuid sd.external_id (new_row o c sd u) ≡ true
unfolding new_row
new_row-has_key o c u sd = rw (str_eq_refl o.account_uuid, str_eq_refl sd.external_id) refl

has_key_iff :
    (a e : Str) (r : ServiceRow)
    → has_key a e r ≡ true
    → (r.account_uuid ≡ a) × (r.external_id ≡ some e)
has_key_iff a e r h =
    let (p, q) = and-both (str_eq r.account_uuid a) (opt_eq r.external_id (some e)) h in
    (str_eq→eq r.account_uuid a p, opt_eq→eq r.external_id e q)

pub keyed :
    {T : Type 0}
    → ⦃table : ServiceTable T⦄ → (laws : IsServiceTable table)
    → (a e : Str) (t : T) (r : ServiceRow) → table.find_row a e t ≡ some r
    → (r.account_uuid ≡ a) × (r.external_id ≡ some e)
keyed laws a e t r h = has_key_iff a e r (laws.find_row-has_key a e t r h)

module _ {D : Type 0} ⦃num : Decimal D⦄ {T : Type 0} ⦃table : ServiceTable T⦄
    (laws : IsServiceTable table) (owner : AccountOwner) (currency : Str) where
  not_both :
      (a e : Str) (sd : ServiceData D) (t : T) (r : ServiceRow)
      → owner.account_uuid ≡ a
      → sd.external_id ≡ e
      → table.find_row owner.account_uuid sd.external_id t ≡ none
      → table.find_row a e t ≡ some r
      → ⊥
  not_both a e sd t r p q h hr =
      let k : some r ≡ none = sym hr ∙ rw (sym p, sym q) h in ground (arith, k)

  write-found :
      (a e : Str) (sd : ServiceData D) (t : T) (r : ServiceRow) (o : Option ServiceRow)
      → table.find_row owner.account_uuid sd.external_id t ≡ o
      → table.find_row a e t ≡ some r
      → (r1 : ServiceRow) × (table.find_row a e (write owner currency sd o t) ≡ some r1)
        × After currency sd r r1
  write-found a e sd t r none h hr =
      let u = table.next_uuid t in
      elim (Bool-cases (has_key a e (new_row owner currency sd u))) [
        | inl y ↦
            let (p, q) = has_key-new_row owner currency u sd a e y in
            absurd (not_both a e sd t r p q h hr)
        | inr n ↦
            (r, laws.find_row-create_row a e (new_row owner currency sd) t ∙ rw n hr, inl refl)
      ]
  write-found a e sd t r (some old) h hr =
      let m = synced_meta sd currency old.meta in
      let f = updated_row currency sd m in
      (
        when (has_uuid old.uuid) f r,
        laws.find_row-update_row a e old.uuid f t (updated_row-KeepsKey currency sd m) ∙ rw hr refl,
        elim (KeepsKey-when (has_uuid old.uuid) f r) [ inl p ↦ inl p | inr p ↦ inr (m, p) ],
      )

  round-found :
      (a e : Str) (sd : ServiceData D) (t : T) (r : ServiceRow)
      → table.find_row a e t ≡ some r
      → (r1 : ServiceRow) × (table.find_row a e (upsert_service owner currency sd t) ≡ some r1)
        × After currency sd r r1
  unfolding upsert_service
  round-found a e sd t r hr =
      write-found a e sd t r (table.find_row owner.account_uuid sd.external_id t) refl hr

  round-Kept : (sd : ServiceData D) (r r1 : ServiceRow) → After currency sd r r1 → Kept r r1
  round-Kept sd r r1 (inl p) = rw p (Kept-refl r)
  round-Kept sd r r1 (inr (m, p)) = rw p (Kept-updated_row currency sd m r)

  round-IsLive :
      (sd : ServiceData D) (r r1 : ServiceRow) → After currency sd r r1 → IsLive r → IsLive r1
  round-IsLive sd r r1 (inl p) live = rw p live
  round-IsLive sd r r1 (inr (m, p)) live = rw p (updated_row-IsLive currency sd m r)

  pub loop-found :
      (a e : Str) (sds : List (ServiceData D)) (t : T) (r : ServiceRow)
      → table.find_row a e t ≡ some r
      → (r1 : ServiceRow) × (table.find_row a e (upsert_loop owner currency sds t) ≡ some r1)
        × Kept r r1
        × (IsLive r → IsLive r1)
  unfolding upsert_loop
  loop-found a e [] t r hr = (r, hr, Kept-refl r, λ live. live)
  loop-found a e (sd ∷ sds) t r hr =
      let (r1, h1, after) = round-found a e sd t r hr in
      let (r2, h2, kept, lives) = loop-found a e sds (upsert_service owner currency sd t) r1 h1 in
      (
        r2,
        h2,
        Kept-trans r r1 r2 (round-Kept sd r r1 after) kept,
        λ live. lives (round-IsLive sd r r1 after live),
      )

  -- The row of a fetched service stands after its round, and is live.
  write-IsLive :
      (sd : ServiceData D) (t : T) (o : Option ServiceRow)
      → table.find_row owner.account_uuid sd.external_id t ≡ o
      → (r1 : ServiceRow) × (table.find_row owner.account_uuid sd.external_id
            (write owner currency sd o t)
          ≡ some r1)
        × IsLive r1
  write-IsLive sd t none h =
      let u = table.next_uuid t in
      (
        new_row owner currency sd u,
        laws.find_row-create_row owner.account_uuid sd.external_id (new_row owner currency sd) t
            ∙ rw (new_row-has_key owner currency u sd) refl,
        λ _. new_row-IsLive owner currency sd u,
      )
  write-IsLive sd t (some old) h =
      let m = synced_meta sd currency old.meta in
      let f = updated_row currency sd m in
      (
        f old,
        laws.find_row-update_row owner.account_uuid sd.external_id old.uuid f t
              (updated_row-KeepsKey currency sd m)
            ∙ rw h (rw (str_eq_refl old.uuid) refl),
        updated_row-IsLive currency sd m old,
      )

  pub loop-IsLive :
      (sds : List (ServiceData D)) (t : T) (e : Str)
      → any (str_eq e) (external_ids sds) ≡ true
      → (r1 : ServiceRow) × (table.find_row owner.account_uuid e (upsert_loop owner currency sds t)
          ≡ some r1)
        × IsLive r1
  unfolding upsert_loop upsert_service
  loop-IsLive [] t e h = absurd (ground (arith, h))
  loop-IsLive (sd ∷ sds) t e h = elim (Bool-cases (str_eq e sd.external_id)) [
    | inl y ↦
        let (r1, h1, live) =
          write-IsLive sd t (table.find_row owner.account_uuid sd.external_id t) refl in
        let (r2, h2, kept, lives) =
          loop-found owner.account_uuid sd.external_id sds (upsert_service owner currency sd t) r1
            h1 in
        (r2, rw (str_eq→eq e sd.external_id y) h2, lives live)
    | inr n ↦ loop-IsLive sds (upsert_service owner currency sd t) e (sym (rw n refl) ∙ h)
  ]

  -- The row of `upsert_loop` after `deactivateMissing`.
  pub settled :
      (fetched : List (ServiceData D)) (a e : Str) (t : T) (r : ServiceRow)
      → table.find_row a e (upsert_loop owner currency fetched t) ≡ some r
      → table.find_row a e (upsert_services owner currency fetched t).0
        ≡ some (when (is_missing owner.account_uuid (external_ids fetched)) deactivated r)
  unfolding upsert_services
  settled fetched a e t r h =
      laws.find_row-update_rows a e (is_missing owner.account_uuid (external_ids fetched))
        deactivated (upsert_loop owner currency fetched t) deactivated-KeepsKey
      ∙ rw h refl
