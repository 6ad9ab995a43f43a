-- ===== src/Services/Baseline.antt =====
-- The baseline of an edit is what the last sync wrote: the metadata of sync.service.ts as `update` of
-- services.service.ts reads it.
use infra_billing.Base.{
  Bool-cases, Option, Option-cases, Str, [], codes, false, get_or_else, inl, inr, map_get,
  map_get-map_set, map_set, none, refl, some, str_eq, str_eq→eq, ◌∙◌, ◌∷◌, ◌≡◌,
}
use infra_billing.Decimal.{Decimal}
use infra_billing.Sync.Tables.{Meta, ServiceRow, text, Json}
use infra_billing.Sync.Services.{
  ServiceData, set_truthy, synced_meta, updated_row, text_at, vendor_key, synced_vendor_key,
  cost_text, kept_vendor,
}
use infra_billing.Services.Edits.{
  ServiceClientMeta, PatchValue, not_given, emptied, given, Draft, apply_key, apply_client_meta,
  delete_key, is_text, UpdateService, baseline_name, baseline_type, synced_name_key,
  synced_type_key,
}

map_get-delete_key :
    (k key : Str) (m : Meta) → str_eq k key ≡ false → map_get key (delete_key k m) ≡ map_get key m
unfolding map_get
map_get-delete_key k key [] n = refl
map_get-delete_key k key ((j, v) ∷ m) n = elim (Bool-cases (str_eq j k)) [
  | inl y ↦ rw (y, str_eq→eq j k y, n) (map_get-delete_key k key m n)
  | inr d ↦ rw (d, map_get-delete_key k key m n) refl
]

map_get-set_truthy :
    (k key : Str) (o : Option Str) (m : Meta)
    → str_eq k key ≡ false
    → map_get key (set_truthy k o m) ≡ map_get key m
map_get-set_truthy k key none m n = refl
map_get-set_truthy k key (some []) m n = refl
map_get-set_truthy k key (some (c ∷ cs)) m n = rw (map_get-map_set k key (text (c ∷ cs)) m, n) refl

map_get-apply_key :
    (k key : Str) (p : PatchValue) (d : Draft)
    → str_eq k key ≡ false
    → map_get key (apply_key k p d).meta ≡ map_get key d.meta
map_get-apply_key k key not_given d n = refl
map_get-apply_key k key emptied d n = elim (Option-cases (map_get k d.meta)) [
  | inl p ↦ rw (p, apply_key) refl
  | inr (v, p) ↦ rw (p, apply_key) (map_get-delete_key k key d.meta n)
]
map_get-apply_key k key (given s) d n = elim (Bool-cases (is_text (map_get k d.meta) s)) [
  | inl y ↦ rw (y, apply_key) refl
  | inr m ↦ rw (m, apply_key) (rw (map_get-map_set k key (text s) d.meta, n) refl)
]

-- The owner's patch of the metadata has no key but the three of its own.
map_get-apply_client_meta :
    (key : Str) (patch : Option ServiceClientMeta) (m : Meta)
    → str_eq (codes "vendor") key ≡ false
    → str_eq (codes "marker") key ≡ false
    → str_eq (codes "markerBg") key ≡ false
    → map_get key (apply_client_meta patch m).meta ≡ map_get key m
unfolding apply_client_meta
map_get-apply_client_meta key none m p q r = refl
map_get-apply_client_meta key (some patch) m p q r =
    let d0 : Draft = record { meta = m; dirty = false } in
    let d1 = apply_key (codes "vendor") patch.vendor d0 in
    let d2 = apply_key (codes "marker") patch.marker d1 in
    map_get-apply_key (codes "markerBg") key patch.marker_bg d2 r
    ∙ map_get-apply_key (codes "marker") key patch.marker d1 q
    ∙ map_get-apply_key (codes "vendor") key patch.vendor d0 p

map_get-map_set_other :
    (k key : Str) (v : Json) (m : Meta)
    → str_eq k key ≡ false
    → map_get key (map_set k v m) ≡ map_get key m
map_get-map_set_other k key v m n = rw (map_get-map_set k key v m, n) refl

-- The keys that are a sync writes after the name and the type.
abbrev IsApart : Str → Type 0
IsApart key =
    (str_eq (codes "syncedCost") key ≡ false)
    × (str_eq (codes "syncedPeriod") key ≡ false)
    × (str_eq (codes "syncedCurrency") key ≡ false)
    × (str_eq (codes "syncedCountry") key ≡ false)
    × (str_eq (codes "syncedVendor") key ≡ false)
    × (str_eq (codes "vendor") key ≡ false)

module _ {D : Type 0} ⦃num : Decimal D⦄ where
  -- The name and the type that a sync writes to the metadata.
  abbrev with_names : ServiceData D → Meta
  with_names sd =
      map_set (codes "syncedType") (text sd.type_name)
        (map_set (codes "syncedName") (text sd.name) sd.meta)

  map_get-synced_meta :
      (key : Str) (sd : ServiceData D) (currency : Str) (prev : Meta)
      → IsApart key
      → map_get key (synced_meta sd currency prev) ≡ map_get key (with_names sd)
  unfolding synced_meta
  map_get-synced_meta key sd currency prev (a, b, c, d, e, f) =
      let incoming = text_at vendor_key sd.meta in
      let m3 = map_set (codes "syncedCost") (cost_text sd.cost) (with_names sd) in
      let m4 = set_truthy (codes "syncedPeriod") sd.period m3 in
      let money = text (get_or_else sd.currency currency) in
      let m5 = map_set (codes "syncedCurrency") money m4 in
      let m6 = set_truthy (codes "syncedCountry") sd.country_code m5 in
      let m7 = set_truthy synced_vendor_key incoming m6 in
      let kept = kept_vendor (text_at vendor_key prev) (text_at synced_vendor_key prev) incoming in
      map_get-set_truthy (codes "vendor") key kept m7 f
      ∙ map_get-set_truthy (codes "syncedVendor") key incoming m6 e
      ∙ map_get-set_truthy (codes "syncedCountry") key sd.country_code m5 d
      ∙ map_get-map_set_other (codes "syncedCurrency") key money m4 c
      ∙ map_get-set_truthy (codes "syncedPeriod") key sd.period m3 b
      ∙ map_get-map_set_other (codes "syncedCost") key (cost_text sd.cost) (with_names sd) a

  synced_name :
      (sd : ServiceData D) (currency : Str) (prev : Meta)
      → map_get synced_name_key (synced_meta sd currency prev) ≡ some (text sd.name)
  unfolding str_eq
  synced_name sd currency prev =
      let inner = map_set (codes "syncedName") (text sd.name) sd.meta in
      map_get-synced_meta synced_name_key sd currency prev (refl, refl, refl, refl, refl, refl)
      ∙ map_get-map_set_other (codes "syncedType") synced_name_key (text sd.type_name) inner refl
      ∙ map_get-map_set (codes "syncedName") synced_name_key (text sd.name) sd.meta

  synced_type :
      (sd : ServiceData D) (currency : Str) (prev : Meta)
      → map_get synced_type_key (synced_meta sd currency prev) ≡ some (text sd.type_name)
  unfolding str_eq
  synced_type sd currency prev =
      let inner = map_set (codes "syncedName") (text sd.name) sd.meta in
      map_get-synced_meta synced_type_key sd currency prev (refl, refl, refl, refl, refl, refl)
      ∙ map_get-map_set (codes "syncedType") synced_type_key (text sd.type_name) inner

  -- The row of a service after a sync that returns it.
  abbrev pub synced_row : Str → ServiceData D → ServiceRow → ServiceRow
  synced_row currency sd r = updated_row currency sd (synced_meta sd currency r.meta) r

  pub baseline_name-synced_row :
      (currency : Str) (sd : ServiceData D) (dto : UpdateService) (r : ServiceRow)
      → baseline_name dto (synced_row currency sd r) ≡ some sd.name
  unfolding updated_row str_eq
  baseline_name-synced_row currency sd dto r =
      rw
        (
          map_get-apply_client_meta synced_name_key dto.meta (synced_meta sd currency r.meta) refl
              refl refl,
          synced_name sd currency r.meta,
        )
        refl

  pub baseline_type-synced_row :
      (currency : Str) (sd : ServiceData D) (dto : UpdateService) (r : ServiceRow)
      → baseline_type dto (synced_row currency sd r) ≡ some sd.type_name
  unfolding updated_row str_eq
  baseline_type-synced_row currency sd dto r =
      rw
        (
          map_get-apply_client_meta synced_type_key dto.meta (synced_meta sd currency r.meta) refl
              refl refl,
          synced_type sd currency r.meta,
        )
        refl
