-- ===== src/Services/Edits.antt =====
-- `update` of services.service.ts: which edits of the owner are overrides.
use infra_billing.Base.{
  Bool, Option, Str, [], codes, false, filter, if◌then◌else◌, leb, map_get, map_set, none, not,
  or_null, some, str_eq, true, ℕ, ◌&&◌, ◌==◌, ◌∷◌,
}
use infra_billing.Decimal.{Decimal}
use infra_billing.Sync.Tables.{Json, text, Meta, ServiceRow}
use infra_billing.Services.Owner.{OwnerRef}

-- A field of `ServiceClientMeta`: not in the patch, empty or null, or a text.
pub data PatchValue : Type 0 where
  not_given emptied : PatchValue
  given : Str → PatchValue

pub record ServiceClientMeta : Type 0 where
  pub vendor : PatchValue
  pub marker : PatchValue
  pub marker_bg : PatchValue

-- `UpdateService`: `none` is a field that the request does not have; a nullable one has two levels.
pub record UpdateService : Type 0 where
  pub owner : OwnerRef
  pub project_uuid : Option Str
  pub name : Option Str
  pub description : Option (Option Str)
  pub type_name : Option Str
  pub cost : Option Str
  pub currency : Option Str
  pub period : Option Str
  pub country_code : Option (Option Str)
  pub next_billing_at : Option (Option ℕ)
  pub is_active : Option Bool
  pub meta : Option ServiceClientMeta

-- The metadata so far, and `metaDirty`.
pub record Draft : Type 0 where
  pub meta : Meta
  pub dirty : Bool

abbrev pub is_text : Option Json → Str → Bool
is_text (some (text s)) t = str_eq s t
is_text _ t = false

abbrev pub delete_key : Str → Meta → Meta
delete_key key m = filter (λ (e : Str × Json). not (str_eq e.0 key)) m

-- One key of `applyClientMeta`.
abbrev pub apply_key : Str → PatchValue → Draft → Draft
apply_key key not_given d = d
apply_key key emptied d = elim (map_get key d.meta) [
  | none ↦ d
  | some v ↦ record { meta = delete_key key d.meta; dirty = true }
]
apply_key key (given s) d =
    if is_text (map_get key d.meta) s
    then d
    else record { meta = map_set key (text s) d.meta; dirty = true }

unfoldable pub apply_client_meta : Option ServiceClientMeta → Meta → Draft
unfolding map_get map_set
apply_client_meta none m = record { meta = m; dirty = false }
apply_client_meta (some patch) m = apply_key (codes "markerBg") patch.marker_bg (
    apply_key (codes "marker") patch.marker
      (apply_key (codes "vendor") patch.vendor (record { meta = m; dirty = false })))

-- `baselineName` and `baselineType`: the synced text, or else a value that is not overridden.
abbrev pub baseline_text : Option Json → Bool → Str → Option Str
baseline_text (some (text s)) overridden current = some s
baseline_text _ overridden current = if overridden then none else some current

-- A field after an edit, its flag, and the metadata with the baseline seeded.
pub record Edited : Type 0 where
  pub value : Str
  pub overridden : Bool
  pub draft : Draft

abbrev pub seed : Str → Str → Draft → Draft
seed key baseline d =
    if is_text (map_get key d.meta) baseline
    then d
    else record { meta = map_set key (text baseline) d.meta; dirty = true }

-- The edit of a field, with the test of equal values: of a text, or of an amount by number.
unfoldable pub edit_field :
    (Str → Str → Bool) → Str → Option Str → Option Str → Str → Bool → Draft → Edited
edit_field same key baseline none current flag d = record {
  value = current;
  overridden = flag;
  draft = d;
}
edit_field same key baseline (some v) current flag d = record {
  value = if same current v then current else v;
  overridden = elim baseline [
    | none ↦ (if same current v then flag else true)
    | some b ↦ not (same b v)
  ];
  draft = elim baseline as (λ _. Draft) [ none ↦ d | some b ↦ seed key b d ];
}

abbrev pub is_digit : ℕ → Bool
is_digit c = leb 48 c && leb c 57

abbrev pub is_fraction : Str → Bool
is_fraction [] = true
is_fraction (point ∷ c ∷ []) = (point == 46) && is_digit c
is_fraction (point ∷ c ∷ d ∷ []) = (point == 46) && is_digit c && is_digit d
is_fraction _ = false

unfoldable pub digits_then_fraction : Bool → Str → Bool
digits_then_fraction some_digit [] = some_digit
digits_then_fraction some_digit (c ∷ cs) =
    let rest = digits_then_fraction true cs in
    if is_digit c then rest else some_digit && is_fraction (c ∷ cs)

-- `MONEY_RE`.
unfoldable pub is_money : Str → Bool
unfolding digits_then_fraction
is_money [] = false
is_money (c ∷ cs) = digits_then_fraction false (if c == 45 then cs else c ∷ cs)

abbrev pub set_or_keep {ℓ} : {A : Type ℓ} → Option A → A → A
set_or_keep none old = old
set_or_keep (some v) old = v

-- `dto.description || null`.
abbrev pub non_empty_text : Option Str → Option Str
non_empty_text none = none
non_empty_text (some s) = or_null s

abbrev pub synced_name_key : Str
synced_name_key = codes "syncedName"

abbrev pub synced_type_key : Str
synced_type_key = codes "syncedType"

abbrev pub synced_cost_key : Str
synced_cost_key = codes "syncedCost"

abbrev pub baseline_name : UpdateService → ServiceRow → Option Str
baseline_name dto r =
    baseline_text (map_get synced_name_key (apply_client_meta dto.meta r.meta).meta)
      r.name_overridden r.name

abbrev pub baseline_type : UpdateService → ServiceRow → Option Str
baseline_type dto r =
    baseline_text (map_get synced_type_key (apply_client_meta dto.meta r.meta).meta)
      r.type_overridden r.type_name

abbrev pub edited_name : UpdateService → ServiceRow → Edited
edited_name dto r =
    edit_field str_eq synced_name_key (baseline_name dto r) dto.name r.name r.name_overridden
      (apply_client_meta dto.meta r.meta)

abbrev pub edited_type : UpdateService → ServiceRow → Edited
edited_type dto r =
    edit_field str_eq synced_type_key (baseline_type dto r) dto.type_name r.type_name
      r.type_overridden (edited_name dto r).draft

-- `syncedCost`: a text that is an amount.
abbrev pub money_text : Option Json → Option Json
money_text (some (text s)) = if is_money s then some (text s) else none
money_text _ = none

-- `new Decimal(text)` is a parameter.
module _ {D : Type 0} ⦃num : Decimal D⦄ (parse : Str → D) where
  abbrev pub same_amount : Str → Str → Bool
  same_amount a b = num.equals (parse a) (parse b)

  abbrev pub baseline_cost : UpdateService → ServiceRow → Option Str
  baseline_cost dto r =
      baseline_text (money_text (map_get synced_cost_key (apply_client_meta dto.meta r.meta).meta))
        r.cost_overridden (num.to_fixed 2 (parse r.cost))

  abbrev pub edited_cost : UpdateService → ServiceRow → Edited
  edited_cost dto r =
      edit_field same_amount synced_cost_key (baseline_cost dto r) dto.cost r.cost r.cost_overridden
        (edited_type dto r).draft

  -- The row after `data` is written.
  unfoldable pub edited_row : UpdateService → ServiceRow → ServiceRow
  edited_row dto r = record r {
    name = (edited_name dto r).value;
    name_overridden = (edited_name dto r).overridden;
    type_name = (edited_type dto r).value;
    type_overridden = (edited_type dto r).overridden;
    cost = (edited_cost dto r).value;
    cost_overridden = (edited_cost dto r).overridden;
    meta = if (edited_cost dto r).draft.dirty then (edited_cost dto r).draft.meta else r.meta;
    description = elim dto.description as (λ _. Option Str) [
      | none ↦ r.description
      | some d ↦ non_empty_text d
    ];
    currency = set_or_keep dto.currency r.currency;
    period = set_or_keep dto.period r.period;
    country_code = set_or_keep dto.country_code r.country_code;
    next_billing_at = set_or_keep dto.next_billing_at r.next_billing_at;
    is_active = set_or_keep dto.is_active r.is_active;
    active_overridden = elim dto.is_active [ none ↦ r.active_overridden | some on ↦ not on ];
    project_uuid = set_or_keep dto.project_uuid r.project_uuid;
  }
