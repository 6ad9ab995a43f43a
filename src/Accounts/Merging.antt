-- ===== src/Accounts/Merging.antt =====
-- Folding a provider into another: `mergeError`, `mergedLabels` and `mergedIdentity` of
-- provider-rules.ts. Lower case is Unicode's, so `lower` is a parameter.
pub mod Suffix
pub mod Search
pub mod Whole
use infra_billing.Base.{
  Bool, List, Option, Str, [], any, get_or_else, if◌then◌else◌, length, ltb, none, not, some,
  str_eq, suc, take_front, trim, trim_end, zero, ℕ, ◌%◌, ◌++◌, ◌+◌, ◌-◌, ◌/◌, ◌>>=◌, ◌∷◌,
}
use infra_billing.Accounts.{LabelledAccount}

pub record MergeSide : Type 0 where
  pub uuid : Str
  pub kind : Str

pub data MergeError : Type 0 where
  same_provider other_kind : MergeError

-- `mergeError`: `none` where the merge is allowed.
unfoldable pub merge_error : MergeSide → MergeSide → Option MergeError
merge_error source target =
    if str_eq source.uuid target.uuid
    then some same_provider
    else if not (str_eq source.kind target.kind)
    then some other_kind
    else none

-- The text of a number. The fuel is above the number, which has fewer digits.
unfoldable pub digits_of : ℕ → ℕ → Str
digits_of zero n = []
digits_of (suc fuel) n =
    let front = digits_of fuel (n / 10) in
    if ltb n 10 then (48 + n) ∷ [] else front ++ ((48 + n % 10) ∷ [])

abbrev pub digits : ℕ → Str
digits n = digits_of (suc n) n

-- ` (${n})`.
abbrev pub suffix : ℕ → Str
suffix n = 32 ∷ 40 ∷ (digits n ++ (41 ∷ []))

abbrev pub label_max : ℕ
label_max = 64

-- `fitLabel`. A suffix has less than 64 characters.
unfoldable pub fit_label : Str → Str → Str
unfolding trim_end
fit_label base suffix = trim_end (take_front (label_max - length suffix) base) ++ suffix

-- `taken.has(s)`.
abbrev pub has : List Str → Str → Bool
has taken s = any (str_eq s) taken

module _ (lower : Str → Str) where
  -- The labels of the target in lower case.
  abbrev pub taken_labels : List LabelledAccount → List Str
  taken_labels [] = []
  taken_labels (a ∷ rest) = elim a.label [
    | none ↦ taken_labels rest
    | some l ↦ lower l ∷ taken_labels rest
  ]

  -- The loop over n, from a label to try; `none` where the fuel ends.
  unfoldable pub label_loop : Str → List Str → ℕ → ℕ → Str → Option Str
  label_loop wanted taken zero n label = if has taken (lower label) then none else some label
  label_loop wanted taken (suc fuel) n label =
      let rest = label_loop wanted taken fuel (suc n) (fit_label wanted (suffix n)) in
      if has taken (lower label) then rest else some label

  -- What one account wants to be called.
  abbrev pub wanted_label : Str → LabelledAccount → Str
  wanted_label source_name a = trim (get_or_else a.label source_name)

  -- The label that one account gets. One round more than there are labels is enough.
  abbrev pub merged_label : Str → List Str → LabelledAccount → Option Str
  merged_label source_name taken a =
      let wanted = wanted_label source_name a in
      label_loop wanted taken (suc (length taken)) 2 (fit_label wanted [])

  unfoldable pub merge_labels_from :
      Str → List Str → List LabelledAccount → Option (List (Str × Str))
  merge_labels_from source_name taken [] = some []
  merge_labels_from source_name taken (a ∷ rest) = merged_label source_name taken a >>= λ label.
      merge_labels_from source_name (lower label ∷ taken) rest >>= λ labels.
      some ((a.uuid, label) ∷ labels)

  -- `mergedLabels`.
  unfoldable pub merged_labels :
      Str → List LabelledAccount → List LabelledAccount → Option (List (Str × Str))
  unfolding merge_labels_from label_loop
  merged_labels source_name sources targets =
      merge_labels_from source_name (taken_labels targets) sources

-- The fields of `mergedIdentity`.
pub record Identity : Type 0 where
  pub login_url : Option Str
  pub icon_name : Option Str
  pub icon_bg : Option Str
  pub favicon_link : Option Str

-- One key: it is filled where the target has none.
abbrev pub fill : Option Str → Option Str → Option Str
fill source none = source
fill source (some t) = none

-- `mergedIdentity`: the fields to write, `none` where nothing is written.
unfoldable pub merged_identity : Identity → Identity → Identity
merged_identity source target = record {
  login_url = fill source.login_url target.login_url;
  icon_name = fill source.icon_name target.icon_name;
  icon_bg = fill source.icon_bg target.icon_bg;
  favicon_link = fill source.favicon_link target.favicon_link;
}
