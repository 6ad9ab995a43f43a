-- ===== src/Accounts/Merging/Whole.antt =====
-- `mergedLabels` of provider-rules.ts: the labels that the accounts of a folded provider get.
use infra_billing.Base.{
  All, List, Str, [], ap, arith, false, if◌then◌else◌, is_space, length, length-append, map, refl,
  some, subst, suc, sym, take_front, trim_end, zero, ℕ, ◌++◌, ◌+◌, ◌-◌, ◌<◌, ◌∙◌, ◌∷◌, ◌≡◌, ◌≤◌,
}
use Prim.Native.Nat.{◌^◌}
use infra_billing.Accounts.{LabelledAccount}
use infra_billing.Accounts.Merging.{
  has, digits, suffix, fit_label, label_max, merged_label, merge_labels_from, merged_labels,
  wanted_label, taken_labels,
}
use infra_billing.Accounts.Merging.Suffix.{suffix-injective, length-digits_of}
use infra_billing.Accounts.Merging.Search.{free_candidate, label_loop-ends}

-- Lower case leaves a space, brackets and digits alone, and what stands before them too.
abbrev pub KeepsSuffix : (Str → Str) → Type 0
KeepsSuffix lower = (s : Str) (n : ℕ) → lower (s ++ suffix n) ≡ lower s ++ suffix n

-- The labels are not in the set, nor is one of them the label of an earlier account.
abbrev pub Fresh : (Str → Str) → List Str → List (Str × Str) → Type 0
Fresh lower taken [] = Unit
Fresh lower taken ((uuid, l) ∷ rest) =
    (has taken (lower l) ≡ false) × Fresh lower (lower l ∷ taken) rest

abbrev pub Short : List (Str × Str) → Type 0
Short labels = All (λ (l : Str × Str). length l.1 ≤ label_max) labels

length-take_front : (n : ℕ) (s : Str) → length (take_front n s) ≤ n
length-take_front zero s = omega arith
length-take_front (suc n) [] = omega arith
length-take_front (suc n) (c ∷ s) = omega (arith, length-take_front n s)

length-trim_end : (s : Str) → length (trim_end s) ≤ length s
unfolding trim_end
length-trim_end [] = omega arith
length-trim_end (c ∷ s) = go (trim_end s) (length-trim_end s)
  where
    go :
        (t : Str)
        → length t ≤ length s
        → length (elim t [ [] ↦ if is_space c then [] else c ∷ [] | d ∷ ds ↦ c ∷ d ∷ ds ])
          ≤ suc (length s)
    go [] h = ground (arith, h)
    go (d ∷ ds) h = omega (arith, h)

length-fit_label :
    (base sfx : Str) → length sfx ≤ label_max → length (fit_label base sfx) ≤ label_max
unfolding fit_label
length-fit_label base sfx h =
    let front = take_front (label_max - length sfx) base in
    omega (
      arith,
      length-append (trim_end front) sfx,
      length-trim_end front,
      length-take_front (label_max - length sfx) base,
      h,
    )

length-suffix : (n : ℕ) → n < 10 ^ 60 → length (suffix n) ≤ label_max
length-suffix n h =
    omega (arith, length-append (digits n) (41 ∷ []), length-digits_of 59 (suc n) n h)

module _ (lower : Str → Str) (keeps : KeepsSuffix lower) where
  candidates_differ :
      (wanted : Str) (n m : ℕ)
      → lower (fit_label wanted (suffix n)) ≡ lower (fit_label wanted (suffix m))
      → n ≡ m
  unfolding fit_label
  candidates_differ wanted n m e =
      let front = λ (k : ℕ). trim_end (take_front (label_max - length (suffix k)) wanted) in
      suffix-injective (lower (front n)) (lower (front m)) n m
        (sym (keeps (front n) n) ∙ e ∙ keeps (front m) m)

  merged_label-ends :
      (source_name : Str) (taken : List Str) (a : LabelledAccount)
      → length taken + 3 < 10 ^ 60
      → (l : Str) × (merged_label lower source_name taken a ≡ some l)
        × (has taken (lower l) ≡ false)
        × (length l ≤ label_max)
  merged_label-ends source_name taken a h =
      let wanted = wanted_label lower source_name a in
      let (i, above, below, free) =
        free_candidate (λ n. lower (fit_label wanted (suffix n))) (candidates_differ wanted)
          (suc (length taken)) 2 taken (omega arith) in
      label_loop-ends lower (λ l. length l ≤ label_max) wanted taken (suc (length taken)) 2
        (fit_label wanted []) i (length-fit_label wanted [] (omega arith))
        (λ j below_j.
          length-fit_label wanted (suffix j) (length-suffix j (omega (arith, h, below_j))))
        above below free

  merge_labels_from-ends :
      (source_name : Str) (taken : List Str) (sources : List LabelledAccount)
      → length taken + length sources + 3 < 10 ^ 60
      → (labels : List (Str × Str)) × (merge_labels_from lower source_name taken sources
          ≡ some labels)
        × (map (λ (l : Str × Str). l.0) labels ≡ map (λ (a : LabelledAccount). a.uuid) sources)
        × Fresh lower taken labels
        × Short labels
  unfolding merge_labels_from
  merge_labels_from-ends source_name taken [] h = ([], refl, refl, tt, tt)
  merge_labels_from-ends source_name taken (a ∷ rest) h =
      let (l, ends, free, short) = merged_label-ends source_name taken a (omega (arith, h)) in
      let (labels, all_end, uuids, fresh, all_short) =
        merge_labels_from-ends source_name (lower l ∷ taken) rest (omega (arith, h)) in
      (
        (a.uuid, l) ∷ labels,
        rw (ends, all_end) refl,
        ap (◌∷◌ a.uuid) uuids,
        (free, fresh),
        (short, all_short),
      )

-- The search for free labels ends: `mergedLabels` gives each account of the source, in their order,
-- one label, whatever the labels are. Lower case keeps the suffixes, and there are fewer than about
-- 10 ^ 60 labels.
pub merged_labels-ends :
    (lower : Str → Str) (keeps : KeepsSuffix lower) (source_name : Str)
    (sources targets : List LabelledAccount)
    → length (taken_labels lower targets) + length sources + 3 < 10 ^ 60
    → (labels : List (Str × Str)) × (merged_labels lower source_name sources targets ≡ some labels)
      × (map (λ (l : Str × Str). l.0) labels ≡ map (λ (a : LabelledAccount). a.uuid) sources)
unfolding merged_labels
merged_labels-ends lower keeps source_name sources targets h =
    let (labels, ends, uuids, fresh, short) =
      merge_labels_from-ends lower keeps source_name (taken_labels lower targets) sources h in
    (labels, ends, uuids)

some-injective : {A : Type 0} {x y : A} → some x ≡ some y → x ≡ y
some-injective h = cc

-- No account gets a label that the target or an earlier account has, in lower case. Lower case
-- keeps the suffixes, and there are fewer than about 10 ^ 60 labels.
pub merged_labels-Fresh :
    (lower : Str → Str) (keeps : KeepsSuffix lower) (source_name : Str)
    (sources targets : List LabelledAccount)
    → length (taken_labels lower targets) + length sources + 3 < 10 ^ 60
    → (labels : List (Str × Str)) → merged_labels lower source_name sources targets ≡ some labels
    → Fresh lower (taken_labels lower targets) labels
unfolding merged_labels
merged_labels-Fresh lower keeps source_name sources targets h labels e =
    let (found, ends, uuids, fresh, short) =
      merge_labels_from-ends lower keeps source_name (taken_labels lower targets) sources h in
    subst (Fresh lower (taken_labels lower targets)) (some-injective (sym ends ∙ e)) fresh

-- A label after the merge has at most 64 code units, the limit of an account's label, so that the
-- account can be edited. Lower case keeps the suffixes, and there are fewer than about 10 ^ 60
-- labels.
pub merged_labels-Short :
    (lower : Str → Str) (keeps : KeepsSuffix lower) (source_name : Str)
    (sources targets : List LabelledAccount)
    → length (taken_labels lower targets) + length sources + 3 < 10 ^ 60
    → (labels : List (Str × Str)) → merged_labels lower source_name sources targets ≡ some labels
    → Short labels
unfolding merged_labels
merged_labels-Short lower keeps source_name sources targets h labels e =
    let (found, ends, uuids, fresh, short) =
      merge_labels_from-ends lower keeps source_name (taken_labels lower targets) sources h in
    subst Short (some-injective (sym ends ∙ e)) short
