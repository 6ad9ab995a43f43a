-- ===== src/Tests/Merging.antt =====
-- A provider with three accounts that is folded into one with two labels.
use infra_billing.Base.{
  Bool-cases, List, Option, Str, [], ap, arith, codes, false, if◌then◌else◌, inl, inr, is_space,
  leb, ltb, map, none, refl, some, str_eq, suc, trim, trim_end, trim_start, true, zero, ℕ, ◌%◌,
  ◌&&◌, ◌++◌, ◌+◌, ◌/◌, ◌∷◌, ◌≡◌,
}
use infra_billing.Accounts.{LabelledAccount}
use infra_billing.Accounts.Merging.{
  digits_of, digits, suffix, fit_label, merged_labels, merge_labels_from, label_loop, taken_labels,
}
use infra_billing.Accounts.Merging.Whole.{
  KeepsSuffix, Fresh, Short, merged_labels-ends, merged_labels-Fresh, merged_labels-Short,
}

abbrev lower_code : ℕ → ℕ
lower_code c = if leb 65 c && leb c 90 then c + 32 else c

-- Of ASCII letters.
abbrev lower : Str → Str
lower s = map lower_code s

map-snoc : (s : Str) (c : ℕ) → lower (s ++ c ∷ []) ≡ lower s ++ lower_code c ∷ []
map-snoc [] c = refl
map-snoc (d ∷ s) c = ap (◌∷◌ (lower_code d)) (map-snoc s c)

lower_digit : (n : ℕ) → lower_code (48 + n % 10) ≡ 48 + n % 10
lower_digit n = ground arith

lower-digits_of : (fuel n : ℕ) → lower (digits_of fuel n) ≡ digits_of fuel n
unfolding digits_of
lower-digits_of zero n = refl
lower-digits_of (suc fuel) n = elim (Bool-cases (ltb n 10)) [
  | inl y ↦
      let small : lower_code (48 + n) ≡ 48 + n = ground (arith, y) in rw y (ap (λ c. c ∷ []) small)
  | inr e ↦
      rw
        (
          e,
          map-snoc (digits_of fuel (n / 10)) (48 + n % 10),
          lower-digits_of fuel (n / 10),
          lower_digit n,
        )
        refl
]

lower-append : (s t : Str) → lower (s ++ t) ≡ lower s ++ lower t
lower-append [] t = refl
lower-append (c ∷ s) t = ap (◌∷◌ (lower_code c)) (lower-append s t)

lower-KeepsSuffix : KeepsSuffix lower
lower-KeepsSuffix s n =
    rw (lower-append s (suffix n), map-snoc (digits n) 41, lower-digits_of (suc n) n) refl

abbrev account : Str → Option Str → LabelledAccount
account uuid label = record { uuid = uuid; label = label; is_enabled = true; is_postpaid = false }

abbrev targets : List LabelledAccount
targets =
    account (codes "t1") (some (codes "Veesp"))
    ∷ account (codes "t2") (some (codes "veesp (2)"))
    ∷ []

abbrev sources : List LabelledAccount
sources =
    account (codes "s1") none
    ∷ account (codes "s2") (some (codes "Work"))
    ∷ account (codes "s3") (some (codes "work "))
    ∷ []

abbrev labels : List (Str × Str)
labels =
    (codes "s1", codes "veesp (3)")
    ∷ (codes "s2", codes "Work")
    ∷ (codes "s3", codes "work (2)")
    ∷ []

merged : merged_labels lower (codes "veesp") sources targets ≡ some labels
unfolding merged_labels merge_labels_from label_loop fit_label digits_of trim trim_end trim_start
    is_space str_eq
merged = refl

merged_labels-ends_example :
    (l : List (Str × Str)) × (merged_labels lower (codes "veesp") sources targets ≡ some l)
    × (map (λ (p : Str × Str). p.0) l ≡ map (λ (a : LabelledAccount). a.uuid) sources)
merged_labels-ends_example =
    merged_labels-ends lower lower-KeepsSuffix (codes "veesp") sources targets (omega arith)

merged_labels-Fresh_example : Fresh lower (taken_labels lower targets) labels
merged_labels-Fresh_example =
    merged_labels-Fresh lower lower-KeepsSuffix (codes "veesp") sources targets (omega arith) labels
      merged

merged_labels-Short_example : Short labels
merged_labels-Short_example =
    merged_labels-Short lower lower-KeepsSuffix (codes "veesp") sources targets (omega arith) labels
      merged
