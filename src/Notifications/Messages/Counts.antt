-- ===== src/Notifications/Messages/Counts.antt =====
-- Counting the markup of a text: notifications/messages.ts.
use infra_billing.Base.{
  Bool-cases, List, Str, [], arith, codes, if◌then◌else◌, inl, inr, ltb, refl, suc, zero, ℕ, ◌%◌,
  ◌++◌, ◌+◌, ◌/◌, ◌==◌, ◌∷◌, ◌≡◌,
}
use infra_billing.Accounts.Merging.{digits_of, digits}
use infra_billing.Notifications.Messages.{
  Part, markup, field, replace_unit, esc, part_text, message, ru_days, when_label, runway_label,
  ago_label_ru, units,
}

-- How often a code unit stands in a text.
abbrev pub count : ℕ → Str → ℕ
count c [] = 0
count c (d ∷ s) = if d == c then suc (count c s) else count c s

pub count-append : (c : ℕ) (s t : Str) → count c (s ++ t) ≡ count c s + count c t
count-append c [] t = omega arith
count-append c (d ∷ s) t = ground (arith, count-append c s t)

-- A replacement removes its unit, and adds none that its text does not have.
count-replace_own : (c : ℕ) (text s : Str) → count c text ≡ 0 → count c (replace_unit c text s) ≡ 0
unfolding replace_unit
count-replace_own c text [] h = refl
count-replace_own c text (d ∷ s) h =
    ground (arith, count-replace_own c text s h, count-append c text (replace_unit c text s), h)

count-replace_other :
    (c d : ℕ) (text s : Str)
    → count d text ≡ 0
    → count d s ≡ 0
    → count d (replace_unit c text s) ≡ 0
unfolding replace_unit
count-replace_other c d text [] h k = refl
count-replace_other c d text (e ∷ s) h k =
    ground
      (arith, count-replace_other c d text s h, count-append d text (replace_unit c text s), h, k)

-- An escaped text has no angle bracket.
count-esc : (s : Str) → (count 60 (esc s) ≡ 0) × (count 62 (esc s) ≡ 0)
unfolding esc
count-esc s =
    let amp = replace_unit 38 (codes "&amp;") s in
    let lt = replace_unit 60 (codes "&lt;") amp in
    (
      count-replace_other 62 60 (codes "&gt;") lt refl
          (count-replace_own 60 (codes "&lt;") amp refl),
      count-replace_own 62 (codes "&gt;") lt refl,
    )

-- The angle brackets of the literals.
abbrev pub tags : List Part → ℕ
tags [] = 0
tags (markup s ∷ rest) = count 60 s + tags rest
tags (field s ∷ rest) = tags rest

pub tags-append : (p q : List Part) → tags (p ++ q) ≡ tags p + tags q
tags-append [] q = omega arith
tags-append (markup s ∷ rest) q = omega (arith, tags-append rest q)
tags-append (field s ∷ rest) q = tags-append rest q

pub count-message : (parts : List Part) → count 60 (message parts) ≡ tags parts
unfolding part_text
count-message [] = refl
count-message (markup s ∷ rest) =
    omega (arith, count-append 60 s (message rest), count-message rest)
count-message (field s ∷ rest) =
    omega (arith, count-append 60 (esc s) (message rest), count-message rest, (count-esc s).0)

count-digits_of : (fuel n : ℕ) → count 60 (digits_of fuel n) ≡ 0
unfolding digits_of
count-digits_of zero n = refl
count-digits_of (suc fuel) n = elim (Bool-cases (ltb n 10)) [
  | inl y ↦ rw y (ground arith)
  | inr e ↦ rw e (
      ground (
        arith,
        count-append 60 (digits_of fuel (n / 10)) ((48 + n % 10) ∷ []),
        count-digits_of fuel (n / 10),
      ))
]

count-ru_days : (n : ℕ) → count 60 (ru_days n) ≡ 0
unfolding ru_days
count-ru_days n = ground arith

count-numbered :
    (s : Str) (n : ℕ) → count 60 s ≡ 0 → count 60 (s ++ digits n ++ codes " " ++ ru_days n) ≡ 0
count-numbered s n h = omega (
  arith,
  count-append 60 (s ++ digits n ++ codes " ") (ru_days n),
  count-append 60 (s ++ digits n) (codes " "),
  count-append 60 s (digits n),
  count-digits_of (suc n) n,
  count-ru_days n,
  h,
)

pub count-when_label : (n : ℕ) → count 60 (when_label n) ≡ 0
unfolding when_label
count-when_label n = elim (Bool-cases (n == 0)) [
  | inl y ↦ rw y refl
  | inr e ↦ elim (Bool-cases (n == 1)) [
    | inl y ↦ rw (e, y) refl
    | inr m ↦ rw (e, m) (count-numbered (units "через ") n refl)
  ]
]

pub count-runway_label : (n : ℕ) → count 60 (runway_label n) ≡ 0
unfolding runway_label
count-runway_label n = elim (Bool-cases (n == 0)) [
  | inl y ↦ rw y refl
  | inr e ↦ rw e (count-numbered (codes "~") n refl)
]

pub count-ago_label_ru : (n : ℕ) → count 60 (ago_label_ru n) ≡ 0
unfolding ago_label_ru
count-ago_label_ru n = elim (Bool-cases (n == 1)) [
  | inl y ↦ rw y refl
  | inr e ↦ rw e (
      omega (
        arith,
        count-append 60 (digits n ++ codes " " ++ ru_days n) (units " назад"),
        count-numbered [] n refl,
      ))
]
