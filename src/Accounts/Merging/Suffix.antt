-- ===== src/Accounts/Merging/Suffix.antt =====
-- The suffixes of merged labels are different: provider-rules.ts.
use infra_billing.Base.{
  Bool, Bool-cases, Option, Str, [], any, ap, arith, false, if◌then◌else◌, inl, inr, length,
  length-append, ltb, none, refl, some, suc, sym, true, zero, ℕ, ◌%◌, ◌*◌, ◌++◌, ◌+◌, ◌-◌, ◌/◌, ◌<◌,
  ◌==◌, ◌∙◌, ◌∷◌, ◌≡◌, ◌≤◌,
}
use Prim.Native.Nat.{◌^◌}
use mathlib.Core.List.{append_assoc}
use infra_billing.Accounts.Merging.{digits_of, digits, suffix}

-- The number that digits spell behind `n`.
abbrev value : ℕ → Str → ℕ
value n [] = n
value n (c ∷ s) = value (n * 10 + (c - 48)) s

value-snoc : (n d : ℕ) (s : Str) → value n (s ++ (d ∷ [])) ≡ value n s * 10 + (d - 48)
value-snoc n d [] = refl
value-snoc n d (c ∷ s) = value-snoc (n * 10 + (c - 48)) d s

value-digits_of : (fuel n : ℕ) → n < fuel → value 0 (digits_of fuel n) ≡ n
unfolding digits_of
value-digits_of zero n h = absurd (omega (arith, h))
value-digits_of (suc fuel) n h = elim (Bool-cases (ltb n 10)) [
  | inl y ↦ rw y (omega arith)
  | inr e ↦ rw e (
      rw (value-snoc 0 (48 + n % 10) (digits_of fuel (n / 10)))
        (rw (value-digits_of fuel (n / 10) (ground (arith, h, e))) (omega arith)))
]

-- The text after the last bracket that opens.
abbrev after_open : Str → Option Str
after_open [] = none
after_open (c ∷ s) = elim (after_open s) [
  | none ↦ if c == 40 then some s else none
  | some r ↦ some r
]

abbrev opens : Str → Bool
opens s = any (λ c. c == 40) s

after_open-none : (s : Str) → opens s ≡ false → after_open s ≡ none
after_open-none [] h = refl
after_open-none (c ∷ s) h = rw (after_open-none s (ground (arith, h))) (ground (arith, h))

after_open-append : (s r : Str) → opens r ≡ false → after_open (s ++ (40 ∷ r)) ≡ some r
after_open-append [] r h = rw (after_open-none r h) refl
after_open-append (c ∷ s) r h = rw (after_open-append s r h) refl

opens-snoc : (s : Str) (d : ℕ) → opens s ≡ false → (d == 40) ≡ false → opens (s ++ (d ∷ [])) ≡ false
opens-snoc [] d h k = ground (arith, k)
opens-snoc (c ∷ s) d h k = ground (arith, opens-snoc s d, k, h)

opens-digits_of : (fuel n : ℕ) → opens (digits_of fuel n) ≡ false
unfolding digits_of
opens-digits_of zero n = refl
opens-digits_of (suc fuel) n = elim (Bool-cases (ltb n 10)) [
  | inl y ↦ rw y (ground arith)
  | inr e ↦ rw e (
      opens-snoc (digits_of fuel (n / 10)) (48 + n % 10) (opens-digits_of fuel (n / 10))
        (ground arith))
]

after_open-suffix : (s : Str) (n : ℕ) → after_open (s ++ suffix n) ≡ some (digits n ++ (41 ∷ []))
after_open-suffix s n = rw (← append_assoc s (32 ∷ []) (40 ∷ (digits n ++ (41 ∷ [])))) (
    after_open-append (s ++ (32 ∷ [])) (digits n ++ (41 ∷ []))
      (opens-snoc (digits n) 41 (opens-digits_of (suc n) n) refl))

closed : ℕ → Option Str → ℕ
closed d none = d
closed d (some s) = value 0 s

-- Two texts that end in suffixes are different where the numbers are.
pub suffix-injective : (s t : Str) (n m : ℕ) → s ++ suffix n ≡ t ++ suffix m → n ≡ m
unfolding closed
suffix-injective s t n m e =
    let same : closed 0 (some (digits n ++ (41 ∷ []))) ≡ closed 0 (some (digits m ++ (41 ∷ []))) =
      ap (closed 0) (sym (after_open-suffix s n) ∙ ap after_open e ∙ after_open-suffix t m) in
    omega (
      arith,
      same,
      value-snoc 0 41 (digits n),
      value-snoc 0 41 (digits m),
      value-digits_of (suc n) n (omega arith),
      value-digits_of (suc m) m (omega arith),
    )

pow_step : (k : ℕ) → 10 ^ suc k ≡ 10 ^ k * 10
pow_step k = omega arith

pub length-digits_of : (k fuel n : ℕ) → n < 10 ^ suc k → length (digits_of fuel n) ≤ suc k
unfolding digits_of
length-digits_of k zero n h = omega arith
length-digits_of zero (suc fuel) n h =
    let small : ltb n 10 ≡ true = ground (arith, h) in rw small (omega arith)
length-digits_of (suc k) (suc fuel) n h = elim (Bool-cases (ltb n 10)) [
  | inl y ↦ rw y (omega arith)
  | inr e ↦ rw e (
      omega (
        arith,
        length-append (digits_of fuel (n / 10)) ((48 + n % 10) ∷ []),
        length-digits_of k fuel (n / 10) (omega (arith, h, pow_step (suc k))),
      ))
]
