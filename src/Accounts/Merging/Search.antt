-- ===== src/Accounts/Merging/Search.antt =====
-- The loop of `mergedLabels` ends: provider-rules.ts.
use infra_billing.Base.{
  ==_iff, Bool-cases, List, Str, [], arith, false, filter, inl, inr, length, not, refl, some,
  str_eq, str_eq_iff, str_eq→eq, subst, suc, sym, true, zero, ℕ, ◌+◌, ◌<◌, ◌==◌, ◌∷◌, ◌≡◌, ◌≤◌,
}
use infra_billing.Accounts.Merging.{has, suffix, fit_label, label_loop}

-- The set without one label.
abbrev without : Str → List Str → List Str
without s taken = filter (λ t. not (str_eq s t)) taken

length-without : (s : Str) (taken : List Str) → length (without s taken) ≤ length taken
length-without s [] = omega arith
length-without s (t ∷ taken) = ground (arith, length-without s taken)

length-without_has :
    (s : Str) (taken : List Str) → has taken s ≡ true → length (without s taken) < length taken
length-without_has s [] h = absurd (ground (arith, h))
length-without_has s (t ∷ taken) h =
    ground (arith, length-without_has s taken, length-without s taken)

has-without :
    (s t : Str) (taken : List Str)
    → has (without s taken) t ≡ false
    → str_eq s t ≡ false
    → has taken t ≡ false
has-without s t [] h e = refl
has-without s t (u ∷ taken) h e =
    ground (arith, has-without s t taken, str_eq_iff s u, str_eq_iff t u, str_eq_iff s t)

str_eq-different : (s t : Str) → (s ≡ t → str_eq s t ≡ false) → str_eq s t ≡ false
str_eq-different s t h = elim (Bool-cases (str_eq s t)) [ inl y ↦ h (str_eq→eq s t y) | inr n ↦ n ]

-- Among different candidates, more than there are labels, one is free.
pub free_candidate :
    (candidate : ℕ → Str) (different : (n m : ℕ) → candidate n ≡ candidate m → n ≡ m) (k n : ℕ)
    (taken : List Str)
    → length taken < k
    → (i : ℕ) × (n ≤ i) × (i < n + k) × (has taken (candidate i) ≡ false)
free_candidate candidate different zero n taken h = absurd (omega (arith, h))
free_candidate candidate different (suc k) n taken h = elim (Bool-cases (has taken (candidate n))) [
  | inr e ↦ (n, omega arith, omega arith, e)
  | inl y ↦
      let (i, above, below, free) =
        free_candidate candidate different k (suc n) (without (candidate n) taken)
          (omega (arith, h, length-without_has (candidate n) taken y)) in
      (
        i,
        omega (arith, above),
        omega (arith, below),
        has-without (candidate n) (candidate i) taken free (
            str_eq-different (candidate n) (candidate i)
              (λ e. absurd (omega (arith, above, different n i e)))),
      )
]

module _ (lower : Str → Str) where
  label_loop-free :
      (wanted : Str) (taken : List Str) (fuel n : ℕ) (label : Str)
      → has taken (lower label) ≡ false
      → label_loop lower wanted taken fuel n label ≡ some label
  unfolding label_loop
  label_loop-free wanted taken zero n label free = rw free refl
  label_loop-free wanted taken (suc fuel) n label free = rw free refl

  -- The loop gives a label that is free, where one of the candidates ahead is, and what holds of
  -- every candidate holds of the label.
  pub label_loop-ends :
      (Q : Str → Type 0) (wanted : Str) (taken : List Str) (fuel n : ℕ) (label : Str) (i : ℕ)
      → Q label
      → ((j : ℕ) → j < n + fuel → Q (fit_label wanted (suffix j)))
      → n ≤ i
      → i < n + fuel
      → has taken (lower (fit_label wanted (suffix i))) ≡ false
      → (l : Str) × (label_loop lower wanted taken fuel n label ≡ some l)
        × (has taken (lower l) ≡ false)
        × Q l
  unfolding label_loop
  label_loop-ends Q wanted taken zero n label i q qs above below free =
      absurd (omega (arith, above, below))
  label_loop-ends Q wanted taken (suc fuel) n label i q qs above below free =
      let next = fit_label wanted (suffix n) in
      elim (Bool-cases (has taken (lower label))) [
        | inr e ↦ (label, rw e refl, e, q)
        | inl y ↦ elim (Bool-cases (n == i)) [
          | inl same ↦
              let fits : has taken (lower next) ≡ false =
                subst (λ j. has taken (lower (fit_label wanted (suffix j))) ≡ false)
                  (sym ((==_iff n i).0 same)) free in
              (
                next,
                rw y (label_loop-free wanted taken fuel (suc n) next fits),
                fits,
                qs n (omega arith),
              )
          | inr other ↦
              let (l, ends, fits, ql) =
                label_loop-ends Q wanted taken fuel (suc n) next i (qs n (omega arith))
                  (λ j below_j. qs j (omega (arith, below_j))) (ground (arith, above, other))
                  (omega (arith, below)) free in
              (l, rw y ends, fits, ql)
        ]
      ]
