-- ===== src/Accounts/Removal.antt =====
-- `remove` of provider-accounts.service.ts, with `deleteUnlessLast`.
use infra_billing.Base.{
  Bool, Bool-cases, List, Option-cases, Str, [], any, arith, false, filter, find, inl, inr, leb,
  length, not, refl, some, str_eq→eq, sym, ◌+◌, ◌<◌, ◌∙◌, ◌∷◌, ◌≡◌, ◌≤◌,
}
use infra_billing.Base.Results.{ok}
use infra_billing.Accounts.{LabelledAccount, has_uuid, has_label, remove_account}
use infra_billing.Accounts.Keeps.{patched-ok}
use infra_billing.Accounts.Labels.{OwnUuids, OwnLabels}

abbrev pub others : Str → List LabelledAccount → List LabelledAccount
others uuid accounts = filter (λ (a : LabelledAccount). not (has_uuid uuid a)) accounts

length-none :
    (uuid : Str) (accounts : List LabelledAccount)
    → any (has_uuid uuid) accounts ≡ false
    → length (others uuid accounts) ≡ length accounts
length-none uuid [] h = refl
length-none uuid (a ∷ rest) h = ground (arith, length-none uuid rest)

any-others :
    (q : LabelledAccount → Bool) (uuid : Str) (accounts : List LabelledAccount)
    → any q accounts ≡ false
    → any q (others uuid accounts) ≡ false
any-others q uuid [] h = refl
any-others q uuid (a ∷ rest) h = ground (arith, any-others q uuid rest)

module _ (lower : Str → Str) where
  length-others :
      (uuid : Str) (accounts : List LabelledAccount)
      → OwnUuids lower accounts
      → length accounts ≤ length (others uuid accounts) + 1
  length-others uuid [] u = omega arith
  length-others uuid (a ∷ rest) u = elim (Bool-cases (has_uuid uuid a)) [
    | inl y ↦
        let e = str_eq→eq a.uuid uuid y in
        let n = length-none uuid rest (rw (← e) u.0) in rw y (omega (arith, n))
    | inr m ↦ let ih = length-others uuid rest u.1 in rw m (omega (arith, ih))
  ]

  others-OwnLabels :
      (uuid : Str) (accounts : List LabelledAccount)
      → OwnLabels lower accounts
      → OwnLabels lower (others uuid accounts)
  others-OwnLabels uuid [] o = tt
  others-OwnLabels uuid (a ∷ rest) o = elim (Bool-cases (has_uuid uuid a)) [
    | inl y ↦ rw y (others-OwnLabels uuid rest o.1)
    | inr n ↦
        rw n (any-others (has_label lower a.label) uuid rest o.0, others-OwnLabels uuid rest o.1)
  ]

  any-gone :
      (uuid : Str) (accounts : List LabelledAccount)
      → any (has_uuid uuid) (others uuid accounts) ≡ false
  any-gone uuid [] = refl
  any-gone uuid (a ∷ rest) = ground (arith, any-gone uuid rest)

  kept-ok :
      (uuid : Str) (accounts : List LabelledAccount) (x : LabelledAccount)
      → find (has_uuid uuid) accounts ≡ some x
      → leb (length accounts) 1 ≡ false
      → remove_account uuid accounts ≡ ok (others uuid accounts)
  unfolding remove_account
  kept-ok uuid accounts x e n = rw (e, remove_account, n) refl

  removed :
      (uuid : Str) (accounts t : List LabelledAccount)
      → remove_account uuid accounts ≡ ok t
      → (t ≡ others uuid accounts) × (1 < length accounts)
  unfolding remove_account
  removed uuid accounts t h = elim (Option-cases (find (has_uuid uuid) accounts)) [
    | inl e ↦ absurd (ground (arith, e))
    | inr (x, e) ↦ elim (Bool-cases (leb (length accounts) 1)) [
      | inl y ↦ absurd (ground (arith, e, y))
      | inr n ↦ (patched-ok (sym h ∙ kept-ok uuid accounts x e n), ground (arith, n))
    ]
  ]

  -- Removing an account of a provider removes it, keeps the labels of the others different, and
  -- leaves at least one account: the last one cannot be removed.
  pub remove_account-leaves :
      (uuid : Str) (accounts t : List LabelledAccount)
      → OwnUuids lower accounts
      → OwnLabels lower accounts
      → remove_account uuid accounts ≡ ok t
      → (any (has_uuid uuid) t ≡ false) × OwnLabels lower t × (0 < length t)
  remove_account-leaves uuid accounts t u o h =
      let (p, n) = removed uuid accounts t h in
      let m = length-others uuid accounts u in
      rw p (any-gone uuid accounts, others-OwnLabels uuid accounts o, omega (arith, m, n))
