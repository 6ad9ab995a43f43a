-- ===== src/Accounts/Keeps.antt =====
-- `update` of provider-accounts.service.ts, and the labels of the accounts.
use infra_billing.Base.{
  Bool, Bool-cases, List, Option, Option-cases, Str, [], any, arith, false, find, inl, inr, length,
  none, opt_eq, refl, some, str_eq→eq, sym, true, ◌∙◌, ◌∷◌, ◌≡◌,
}
use infra_billing.Base.Results.{Result, ok}
use infra_billing.Accounts.{
  patched_account, LabelledAccount, label_key, has_label, has_uuid, change_account, update_account,
  label_taken, AccountError, UpdateAccount, ok, clashes, patched_account,
}
use infra_billing.Accounts.Labels.{OwnLabels, taken, opt_eq_comm, OwnUuids, change-OwnLabels}

abbrev Change : Type 0
Change = LabelledAccount → LabelledAccount

pub patched-ok :
    {x y : List LabelledAccount}
    → ◌≡◌ {A = Result AccountError (List LabelledAccount)} (ok x) (ok y)
    → x ≡ y
patched-ok h = cc

opt_eq-eq : (a b : Option Str) → opt_eq a b ≡ true → a ≡ b
opt_eq-eq none none h = refl
opt_eq-eq none (some t) h = absurd (ground (arith, h))
opt_eq-eq (some s) none h = absurd (ground (arith, h))
opt_eq-eq (some s) (some t) h = rw (str_eq→eq s t h) refl

any-change :
    (q : LabelledAccount → Bool) (uuid : Str) (f : Change) (accounts : List LabelledAccount)
    → ((a : LabelledAccount) → q (f a) ≡ q a)
    → any q (change_account uuid f accounts) ≡ any q accounts
any-change q uuid f [] g = refl
any-change q uuid f (a ∷ rest) g = ground (arith, any-change q uuid f rest g, g a)

length-change :
    (uuid : Str) (f : Change) (accounts : List LabelledAccount)
    → length (change_account uuid f accounts) ≡ length accounts
length-change uuid f [] = refl
length-change uuid f (a ∷ rest) = ground (arith, length-change uuid f rest)

-- Where a test finds nobody, it fails on whom another test finds.
find-not :
    (p q : LabelledAccount → Bool) (accounts : List LabelledAccount) (e : LabelledAccount)
    → find p accounts ≡ some e
    → any q accounts ≡ false
    → q e ≡ false
find-not p q [] e h n = absurd (ground (arith, h))
find-not p q (a ∷ rest) e h n = elim (Bool-cases (p a)) [
  | inl y ↦ let k : some a ≡ some e = sym (rw y refl) ∙ h in any-head q a rest e k n
  | inr m ↦ find-not p q rest e (sym (rw m refl) ∙ h) (ground arith)
]
  where
    any-head :
        (q : LabelledAccount → Bool) (a : LabelledAccount) (rest : List LabelledAccount)
        → (e : LabelledAccount) → some a ≡ some e
        → any q (a ∷ rest) ≡ false
        → q e ≡ false
    any-head q a rest e k n = let m : q a ≡ false = ground (arith, n) in cc

module _ (lower : Str → Str) where
  any-taken :
      (uuid : Str) (label : Option Str) (accounts : List LabelledAccount)
      → any (has_label lower label) accounts ≡ false
      → taken lower uuid label accounts ≡ false
  any-taken uuid label [] h = refl
  any-taken uuid label (a ∷ rest) h = ground (arith, any-taken uuid label rest)

  own-first :
      (a e : LabelledAccount) (rest : List LabelledAccount)
      → a ≡ e
      → any (has_label lower a.label) rest ≡ false
      → any (has_label lower e.label) rest ≡ false
  own-first a e rest m h = rw (← m) h

  -- Nobody else has the label of an account.
  taken-own :
      (uuid : Str) (accounts : List LabelledAccount) (e : LabelledAccount)
      → OwnLabels lower accounts
      → find (has_uuid uuid) accounts ≡ some e
      → taken lower uuid e.label accounts ≡ false
  taken-own uuid [] e o h = refl
  taken-own uuid (a ∷ rest) e o h = elim (Bool-cases (has_uuid uuid a)) [
    | inl y ↦
        let k : some a ≡ some e = sym (rw y refl) ∙ h in
        let m : a ≡ e = cc in rw y (any-taken uuid e.label rest (own-first a e rest m o.0))
    | inr n ↦
        let h2 : find (has_uuid uuid) rest ≡ some e = sym (rw n refl) ∙ h in
        let ih = taken-own uuid rest e o.1 h2 in
        let d = find-not (has_uuid uuid) (has_label lower a.label) rest e h2 o.0 in
        rw (n, opt_eq_comm (label_key lower a.label) (label_key lower e.label), d) ih
  ]

  change-OwnUuids :
      (uuid : Str) (f : Change) (accounts : List LabelledAccount)
      → ((a : LabelledAccount) → (f a).uuid ≡ a.uuid)
      → OwnUuids lower accounts
      → OwnUuids lower (change_account uuid f accounts)
  change-OwnUuids uuid f [] g u = tt
  change-OwnUuids uuid f (a ∷ rest) g u =
      let same = λ (v : Str). any-change (has_uuid v) uuid f rest (λ b. rw (g b) refl) in
      elim (Bool-cases (has_uuid uuid a)) [
        | inl y ↦ rw y (rw (g a) (same a.uuid ∙ u.0), change-OwnUuids uuid f rest g u.1)
        | inr n ↦ rw n (same a.uuid ∙ u.0, change-OwnUuids uuid f rest g u.1)
      ]

  same-OwnLabels :
      (uuid : Str) (f : Change) (accounts : List LabelledAccount)
      → ((a : LabelledAccount) → (f a).label ≡ a.label)
      → OwnLabels lower accounts
      → OwnLabels lower (change_account uuid f accounts)
  same-OwnLabels uuid f [] g o = tt
  same-OwnLabels uuid f (a ∷ rest) g o =
      let same =
        λ (l : Option Str). any-change (has_label lower l) uuid f rest (λ b. rw (g b) refl) in
      elim (Bool-cases (has_uuid uuid a)) [
        | inl y ↦ rw y (rw (g a) (same a.label ∙ o.0), same-OwnLabels uuid f rest g o.1)
        | inr n ↦ rw n (same a.label ∙ o.0, same-OwnLabels uuid f rest g o.1)
      ]

  relabelled :
      (uuid : Str) (dto : UpdateAccount) (existing : LabelledAccount)
      → (accounts : List LabelledAccount) (given : Option (Option Str)) → dto.label ≡ given
      → find (has_uuid uuid) accounts ≡ some existing
      → clashes lower uuid dto existing accounts ≡ false
      → OwnUuids lower accounts
      → OwnLabels lower accounts
      → OwnLabels lower (change_account uuid (patched_account dto) accounts)
  unfolding label_taken
  relabelled uuid dto existing accounts none p h c u o =
      same-OwnLabels uuid (patched_account dto) accounts (λ a. rw p refl) o
  relabelled uuid dto existing accounts (some label) p h c u o =
      change-OwnLabels lower uuid (patched_account dto) label accounts (λ a. rw p refl) u o
        (elim (Bool-cases (opt_eq label existing.label)) [
          | inl y ↦ rw (opt_eq-eq label existing.label y) (taken-own uuid accounts existing o h)
          | inr n ↦ sym (rw (p, n) refl) ∙ c
        ])

  updated :
      (uuid : Str) (dto : UpdateAccount) (accounts : List LabelledAccount) (x : LabelledAccount)
      → find (has_uuid uuid) accounts ≡ some x
      → clashes lower uuid dto x accounts ≡ false
      → update_account lower uuid dto accounts
        ≡ ok (change_account uuid (patched_account dto) accounts)
  unfolding update_account
  updated uuid dto accounts x e n = rw (e, update_account, n) refl

  -- A patch of one account of a provider that succeeds keeps the accounts' uuids and labels
  -- different, the labels in lower case, and adds and removes no account.
  pub update_account-OwnLabels :
      (uuid : Str) (dto : UpdateAccount) (accounts t : List LabelledAccount)
      → OwnUuids lower accounts
      → OwnLabels lower accounts
      → update_account lower uuid dto accounts ≡ ok t
      → OwnUuids lower t × OwnLabels lower t × (length t ≡ length accounts)
  unfolding update_account
  update_account-OwnLabels uuid dto accounts t u o h =
      elim (Option-cases (find (has_uuid uuid) accounts)) [
        | inl e ↦ absurd (ground (arith, e))
        | inr (x, e) ↦ elim (Bool-cases (clashes lower uuid dto x accounts)) [
          | inl y ↦ absurd (ground (arith, e, y))
          | inr n ↦
              let k : ◌≡◌ {A = Result AccountError (List LabelledAccount)}
                  (ok (change_account uuid (patched_account dto) accounts)) (ok t) =
                sym (updated uuid dto accounts x e n) ∙ h in
              rw (← patched-ok k) (
                change-OwnUuids uuid (patched_account dto) accounts (λ a. refl) u,
                relabelled uuid dto x accounts dto.label refl e n u o,
                length-change uuid (patched_account dto) accounts,
              )
        ]
      ]
