-- ===== src/Accounts/Labels.antt =====
-- The labels and the uuids of the accounts of a provider, and a change of one of them.
use infra_billing.Base.{
  Bool, Bool-cases, List, Option, Str, [], any, arith, false, inl, inr, none, not, opt_eq, refl,
  some, str_eq, str_eq_iff, str_eq→eq, ◌&&◌, ◌∙◌, ◌∷◌, ◌≡◌,
}
use infra_billing.Accounts.{LabelledAccount, has_label, has_uuid, change_account, label_key}

pub opt_eq_comm : (a b : Option Str) → opt_eq a b ≡ opt_eq b a
opt_eq_comm none none = refl
opt_eq_comm none (some t) = refl
opt_eq_comm (some s) none = refl
opt_eq_comm (some s) (some t) = ground (arith, str_eq_iff s t, str_eq_iff t s)

module _ (lower : Str → Str) where
  -- No two accounts have one uuid, which is the key of the table, or one label in lower case; and
  -- there is an account.
  abbrev pub OwnUuids : List LabelledAccount → Type 0
  OwnUuids [] = Unit {0}
  OwnUuids (a ∷ rest) = (any (has_uuid a.uuid) rest ≡ false) × OwnUuids rest

  abbrev pub OwnLabels : List LabelledAccount → Type 0
  OwnLabels [] = Unit {0}
  OwnLabels (a ∷ rest) = (any (has_label lower a.label) rest ≡ false) × OwnLabels rest

  -- A relabelled list has no account with the label of one that is not relabelled.
  any-other :
      (uuid : Str) (f : LabelledAccount → LabelledAccount) (label : Option Str)
      → (accounts : List LabelledAccount)
      → ((a : LabelledAccount) → has_label lower label (f a) ≡ false)
      → any (has_label lower label) accounts ≡ false
      → any (has_label lower label) (change_account uuid f accounts) ≡ false
  any-other uuid f label [] g h = refl
  any-other uuid f label (a ∷ rest) g h = ground (arith, any-other uuid f label rest g, g a)

  any-none :
      (uuid : Str) (f : LabelledAccount → LabelledAccount) (label : Option Str)
      → (accounts : List LabelledAccount) → any (has_uuid uuid) accounts ≡ false
      → any (λ (a : LabelledAccount). not (str_eq a.uuid uuid) && has_label lower label a) accounts
        ≡ false
      → any (has_label lower label) (change_account uuid f accounts) ≡ false
  any-none uuid f label [] n h = refl
  any-none uuid f label (a ∷ rest) n h = ground (arith, any-none uuid f label rest)

  -- What a patch of one account leaves.
  abbrev pub taken : Str → Option Str → List LabelledAccount → Bool
  taken uuid label accounts =
      any (λ (a : LabelledAccount). not (str_eq a.uuid uuid) && has_label lower label a) accounts

  taken-rest :
      (uuid : Str) (label : Option Str) (a : LabelledAccount) (rest : List LabelledAccount)
      → taken uuid label (a ∷ rest) ≡ false
      → taken uuid label rest ≡ false
  taken-rest uuid label a rest h = ground arith

  taken-first :
      (uuid : Str) (label : Option Str) (a b : LabelledAccount) (rest : List LabelledAccount)
      → taken uuid label (a ∷ rest) ≡ false
      → str_eq a.uuid uuid ≡ false
      → b.label ≡ label
      → has_label lower a.label b ≡ false
  taken-first uuid label a b rest h n e =
      rw e (opt_eq_comm (label_key lower label) (label_key lower a.label) ∙ ground (arith, h))

  pub change-OwnLabels :
      (uuid : Str) (f : LabelledAccount → LabelledAccount) (label : Option Str)
      → (accounts : List LabelledAccount) → ((a : LabelledAccount) → (f a).label ≡ label)
      → OwnUuids accounts
      → OwnLabels accounts
      → taken uuid label accounts ≡ false
      → OwnLabels (change_account uuid f accounts)
  change-OwnLabels uuid f label [] g u o h = tt
  change-OwnLabels uuid f label (a ∷ rest) g u o h = elim (Bool-cases (str_eq a.uuid uuid)) [
    | inl y ↦
        let e = str_eq→eq a.uuid uuid y in
        rw y (
          rw (g a) (any-none uuid f label rest (rw (← e) u.0) (taken-rest uuid label a rest h)),
          change-OwnLabels uuid f label rest g u.1 o.1 (taken-rest uuid label a rest h),
        )
    | inr n ↦ rw n (
      any-other uuid f a.label rest (λ b. taken-first uuid label a (f b) rest h n (g b)) o.0,
      change-OwnLabels uuid f label rest g u.1 o.1 (taken-rest uuid label a rest h),
    )
  ]
