-- ===== src/Sync/Kept.antt =====
-- The choices of the owner in a row of services, and `upsertServices` of sync.service.ts.
use infra_billing.Base.{Bool, Bool-cases, Str, false, inl, inr, refl, true, ◌∙◌, ◌≡◌, ◌⊎◌}
use infra_billing.Decimal.{Decimal}
use infra_billing.Sync.Tables.{ServiceRow, KeepsKey, when, Meta}
use infra_billing.Sync.Services.{AccountOwner, ServiceData, updated_row, new_row, deactivated}

-- What the owner has overridden in `r` stands in `r1`, and the row is the same one.
pub record Kept (r r1 : ServiceRow) : Type 0 where
  pub kept_uuid : r1.uuid ≡ r.uuid
  pub kept_project : r1.project_uuid ≡ r.project_uuid
  pub kept_managed : r1.is_managed ≡ r.is_managed
  pub kept_external : r1.external_id ≡ r.external_id
  pub kept_cost_flag : r1.cost_overridden ≡ r.cost_overridden
  pub kept_name_flag : r1.name_overridden ≡ r.name_overridden
  pub kept_type_flag : r1.type_overridden ≡ r.type_overridden
  pub kept_active_flag : r1.active_overridden ≡ r.active_overridden
  pub kept_name : r.name_overridden ≡ true → r1.name ≡ r.name
  pub kept_type : r.type_overridden ≡ true → r1.type_name ≡ r.type_name
  pub kept_cost : r.cost_overridden ≡ true → r1.cost ≡ r.cost
  pub kept_currency : r.cost_overridden ≡ true → r1.currency ≡ r.currency
  pub kept_period : r.cost_overridden ≡ true → r1.period ≡ r.period
  pub kept_inactive : r.active_overridden ≡ true → r.is_active ≡ false → r1.is_active ≡ false

pub Kept-refl : (r : ServiceRow) → Kept r r
Kept-refl r = record {
  kept_uuid = refl;
  kept_project = refl;
  kept_managed = refl;
  kept_external = refl;
  kept_cost_flag = refl;
  kept_name_flag = refl;
  kept_type_flag = refl;
  kept_active_flag = refl;
  kept_name = λ _. refl;
  kept_type = λ _. refl;
  kept_cost = λ _. refl;
  kept_currency = λ _. refl;
  kept_period = λ _. refl;
  kept_inactive = λ _ h. h;
}

pub Kept-trans : (r s t : ServiceRow) → Kept r s → Kept s t → Kept r t
Kept-trans r s t p q = record {
  kept_uuid = q.kept_uuid ∙ p.kept_uuid;
  kept_project = q.kept_project ∙ p.kept_project;
  kept_managed = q.kept_managed ∙ p.kept_managed;
  kept_external = q.kept_external ∙ p.kept_external;
  kept_cost_flag = q.kept_cost_flag ∙ p.kept_cost_flag;
  kept_name_flag = q.kept_name_flag ∙ p.kept_name_flag;
  kept_type_flag = q.kept_type_flag ∙ p.kept_type_flag;
  kept_active_flag = q.kept_active_flag ∙ p.kept_active_flag;
  kept_name = λ h. q.kept_name (p.kept_name_flag ∙ h) ∙ p.kept_name h;
  kept_type = λ h. q.kept_type (p.kept_type_flag ∙ h) ∙ p.kept_type h;
  kept_cost = λ h. q.kept_cost (p.kept_cost_flag ∙ h) ∙ p.kept_cost h;
  kept_currency = λ h. q.kept_currency (p.kept_cost_flag ∙ h) ∙ p.kept_currency h;
  kept_period = λ h. q.kept_period (p.kept_cost_flag ∙ h) ∙ p.kept_period h;
  kept_inactive = λ h i. q.kept_inactive (p.kept_active_flag ∙ h) (p.kept_inactive h i);
}

pub Kept-deactivated : (r : ServiceRow) → Kept r (deactivated r)
Kept-deactivated r = record {
  kept_uuid = refl;
  kept_project = refl;
  kept_managed = refl;
  kept_external = refl;
  kept_cost_flag = refl;
  kept_name_flag = refl;
  kept_type_flag = refl;
  kept_active_flag = refl;
  kept_name = λ _. refl;
  kept_type = λ _. refl;
  kept_cost = λ _. refl;
  kept_currency = λ _. refl;
  kept_period = λ _. refl;
  kept_inactive = λ _ _. refl;
}

-- An active row, or one that the owner switches.
abbrev pub IsLive : ServiceRow → Type 0
IsLive r = r.active_overridden ≡ false → r.is_active ≡ true

pub KeepsKey-when :
    (test : ServiceRow → Bool) (f : ServiceRow → ServiceRow)
    → (r : ServiceRow) → (when test f r ≡ r) ⊎ (when test f r ≡ f r)
KeepsKey-when test f r = elim (Bool-cases (test r)) [
  | inl e ↦ inr (rw e refl)
  | inr e ↦ inl (rw e refl)
]

pub deactivated-KeepsKey : KeepsKey deactivated
deactivated-KeepsKey = record {
  same_uuid = λ r. refl;
  same_account = λ r. refl;
  same_external = λ r. refl;
}

module _ {D : Type 0} ⦃num : Decimal D⦄ where
  pub updated_row-KeepsKey :
      (c : Str) (sd : ServiceData D) (m : Meta) → KeepsKey (updated_row c sd m)
  unfolding updated_row
  updated_row-KeepsKey c sd m = record {
    same_uuid = λ r. refl;
    same_account = λ r. refl;
    same_external = λ r. refl;
  }

  pub Kept-updated_row :
      (c : Str) (sd : ServiceData D) (m : Meta) (r : ServiceRow) → Kept r (updated_row c sd m r)
  unfolding updated_row
  Kept-updated_row c sd m r = record {
    kept_uuid = refl;
    kept_project = refl;
    kept_managed = refl;
    kept_external = refl;
    kept_cost_flag = refl;
    kept_name_flag = refl;
    kept_type_flag = refl;
    kept_active_flag = refl;
    kept_name = λ h. rw h refl;
    kept_type = λ h. rw h refl;
    kept_cost = λ h. rw h refl;
    kept_currency = λ h. rw h refl;
    kept_period = λ h. rw h refl;
    kept_inactive = λ h i. rw h i;
  }

  pub updated_row-IsLive :
      (c : Str) (sd : ServiceData D) (m : Meta) (r : ServiceRow) → IsLive (updated_row c sd m r)
  unfolding updated_row
  updated_row-IsLive c sd m r h = rw h refl

  pub new_row-IsLive :
      (o : AccountOwner) (c : Str) (sd : ServiceData D) (u : Str)
      → (new_row o c sd u).is_active ≡ true
  unfolding new_row
  new_row-IsLive o c sd u = refl
