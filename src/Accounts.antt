-- ===== src/Accounts.antt =====
-- The accounts of one provider: provider-rules.ts, provider-accounts.service.ts and `addAccount` of
-- providers.service.ts. Lower case is Unicode's, so `lower` is a parameter; the credentials are
-- left out, as is a write that fails.
pub mod Labels
pub mod Keeps
pub mod Removal
pub mod Merging
use infra_billing.Base.{
  Bool, List, Option, Str, any, false, filter, find, get_or_else, if◌then◌else◌, leb, length, map,
  none, not, opt_eq, some, str_eq, true, ◌&&◌, ◌∷◌,
}
use infra_billing.Base.Results.{Result, ok, err}

-- An account with the label that the provider's original account does not have.
pub record LabelledAccount : Type 0 where
  pub uuid : Str
  pub label : Option Str
  pub is_enabled : Bool
  pub is_postpaid : Bool

-- The patch of an account: a label may be left out, null or a text.
pub record UpdateAccount : Type 0 where
  pub label : Option (Option Str)
  pub is_enabled : Option Bool
  pub is_postpaid : Option Bool

pub data AccountError : Type 0 where
  account_not_found label_is_taken only_account : AccountError

abbrev pub has_uuid : Str → LabelledAccount → Bool
has_uuid uuid a = str_eq a.uuid uuid

abbrev pub patched_account : UpdateAccount → LabelledAccount → LabelledAccount
patched_account dto a = record a {
  label = get_or_else dto.label a.label;
  is_enabled = get_or_else dto.is_enabled a.is_enabled;
  is_postpaid = get_or_else dto.is_postpaid a.is_postpaid;
}

abbrev pub change_account :
    Str → (LabelledAccount → LabelledAccount) → List LabelledAccount → List LabelledAccount
change_account uuid f accounts =
    map (λ (a : LabelledAccount). if has_uuid uuid a then f a else a) accounts

-- `remove`, with `deleteUnlessLast`.
unfoldable pub remove_account :
    Str → List LabelledAccount → Result AccountError (List LabelledAccount)
remove_account uuid accounts = elim (find (has_uuid uuid) accounts) [
  | none ↦ err account_not_found
  | some existing ↦
      if leb (length accounts) 1
      then err only_account
      else ok (filter (λ (a : LabelledAccount). not (has_uuid uuid a)) accounts)
]

module _ (lower : Str → Str) where
  abbrev pub label_key : Option Str → Option Str
  label_key none = none
  label_key (some l) = some (lower l)

  abbrev pub has_label : Option Str → LabelledAccount → Bool
  has_label label a = opt_eq (label_key a.label) (label_key label)

  -- `labelTaken`; without `exceptUuid` no account is left out.
  unfoldable pub label_taken : List LabelledAccount → Option Str → Option Str → Bool
  label_taken accounts label except =
      any (λ (a : LabelledAccount). not (opt_eq (some a.uuid) except) && has_label label a) accounts

  -- `addAccount`, under the uuid that the database draws.
  unfoldable pub add_account :
      Str → Option Str → Bool → List LabelledAccount → Result AccountError (List LabelledAccount)
  unfolding label_taken
  add_account uuid label is_postpaid accounts =
      if label_taken accounts label none
      then err label_is_taken
      else ok (
          record { uuid = uuid; label = label; is_enabled = true; is_postpaid = is_postpaid }
          ∷ accounts)

  -- Whether the patch has a new label that another account has.
  abbrev pub clashes : Str → UpdateAccount → LabelledAccount → List LabelledAccount → Bool
  clashes uuid dto existing accounts = elim dto.label [
    | none ↦ false
    | some label ↦ not (opt_eq label existing.label) && label_taken accounts label (some uuid)
  ]

  -- `update`.
  unfoldable pub update_account :
      Str → UpdateAccount → List LabelledAccount → Result AccountError (List LabelledAccount)
  update_account uuid dto accounts = elim (find (has_uuid uuid) accounts) [
    | none ↦ err account_not_found
    | some existing ↦
        if clashes uuid dto existing accounts
        then err label_is_taken
        else ok (change_account uuid (patched_account dto) accounts)
  ]
