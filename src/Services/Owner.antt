-- ===== src/Services/Owner.antt =====
-- account-owner.ts: the account that a service or a payment belongs to. The queries of the accounts
-- are parameters.
use infra_billing.Base.{
  List, Option, Str, [], if◌then◌else◌, none, not, opt_eq, some, truthy, ◌&&◌, ◌∷◌,
}
use infra_billing.Base.Results.{Result, ok, err}
use infra_billing.Sync.Services.{AccountOwner}

-- `accountUuid` and `providerUuid` of a request.
pub record OwnerRef : Type 0 where
  pub account_uuid : Option Str
  pub provider_uuid : Option Str

pub data OwnerError : Type 0 where
  account_not_found other_provider account_required provider_not_found several_accounts : OwnerError

-- The account of a provider without naming it: it must be the only one.
abbrev pub only_account : Str → List AccountOwner → Result OwnerError AccountOwner
only_account provider [] = err provider_not_found
only_account provider (a ∷ []) =
    ok (record { account_uuid = a.account_uuid; provider_uuid = provider })
only_account provider (a ∷ b ∷ rest) = err several_accounts

module _ (find_account : Str → Option AccountOwner) (list_accounts : Str → List AccountOwner) where
  abbrev pub named_account : Str → Option Str → Result OwnerError AccountOwner
  named_account account provider = elim (find_account account) [
    | none ↦ err account_not_found
    | some a ↦
        if truthy provider && not (opt_eq provider (some a.provider_uuid))
        then err other_provider
        else ok a
  ]

  abbrev pub account_of_provider : Option Str → Result OwnerError AccountOwner
  account_of_provider none = err account_required
  account_of_provider (some []) = err account_required
  account_of_provider (some (c ∷ cs)) = only_account (c ∷ cs) (list_accounts (c ∷ cs))

  -- `resolveAccountOwner`.
  unfoldable pub resolve_account_owner : OwnerRef → Result OwnerError AccountOwner
  resolve_account_owner ref = elim ref.account_uuid [
    | none ↦ account_of_provider ref.provider_uuid
    | some account ↦
        if truthy (some account)
        then named_account account ref.provider_uuid
        else account_of_provider ref.provider_uuid
  ]
