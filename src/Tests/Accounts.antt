-- ===== src/Tests/Accounts.antt =====
-- A provider with two accounts, of which the second is relabelled.
use infra_billing.Base.{
  List, Option, Str, [], any, codes, false, if◌then◌else◌, leb, length, map, none, refl, some,
  str_eq, true, ◌&&◌, ◌+◌, ◌<◌, ◌∷◌, ◌≡◌,
}
use infra_billing.Accounts.{LabelledAccount, UpdateAccount, update_account, label_taken}
use infra_billing.Accounts.Labels.{OwnUuids, OwnLabels}
use infra_billing.Accounts.{has_uuid, remove_account}
use infra_billing.Accounts.Removal.{remove_account-leaves}
use infra_billing.Accounts.Keeps.{update_account-OwnLabels}

-- Of ASCII letters.
abbrev lower : Str → Str
lower s = map (λ c. if leb 65 c && leb c 90 then c + 32 else c) s

abbrev account : Str → Option Str → LabelledAccount
account uuid label = record { uuid = uuid; label = label; is_enabled = true; is_postpaid = false }

abbrev accounts : List LabelledAccount
accounts = account (codes "u1") none ∷ account (codes "u2") (some (codes "Old")) ∷ []

abbrev patch : UpdateAccount
patch = record { label = some (some (codes "New")); is_enabled = none; is_postpaid = none }

abbrev patched : List LabelledAccount
patched = account (codes "u1") none ∷ account (codes "u2") (some (codes "New")) ∷ []

update_account-OwnLabels_example :
    OwnUuids lower patched × OwnLabels lower patched × (length patched ≡ length accounts)
unfolding update_account label_taken str_eq
update_account-OwnLabels_example =
    update_account-OwnLabels lower (codes "u2") patch accounts patched (refl, (refl, tt))
      (refl, (refl, tt)) refl

remove_account-leaves_example :
    (any (has_uuid (codes "u2")) (account (codes "u1") none ∷ []) ≡ false)
    × OwnLabels lower (account (codes "u1") none ∷ [])
    × (0 < length (account (codes "u1") none ∷ []))
unfolding remove_account str_eq
remove_account-leaves_example =
    remove_account-leaves lower (codes "u2") accounts (account (codes "u1") none ∷ [])
      (refl, (refl, tt)) (refl, (refl, tt)) refl
