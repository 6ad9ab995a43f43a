-- ===== src/Credentials/Branch.antt =====
-- The base URL that an account keeps, and the flags of the edit form:
-- provider-credentials.service.ts.
use infra_billing.Base.{Option, Str, length, none, some, subst, ◌≡◌}
use infra_billing.Base.Results.{ok, err}
use infra_billing.Crypto.{Bytes, Cipher, iv_length}
use infra_billing.Crypto.Payload.{IsCipher}
use infra_billing.Credentials.{
  ConnectorKind, CredentialsDto, JsonText, blank, hostbill, billmgr, selectel, four_vps, beget,
  porkbun, spaceship, aeza, vdsina, cloudflare, yandex, doubleservers, openrouter, manual, timeweb,
  hetzner, hostkey, netcup, netlen, vultr, linode, stormwall, netangels, hostup,
}
use infra_billing.Credentials.Urls.{OnVdsina, OnAeza, vdsina_branch-OnVdsina, aeza_branch-OnAeza}
use infra_billing.Credentials.Stored.{decode_credentials, decode_aeza_credentials}
use infra_billing.Credentials.Build.{
  Built, build_credentials, merge_fields, build_vdsina, build_aeza,
}
use infra_billing.Credentials.Merge.{
  IsJson, Stores, Stores-merged, Stores-on_branch, Stores-some, decode-sealed, decode_aeza-sealed,
}

-- The stored base URL belongs to the provider, or there is none; the other kinds have no fixed
-- hosts.
abbrev pub OnBranch : Cipher → JsonText → ConnectorKind → Bytes → Type 0
OnBranch cipher json vdsina enc = OnVdsina (decode_credentials cipher json (some enc)).base_url
OnBranch cipher json aeza enc = OnAeza (decode_aeza_credentials cipher json (some enc)).base_url
OnBranch cipher json kind enc = Unit

Stores-any : (P : Bytes → Type 0) → ((enc : Bytes) → P enc) → (r : Built) → Stores P r
unfolding Stores
Stores-any P p (ok none) = tt
Stores-any P p (ok (some enc)) = p enc
Stores-any P p (err e) = tt

module _ (cipher : Cipher) (json : JsonText) (lower : Str → Str) (iv : Bytes)
    (opens : IsCipher cipher) (reads : IsJson cipher json) (h : length iv ≡ iv_length) where
  vdsina-OnBranch :
      (dto : CredentialsDto) (old : Option Bytes)
      → Stores (OnBranch cipher json vdsina) (build_vdsina cipher json lower iv dto old)
  vdsina-OnBranch dto old =
      let m = merge_fields dto (decode_credentials cipher json old) in
      Stores-merged _ _ _ _ _ (
        Stores-on_branch (OnBranch cipher json vdsina) _ _ _ (λ u e. Stores-some _ _ (
          rw
            (decode-sealed cipher json iv opens reads h
              (record blank { token = m.token; base_url = u }))
            (vdsina_branch-OnVdsina m.base_url u e))))

  aeza-OnBranch :
      (dto : CredentialsDto) (old : Option Bytes)
      → Stores (OnBranch cipher json aeza) (build_aeza cipher json lower iv dto old)
  aeza-OnBranch dto old =
      let m = merge_fields dto (decode_aeza_credentials cipher json old) in
      Stores-merged _ _ _ _ _ (
        Stores-on_branch (OnBranch cipher json aeza) _ _ _ (λ u e. Stores-some _ _ (
          rw
            (decode_aeza-sealed cipher json iv opens reads h
              (record blank { token = m.token; base_url = u }))
            (aeza_branch-OnAeza lower m.base_url u e))))

  branch_kept :
      (kind : ConnectorKind) (dto : CredentialsDto) (old : Option Bytes)
      → Stores (OnBranch cipher json kind) (build_credentials cipher json lower iv kind dto old)
  unfolding build_credentials
  branch_kept vdsina dto old = vdsina-OnBranch dto old
  branch_kept aeza dto old = aeza-OnBranch dto old
  branch_kept timeweb dto old = Stores-any _ (λ enc. tt) _
  branch_kept hetzner dto old = Stores-any _ (λ enc. tt) _
  branch_kept hostkey dto old = Stores-any _ (λ enc. tt) _
  branch_kept netcup dto old = Stores-any _ (λ enc. tt) _
  branch_kept hostbill dto old = Stores-any _ (λ enc. tt) _
  branch_kept billmgr dto old = Stores-any _ (λ enc. tt) _
  branch_kept selectel dto old = Stores-any _ (λ enc. tt) _
  branch_kept four_vps dto old = Stores-any _ (λ enc. tt) _
  branch_kept netlen dto old = Stores-any _ (λ enc. tt) _
  branch_kept beget dto old = Stores-any _ (λ enc. tt) _
  branch_kept porkbun dto old = Stores-any _ (λ enc. tt) _
  branch_kept spaceship dto old = Stores-any _ (λ enc. tt) _
  branch_kept vultr dto old = Stores-any _ (λ enc. tt) _
  branch_kept linode dto old = Stores-any _ (λ enc. tt) _
  branch_kept cloudflare dto old = Stores-any _ (λ enc. tt) _
  branch_kept stormwall dto old = Stores-any _ (λ enc. tt) _
  branch_kept netangels dto old = Stores-any _ (λ enc. tt) _
  branch_kept yandex dto old = Stores-any _ (λ enc. tt) _
  branch_kept doubleservers dto old = Stores-any _ (λ enc. tt) _
  branch_kept openrouter dto old = Stores-any _ (λ enc. tt) _
  branch_kept hostup dto old = Stores-any _ (λ enc. tt) _
  branch_kept manual dto old = Stores-any _ (λ enc. tt) _

-- The API key of a VDSina or an Aeza account is never stored with a foreign base URL: where an edit
-- stores credentials, the base URL read back is one of the provider's two, or none, whatever was
-- stored before; for VDSina it may also be a name that every object inherits, which is no URL. The
-- cipher and JSON work as documented, and the nonce has twelve bytes.
pub build_credentials-OnBranch :
    (cipher : Cipher) (json : JsonText) (lower : Str → Str) (iv : Bytes) (opens : IsCipher cipher)
    (reads : IsJson cipher json) (h : length iv ≡ iv_length) (kind : ConnectorKind)
    (dto : CredentialsDto) (old : Option Bytes) (enc : Bytes)
    → build_credentials cipher json lower iv kind dto old ≡ ok (some enc)
    → OnBranch cipher json kind enc
unfolding Stores
build_credentials-OnBranch cipher json lower iv opens reads h kind dto old enc e =
    subst (Stores (OnBranch cipher json kind)) e
      (branch_kept cipher json lower iv opens reads h kind dto old)
