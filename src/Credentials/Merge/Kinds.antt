-- ===== src/Credentials/Merge/Kinds.antt =====
-- An edit of the stored credentials, read back, for each connector kind.
use infra_billing.Base.{Option, Str, ap, length, none, refl, some, ◌≡◌}
use infra_billing.Crypto.{Bytes, Cipher, iv_length}
use infra_billing.Crypto.Payload.{IsCipher}
use mathlib.Core.Path.{ap₂}
use infra_billing.Credentials.{
  ConnectorKind, CredentialsDto, JsonText, Blob, no_secrets, hostbill, billmgr, selectel, four_vps,
  beget, porkbun, spaceship, aeza, vdsina, cloudflare, doubleservers,
}
use infra_billing.Credentials.Stored.{
  decode_credentials, decode_aeza_credentials, secrets_of, reveal,
}
use infra_billing.Credentials.Build.{
  build_four_vps, build_vdsina, build_aeza, build_selectel, build_panel, build_beget,
  build_doubleservers, build_cloudflare, build_porkbun, build_spaceship,
}
use infra_billing.Credentials.Merge.{
  IsJson, overlay, shown-or_else, shown-shown, Stores, Stores-merged, Stores-on_branch, Stores-some,
  decode-sealed, decode_aeza-sealed,
}

module _ (cipher : Cipher) (json : JsonText) (lower : Str → Str) (iv : Bytes)
    (opens : IsCipher cipher) (reads : IsJson cipher json) (h : length iv ≡ iv_length) where
  abbrev pub Shows : ConnectorKind → CredentialsDto → Option Bytes → Bytes → Type 0
  Shows kind dto old enc =
      reveal cipher json kind (some enc) ≡ overlay json kind dto (reveal cipher json kind old)

  -- From the decoders to `reveal`.
  pub reads_back :
      (kind : ConnectorKind) (decode : Option Bytes → Blob) (dto : CredentialsDto)
      (old : Option Bytes) (enc : Bytes) (b : Blob)
      → reveal cipher json kind none ≡ secrets_of json kind (decode none)
      → ((e : Bytes) → reveal cipher json kind (some e) ≡ secrets_of json kind (decode (some e)))
      → decode (some enc) ≡ b
      → secrets_of json kind b ≡ overlay json kind dto (secrets_of json kind (decode old))
      → Shows kind dto old enc
  reads_back kind decode dto none enc b r0 r1 s e = rw (r0, r1 enc, s) e
  reads_back kind decode dto (some o) enc b r0 r1 s e = rw (r1 enc, r1 o, s) e

  abbrev pub object : Option Bytes → Blob
  object = decode_credentials cipher json

  abbrev aeza_object : Option Bytes → Blob
  aeza_object = decode_aeza_credentials cipher json

  pub merge_four_vps :
      (dto : CredentialsDto) (old : Option Bytes)
      → Stores (Shows four_vps dto old) (build_four_vps cipher json lower iv dto old)
  unfolding reveal secrets_of decode_credentials
  merge_four_vps dto old =
      let base = object old in
      Stores-merged _ _ _ _ _ (
        Stores-some _ _ (
          reads_back four_vps object dto old _ _ refl (λ e. refl)
            (decode-sealed cipher json iv opens reads h _)
            (ap (λ t. record no_secrets { token = t }) (shown-or_else dto.token base.token))))

  pub merge_cloudflare :
      (dto : CredentialsDto) (old : Option Bytes)
      → Stores (Shows cloudflare dto old) (build_cloudflare cipher json lower iv dto old)
  unfolding reveal secrets_of decode_credentials
  merge_cloudflare dto old =
      let base = object old in
      Stores-merged _ _ _ _ _ (
        Stores-some _ _ (
          reads_back cloudflare object dto old _ _ refl (λ e. refl)
            (decode-sealed cipher json iv opens reads h _)
            (ap (λ t. record no_secrets { token = t }) (shown-or_else dto.token base.api_token))))

  pub merge_porkbun :
      (dto : CredentialsDto) (old : Option Bytes)
      → Stores (Shows porkbun dto old) (build_porkbun cipher json lower iv dto old)
  unfolding reveal secrets_of decode_credentials
  merge_porkbun dto old =
      let base = object old in
      Stores-merged _ _ _ _ _ (
        Stores-some _ _ (
          reads_back porkbun object dto old _ _ refl (λ e. refl)
            (decode-sealed cipher json iv opens reads h _)
            (ap₂ (λ t k. record no_secrets { token = t; secret_key = k })
              (shown-or_else dto.token base.api_key)
              (shown-or_else dto.secret_key base.secret_api_key))))

  pub merge_spaceship :
      (dto : CredentialsDto) (old : Option Bytes)
      → Stores (Shows spaceship dto old) (build_spaceship cipher json lower iv dto old)
  unfolding reveal secrets_of decode_credentials
  merge_spaceship dto old =
      let base = object old in
      Stores-merged _ _ _ _ _ (
        Stores-some _ _ (
          reads_back spaceship object dto old _ _ refl (λ e. refl)
            (decode-sealed cipher json iv opens reads h _)
            (ap₂ (λ t k. record no_secrets { token = t; secret_key = k })
              (shown-or_else dto.token base.api_key)
              (shown-or_else dto.secret_key base.api_secret))))

  pub merge_selectel :
      (dto : CredentialsDto) (old : Option Bytes)
      → Stores (Shows selectel dto old) (build_selectel cipher json lower iv dto old)
  unfolding reveal secrets_of decode_credentials
  merge_selectel dto old =
      let base = object old in
      Stores-merged _ _ _ _ _ (
        Stores-some _ _ (
          reads_back selectel object dto old _ _ refl (λ e. refl)
            (decode-sealed cipher json iv opens reads h _)
            (ap (λ t. record no_secrets { password = t })
              (shown-or_else dto.password base.password))))

  pub merge_billmgr :
      (dto : CredentialsDto) (old : Option Bytes)
      → Stores (Shows billmgr dto old) (build_panel cipher json lower iv billmgr dto old)
  unfolding reveal secrets_of decode_credentials
  merge_billmgr dto old =
      let base = object old in
      Stores-merged _ _ _ _ _ (
        Stores-some _ _ (
          reads_back billmgr object dto old _ _ refl (λ e. refl)
            (decode-sealed cipher json iv opens reads h _)
            (ap₂ (λ p t. record no_secrets { password = p; totp_secret = t })
              (shown-or_else dto.password base.password)
              (shown-shown dto.totp_secret base.totp_secret))))

  pub merge_hostbill :
      (dto : CredentialsDto) (old : Option Bytes)
      → Stores (Shows hostbill dto old) (build_panel cipher json lower iv hostbill dto old)
  unfolding reveal secrets_of decode_credentials
  merge_hostbill dto old =
      let base = object old in
      Stores-merged _ _ _ _ _ (
        Stores-some _ _ (
          reads_back hostbill object dto old _ _ refl (λ e. refl)
            (decode-sealed cipher json iv opens reads h _)
            (ap₂ (λ p t. record no_secrets { password = p; totp_secret = t })
              (shown-or_else dto.password base.password)
              (shown-shown dto.totp_secret base.totp_secret))))

  pub merge_doubleservers :
      (dto : CredentialsDto) (old : Option Bytes)
      → Stores (Shows doubleservers dto old) (build_doubleservers cipher json lower iv dto old)
  unfolding reveal secrets_of decode_credentials
  merge_doubleservers dto old =
      let base = object old in
      Stores-merged _ _ _ _ _ (
        Stores-some _ _ (
          reads_back doubleservers object dto old _ _ refl (λ e. refl)
            (decode-sealed cipher json iv opens reads h _)
            (ap₂ (λ p t. record no_secrets { password = p; totp_secret = t })
              (shown-or_else dto.password base.password)
              (shown-shown dto.totp_secret base.totp_secret))))

  pub merge_beget :
      (dto : CredentialsDto) (old : Option Bytes)
      → Stores (Shows beget dto old) (build_beget cipher json lower iv dto old)
  unfolding reveal secrets_of decode_credentials
  merge_beget dto old =
      let base = object old in
      Stores-merged _ _ _ _ _ (
        Stores-some _ _ (
          reads_back beget object dto old _ _ refl (λ e. refl)
            (decode-sealed cipher json iv opens reads h _)
            (λ i. record no_secrets {
              password = shown-or_else dto.password base.password i;
              totp_secret = shown-shown dto.totp_secret base.totp_secret i;
              api_password = shown-shown dto.api_password base.api_password i;
            })))

  pub merge_vdsina :
      (dto : CredentialsDto) (old : Option Bytes)
      → Stores (Shows vdsina dto old) (build_vdsina cipher json lower iv dto old)
  unfolding reveal secrets_of decode_credentials decode_aeza_credentials
  merge_vdsina dto old =
      let base = object old in
      Stores-merged _ _ _ _ _ (
        Stores-on_branch _ _ _ _ λ u e. Stores-some _ _ (
          reads_back vdsina object dto old _ _ refl (λ e. refl)
            (decode-sealed cipher json iv opens reads h _)
            (ap (λ t. record no_secrets { token = t }) (shown-or_else dto.token base.token))))

  pub merge_aeza :
      (dto : CredentialsDto) (old : Option Bytes)
      → Stores (Shows aeza dto old) (build_aeza cipher json lower iv dto old)
  unfolding reveal secrets_of decode_credentials decode_aeza_credentials
  merge_aeza dto old =
      let base = aeza_object old in
      Stores-merged _ _ _ _ _ (
        Stores-on_branch _ _ _ _ λ u e. Stores-some _ _ (
          reads_back aeza aeza_object dto old _ _ refl (λ e. refl)
            (decode_aeza-sealed cipher json iv opens reads h _)
            (ap (λ t. record no_secrets { token = t }) (shown-or_else dto.token base.token))))
