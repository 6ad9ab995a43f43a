-- ===== src/Tests/Credentials.antt =====
-- Stored credentials of a Beget account to which a TOTP secret is added, of a VDSina account whose
-- branch changes, and of a Porkbun account.
use infra_billing.Base.{codes, none, refl, replicate, some, str_eq, ◌≡◌}
use infra_billing.Base.Results.{ok}
use infra_billing.Crypto.{Bytes, encrypt, decrypt}
use infra_billing.Crypto.Payload.{decrypt-encrypt}
use infra_billing.Credentials.{CredentialsDto, Blob, blank, beget, vdsina, porkbun}
use infra_billing.Credentials.Urls.{is_vdsina_base_url, vdsina_branch, strip_slashes}
use infra_billing.Credentials.Stored.{decode_credentials, reveal}
use infra_billing.Credentials.Build.{build_credentials, merged, on_branch}
use infra_billing.Credentials.Merge.{overlay}
use infra_billing.Credentials.Merge.Keys.{reveal-build_credentials}
use infra_billing.Credentials.Branch.{OnBranch, build_credentials-OnBranch}
use infra_billing.Credentials.Hints.{secret_presence}
use infra_billing.Credentials.Presence.{Agrees, secret_presence-reveal}
use infra_billing.Tests.Json.{cipher, cipher-IsCipher, json, json-IsJson, print_key-filled}

abbrev iv : Bytes
iv = replicate 12 7

decrypt-encrypt_example : decrypt cipher (encrypt cipher iv (codes "secret")) ≡ ok (codes "secret")
decrypt-encrypt_example = decrypt-encrypt cipher cipher-IsCipher iv (codes "secret") refl refl

abbrev no_fields : CredentialsDto
no_fields = record {
  token = none;
  base_url = none;
  username = none;
  password = none;
  totp_secret = none;
  account_id = none;
  project_name = none;
  panel_id = none;
  api_password = none;
  secret_key = none;
  use_catalog_names = none;
}

abbrev stored : Blob → Bytes
stored b = encrypt cipher iv (json.print b)

abbrev login : Blob
login = record blank { username = some (codes "u"); password = some (codes "pw") }

abbrev totp : CredentialsDto
totp = record no_fields { totp_secret = some (codes "T") }

reveal-build_credentials_example :
    reveal cipher json beget (some (stored (record login { totp_secret = some (codes "T") })))
    ≡ overlay json beget totp (reveal cipher json beget (some (stored login)))
unfolding build_credentials merged decode_credentials decrypt encrypt
reveal-build_credentials_example =
    reveal-build_credentials cipher json (λ s. s) iv cipher-IsCipher json-IsJson refl beget totp
      (some (stored login)) (λ t e. refl) (stored (record login { totp_secret = some (codes "T") }))
      refl

abbrev key : Blob
key = record blank { token = some (codes "k"); base_url = some (codes "https://userapi.vdsina.ru") }

abbrev moved : CredentialsDto
moved = record no_fields { base_url = some (codes "https://userapi.vdsina.com//") }

build_credentials-OnBranch_example :
    OnBranch cipher json vdsina
      (stored (record key { base_url = some (codes "https://userapi.vdsina.com") }))
unfolding build_credentials merged on_branch vdsina_branch strip_slashes is_vdsina_base_url str_eq
    decode_credentials decrypt encrypt
build_credentials-OnBranch_example =
    build_credentials-OnBranch cipher json (λ s. s) iv cipher-IsCipher json-IsJson refl vdsina moved
      (some (stored key))
      (stored (record key { base_url = some (codes "https://userapi.vdsina.com") })) refl

secret_presence-reveal_example :
    Agrees
      (secret_presence cipher json porkbun
        (some (stored (record blank { api_key = some (codes "k") }))))
      (reveal cipher json porkbun (some (stored (record blank { api_key = some (codes "k") }))))
unfolding decrypt encrypt str_eq
secret_presence-reveal_example =
    secret_presence-reveal cipher json print_key-filled porkbun
      (some (stored (record blank { api_key = some (codes "k") }))) refl
