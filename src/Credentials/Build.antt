-- ===== src/Credentials/Build.antt =====
-- `buildCredentials` of provider-credentials.service.ts: a request merged onto the stored
-- credentials. The nonce of the encryption is a parameter.
use infra_billing.Base.{
  Bool, Option, Str, false, if◌then◌else◌, none, some, true, truthy, ◌&&◌, ◌||◌,
}
use infra_billing.Base.Results.{Result, ok, err}
use infra_billing.Crypto.{Bytes, Cipher, encrypt}
use infra_billing.Credentials.{
  ConnectorKind, CredentialsDto, JsonText, Blob, blank, CredentialsError, shown, or_else, hostbill,
  billmgr, selectel, four_vps, beget, porkbun, spaceship, aeza, vdsina, cloudflare, yandex,
  doubleservers, openrouter, manual, incomplete, foreign_base_url,
}
use infra_billing.Credentials.Urls.{aeza_branch, vdsina_branch}
use infra_billing.Credentials.Stored.{
  decode_credentials, decode_aeza_credentials, decode_open_router_credentials, parse_yandex_key,
  has_key, not_false,
}

-- `ok none` is the answer null, which leaves the stored credentials as they are.
abbrev pub Built : Type 0
Built = Result CredentialsError (Option Bytes)

-- `if (!given) return null; if (!complete) throw …; …`.
unfoldable pub merged : ConnectorKind → Bool → Bool → Built → Built
merged kind given complete stored =
    if given then (if complete then stored else err (incomplete kind)) else ok none

-- The check of a base URL before the credentials are stored.
unfoldable pub on_branch : ConnectorKind → (Option Str → Built) → Option (Option Str) → Built
on_branch kind store none = err (foreign_base_url kind)
on_branch kind store (some base_url) = store base_url

abbrev pub is_given : Option Bool → Bool
is_given none = false
is_given (some b) = true

-- `{ ...dto, ...base }` where a field of the request is taken first.
abbrev pub merge_fields : CredentialsDto → Blob → Blob
merge_fields dto base = record base {
  token = or_else dto.token base.token;
  base_url = or_else dto.base_url base.base_url;
  username = or_else dto.username base.username;
  password = or_else dto.password base.password;
  totp_secret = or_else dto.totp_secret base.totp_secret;
  account_id = or_else dto.account_id base.account_id;
  project_name = or_else dto.project_name base.project_name;
  panel_id = or_else dto.panel_id base.panel_id;
  api_password = or_else dto.api_password base.api_password;
  api_token = or_else dto.token base.api_token;
  api_key = or_else dto.token base.api_key;
  secret_api_key = or_else dto.secret_key base.secret_api_key;
  api_secret = or_else dto.secret_key base.api_secret;
}

-- The new `useCatalogNames` of an OpenRouter account.
abbrev pub names_of : CredentialsDto → Blob → Option Bool
names_of dto base = elim dto.use_catalog_names [
  | none ↦ some (not_false base.use_catalog_names)
  | some b ↦ some b
]

module _ (cipher : Cipher) (json : JsonText) (lower : Str → Str) (iv : Bytes) where
  -- `return this.crypto.encrypt(JSON.stringify(creds))`.
  abbrev pub sealed : Blob → Built
  sealed creds = ok (some (encrypt cipher iv (json.print creds)))

  abbrev pub build_openrouter : CredentialsDto → Option Bytes → Built
  build_openrouter dto old =
      let base = decode_open_router_credentials cipher json old in
      let token = or_else dto.token base.token in
      merged openrouter (truthy dto.token || is_given dto.use_catalog_names) (truthy token)
        (sealed (record blank { token = token; use_catalog_names = names_of dto base }))

  abbrev pub build_four_vps : CredentialsDto → Option Bytes → Built
  build_four_vps dto old =
      let m = merge_fields dto (decode_credentials cipher json old) in
      merged four_vps (truthy dto.token || truthy dto.panel_id) (truthy m.token)
        (sealed (record blank { token = m.token; panel_id = shown m.panel_id }))

  abbrev pub build_vdsina : CredentialsDto → Option Bytes → Built
  build_vdsina dto old =
      let m = merge_fields dto (decode_credentials cipher json old) in
      merged vdsina (truthy dto.token || truthy dto.base_url) (truthy m.token) (
        on_branch vdsina (λ u. sealed (record blank { token = m.token; base_url = u }))
          (vdsina_branch m.base_url))

  abbrev pub build_aeza : CredentialsDto → Option Bytes → Built
  build_aeza dto old =
      let m = merge_fields dto (decode_aeza_credentials cipher json old) in
      merged aeza (truthy dto.token || truthy dto.base_url) (truthy m.token) (
        on_branch aeza (λ u. sealed (record blank { token = m.token; base_url = u }))
          (aeza_branch lower m.base_url))

  abbrev pub build_selectel : CredentialsDto → Option Bytes → Built
  build_selectel dto old =
      let m = merge_fields dto (decode_credentials cipher json old) in
      merged selectel
        (truthy dto.account_id
          || truthy dto.username
          || truthy dto.password
          || truthy dto.project_name)
        (truthy m.account_id && truthy m.username && truthy m.password)
        (sealed (record blank {
          account_id = m.account_id;
          username = m.username;
          password = m.password;
          project_name = shown m.project_name;
        }))

  -- Of `hostbill` and `billmgr`.
  abbrev pub build_panel : ConnectorKind → CredentialsDto → Option Bytes → Built
  build_panel kind dto old =
      let m = merge_fields dto (decode_credentials cipher json old) in
      merged kind
        (truthy dto.base_url
          || truthy dto.username
          || truthy dto.password
          || truthy dto.totp_secret)
        (truthy m.base_url && truthy m.username && truthy m.password)
        (sealed (record blank {
          base_url = m.base_url;
          username = m.username;
          password = m.password;
          totp_secret = shown m.totp_secret;
        }))

  abbrev pub build_beget : CredentialsDto → Option Bytes → Built
  build_beget dto old =
      let m = merge_fields dto (decode_credentials cipher json old) in
      merged beget
        (truthy dto.username
          || truthy dto.password
          || truthy dto.totp_secret
          || truthy dto.api_password)
        (truthy m.username && truthy m.password)
        (sealed (record blank {
          username = m.username;
          password = m.password;
          totp_secret = shown m.totp_secret;
          api_password = shown m.api_password;
        }))

  abbrev pub build_doubleservers : CredentialsDto → Option Bytes → Built
  build_doubleservers dto old =
      let m = merge_fields dto (decode_credentials cipher json old) in
      merged doubleservers (truthy dto.username || truthy dto.password || truthy dto.totp_secret)
        (truthy m.username && truthy m.password)
        (sealed (record blank {
          username = m.username;
          password = m.password;
          totp_secret = shown m.totp_secret;
        }))

  abbrev pub build_cloudflare : CredentialsDto → Option Bytes → Built
  build_cloudflare dto old =
      let m = merge_fields dto (decode_credentials cipher json old) in
      merged cloudflare (truthy dto.account_id || truthy dto.token)
        (truthy m.account_id && truthy m.api_token)
        (sealed (record blank { account_id = m.account_id; api_token = m.api_token }))

  abbrev pub build_porkbun : CredentialsDto → Option Bytes → Built
  build_porkbun dto old =
      let m = merge_fields dto (decode_credentials cipher json old) in
      merged porkbun (truthy dto.token || truthy dto.secret_key)
        (truthy m.api_key && truthy m.secret_api_key)
        (sealed (record blank { api_key = m.api_key; secret_api_key = m.secret_api_key }))

  abbrev pub build_spaceship : CredentialsDto → Option Bytes → Built
  build_spaceship dto old =
      let m = merge_fields dto (decode_credentials cipher json old) in
      merged spaceship (truthy dto.token || truthy dto.secret_key)
        (truthy m.api_key && truthy m.api_secret)
        (sealed (record blank { api_key = m.api_key; api_secret = m.api_secret }))

  abbrev pub store_key : Result CredentialsError Blob → Built
  store_key (err e) = err e
  store_key (ok key) = if has_key key then sealed key else err (incomplete yandex)

  abbrev pub build_yandex : Option Str → Built
  build_yandex token = elim (shown token) [
    | none ↦ ok none
    | some raw ↦ store_key (parse_yandex_key json raw)
  ]

  -- The kinds that store the bare token.
  abbrev pub build_bare : Option Str → Built
  build_bare token = elim (shown token) [
    | none ↦ ok none
    | some t ↦ ok (some (encrypt cipher iv t))
  ]

  unfoldable pub build_credentials : ConnectorKind → CredentialsDto → Option Bytes → Built
  build_credentials openrouter dto old = build_openrouter dto old
  build_credentials four_vps dto old = build_four_vps dto old
  build_credentials vdsina dto old = build_vdsina dto old
  build_credentials aeza dto old = build_aeza dto old
  build_credentials selectel dto old = build_selectel dto old
  build_credentials hostbill dto old = build_panel hostbill dto old
  build_credentials billmgr dto old = build_panel billmgr dto old
  build_credentials beget dto old = build_beget dto old
  build_credentials doubleservers dto old = build_doubleservers dto old
  build_credentials cloudflare dto old = build_cloudflare dto old
  build_credentials porkbun dto old = build_porkbun dto old
  build_credentials spaceship dto old = build_spaceship dto old
  build_credentials yandex dto old = build_yandex dto.token
  build_credentials manual dto old = ok none
  build_credentials kind dto old = build_bare dto.token
