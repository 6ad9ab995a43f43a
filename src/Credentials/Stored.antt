-- ===== src/Credentials/Stored.antt =====
-- Reading the stored credentials: the decoders of provider-credentials.service.ts, `reveal`, and
-- the parsers of aeza.types.ts and openrouter.types.ts.
use infra_billing.Base.{
  Bool, Option, Str, false, get_or_else, if◌then◌else◌, none, not, or_null, some, true, truthy,
  ◌&&◌,
}
use infra_billing.Base.Results.{Result, ok, err}
use infra_billing.Crypto.{Bytes, Cipher, decrypt}
use infra_billing.Credentials.{
  ConnectorKind, JsonText, Blob, blank, KeyFile, Reveal, no_secrets, CredentialsError, shown,
  hostbill, billmgr, selectel, four_vps, beget, porkbun, spaceship, aeza, vdsina, cloudflare,
  yandex, doubleservers, openrouter, manual, incomplete, not_a_key_file, key_field_missing,
  stored_key_incomplete,
}

-- `useCatalogNames !== false`.
abbrev pub not_false : Option Bool → Bool
not_false (some false) = false
not_false _ = true

-- Whether the three fields of a Yandex key are there.
abbrev pub has_key : Blob → Bool
has_key c = truthy c.key_id && truthy c.service_account_id && truthy c.private_key

abbrev pub key_file : Blob → KeyFile
key_file c = record {
  id = c.key_id;
  service_account_id = c.service_account_id;
  private_key = c.private_key;
}

module _ (json : JsonText) where
  -- `parseAezaCredentials`: JSON, or a bare key.
  abbrev pub parse_aeza_credentials : Str → Blob
  parse_aeza_credentials raw = get_or_else (json.parse raw) (record blank { token = some raw })

  -- `parseOpenRouterCredentials`.
  abbrev pub open_router_of : Str → Blob → Blob
  open_router_of raw b = elim b.token [
    | none ↦ record blank { token = some raw; use_catalog_names = some true }
    | some t ↦ record blank {
      token = some t;
      use_catalog_names = some (not_false b.use_catalog_names);
    }
  ]

  abbrev pub parse_open_router_credentials : Str → Blob
  parse_open_router_credentials raw = open_router_of raw (get_or_else (json.parse raw) blank)

  -- What `reveal` shows of a decoded object, for the kinds that store JSON.
  unfoldable pub secrets_of : ConnectorKind → Blob → Reveal
  secrets_of cloudflare c = record no_secrets { token = shown c.api_token }
  secrets_of porkbun c = record no_secrets {
    token = shown c.api_key;
    secret_key = shown c.secret_api_key;
  }
  secrets_of spaceship c = record no_secrets {
    token = shown c.api_key;
    secret_key = shown c.api_secret;
  }
  secrets_of yandex c =
      if has_key c
      then record no_secrets { token = some (json.print_key (key_file c)) }
      else no_secrets
  secrets_of selectel c = record no_secrets { password = shown c.password }
  secrets_of billmgr c = record no_secrets {
    password = shown c.password;
    totp_secret = shown c.totp_secret;
  }
  secrets_of hostbill c = record no_secrets {
    password = shown c.password;
    totp_secret = shown c.totp_secret;
  }
  secrets_of beget c = record no_secrets {
    password = shown c.password;
    totp_secret = shown c.totp_secret;
    api_password = shown c.api_password;
  }
  secrets_of doubleservers c = record no_secrets {
    password = shown c.password;
    totp_secret = shown c.totp_secret;
  }
  secrets_of _ c = record no_secrets { token = shown c.token }

  -- `parseYandexKey`.
  unfoldable pub parse_yandex_key : Str → Result CredentialsError Blob
  parse_yandex_key raw = elim (json.parse_key raw) [
    | none ↦ err not_a_key_file
    | some k ↦
        if truthy k.id && truthy k.service_account_id && truthy k.private_key
        then ok (record blank {
          key_id = k.id;
          service_account_id = k.service_account_id;
          private_key = k.private_key;
        })
        else err key_field_missing
  ]

  -- `yandexCredsFromKey`.
  unfoldable pub yandex_creds_from_key : Str → Result CredentialsError Blob
  yandex_creds_from_key raw = elim (parse_yandex_key raw) [
    | err e ↦ err e
    | ok key ↦ if has_key key then ok key else err (incomplete yandex)
  ]

module _ (cipher : Cipher) (json : JsonText) where
  -- `decryptRaw`.
  unfoldable pub decrypt_raw : Bytes → Option Str
  decrypt_raw enc = elim (decrypt cipher enc) [ ok raw ↦ or_null raw | err e ↦ none ]

  -- A field of what `decodeCredentials` gives can be read: the JSON text `null` gives a value that
  -- has none, and reading one throws.
  abbrev pub is_readable : Option Bytes → Bool
  is_readable none = true
  is_readable (some enc) = elim (decrypt cipher enc) [
    | ok raw ↦ not (json.is_null raw)
    | err e ↦ true
  ]

  -- `decodeCredentials`, as the reader of its fields sees it where they are readable; a JSON value
  -- that is not an object has no fields.
  unfoldable pub decode_credentials : Option Bytes → Blob
  decode_credentials none = blank
  decode_credentials (some enc) = elim (decrypt cipher enc) [
    | ok raw ↦ get_or_else (json.parse raw) blank
    | err e ↦ blank
  ]

  -- `decodeAezaCredentials`.
  unfoldable pub decode_aeza_credentials : Option Bytes → Blob
  decode_aeza_credentials none = blank
  decode_aeza_credentials (some enc) = elim (decrypt_raw enc) [
    | none ↦ blank
    | some raw ↦ parse_aeza_credentials json raw
  ]

  -- `decodeOpenRouterCredentials`.
  unfoldable pub decode_open_router_credentials : Option Bytes → Blob
  decode_open_router_credentials none = blank
  decode_open_router_credentials (some enc) = elim (decrypt_raw enc) [
    | none ↦ blank
    | some raw ↦ parse_open_router_credentials json raw
  ]

  -- `reveal`.
  unfoldable pub reveal : ConnectorKind → Option Bytes → Reveal
  reveal manual enc = no_secrets
  reveal kind none = no_secrets
  reveal openrouter enc = secrets_of json openrouter (decode_open_router_credentials enc)
  reveal aeza enc = secrets_of json aeza (decode_aeza_credentials enc)
  reveal four_vps enc = secrets_of json four_vps (decode_credentials enc)
  reveal vdsina enc = secrets_of json vdsina (decode_credentials enc)
  reveal cloudflare enc = secrets_of json cloudflare (decode_credentials enc)
  reveal porkbun enc = secrets_of json porkbun (decode_credentials enc)
  reveal spaceship enc = secrets_of json spaceship (decode_credentials enc)
  reveal yandex enc = secrets_of json yandex (decode_credentials enc)
  reveal selectel enc = secrets_of json selectel (decode_credentials enc)
  reveal billmgr enc = secrets_of json billmgr (decode_credentials enc)
  reveal hostbill enc = secrets_of json hostbill (decode_credentials enc)
  reveal beget enc = secrets_of json beget (decode_credentials enc)
  reveal doubleservers enc = secrets_of json doubleservers (decode_credentials enc)
  reveal kind (some enc) = record no_secrets { token = decrypt_raw enc }

  -- `yandexCredsFromStored`.
  unfoldable pub yandex_creds_from_stored : Option Bytes → Result CredentialsError KeyFile
  yandex_creds_from_stored enc =
      let c = decode_credentials enc in
      if has_key c then ok (key_file c) else err stored_key_incomplete
