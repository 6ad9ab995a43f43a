-- ===== src/Credentials.antt =====
-- provider-credentials.service.ts: the stored credentials of an account, one layout for each
-- connector kind. JSON and the cipher are parameters. The object that a stored text stands for is a
-- record of the fields that the code reads and writes; a text that is not the JSON of an object has
-- none.
pub mod Urls
pub mod Stored
pub mod Build
pub mod Hints
pub mod Merge
pub mod Branch
pub mod Presence
use infra_billing.Base.{Bool, Option, Str, none, or_null, some}
use infra_billing.Crypto.{Bytes, Cipher}

-- The kinds of `providerKindSchema`.
pub data ConnectorKind : Type 0 where
  timeweb hetzner hostkey netcup hostbill billmgr selectel four_vps : ConnectorKind
  netlen beget porkbun spaceship vultr linode aeza vdsina : ConnectorKind
  cloudflare stormwall netangels yandex doubleservers openrouter hostup manual : ConnectorKind

-- What a request may give of credentials; `none` is a field that it does not have.
pub record CredentialsDto : Type 0 where
  pub token : Option Str
  pub base_url : Option Str
  pub username : Option Str
  pub password : Option Str
  pub totp_secret : Option Str
  pub account_id : Option Str
  pub project_name : Option Str
  pub panel_id : Option Str
  pub api_password : Option Str
  pub secret_key : Option Str
  pub use_catalog_names : Option Bool

-- The fields of a stored JSON object.
pub record Blob : Type 0 where
  pub token : Option Str
  pub base_url : Option Str
  pub username : Option Str
  pub password : Option Str
  pub totp_secret : Option Str
  pub account_id : Option Str
  pub project_name : Option Str
  pub panel_id : Option Str
  pub api_password : Option Str
  pub api_token : Option Str
  pub api_key : Option Str
  pub secret_api_key : Option Str
  pub api_secret : Option Str
  pub key_id : Option Str
  pub service_account_id : Option Str
  pub private_key : Option Str
  pub use_catalog_names : Option Bool

-- `{}`.
abbrev pub blank : Blob
blank = record {
  token = none;
  base_url = none;
  username = none;
  password = none;
  totp_secret = none;
  account_id = none;
  project_name = none;
  panel_id = none;
  api_password = none;
  api_token = none;
  api_key = none;
  secret_api_key = none;
  api_secret = none;
  key_id = none;
  service_account_id = none;
  private_key = none;
  use_catalog_names = none;
}

-- The authorized key of a service account, as its JSON file has it.
pub record KeyFile : Type 0 where
  pub id : Option Str
  pub service_account_id : Option Str
  pub private_key : Option Str

-- `JSON.parse` and `JSON.stringify` on these objects: `parse` gives `none` where the text is not the
-- JSON of an object, `is_null` says whether it is the JSON `null`, and `parse_key` gives `none` where
-- it is not JSON.
pub record JsonText : Type 0 where
  pub parse : Str → Option Blob
  pub is_null : Str → Bool
  pub print : Blob → Str
  pub parse_key : Str → Option KeyFile
  pub print_key : KeyFile → Str

-- `ProviderCredentialsReveal`.
pub record Reveal : Type 0 where
  pub token : Option Str
  pub password : Option Str
  pub totp_secret : Option Str
  pub api_password : Option Str
  pub secret_key : Option Str

abbrev pub no_secrets : Reveal
no_secrets = record {
  token = none;
  password = none;
  totp_secret = none;
  api_password = none;
  secret_key = none;
}

pub data CredentialsError : Type 0 where
  incomplete foreign_base_url : ConnectorKind → CredentialsError
  not_a_key_file key_field_missing stored_key_incomplete : CredentialsError

-- `a ?? b`.
abbrev pub or_else : Option Str → Option Str → Option Str
or_else none b = b
or_else (some a) b = some a

-- `if (s) out.field = s`: an empty text is left out.
abbrev pub shown : Option Str → Option Str
shown none = none
shown (some s) = or_null s
