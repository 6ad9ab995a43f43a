-- ===== src/Credentials/Hints.antt =====
-- `hints` of provider-credentials.service.ts: what the edit form is told of the stored credentials
-- without a secret. The outer `none` is a field that the answer does not have.
use infra_billing.Base.{Bool, Option, Str, false, none, some, true, truthy}
use infra_billing.Crypto.{Bytes, Cipher}
use infra_billing.Credentials.{
  ConnectorKind, JsonText, hostbill, billmgr, selectel, four_vps, beget, porkbun, spaceship, aeza,
  vdsina, cloudflare, yandex, doubleservers, openrouter, manual,
}
use infra_billing.Credentials.Stored.{
  decode_credentials, decode_aeza_credentials, decode_open_router_credentials, has_key, not_false,
}

pub record NonSecretHints : Type 0 where
  pub account_id : Option (Option Str)
  pub username : Option (Option Str)
  pub project_name : Option (Option Str)
  pub panel_id : Option (Option Str)
  pub base_url : Option (Option Str)
  pub use_catalog_names : Option Bool

abbrev pub no_hints : NonSecretHints
no_hints = record {
  account_id = none;
  username = none;
  project_name = none;
  panel_id = none;
  base_url = none;
  use_catalog_names = none;
}

pub record SecretPresence : Type 0 where
  pub has_token : Option Bool
  pub has_password : Option Bool
  pub has_totp_secret : Option Bool
  pub has_api_password : Option Bool
  pub has_secret_key : Option Bool

-- The answer where nothing is stored.
abbrev pub absent : SecretPresence
absent = record {
  has_token = some false;
  has_password = some false;
  has_totp_secret = some false;
  has_api_password = some false;
  has_secret_key = some false;
}

abbrev pub no_flags : SecretPresence
no_flags = record {
  has_token = none;
  has_password = none;
  has_totp_secret = none;
  has_api_password = none;
  has_secret_key = none;
}

module _ (cipher : Cipher) (json : JsonText) where
  -- `nonSecretHints`.
  unfoldable pub non_secret_hints : ConnectorKind → Option Bytes → NonSecretHints
  non_secret_hints selectel enc =
      let c = decode_credentials cipher json enc in
      record no_hints {
        account_id = some c.account_id;
        username = some c.username;
        project_name = some c.project_name;
      }
  non_secret_hints four_vps enc =
      let c = decode_credentials cipher json enc in record no_hints { panel_id = some c.panel_id }
  non_secret_hints vdsina enc =
      let c = decode_credentials cipher json enc in record no_hints { base_url = some c.base_url }
  non_secret_hints aeza enc =
      let c = decode_aeza_credentials cipher json enc in
      record no_hints { base_url = some c.base_url }
  non_secret_hints openrouter enc =
      let c = decode_open_router_credentials cipher json enc in
      record no_hints { use_catalog_names = some (not_false c.use_catalog_names) }
  non_secret_hints beget enc =
      let c = decode_credentials cipher json enc in record no_hints { username = some c.username }
  non_secret_hints doubleservers enc =
      let c = decode_credentials cipher json enc in record no_hints { username = some c.username }
  non_secret_hints cloudflare enc =
      let c = decode_credentials cipher json enc in
      record no_hints { account_id = some c.account_id }
  non_secret_hints hostbill enc =
      let c = decode_credentials cipher json enc in
      record no_hints { base_url = some c.base_url; username = some c.username }
  non_secret_hints billmgr enc =
      let c = decode_credentials cipher json enc in
      record no_hints { base_url = some c.base_url; username = some c.username }
  non_secret_hints _ enc = no_hints

  -- `secretPresence` where something is stored.
  unfoldable pub stored_presence : ConnectorKind → Bytes → SecretPresence
  stored_presence openrouter enc = record no_flags {
    has_token = some (truthy (decode_open_router_credentials cipher json (some enc)).token);
  }
  stored_presence aeza enc = record no_flags {
    has_token = some (truthy (decode_aeza_credentials cipher json (some enc)).token);
  }
  stored_presence four_vps enc =
      let c = decode_credentials cipher json (some enc) in
      record no_flags { has_token = some (truthy c.token) }
  stored_presence vdsina enc =
      let c = decode_credentials cipher json (some enc) in
      record no_flags { has_token = some (truthy c.token) }
  stored_presence cloudflare enc =
      let c = decode_credentials cipher json (some enc) in
      record no_flags { has_token = some (truthy c.api_token) }
  stored_presence porkbun enc =
      let c = decode_credentials cipher json (some enc) in
      record no_flags {
        has_token = some (truthy c.api_key);
        has_secret_key = some (truthy c.secret_api_key);
      }
  stored_presence spaceship enc =
      let c = decode_credentials cipher json (some enc) in
      record no_flags {
        has_token = some (truthy c.api_key);
        has_secret_key = some (truthy c.api_secret);
      }
  stored_presence yandex enc = record no_flags {
    has_token = some (has_key (decode_credentials cipher json (some enc)));
  }
  stored_presence selectel enc =
      let c = decode_credentials cipher json (some enc) in
      record no_flags { has_password = some (truthy c.password) }
  stored_presence billmgr enc =
      let c = decode_credentials cipher json (some enc) in
      record no_flags {
        has_password = some (truthy c.password);
        has_totp_secret = some (truthy c.totp_secret);
      }
  stored_presence hostbill enc =
      let c = decode_credentials cipher json (some enc) in
      record no_flags {
        has_password = some (truthy c.password);
        has_totp_secret = some (truthy c.totp_secret);
      }
  stored_presence beget enc =
      let c = decode_credentials cipher json (some enc) in
      record no_flags {
        has_password = some (truthy c.password);
        has_totp_secret = some (truthy c.totp_secret);
        has_api_password = some (truthy c.api_password);
      }
  stored_presence doubleservers enc =
      let c = decode_credentials cipher json (some enc) in
      record no_flags {
        has_password = some (truthy c.password);
        has_totp_secret = some (truthy c.totp_secret);
      }
  stored_presence _ enc = record no_flags { has_token = some true }

  -- `secretPresence`.
  unfoldable pub secret_presence : ConnectorKind → Option Bytes → SecretPresence
  secret_presence manual enc = absent
  secret_presence kind none = absent
  secret_presence kind (some enc) = stored_presence kind enc
