-- ===== src/Auth/Config.antt =====
-- auth-config.service.ts: the row of the admin and its changes, behind the lockout guard.
use infra_billing.Base.Results.{Result, ok, err, ◌>>=◌, ◌>>◌, require}
use infra_billing.Base.{
  Bool, List, Option, Str, false, get_or_else, if◌then◌else◌, ltb, none, not, opt_eq, or_null, some,
  trim, true, truthy, ℕ, ◌&&◌, ◌||◌,
}

-- The columns of `auth_config` that the services read and write. A key in bytes is a list of them.
pub record AuthConfigRow : Type 0 where
  pub username : Str
  pub password_hash : Option Str
  pub password_enabled : Bool
  pub passkey_enabled : Bool
  pub rp_id : Option Str
  pub rp_name : Option Str
  pub rp_origin : Option Str
  pub telegram_enabled : Bool
  pub telegram_client_id : Option Str
  pub telegram_client_secret_enc : Option (List ℕ)
  pub telegram_origin : Option Str
  pub telegram_user_id : Option Str
  pub telegram_display_name : Option Str

-- `UpdateAuthConfig`: `none` is a field that the patch does not have.
pub record UpdateAuthConfig : Type 0 where
  pub password_enabled : Option Bool
  pub passkey_enabled : Option Bool
  pub rp_id : Option Str
  pub rp_name : Option Str
  pub rp_origin : Option Str
  pub telegram_enabled : Option Bool
  pub telegram_client_id : Option Str
  pub telegram_client_secret : Option Str
  pub telegram_origin : Option Str

-- The exceptions of the auth services, by what they say.
pub data AuthError : Type 0 where
  not_configured already_configured link_first no_sign_in_method : AuthError
  passkey_not_found passkeys_disabled no_passkeys rp_missing : AuthError

pub record SignInMethods : Type 0 where
  pub password_enabled : Bool
  pub passkey_enabled : Bool
  pub passkey_count : ℕ
  pub telegram_usable : Bool

-- `TelegramFields`.
pub record TelegramFields : Type 0 where
  pub enabled : Bool
  pub client_id : Option Str
  pub client_secret_enc : Option (List ℕ)
  pub origin : Option Str
  pub user_id : Option Str

-- The admin's row, if there is one, and the number of registered passkeys.
pub record AuthState : Type 0 where
  pub row : Option AuthConfigRow
  pub passkeys : ℕ

abbrev pub fields_of : AuthConfigRow → TelegramFields
fields_of r = record {
  enabled = r.telegram_enabled;
  client_id = r.telegram_client_id;
  client_secret_enc = r.telegram_client_secret_enc;
  origin = r.telegram_origin;
  user_id = r.telegram_user_id;
}

abbrev pub is_set : Option (List ℕ) → Bool
is_set none = false
is_set (some bytes) = true

-- `telegramReady`.
unfoldable pub telegram_ready : TelegramFields → Bool
telegram_ready t =
    truthy t.client_id && is_set t.client_secret_enc && truthy t.origin && truthy t.user_id

-- `telegramUsable`.
unfoldable pub telegram_usable : TelegramFields → Bool
unfolding telegram_ready
telegram_usable t = t.enabled && telegram_ready t

-- The test of `assertSignInPossible`.
unfoldable pub sign_in_possible : SignInMethods → Bool
sign_in_possible m =
    m.password_enabled || (m.passkey_enabled && ltb 0 m.passkey_count) || m.telegram_usable

-- `assertSignInPossible`.
abbrev pub assert_sign_in_possible : SignInMethods → Result AuthError (Unit {0})
assert_sign_in_possible m = require (sign_in_possible m) no_sign_in_method

-- `requireRow`.
abbrev pub require_row : Option AuthConfigRow → Result AuthError AuthConfigRow
require_row none = err not_configured
require_row (some r) = ok r

-- `dto.x !== undefined ? f(dto.x) : old`.
abbrev pub patched {ℓ} : {A B : Type ℓ} → Option A → (A → B) → B → B
patched none f old = old
patched (some a) f old = f a

abbrev pub non_empty : Option Str → Option Str
non_empty none = none
non_empty (some s) = or_null s

-- `credsChanged`.
unfoldable pub creds_changed : UpdateAuthConfig → AuthConfigRow → Bool
creds_changed dto r =
    not (opt_eq (patched dto.telegram_client_id or_null r.telegram_client_id) r.telegram_client_id)
    || not (opt_eq (patched dto.telegram_origin or_null r.telegram_origin) r.telegram_origin)
    || is_set (non_empty dto.telegram_client_secret)

-- The encryption of a secret draws a random nonce, which is an argument here.
module _ (encrypt : Str → List ℕ) where
  -- `telegram`, the Telegram values after the patch.
  unfoldable pub patched_telegram : UpdateAuthConfig → AuthConfigRow → TelegramFields
  patched_telegram dto r = record {
    enabled =
        if creds_changed dto r then false else get_or_else dto.telegram_enabled r.telegram_enabled;
    client_id = patched dto.telegram_client_id or_null r.telegram_client_id;
    client_secret_enc = elim (non_empty dto.telegram_client_secret) [
      | none ↦ r.telegram_client_secret_enc
      | some secret ↦ some (encrypt secret)
    ];
    origin = patched dto.telegram_origin or_null r.telegram_origin;
    user_id = if creds_changed dto r then none else r.telegram_user_id;
  }

  -- `dto.telegramEnabled === true`.
  abbrev pub wants_telegram : UpdateAuthConfig → Bool
  wants_telegram dto = get_or_else dto.telegram_enabled false

  abbrev pub is_given : Option Bool → Bool
  is_given none = false
  is_given (some b) = true

  -- The row after `repo.update(data)`: a field that `data` does not have keeps its value.
  unfoldable pub patched_row : UpdateAuthConfig → AuthConfigRow → AuthConfigRow
  patched_row dto r =
      let t = patched_telegram dto r in
      let changed = creds_changed dto r in
      record r {
        password_enabled = get_or_else dto.password_enabled r.password_enabled;
        passkey_enabled = get_or_else dto.passkey_enabled r.passkey_enabled;
        rp_id = patched dto.rp_id (λ s. or_null (trim s)) r.rp_id;
        rp_name = patched dto.rp_name (λ s. or_null (trim s)) r.rp_name;
        rp_origin = patched dto.rp_origin (λ s. or_null (trim s)) r.rp_origin;
        telegram_client_id = patched dto.telegram_client_id (λ s. t.client_id) r.telegram_client_id;
        telegram_origin = patched dto.telegram_origin (λ s. t.origin) r.telegram_origin;
        telegram_client_secret_enc = elim (non_empty dto.telegram_client_secret) [
          | none ↦ r.telegram_client_secret_enc
          | some secret ↦ t.client_secret_enc
        ];
        telegram_enabled =
            if is_given dto.telegram_enabled || changed then t.enabled else r.telegram_enabled;
        telegram_user_id = if changed then none else r.telegram_user_id;
        telegram_display_name = if changed then none else r.telegram_display_name;
      }

  -- `patchConfig`, which changes the row or throws.
  unfoldable pub patch_config : UpdateAuthConfig → AuthState → Result AuthError AuthState
  patch_config dto s = do
    r ← require_row s.row
    let t = patched_telegram dto r
    require (creds_changed dto r || not (wants_telegram dto) || telegram_ready t) link_first
    assert_sign_in_possible (record {
      password_enabled = get_or_else dto.password_enabled r.password_enabled;
      passkey_enabled = get_or_else dto.passkey_enabled r.passkey_enabled;
      passkey_count = s.passkeys;
      telegram_usable = telegram_usable t;
    })
    ok (record s { row = some (patched_row dto r) })

-- `unlinkTelegram`.
unfoldable pub unlink_telegram : AuthState → Result AuthError AuthState
unfolding sign_in_possible
unlink_telegram s = do
  r ← require_row s.row
  assert_sign_in_possible (record {
    password_enabled = r.password_enabled;
    passkey_enabled = r.passkey_enabled;
    passkey_count = s.passkeys;
    telegram_usable = false;
  })
  ok (record s {
    row = some (record r {
      telegram_user_id = none;
      telegram_display_name = none;
      telegram_enabled = false;
    });
  })

-- `linkTelegram`; the update fails where there is no row.
unfoldable pub link_telegram : Str → Option Str → AuthState → Result AuthError AuthState
link_telegram user_id display_name s = do
  r ← require_row s.row
  ok (record s {
    row = some (record r {
      telegram_user_id = some user_id;
      telegram_display_name = display_name;
      telegram_enabled = true;
    });
  })

-- `setup`, with the hash of the password.
unfoldable pub setup : Str → Str → AuthState → Result AuthError AuthState
setup username hash s = elim s.row [
  | some r ↦ err already_configured
  | none ↦ ok (record s {
    row = some (record {
      username = username;
      password_hash = some hash;
      password_enabled = true;
      passkey_enabled = false;
      rp_id = none;
      rp_name = none;
      rp_origin = none;
      telegram_enabled = false;
      telegram_client_id = none;
      telegram_client_secret_enc = none;
      telegram_origin = none;
      telegram_user_id = none;
      telegram_display_name = none;
    });
  })
]
