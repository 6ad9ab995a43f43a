-- ===== src/Auth/RelyingParty.antt =====
-- The lockout guard and the relying party of the passkeys.
use infra_billing.Base.Results.{ok, err}
use infra_billing.Base.{
  List, Option, Str, [], arith, false, none, opt_eq, refl, some, str_eq_refl, trim, true, ℕ, ◌<◌,
  ◌≡◌,
}
use infra_billing.Auth.Config.{
  AuthConfigRow, AuthState, UpdateAuthConfig, creds_changed, patch_config, patched_row,
  patched_telegram, rp_missing, sign_in_possible, telegram_usable,
}
use infra_billing.Auth.Signin.{login_options}

-- The patch that clears the relying party of the passkeys, and says nothing else.
abbrev pub clear_rp : UpdateAuthConfig
clear_rp = record {
  password_enabled = none;
  passkey_enabled = none;
  rp_id = some [];
  rp_name = none;
  rp_origin = none;
  telegram_enabled = none;
  telegram_client_id = none;
  telegram_client_secret = none;
  telegram_origin = none;
}

opt_eq_refl : (o : Option Str) → opt_eq o o ≡ true
opt_eq_refl none = refl
opt_eq_refl (some s) = str_eq_refl s

-- The guard does not look at the relying party. For an owner whose password and Telegram sign-in
-- are off and who signs in with a passkey, clearing the relying party is accepted, and from then on
-- a passkey login cannot start either; the password and Telegram stay off.
pub patch_config-locks_out :
    (encrypt : Str → List ℕ) (s : AuthState) (r : AuthConfigRow)
    → s.row ≡ some r
    → r.password_enabled ≡ false
    → r.telegram_enabled ≡ false
    → r.passkey_enabled ≡ true
    → 0 < s.passkeys
    → (t : AuthState) × (q : AuthConfigRow) × (patch_config encrypt clear_rp s ≡ ok t)
      × (t.row ≡ some q)
      × (login_options t ≡ err rp_missing)
      × (q.password_enabled ≡ false)
      × (q.telegram_enabled ≡ false)
unfolding patch_config sign_in_possible telegram_usable patched_telegram creds_changed login_options
    patched_row trim
patch_config-locks_out encrypt s r e p t k n = (
  record s { row = some (patched_row encrypt clear_rp r) },
  patched_row encrypt clear_rp r,
  ground (arith, e, opt_eq_refl r.telegram_client_id, opt_eq_refl r.telegram_origin),
  refl,
  ground arith,
  p,
  ground arith,
)
