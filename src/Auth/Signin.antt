-- ===== src/Auth/Signin.antt =====
-- webauthn.service.ts: passkeys are registered, deleted and used to sign in. Which keys there are
-- is a number here, and a test for the one that a call names; @simplewebauthn/server is a
-- parameter, by what it answers.
use infra_billing.Base.Results.{Result, ok, err, ◌>>=◌, ◌>>◌, require}
use infra_billing.Base.{Bool, Option, Str, ltb, none, not, some, truthy, ℕ, ◌&&◌, ◌-◌, ◌==◌, ◌||◌}
use infra_billing.Auth.Config.{
  AuthConfigRow, AuthState, AuthError, passkey_not_found, passkeys_disabled, no_passkeys,
  rp_missing, fields_of, telegram_usable, sign_in_possible, assert_sign_in_possible, require_row,
}

-- `requireRp`, as far as it throws.
abbrev pub require_rp : AuthConfigRow → Result AuthError (Unit {0})
require_rp r = require (truthy r.rp_id && truthy r.rp_origin) rp_missing

-- `loginOptions`, as far as it throws.
unfoldable pub login_options : AuthState → Result AuthError (Unit {0})
login_options s = do
  r ← require_row s.row
  require r.passkey_enabled passkeys_disabled
  require (not (s.passkeys == 0)) no_passkeys
  require_rp r

-- `delete` of the service; `found` tells whether the passkey is there.
unfoldable pub delete_passkey : Bool → AuthState → Result AuthError AuthState
unfolding sign_in_possible telegram_usable
delete_passkey found s = do
  r ← require_row s.row
  require found passkey_not_found
  assert_sign_in_possible (record {
    password_enabled = r.password_enabled;
    passkey_enabled = r.passkey_enabled;
    passkey_count = s.passkeys - 1;
    telegram_usable = telegram_usable (fields_of r);
  })
  ok (record s { passkeys = s.passkeys - 1 })

-- A passkey as `verifyLogin` reads it, by its counter, and what the verification reports.
pub record Assertion : Type 0 where
  pub stored_counter : Option ℕ
  pub verified : Bool
  pub new_counter : ℕ

pub data LoginError : Type 0 where
  config : AuthError → LoginError
  challenge_expired unknown_passkey not_verified counter_regression : LoginError

abbrev pub lift : {A : Type 0} → Result AuthError A → Result LoginError A
lift (ok a) = ok a
lift (err e) = err (config e)

abbrev pub known : Option ℕ → Result LoginError ℕ
known none = err unknown_passkey
known (some n) = ok n

-- `verifyLogin`, from the challenge that was taken: the counter to record, and the user.
unfoldable pub verify_login : AuthState → Option Str → Assertion → Result LoginError (ℕ × Str)
verify_login s challenge a = do
  r ← lift (require_row s.row)
  lift (require r.passkey_enabled passkeys_disabled)
  lift (require_rp r)
  require (truthy challenge) challenge_expired
  counter ← known a.stored_counter
  require a.verified not_verified
  require ((a.new_counter == 0) || ltb counter a.new_counter) counter_regression
  ok (a.new_counter, r.username)
