-- ===== src/Tests/Auth.antt =====
-- An admin who is set up, registers a passkey and turns the password off; requests with a token.
use infra_billing.Base.{
  List, [], arith, codes, false, is_space, none, refl, some, str_eq, trim, trim_end, trim_start,
  true, ◌+◌, ◌<◌, ◌↔◌, ◌∷◌, ◌≡◌, ◌≤◌,
}
use infra_billing.Base.Results.{ok, err}
use infra_billing.Auth.Config.{
  AuthState, AuthConfigRow, UpdateAuthConfig, rp_missing, setup, patch_config, sign_in_possible,
  creds_changed, patched_telegram, patched_row, telegram_ready, telegram_usable,
}
use infra_billing.Auth.Signin.{login_options}
use infra_billing.Auth.Lockout.{set_up, saved, registered, here, next}
use infra_billing.Auth.Lockout.Methods.{HasWayIn, Reach-HasWayIn}
use infra_billing.Auth.RelyingParty.{clear_rp, patch_config-locks_out}
use infra_billing.Auth.Challenge.{
  ChallengeStore, login, register, take, put, run, putting, take-once, take-put,
}
use infra_billing.Auth.Guard.{Route, Request, get, ApiToken, read, token, can_activate}
use infra_billing.Auth.Guard.Access.{MayUse, shown, can_activate-MayUse}

abbrev fresh_row : AuthConfigRow
fresh_row = record {
  username = codes "admin";
  password_hash = some (codes "hash");
  password_enabled = true;
  passkey_enabled = false;
  rp_id = none;
  rp_name = none;
  rp_origin = none;
  telegram_enabled = false;
  telegram_client_id = none;
  telegram_client_secret_enc = none;
  telegram_origin = none;
  telegram_user_id = none;
  telegram_display_name = none;
}

abbrev passkey_row : AuthConfigRow
passkey_row = record fresh_row {
  password_enabled = false;
  passkey_enabled = true;
  rp_id = some (codes "example.org");
  rp_origin = some (codes "https://example.org");
}

abbrev to_passkey : UpdateAuthConfig
to_passkey = record {
  password_enabled = some false;
  passkey_enabled = some true;
  rp_id = some (codes "example.org");
  rp_name = none;
  rp_origin = some (codes "https://example.org");
  telegram_enabled = none;
  telegram_client_id = none;
  telegram_client_secret = none;
  telegram_origin = none;
}

abbrev nobody : AuthState
nobody = record { row = none; passkeys = 0 }

abbrev admin : AuthState
admin = record { row = some fresh_row; passkeys = 0 }

abbrev with_key : AuthState
with_key = record { row = some fresh_row; passkeys = 1 }

abbrev passkey_only : AuthState
passkey_only = record { row = some passkey_row; passkeys = 1 }

set_up_step : setup (codes "admin") (codes "hash") nobody ≡ ok admin
unfolding setup
set_up_step = refl

saved_step : patch_config (λ s. s) to_passkey with_key ≡ ok passkey_only
unfolding patch_config sign_in_possible creds_changed patched_telegram patched_row telegram_ready
    telegram_usable trim trim_start trim_end str_eq is_space
saved_step = refl

Reach-HasWayIn_example : HasWayIn passkey_only.row passkey_only.passkeys
Reach-HasWayIn_example =
    Reach-HasWayIn
      (next (next (next here (set_up (codes "admin") (codes "hash") set_up_step)) (registered refl))
        (saved (λ s. s) to_passkey saved_step))
      tt

patch_config-locks_out_example :
    (t : AuthState) × (q : AuthConfigRow) × (patch_config (λ s. s) clear_rp passkey_only ≡ ok t)
    × (t.row ≡ some q)
    × (login_options t ≡ err rp_missing)
    × (q.password_enabled ≡ false)
    × (q.telegram_enabled ≡ false)
patch_config-locks_out_example =
    patch_config-locks_out (λ s. s) passkey_only passkey_row refl refl refl refl (omega arith)

abbrev store : ChallengeStore
store = put login (codes "c") 5 (record { on_register = none; on_login = none })

take-once_example :
    (take login 9 (run (putting register (codes "d") 8 ∷ []) (take login 7 store).1).1).0 ≡ none
take-once_example = take-once login store 7 9 (putting register (codes "d") 8 ∷ []) refl

take-put_example :
    (60005 ≤ 5 + 60000
      → (take login 60005
          (run (putting register (codes "d") 8 ∷ []) (put login (codes "c") 5 store)).1).0
        ≡ some (codes "c"))
    × (5 + 60000 < 60005
        → (take login 60005
            (run (putting register (codes "d") 8 ∷ []) (put login (codes "c") 5 store)).1).0
          ≡ none)
take-put_example =
    take-put login (codes "c") store 5 60005 (putting register (codes "d") 8 ∷ []) refl

abbrev route : Route
route = record { is_public = false; session_only = false; allow_read_only = false }

abbrev request : Request
request = record {
  authorization = some (codes "bearer  abc ");
  session_cookie = none;
  method = get;
}

abbrev tokens : List ApiToken
tokens =
    record {
      uuid = codes "t";
      token_name = codes "reader";
      token_hash = codes "abc";
      scope = read;
      last_used_at = none;
    }
    ∷ []

can_activate-MayUse_example :
    ((can_activate (λ s. s) (λ c. none) route request 100 tokens).0
      ≡ ok (token (codes "reader") read))
    ↔ ((shown (λ s. s) (λ c. none) request 100 tokens ≡ token (codes "reader") read)
        × MayUse route get (token (codes "reader") read))
can_activate-MayUse_example =
    can_activate-MayUse (λ s. s) (λ c. none) route request 100 tokens (token (codes "reader") read)
      refl
