-- ===== src/Auth/Lockout.antt =====
-- The lockout guard of auth-config.service.ts, and the changes of the sign-in settings as steps.
pub mod Methods
use infra_billing.Base.Results.{ok}
use infra_billing.Base.{
  Bool, List, Option, Option-cases, Str, arith, false, get_or_else, if◌then◌else◌, inl, inr, none,
  or_null, refl, some, true, truthy, ℕ, ◌+◌, ◌||◌, ◌≡◌,
}
use infra_billing.Auth.Config.{
  non_empty, is_set, telegram_ready, AuthConfigRow, AuthState, SignInMethods, UpdateAuthConfig,
  creds_changed, fields_of, link_telegram, patch_config, patched, patched_row, patched_telegram,
  setup, sign_in_possible, telegram_usable, unlink_telegram,
}
use infra_billing.Auth.Signin.{delete_passkey}

-- The methods of a row, as it stands.
abbrev pub methods_work : AuthConfigRow → ℕ → Bool
methods_work r passkeys = sign_in_possible (record {
  password_enabled = r.password_enabled;
  passkey_enabled = r.passkey_enabled;
  passkey_count = passkeys;
  telegram_usable = telegram_usable (fields_of r);
})

-- There is no admin yet, or some sign-in method works.
abbrev pub IsOpenRow : AuthState → Type 0
IsOpenRow s = (r : AuthConfigRow) → s.row ≡ some r → methods_work r s.passkeys ≡ true

-- The changes of the sign-in settings, each by the call that makes it. A linked Telegram account
-- has an id that is not empty: a token without one is refused.
pub data Step (s t : AuthState) : Type 0 where
  set_up : (username hash : Str) → setup username hash s ≡ ok t → Step s t
  saved :
      (encrypt : Str → List ℕ) (dto : UpdateAuthConfig)
      → patch_config encrypt dto s ≡ ok t
      → Step s t
  unlinked : unlink_telegram s ≡ ok t → Step s t
  linked :
      (user_id : Str) (name : Option Str)
      → truthy (some user_id) ≡ true
      → link_telegram user_id name s ≡ ok t
      → Step s t
  registered : t ≡ record s { passkeys = s.passkeys + 1 } → Step s t
  deleted : (found : Bool) → delete_passkey found s ≡ ok t → Step s t

pub data Reach (s : AuthState) : AuthState → Type 0 where
  here : Reach s s
  next : {t u : AuthState} → Reach s t → Step t u → Reach s u

patched-patched {ℓ} :
    {A B : Type ℓ} (o : Option A) (f : A → B) (old : B)
    → patched o (λ _. patched o f old) old ≡ patched o f old
patched-patched none f old = refl
patched-patched (some a) f old = refl

given_or_changed :
    (given : Option Bool) (changed old : Bool)
    → (if (elim given [ none ↦ false | some b ↦ true ]) || changed
        then (if changed then false else get_or_else given old)
        else old)
      ≡ (if changed then false else get_or_else given old)
given_or_changed none true old = refl
given_or_changed none false old = refl
given_or_changed (some b) changed old = refl

secret_once :
    (o : Option Str) (f : Str → Option (List ℕ)) (old : Option (List ℕ))
    → (elim o as (λ _. Option (List ℕ)) [
      | none ↦ old
      | some s ↦ elim o as (λ _. Option (List ℕ)) [ none ↦ old | some x ↦ f x ]
    ])
      ≡ elim o as (λ _. Option (List ℕ)) [ none ↦ old | some x ↦ f x ]
secret_once none f old = refl
secret_once (some s) f old = refl

-- What the guard was asked about is what the row then holds.
fields_of-patched_row :
    (encrypt : Str → List ℕ) (dto : UpdateAuthConfig) (r : AuthConfigRow)
    → fields_of (patched_row encrypt dto r) ≡ patched_telegram encrypt dto r
unfolding patched_row patched_telegram
fields_of-patched_row encrypt dto r = λ i. record {
  enabled = given_or_changed dto.telegram_enabled (creds_changed dto r) r.telegram_enabled i;
  client_id = patched-patched dto.telegram_client_id or_null r.telegram_client_id i;
  client_secret_enc =
      secret_once (non_empty dto.telegram_client_secret) (λ x. some (encrypt x))
        r.telegram_client_secret_enc i;
  origin = patched-patched dto.telegram_origin or_null r.telegram_origin i;
  user_id = (patched_telegram encrypt dto r).user_id;
}

-- The methods that the guard of `patchConfig` is asked about.
abbrev patched_methods : (Str → List ℕ) → UpdateAuthConfig → AuthConfigRow → ℕ → SignInMethods
patched_methods encrypt dto r passkeys = record {
  password_enabled = get_or_else dto.password_enabled r.password_enabled;
  passkey_enabled = get_or_else dto.passkey_enabled r.passkey_enabled;
  passkey_count = passkeys;
  telegram_usable = telegram_usable (patched_telegram encrypt dto r);
}

methods_work-patched_row :
    (encrypt : Str → List ℕ) (dto : UpdateAuthConfig) (r : AuthConfigRow) (n : ℕ)
    → methods_work (patched_row encrypt dto r) n
      ≡ sign_in_possible (patched_methods encrypt dto r n)
methods_work-patched_row encrypt dto r n =
    rw (fields_of-patched_row encrypt dto r) (unfold patched_row in refl)

patch_config-IsOpenRow :
    (encrypt : Str → List ℕ) (dto : UpdateAuthConfig) (s t : AuthState)
    → patch_config encrypt dto s ≡ ok t
    → IsOpenRow t
unfolding patch_config
patch_config-IsOpenRow encrypt dto s t h r e = elim (Option-cases s.row) [
  | inl p ↦ absurd (ground (arith, p))
  | inr (q, p) ↦ ground (arith, p, methods_work-patched_row encrypt dto q s.passkeys)
]

delete_passkey-IsOpenRow :
    (found : Bool) (s t : AuthState) → delete_passkey found s ≡ ok t → IsOpenRow t
unfolding delete_passkey
delete_passkey-IsOpenRow found s t h r e = elim (Option-cases s.row) [
  | inl p ↦ absurd (ground (arith, p))
  | inr (q, p) ↦ ground (arith, p)
]

unlink_telegram-IsOpenRow : (s t : AuthState) → unlink_telegram s ≡ ok t → IsOpenRow t
unfolding unlink_telegram telegram_usable
unlink_telegram-IsOpenRow s t h r e = ground arith

setup-IsOpenRow :
    (username hash : Str) (s t : AuthState) → setup username hash s ≡ ok t → IsOpenRow t
unfolding setup sign_in_possible
setup-IsOpenRow username hash s t h r e = ground arith

link_telegram-IsOpenRow :
    (user_id : Str) (name : Option Str) (s t : AuthState)
    → truthy (some user_id) ≡ true
    → link_telegram user_id name s ≡ ok t
    → IsOpenRow s
    → IsOpenRow t
unfolding link_telegram sign_in_possible telegram_usable
link_telegram-IsOpenRow user_id name s t id h o r e = elim (Option-cases s.row) [
  | inl p ↦ absurd (ground (arith, p))
  | inr (q, p) ↦ ground (arith, p, o q p)
]

registered-IsOpenRow :
    (s : AuthState) → IsOpenRow s → IsOpenRow (record s { passkeys = s.passkeys + 1 })
unfolding sign_in_possible
registered-IsOpenRow s o r e = ground (arith, o r e)

Step-IsOpenRow : {s t : AuthState} → Step s t → IsOpenRow s → IsOpenRow t
Step-IsOpenRow {s} {t} (set_up username hash h) o = setup-IsOpenRow username hash s t h
Step-IsOpenRow {s} {t} (saved encrypt dto h) o = patch_config-IsOpenRow encrypt dto s t h
Step-IsOpenRow {s} {t} (unlinked h) o = unlink_telegram-IsOpenRow s t h
Step-IsOpenRow {s} {t} (linked user_id name id h) o =
    link_telegram-IsOpenRow user_id name s t id h o
Step-IsOpenRow {s} {t} (registered e) o = rw e (registered-IsOpenRow s o)
Step-IsOpenRow {s} {t} (deleted found h) o = delete_passkey-IsOpenRow found s t h

pub Reach-IsOpenRow : {s t : AuthState} → Reach s t → IsOpenRow s → IsOpenRow t
Reach-IsOpenRow here o = o
Reach-IsOpenRow (next r st) o = Step-IsOpenRow st (Reach-IsOpenRow r o)
