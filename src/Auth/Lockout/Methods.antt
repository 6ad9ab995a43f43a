-- ===== src/Auth/Lockout/Methods.antt =====
-- The ways to sign in that the guard of auth-config.service.ts leaves, read off the columns.
use infra_billing.Base.{
  Bool-cases, List, Option, Option-cases, arith, inl, inr, ltb, none, refl, some, true, truthy, ℕ,
  ◌&&◌, ◌<◌, ◌≡◌,
}
use infra_billing.Auth.Config.{
  AuthConfigRow, AuthState, is_set, sign_in_possible, telegram_ready, telegram_usable,
}
use infra_billing.Auth.Lockout.{IsOpenRow, Reach, Reach-IsOpenRow, methods_work}

-- A way to sign in, column by column: the password is on; or passkeys are on and one is registered;
-- or Telegram is on, its client id, secret and origin are there, and so is the linked account.
pub data HasMethod (r : AuthConfigRow) (passkeys : ℕ) : Type 0 where
  by_password : r.password_enabled ≡ true → HasMethod r passkeys
  by_passkey : r.passkey_enabled ≡ true → 0 < passkeys → HasMethod r passkeys
  by_telegram :
      r.telegram_enabled ≡ true
      → truthy r.telegram_client_id ≡ true
      → ¬ (r.telegram_client_secret_enc ≡ none)
      → truthy r.telegram_origin ≡ true
      → truthy r.telegram_user_id ≡ true
      → HasMethod r passkeys

-- There is no admin yet, or the admin's row has a method.
abbrev pub HasWayIn : Option AuthConfigRow → ℕ → Type 0
HasWayIn none passkeys = Unit
HasWayIn (some r) passkeys = HasMethod r passkeys

is_set-some : (o : Option (List ℕ)) → is_set o ≡ true → ¬ (o ≡ none)
is_set-some none h e = absurd (ground (arith, h))
is_set-some (some b) h e = absurd (cc)

some-is_set : (o : Option (List ℕ)) → ¬ (o ≡ none) → is_set o ≡ true
some-is_set none h = absurd (h refl)
some-is_set (some b) h = refl

-- What the guard lets through has a method.
methods_work-HasMethod : (r : AuthConfigRow) (n : ℕ) → methods_work r n ≡ true → HasMethod r n
unfolding sign_in_possible telegram_usable telegram_ready
methods_work-HasMethod r n h = elim (Bool-cases r.password_enabled) [
  | inl y ↦ by_password y
  | inr p ↦ elim (Bool-cases (r.passkey_enabled && ltb 0 n)) [
    | inl y ↦ by_passkey (ground (arith, y)) (ground (arith, y))
    | inr k ↦
        by_telegram (ground (arith, h, p, k)) (ground (arith, h, p, k))
          (is_set-some r.telegram_client_secret_enc (ground (arith, h, p, k)))
          (ground (arith, h, p, k)) (ground (arith, h, p, k))
  ]
]

-- What has a method the guard lets through.
HasMethod-methods_work : (r : AuthConfigRow) (n : ℕ) → HasMethod r n → methods_work r n ≡ true
unfolding sign_in_possible telegram_usable telegram_ready
HasMethod-methods_work r n (by_password y) = ground (arith, y)
HasMethod-methods_work r n (by_passkey y z) = ground (arith, y, z)
HasMethod-methods_work r n (by_telegram e c k o u) =
    ground (arith, e, c, some-is_set r.telegram_client_secret_enc k, o, u)

IsOpenRow-HasWayIn : (s : AuthState) → IsOpenRow s → HasWayIn s.row s.passkeys
IsOpenRow-HasWayIn s o = elim (Option-cases s.row) [
  | inl p ↦ rw p tt
  | inr (q, p) ↦ rw p (methods_work-HasMethod q s.passkeys (o q p))
]

HasWayIn-HasMethod :
    (o : Option AuthConfigRow) (n : ℕ) (r : AuthConfigRow)
    → HasWayIn o n
    → o ≡ some r
    → HasMethod r n
HasWayIn-HasMethod none n r w e = absurd (cc)
HasWayIn-HasMethod (some q) n r w e = let same : q ≡ r = cc in rw (← same) w

HasWayIn-IsOpenRow : (s : AuthState) → HasWayIn s.row s.passkeys → IsOpenRow s
HasWayIn-IsOpenRow s w r e =
    HasMethod-methods_work r s.passkeys (HasWayIn-HasMethod s.row s.passkeys r w e)

-- Whatever changes of the sign-in settings succeed, one after another, from a state without an
-- admin or with a way to sign in, the admin's row that they leave has one: the password is on, or
-- passkeys are on and one is registered, or Telegram is on, configured and linked. What a passkey
-- login needs of the relying party is not part of it.
pub Reach-HasWayIn :
    {s t : AuthState} → Reach s t → HasWayIn s.row s.passkeys → HasWayIn t.row t.passkeys
Reach-HasWayIn {s} {t} r w = IsOpenRow-HasWayIn t (Reach-IsOpenRow r (HasWayIn-IsOpenRow s w))
