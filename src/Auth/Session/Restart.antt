-- ===== src/Auth/Session/Restart.antt =====
-- A session survives a restart: auth/auth.service.ts.
use infra_billing.Base.{
  Option, Str, inl, inr, length, none, or_null, refl, some, sym, ℕ, ◌+◌, ◌<◌, ◌∙◌, ◌≡◌, ◌⊎◌,
}
use infra_billing.Base.Results.{Result, ok, err}
use infra_billing.Crypto.{Bytes, Cipher, CryptoError, decrypt, iv_length}
use infra_billing.Crypto.Payload.{IsCipher, decrypt-encrypt}
use infra_billing.Auth.Session.{
  SecretState, Drawn, Secret, keep_secret, read_secret, get_session_secret, restarted, Jwt,
  session_max_age_sec, sign_session, verify_session,
}

-- What jsonwebtoken is documented to do: a token is valid under its secret until it expires, and is
-- not empty.
pub record IsJwt (jwt : Jwt) : Type 0 where
  pub verify-sign :
      (username secret : Str) (now ttl later : ℕ)
      → later < now + ttl
      → jwt.verify (jwt.sign username secret now ttl) secret later ≡ some username
  pub sign_filled :
      (username secret : Str) (now ttl : ℕ)
      → or_null (jwt.sign username secret now ttl) ≡ some (jwt.sign username secret now ttl)

Result-cases :
    (r : Result CryptoError Str) → ((s : Str) × (r ≡ ok s)) ⊎ ((e : CryptoError) × (r ≡ err e))
Result-cases (ok s) = inl (s, refl)
Result-cases (err e) = inr (e, refl)

ok-injective : {s t : Str} → ◌≡◌ {A = Result CryptoError Str} (ok s) (ok t) → s ≡ t
ok-injective e = cc

-- A process that has just started.
abbrev pub started : Option Bytes → SecretState
started stored = record { cached_secret = none; row = some stored }

module _ (cipher : Cipher) (opens : IsCipher cipher) (drawn : Drawn)
    (h : length drawn.iv ≡ iv_length)
    (utf8 : cipher.from_utf8 (cipher.utf8 drawn.secret) ≡ drawn.secret) where
  -- The secret is stored before it is used, so every later process reads it.
  same_secret :
      (stored : Option Bytes) (later : Drawn)
      → let first : Secret = get_session_secret cipher drawn (started stored) in
        (get_session_secret cipher later (restarted first.1)).0 ≡ first.0
  unfolding get_session_secret read_secret
  same_secret none later = rw (decrypt-encrypt cipher opens drawn.iv drawn.secret h utf8) refl
  same_secret (some enc) later = elim (Result-cases (decrypt cipher enc)) [
    | inl (s, e) ↦ rw (e, keep_secret, e) refl
    | inr (x, e) ↦ rw (e, keep_secret, e) refl
  ]

  verify_session-token :
      (jwt : Jwt) (works : IsJwt jwt) (username secret token : Str) (now later : ℕ) (again : Drawn)
      (st : SecretState)
      → token ≡ jwt.sign username secret now session_max_age_sec
      → later < now + session_max_age_sec
      → (get_session_secret cipher again st).0 ≡ ok secret
      → (verify_session cipher jwt again (some token) later st).0 ≡ some username
  unfolding verify_session
  verify_session-token jwt works username secret token now later again st t before e =
      rw (t, works.sign_filled username secret now session_max_age_sec, verify_session, e)
        (works.verify-sign username secret now session_max_age_sec later before)

-- A session survives a restart of the backend: a token that a process signs is accepted for seven
-- days, as the name it was signed for, by a process that starts later, whether the first process
-- found a session secret or drew one. There is a row of the administrator, the cipher and the
-- tokens work as documented, the drawn nonce has twelve bytes, and UTF-8 keeps the drawn secret.
pub verify_session-sign_session :
    (cipher : Cipher) (opens : IsCipher cipher) (drawn : Drawn) (h : length drawn.iv ≡ iv_length)
    (utf8 : cipher.from_utf8 (cipher.utf8 drawn.secret) ≡ drawn.secret) (jwt : Jwt)
    (works : IsJwt jwt) (stored : Option Bytes) (username token : Str) (now later : ℕ)
    (again : Drawn)
    → (sign_session cipher jwt drawn username now (started stored)).0 ≡ ok token
    → later < now + session_max_age_sec
    → (verify_session cipher jwt again
        (some token)
        later
        (restarted (sign_session cipher jwt drawn username now (started stored)).1)).0
      ≡ some username
unfolding sign_session
verify_session-sign_session cipher opens drawn h utf8 jwt works stored username token now later
      again e before =
    let first : Secret = get_session_secret cipher drawn (started stored) in
    let same = same_secret cipher opens drawn h utf8 stored again in
    elim (Result-cases first.0) [
      | inl (secret, q) ↦
          let signed : ◌≡◌ {A = Result CryptoError Str}
              (ok (jwt.sign username secret now session_max_age_sec)) (ok token) =
            sym (rw (q, sign_session) refl) ∙ e in
          verify_session-token cipher opens drawn h utf8 jwt works username secret token now later
            again (restarted first.1) (sym (ok-injective signed)) before (same ∙ q)
      | inr (x, q) ↦
          let failed : ◌≡◌ {A = Result CryptoError Str} (err x) (ok token) =
            sym (rw (q, sign_session) refl) ∙ e in
          absurd (cc)
    ]
