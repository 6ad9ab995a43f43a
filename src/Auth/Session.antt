-- ===== src/Auth/Session.antt =====
-- The session secret of auth/auth-config.service.ts, and the sessions and the password check of
-- auth/auth.service.ts. JSON web tokens, the key derivation of passwords and SHA-256 are
-- parameters, as are the random values that a call draws.
pub mod Restart
use infra_billing.Base.{Bool, Option, Str, false, none, or_null, some, str_eq, ℕ, ◌&&◌, ◌*◌, ◌>>=◌}
use infra_billing.Base.Results.{Result, ok, err}
use infra_billing.Crypto.{Bytes, Cipher, CryptoError, encrypt, decrypt}

-- `cachedSecret`, and the stored secret of the administrator's row, if there is a row.
pub record SecretState : Type 0 where
  pub cached_secret : Option Str
  pub row : Option (Option Bytes)

-- What a call draws: a secret in hexadecimal digits, and a nonce.
pub record Drawn : Type 0 where
  pub secret : Str
  pub iv : Bytes

abbrev pub Secret : Type 0
Secret = Result CryptoError Str × SecretState

abbrev pub keep_secret : SecretState → Result CryptoError Str → Secret
keep_secret st (ok s) = (ok s, record st { cached_secret = some s })
keep_secret st (err e) = (err e, st)

-- `getSessionSecret` without a cached secret.
unfoldable pub read_secret : Cipher → Drawn → SecretState → Option (Option Bytes) → Secret
read_secret cipher drawn st none = (ok drawn.secret, st)
read_secret cipher drawn st (some (some enc)) = keep_secret st (decrypt cipher enc)
read_secret cipher drawn st (some none) = (
  ok drawn.secret,
  record {
    cached_secret = some drawn.secret;
    row = some (some (encrypt cipher drawn.iv drawn.secret));
  },
)

-- `getSessionSecret`: an empty cached text counts as none.
unfoldable pub get_session_secret : Cipher → Drawn → SecretState → Secret
unfolding read_secret
get_session_secret cipher drawn st = elim (st.cached_secret >>= or_null) [
  | none ↦ read_secret cipher drawn st st.row
  | some s ↦ (ok s, st)
]

-- A process that starts again has the row and no cache.
abbrev pub restarted : SecretState → SecretState
restarted st = record st { cached_secret = none }

-- `jwt.sign` and `jwt.verify`: of a name, a secret, the time of issue and the lifetime in seconds;
-- and of a token, a secret and the time.
pub record Jwt : Type 0 where
  pub sign : Str → Str → ℕ → ℕ → Str
  pub verify : Str → Str → ℕ → Option Str

abbrev pub session_max_age_sec : ℕ
session_max_age_sec = 7 * 24 * 60 * 60

-- `sign`, at a time in seconds.
unfoldable pub sign_session : Cipher → Jwt → Drawn → Str → ℕ → SecretState → Secret
sign_session cipher jwt drawn username now st =
    let read = get_session_secret cipher drawn st in
    (
      elim read.0 [
        | ok secret ↦ ok (jwt.sign username secret now session_max_age_sec)
        | err e ↦ err e
      ],
      read.1,
    )

abbrev pub named : Jwt → Str → ℕ → Result CryptoError Str → Option Str
named jwt token now (ok secret) = jwt.verify token secret now
named jwt token now (err e) = none

-- `verify`: the name in a session token, if it is valid.
unfoldable pub verify_session :
    Cipher → Jwt → Drawn → Option Str → ℕ → SecretState → Option Str × SecretState
verify_session cipher jwt drawn token now st = elim (token >>= or_null) [
  | none ↦ (none, st)
  | some t ↦ let read = get_session_secret cipher drawn st in (named jwt t now read.0, read.1)
]

-- `safeEqual`.
abbrev pub safe_equal : (Str → Bytes) → Str → Str → Bool
safe_equal sha256 a b = str_eq (sha256 a) (sha256 b)

-- The columns that `verifyCredentials` reads.
pub record PasswordRow : Type 0 where
  pub password_enabled : Bool
  pub password_hash : Option Str
  pub username : Str

-- `verifyCredentials`.
unfoldable pub verify_credentials :
    (Str → Bytes) → (Str → Option Str → Bool) → Option PasswordRow → Str → Str → Bool
verify_credentials sha256 verify_password none username password = false
verify_credentials sha256 verify_password (some row) username password =
    row.password_enabled
    && safe_equal sha256 username row.username
    && verify_password password row.password_hash
