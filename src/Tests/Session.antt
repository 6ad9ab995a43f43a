-- ===== src/Tests/Session.antt =====
-- A session of a backend that draws its secret, read by the backend after a restart.
use infra_billing.Base.{
  Option, Str, arith, codes, drop, drop-append, if◌then◌else◌, length, ltb, none, refl, replicate,
  some, str_eq, str_eq_refl, take_front, take_front-append, true, ℕ, ◌&&◌, ◌++◌, ◌+◌, ◌∷◌, ◌≡◌,
}
use infra_billing.Auth.Session.{
  Drawn, Jwt, restarted, session_max_age_sec, sign_session, verify_session, get_session_secret,
  read_secret,
}
use infra_billing.Auth.Session.Restart.{IsJwt, started, verify_session-sign_session}
use infra_billing.Tests.Json.{cipher, cipher-IsCipher}

-- A token shows its expiry, its secret and its name.
abbrev sign : Str → Str → ℕ → ℕ → Str
sign username secret now ttl = (now + ttl) ∷ length secret ∷ (secret ++ username)

abbrev verify : Str → Str → ℕ → Option Str
verify (expiry ∷ n ∷ rest) secret now =
    if ltb now expiry && str_eq (take_front n rest) secret then some (drop n rest) else none
verify _ secret now = none

abbrev jwt : Jwt
jwt = record { sign = sign; verify = verify }

jwt-IsJwt : IsJwt jwt
jwt-IsJwt = record {
  verify-sign = λ username secret now ttl later before.
      let open_still : ltb later (now + ttl) ≡ true = ground (arith, before) in
      rw
        (
          open_still,
          take_front-append secret username,
          str_eq_refl secret,
          drop-append secret username,
        )
        refl;
  sign_filled = λ username secret now ttl. refl;
}

abbrev first : Drawn
first = record { secret = codes "abcd"; iv = replicate 12 1 }

abbrev second : Drawn
second = record { secret = codes "wxyz"; iv = replicate 12 2 }

abbrev token : Str
token = sign (codes "admin") (codes "abcd") 100 session_max_age_sec

verify_session-sign_session_example :
    (verify_session cipher jwt second
      (some token)
      5000
      (restarted (sign_session cipher jwt first (codes "admin") 100 (started none)).1)).0
    ≡ some (codes "admin")
unfolding sign_session get_session_secret read_secret
verify_session-sign_session_example =
    verify_session-sign_session cipher cipher-IsCipher first refl refl jwt jwt-IsJwt none
      (codes "admin") token 100 5000 second refl (omega arith)
