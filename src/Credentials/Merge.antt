-- ===== src/Credentials/Merge.antt =====
-- An edit of the stored credentials, read back: `buildCredentials` followed by `reveal`.
pub mod Kinds
pub mod Keys
use infra_billing.Base.{
  Bool, Option, Str, [], false, get_or_else, length, none, or_null, refl, some, true, truthy, ◌∷◌,
  ◌≡◌,
}
use infra_billing.Base.Results.{ok, err}
use infra_billing.Crypto.{Bytes, Cipher, encrypt, decrypt, iv_length}
use infra_billing.Crypto.Payload.{IsCipher, decrypt-encrypt}
use infra_billing.Credentials.{
  ConnectorKind, CredentialsDto, JsonText, Blob, blank, Reveal, no_secrets, shown, or_else,
  hostbill, billmgr, selectel, beget, porkbun, spaceship, cloudflare, yandex, doubleservers,
}
use infra_billing.Credentials.Stored.{
  decode_credentials, decode_aeza_credentials, decode_open_router_credentials, decrypt_raw,
}
use infra_billing.Credentials.Build.{Built, merged, on_branch}

-- What JSON and UTF-8 are documented to do: an object that was printed is read back.
pub record IsJson (cipher : Cipher) (json : JsonText) : Type 0 where
  pub parse-print : (b : Blob) → json.parse (json.print b) ≡ some b
  pub print_utf8 : (b : Blob) → cipher.from_utf8 (cipher.utf8 (json.print b)) ≡ json.print b
  pub print_filled : (b : Blob) → or_null (json.print b) ≡ some (json.print b)

-- A secret of a request, over the one that was shown before; an empty text clears it.
abbrev pub over : Option Str → Option Str → Option Str
over none old = old
over (some s) old = or_null s

abbrev pub over_token : Option Str → Reveal → Reveal
over_token token old = record no_secrets { token = over token old.token }

-- The secrets that the account of a kind shows after an edit: those of the request over the old
-- ones. A Yandex key is shown as its own three fields.
abbrev pub overlay : JsonText → ConnectorKind → CredentialsDto → Reveal → Reveal
overlay json cloudflare dto old = over_token dto.token old
overlay json porkbun dto old = record (over_token dto.token old) {
  secret_key = over dto.secret_key old.secret_key;
}
overlay json spaceship dto old = record (over_token dto.token old) {
  secret_key = over dto.secret_key old.secret_key;
}
overlay json yandex dto old = elim (json.parse_key (get_or_else dto.token [])) [
  | none ↦ old
  | some key ↦ record no_secrets { token = some (json.print_key key) }
]
overlay json selectel dto old = record no_secrets { password = over dto.password old.password }
overlay json billmgr dto old = record no_secrets {
  password = over dto.password old.password;
  totp_secret = over dto.totp_secret old.totp_secret;
}
overlay json hostbill dto old = record no_secrets {
  password = over dto.password old.password;
  totp_secret = over dto.totp_secret old.totp_secret;
}
overlay json beget dto old = record no_secrets {
  password = over dto.password old.password;
  totp_secret = over dto.totp_secret old.totp_secret;
  api_password = over dto.api_password old.api_password;
}
overlay json doubleservers dto old = record no_secrets {
  password = over dto.password old.password;
  totp_secret = over dto.totp_secret old.totp_secret;
}
overlay json kind dto old = over_token dto.token old

pub shown-or_else : (a b : Option Str) → shown (or_else a b) ≡ over a (shown b)
shown-or_else none b = refl
shown-or_else (some a) b = refl

pub shown-shown : (a b : Option Str) → shown (shown (or_else a b)) ≡ over a (shown b)
shown-shown (some []) b = refl
shown-shown (some (c ∷ cs)) b = refl
shown-shown none none = refl
shown-shown none (some []) = refl
shown-shown none (some (c ∷ cs)) = refl

-- A statement on the stored bytes of an answer, if there are any.
unfoldable pub Stores : (Bytes → Type 0) → Built → Type 0
Stores P (err e) = Unit
Stores P (ok none) = Unit
Stores P (ok (some enc)) = P enc

pub Stores-merged :
    (P : Bytes → Type 0) (kind : ConnectorKind) (given complete : Bool) (stored : Built)
    → Stores P stored
    → Stores P (merged kind given complete stored)
unfolding Stores merged
Stores-merged P kind false complete stored p = tt
Stores-merged P kind true false stored p = tt
Stores-merged P kind true true stored p = p

pub Stores-token :
    (P : Bytes → Type 0) (kind : ConnectorKind) (given : Bool) (stored : Option Str → Built)
    (token : Option Str)
    → ((t : Str) → token ≡ some t → Stores P (stored (some t)))
    → Stores P (merged kind given (truthy token) (stored token))
unfolding Stores merged
Stores-token P kind false stored token p = tt
Stores-token P kind true stored none p = tt
Stores-token P kind true stored (some []) p = tt
Stores-token P kind true stored (some (c ∷ cs)) p = p (c ∷ cs) refl

pub Stores-on_branch :
    (P : Bytes → Type 0) (kind : ConnectorKind) (stored : Option Str → Built)
    (branch : Option (Option Str))
    → ((u : Option Str) → branch ≡ some u → Stores P (stored u))
    → Stores P (on_branch kind stored branch)
unfolding Stores on_branch
Stores-on_branch P kind stored none p = tt
Stores-on_branch P kind stored (some u) p = p u refl

pub Stores-some : (P : Bytes → Type 0) (enc : Bytes) → P enc → Stores P (ok (some enc))
unfolding Stores
Stores-some P enc p = p

module _ (cipher : Cipher) (json : JsonText) (iv : Bytes) (opens : IsCipher cipher)
    (reads : IsJson cipher json) (h : length iv ≡ iv_length) where
  decrypt-sealed :
      (b : Blob) → decrypt cipher (encrypt cipher iv (json.print b)) ≡ ok (json.print b)
  decrypt-sealed b = decrypt-encrypt cipher opens iv (json.print b) h (reads.print_utf8 b)

  pub decode-sealed :
      (b : Blob) → decode_credentials cipher json (some (encrypt cipher iv (json.print b))) ≡ b
  unfolding decode_credentials
  decode-sealed b = rw (decrypt-sealed b, decode_credentials, reads.parse-print b) refl

  decrypt_raw-sealed :
      (b : Blob) → decrypt_raw cipher json (encrypt cipher iv (json.print b)) ≡ some (json.print b)
  unfolding decrypt_raw
  decrypt_raw-sealed b = rw (decrypt-sealed b, decrypt_raw) (reads.print_filled b)

  pub decode_aeza-sealed :
      (b : Blob) → decode_aeza_credentials cipher json (some (encrypt cipher iv (json.print b))) ≡ b
  unfolding decode_aeza_credentials
  decode_aeza-sealed b =
      rw (decrypt_raw-sealed b, decode_aeza_credentials, reads.parse-print b) refl

  pub decode_open_router-sealed :
      (t : Str) (names : Option Bool)
      → let b : Blob = record blank { token = some t; use_catalog_names = names } in
        (decode_open_router_credentials cipher json (some (encrypt cipher iv (json.print b)))).token
        ≡ some t
  unfolding decode_open_router_credentials
  decode_open_router-sealed t names =
      let b : Blob = record blank { token = some t; use_catalog_names = names } in
      rw (decrypt_raw-sealed b, decode_open_router_credentials, reads.parse-print b) refl
