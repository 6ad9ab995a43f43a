-- ===== src/Crypto.antt =====
-- crypto.service.ts: secrets at rest. AES-256-GCM and UTF-8 are node's, so the cipher and the
-- encoding are parameters; the layout iv, cipher text, tag of the payload is the code's.
pub mod Payload
use infra_billing.Base.{
  List, Option, Str, drop, if◌then◌else◌, length, ltb, none, some, take_front, take_last, ℕ, ◌++◌,
  ◌+◌, ◌-◌, ◌==◌, ◌∷◌,
}
use infra_billing.Base.Results.{Result, ok, err}

abbrev pub Bytes : Type 0
Bytes = List ℕ

-- What the service calls of node:crypto and of Buffer. A cipher with its key gives a cipher text
-- and a tag; `final` of the decipher throws where the tag does not fit.
pub record Cipher : Type 0 where
  pub utf8 : Str → Bytes
  pub from_utf8 : Bytes → Str
  -- of the nonce and the plain text
  pub seal : Bytes → Bytes → Bytes × Bytes
  -- of the nonce, the tag and the cipher text
  pub unseal : Bytes → Bytes → Bytes → Option Bytes

pub data CryptoError : Type 0 where
  payload_too_short not_authentic bad_key : CryptoError

abbrev pub iv_length : ℕ
iv_length = 12

abbrev pub auth_tag_length : ℕ
auth_tag_length = 16

-- The check of the constructor: the key in bytes, decoded from base64.
unfoldable pub check_key : Bytes → Result CryptoError Bytes
check_key key = if length key == 32 then ok key else err bad_key

-- `encrypt`, with the nonce that `randomBytes` gives.
unfoldable pub encrypt : Cipher → Bytes → Str → Bytes
encrypt cipher iv plaintext =
    let sealed = cipher.seal iv (cipher.utf8 plaintext) in iv ++ (sealed.0 ++ sealed.1)

-- `decrypt`.
unfoldable pub decrypt : Cipher → Bytes → Result CryptoError Str
decrypt cipher payload =
    let iv = take_front iv_length payload in
    let auth_tag = drop (length payload - auth_tag_length) payload in
    let ciphertext = drop iv_length (take_front (length payload - auth_tag_length) payload) in
    if ltb (length payload) (iv_length + auth_tag_length)
    then err payload_too_short
    else elim (cipher.unseal iv auth_tag ciphertext) [
      | none ↦ err not_authentic
      | some plain ↦ ok (cipher.from_utf8 plain)
    ]

-- `mask`: four bullets and the last four characters.
unfoldable pub mask : Str → Str
mask secret = 8226 ∷ 8226 ∷ 8226 ∷ 8226 ∷ take_last 4 secret
