-- ===== src/Crypto/Payload.antt =====
-- The payload of crypto.service.ts.
use infra_billing.Base.{
  Str, arith, drop, drop-append, false, length, length-append, ltb, refl, some, take_front,
  take_front-append, ◌++◌, ◌+◌, ◌-◌, ◌≡◌,
}
use mathlib.Core.List.{append_assoc}
use infra_billing.Base.Results.{ok}
use infra_billing.Crypto.{Bytes, Cipher, encrypt, decrypt, iv_length, auth_tag_length}

-- What GCM and Buffer are documented to do: a tag has sixteen bytes, and what was sealed under a
-- nonce is opened under it again.
pub record IsCipher (cipher : Cipher) : Type 0 where
  pub tag_length : (iv plain : Bytes) → length (cipher.seal iv plain).1 ≡ auth_tag_length
  pub unseal-seal :
      (iv plain : Bytes)
      → cipher.unseal iv (cipher.seal iv plain).1 (cipher.seal iv plain).0 ≡ some plain

module _ (iv c tag : Bytes) (h : length iv ≡ iv_length) (k : length tag ≡ auth_tag_length) where
  payload_length : length (iv ++ (c ++ tag)) ≡ iv_length + (length c + auth_tag_length)
  payload_length = rw (length-append iv (c ++ tag), length-append c tag, h, k) refl

  payload-iv : take_front iv_length (iv ++ (c ++ tag)) ≡ iv
  payload-iv = rw (← h) (take_front-append iv (c ++ tag))

  body_length : length (iv ++ (c ++ tag)) - auth_tag_length ≡ length (iv ++ c)
  body_length = ground (arith, payload_length, length-append iv c, h)

  payload-tag : drop (length (iv ++ (c ++ tag)) - auth_tag_length) (iv ++ (c ++ tag)) ≡ tag
  payload-tag = rw (body_length, ← append_assoc iv c tag) (drop-append (iv ++ c) tag)

  payload-ciphertext :
      drop iv_length (take_front (length (iv ++ (c ++ tag)) - auth_tag_length) (iv ++ (c ++ tag)))
      ≡ c
  payload-ciphertext =
      rw (body_length, ← append_assoc iv c tag, take_front-append (iv ++ c) tag, ← h)
        (drop-append iv c)

-- A secret that was encrypted is decrypted to itself, with every nonce of twelve bytes and every
-- cipher that opens what it sealed.
pub decrypt-encrypt :
    (cipher : Cipher) (works : IsCipher cipher) (iv : Bytes) (s : Str)
    → length iv ≡ iv_length
    → cipher.from_utf8 (cipher.utf8 s) ≡ s
    → decrypt cipher (encrypt cipher iv s) ≡ ok s
unfolding decrypt encrypt
decrypt-encrypt cipher works iv s h utf8 =
    let sealed : Bytes × Bytes = cipher.seal iv (cipher.utf8 s) in
    let k = works.tag_length iv (cipher.utf8 s) in
    let long : ltb (length (iv ++ (sealed.0 ++ sealed.1))) (iv_length + auth_tag_length) ≡ false =
      ground (arith, payload_length iv sealed.0 sealed.1 h k) in
    rw
      (
        long,
        payload-iv iv sealed.0 sealed.1 h k,
        payload-tag iv sealed.0 sealed.1 h k,
        payload-ciphertext iv sealed.0 sealed.1 h k,
        works.unseal-seal iv (cipher.utf8 s),
        utf8,
      )
      refl
