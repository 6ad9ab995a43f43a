-- ===== src/Tests/Json.antt =====
-- A cipher and a text format for the examples: they stand for AES-GCM and JSON.
use infra_billing.Base.{
  Bool, List, Option, Str, [], ap, codes, drop, drop-append, false, length, none, or_null, refl,
  replicate, some, str_eq, suc, take_front, take_front-append, true, truthy, zero, ℕ, ◌++◌, ◌∙◌,
  ◌∷◌, ◌≡◌,
}
use infra_billing.Crypto.{Cipher}
use infra_billing.Crypto.Payload.{IsCipher}
use infra_billing.Credentials.{Blob, KeyFile, JsonText}
use infra_billing.Credentials.Merge.{IsJson}

-- A cipher that hides nothing.
abbrev pub cipher : Cipher
cipher = record {
  utf8 = λ s. s;
  from_utf8 = λ s. s;
  seal = λ iv plain. (plain, replicate 16 0);
  unseal = λ iv tag c. some c;
}

pub cipher-IsCipher : IsCipher cipher
cipher-IsCipher = record { tag_length = λ iv plain. refl; unseal-seal = λ iv plain. refl }

-- A field with its length in front, and nought for a missing one.
abbrev field : Option Str → Str
field none = 0 ∷ []
field (some s) = suc (length s) ∷ s

abbrev read : Str → Option Str × Str
read [] = (none, [])
read (zero ∷ r) = (none, r)
read (suc n ∷ r) = (some (take_front n r), drop n r)

read-field : (o : Option Str) (r : Str) → read (field o ++ r) ≡ (o, r)
read-field none r = refl
read-field (some s) r = λ i. (some (take_front-append s r i), drop-append s r i)

abbrev encode : List (Option Str) → Str
encode [] = []
encode (o ∷ os) = field o ++ encode os

abbrev decode : ℕ → Str → List (Option Str)
decode zero s = []
decode (suc n) s = let (o, r) = read s in o ∷ decode n r

decode-encode : (os : List (Option Str)) → decode (length os) (encode os) ≡ os
decode-encode [] = refl
decode-encode (o ∷ os) =
    ap (λ (p : Option Str × Str). p.0 ∷ decode (length os) p.1) (read-field o (encode os))
    ∙ ap (◌∷◌ o) (decode-encode os)

abbrev flag : Option Bool → Option Str
flag none = none
flag (some false) = some []
flag (some true) = some (1 ∷ [])

abbrev unflag : Option Str → Option Bool
unflag none = none
unflag (some []) = some false
unflag (some (c ∷ cs)) = some true

unflag-flag : (b : Option Bool) → unflag (flag b) ≡ b
unflag-flag none = refl
unflag-flag (some false) = refl
unflag-flag (some true) = refl

abbrev values : Blob → List (Option Str)
values b =
    b.token
    ∷ b.base_url
    ∷ b.username
    ∷ b.password
    ∷ b.totp_secret
    ∷ b.account_id
    ∷ b.project_name
    ∷ b.panel_id
    ∷ b.api_password
    ∷ b.api_token
    ∷ b.api_key
    ∷ b.secret_api_key
    ∷ b.api_secret
    ∷ b.key_id
    ∷ b.service_account_id
    ∷ b.private_key
    ∷ flag b.use_catalog_names
    ∷ []

abbrev blob_of : List (Option Str) → Option Blob
blob_of
      (f0 ∷ f1 ∷ f2 ∷ f3 ∷ f4 ∷ f5 ∷ f6 ∷ f7 ∷ f8 ∷ f9 ∷ f10 ∷ f11 ∷ f12 ∷ f13 ∷ f14 ∷ f15 ∷ f16
        ∷ []) =
    some (record {
      token = f0;
      base_url = f1;
      username = f2;
      password = f3;
      totp_secret = f4;
      account_id = f5;
      project_name = f6;
      panel_id = f7;
      api_password = f8;
      api_token = f9;
      api_key = f10;
      secret_api_key = f11;
      api_secret = f12;
      key_id = f13;
      service_account_id = f14;
      private_key = f15;
      use_catalog_names = unflag f16;
    })
blob_of _ = none

abbrev key_values : KeyFile → List (Option Str)
key_values k = k.id ∷ k.service_account_id ∷ k.private_key ∷ []

abbrev key_of : List (Option Str) → Option KeyFile
key_of (a ∷ b ∷ c ∷ []) = some (record { id = a; service_account_id = b; private_key = c })
key_of _ = none

abbrev pub json : JsonText
json = record {
  parse = λ s. blob_of (decode 17 s);
  is_null = λ s. str_eq s (codes "null");
  print = λ b. encode (values b);
  parse_key = λ s. key_of (decode 3 s);
  print_key = λ k. encode (key_values k);
}

or_null-field : (o : Option Str) (r : Str) → or_null (field o ++ r) ≡ some (field o ++ r)
or_null-field none r = refl
or_null-field (some s) r = refl

pub json-IsJson : IsJson cipher json
json-IsJson = record {
  parse-print = λ b.
      ap blob_of (decode-encode (values b))
      ∙ ap (λ n. some (record b { use_catalog_names = n })) (unflag-flag b.use_catalog_names);
  print_utf8 = λ b. refl;
  print_filled = λ b. or_null-field b.token (encode (drop 1 (values b)));
}

truthy-field : (o : Option Str) (r : Str) → truthy (some (field o ++ r)) ≡ true
truthy-field none r = refl
truthy-field (some s) r = refl

pub print_key-filled : (k : KeyFile) → truthy (some (json.print_key k)) ≡ true
print_key-filled k = truthy-field k.id (encode (drop 1 (key_values k)))
