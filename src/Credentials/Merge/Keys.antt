-- ===== src/Credentials/Merge/Keys.antt =====
-- An edit of the stored credentials, read back, for the kinds with a key and for any kind.
use infra_billing.Base.{
  Bool-cases, Option, Option-cases, Str, [], ap, get_or_else, inl, inr, length, none, or_null, refl,
  some, subst, sym, true, truthy, ◌||◌, ◌∙◌, ◌∷◌, ◌≡◌, ◌⊎◌,
}
use infra_billing.Base.Results.{ok, err}
use infra_billing.Credentials.{
  CredentialsError, not_a_key_file, key_field_missing, ConnectorKind, CredentialsDto, JsonText,
  KeyFile, Blob, blank, or_else, Reveal, no_secrets, shown, yandex, openrouter, hostbill, billmgr,
  selectel, four_vps, beget, porkbun, spaceship, aeza, vdsina, cloudflare, doubleservers, manual,
  timeweb, hetzner, hostkey, netcup, netlen, vultr, linode, stormwall, netangels, hostup,
}
use infra_billing.Crypto.{Bytes, Cipher, encrypt, iv_length}
use infra_billing.Crypto.Payload.{IsCipher, decrypt-encrypt}
use infra_billing.Credentials.Stored.{
  decode_credentials, decode_open_router_credentials, decrypt_raw, parse_yandex_key, secrets_of,
  reveal, has_key,
}
use infra_billing.Credentials.Build.{
  build_credentials, build_bare, build_openrouter, build_yandex, is_given, names_of, sealed,
  store_key,
}
use infra_billing.Credentials.Merge.{
  IsJson, over_token, overlay, shown-or_else, Stores, Stores-token, Stores-some, decode-sealed,
  decode_open_router-sealed,
}
use infra_billing.Credentials.Merge.Kinds.{
  Shows, reads_back, object, merge_four_vps, merge_cloudflare, merge_porkbun, merge_spaceship,
  merge_selectel, merge_billmgr, merge_hostbill, merge_doubleservers, merge_beget, merge_vdsina,
  merge_aeza,
}

abbrev key_blob : KeyFile → Blob
key_blob k = record blank {
  key_id = k.id;
  service_account_id = k.service_account_id;
  private_key = k.private_key;
}

module _ (cipher : Cipher) (json : JsonText) (lower : Str → Str) (iv : Bytes)
    (opens : IsCipher cipher) (reads : IsJson cipher json) (h : length iv ≡ iv_length) where
  reveal-openrouter :
      (enc : Option Bytes)
      → reveal cipher json openrouter enc
        ≡ record no_secrets { token = shown (decode_open_router_credentials cipher json enc).token }
  unfolding reveal secrets_of decode_open_router_credentials
  reveal-openrouter none = refl
  reveal-openrouter (some enc) = refl

  merge_openrouter :
      (dto : CredentialsDto) (old : Option Bytes)
      → Stores
          (Shows cipher json lower iv opens reads h openrouter dto old)
          (build_openrouter cipher json lower iv dto old)
  merge_openrouter dto old =
      let base = decode_open_router_credentials cipher json old in
      let names = names_of dto base in
      Stores-token _ openrouter (truthy dto.token || is_given dto.use_catalog_names)
        (λ t. sealed cipher json lower iv (record blank { token = t; use_catalog_names = names }))
        (or_else dto.token base.token)
        (λ t e. Stores-some _ _ (
          rw
            (
              reveal-openrouter (
                  some (
                    encrypt cipher iv
                      (json.print (record blank { token = some t; use_catalog_names = names })))),
              reveal-openrouter old,
              decode_open_router-sealed cipher json iv opens reads h t names,
            )
            (ap (λ t. record no_secrets { token = t })
              (ap shown (sym e) ∙ shown-or_else dto.token base.token))))

  -- What `parseYandexKey` gives, and when.
  parse_yandex_key-cases :
      (raw : Str)
      → ((e : CredentialsError) × (parse_yandex_key json raw ≡ err e))
        ⊎ ((k : KeyFile) × (json.parse_key raw ≡ some k)
            × (has_key (key_blob k) ≡ true)
            × (parse_yandex_key json raw ≡ ok (key_blob k)))
  unfolding parse_yandex_key
  parse_yandex_key-cases raw = elim (Option-cases (json.parse_key raw)) [
    | inl e ↦ inl (not_a_key_file, rw (e, parse_yandex_key) refl)
    | inr (k, e) ↦ elim (Bool-cases (has_key (key_blob k))) [
      | inl y ↦ inr (k, e, y, rw (e, parse_yandex_key, y) refl)
      | inr n ↦ inl (key_field_missing, rw (e, parse_yandex_key, n) refl)
    ]
  ]

  shows_key :
      (dto : CredentialsDto) (old : Option Bytes) (k : KeyFile)
      → json.parse_key (get_or_else dto.token []) ≡ some k
      → has_key (key_blob k) ≡ true
      → secrets_of json yandex (key_blob k)
        ≡ overlay json yandex dto
            (secrets_of json yandex (object cipher json lower iv opens reads h old))
  unfolding secrets_of
  shows_key dto old k p t = rw (t, p, overlay) refl

  merge_key :
      (dto : CredentialsDto) (old : Option Bytes)
      → Stores
          (Shows cipher json lower iv opens reads h yandex dto old)
          (store_key cipher json lower iv (parse_yandex_key json (get_or_else dto.token [])))
  unfolding Stores reveal secrets_of decode_credentials
  merge_key dto old = elim (parse_yandex_key-cases (get_or_else dto.token [])) [
    | inl (e, q) ↦ rw q tt
    | inr (k, p, t, q) ↦
        rw (q, t)
          (reads_back cipher json lower iv opens reads h yandex
            (object cipher json lower iv opens reads h) dto old _ (key_blob k) refl (λ e. refl)
            (decode-sealed cipher json iv opens reads h (key_blob k)) (shows_key dto old k p t))
  ]

  merge_token :
      (dto : CredentialsDto) (old : Option Bytes) (token : Option Str)
      → dto.token ≡ token
      → Stores
          (Shows cipher json lower iv opens reads h yandex dto old)
          (build_yandex cipher json lower iv token)
  unfolding Stores
  merge_token dto old none e = tt
  merge_token dto old (some []) e = tt
  merge_token dto old (some (c ∷ cs)) e =
      subst
        (λ t.
          Stores (Shows cipher json lower iv opens reads h yandex dto old)
            (store_key cipher json lower iv (parse_yandex_key json (get_or_else t []))))
        e (merge_key dto old)

  merge_yandex :
      (dto : CredentialsDto) (old : Option Bytes)
      → Stores
          (Shows cipher json lower iv opens reads h yandex dto old)
          (build_yandex cipher json lower iv dto.token)
  merge_yandex dto old = merge_token dto old dto.token refl

  decrypt_raw-bare :
      (s : Str)
      → cipher.from_utf8 (cipher.utf8 s) ≡ s
      → decrypt_raw cipher json (encrypt cipher iv s) ≡ or_null s
  unfolding decrypt_raw
  decrypt_raw-bare s utf8 = rw (decrypt-encrypt cipher opens iv s h utf8, decrypt_raw) refl

  -- The kinds that store the bare token.
  merge_bare_token :
      (kind : ConnectorKind) (dto : CredentialsDto) (old : Option Bytes) (token : Option Str)
      → dto.token ≡ token
      → ((t : Str) → token ≡ some t → cipher.from_utf8 (cipher.utf8 t) ≡ t)
      → ((e : Bytes)
          → reveal cipher json kind (some e)
            ≡ record no_secrets { token = decrypt_raw cipher json e })
      → ((r : Reveal) → overlay json kind dto r ≡ over_token dto.token r)
      → Stores
          (Shows cipher json lower iv opens reads h kind dto old)
          (build_bare cipher json lower iv token)
  unfolding Stores decrypt_raw
  merge_bare_token kind dto old none e utf8 shows covers = tt
  merge_bare_token kind dto old (some []) e utf8 shows covers = tt
  merge_bare_token kind dto old (some (c ∷ cs)) e utf8 shows covers =
      rw
        (
          shows (encrypt cipher iv (c ∷ cs)),
          covers (reveal cipher json kind old),
          e,
          decrypt_raw-bare (c ∷ cs) (utf8 (c ∷ cs) refl),
        )
        refl

  merge_bare :
      (kind : ConnectorKind) (dto : CredentialsDto) (old : Option Bytes)
      → ((t : Str) → dto.token ≡ some t → cipher.from_utf8 (cipher.utf8 t) ≡ t)
      → ((e : Bytes)
          → reveal cipher json kind (some e)
            ≡ record no_secrets { token = decrypt_raw cipher json e })
      → ((r : Reveal) → overlay json kind dto r ≡ over_token dto.token r)
      → Stores
          (Shows cipher json lower iv opens reads h kind dto old)
          (build_bare cipher json lower iv dto.token)
  merge_bare kind dto old utf8 shows covers =
      merge_bare_token kind dto old dto.token refl utf8 shows covers

  -- Every kind.
  merge_all :
      (kind : ConnectorKind) (dto : CredentialsDto) (old : Option Bytes)
      → ((t : Str) → dto.token ≡ some t → cipher.from_utf8 (cipher.utf8 t) ≡ t)
      → Stores
          (Shows cipher json lower iv opens reads h kind dto old)
          (build_credentials cipher json lower iv kind dto old)
  unfolding build_credentials reveal Stores
  merge_all openrouter dto old u = merge_openrouter dto old
  merge_all four_vps dto old u = merge_four_vps cipher json lower iv opens reads h dto old
  merge_all vdsina dto old u = merge_vdsina cipher json lower iv opens reads h dto old
  merge_all aeza dto old u = merge_aeza cipher json lower iv opens reads h dto old
  merge_all selectel dto old u = merge_selectel cipher json lower iv opens reads h dto old
  merge_all hostbill dto old u = merge_hostbill cipher json lower iv opens reads h dto old
  merge_all billmgr dto old u = merge_billmgr cipher json lower iv opens reads h dto old
  merge_all beget dto old u = merge_beget cipher json lower iv opens reads h dto old
  merge_all doubleservers dto old u = merge_doubleservers cipher json lower iv opens reads h dto old
  merge_all cloudflare dto old u = merge_cloudflare cipher json lower iv opens reads h dto old
  merge_all porkbun dto old u = merge_porkbun cipher json lower iv opens reads h dto old
  merge_all spaceship dto old u = merge_spaceship cipher json lower iv opens reads h dto old
  merge_all yandex dto old u = merge_yandex dto old
  merge_all manual dto old u = tt
  merge_all timeweb dto old u = merge_bare timeweb dto old u (λ e. refl) (λ r. refl)
  merge_all hetzner dto old u = merge_bare hetzner dto old u (λ e. refl) (λ r. refl)
  merge_all hostkey dto old u = merge_bare hostkey dto old u (λ e. refl) (λ r. refl)
  merge_all netcup dto old u = merge_bare netcup dto old u (λ e. refl) (λ r. refl)
  merge_all netlen dto old u = merge_bare netlen dto old u (λ e. refl) (λ r. refl)
  merge_all vultr dto old u = merge_bare vultr dto old u (λ e. refl) (λ r. refl)
  merge_all linode dto old u = merge_bare linode dto old u (λ e. refl) (λ r. refl)
  merge_all netangels dto old u = merge_bare netangels dto old u (λ e. refl) (λ r. refl)
  merge_all stormwall dto old u = merge_bare stormwall dto old u (λ e. refl) (λ r. refl)
  merge_all hostup dto old u = merge_bare hostup dto old u (λ e. refl) (λ r. refl)

-- Secrets that were stored are shown: after an edit that stores credentials, `reveal` shows each
-- secret of the kind as the request has it, an empty one as none, and the secrets that the request
-- leaves out as they were shown before. For Yandex it shows the key of the request. The cipher and
-- JSON work as documented, the nonce has twelve bytes, and UTF-8 keeps the token of the request.
pub reveal-build_credentials :
    (cipher : Cipher) (json : JsonText) (lower : Str → Str) (iv : Bytes) (opens : IsCipher cipher)
    (reads : IsJson cipher json) (h : length iv ≡ iv_length) (kind : ConnectorKind)
    (dto : CredentialsDto) (old : Option Bytes)
    (utf8 : (t : Str) → dto.token ≡ some t → cipher.from_utf8 (cipher.utf8 t) ≡ t) (enc : Bytes)
    → build_credentials cipher json lower iv kind dto old ≡ ok (some enc)
    → reveal cipher json kind (some enc) ≡ overlay json kind dto (reveal cipher json kind old)
unfolding Stores
reveal-build_credentials cipher json lower iv opens reads h kind dto old utf8 enc e =
    subst (Stores (Shows cipher json lower iv opens reads h kind dto old)) e
      (merge_all cipher json lower iv opens reads h kind dto old utf8)
