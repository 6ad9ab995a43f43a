-- ===== src/Credentials/Presence.antt =====
-- The flags of the edit form and the secrets that `reveal` shows: provider-credentials.service.ts.
use infra_billing.Base.{
  Bool, Bool-cases, Option, Str, [], false, get_or_else, inl, inr, none, refl, some, sym, true,
  truthy, ◌∷◌, ◌≡◌,
}
use infra_billing.Crypto.{Bytes, Cipher}
use infra_billing.Credentials.{
  ConnectorKind, no_secrets, JsonText, KeyFile, Reveal, shown, hostbill, billmgr, selectel,
  four_vps, beget, porkbun, spaceship, aeza, vdsina, cloudflare, doubleservers, openrouter, timeweb,
  hetzner, hostkey, netcup, netlen, vultr, linode, stormwall, netangels, hostup, yandex, manual,
}
use infra_billing.Credentials.Stored.{
  is_readable, decode_credentials, decode_aeza_credentials, decode_open_router_credentials, has_key,
  key_file, secrets_of, reveal,
}
use infra_billing.Credentials.Hints.{SecretPresence, secret_presence, stored_presence}

-- The kinds that store a bare token, of which the form is only told that something is stored.
abbrev pub is_bare : ConnectorKind → Bool
is_bare timeweb = true
is_bare hetzner = true
is_bare hostkey = true
is_bare netcup = true
is_bare netlen = true
is_bare vultr = true
is_bare linode = true
is_bare stormwall = true
is_bare netangels = true
is_bare hostup = true
is_bare kind = false

-- A flag is set exactly where a secret is shown.
abbrev pub Agrees : SecretPresence → Reveal → Type 0
Agrees p r =
    (get_or_else p.has_token false ≡ truthy r.token)
    × (get_or_else p.has_password false ≡ truthy r.password)
    × (get_or_else p.has_totp_secret false ≡ truthy r.totp_secret)
    × (get_or_else p.has_api_password false ≡ truthy r.api_password)
    × (get_or_else p.has_secret_key false ≡ truthy r.secret_key)

-- What the form is told: of a bare token only whether something is stored, and then no more than
-- that token is shown; of the other kinds each secret that is shown.
abbrev pub Told : Bool → Option Bytes → SecretPresence → Reveal → Type 0
Told false enc p r = Agrees p r
Told true none p r = (get_or_else p.has_token false ≡ false) × (r ≡ no_secrets)
Told true (some bytes) p r =
    (get_or_else p.has_token false ≡ true) × (r ≡ record no_secrets { token = r.token })

truthy-shown : (o : Option Str) → truthy o ≡ truthy (shown o)
truthy-shown none = refl
truthy-shown (some []) = refl
truthy-shown (some (c ∷ cs)) = refl

module _ (cipher : Cipher) (json : JsonText)
    (filled : (k : KeyFile) → truthy (some (json.print_key k)) ≡ true) where
  presence_of :
      (kind : ConnectorKind) (enc : Bytes)
      → Told
          (is_bare kind)
          (some enc)
          (secret_presence cipher json kind (some enc))
          (reveal cipher json kind (some enc))
  unfolding secret_presence stored_presence reveal secrets_of
  presence_of hostbill enc = (
    refl,
    truthy-shown (decode_credentials cipher json (some enc)).password,
    truthy-shown (decode_credentials cipher json (some enc)).totp_secret,
    refl,
    refl,
  )
  presence_of billmgr enc = (
    refl,
    truthy-shown (decode_credentials cipher json (some enc)).password,
    truthy-shown (decode_credentials cipher json (some enc)).totp_secret,
    refl,
    refl,
  )
  presence_of selectel enc =
      (refl, truthy-shown (decode_credentials cipher json (some enc)).password, refl, refl, refl)
  presence_of four_vps enc =
      (truthy-shown (decode_credentials cipher json (some enc)).token, refl, refl, refl, refl)
  presence_of beget enc = (
    refl,
    truthy-shown (decode_credentials cipher json (some enc)).password,
    truthy-shown (decode_credentials cipher json (some enc)).totp_secret,
    truthy-shown (decode_credentials cipher json (some enc)).api_password,
    refl,
  )
  presence_of porkbun enc = (
    truthy-shown (decode_credentials cipher json (some enc)).api_key,
    refl,
    refl,
    refl,
    truthy-shown (decode_credentials cipher json (some enc)).secret_api_key,
  )
  presence_of spaceship enc = (
    truthy-shown (decode_credentials cipher json (some enc)).api_key,
    refl,
    refl,
    refl,
    truthy-shown (decode_credentials cipher json (some enc)).api_secret,
  )
  presence_of aeza enc =
      (truthy-shown (decode_aeza_credentials cipher json (some enc)).token, refl, refl, refl, refl)
  presence_of vdsina enc =
      (truthy-shown (decode_credentials cipher json (some enc)).token, refl, refl, refl, refl)
  presence_of cloudflare enc =
      (truthy-shown (decode_credentials cipher json (some enc)).api_token, refl, refl, refl, refl)
  presence_of doubleservers enc = (
    refl,
    truthy-shown (decode_credentials cipher json (some enc)).password,
    truthy-shown (decode_credentials cipher json (some enc)).totp_secret,
    refl,
    refl,
  )
  presence_of openrouter enc = (
    truthy-shown (decode_open_router_credentials cipher json (some enc)).token,
    refl,
    refl,
    refl,
    refl,
  )
  presence_of yandex enc = elim (Bool-cases (has_key (decode_credentials cipher json (some enc)))) [
    | inl y ↦ rw y (
      sym (filled (key_file (decode_credentials cipher json (some enc)))),
      refl,
      refl,
      refl,
      refl,
    )
    | inr n ↦ rw n (refl, refl, refl, refl, refl)
  ]
  presence_of manual enc = (refl, refl, refl, refl, refl)
  presence_of timeweb enc = (refl, refl)
  presence_of hetzner enc = (refl, refl)
  presence_of hostkey enc = (refl, refl)
  presence_of netcup enc = (refl, refl)
  presence_of netlen enc = (refl, refl)
  presence_of vultr enc = (refl, refl)
  presence_of linode enc = (refl, refl)
  presence_of stormwall enc = (refl, refl)
  presence_of netangels enc = (refl, refl)
  presence_of hostup enc = (refl, refl)

-- The edit form and `reveal` agree, whatever is stored but the JSON text `null`, of which no field
-- can be read. For every kind that stores an object, each secret is flagged exactly where `reveal`
-- shows one. For the ten kinds that store a bare token, the flag of the token is set exactly where
-- something is stored, and `reveal` shows no other secret, and none where nothing is stored. It is
-- taken that a printed key file is not empty.
pub secret_presence-reveal :
    (cipher : Cipher) (json : JsonText)
    (filled : (k : KeyFile) → truthy (some (json.print_key k)) ≡ true) (kind : ConnectorKind)
    (enc : Option Bytes)
    → is_readable cipher json enc ≡ true
    → Told (is_bare kind) enc (secret_presence cipher json kind enc) (reveal cipher json kind enc)
unfolding secret_presence reveal
secret_presence-reveal cipher json filled hostbill none h = (refl, refl, refl, refl, refl)
secret_presence-reveal cipher json filled billmgr none h = (refl, refl, refl, refl, refl)
secret_presence-reveal cipher json filled selectel none h = (refl, refl, refl, refl, refl)
secret_presence-reveal cipher json filled four_vps none h = (refl, refl, refl, refl, refl)
secret_presence-reveal cipher json filled beget none h = (refl, refl, refl, refl, refl)
secret_presence-reveal cipher json filled porkbun none h = (refl, refl, refl, refl, refl)
secret_presence-reveal cipher json filled spaceship none h = (refl, refl, refl, refl, refl)
secret_presence-reveal cipher json filled aeza none h = (refl, refl, refl, refl, refl)
secret_presence-reveal cipher json filled vdsina none h = (refl, refl, refl, refl, refl)
secret_presence-reveal cipher json filled cloudflare none h = (refl, refl, refl, refl, refl)
secret_presence-reveal cipher json filled doubleservers none h = (refl, refl, refl, refl, refl)
secret_presence-reveal cipher json filled openrouter none h = (refl, refl, refl, refl, refl)
secret_presence-reveal cipher json filled yandex none h = (refl, refl, refl, refl, refl)
secret_presence-reveal cipher json filled manual none h = (refl, refl, refl, refl, refl)
secret_presence-reveal cipher json filled timeweb none h = (refl, refl)
secret_presence-reveal cipher json filled hetzner none h = (refl, refl)
secret_presence-reveal cipher json filled hostkey none h = (refl, refl)
secret_presence-reveal cipher json filled netcup none h = (refl, refl)
secret_presence-reveal cipher json filled netlen none h = (refl, refl)
secret_presence-reveal cipher json filled vultr none h = (refl, refl)
secret_presence-reveal cipher json filled linode none h = (refl, refl)
secret_presence-reveal cipher json filled stormwall none h = (refl, refl)
secret_presence-reveal cipher json filled netangels none h = (refl, refl)
secret_presence-reveal cipher json filled hostup none h = (refl, refl)
secret_presence-reveal cipher json filled kind (some enc) h =
    presence_of cipher json filled kind enc
