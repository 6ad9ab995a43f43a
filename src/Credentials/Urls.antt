-- ===== src/Credentials/Urls.antt =====
-- The base URLs of the branches: `normalizeAezaBaseUrl` of aeza.types.ts and `VDSINA_BASE_URLS` of
-- vdsina.types.ts. Lower case is Unicode's, so `lower` is a parameter.
use infra_billing.Base.{
  Bool, Bool-cases, List, Option, Option-cases, Str, [], any, arith, codes, if◌then◌else◌, inl, inr,
  leb, length, map, none, some, str_eq, str_eq→eq, take_front, take_last, trim, true, ℕ, ◌&&◌, ◌+◌,
  ◌-◌, ◌==◌, ◌||◌, ◌∷◌, ◌≡◌, ◌⊎◌,
}

-- `s.replace(/\/+$/, '')`.
unfoldable pub strip_slashes : Str → Str
strip_slashes [] = []
strip_slashes (c ∷ cs) = elim (strip_slashes cs) [
  | [] ↦ if c == 47 then [] else c ∷ []
  | d ∷ ds ↦ c ∷ d ∷ ds
]

abbrev pub ascii_lower : ℕ → ℕ
ascii_lower c = if leb 65 c && leb c 90 then c + 32 else c

abbrev pub api_path : Str
api_path = codes "/api/v2"

-- `s.replace(/\/api\/v2$/i, '')`.
unfoldable pub strip_api_path : Str → Str
unfolding str_eq
strip_api_path s =
    if str_eq (map ascii_lower (take_last 7 s)) api_path then take_front (length s - 7) s else s

abbrev pub aeza_base_urls : List Str
aeza_base_urls = codes "https://my.aeza.net" ∷ codes "https://my.aeza.ru" ∷ []

-- `AEZA_BASE_URLS.includes(s)`.
unfoldable pub is_aeza_base_url : Str → Bool
unfolding str_eq
is_aeza_base_url s = any (str_eq s) aeza_base_urls

unfoldable pub normalize_aeza_base_url : (Str → Str) → Str → Option Str
unfolding trim strip_slashes strip_api_path
normalize_aeza_base_url lower raw =
    let origin = lower (strip_slashes (strip_api_path (strip_slashes (trim raw)))) in
    if is_aeza_base_url origin then some origin else none

abbrev pub vdsina_base_urls : List Str
vdsina_base_urls = codes "https://userapi.vdsina.ru" ∷ codes "https://userapi.vdsina.com" ∷ []

-- The names that every object of the language inherits.
abbrev pub inherited_names : List Str
inherited_names =
    codes "constructor"
    ∷ codes "hasOwnProperty"
    ∷ codes "isPrototypeOf"
    ∷ codes "propertyIsEnumerable"
    ∷ codes "toLocaleString"
    ∷ codes "toString"
    ∷ codes "valueOf"
    ∷ codes "__proto__"
    ∷ codes "__defineGetter__"
    ∷ codes "__defineSetter__"
    ∷ codes "__lookupGetter__"
    ∷ codes "__lookupSetter__"
    ∷ []

-- Whether `VDSINA_BASE_URLS[s]` is truthy: an own key, or an inherited one.
unfoldable pub is_vdsina_base_url : Str → Bool
unfolding str_eq
is_vdsina_base_url s = any (str_eq s) vdsina_base_urls || any (str_eq s) inherited_names

-- A base URL without its last slashes: none, refused, or one of the branches.
abbrev pub checked_vdsina : Str → Option (Option Str)
checked_vdsina [] = some none
checked_vdsina (c ∷ cs) = if is_vdsina_base_url (c ∷ cs) then some (some (c ∷ cs)) else none

-- The base URL that the VDSina branch stores: the outer `none` where it is refused.
unfoldable pub vdsina_branch : Option Str → Option (Option Str)
vdsina_branch none = some none
vdsina_branch (some s) = checked_vdsina (strip_slashes s)

unfoldable pub aeza_branch : (Str → Str) → Option Str → Option (Option Str)
aeza_branch lower none = some none
aeza_branch lower (some []) = some none
aeza_branch lower (some (c ∷ cs)) = elim (normalize_aeza_base_url lower (c ∷ cs)) [
  | none ↦ none
  | some base_url ↦ some (some base_url)
]

-- A base URL of the branches of VDSina, or none. The lookup in an object lets inherited names pass
-- too.
abbrev pub OnVdsina : Option Str → Type 0
OnVdsina none = Unit
OnVdsina (some u) =
    (u ≡ codes "https://userapi.vdsina.ru")
    ⊎ ((u ≡ codes "https://userapi.vdsina.com") ⊎ (any (str_eq u) inherited_names ≡ true))

abbrev pub OnAeza : Option Str → Type 0
OnAeza none = Unit
OnAeza (some u) = (u ≡ codes "https://my.aeza.net") ⊎ (u ≡ codes "https://my.aeza.ru")

any-two : (u s t : Str) → any (str_eq u) (s ∷ t ∷ []) ≡ true → (u ≡ s) ⊎ (u ≡ t)
any-two u s t h = elim (Bool-cases (str_eq u s)) [
  | inl y ↦ inl (str_eq→eq u s y)
  | inr n ↦ inr (str_eq→eq u t (ground (arith, h, n)))
]

is_vdsina_base_url-OnVdsina : (u : Str) → is_vdsina_base_url u ≡ true → OnVdsina (some u)
unfolding is_vdsina_base_url
is_vdsina_base_url-OnVdsina u h = elim (Bool-cases (any (str_eq u) vdsina_base_urls)) [
  | inl y ↦
      elim (any-two u (codes "https://userapi.vdsina.ru") (codes "https://userapi.vdsina.com") y) [
        | inl e ↦ inl e
        | inr e ↦ inr (inl e)
      ]
  | inr n ↦ inr (inr (ground (arith, h, n)))
]

is_aeza_base_url-OnAeza : (u : Str) → is_aeza_base_url u ≡ true → OnAeza (some u)
unfolding is_aeza_base_url
is_aeza_base_url-OnAeza u h = any-two u (codes "https://my.aeza.net") (codes "https://my.aeza.ru") h

checked_vdsina-OnVdsina : (s : Str) (u : Option Str) → checked_vdsina s ≡ some u → OnVdsina u
checked_vdsina-OnVdsina s none e = tt
checked_vdsina-OnVdsina [] (some u) e = absurd (ground (arith, e))
checked_vdsina-OnVdsina (c ∷ cs) (some u) e = elim (Bool-cases (is_vdsina_base_url (c ∷ cs))) [
  | inl y ↦ is_vdsina_base_url-OnVdsina u (ground (arith, e, y))
  | inr n ↦ absurd (ground (arith, e, n))
]

pub vdsina_branch-OnVdsina : (s u : Option Str) → vdsina_branch s ≡ some u → OnVdsina u
unfolding vdsina_branch
vdsina_branch-OnVdsina s none e = tt
vdsina_branch-OnVdsina none (some u) e = absurd (ground (arith, e))
vdsina_branch-OnVdsina (some s) (some u) e = checked_vdsina-OnVdsina (strip_slashes s) (some u) e

normalize_aeza_base_url-is_aeza :
    (lower : Str → Str) (s u : Str)
    → normalize_aeza_base_url lower s ≡ some u
    → is_aeza_base_url u ≡ true
unfolding normalize_aeza_base_url
normalize_aeza_base_url-is_aeza lower s u e = ground (arith, e)

pub aeza_branch-OnAeza :
    (lower : Str → Str) (s u : Option Str) → aeza_branch lower s ≡ some u → OnAeza u
unfolding aeza_branch
aeza_branch-OnAeza lower s none e = tt
aeza_branch-OnAeza lower none (some u) e = absurd (ground (arith, e))
aeza_branch-OnAeza lower (some []) (some u) e = absurd (ground (arith, e))
aeza_branch-OnAeza lower (some (c ∷ cs)) (some u) e =
    elim (Option-cases (normalize_aeza_base_url lower (c ∷ cs))) [
      | inl n ↦ absurd (ground (arith, e, n))
      | inr (v, q) ↦
          is_aeza_base_url-OnAeza u
            (normalize_aeza_base_url-is_aeza lower (c ∷ cs) u (ground (arith, e, q)))
    ]
