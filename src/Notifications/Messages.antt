-- ===== src/Notifications/Messages.antt =====
-- notifications/messages.ts: the texts of the alerts, in the HTML that Telegram reads. The parser
-- of URLs is a parameter.
pub mod Texts
pub mod Counts
pub mod Markup
use Prim.Native.Char.{code}
use Prim.Native.String.{String}
use infra_billing.Base.{
  List, Option, Str, [], codes, get_or_else, if◌then◌else◌, leb, ltb, map, none, not, or_null, some,
  str_eq, ℕ, ◌%◌, ◌&&◌, ◌++◌, ◌+◌, ◌-◌, ◌/◌, ◌==◌, ◌>>=◌, ◌||◌, ◌∷◌,
}
use infra_billing.Accounts.Merging.{digits}

-- The UTF-16 code units of a character, and of a literal.
abbrev pub utf16 : ℕ → Str
utf16 c =
    if ltb c 65536 then c ∷ [] else (55296 + (c - 65536) / 1024) ∷ (56320 + (c - 65536) % 1024) ∷ []

abbrev pub units : String → Str
units String.[] = []
units (String.◌∷◌ c s) = utf16 (code c) ++ units s

-- `s.replace(/c/g, text)`.
unfoldable pub replace_unit : ℕ → Str → Str → Str
replace_unit c text [] = []
replace_unit c text (d ∷ s) =
    let rest = replace_unit c text s in if d == c then text ++ rest else d ∷ rest

unfoldable pub esc : Str → Str
unfolding replace_unit
esc s =
    replace_unit 62 (codes "&gt;")
      (replace_unit 60 (codes "&lt;") (replace_unit 38 (codes "&amp;") s))

-- The parts of a text, one after the other.
abbrev pub join : List Str → Str
join [] = []
join (s ∷ rest) = s ++ join rest

-- A part of a message: a literal of the code, or a field that is escaped.
pub data Part : Type 0 where
  markup : Str → Part
  field : Str → Part

unfoldable pub part_text : Part → Str
unfolding esc
part_text (markup s) = s
part_text (field s) = esc s

abbrev pub message : List Part → Str
message parts = join (map part_text parts)

-- `new URL(url)` with its protocol and its text; `none` where it throws.
pub record Url : Type 0 where
  pub protocol : Str
  pub href : Str

abbrev pub bold : Str → List Part
bold name = markup (codes "<b>") ∷ field name ∷ markup (codes "</b>") ∷ []

abbrev pub link_to : Option Str → List Part → List Part
link_to none label = label
link_to (some href) label =
    markup (codes "<a href=\"")
    ∷ field href
    ∷ markup (codes "\">")
    ∷ (label ++ markup (codes "</a>") ∷ [])

module _ (parse_url : Str → Option Url) where
  -- `safeHttpUrl`.
  unfoldable pub safe_http_url : Option Str → Option Str
  unfolding str_eq
  safe_http_url url = elim (url >>= or_null >>= parse_url) [
    | none ↦ none
    | some u ↦
        if str_eq u.protocol (codes "http:") || str_eq u.protocol (codes "https:")
        then or_null u.href
        else none
  ]

  -- `providerLink`.
  abbrev pub provider_link : Str → Option Str → List Part
  provider_link name url = link_to (safe_http_url url) (bold name)

-- The emoji of the texts.
abbrev pub emoji : String → String → Part
emoji id shown =
    markup (
      codes "<tg-emoji emoji-id=\""
      ++ codes id
      ++ codes "\">"
      ++ units shown
      ++ codes "</tg-emoji>")

-- `ruDays`.
unfoldable pub ru_days : ℕ → Str
ru_days n =
    let d10 = n % 10 in
    let d100 = n % 100 in
    if (d10 == 1) && not (d100 == 11)
    then units "день"
    else if leb 2 d10 && leb d10 4 && (ltb d100 12 || ltb 14 d100)
    then units "дня"
    else units "дней"

-- `whenLabel`.
unfoldable pub when_label : ℕ → Str
unfolding ru_days
when_label days_until =
    if days_until == 0
    then units "сегодня"
    else if days_until == 1
    then units "завтра"
    else units "через " ++ digits days_until ++ codes " " ++ ru_days days_until

-- `runwayLabel`.
unfoldable pub runway_label : ℕ → Str
unfolding ru_days
runway_label days =
    if days == 0
    then units "меньше суток"
    else codes "~" ++ digits days ++ codes " " ++ ru_days days

-- `agoLabelRu`.
unfoldable pub ago_label_ru : ℕ → Str
unfolding ru_days
ago_label_ru days_overdue =
    if days_overdue == 1
    then units "вчера"
    else digits days_overdue ++ codes " " ++ ru_days days_overdue ++ units " назад"

-- `accountDisplayName`: an empty label is the original account.
unfoldable pub account_display_name : Str → Option Str → Str
account_display_name provider_name none = provider_name
account_display_name provider_name (some label) =
    provider_name ++ units " · " ++ get_or_else (or_null label) (units "основной")

-- The columns of the summary's rows that the texts show.
pub record AlertRow : Type 0 where
  pub name : Str
  pub provider_name : Str
  pub account_label : Option Str
  pub provider_login_url : Option Str
  pub cost : Str
  pub currency : Str
  pub days : ℕ
  pub account_balance : Option Str
  pub account_balance_currency : Option Str
