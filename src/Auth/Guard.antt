-- ===== src/Auth/Guard.antt =====
-- auth.guard.ts, and `verifyApiToken` of auth.service.ts: what a request may do.
pub mod Access
use infra_billing.Base.Results.{Result, ok, err}
use infra_billing.Base.{
  Bool, List, Option, Str, [], any, codes, false, find, if◌then◌else◌, is_space, leb, ltb, map,
  none, or_null, some, str_eq, trim_end, trim_start, true, ℕ, ◌&&◌, ◌+◌, ◌==◌, ◌>>=◌, ◌||◌, ◌∷◌,
}

-- `ApiTokenScope` of packages/shared/src/enums.ts.
pub data Scope : Type 0 where
  full read : Scope

pub record ApiToken : Type 0 where
  pub uuid : Str
  pub token_name : Str
  pub token_hash : Str
  pub scope : Scope
  pub last_used_at : Option ℕ

abbrev pub throttle_ms : ℕ
throttle_ms = 60000

-- `!row.lastUsedAt || now - row.lastUsedAt.getTime() > 60_000`.
abbrev pub is_stale : ℕ → Option ℕ → Bool
is_stale now none = true
is_stale now (some t) = ltb (t + throttle_ms) now

-- `touchLastUsed`.
abbrev pub touch : ℕ → ApiToken → ApiToken
touch now t = if is_stale now t.last_used_at then record t { last_used_at = some now } else t

module _ (hash_token : Str → Str) where
  abbrev pub has_hash : Str → ApiToken → Bool
  has_hash token t = str_eq t.token_hash (hash_token token)

  -- `verifyApiToken`: the token that is meant, and the tokens with its use noted.
  unfoldable pub verify_api_token : Option Str → ℕ → List ApiToken → Option ApiToken × List ApiToken
  verify_api_token none now tokens = (none, tokens)
  verify_api_token (some []) now tokens = (none, tokens)
  verify_api_token (some (c ∷ cs)) now tokens = (
    find (has_hash (c ∷ cs)) tokens,
    map (λ (t : ApiToken). if has_hash (c ∷ cs) t then touch now t else t) tokens,
  )

-- The code units of "bearer", and the test of one against the pattern's, in either case.
abbrev bearer : Str
bearer = codes "bearer"

abbrev lower : ℕ → ℕ
lower c = if leb b'A' c && leb c b'Z' then c + 32 else c

unfoldable pub strip_word : Str → Str → Option Str
strip_word [] s = some s
strip_word (w ∷ ws) [] = none
strip_word (w ∷ ws) (c ∷ cs) = let rest = strip_word ws cs in if lower c == w then rest else none

abbrev is_line_end : ℕ → Bool
is_line_end c = (c == 10) || (c == 13) || (c == 8232) || (c == 8233)

abbrev after_space : Str → Option Str
after_space [] = none
after_space (c ∷ cs) =
    let value = trim_start cs in
    if is_space c then (if any is_line_end value then none else or_null (trim_end value)) else none

-- `bearerToken`: /^Bearer\s+(.+)$/i, and `trim`.
unfoldable pub bearer_token : Option Str → Option Str
unfolding strip_word trim_start trim_end
bearer_token none = none
bearer_token (some header) = strip_word bearer header >>= after_space

-- The marks of a route: `@Public`, `@SessionOnly` and `@AllowReadOnlyToken`.
pub record Route : Type 0 where
  pub is_public : Bool
  pub session_only : Bool
  pub allow_read_only : Bool

pub data Method : Type 0 where
  get head post put patch delete options : Method

-- `READ_METHODS`.
abbrev pub is_read : Method → Bool
is_read get = true
is_read head = true
is_read _ = false

-- A request, as the guard reads it: its `Authorization` header, the cookie of the session and its
-- method.
pub record Request : Type 0 where
  pub authorization : Option Str
  pub session_cookie : Option Str
  pub method : Method

-- Who sent a request that is let in: `authType` with its `user`, and `tokenScope`.
pub data Caller : Type 0 where
  anyone : Caller
  session : Str → Caller
  token : Str → Scope → Caller

pub data Denied : Type 0 where
  unauthorized session_required read_only_token : Denied

-- The rest of the guard once the caller is known.
unfoldable pub check_route : Route → Method → Caller → Result Denied Caller
check_route route method anyone = err unauthorized
check_route route method (session name) = ok (session name)
check_route route method (token name full) =
    if route.session_only then err session_required else ok (token name full)
check_route route method (token name read) =
    if route.session_only
    then err session_required
    else if is_read method || route.allow_read_only
    then ok (token name read)
    else err read_only_token

abbrev pub from_cookie : Option Str → Caller
from_cookie none = anyone
from_cookie (some []) = anyone
from_cookie (some (c ∷ cs)) = session (c ∷ cs)

abbrev pub caller_of : Option ApiToken → Option Str → Caller
caller_of (some t) username = token t.token_name t.scope
caller_of none username = from_cookie username

-- `jwt.verify` with the session's secret is not part of the repository: `verify` answers the user
-- of a cookie that is valid.
module _ (hash_token : Str → Str) (verify : Option Str → Option Str) where
  -- `canActivate`: who is let in, or why not; and the tokens with their use noted.
  unfoldable pub can_activate :
      Route → Request → ℕ → List ApiToken → Result Denied Caller × List ApiToken
  unfolding check_route verify_api_token bearer_token
  can_activate route req now tokens =
      let (found, tokens') =
        verify_api_token hash_token (bearer_token req.authorization) now tokens in
      if route.is_public
      then (ok anyone, tokens)
      else (check_route route req.method (caller_of found (verify req.session_cookie)), tokens')
