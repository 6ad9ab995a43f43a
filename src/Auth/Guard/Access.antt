-- ===== src/Auth/Guard/Access.antt =====
-- What the guard of auth.guard.ts grants.
use infra_billing.Base.Results.{ok}
use infra_billing.Base.{List, Option, Str, arith, false, refl, true, ℕ, ◌↔◌, ◌≡◌, ◌⊎◌}
use infra_billing.Auth.Guard.{
  full, read, ApiToken, verify_api_token, bearer_token, Route, Method, is_read, Request, Caller,
  anyone, session, token, check_route, caller_of, can_activate,
}

-- A caller may use a route that is not public: a session may, and a token may where the route is
-- not for sessions only and, if the token may only read, the request reads or the route allows it.
pub data MayUse (route : Route) (method : Method) : Caller → Type 0 where
  by_session : (name : Str) → MayUse route method (session name)
  by_full_token : (name : Str) → route.session_only ≡ false → MayUse route method (token name full)
  by_read_token :
      (name : Str)
      → route.session_only ≡ false
      → (is_read method ≡ true) ⊎ (route.allow_read_only ≡ true)
      → MayUse route method (token name read)

check_route-MayUse :
    (route : Route) (method : Method) (c d : Caller)
    → check_route route method c ≡ ok d
    → (c ≡ d) × MayUse route method d
unfolding check_route
check_route-MayUse route method anyone d h = cc
check_route-MayUse route method (session name) d h =
    let e : session name ≡ d = cc in (e, rw (← e) (by_session name))
check_route-MayUse route method (token name full) d h =
    let e : token name full ≡ d = ground arith in (e, rw (← e) (by_full_token name (ground arith)))
check_route-MayUse route method (token name read) d h =
    let e : token name read ≡ d = ground arith in
    (e, rw (← e) (by_read_token name (ground arith) (ground arith)))

MayUse-check_route :
    (route : Route) (method : Method) (c : Caller)
    → MayUse route method c
    → check_route route method c ≡ ok c
unfolding check_route
MayUse-check_route route method _ (by_session name) = refl
MayUse-check_route route method _ (by_full_token name h) = rw h refl
MayUse-check_route route method _ (by_read_token name h r) = ground arith

module _ (hash_token : Str → Str) (verify : Option Str → Option Str) where
  -- The caller that a request shows: the token of its header if there is such a token, and else the
  -- user of its cookie.
  abbrev pub shown : Request → ℕ → List ApiToken → Caller
  shown req now tokens =
      caller_of (verify_api_token hash_token (bearer_token req.authorization) now tokens).0
        (verify req.session_cookie)

  can_activate-check_route :
      (route : Route) (req : Request) (now : ℕ) (tokens : List ApiToken)
      → route.is_public ≡ false
      → (can_activate hash_token verify route req now tokens).0
        ≡ check_route route req.method (shown req now tokens)
  unfolding can_activate
  can_activate-check_route route req now tokens h = simp h

  -- On a route that is not public the guard lets a request in exactly when the caller that it shows
  -- may use the route, and then as that caller.
  pub can_activate-MayUse :
      (route : Route) (req : Request) (now : ℕ) (tokens : List ApiToken) (c : Caller)
      → route.is_public ≡ false
      → ((can_activate hash_token verify route req now tokens).0 ≡ ok c)
        ↔ ((shown req now tokens ≡ c) × MayUse route req.method c)
  can_activate-MayUse route req now tokens c h =
      rw (can_activate-check_route route req now tokens h) (
        λ e. check_route-MayUse route req.method (shown req now tokens) c e,
        λ p. rw p.0 (MayUse-check_route route req.method c p.1),
      )
