-- ===== src/Sync/Calls.antt =====
-- The calls of `syncAccount` of sync.service.ts, step by step: which of them may end a run, and
-- which steps never throw.
use infra_billing.Base.{
  All, Bool, List, Option, Str, [], arith, false, none, refl, some, true, ℕ, ◌++◌, ◌∷◌, ◌≡◌,
}
use infra_billing.Base.Results.{Result, ok, err}
use mathlib.Core.List.{append_assoc}
use infra_billing.Sync.Services.{AccountOwner}
use infra_billing.Sync.Run.{
  Failure, Fetch, PaymentData, Call, update_favicon_link, update_balance, record_snapshot,
  write_services, write_payments, mark_synced, mark_ok, record_sync_error, mark_error, ProviderKind,
  AccountRow, Run, attempt, favicon_step, import_payments, payments_step, with_retry, throws_or,
  ◌>>=◌, synced, ended, create_running, reason, checked, keep_favicon,
}

-- A call that neither starts a run nor ends it.
unfoldable pub is_work : {D : Type 0} → Call D → Bool
is_work (update_favicon_link u) = true
is_work (update_balance b c) = true
is_work (record_snapshot b c) = true
is_work (write_services o s c) = true
is_work (write_payments o p) = true
is_work _ = false

-- The calls that close a run.
unfoldable pub closing : {D : Type 0} → Result Str ℕ → List (Call D)
closing (ok n) = mark_synced ∷ mark_ok n ∷ []
closing (err m) = record_sync_error m ∷ mark_error m ∷ []

module _ {D : Type 0} (P : Call D → Type 0) where
  pub All-append : (xs ys : List (Call D)) → All P xs → All P ys → All P (xs ++ ys)
  All-append [] ys p q = q
  All-append (x ∷ xs) ys p q = (p.0, All-append xs ys p.1 q)

  pub All-bind :
      {A B : Type 0} (r : Run D A) (k : A → Run D B)
      → All P r.0
      → ((a : A) → All P (k a).0)
      → All P (r >>= k).0
  All-bind (calls, ok a) k p q = All-append calls (k a).0 p (q a)
  All-bind (calls, err e) k p q = p

  pub All-attempt : (r : Run D ℕ) → All P r.0 → All P (attempt r).0
  All-attempt (calls, ok n) p = p
  All-attempt (calls, err e) p = p

abbrev pub IsWork : {D : Type 0} → Call D → Type 0
IsWork c = is_work c ≡ true

pub favicon_step-IsWork :
    (D : Type 0) (account : AccountRow) (answer : Option (Result Failure (Option Str)))
    → All (IsWork {D = D}) (favicon_step {D = D} account answer).0
unfolding is_work
favicon_step-IsWork D account none = tt
favicon_step-IsWork D account (some (err e)) = tt
favicon_step-IsWork D account (some (ok none)) = tt
favicon_step-IsWork D account (some (ok (some []))) = tt
favicon_step-IsWork D account (some (ok (some (c ∷ cs)))) = ground arith

pub payments_step-IsWork :
    {D : Type 0}
    → (owner : AccountOwner) (fetch : Option (Fetch (List (PaymentData D))))
    → All IsWork (payments_step owner fetch).0
unfolding payments_step is_work
payments_step-IsWork owner none = tt
payments_step-IsWork owner (some fetch) = go (with_retry fetch)
  where
    go :
        {D : Type 0}
        → (r : Result Failure (List (PaymentData D)))
        → All IsWork (attempt (throws_or r >>= import_payments owner)).0
    go (ok []) = tt
    go (ok (p ∷ ps)) = (refl, tt)
    go (err e) = tt

pub ended_lem :
    {D : Type 0}
    → (r : Run D ℕ)
    → (result : Result Str ℕ) × (ended r ≡ (create_running ∷ r.0 ++ closing result, result))
unfolding closing
ended_lem (calls, ok n) = (ok n, refl)
ended_lem (calls, err e) = (err (reason e), refl)

pub checked_lem :
    {D : Type 0}
    → (k : ProviderKind) (kind : Str) (e : Bool) (r : Run D ℕ) → k ≡ synced kind
    → e ≡ true
    → checked k e r ≡ ok (ended r)
checked_lem k kind e r p q = rw (p, q) refl

-- Code that does not throw.
abbrev pub Quiet : {D : Type 0} → Run D ℕ → Type 0
Quiet {D} r = (pre : List (Call D)) × (n : ℕ) × (r ≡ (pre, ok n))

pub Quiet-attempt : {D : Type 0} → (r : Run D ℕ) → Quiet (attempt r)
Quiet-attempt (calls, ok n) = (calls, n, refl)
Quiet-attempt (calls, err e) = (calls, 0, refl)

pub Quiet-favicon_step :
    {D : Type 0}
    → (account : AccountRow) (answer : Option (Result Failure (Option Str)))
    → Quiet {D = D} (favicon_step account answer)
Quiet-favicon_step account none = ([], 0, refl)
Quiet-favicon_step account (some answer) =
    Quiet-attempt (throws_or answer >>= λ url. keep_favicon url account.favicon_link)

pub Quiet-payments_step :
    {D : Type 0}
    → (owner : AccountOwner) (fetch : Option (Fetch (List (PaymentData D))))
    → Quiet (payments_step owner fetch)
unfolding payments_step
Quiet-payments_step owner none = ([], 0, refl)
Quiet-payments_step owner (some fetch) =
    Quiet-attempt (throws_or (with_retry fetch) >>= import_payments owner)

-- Code that makes the call `w` and ends with `n`.
abbrev pub Makes : {D : Type 0} → Call D → ℕ → Run D ℕ → Type 0
Makes {D} w n r =
    (before : List (Call D)) × (after : List (Call D)) × (r ≡ (before ++ w ∷ after, ok n))

pub Makes-Quiet :
    {D : Type 0}
    → (w : Call D) (n : ℕ) (r b : Run D ℕ) → Quiet r
    → Makes w n b
    → Makes w n (r >>= λ _. b)
Makes-Quiet w n r b (pre, m, e) (before, after, h) =
    (pre ++ before, after, rw (e, h) (rw (append_assoc pre before (w ∷ after)) refl))

pub Makes-fetched :
    {D A : Type 0}
    → (w : Call D) (n : ℕ) (r : Result Failure A) (a : A) (k : A → Run D ℕ) → r ≡ ok a
    → Makes w n (k a)
    → Makes w n (throws_or r >>= k)
Makes-fetched w n r a k e (before, after, h) = (before, after, rw e h)
