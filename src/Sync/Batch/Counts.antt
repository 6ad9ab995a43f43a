-- ===== src/Sync/Batch/Counts.antt =====
-- The counts of `syncProvider` and the calls that its syncs make: sync.service.ts.
use infra_billing.Base.{
  Bool, Bool-cases, List, Option, Option-cases, Str, [], ap, arith, false, filter, if◌then◌else◌,
  inl, inr, length, map, not, refl, some, suc, sym, true, ℕ, ◌&&◌, ◌++◌, ◌+◌, ◌-◌, ◌<◌, ◌∙◌, ◌∷◌,
  ◌≡◌,
}
use infra_billing.Base.Results.{Result, ok, err}
use infra_billing.Decimal.{Decimal}
use infra_billing.Sync.Run.{
  ProviderKind, manual, synced, Failure, Connector, Call, AccountRow, Run, checked, sync_account,
  mark_ok, mark_synced, create_running, record_sync_error, reason, mark_error,
}
use infra_billing.Sync.Batch.{
  Settled, is_ok, summarize_runs, Provider, ProviderAccount, enabled_accounts, sync_one, sync_each,
  sync_enabled, sync_provider,
}

-- The last call of a sync marks its run as ok.
abbrev pub ends_marked_ok : {D : Type 0} → List (Call D) → Bool
ends_marked_ok [] = false
ends_marked_ok (mark_ok n ∷ []) = true
ends_marked_ok (c ∷ []) = false
ends_marked_ok (c ∷ d ∷ rest) = ends_marked_ok (d ∷ rest)

-- The calls of a sync; one that is refused makes none.
abbrev pub calls_of : {D : Type 0} → Settled D → List (Call D)
calls_of (ok (calls, result)) = calls
calls_of (err e) = []

-- How many accounts of a list pass a test.
abbrev pub count_where : (ProviderAccount → Bool) → List ProviderAccount → ℕ
count_where p [] = 0
count_where p (a ∷ rest) = if p a then suc (count_where p rest) else count_where p rest

ends_marked_ok-append :
    {D : Type 0}
    → (xs : List (Call D)) (c d : Call D)
    → ends_marked_ok (xs ++ c ∷ d ∷ []) ≡ ends_marked_ok (d ∷ [])
ends_marked_ok-append [] c d = refl
ends_marked_ok-append (x ∷ []) c d = refl
ends_marked_ok-append (x ∷ y ∷ xs) c d = ends_marked_ok-append (y ∷ xs) c d

-- A sync that is counted as ok is one whose last call marks its run as ok.
is_ok-checked :
    {D : Type 0}
    → (kind : ProviderKind) (is_enabled : Bool) (body : Run D ℕ)
    → is_ok (checked kind is_enabled body)
      ≡ ends_marked_ok (calls_of (checked kind is_enabled body))
is_ok-checked manual b body = refl
is_ok-checked (synced k) false body = refl
is_ok-checked (synced k) true (calls, ok n) =
    sym (ends_marked_ok-append (create_running ∷ calls) mark_synced (mark_ok n))
is_ok-checked (synced k) true (calls, err e) = sym (
    ends_marked_ok-append (create_running ∷ calls) (record_sync_error (reason e))
      (mark_error (reason e)))

module _ {D : Type 0} ⦃num : Decimal D⦄ (decrypt : Str → Result Failure Str)
    (create : Str → ProviderKind → Str → Result Failure (Connector D))
    (find : Str → Option AccountRow) where
  -- The account is on, and its sync marks its run as ok.
  abbrev pub synced_ok : ProviderAccount → Bool
  synced_ok a = a.is_enabled && ends_marked_ok (calls_of (sync_one decrypt create find a.uuid))

  -- The account is on, and its sync does not mark its run as ok.
  abbrev pub synced_badly : ProviderAccount → Bool
  synced_badly a =
      a.is_enabled && not (ends_marked_ok (calls_of (sync_one decrypt create find a.uuid)))

  is_ok-sync_one :
      (uuid : Str)
      → is_ok (sync_one decrypt create find uuid)
        ≡ ends_marked_ok (calls_of (sync_one decrypt create find uuid))
  unfolding sync_account
  is_ok-sync_one uuid = elim (Option-cases (find uuid)) [
    | inl p ↦ rw p refl
    | inr (account, p) ↦ rw p (is_ok-checked account.kind account.is_enabled _)
  ]

  abbrev runs_of : List ProviderAccount → List (Settled D)
  runs_of accounts =
      map (λ (a : ProviderAccount). sync_one decrypt create find a.uuid) (enabled_accounts accounts)

  length-runs_of :
      (accounts : List ProviderAccount)
      → length (runs_of accounts) ≡ length (enabled_accounts accounts)
  length-runs_of [] = refl
  length-runs_of (a ∷ rest) = ground (arith, length-runs_of rest)

  ok_runs :
      (accounts : List ProviderAccount)
      → length (filter is_ok (runs_of accounts)) ≡ count_where synced_ok accounts
  ok_runs [] = refl
  ok_runs (a ∷ rest) = elim (Bool-cases a.is_enabled) [
    | inl y ↦ rw (y, is_ok-sync_one a.uuid) (ground (arith, ok_runs rest))
    | inr n ↦ rw n (ok_runs rest)
  ]

  all_runs :
      (accounts : List ProviderAccount)
      → length (enabled_accounts accounts)
        ≡ count_where synced_ok accounts + count_where synced_badly accounts
  all_runs [] = refl
  all_runs (a ∷ rest) = elim (Bool-cases a.is_enabled) [
    | inl y ↦ rw y (ground (arith, all_runs rest))
    | inr n ↦ rw n (all_runs rest)
  ]

  summary_of :
      (accounts : List ProviderAccount)
      → summarize_runs (runs_of accounts) ≡ record {
        total = length (enabled_accounts accounts);
        ok_count = count_where synced_ok accounts;
        failed = count_where synced_badly accounts;
      }
  unfolding summarize_runs
  summary_of accounts =
      let badly : length (enabled_accounts accounts) - count_where synced_ok accounts
          ≡ count_where synced_badly accounts =
        omega (arith, all_runs accounts) in
      rw (length-runs_of accounts, ok_runs accounts, badly) refl

  not_refused :
      (accounts : List ProviderAccount)
      → 0 < length accounts
      → sync_enabled decrypt create find accounts ≡ ok (sync_each decrypt create find accounts)
  not_refused [] h = absurd (omega (arith, h))
  not_refused (a ∷ rest) h = refl

  -- A sync of a provider with a connector and an enabled account is not refused. Its summary counts
  -- the enabled accounts: as ok those whose sync ends by marking its run as ok, and as failed all
  -- the others, those whose sync is refused or ends in an error.
  pub sync_provider-counts :
      (provider : Provider) (kind : Str)
      → provider.kind ≡ synced kind
      → 0 < length (enabled_accounts provider.accounts)
      → sync_provider decrypt create find (some provider)
        ≡ ok (record {
          total = length (enabled_accounts provider.accounts);
          ok_count = count_where synced_ok provider.accounts;
          failed = count_where synced_badly provider.accounts;
        })
  unfolding sync_provider
  sync_provider-counts provider kind p h =
      rw p
        (not_refused (enabled_accounts provider.accounts) h ∙ ap ok (summary_of provider.accounts))
