-- ===== src/Notifications/Throttle.antt =====
-- The throttle of notifications.service.ts.
use infra_billing.Base.{
  All, Bool, Bool-cases, List, Str, [], any, arith, false, inl, inr, leb, ltb, refl, str_eq, true,
  ℕ, ◌&&◌, ◌-◌, ◌||◌, ◌∷◌, ◌≡◌, ◌⊎◌,
}
use infra_billing.Notifications.Alerts.{
  NotificationLog, throttle_ms, maybe_send, send_all, check_and_notify, check_alerts, Summary,
}

-- What the queries of the log are documented to do: a `create` adds a row of its key and its time,
-- and a `findFirst` finds one of a key from a time on.
pub record IsNotificationLog {L : Type 0} (log : NotificationLog L) : Type 0 where
  pub was_sent_since-record_key :
      (key k : Str) (since now : ℕ) (l : L)
      → log.was_sent_since key since (log.record_key k now l)
        ≡ (str_eq key k && leb since now) || log.was_sent_since key since l

-- No key stands twice.
abbrev pub NoRepeat : List Str → Type 0
NoRepeat [] = Unit {0}
NoRepeat (k ∷ ks) = (any (λ j. str_eq j k) ks ≡ false) × NoRepeat ks

module _ {L : Type 0} ⦃log : NotificationLog L⦄ (laws : IsNotificationLog log)
    (telegram_send : Str → Bool) (now : ℕ) where
  -- A key that the log has no row of in the last 24 hours.
  abbrev pub IsFresh : L → Str → Type 0
  IsFresh l k = log.was_sent_since k (now - throttle_ms) l ≡ false

  maybe_send-log :
      (key k : Str) (since : ℕ) (l : L)
      → log.was_sent_since k since (maybe_send telegram_send now key l).1
        ≡ ((maybe_send telegram_send now key l).0 && str_eq k key && leb since now)
          || log.was_sent_since k since l
  unfolding maybe_send
  maybe_send-log key k since l = ground (arith, laws.was_sent_since-record_key k key since now l)

  maybe_send-IsFresh :
      (key : Str) (l : L) → (maybe_send telegram_send now key l).0 ≡ true → IsFresh l key
  unfolding maybe_send
  maybe_send-IsFresh key l h = ground arith

  send_all-log :
      (keys : List Str) (k : Str) (since : ℕ) (l : L)
      → log.was_sent_since k since (send_all telegram_send now keys l).1
        ≡ (any (str_eq k) (send_all telegram_send now keys l).0 && leb since now)
          || log.was_sent_since k since l
  unfolding send_all
  send_all-log [] k since l = refl
  send_all-log (key ∷ keys) k since l = ground (
    arith,
    send_all-log keys k since (maybe_send telegram_send now key l).1,
    maybe_send-log key k since l,
  )

  IsFresh-before :
      (key k : Str) (l : L) → IsFresh (maybe_send telegram_send now key l).1 k → IsFresh l k
  IsFresh-before key k l h = ground (arith, maybe_send-log key k (now - throttle_ms) l)

  All-IsFresh-before :
      (key : Str) (ks : List Str) (l : L)
      → All (IsFresh (maybe_send telegram_send now key l).1) ks
      → All (IsFresh l) ks
  All-IsFresh-before key [] l h = tt
  All-IsFresh-before key (k ∷ ks) l h =
      (IsFresh-before key k l h.0, All-IsFresh-before key ks l h.1)

  not_again :
      (key : Str) (ks : List Str) (l : L)
      → (maybe_send telegram_send now key l).0 ≡ true
      → All (IsFresh (maybe_send telegram_send now key l).1) ks
      → any (λ j. str_eq j key) ks ≡ false
  not_again key [] l s h = refl
  not_again key (k ∷ ks) l s h =
      ground (arith, not_again key ks l s h.1, h.0, maybe_send-log key k (now - throttle_ms) l)

  send_all-IsFresh :
      (keys : List Str) (l : L)
      → All (IsFresh l) (send_all telegram_send now keys l).0
        × NoRepeat (send_all telegram_send now keys l).0
  unfolding send_all
  send_all-IsFresh [] l = (tt, tt)
  send_all-IsFresh (key ∷ keys) l =
      let l1 = (maybe_send telegram_send now key l).1 in
      let (fresh, once) = send_all-IsFresh keys l1 in
      let sent = (send_all telegram_send now keys l1).0 in
      let before = All-IsFresh-before key sent l fresh in
      elim (Bool-cases (maybe_send telegram_send now key l).0) [
        | inl y ↦ rw y ((maybe_send-IsFresh key l y, before), (not_again key sent l y fresh, once))
        | inr n ↦ rw n (before, once)
      ]

  abbrev Throttles : L → List Str × L → Type 0
  Throttles l r =
      All (IsFresh l) r.0
      × NoRepeat r.0
      × ((k : Str) (since : ℕ)
          → log.was_sent_since k since r.1
            ≡ (any (str_eq k) r.0 && leb since now) || log.was_sent_since k since l)

  check_alerts-Throttles :
      (day_text : ℕ → Str) (horizon : ℕ) (summary : Summary) (accounts : List Str) (l : L)
      → Throttles l (check_alerts telegram_send now day_text horizon summary accounts l)
  unfolding check_alerts
  check_alerts-Throttles day_text horizon summary accounts l =
      let (fresh, once) = send_all-IsFresh _ l in (fresh, once, λ k since. send_all-log _ k since l)

  check-cases :
      (is_enabled : Bool) (quiet_ms : ℕ) (day_text : ℕ → Str) (horizon : ℕ) (summary : Summary)
      → (accounts : List Str) (l : L)
      → (check_and_notify telegram_send now is_enabled quiet_ms day_text horizon summary accounts l
          ≡ ([], l))
        ⊎ ((check_and_notify telegram_send now is_enabled quiet_ms day_text horizon summary accounts
                l
              ≡ check_alerts telegram_send now day_text horizon summary accounts l)
            × (is_enabled ≡ true)
            × (quiet_ms ≡ 0))
  unfolding check_and_notify
  check-cases false quiet_ms day_text horizon summary accounts l = inl refl
  check-cases true quiet_ms day_text horizon summary accounts l =
      elim (Bool-cases (ltb 0 quiet_ms)) [
        | inl y ↦ inl (rw y refl)
        | inr n ↦ inr (rw n refl, refl, ground (arith, n))
      ]

  -- One check sends no key twice, none that the log has from the last 24 hours, and none at all in
  -- the quiet hours or with Telegram off; the log has afterwards what it had and the keys sent, no
  -- others.
  pub check_and_notify-throttles :
      (is_enabled : Bool) (quiet_ms : ℕ) (day_text : ℕ → Str) (horizon : ℕ) (summary : Summary)
      → (error_accounts : List Str) (l : L)
      → let (sent, l1) =
          check_and_notify telegram_send now is_enabled quiet_ms day_text horizon summary
            error_accounts l in
        All (IsFresh l) sent
        × NoRepeat sent
        × ((k : Str) (since : ℕ)
            → log.was_sent_since k since l1
              ≡ (any (str_eq k) sent && leb since now) || log.was_sent_since k since l)
        × ((sent ≡ []) ⊎ ((is_enabled ≡ true) × (quiet_ms ≡ 0)))
  check_and_notify-throttles is_enabled quiet_ms day_text horizon summary accounts l =
      elim (check-cases is_enabled quiet_ms day_text horizon summary accounts l) [
        | inl e ↦ rw e (tt, tt, λ k since. refl, inl refl)
        | inr (e, on, loud) ↦
            let (fresh, once, after) = check_alerts-Throttles day_text horizon summary accounts l in
            rw e (fresh, once, after, inr (on, loud))
      ]
