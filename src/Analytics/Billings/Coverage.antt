-- ===== src/Analytics/Billings/Coverage.antt =====
-- Whether a balance covers the charges ahead: analytics.service.ts.
use infra_billing.Base.{
  Bool, Bool-cases, List, Map, Option, Option-cases, Str, [], ap, false, get_elem?, if◌then◌else◌,
  inl, inr, length, map_get-map_set, none, refl, some, str_eq, str_eq_refl, str_eq→eq, ℕ, ◌++◌,
  ◌>>=◌, ◌∙◌, ◌∷◌, ◌≡◌,
}
use infra_billing.Decimal.{Decimal}
use infra_billing.Analytics.Due.{Charge}
use infra_billing.Analytics.Billings.{
  Running, Upcoming, running_of, covers, deplete, cover_loop, upcoming_row,
}

module _ {D : Type 0} ⦃num : Decimal D⦄ where
  abbrev pub take_off : Charge D → Option D → Option D
  take_off c none = none
  take_off c (some b) = some (num.sub b c.cost_base)

  -- What a balance is after the charges of an account among a list.
  abbrev pub left : Option D → Str → List (Charge D) → Option D
  left balance uuid [] = balance
  left balance uuid (c ∷ rest) =
      left (if str_eq c.service.account_uuid uuid then take_off c balance else balance) uuid rest

  -- One charge takes its cost off its own account.
  running_of-deplete_own :
      (rates : Map D) (currency_of : Str → Option Str) (c : Charge D) (r : Running D)
      → running_of c.service.account_uuid (deplete rates currency_of c r).base
        ≡ take_off c (running_of c.service.account_uuid r.base)
  unfolding deplete
  running_of-deplete_own rates currency_of c r =
      let uuid = c.service.account_uuid in
      elim (Option-cases (running_of uuid r.base)) [
        | inl e ↦ rw (e, deplete, e) refl
        | inr (b, e) ↦
            rw
              (
                e,
                deplete,
                map_get-map_set uuid uuid (some (num.sub b c.cost_base)) r.base,
                str_eq_refl uuid,
              )
              refl
      ]

  running_of-deplete_other :
      (rates : Map D) (currency_of : Str → Option Str) (c : Charge D) (r : Running D) (uuid : Str)
      → str_eq c.service.account_uuid uuid ≡ false
      → running_of uuid (deplete rates currency_of c r).base ≡ running_of uuid r.base
  unfolding deplete
  running_of-deplete_other rates currency_of c r uuid n =
      let own = c.service.account_uuid in
      elim (Option-cases (running_of own r.base)) [
        | inl e ↦ rw (e, deplete) refl
        | inr (b, e) ↦
            rw (e, deplete, map_get-map_set own uuid (some (num.sub b c.cost_base)) r.base, n) refl
      ]

  -- The balances in front of each charge are those that the charges before it left.
  cover_loop-left :
      (now : ℕ) (rates : Map D) (currency_of : Str → Option Str) (is_postpaid : Str → Bool)
      (before after : List (Charge D)) (c : Charge D) (r : Running D)
      → (q : Running D) × (get_elem?
            (cover_loop now rates currency_of is_postpaid (before ++ c ∷ after) r).0
            (length before)
          ≡ some (upcoming_row now is_postpaid c q))
        × (running_of c.service.account_uuid q.base
            ≡ left (running_of c.service.account_uuid r.base) c.service.account_uuid before)
  unfolding cover_loop
  cover_loop-left now rates currency_of is_postpaid [] after c r = (r, refl, refl)
  cover_loop-left now rates currency_of is_postpaid (b ∷ before) after c r =
      let (q, found, balance) =
        cover_loop-left now rates currency_of is_postpaid before after c
          (deplete rates currency_of b r) in
      (q, found, balance ∙ ap (λ o. left o c.service.account_uuid before) (step b c r))
    where
      step :
          (b c : Charge D) (r : Running D)
          → running_of c.service.account_uuid (deplete rates currency_of b r).base ≡ (
              if str_eq b.service.account_uuid c.service.account_uuid
              then take_off b (running_of c.service.account_uuid r.base)
              else running_of c.service.account_uuid r.base)
      step b c r = elim (Bool-cases (str_eq b.service.account_uuid c.service.account_uuid)) [
        | inl y ↦
            rw
              (
                y,
                ← str_eq→eq b.service.account_uuid c.service.account_uuid y,
                running_of-deplete_own rates currency_of b r,
              )
              refl
        | inr n ↦
            rw (n, running_of-deplete_other rates currency_of b r c.service.account_uuid n) refl
      ]

  -- A charge ahead is shown as covered exactly by what the earlier charges of its own account leave
  -- of the account's balance, and as unknown where the balance is not known; charges of other
  -- accounts do not count.
  pub cover_loop-covered :
      (now : ℕ) (rates : Map D) (currency_of : Str → Option Str) (is_postpaid : Str → Bool)
      (before after : List (Charge D)) (c : Charge D) (r : Running D)
      → (get_elem?
            (cover_loop now rates currency_of is_postpaid (before ++ c ∷ after) r).0
            (length before)
          >>= λ (u : Upcoming D). some u.covered)
        ≡ some (
            covers
              (left (running_of c.service.account_uuid r.base) c.service.account_uuid before)
              c.cost_base)
  cover_loop-covered now rates currency_of is_postpaid before after c r =
      let (q, found, balance) =
        cover_loop-left now rates currency_of is_postpaid before after c r in
      ap (λ o. o >>= λ (u : Upcoming D). some u.covered) found
      ∙ ap (λ b. some (covers b c.cost_base)) balance
