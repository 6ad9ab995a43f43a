-- ===== src/Rates/Latest/Agree.antt =====
-- `getRubRates` and `listRates` of currency.service.ts, which read the same table.
use infra_billing.Base.{
  Bool-cases, List, Map, Option-cases, Str, [], any, ap, arith, false, if◌then◌else◌, inl, inr,
  map_get, map_get-map_set, map_set, none, refl, some, str_eq, str_eq_iff, str_eq→eq, true, ◌∷◌,
  ◌≡◌,
}
use infra_billing.Decimal.{Decimal}
use infra_billing.Rates.Latest.{
  ExchangeRate, rub, add_latest, rate_in, get_rub_rates, list_rates_from, list_rates,
}

any-str_eq_ne :
    (code j : Str) (seen : List Str)
    → any (str_eq code) seen ≡ false
    → any (str_eq j) seen ≡ true
    → str_eq j code ≡ false
any-str_eq_ne code j seen h k = elim (Bool-cases (str_eq j code)) [
  | inl e ↦
      let same = ap (λ c. any (str_eq c) seen) (str_eq→eq j code e) in absurd (ground (arith, same))
  | inr e ↦ e
]

str_eq_comm : (s t : Str) → str_eq s t ≡ str_eq t s
str_eq_comm s t = ground (arith, str_eq_iff s t, str_eq_iff t s)

module _ {D : Type 0} where
  add_latest-rate_in :
      (code : Str) (rows : List (ExchangeRate D)) (rates : Map D)
      → map_get code (add_latest rows rates)
        ≡ elim (map_get code rates) [ none ↦ rate_in code rows | some d ↦ some d ]
  unfolding add_latest
  add_latest-rate_in code [] rates = ground arith
  add_latest-rate_in code (r ∷ rs) rates = elim (Option-cases (map_get r.code rates)) [
    | inl e ↦ rw e (
        rw
          (
            add_latest-rate_in code rs (map_set r.code r.rate rates),
            map_get-map_set r.code code r.rate rates,
          )
          (ground (arith, str_eq_iff r.code code)))
    | inr (d, e) ↦
        rw e (rw (add_latest-rate_in code rs rates) (ground (arith, str_eq_iff r.code code)))
  ]

  list_rates_from-rate_in :
      (code : Str) (seen : List Str) (rows : List (ExchangeRate D))
      → any (str_eq code) seen ≡ false
      → rate_in code (list_rates_from seen rows) ≡ rate_in code rows
  unfolding list_rates_from
  list_rates_from-rate_in code seen [] h = refl
  list_rates_from-rate_in code seen (r ∷ rs) h = elim (Bool-cases (any (str_eq r.code) seen)) [
    | inl e ↦ rw (e, any-str_eq_ne code r.code seen h e) (list_rates_from-rate_in code seen rs h)
    | inr e ↦ elim (Bool-cases (str_eq r.code code)) [
      | inl same ↦ rw (e, same) refl
      | inr other ↦
          rw (e, other)
            (list_rates_from-rate_in code (r.code ∷ seen) rs
              (ground (arith, h, str_eq_comm r.code code)))
    ]
  ]

module _ {D : Type 0} ⦃num : Decimal D⦄ where
  -- The map that analytics converts with holds 1 for the rouble and, for any other code, the rate
  -- of the newest row with it, which is the rate that `listRates` shows for that code.
  pub get_rub_rates-list_rates :
      (rows : List (ExchangeRate D)) (code : Str)
      → map_get code (get_rub_rates rows)
        ≡ (if str_eq rub code then some (num.of_ℕ 1) else rate_in code (list_rates rows))
  unfolding get_rub_rates list_rates map_get
  get_rub_rates-list_rates rows code =
      rw
        (
          add_latest-rate_in code rows ((rub, num.of_ℕ 1) ∷ []),
          list_rates_from-rate_in code [] rows refl,
        )
        (ground arith)
