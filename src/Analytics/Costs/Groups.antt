-- ===== src/Analytics/Costs/Groups.antt =====
-- The groups of the monthly costs: analytics.service.ts.
use infra_billing.Base.{
  Bool-cases, List, Map, Option, Str, [], ap, arith, codes, false, filter, get_or_else, inl, inr,
  length, map_get, map_get-map_set, none, refl, some, str_eq, str_eq_refl, str_eq→eq, suc, ℕ, ◌+◌,
  ◌∙◌, ◌∷◌, ◌≡◌,
}
use infra_billing.Decimal.{Decimal}
use infra_billing.Analytics.{ServiceCost}
use infra_billing.Money.{monthly_cost}
use infra_billing.Rates.Latest.{convert}
use infra_billing.Analytics.Costs.{
  Agg, Costs, bump, bumped, cost_step, cost_loop, no_costs, monthly_base, country_of,
}

module _ {D : Type 0} ⦃num : Decimal D⦄ where
  -- The sum of the amounts of a list of services, added in their order to a first value.
  abbrev pub sum_of : (ServiceCost D → D) → List (ServiceCost D) → D → D
  sum_of amount [] acc = acc
  sum_of amount (s ∷ rest) acc = sum_of amount rest (num.add acc (amount s))

  -- The entry of a group: the sum from zero and the number of its services, and none for no service.
  abbrev pub group : (ServiceCost D → D) → List (ServiceCost D) → Option (Agg D)
  group amount [] = none
  group amount (s ∷ rest) =
      some (record { monthly = sum_of amount (s ∷ rest) num.nought; count = length (s ∷ rest) })

  -- The cost of a service in a month, in the base currency.
  abbrev pub amount_in_base : Str → Map D → ServiceCost D → D
  amount_in_base base rates s = convert (monthly_cost s.cost s.period) s.currency base rates

  -- What the rounds of the loop make of an entry.
  abbrev grown : (ServiceCost D → D) → List (ServiceCost D) → Option (Agg D) → Option (Agg D)
  grown amount [] cur = cur
  grown amount (s ∷ rest) cur = grown amount rest (some (bumped cur (amount s)))

  grown-some :
      (amount : ServiceCost D → D) (ss : List (ServiceCost D)) (a : Agg D)
      → grown amount ss (some a)
        ≡ some (record { monthly = sum_of amount ss a.monthly; count = a.count + length ss })
  grown-some amount [] a = rw (zero_right a.count) refl
    where
      zero_right : (n : ℕ) → n + 0 ≡ n
      zero_right n = omega arith
  grown-some amount (s ∷ rest) a =
      rw (grown-some amount rest (bumped (some a) (amount s)), step a.count (length rest)) refl
    where
      step : (n m : ℕ) → n + 1 + m ≡ n + suc m
      step n m = omega arith

  grown-group :
      (amount : ServiceCost D → D) (ss : List (ServiceCost D))
      → grown amount ss none ≡ group amount ss
  grown-group amount [] = refl
  grown-group amount (s ∷ rest) =
      rw (grown-some amount rest (bumped none (amount s)), step (length rest)) refl
    where
      step : (m : ℕ) → 0 + 1 + m ≡ suc m
      step m = omega arith

  -- The services of a key.
  abbrev pub of_key : (ServiceCost D → Str) → Str → List (ServiceCost D) → List (ServiceCost D)
  of_key key k services = filter (λ s. str_eq (key s) k) services

  bump_all :
      (ServiceCost D → Str) → (ServiceCost D → D) → List (ServiceCost D) → Map (Agg D) → Map (Agg D)
  bump_all key amount [] m = m
  bump_all key amount (s ∷ rest) m = bump_all key amount rest (bump (key s) (amount s) m)

  map_get-bump :
      (k : Str) (amount : D) (m : Map (Agg D))
      → map_get k (bump k amount m) ≡ some (bumped (map_get k m) amount)
  unfolding bump
  map_get-bump k amount m =
      rw (map_get-map_set k k (bumped (map_get k m) amount) m, str_eq_refl k) refl

  map_get-bump_other :
      (j k : Str) (amount : D) (m : Map (Agg D))
      → str_eq j k ≡ false
      → map_get k (bump j amount m) ≡ map_get k m
  unfolding bump
  map_get-bump_other j k amount m n =
      rw (map_get-map_set j k (bumped (map_get j m) amount) m, n) refl

  map_get-bump_all :
      (key : ServiceCost D → Str) (amount : ServiceCost D → D) (k : Str)
      (services : List (ServiceCost D)) (m : Map (Agg D))
      → map_get k (bump_all key amount services m)
        ≡ grown amount (of_key key k services) (map_get k m)
  unfolding bump_all
  map_get-bump_all key amount k [] m = refl
  map_get-bump_all key amount k (s ∷ rest) m = elim (Bool-cases (str_eq (key s) k)) [
    | inl y ↦
        rw
          (
            y,
            str_eq→eq (key s) k y,
            map_get-bump_all key amount k rest (bump k (amount s) m),
            map_get-bump k (amount s) m,
          )
          refl
    | inr n ↦
        rw
          (
            n,
            map_get-bump_all key amount k rest (bump (key s) (amount s) m),
            map_get-bump_other (key s) k (amount s) m n,
          )
          refl
  ]

  -- The loop over the services is four loops, one for each map.
  cost_loop-bump_all :
      (base : Str) (rates : Map D) (services : List (ServiceCost D)) (c : Costs D)
      → let amount : ServiceCost D → D = monthly_base base rates in
        let r : Costs D = cost_loop base rates services c in
        (r.by_provider ≡ bump_all (λ s. s.provider_uuid) amount services c.by_provider)
        × (r.by_project ≡ bump_all (λ s. s.project_uuid) amount services c.by_project)
        × (r.by_country ≡ bump_all country_of amount services c.by_country)
        × (r.by_type ≡ bump_all (λ s. s.type_name) amount services c.by_type)
  unfolding cost_loop cost_step bump_all
  cost_loop-bump_all base rates [] c = (refl, refl, refl, refl)
  cost_loop-bump_all base rates (s ∷ rest) c =
      cost_loop-bump_all base rates rest (cost_step base rates s c)

  from_none :
      (key : ServiceCost D → Str) (amount : ServiceCost D → D) (k : Str)
      (services : List (ServiceCost D))
      → map_get k (bump_all key amount services []) ≡ group amount (of_key key k services)
  unfolding map_get
  from_none key amount k services =
      map_get-bump_all key amount k services [] ∙ grown-group amount (of_key key k services)

  -- The entry of the panel for a provider, a project, a country or a type of service is the monthly
  -- costs of exactly the services that have it, added from zero in their order, and their number; there
  -- is no entry where no service has it. A service without a country counts under XX.
  pub cost_loop-group :
      (base : Str) (rates : Map D) (services : List (ServiceCost D)) (k : Str)
      → let amount : ServiceCost D → D = amount_in_base base rates in
        let r : Costs D = cost_loop base rates services no_costs in
        (map_get k r.by_provider ≡ group amount (of_key (λ s. s.provider_uuid) k services))
        × (map_get k r.by_project ≡ group amount (of_key (λ s. s.project_uuid) k services))
        × (map_get k r.by_country
            ≡ group amount (of_key (λ s. get_or_else s.country_code (codes "XX")) k services))
        × (map_get k r.by_type ≡ group amount (of_key (λ s. s.type_name) k services))
  cost_loop-group base rates services k =
      let amount : ServiceCost D → D = monthly_base base rates in
      let (p, j, c, t) = cost_loop-bump_all base rates services no_costs in
      (
        ap (map_get k) p ∙ from_none (λ s. s.provider_uuid) amount k services,
        ap (map_get k) j ∙ from_none (λ s. s.project_uuid) amount k services,
        ap (map_get k) c ∙ from_none country_of amount k services,
        ap (map_get k) t ∙ from_none (λ s. s.type_name) amount k services,
      )
