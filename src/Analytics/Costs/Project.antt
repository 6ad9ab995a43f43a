-- ===== src/Analytics/Costs/Project.antt =====
-- analytics.service.ts: `projectStats`, the monthly costs of one project.
use infra_billing.Base.{
  List, Map, Option, Str, [], get_or_else, length, map, map_get, map_set, none, some, ℕ, ◌∷◌,
}
use infra_billing.Base.Results.{Result, ok, err}
use infra_billing.Decimal.{Decimal}
use infra_billing.Analytics.{ServiceCost}
use infra_billing.Analytics.Costs.{Agg, cost_loop, no_costs, yearly_projection}

pub data StatsError : Type 0 where
  project_not_found : StatsError

-- `ProjectStats`. A provider is shown by its name, the empty text where it has none.
pub record ProjectStats (D : Type 0) : Type 0 where
  pub project_uuid : Str
  pub name : Str
  pub base_currency : Str
  pub monthly_total : D
  pub yearly_projection : D
  pub services_count : ℕ
  pub by_type : Map (Agg D)
  pub by_country : Map (Agg D)
  pub by_provider : List (Str × Str × Agg D)

-- The provider names as a map.
unfoldable pub provider_names : List (Str × Str) → Map Str → Map Str
provider_names [] m = m
provider_names ((uuid, name) ∷ rest) m = provider_names rest (map_set uuid name m)

module _ {D : Type 0} ⦃num : Decimal D⦄ where
  -- `projectStats`, of the project if it is found and of its active services.
  unfoldable pub project_stats :
      Option (Str × Str)
      → Str
      → Map D
      → List (Str × Str)
      → List (ServiceCost D)
      → Result StatsError (ProjectStats D)
  unfolding cost_loop provider_names
  project_stats none base rates providers services = err project_not_found
  project_stats (some (uuid, name)) base rates providers services =
      let c = cost_loop base rates services no_costs in
      let names = provider_names providers [] in
      ok (record {
        project_uuid = uuid;
        name = name;
        base_currency = base;
        monthly_total = c.monthly_total;
        yearly_projection = yearly_projection c;
        services_count = length services;
        by_type = c.by_type;
        by_country = c.by_country;
        by_provider =
            map (λ (e : Str × Agg D). (e.0, get_or_else (map_get e.0 names) [], e.1)) c.by_provider;
      })
