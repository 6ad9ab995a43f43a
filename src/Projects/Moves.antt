-- ===== src/Projects/Moves.antt =====
-- `remove` of projects.service.ts, and the services of the project.
use infra_billing.Base.{
  Bool, Bool-cases, List, Option, Str, [], any, arith, false, filter, if◌then◌else◌, inl, inr, none,
  not, refl, some, str_eq, str_eq_iff, sym, true, ◌∙◌, ◌∷◌, ◌≡◌,
}
use infra_billing.Base.Results.{Result, ok}
use infra_billing.Sync.Tables.{ServiceRow, ServiceTable, IsServiceTable, KeepsKey, when, map_option}
use infra_billing.Sync.Services.{default_project}
use infra_billing.Projects.{ProjectState, in_project, assigned, move_services, remove_project}

assigned-KeepsKey : (project : Str) → KeepsKey (assigned project)
assigned-KeepsKey project = record {
  same_uuid = λ r. refl;
  same_account = λ r. refl;
  same_external = λ r. refl;
}

filtered :
    (uuid : Str) (ps : List Str)
    → any (λ p. str_eq p uuid) (filter (λ p. not (str_eq p uuid)) ps) ≡ false
filtered uuid [] = refl
filtered uuid (p ∷ ps) = ground (arith, filtered uuid ps)

ok-injective : {E A : Type 0} → {x y : A} → ◌≡◌ {A = Result E A} (ok x) (ok y) → x ≡ y
ok-injective h = cc

-- A row that was found is in the project.
abbrev pub is_within : Str → Option ServiceRow → Bool
is_within project none = false
is_within project (some r) = str_eq r.project_uuid project

-- A row as it is to be after a project is removed.
abbrev pub row_after : Str → ServiceRow → ServiceRow
row_after removed r =
    if str_eq r.project_uuid removed then record r { project_uuid = default_project } else r

module _ {T : Type 0} ⦃table : ServiceTable T⦄ (laws : IsServiceTable table) where
  removed :
      (uuid : Str) (s t : ProjectState T)
      → remove_project uuid s ≡ ok t
      → (str_eq uuid default_project ≡ false)
        × (any (str_eq uuid) s.projects ≡ true)
        × (t ≡ record {
          services = move_services uuid default_project s.services;
          projects = filter (λ p. not (str_eq p uuid)) s.projects;
        })
  unfolding remove_project
  removed uuid s t h = elim (Bool-cases (str_eq uuid default_project)) [
    | inl y ↦ absurd (ground (arith, y))
    | inr n ↦ elim (Bool-cases (any (str_eq uuid) s.projects)) [
      | inr m ↦ absurd (ground (arith, n, m))
      | inl y ↦ (n, y, ok-injective (sym h ∙ rw (n, y) refl))
    ]
  ]

  left_of :
      (uuid : Str) (o : Option ServiceRow)
      → str_eq uuid default_project ≡ false
      → is_within uuid (map_option (when (in_project uuid) (assigned default_project)) o) ≡ false
  left_of uuid none n = refl
  left_of uuid (some r) n = elim (Bool-cases (in_project uuid r)) [
    | inl y ↦
        rw y (ground (arith, n, str_eq_iff uuid default_project, str_eq_iff default_project uuid))
    | inr m ↦ rw m m
  ]

  -- Removing a project succeeds only for a project that is there and is not the default one. Then
  -- it is gone, and no service is lost, synced or manual: under each uuid there is the row that was
  -- there, unchanged but for its project, which is the default one if it was the removed one. So no
  -- service is left in the removed project.
  pub remove_project-keeps :
      (uuid : Str) (s t : ProjectState T) (u : Str)
      → remove_project uuid s ≡ ok t
      → (str_eq uuid default_project ≡ false)
        × (any (str_eq uuid) s.projects ≡ true)
        × (any (λ p. str_eq p uuid) t.projects ≡ false)
        × (table.find_uuid u t.services
            ≡ map_option (row_after uuid) (table.find_uuid u s.services))
        × (is_within uuid (table.find_uuid u t.services) ≡ false)
  remove_project-keeps uuid s t u h =
      let (n, m, p) = removed uuid s t h in
      let moved =
        laws.find_uuid-update_rows u (in_project uuid) (assigned default_project) s.services
          (assigned-KeepsKey default_project) in
      (
        n,
        m,
        rw p (filtered uuid s.projects),
        rw p moved,
        rw (p, moved) (left_of uuid (table.find_uuid u s.services) n),
      )
