-- ===== src/Projects.antt =====
-- projects.service.ts: what happens to the services of a project. The projects are the list of
-- their uuids, without their names and icons; the services are a table, as the sync uses it.
pub mod Moves
use infra_billing.Base.{Bool, List, Str, any, filter, if◌then◌else◌, not, str_eq}
use infra_billing.Base.Results.{Result, ok, err}
use infra_billing.Sync.Tables.{ServiceRow, ServiceTable}
use infra_billing.Sync.Services.{default_project}

pub data ProjectError : Type 0 where
  project_not_found default_project_stays : ProjectError

pub record ProjectState (T : Type 0) : Type 0 where
  pub services : T
  pub projects : List Str

abbrev pub in_project : Str → ServiceRow → Bool
in_project project r = str_eq r.project_uuid project

abbrev pub not_in_project : Str → ServiceRow → Bool
not_in_project project r = not (str_eq r.project_uuid project)

abbrev pub assigned : Str → ServiceRow → ServiceRow
assigned project r = record r { project_uuid = project }

-- `ensureExists`.
abbrev pub ensure_exists :
    {T : Type 0} {A : Type 0} → Str → ProjectState T → A → Result ProjectError A
ensure_exists uuid s a = if any (str_eq uuid) s.projects then ok a else err project_not_found

module _ {T : Type 0} ⦃table : ServiceTable T⦄ where
  -- `moveAllInto`.
  unfoldable pub move_all_into : Str → ProjectState T → Result ProjectError (ProjectState T)
  move_all_into uuid s =
      ensure_exists uuid s
        (record s { services = table.update_rows (not_in_project uuid) (assigned uuid) s.services })

  -- `moveProjectServices`.
  abbrev pub move_services : Str → Str → T → T
  move_services from_ to t = table.update_rows (in_project from_) (assigned to) t

  -- `empty`.
  unfoldable pub empty_project : Str → ProjectState T → Result ProjectError (ProjectState T)
  empty_project uuid s = ensure_exists uuid s (
      if str_eq uuid default_project
      then s
      else record s { services = move_services uuid default_project s.services })

  -- `remove`.
  unfoldable pub remove_project : Str → ProjectState T → Result ProjectError (ProjectState T)
  remove_project uuid s =
      if str_eq uuid default_project
      then err default_project_stays
      else ensure_exists uuid s (record {
        services = move_services uuid default_project s.services;
        projects = filter (λ p. not (str_eq p uuid)) s.projects;
      })
