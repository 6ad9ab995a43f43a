-- ===== src/Sync/Tables.antt =====
-- The rows that a sync writes, and the table of services as the sync calls it. Prisma and the
-- database are not part of the repository, so the table is an interface, and `IsServiceTable`
-- states what findUnique, create, update and updateMany are documented to do.
use infra_billing.Base.{
  Bool, Map, Option, Str, if◌then◌else◌, none, opt_eq, some, str_eq, true, ℕ, ◌&&◌, ◌≡◌,
}

-- A value of `meta`, which is free-form JSON: only texts are read.
pub data Json : Type 0 where
  text : Str → Json
  null : Json
  other : ℕ → Json

abbrev pub Meta : Type 0
Meta = Map Json

-- The columns of `services` that the services write. An amount is the text that was stored.
pub record ServiceRow : Type 0 where
  pub uuid : Str
  pub account_uuid : Str
  pub provider_uuid : Str
  pub project_uuid : Str
  pub external_id : Option Str
  pub name : Str
  pub description : Option Str
  pub type_name : Str
  pub country_code : Option Str
  pub cost : Str
  pub currency : Str
  pub period : Str
  pub next_billing_at : Option ℕ
  pub is_active : Bool
  pub is_managed : Bool
  pub cost_overridden : Bool
  pub name_overridden : Bool
  pub type_overridden : Bool
  pub active_overridden : Bool
  pub meta : Meta

-- The row has this key of the unique index (account, external id), which no null enters.
abbrev pub has_key : Str → Str → ServiceRow → Bool
has_key account external r = str_eq r.account_uuid account && opt_eq r.external_id (some external)

pub record ServiceTable (T : Type 0) : Type 0 where
  -- `findUnique` by (account, external id).
  pub find_row : Str → Str → T → Option ServiceRow
  -- `findUnique` by uuid, which every row has.
  pub find_uuid : Str → T → Option ServiceRow
  -- `create` of a row, whose uuid the database draws.
  pub next_uuid : T → Str
  pub create_row : (Str → ServiceRow) → T → T
  -- `update` by uuid, and `updateMany`.
  pub update_row : Str → (ServiceRow → ServiceRow) → T → T
  pub update_rows : (ServiceRow → Bool) → (ServiceRow → ServiceRow) → T → T

-- A change of a row leaves its key and its uuid.
pub record KeepsKey (f : ServiceRow → ServiceRow) : Type 0 where
  pub same_uuid : (r : ServiceRow) → (f r).uuid ≡ r.uuid
  pub same_account : (r : ServiceRow) → (f r).account_uuid ≡ r.account_uuid
  pub same_external : (r : ServiceRow) → (f r).external_id ≡ r.external_id

abbrev pub when : (ServiceRow → Bool) → (ServiceRow → ServiceRow) → ServiceRow → ServiceRow
when test f r = if test r then f r else r

abbrev pub has_uuid : Str → ServiceRow → Bool
has_uuid uuid r = str_eq r.uuid uuid

abbrev pub map_option {ℓ} : {A B : Type ℓ} → (A → B) → Option A → Option B
map_option f none = none
map_option f (some a) = some (f a)

pub record IsServiceTable {T : Type 0} (table : ServiceTable T) : Type 0 where
  -- What is found under a key has the key.
  pub find_row-has_key :
      (a e : Str) (t : T) (r : ServiceRow) → table.find_row a e t ≡ some r → has_key a e r ≡ true
  pub find_row-create_row :
      (a e : Str) (f : Str → ServiceRow) (t : T)
      → table.find_row a e (table.create_row f t) ≡ (
          if has_key a e (f (table.next_uuid t))
          then some (f (table.next_uuid t))
          else table.find_row a e t)
  pub find_row-update_row :
      (a e uuid : Str) (f : ServiceRow → ServiceRow) (t : T)
      → KeepsKey f
      → table.find_row a e (table.update_row uuid f t)
        ≡ map_option (when (has_uuid uuid) f) (table.find_row a e t)
  pub find_row-update_rows :
      (a e : Str) (test : ServiceRow → Bool) (f : ServiceRow → ServiceRow) (t : T)
      → KeepsKey f
      → table.find_row a e (table.update_rows test f t)
        ≡ map_option (when test f) (table.find_row a e t)
  pub find_uuid-has_uuid :
      (u : Str) (t : T) (r : ServiceRow) → table.find_uuid u t ≡ some r → has_uuid u r ≡ true
  pub find_uuid-update_row :
      (u uuid : Str) (f : ServiceRow → ServiceRow) (t : T)
      → KeepsKey f
      → table.find_uuid u (table.update_row uuid f t)
        ≡ map_option (when (has_uuid uuid) f) (table.find_uuid u t)
  pub find_uuid-update_rows :
      (u : Str) (test : ServiceRow → Bool) (f : ServiceRow → ServiceRow) (t : T)
      → KeepsKey f
      → table.find_uuid u (table.update_rows test f t)
        ≡ map_option (when test f) (table.find_uuid u t)
