-- ===== src/Handlers/Datasets/Lists.antt =====
-- The data sets that a user is shown by internal/handlers/datasets.go; their order and times are left out.
use data_flow_agent_hub.Base.{
  ℕ, Text, codes, same, lookup, List, [], ◌∷◌, ◌++◌, Bool, not, ◌&&◌, Option, none, some,
  if◌then◌else◌,
}
use data_flow_agent_hub.Rbac.{super_admin}
use data_flow_agent_hub.Handlers.Users.{Claims}
use data_flow_agent_hub.Handlers.DataSql.{
  Dataset, Permission, Catalog, not_deleted, has_dataset_access,
}
use data_flow_agent_hub.Handlers.Datasets.{Backend}

pub data Shown : Type 0 where
  refused : ℕ → Text → Shown
  listed : List (Text × Dataset) → Shown
  shown : Text → Dataset → Shown

-- every data set that is not deleted
unfoldable pub all_datasets : List (Text × Dataset) → List (Text × Dataset)
all_datasets [] = []
all_datasets ((id, d) ∷ datasets) =
    let rest = all_datasets datasets in if not_deleted (some d) then (id, d) ∷ rest else rest

-- a data set once for each grant of it that the user has, which the `JOIN` gives
unfoldable pub for_grants : Text → Text → Dataset → List Permission → List (Text × Dataset)
for_grants user id d [] = []
for_grants user id d (p ∷ permissions) =
    let rest = for_grants user id d permissions in
    if same p.dataset_id id && same p.user_id user then (id, d) ∷ rest else rest

unfoldable pub granted_datasets :
    Text → List Permission → List (Text × Dataset) → List (Text × Dataset)
granted_datasets user permissions [] = []
granted_datasets user permissions ((id, d) ∷ datasets) =
    let rest = granted_datasets user permissions datasets in
    if not_deleted (some d) then for_grants user id d permissions ++ rest else rest

-- `ListDatasets`
unfoldable pub list_datasets : Backend → Option Claims → Catalog → Shown
list_datasets back none cat = refused 401 (codes "unauthorized")
list_datasets back (some c) cat =
    if back.select_fails
    then refused 500 (codes "db error")
    else if same c.role super_admin
    then listed (all_datasets cat.datasets)
    else listed (granted_datasets c.user_id cat.permissions cat.datasets)

unfoldable pub show_dataset : Bool → Text → Option Dataset → Shown
show_dataset fails id none = refused 404 (codes "dataset not found")
show_dataset fails id (some d) =
    if fails then refused 404 (codes "dataset not found") else shown id d

-- `GetDataset`
unfoldable pub get_dataset : Backend → Option Claims → Text → Catalog → Shown
get_dataset back none id cat = refused 401 (codes "unauthorized")
get_dataset back (some c) id cat =
    if same id []
    then refused 400 (codes "missing dataset id")
    else if not (has_dataset_access cat c.user_id id c.role)
    then refused 403 (codes "no access to this dataset")
    else show_dataset back.select_fails id (lookup id cat.datasets)
