-- ===== src/Handlers/Tables/Listing.antt =====
-- internal/handlers/tables.go: which tables and fields the handlers show.
use data_flow_agent_hub.Base.{
  Text, same, lookup, List, [], ◌∷◌, true, false, not, ◌||◌, Option, none, some, ◌≡◌, refl, ap,
  if_cases, arith, Bool-cases, inl, inr,
}
use data_flow_agent_hub.Handlers.Users.{Claims}
use data_flow_agent_hub.Handlers.DataSql.{Dataset, Catalog, has_dataset_access}
use data_flow_agent_hub.Handlers.Tables.Rows.{
  DatasetTable, Store, Backend, Replied, refused, tables_listed, table_shown, fields_listed,
  table_created, table_deleted, is_active_in, active_tables, refused_caller,
}
use data_flow_agent_hub.Handlers.Tables.{
  with_access, list_dataset_tables, with_table_access, find_active, show_table, get_dataset_table,
  deactivate_row, deactivate, mark_inactive, delete_found, delete_dataset_table,
}

-- not among the rows of a listing
abbrev pub Unlisted : Text → List (Text × DatasetTable) → Type 0
Unlisted table [] = Unit
Unlisted table ((id, t) ∷ tables) = (same id table ≡ false) × Unlisted table tables

-- no reply of the two readers shows the table
abbrev pub Hidden : Text → Replied → Type 0
Hidden table (tables_listed l) = Unlisted table l
Hidden table (table_shown id t fields) = ⊥
Hidden table other = Unit

deactivate_row-inactive :
    (dataset : Text) (t : DatasetTable) → is_active_in dataset (deactivate_row true t) ≡ false
unfolding deactivate_row is_active_in same
deactivate_row-inactive dataset t = ground arith

active_tables-deactivate :
    (dataset table : Text) (tables : List (Text × DatasetTable))
    → Unlisted table (active_tables dataset (deactivate table tables))
unfolding active_tables deactivate
active_tables-deactivate dataset table [] = tt
active_tables-deactivate dataset table ((id, t) ∷ tables) = elim (Bool-cases (same id table)) [
  | inl e ↦
      rw (e, deactivate_row-inactive dataset t) (active_tables-deactivate dataset table tables)
  | inr e ↦
      if_cases (Unlisted table) (is_active_in dataset (deactivate_row (same id table) t)) _ _
        (λ _. (e, active_tables-deactivate dataset table tables))
        (λ _. active_tables-deactivate dataset table tables)
]

find_active-deactivate :
    (dataset table : Text) (tables : List (Text × DatasetTable))
    → find_active dataset (lookup table (deactivate table tables)) ≡ none
unfolding deactivate lookup
find_active-deactivate dataset table [] = unfold find_active in refl
find_active-deactivate dataset table ((id, t) ∷ tables) = elim (Bool-cases (same id table)) [
  | inl e ↦ rw e (unfold find_active in rw (deactivate_row-inactive dataset t) refl)
  | inr e ↦ rw e (find_active-deactivate dataset table tables)
]

-- what a deletion has done to the rows where its reply says so
abbrev Done : Text → Store → Replied × Store → Type 0
Done table s (table_deleted, s') = s'.tables ≡ deactivate table s.tables
Done table s (refused status message, s') = Unit
Done table s (tables_listed l, s') = Unit
Done table s (table_shown t r l, s') = Unit
Done table s (fields_listed l, s') = Unit
Done table s (table_created id name mysql n, s') = Unit

delete_found-Done :
    (back : Backend) (table : Text) (found : Option DatasetTable) (joined : Option Dataset)
    (s : Store)
    → Done table s (delete_found back table found joined s)
unfolding delete_found mark_inactive
delete_found-Done back table (some t) (some d) s =
    if_cases (Done table s) back.update_fails _ _ (λ _. tt) (λ _. refl)
delete_found-Done back table (some t) none s = tt
delete_found-Done back table none joined s = tt

delete_dataset_table-Done :
    (back : Backend) (claims : Option Claims) (cat : Catalog) (dataset table : Text) (s : Store)
    → Done table s (delete_dataset_table back claims cat dataset table s)
unfolding delete_dataset_table
delete_dataset_table-Done back claims cat dataset table s =
    if_cases (Done table s) (refused_caller claims) _ _ (λ _. tt)
      (λ _.
        if_cases (Done table s) (same dataset [] || same table []) _ _ (λ _. tt)
          (λ _.
            if_cases (Done table s) back.select_fails _ _ (λ _. tt)
              (λ _. delete_found-Done back table _ _ s)))

Done-tables :
    (table : Text) (s : Store) (out : Replied × Store)
    → Done table s out
    → out.0 ≡ table_deleted
    → out.1.tables ≡ deactivate table s.tables
Done-tables table s (table_deleted, s') d e = d
Done-tables table s (refused status message, s') d e = cc
Done-tables table s (tables_listed l, s') d e = cc
Done-tables table s (table_shown t r l, s') d e = cc
Done-tables table s (fields_listed l, s') d e = cc
Done-tables table s (table_created id name mysql n, s') d e = cc

module _ (back : Backend) (claims : Option Claims) (cat : Catalog) (dataset table : Text)
    (s : Store) where
  with_access-Hidden :
      (r : Replied) → Hidden table r → Hidden table (with_access claims cat dataset r)
  unfolding with_access
  with_access-Hidden r h = elim claims as (λ k. Hidden table (with_access k cat dataset r)) [
    | none ↦ tt
    | some c ↦
        if_cases (Hidden table) (same dataset []) _ _ (λ _. tt)
          (λ _.
            if_cases (Hidden table) (not (has_dataset_access cat c.user_id dataset c.role)) _ _
              (λ _. tt) (λ _. h))
  ]

  with_table_access-Hidden :
      (r : Replied) → Hidden table r → Hidden table (with_table_access claims cat dataset table r)
  unfolding with_table_access
  with_table_access-Hidden r h =
      elim claims as (λ k. Hidden table (with_table_access k cat dataset table r)) [
        | none ↦ tt
        | some c ↦
            if_cases (Hidden table) (same dataset [] || same table []) _ _ (λ _. tt)
              (λ _.
                if_cases (Hidden table) (not (has_dataset_access cat c.user_id dataset c.role)) _ _
                  (λ _. tt) (λ _. h))
      ]

  list_dataset_tables-Hidden :
      (rows : List (Text × DatasetTable))
      → s.tables ≡ deactivate table rows
      → Hidden table (list_dataset_tables back claims cat dataset s)
  unfolding list_dataset_tables
  list_dataset_tables-Hidden rows e = with_access-Hidden _ (
      if_cases (Hidden table) back.select_fails _ _ (λ _. tt)
        (λ _. rw e (active_tables-deactivate dataset table rows)))

  get_dataset_table-Hidden :
      (rows : List (Text × DatasetTable))
      → s.tables ≡ deactivate table rows
      → Hidden table (get_dataset_table back claims cat dataset table s)
  unfolding get_dataset_table
  get_dataset_table-Hidden rows e = with_table_access-Hidden _ (
      rw
        (
          ap (λ l. find_active dataset (lookup table l)) e,
          find_active-deactivate dataset table rows,
        )
        (unfold show_table in tt))

-- After DeleteDatasetTable has replied that a table is deleted, neither ListDatasetTables, for any
-- data set, nor GetDatasetTable shows the table, whoever asks and whatever the database answers.
pub delete_dataset_table-Hidden :
    (back : Backend) (claims : Option Claims) (cat : Catalog) (dataset table : Text) (s : Store)
    (back' : Backend) (claims' : Option Claims) (cat' : Catalog) (dataset' : Text)
    → (delete_dataset_table back claims cat dataset table s).0 ≡ table_deleted
    → Hidden table (
        list_dataset_tables back' claims' cat' dataset'
          (delete_dataset_table back claims cat dataset table s).1)
      × Hidden table (
          get_dataset_table back' claims' cat' dataset' table
            (delete_dataset_table back claims cat dataset table s).1)
delete_dataset_table-Hidden back claims cat dataset table s back' claims' cat' dataset' h =
    let e = Done-tables table s _ (delete_dataset_table-Done back claims cat dataset table s) h in
    (
      list_dataset_tables-Hidden back' claims' cat' dataset' table _ s.tables e,
      get_dataset_table-Hidden back' claims' cat' dataset' table _ s.tables e,
    )
