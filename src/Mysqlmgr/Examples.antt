-- ===== src/Mysqlmgr/Examples.antt =====
-- The pools of two data sets, and the fields of a table.
use data_flow_agent_hub.Base.{codes, pos, List, [], ◌∷◌, true, false, none, ◌≡◌, ◌↔◌, All}
use data_flow_agent_hub.Mysqlmgr.{new_manager, Operation, connects, closes, closes_all, run_all}
use data_flow_agent_hub.Mysqlmgr.Ddl.{FieldDef, validate_fields}
use data_flow_agent_hub.Mysqlmgr.Pools.{IsSound, run_all-IsSound}
use data_flow_agent_hub.Mysqlmgr.Fields.{IsField, DistinctNames, validate_fields_iff}

abbrev operations : List Operation
operations =
    connects false false (codes "a") (codes "ds_a")
    ∷ connects false true (codes "b") (codes "ds_b")
    ∷ connects false false (codes "b") (codes "ds_b")
    ∷ closes (codes "a")
    ∷ closes_all
    ∷ connects false false (codes "a") (codes "ds_a")
    ∷ []

run_all-IsSound_example : IsSound (run_all operations new_manager)
run_all-IsSound_example = run_all-IsSound operations

abbrev fields : List FieldDef
fields =
    record {
      name = codes "name";
      field_type = codes "varchar";
      field_len = pos 40;
      is_nullable = true;
    }
    ∷ record {
      name = codes "age";
      field_type = codes "INT";
      field_len = pos 0;
      is_nullable = false;
    }
    ∷ []

validate_fields_iff_example :
    (validate_fields fields ≡ none) ↔ (All IsField fields × DistinctNames fields)
validate_fields_iff_example = validate_fields_iff fields
