-- ===== src/Sqlrun/Classify/Examples.antt =====
-- Runs of the classifier.
use data_flow_agent_hub.Base.{codes, ◌≡◌, refl}
use data_flow_agent_hub.Sqlrun.Classify.{classify_sql, select, create_db}

nested_query : classify_sql (codes " (( select 1))") ≡ select
unfolding classify_sql
nested_query = refl

new_database : classify_sql (codes "create database x") ≡ create_db
unfolding classify_sql
new_database = refl
