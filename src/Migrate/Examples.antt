-- ===== src/Migrate/Examples.antt =====
-- Two runs of the migrations.
use data_flow_agent_hub.Base.{Text, codes, same, trim_space, List, [], ◌∷◌, none, ◌≡◌, refl}
use data_flow_agent_hub.Migrate.{
  Schema, Backend, record_version, execute_file, apply_file, apply_files, apply_read, up,
}
use data_flow_agent_hub.Migrate.Again.{up-again}

abbrev back : Backend
back = record {
  create_fails = none;
  query_fails = none;
  read = λ vs. (vs, none);
  exec_fails = λ name. none;
  record_fails = λ name. none;
}

abbrev files : List (Text × Text)
files = (codes "001.sql", codes " CREATE TABLE t (id INT) ") ∷ (codes "002.sql", codes " ") ∷ []

abbrev empty : Schema
empty = record { versions = []; executed = [] }

first_run : (up back files empty).0 ≡ none
unfolding up apply_read apply_files apply_file execute_file record_version same trim_space
first_run = refl

one_applied : (up back files empty).1.versions ≡ codes "001.sql" ∷ []
unfolding up apply_read apply_files apply_file execute_file record_version same trim_space
one_applied = refl

up-again_example : up back files (up back files empty).1 ≡ (none, (up back files empty).1)
up-again_example = up-again back back files empty (λ vs n i. i) first_run refl refl refl
