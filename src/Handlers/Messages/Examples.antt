-- ===== src/Handlers/Messages/Examples.antt =====
-- Messages to a session.
use data_flow_agent_hub.Base.{
  Text, codes, same, trim_space, trim_left, trim_right, keep, is_space, lookup, List, [], ◌∷◌, true,
  false, none, some, ◌≡◌, refl, arith,
}
use data_flow_agent_hub.Sqlrun.Run.{ok, err, Pool}
use data_flow_agent_hub.SseBus.{new_memory_bus}
use data_flow_agent_hub.Async.{Db}
use data_flow_agent_hub.Executor.{response}
use data_flow_agent_hub.Schema.{ColumnSchema, TableSchema}
use data_flow_agent_hub.Handlers.Messages.Runs.{unavailable}
use data_flow_agent_hub.Handlers.Messages.Dataset.{
  FieldRows, dataset_tables, group_rows, next_table, closed_by, last_table, prepend, end_groups,
  extend, one_column,
}
use data_flow_agent_hub.Handlers.Messages.Replies.{Caller, Message, Backend}
use data_flow_agent_hub.Handlers.Messages.Paths.{resolve_schema, source_schema, schema_text}
use data_flow_agent_hub.Handlers.Messages.Tables.{flatten, Separate, dataset_tables-flatten}
use data_flow_agent_hub.Handlers.Messages.Settled.{Ended}
use data_flow_agent_hub.Handlers.Messages.Ends.{
  LeftRunning, post_message_ends, post_message_leaves_running,
}
use data_flow_agent_hub.Handlers.Messages.Isolation.{IsForeign, post_message_isolated}
use data_flow_agent_hub.Handlers.Messages.{
  Session, has_workspace, session_belongs_to_workspace, dataset_of, session_dataset, post_message,
}

abbrev column : Text → ColumnSchema
column name = record { name = name; column_type = codes "INT"; is_nullable = false }

abbrev rows : FieldRows
rows = record {
  scanned =
      ok (record { table = codes "a"; column = column (codes "x") })
      ∷ ok (record { table = codes "a"; column = column (codes "y") })
      ∷ ok (record { table = codes "b"; column = column (codes "x") })
      ∷ [];
  end_error = none;
}

abbrev tables : List TableSchema
tables =
    record { name = codes "a"; columns = column (codes "x") ∷ column (codes "y") ∷ [] }
    ∷ record { name = codes "b"; columns = column (codes "x") ∷ [] }
    ∷ []

grouped : dataset_tables (ok rows) ≡ ok tables
unfolding dataset_tables group_rows next_table closed_by last_table prepend end_groups extend
    one_column same
grouped = refl

dataset_tables-flatten_example : (flatten tables ≡ rows.scanned) × Separate tables
dataset_tables-flatten_example = dataset_tables-flatten rows tables grouped

abbrev pool : Pool Text
pool = record { on_query = λ log sql. err (codes "gone"); on_exec = λ log sql. err (codes "gone") }

abbrev back : Backend Text
back = record {
  is_limited = false;
  session_fails = false;
  dataset_fails = false;
  message_fails = false;
  run_fails = false;
  new_run = codes "r";
  ending = record { insert_fails = false; update_fails = false };
  to_json = λ tables. ok (codes "{}");
  field_rows = ok rows;
  database_fails = false;
  dataset_pool = ok pool;
  has_llm = false;
  rag = none;
  complete = ok (codes "yes");
  data_source = none;
  cached_schema = λ source. ok [];
  hub_pool = pool;
  expires_at = 9;
  watched = true;
  task_row = ok (codes "t");
  generate_sql = λ input.
      response (record {
        is_ok = true;
        sql = codes "SELECT 1";
        error_message = [];
        self_check_notes = [];
      });
  order = [];
  query_max_rows = 500;
  trace = codes "x";
  grpc_code = unavailable;
  error_text = λ e. codes "error";
  answer_value = λ text. text;
  marshal = λ r. some (codes "{}");
}

-- a hub whose schema cannot be discovered
abbrev broken : Backend Text
broken = record back { cached_schema = λ source. err (codes "timeout") }

abbrev sessions : List (Text × Session)
sessions =
    (
      codes "s",
      record {
        workspace_id = codes "w";
        user_id = codes "u";
        title = codes "orders";
        data_source_id = none;
        dataset_id = none;
      },
    )
    ∷ []

abbrev caller : Caller
caller = record { user_id = codes "u"; workspace_id = codes "w"; role = codes "normal_user" }

abbrev stranger : Caller
stranger = record { user_id = codes "u"; workspace_id = codes "v"; role = codes "normal_user" }

abbrev body : Message
body = record { text = codes "how many orders"; workflow = [] }

abbrev db : Db
db = record { tasks = []; runs = []; messages = []; steps = []; bus = new_memory_bus }

not_blank : same (trim_space body.text) [] ≡ false
unfolding same trim_space trim_left trim_right keep is_space
not_blank = refl

own : session_belongs_to_workspace false sessions (codes "s") (codes "w") ≡ true
unfolding session_belongs_to_workspace has_workspace lookup same
own = refl

foreign : IsForeign (codes "v") (lookup (codes "s") sessions)
unfolding lookup same
foreign e = ground (arith, e)

resolved : resolve_schema back ≡ ok (codes "{}")
unfolding resolve_schema source_schema schema_text
resolved = refl

unresolved : resolve_schema broken ≡ err (codes "schema discovery failed: timeout")
unfolding resolve_schema source_schema schema_text
unresolved = refl

no_dataset : session_dataset false (lookup (codes "s") sessions) ≡ none
unfolding session_dataset dataset_of lookup same
no_dataset = refl

post_message_ends_example :
    Ended (codes "r") (post_message back sessions caller (codes "s") (some body) db)
post_message_ends_example =
    post_message_ends back sessions caller (codes "s") body db refl not_blank own refl refl
      (λ d l. (codes "{}", resolved))

post_message_leaves_running_example :
    LeftRunning
      (codes "r")
      (codes "schema discovery failed: timeout")
      db
      (post_message broken sessions caller (codes "s") (some body) db)
post_message_leaves_running_example =
    post_message_leaves_running broken sessions caller (codes "s") body db
      (codes "schema discovery failed: timeout") refl not_blank own refl no_dataset refl unresolved

post_message_isolated_example :
    ((post_message back sessions stranger (codes "s") (some body) db).1 ≡ db)
    × (post_message back sessions stranger (codes "s") (some body) db
        ≡ post_message back [] stranger (codes "s") (some body) db)
post_message_isolated_example =
    post_message_isolated back sessions stranger (codes "s") (some body) db foreign
