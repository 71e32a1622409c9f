-- ===== src/Handlers/Messages/Paths.antt =====
-- The three paths of a message in internal/handlers/messages.go: to a data set, to the knowledge base,
-- and to the database of the hub.
use data_flow_agent_hub.Base.{
  Text, codes, List, [], ◌∷◌, ◌++◌, true, false, Option, none, some, if◌then◌else◌,
}
use data_flow_agent_hub.Sqlrun.Run.{Answer, ok, err, Call, Pool, Failure, client}
use data_flow_agent_hub.Async.{Db}
use data_flow_agent_hub.Executor.{Input, Result, Executed, result, failed, execute}
use data_flow_agent_hub.Schema.{SchemaResult}
use data_flow_agent_hub.Handlers.Messages.Runs.{not_found, internal, map_grpc_code}
use data_flow_agent_hub.Handlers.Messages.Dataset.{resolve_dataset_schema}
use data_flow_agent_hub.Handlers.Messages.Replies.{
  Caller, Message, RagReply, rag_answer, rag_error, DataSource, Backend, Posted, refused,
  use_agent_pipeline, failure_code, failure_text, fail_with, reply_result, enqueue_run,
}

-- the answer of `RAGSearch`
unfoldable pub rag_text : Option RagReply → Text
rag_text none = []
rag_text (some (rag_answer true text)) = text
rag_text (some (rag_answer false text)) = []
rag_text (some (rag_error e)) = []

-- `resolveSchema`: the source is opened, if there is one, and discovered by way of the cache
unfoldable pub schema_text : (SchemaResult → Answer Text) → Answer SchemaResult → Answer Text
schema_text to_json (err e) = err (codes "schema discovery failed: " ++ e)
schema_text to_json (ok sr) = elim (to_json sr) [ ok t ↦ ok t | err e ↦ err (codes "schema error") ]

unfoldable pub opened : Option Text → Answer Text → Answer Text
opened (some e) rest = err (codes "schema discovery: cannot connect to data source: " ++ e)
opened none rest = rest

unfoldable pub selected : Option Text → Answer Text → Answer Text
selected (some e) rest = err (codes "data source not found: " ++ e)
selected none rest = rest

unfoldable pub source_schema :
    (SchemaResult → Answer Text) → (Text → Answer SchemaResult) → Option DataSource → Answer Text
source_schema to_json cached_schema none = schema_text to_json (cached_schema (codes "hub"))
source_schema to_json cached_schema (some ds) = selected ds.select_error (
    if ds.decrypt_fails
    then err (codes "failed to decrypt datasource password")
    else opened ds.open_error (schema_text to_json (cached_schema ds.id)))

unfoldable pub dialect_of : Option DataSource → Text
dialect_of none = codes "postgres"
dialect_of (some ds) = ds.kind

module _ {V : Type 0} where
  unfoldable pub resolve_schema : Backend V → Answer Text
  resolve_schema back = source_schema back.to_json back.cached_schema back.data_source

  unfoldable pub input_of : Backend V → Caller → Text → Message → Text → Text → Input
  input_of back c sid body schema_json dialect = record {
    trace_id = back.trace;
    session_id = sid;
    user_message = body.text;
    schema_json = schema_json;
    dialect = dialect;
    role = c.role;
  }

  unfoldable pub run_executor : Backend V → Pool V → Input → Executed V × List Call
  run_executor back pool input =
      execute back.generate_sql back.order pool back.query_max_rows input []

  -- the errors of `Execute` on the pool of a data set
  unfoldable pub dataset_failed : Backend V → Text → Failure → Db → Posted V × Db
  dataset_failed back sid e db =
      let text = failure_text back.error_text e in
      fail_with back sid text (failure_code e) 400 text db

  unfoldable pub dataset_executed : Backend V → Text → Executed V → Db → Posted V × Db
  dataset_executed back sid (result r) db = reply_result back sid r db
  dataset_executed back sid (failed sql e) db = dataset_failed back sid e db

  unfoldable pub run_dataset :
      Backend V → Caller → Text → Message → Text → Pool V → Db → Posted V × Db
  run_dataset back c sid body schema_json pool db =
      if use_agent_pipeline body
      then enqueue_run back (codes "workspace") sid db
      else dataset_executed back sid
          (run_executor back pool (input_of back c sid body schema_json (codes "mysql"))).0 db

  unfoldable pub dataset_pool :
      Backend V → Caller → Text → Message → Text → Answer (Pool V) → Db → Posted V × Db
  dataset_pool back c sid body schema_json (err e) db =
      fail_with back sid (codes "database connection error") internal 500
        (codes "database connection error") db
  dataset_pool back c sid body schema_json (ok pool) db =
      run_dataset back c sid body schema_json pool db

  unfoldable pub dataset_schema :
      Backend V → Caller → Text → Message → Answer Text → Db → Posted V × Db
  dataset_schema back c sid body (err e) db =
      fail_with back sid (codes "schema error: " ++ e) internal 502 e db
  dataset_schema back c sid body (ok schema_json) db =
      if back.database_fails
      then fail_with back sid (codes "dataset not found") not_found 404 (codes "dataset not found")
          db
      else dataset_pool back c sid body schema_json back.dataset_pool db

  -- `postMessageToDataset`
  unfoldable pub post_message_to_dataset : Backend V → Caller → Text → Message → Db → Posted V × Db
  post_message_to_dataset back c sid body db =
      dataset_schema back c sid body (resolve_dataset_schema back.to_json back.field_rows) db

  unfoldable pub answer_result : Backend V → Text → Result V
  answer_result back answer = record {
    sql = [];
    rows = ((codes "answer", back.answer_value answer) ∷ []) ∷ [];
    rows_affected = 0;
    is_write = false;
    self_check_notes = [];
  }

  unfoldable pub ask_model : Backend V → Text → Answer Text → Db → Posted V × Db
  ask_model back sid (ok text) db = reply_result back sid (answer_result back text) db
  ask_model back sid (err e) db =
      fail_with back sid (codes "knowledge query failed: " ++ e) internal 502
        (codes "知识库查询失败: " ++ e) db

  unfoldable pub answer_or_ask : Backend V → Text → Text → Db → Posted V × Db
  answer_or_ask back sid [] db = ask_model back sid back.complete db
  answer_or_ask back sid (x ∷ text) db = reply_result back sid (answer_result back (x ∷ text)) db

  -- `postMessageToKnowledge`
  unfoldable pub post_message_to_knowledge : Backend V → Text → Db → Posted V × Db
  post_message_to_knowledge back sid db = answer_or_ask back sid (rag_text back.rag) db

  -- the errors of `Execute` in `PostMessage`
  unfoldable pub hub_failed : Backend V → Text → Failure → Db → Posted V × Db
  hub_failed back sid (client true e) db =
      fail_with back sid (codes "nl2sql: " ++ e) back.grpc_code 502 (map_grpc_code back.grpc_code)
        db
  hub_failed back sid e db = dataset_failed back sid e db

  unfoldable pub hub_executed : Backend V → Text → Executed V → Db → Posted V × Db
  hub_executed back sid (result r) db = reply_result back sid r db
  hub_executed back sid (failed sql e) db = hub_failed back sid e db

  -- the path without a data set and without a model, on the pool of the hub itself
  unfoldable pub hub_schema : Backend V → Caller → Text → Message → Answer Text → Db → Posted V × Db
  hub_schema back c sid body (err e) db = (refused 502 e, db)
  hub_schema back c sid body (ok schema_json) db =
      if use_agent_pipeline body
      then enqueue_run back c.workspace_id sid db
      else hub_executed back sid
          (run_executor back back.hub_pool
            (input_of back c sid body schema_json (dialect_of back.data_source))).0
          db

  unfoldable pub post_message_to_hub : Backend V → Caller → Text → Message → Db → Posted V × Db
  post_message_to_hub back c sid body db = hub_schema back c sid body (resolve_schema back) db
