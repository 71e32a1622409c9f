-- ===== src/Handlers/Messages/Replies.antt =====
-- internal/handlers/messages.go: what the libraries answer during one request (the database, Redis, the
-- worker, `mysqlmgr`, the model, `encoding/json`), which is a parameter, the `Backend`; and the ends that
-- the paths of a message share. Times and logging are left out.
use data_flow_agent_hub.Base.{
  ℕ, Text, codes, same, trim_space, to_lower, contains, List, [], ◌++◌, Bool, true, false, ◌&&◌,
  ◌||◌, Option, if◌then◌else◌,
}
use data_flow_agent_hub.Sqlrun.Run.{Answer, ok, err, Pool, Failure, generate}
use data_flow_agent_hub.Async.{Db, enqueue_task}
use data_flow_agent_hub.Executor.{Input, Reply, Result}
use data_flow_agent_hub.Schema.{SchemaResult}
use data_flow_agent_hub.Handlers.Messages.Runs.{
  GrpcCode, invalid_argument, internal, Ending, finish_run_failed, publish_sync_result,
}
use data_flow_agent_hub.Handlers.Messages.Dataset.{FieldRows}

-- what the handler reads of the claims
pub record Caller : Type 0 where
  pub user_id : Text
  pub workspace_id : Text
  pub role : Text

-- the body
pub record Message : Type 0 where
  pub text : Text
  pub workflow : Text

-- the worker's `RAGSearch`
pub data RagReply : Type 0 where
  rag_answer : Bool → Text → RagReply
  rag_error : Text → RagReply

-- the row of the data source of a session, with what `Decrypt` makes of its password and what `sql.Open` says
pub record DataSource : Type 0 where
  pub id : Text
  pub kind : Text
  pub select_error : Option Text
  pub decrypt_fails : Bool
  pub open_error : Option Text

pub record Backend (V : Type 0) : Type 0 where
  pub is_limited : Bool
  pub session_fails : Bool
  pub dataset_fails : Bool
  pub message_fails : Bool
  pub run_fails : Bool
  pub new_run : Text
  pub ending : Ending
  pub to_json : SchemaResult → Answer Text
  pub field_rows : Answer FieldRows
  pub database_fails : Bool
  pub dataset_pool : Answer (Pool V)
  pub has_llm : Bool
  pub rag : Option RagReply
  pub complete : Answer Text
  pub data_source : Option DataSource
  pub cached_schema : Text → Answer SchemaResult
  pub hub_pool : Pool V
  pub expires_at : ℕ
  pub watched : Bool
  pub task_row : Answer Text
  pub generate_sql : Input → Reply
  pub order : List Text
  pub query_max_rows : ℕ
  pub trace : Text
  pub grpc_code : GrpcCode
  pub error_text : Failure → Text
  pub answer_value : Text → V
  pub marshal : Result V → Option Text

-- the replies of the handler
pub data Posted (V : Type 0) : Type 0 where
  refused : ℕ → Text → Posted V
  accepted : Text → Text → Posted V
  completed : Text → Result V → Posted V

-- `workflow`, and the choice of the pipeline of agents
unfoldable pub workflow_of : Text → Text
workflow_of workflow =
    let w = to_lower (trim_space workflow) in if same w [] then codes "auto" else w

unfoldable pub is_complex : Text → Bool
is_complex text =
    let low = to_lower text in
    contains low (codes "分析")
    || contains low (codes "报告")
    || contains low (codes "analyze")
    || contains low (codes "report")

unfoldable pub use_agent_pipeline : Message → Bool
use_agent_pipeline body =
    let workflow = workflow_of body.workflow in
    same workflow (codes "agent_pipeline") || (same workflow (codes "auto") && is_complex body.text)

-- the code and the text of an error of `Execute`; the wording of most is a parameter
unfoldable pub failure_code : Failure → GrpcCode
failure_code (generate e) = internal
failure_code e = invalid_argument

unfoldable pub failure_text : (Failure → Text) → Failure → Text
failure_text error_text (generate e) = e
failure_text error_text e = error_text e

module _ {V : Type 0} where
  -- `finishRunFailed` and `errJSON`
  unfoldable pub fail_with : Backend V → Text → Text → GrpcCode → ℕ → Text → Db → Posted V × Db
  fail_with back sid message code status error db =
      (refused status error, finish_run_failed back.ending back.new_run sid message code db)

  -- the end of each path with a result
  unfoldable pub after_publish : Backend V → Text → Result V → Bool × Db → Posted V × Db
  after_publish back sid r (true, db) = (completed back.new_run r, db)
  after_publish back sid r (false, db) =
      fail_with back sid (codes "marshal error") internal 500 (codes "internal error") db

  unfoldable pub reply_result : Backend V → Text → Result V → Db → Posted V × Db
  reply_result back sid r db =
      after_publish back sid r (publish_sync_result back.marshal back.ending back.new_run sid r db)

  -- `EnqueueTask` for the workspace that the path gives, and its reply
  unfoldable pub after_enqueue : Backend V → Text → (Answer Text × Bool) × Db → Posted V × Db
  after_enqueue back sid ((ok id, watcher), db) = (accepted back.new_run id, db)
  after_enqueue back sid ((err e, watcher), db) =
      fail_with back sid (codes "failed to enqueue task: " ++ e) internal 500
        (codes "enqueue error") db

  unfoldable pub enqueue_run : Backend V → Text → Text → Db → Posted V × Db
  enqueue_run back workspace sid db = after_enqueue back sid (
      enqueue_task back.watched
        (record {
          workspace_id = workspace;
          session_id = sid;
          run_id = back.new_run;
          task_type = codes "agent_pipeline";
          expires_at = back.expires_at;
          marshalled = true;
        })
        back.task_row db)
