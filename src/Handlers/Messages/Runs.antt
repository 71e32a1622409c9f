-- ===== src/Handlers/Messages/Runs.antt =====
-- The end of a run in internal/handlers/messages.go: `publishSyncResult` and `finishRunFailed`.
use data_flow_agent_hub.Base.{Text, codes, lookup, put, ◌∷◌, Bool, true, false, Option, none, some}
use data_flow_agent_hub.SseBus.{publish}
use data_flow_agent_hub.Async.{
  Run, Content, result_json, failed_content, error_event, sql_generated, result_event, Event, Db,
}
use data_flow_agent_hub.Executor.{Result}

-- the codes of gRPC that the handlers tell apart
pub data GrpcCode : Type 0 where
  unavailable deadline_exceeded invalid_argument not_found internal : GrpcCode
  other : Text → GrpcCode

-- `c.String()`
unfoldable pub code_name : GrpcCode → Text
code_name unavailable = codes "Unavailable"
code_name deadline_exceeded = codes "DeadlineExceeded"
code_name invalid_argument = codes "InvalidArgument"
code_name not_found = codes "NotFound"
code_name internal = codes "Internal"
code_name (other name) = name

-- `mapGRPCCode`
unfoldable pub map_grpc_code : GrpcCode → Text
map_grpc_code unavailable = codes "worker unavailable"
map_grpc_code deadline_exceeded = codes "deadline exceeded"
map_grpc_code code = codes "worker error"

-- what the database answers to the statements that end a run
pub record Ending : Type 0 where
  pub insert_fails : Bool
  pub update_fails : Bool

-- `a.Bus.Publish`
unfoldable pub tell : Text → Event → Db → Db
tell sid ev db = record db { bus = publish sid ev db.bus }

-- `INSERT INTO messages`, whose error is only logged
unfoldable pub add_message : Bool → Text → Content → Db → Db
add_message true sid content db = db
add_message false sid content db = record db { messages = (sid, content) ∷ db.messages }

-- `UPDATE runs SET status = ... WHERE id = ?`, whose error is only logged
unfoldable pub set_run : (Run → Run) → Option Run → Text → Db → Db
set_run f none rid db = db
set_run f (some r) rid db = record db { runs = put rid (f r) db.runs }

unfoldable pub update_run : Bool → (Run → Run) → Text → Db → Db
update_run true f rid db = db
update_run false f rid db = set_run f (lookup rid db.runs) rid db

unfoldable pub fail_run : Text → Run → Run
fail_run message r = record r { status = codes "failed"; pending_reason = some message }

unfoldable pub complete_run : Run → Run
complete_run r = record r { status = codes "completed" }

-- `finishRunFailed`
unfoldable pub finish_run_failed : Ending → Text → Text → Text → GrpcCode → Db → Db
finish_run_failed end rid sid message code db = tell sid (error_event message) (
    update_run end.update_fails (fail_run message) rid
      (add_message end.insert_fails sid (failed_content message (code_name code)) db))

-- behind `json.Marshal` of the result, which is a parameter
unfoldable pub publish_marshalled : Ending → Option Text → Text → Text → Db → Bool × Db
publish_marshalled end none rid sid db = (false, db)
publish_marshalled end (some assist) rid sid db = (
  true,
  tell sid (result_event (result_json assist)) (
      update_run end.update_fails complete_run rid
        (add_message end.insert_fails sid (result_json assist) db)),
)

module _ {V : Type 0} where
  -- `publishSyncResult`; the first result says that there was no error
  unfoldable pub publish_sync_result :
      (Result V → Option Text) → Ending → Text → Text → Result V → Db → Bool × Db
  publish_sync_result marshal end rid sid result db =
      publish_marshalled end (marshal result) rid sid
        (tell sid (sql_generated result.sql result.is_write) db)
