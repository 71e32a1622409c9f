-- ===== src/GrpcServer/Tasks/Late.antt =====
-- internal/grpcserver/server.go: what a callback does to the task that it names and to its run.
use data_flow_agent_hub.Base.{Text, codes, same, lookup, [], some, if◌then◌else◌, ◌≡◌, ◌≢◌, ◌⊎◌}
use data_flow_agent_hub.Async.{Task, Run, Db}
use data_flow_agent_hub.GrpcServer.Tasks.{TaskCallback}
use data_flow_agent_hub.GrpcServer.Tasks.Closed.{HasTask}

-- the row of a task after a callback, by the status before
abbrev pub IsTold : Text → TaskCallback → Task → Db → Type 0
IsTold status req t db =
    ((t.status ≡ codes "queued") ⊎ (t.status ≡ codes "running")
      → HasTask req.task_id
          (record t {
            status = status;
            result = if same req.result_json [] then codes "null" else req.result_json;
            error_message = req.error_message;
          })
          db)
    × (t.status ≢ codes "queued" → t.status ≢ codes "running" → HasTask req.task_id t db)

abbrev pub HasRun : Text → Run → Db → Type 0
HasRun id r db = lookup id db.runs ≡ some r
