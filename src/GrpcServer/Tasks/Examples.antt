-- ===== src/GrpcServer/Tasks/Examples.antt =====
-- Callbacks about a task that has timed out.
use data_flow_agent_hub.Base.{codes, same, lookup, List, [], ◌∷◌, none, false, some, ◌≡◌, refl}
use data_flow_agent_hub.SseBus.{new_memory_bus}
use data_flow_agent_hub.Async.{Task, Run, Db, Step, is_open, timeout}
use data_flow_agent_hub.GrpcServer.Tasks.{Backend, TaskCallback, task_callback, next_index, above}
use data_flow_agent_hub.GrpcServer.Tasks.Closed.{
  HasTask, unchanged, one_more, calls_back, TaskSteps-closed,
}

abbrev back : Backend
back = record {
  exec_fails = false;
  select_fails = false;
  run_update_fails = false;
  session_select_fails = false;
  marshal_fails = false;
  insert_fails = false;
  unmarshal = λ text. some text;
}

abbrev request : TaskCallback
request = record {
  task_id = codes "t";
  status = codes "Succeeded";
  result_json = [];
  error_message = [];
}

abbrev timed_out : Task
timed_out = record {
  workspace_id = codes "w";
  session_id = some (codes "s");
  run_id = some (codes "r");
  task_type = codes "agent_pipeline";
  status = timeout;
  result = [];
  error_message = codes "task timed out";
  expires_at = 7;
}

abbrev run : Run
run = record { session_id = codes "s"; status = codes "failed"; pending_reason = none }

abbrev db : Db
db = record {
  tasks = (codes "t", timed_out) ∷ [];
  runs = (codes "r", run) ∷ [];
  messages = [];
  steps = [];
  bus = new_memory_bus;
}

closed : is_open timeout ≡ false
unfolding is_open same
closed = refl

has_task : HasTask (codes "t") timed_out db
unfolding lookup same
has_task = refl

TaskSteps-closed_example : HasTask (codes "t") timed_out (task_callback back request db).1
TaskSteps-closed_example =
    TaskSteps-closed (codes "t") timed_out db (task_callback back request db).1 closed has_task
      (one_more unchanged (calls_back back request))

abbrev steps : List Step
steps =
    record { run_id = codes "r"; step_index = 3; agent_name = []; status = [] }
    ∷ record { run_id = codes "q"; step_index = 9; agent_name = []; status = [] }
    ∷ []

next_is_4 : next_index (codes "r") steps ≡ 4
unfolding next_index above same
next_is_4 = refl
