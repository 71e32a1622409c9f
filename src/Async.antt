-- ===== src/Async.antt =====
-- internal/async/task.go: the table of asynchronous tasks, the watcher of a task's timeout and the
-- reaper of expired tasks. Time is a number; what the database and the driver answer is a parameter.
use data_flow_agent_hub.Base.{
  ℕ, Text, codes, same, lookup, put, ltb, List, [], ◌∷◌, Bool, false, not, ◌&&◌, ◌||◌, Option, none,
  some, if◌then◌else◌,
}
use data_flow_agent_hub.Sqlrun.Run.{Answer, ok, err}
use data_flow_agent_hub.SseBus.{Bus, publish}

pub record Task : Type 0 where
  pub workspace_id : Text
  pub session_id : Option Text
  pub run_id : Option Text
  pub task_type : Text
  pub status : Text
  pub result : Text
  pub error_message : Text
  pub expires_at : ℕ

pub record Run : Type 0 where
  pub session_id : Text
  pub status : Text
  pub pending_reason : Option Text

-- The content of a message: what a user writes, the JSON of a result, an error with its code, and what
-- the callbacks say of a run; a report that does not parse is `none`.
pub data Content : Type 0 where
  user_text result_json : Text → Content
  failed_content : Text → Text → Content
  final_report : Option Text → Text → Content
  error_content : Text → Text → Content

pub data Event : Type 0 where
  user_message run_started error_event : Text → Event
  sql_generated : Text → Bool → Event
  result_event : Content → Event
  agent_step : Text → Text → Text → Option Text → Event
  task_timeout : Text → Text → Event

pub record Step : Type 0 where
  pub run_id : Text
  pub step_index : ℕ
  pub agent_name : Text
  pub status : Text

pub record Db : Type 0 where
  pub tasks : List (Text × Task)
  pub runs : List (Text × Run)
  pub messages : List (Text × Content)
  pub steps : List Step
  pub bus : Bus Event

-- `status IN ('queued', 'running')`
unfoldable pub is_open : Text → Bool
is_open status = same status (codes "queued") || same status (codes "running")

-- the change of the row of a key under the guard of the statement
unfoldable pub settle_row :
    Text → Text → Text → Text → Option Task → List (Text × Task) → List (Text × Task)
settle_row id status result message none tasks = tasks
settle_row id status result message (some t) tasks =
    if is_open t.status
    then put id (record t { status = status; result = result; error_message = message }) tasks
    else tasks

-- `UPDATE async_tasks SET status = ?, result = ?, error_message = ? WHERE id = ? AND status IN (...)`
unfoldable pub settle : Text → Text → Text → Text → Db → Db
settle id status result message db = record db {
  tasks = settle_row id status result message (lookup id db.tasks) db.tasks;
}

abbrev pub timeout : Text
timeout = codes "timeout"

-- the change of a row by the watcher, which leaves the result
unfoldable pub time_out_row : Text → Text → Option Task → List (Text × Task) → List (Text × Task)
time_out_row id message none tasks = tasks
time_out_row id message (some t) tasks =
    if is_open t.status
    then put id (record t { status = timeout; error_message = message }) tasks
    else tasks

unfoldable pub set_timed_out : Text → Text → Db → Db
set_timed_out id message db = record db {
  tasks = time_out_row id message (lookup id db.tasks) db.tasks;
}

-- the notice to the session, if there is a bus and a session
unfoldable pub notify_timeout : Bool → Text → Text → Text → Db → Db
notify_timeout has_bus session id message db =
    if has_bus && not (same session [])
    then record db { bus = publish session (task_timeout id message) db.bus }
    else db

-- What the watcher does with the status that it reads when its timer fires. Between that read and
-- the `UPDATE` other statements may run: `db` is the state at the read, `db'` that at the `UPDATE`.
unfoldable pub on_status : Bool → Bool → Text → Text → Text → Option Task → Db → Db
on_status exec_fails has_bus session id message none db' = db'
on_status exec_fails has_bus session id message (some t) db' =
    if not (is_open t.status) || exec_fails
    then db'
    else notify_timeout has_bus session id message (set_timed_out id message db')

-- the function that `startTimeoutWatcher` runs at the timeout
unfoldable pub fire_watcher : Bool → Bool → Bool → Text → Text → Text → Db → Db → Db
fire_watcher select_fails exec_fails has_bus session id message db db' =
    if select_fails
    then db'
    else on_status exec_fails has_bus session id message (lookup id db.tasks) db'

-- one round of `StartReaper` at the time `now`
unfoldable pub reap_row : ℕ → Task → Task
reap_row now t =
    if is_open t.status && ltb t.expires_at now then record t { status = codes "expired" } else t

unfoldable pub reap_rows : ℕ → List (Text × Task) → List (Text × Task)
reap_rows now [] = []
reap_rows now ((id, t) ∷ tasks) = (id, reap_row now t) ∷ reap_rows now tasks

unfoldable pub reap : Bool → ℕ → Db → Db
reap exec_fails now db = if exec_fails then db else record db { tasks = reap_rows now db.tasks }

-- `NULLIF(?, '')`
unfoldable pub null_if_empty : Text → Option Text
null_if_empty [] = none
null_if_empty (c ∷ s) = some (c ∷ s)

unfoldable pub queued_task : Text → Text → Text → Text → ℕ → Task
queued_task workspace session run task_type expires_at = record {
  workspace_id = workspace;
  session_id = null_if_empty session;
  run_id = null_if_empty run;
  task_type = task_type;
  status = codes "queued";
  result = [];
  error_message = [];
  expires_at = expires_at;
}

-- `EnqueueTask`, by what `QueryRow(...).Scan` answers to its `INSERT`: the identifier of the new row,
-- or an error. Publishing to NATS changes none of this. The second result says that a watcher starts.
pub record Enqueue : Type 0 where
  pub workspace_id : Text
  pub session_id : Text
  pub run_id : Text
  pub task_type : Text
  pub expires_at : ℕ
  pub marshalled : Bool

unfoldable pub enqueue_answer : Bool → Enqueue → Answer Text → Db → (Answer Text × Bool) × Db
enqueue_answer watched e (err x) db = ((err x, false), db)
enqueue_answer watched e (ok id) db = (
  (ok id, watched),
  record db {
    tasks =
        put id (queued_task e.workspace_id e.session_id e.run_id e.task_type e.expires_at) db.tasks;
  },
)

unfoldable pub enqueue_task : Bool → Enqueue → Answer Text → Db → (Answer Text × Bool) × Db
enqueue_task watched e answer db =
    if e.marshalled
    then enqueue_answer watched e answer db
    else ((err (codes "marshal task payload"), false), db)
