-- ===== src/GrpcServer/Tasks/Closed.antt =====
-- internal/async/task.go and internal/grpcserver/server.go: the life of a task.
use data_flow_agent_hub.Base.{
  ℕ, Text, codes, same, same_iff, to_lower, lookup, lookup-put, put, List, [], ◌∷◌, Bool, true,
  false, not, ◌&&◌, ◌||◌, Option, none, some, if◌then◌else◌, ◌≡◌, ◌∙◌, ap, refl, inl, inr, arith,
  Bool-cases, if_cases,
}
use data_flow_agent_hub.Sqlrun.Run.{Answer, ok, err}
use data_flow_agent_hub.Async.{
  Task, Run, Content, Db, Enqueue, is_open, settle, settle_row, time_out_row, set_timed_out,
  notify_timeout, on_status, fire_watcher, reap, reap_row, reap_rows, queued_task, enqueue_task,
  enqueue_answer,
}
use data_flow_agent_hub.GrpcServer.Tasks.{
  Status, fine, invalid_argument, internal, Backend, TaskCallback, RunStepCallback, task_callback,
  callback_status, callback_update, settled, update_run, tell_session, set_run, run_status,
  result_or_null, run_step_callback, tell_step,
}

-- One statement of the system on the tables. A watcher may have read the status in any earlier state,
-- and a database gives a new task an identifier that no task has.
pub data TaskStep (db : Db) : Db → Type 0 where
  enqueues :
      (watched : Bool) (e : Enqueue) (answer : Answer Text)
      → ((id : Text) → answer ≡ ok id → lookup id db.tasks ≡ none)
      → TaskStep db (enqueue_task watched e answer db).1
  calls_back : (back : Backend) (req : TaskCallback) → TaskStep db (task_callback back req db).1
  traces : (back : Backend) (req : RunStepCallback) → TaskStep db (run_step_callback back req db).1
  fires :
      (select_fails exec_fails has_bus : Bool) (session id message : Text) (earlier : Db)
      → TaskStep db (fire_watcher select_fails exec_fails has_bus session id message earlier db)
  reaps : (exec_fails : Bool) (now : ℕ) → TaskStep db (reap exec_fails now db)

-- any number of statements, in any order
pub data TaskSteps (db : Db) : Db → Type 0 where
  unchanged : TaskSteps db db
  one_more : {mid db' : Db} → TaskSteps db mid → TaskStep mid db' → TaskSteps db db'

-- the row of a task
abbrev pub HasTask : Text → Task → Db → Type 0
HasTask i t db = lookup i db.tasks ≡ some t

tell_session-tasks :
    (back : Backend) (content : Content) (o : Option Run) (db : Db)
    → (tell_session back content o db).tasks ≡ db.tasks
unfolding tell_session
tell_session-tasks back content none db = refl
tell_session-tasks back content (some r) db = refl

update_run-tasks :
    (back : Backend) (status : Text) (req : TaskCallback) (o : Option Text) (db : Db)
    → (update_run back status req o db).tasks ≡ db.tasks
unfolding update_run
update_run-tasks back status req none db = refl
update_run-tasks back status req (some run) db =
    tell_session-tasks back _ _
      (if back.run_update_fails then db else set_run run (run_status status) db)
    ∙ if_cases (λ (d : Db). d.tasks ≡ db.tasks) back.run_update_fails db
        (set_run run (run_status status) db) (λ e. refl) (λ e. unfold set_run in refl)

pub callback_update-tasks :
    (back : Backend) (status : Text) (req : TaskCallback) (db : Db)
    → (callback_update back status req db).tasks
      ≡ settle_row req.task_id status
          (result_or_null req.result_json)
          req.error_message
          (lookup req.task_id db.tasks)
          db.tasks
unfolding callback_update settled settle
callback_update-tasks back status req db = update_run-tasks back status req _ _

-- a row whose status is closed is not the one that a guarded statement changes
put_opened :
    (i id : Text) (t u w : Task) (tasks : List (Text × Task))
    → is_open t.status ≡ false
    → lookup i tasks ≡ some t
    → lookup id tasks ≡ some u
    → is_open u.status ≡ true
    → lookup i (put id w tasks) ≡ some t
put_opened i id t u w tasks closed h there opened = elim (Bool-cases (same id i)) [
  | inl at ↦ absurd (cc (h, there, (same_iff id i).0 at, closed, opened))
  | inr off ↦ lookup-put id i w tasks ∙ ap (λ b. if b then some w else lookup i tasks) off ∙ h
]

settle_row-closed :
    (i id status result message : Text) (t : Task) (o : Option Task) (tasks : List (Text × Task))
    → is_open t.status ≡ false
    → lookup i tasks ≡ some t
    → lookup id tasks ≡ o
    → lookup i (settle_row id status result message o tasks) ≡ some t
unfolding settle_row
settle_row-closed i id status result message t none tasks closed h e = h
settle_row-closed i id status result message t (some u) tasks closed h e =
    if_cases (λ (x : List (Text × Task)). lookup i x ≡ some t) (is_open u.status) _ tasks
      (λ opened. put_opened i id t u _ tasks closed h e opened) (λ shut. h)

time_out_row-closed :
    (i id message : Text) (t : Task) (o : Option Task) (tasks : List (Text × Task))
    → is_open t.status ≡ false
    → lookup i tasks ≡ some t
    → lookup id tasks ≡ o
    → lookup i (time_out_row id message o tasks) ≡ some t
unfolding time_out_row
time_out_row-closed i id message t none tasks closed h e = h
time_out_row-closed i id message t (some u) tasks closed h e =
    if_cases (λ (x : List (Text × Task)). lookup i x ≡ some t) (is_open u.status) _ tasks
      (λ opened. put_opened i id t u _ tasks closed h e opened) (λ shut. h)

reap_row-closed : (now : ℕ) (t : Task) → is_open t.status ≡ false → reap_row now t ≡ t
unfolding reap_row
reap_row-closed now t closed = rw closed refl

reap_rows-closed :
    (i : Text) (now : ℕ) (t : Task) (tasks : List (Text × Task))
    → is_open t.status ≡ false
    → lookup i tasks ≡ some t
    → lookup i (reap_rows now tasks) ≡ some t
unfolding reap_rows lookup
reap_rows-closed i now t [] closed h = h
reap_rows-closed i now t ((id, u) ∷ tasks) closed h = elim (Bool-cases (same id i)) [
  | inl at ↦
      let same_task : u ≡ t = ground (arith, at, h) in
      ap (λ b. if b then some (reap_row now u) else lookup i (reap_rows now tasks)) at
      ∙ ap (λ x. some (reap_row now x)) same_task
      ∙ ap some (reap_row-closed now t closed)
  | inr off ↦
      ap (λ b. if b then some (reap_row now u) else lookup i (reap_rows now tasks)) off
      ∙ reap_rows-closed i now t tasks closed (ground (arith, off, h))
]

notify_timeout-tasks :
    (has_bus : Bool) (session id message : Text) (db : Db)
    → (notify_timeout has_bus session id message db).tasks ≡ db.tasks
unfolding notify_timeout
notify_timeout-tasks has_bus session id message db =
    if_cases (λ (d : Db). d.tasks ≡ db.tasks) (has_bus && not (same session [])) _ db (λ e. refl)
      (λ e. refl)

on_status-closed :
    (exec_fails has_bus : Bool) (session id message i : Text) (t : Task) (o : Option Task) (db : Db)
    → is_open t.status ≡ false
    → HasTask i t db
    → HasTask i t (on_status exec_fails has_bus session id message o db)
unfolding on_status set_timed_out
on_status-closed exec_fails has_bus session id message i t none db closed h = h
on_status-closed exec_fails has_bus session id message i t (some u) db closed h =
    if_cases (λ (d : Db). HasTask i t d) (not (is_open u.status) || exec_fails) db _ (λ e. h)
      (λ e.
        ap (lookup i) (notify_timeout-tasks has_bus session id message _)
        ∙ time_out_row-closed i id message t (lookup id db.tasks) db.tasks closed h refl)

enqueue_answer-closed :
    (watched : Bool) (e : Enqueue) (a : Answer Text) (i : Text) (t : Task) (db : Db)
    → ((id : Text) → a ≡ ok id → lookup id db.tasks ≡ none)
    → HasTask i t db
    → HasTask i t (enqueue_answer watched e a db).1
unfolding enqueue_answer
enqueue_answer-closed watched e (err x) i t db fresh h = h
enqueue_answer-closed watched e (ok id) i t db fresh h = elim (Bool-cases (same id i)) [
  | inl at ↦ absurd (cc (fresh id refl, h, (same_iff id i).0 at))
  | inr off ↦
      lookup-put id i (queued_task e.workspace_id e.session_id e.run_id e.task_type e.expires_at)
        db.tasks
      ∙ ap
          (λ b.
            if b
            then some (queued_task e.workspace_id e.session_id e.run_id e.task_type e.expires_at)
            else lookup i db.tasks)
          off
      ∙ h
]

run_step_callback-tasks :
    (back : Backend) (req : RunStepCallback) (o : Option Run) (db : Db)
    → (tell_step req o db).tasks ≡ db.tasks
unfolding tell_step
run_step_callback-tasks back req none db = refl
run_step_callback-tasks back req (some r) db = refl

callback_status-closed :
    (back : Backend) (status : Text) (req : TaskCallback) (i : Text) (t : Task) (db : Db)
    → is_open t.status ≡ false
    → HasTask i t db
    → HasTask i t (callback_status back status req db).1
unfolding callback_status
callback_status-closed back status req i t db closed h =
    if_cases (λ (x : Status × Db). HasTask i t x.1)
      (not (same status (codes "succeeded")) && not (same status (codes "failed")))
      (invalid_argument, db)
      (if back.exec_fails then (internal, db) else (fine, callback_update back status req db))
      (λ e. h)
      (λ e.
        if_cases (λ (x : Status × Db). HasTask i t x.1) back.exec_fails (internal, db)
          (fine, callback_update back status req db) (λ f. h)
          (λ f.
            ap (lookup i) (callback_update-tasks back status req db)
            ∙ settle_row-closed i req.task_id status (result_or_null req.result_json)
                req.error_message t (lookup req.task_id db.tasks) db.tasks closed h refl))

TaskStep-closed :
    (i : Text) (t : Task) (db db' : Db)
    → is_open t.status ≡ false
    → HasTask i t db
    → TaskStep db db'
    → HasTask i t db'
unfolding enqueue_task task_callback run_step_callback fire_watcher reap
TaskStep-closed i t db _ closed h (enqueues watched e answer fresh) =
    if_cases (λ (x : (Answer Text × Bool) × Db). HasTask i t x.1) e.marshalled
      (enqueue_answer watched e answer db) _
      (λ good. enqueue_answer-closed watched e answer i t db fresh h) (λ bad. h)
TaskStep-closed i t db _ closed h (calls_back back req) =
    callback_status-closed back (to_lower req.status) req i t db closed h
TaskStep-closed i t db _ closed h (traces back req) =
    ap (lookup i) (run_step_callback-tasks back req _ _)
    ∙ if_cases (λ (d : Db). HasTask i t d) back.exec_fails db _ (λ e. h) (λ e. h)
TaskStep-closed i t db _ closed h
      (fires select_fails exec_fails has_bus session id message earlier) =
    if_cases (λ (d : Db). HasTask i t d) select_fails db _ (λ e. h)
      (λ e.
        on_status-closed exec_fails has_bus session id message i t (lookup id earlier.tasks) db
          closed h)
TaskStep-closed i t db _ closed h (reaps exec_fails now) =
    if_cases (λ (d : Db). HasTask i t d) exec_fails db _ (λ e. h)
      (λ e. reap_rows-closed i now t db.tasks closed h)

-- A task that is neither queued nor running keeps its row, whatever callbacks, watchers, rounds of
-- the reaper and new tasks come in, and in whatever order: the first end of a task is its only one.
pub TaskSteps-closed :
    (i : Text) (t : Task) (db db' : Db)
    → is_open t.status ≡ false
    → HasTask i t db
    → TaskSteps db db'
    → HasTask i t db'
TaskSteps-closed i t db _ closed h unchanged = h
TaskSteps-closed i t db db' closed h (one_more {mid = mid} steps step) =
    TaskStep-closed i t mid db' closed (TaskSteps-closed i t db mid closed h steps) step
