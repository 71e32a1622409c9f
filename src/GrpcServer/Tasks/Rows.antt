-- ===== src/GrpcServer/Tasks/Rows.antt =====
-- internal/grpcserver/server.go: the rows of a task and its run behind a callback.
use data_flow_agent_hub.Base.{
  ℕ, Text, codes, same, same_refl, to_lower, lookup, lookup-put, put, List, ◌∷◌, Bool, true, false,
  not, ◌&&◌, Option, none, some, if◌then◌else◌, ◌≡◌, ◌∙◌, ap, refl, inl, inr, arith, Bool-cases,
}
use data_flow_agent_hub.Async.{Task, Run, Content, Db, is_open, settle, settle_row}
use data_flow_agent_hub.GrpcServer.Tasks.{
  Status, fine, invalid_argument, internal, Backend, TaskCallback, task_callback, callback_status,
  callback_update, settled, update_run, tell_session, set_run, set_run_row, run_of, found_task,
  run_status, result_or_null,
}
use data_flow_agent_hub.GrpcServer.Tasks.Closed.{HasTask, callback_update-tasks}

-- the row that a callback leaves of a task
abbrev pub closed_by : Text → TaskCallback → Task → Task
closed_by status req t =
    if is_open t.status
    then record t {
      status = status;
      result = result_or_null req.result_json;
      error_message = req.error_message;
    }
    else t

lookup-if :
    (b : Bool) (id : Text) (w t : Task) (tasks : List (Text × Task))
    → lookup id tasks ≡ some t
    → lookup id (if b then put id w tasks else tasks) ≡ some (if b then w else t)
lookup-if true id w t tasks h =
    lookup-put id id w tasks ∙ ap (λ b. if b then some w else lookup id tasks) (same_refl id)
lookup-if false id w t tasks h = h

settle_row-some :
    (id status : Text) (req : TaskCallback) (t : Task) (tasks : List (Text × Task))
    → lookup id tasks ≡ some t
    → lookup id
        (settle_row id status (result_or_null req.result_json) req.error_message (some t) tasks)
      ≡ some (closed_by status req t)
unfolding settle_row
settle_row-some id status req t tasks h = lookup-if (is_open t.status) id _ t tasks h

settle_row-found :
    (id status : Text) (req : TaskCallback) (t : Task) (tasks : List (Text × Task))
    → lookup id tasks ≡ some t
    → lookup id (
        settle_row id status
          (result_or_null req.result_json)
          req.error_message
          (lookup id tasks)
          tasks)
      ≡ some (closed_by status req t)
settle_row-found id status req t tasks h =
    ap
      (λ o.
        lookup id (settle_row id status (result_or_null req.result_json) req.error_message o tasks))
      h
    ∙ settle_row-some id status req t tasks h

run_of-some :
    (t u : Task) (c : ℕ) (r : Text)
    → t.run_id ≡ some (c ∷ r)
    → u.run_id ≡ t.run_id
    → run_of (some u) ≡ some (c ∷ r)
unfolding run_of
run_of-some t u c r h e = rw (e, h) refl

closed_by-run_id :
    (status : Text) (req : TaskCallback) (t : Task) → (closed_by status req t).run_id ≡ t.run_id
closed_by-run_id status req t = elim (Bool-cases (is_open t.status)) [
  | inl e ↦ rw e refl
  | inr e ↦ rw e refl
]

tell_session-runs :
    (back : Backend) (content : Content) (o : Option Run) (db : Db)
    → (tell_session back content o db).runs ≡ db.runs
unfolding tell_session
tell_session-runs back content none db = refl
tell_session-runs back content (some r) db = refl

set_run-found :
    (id status : Text) (r : Run) (db : Db)
    → lookup id db.runs ≡ some r
    → lookup id (set_run id status db).runs ≡ some (record r { status = status })
unfolding set_run
set_run-found id status r db h =
    ap (λ o. lookup id (set_run_row id status o db.runs)) h
    ∙ unfold set_run_row in
      lookup-put id id (record r { status = status }) db.runs
      ∙ ap (λ b. if b then some (record r { status = status }) else lookup id db.runs)
          (same_refl id)

update_run-found :
    (back : Backend) (status : Text) (req : TaskCallback) (id : Text) (r : Run) (db : Db)
    → back.run_update_fails ≡ false
    → lookup id db.runs ≡ some r
    → lookup id (update_run back status req (some id) db).runs
      ≡ some (record r { status = run_status status })
unfolding update_run
update_run-found back status req id r db sends h =
    ap (lookup id) (
      tell_session-runs back _ _
        (if back.run_update_fails then db else set_run id (run_status status) db))
    ∙ ap (λ b. lookup id (if b then db else set_run id (run_status status) db).runs) sends
    ∙ set_run-found id (run_status status) r db h

if-false {ℓ} : {A : Type ℓ} (b : Bool) (x y : A) → b ≡ false → (if b then x else y) ≡ y
if-false true x y e = absurd (ground (arith, e))
if-false false x y e = refl

task_callback-reached :
    (back : Backend) (req : TaskCallback) (db : Db)
    → (not (same (to_lower req.status) (codes "succeeded"))
        && not (same (to_lower req.status) (codes "failed")))
      ≡ false
    → back.exec_fails ≡ false
    → (task_callback back req db).1 ≡ callback_update back (to_lower req.status) req db
unfolding task_callback callback_status
task_callback-reached back req db valid sends =
    ap (λ (x : Status × Db). x.1)
      (if-false
          (not (same (to_lower req.status) (codes "succeeded"))
            && not (same (to_lower req.status) (codes "failed")))
          (invalid_argument, db)
          (if back.exec_fails
            then (internal, db)
            else (fine, callback_update back (to_lower req.status) req db))
          valid
        ∙ if-false back.exec_fails (internal, db)
            (fine, callback_update back (to_lower req.status) req db) sends)

found_task-some :
    (fails : Bool) (o : Option Task) (t : Task)
    → fails ≡ false
    → o ≡ some t
    → found_task fails o ≡ some t
unfolding found_task
found_task-some fails o t answers e = if-false fails none o answers ∙ e

callback_update-runs :
    (back : Backend) (status : Text) (req : TaskCallback) (t : Task) (c : ℕ) (run : Text) (r : Run)
    (db : Db)
    → back.select_fails ≡ false
    → back.run_update_fails ≡ false
    → HasTask req.task_id t db
    → t.run_id ≡ some (c ∷ run)
    → lookup (c ∷ run) db.runs ≡ some r
    → lookup (c ∷ run) (callback_update back status req db).runs
      ≡ some (record r { status = run_status status })
unfolding callback_update settled settle
callback_update-runs back status req t c run r db answers updates h has there =
    ap (λ o. lookup (c ∷ run) (update_run back status req o (settled back status req db)).runs)
      (ap run_of (
          found_task-some back.select_fails _ (closed_by status req t) answers
            (settle_row-found req.task_id status req t db.tasks h))
        ∙ run_of-some t (closed_by status req t) c run has (closed_by-run_id status req t))
    ∙ update_run-found back status req (c ∷ run) r (settled back status req db) updates there

pub task_callback-closed_by :
    (back : Backend) (req : TaskCallback) (t : Task) (c : ℕ) (run : Text) (r : Run) (db : Db)
    → (not (same (to_lower req.status) (codes "succeeded"))
        && not (same (to_lower req.status) (codes "failed")))
      ≡ false
    → back.exec_fails ≡ false
    → back.select_fails ≡ false
    → back.run_update_fails ≡ false
    → HasTask req.task_id t db
    → t.run_id ≡ some (c ∷ run)
    → lookup (c ∷ run) db.runs ≡ some r
    → HasTask req.task_id (closed_by (to_lower req.status) req t) (task_callback back req db).1
      × (lookup (c ∷ run) (task_callback back req db).1.runs
          ≡ some (record r { status = run_status (to_lower req.status) }))
task_callback-closed_by back req t c run r db valid sends answers updates h has there =
    let status = to_lower req.status in
    let reached = task_callback-reached back req db valid sends in
    (
      ap (λ d. lookup req.task_id d.tasks) reached
          ∙ ap (lookup req.task_id) (callback_update-tasks back status req db)
          ∙ settle_row-found req.task_id status req t db.tasks h,
      ap (λ d. lookup (c ∷ run) d.runs) reached
          ∙ callback_update-runs back status req t c run r db answers updates h has there,
    )
