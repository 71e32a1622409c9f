-- ===== src/Handlers/Messages/Settled.antt =====
-- internal/handlers/messages.go: how the run of a message stands behind each of the ends that the paths
-- share.
use data_flow_agent_hub.Base.{
  ℕ, Text, codes, same_refl, lookup, lookup-put, Bool, true, false, Option, none, some, ◌≡◌, refl,
}
use data_flow_agent_hub.Sqlrun.Run.{
  Answer, ok, err, Failure, client, generate, not_read_only, not_allowed, system_table, database,
}
use data_flow_agent_hub.Async.{
  Task, Run, Content, Event, Db, Enqueue, enqueue_task, enqueue_answer, queued_task, null_if_empty,
}
use data_flow_agent_hub.Executor.{Result, Executed, result, failed}
use data_flow_agent_hub.Handlers.Messages.Runs.{
  GrpcCode, tell, add_message, set_run, update_run, fail_run, complete_run, finish_run_failed,
  publish_marshalled, publish_sync_result,
}
use data_flow_agent_hub.Handlers.Messages.Replies.{
  Backend, Posted, refused, accepted, completed, fail_with, after_publish, reply_result,
  after_enqueue, enqueue_run,
}
use data_flow_agent_hub.Handlers.Messages.Paths.{
  dataset_failed, dataset_executed, hub_failed, hub_executed,
}

-- the row of the run, with a property of it
abbrev pub HasRun : Text → (Run → Type 0) → Db → Type 0
HasRun rid P db = (r : Run) × (lookup rid db.runs ≡ some r) × P r

abbrev pub IsAt : Text → Run → Type 0
IsAt status r = r.status ≡ status

tell-runs : (sid : Text) (ev : Event) (db : Db) → (tell sid ev db).runs ≡ db.runs
unfolding tell
tell-runs sid ev db = refl

add_message-runs :
    (fails : Bool) (sid : Text) (content : Content) (db : Db)
    → (add_message fails sid content db).runs ≡ db.runs
unfolding add_message
add_message-runs true sid content db = refl
add_message-runs false sid content db = refl

update_run-HasRun :
    (f : Run → Run) (status rid : Text) (db : Db)
    → ((r : Run) → (f r).status ≡ status)
    → HasRun rid (λ r. Unit) db
    → HasRun rid (IsAt status) (update_run false f rid db)
unfolding update_run set_run
update_run-HasRun f status rid db sets (r, e, _) =
    rw e (f r, rw (lookup-put rid rid (f r) db.runs, same_refl rid) refl, sets r)

-- the task that continues a run
pub record IsQueued (rid task : Text) (db : Db) : Type 0 where
  pub row : Task
  pub found : lookup task db.tasks ≡ some row
  pub of_run : row.run_id ≡ null_if_empty rid
  pub queued : row.status ≡ codes "queued"

-- What a reply says of the run: it is completed or failed, or it goes on by a queued task.
module _ {V : Type 0} where
  abbrev pub Ended : Text → Posted V × Db → Type 0
  Ended rid (completed r x, db) = HasRun rid (IsAt (codes "completed")) db
  Ended rid (refused status message, db) = HasRun rid (IsAt (codes "failed")) db
  Ended rid (accepted r task, db) = HasRun rid (IsAt (codes "running")) db × IsQueued rid task db

add_message-HasRun :
    (fails : Bool) (sid rid : Text) (content : Content) (P : Run → Type 0) (db : Db)
    → HasRun rid P db
    → HasRun rid P (add_message fails sid content db)
add_message-HasRun fails sid rid content P db (r, e, p) =
    (r, rw (add_message-runs fails sid content db) e, p)

module _ {V : Type 0} (back : Backend V) (updates : back.ending.update_fails ≡ false) where
  abbrev pub Started : Db → Type 0
  Started db = HasRun back.new_run (λ r. Unit) db

  abbrev pub Ends : Posted V × Db → Type 0
  Ends out = Ended back.new_run out

  pub fail_with-Ends :
      (sid message : Text) (code : GrpcCode) (status : ℕ) (error : Text) (db : Db)
      → Started db
      → Ends (fail_with back sid message code status error db)
  unfolding fail_with finish_run_failed tell
  fail_with-Ends sid message code status error db h = rw updates (
      update_run-HasRun (fail_run message) (codes "failed") back.new_run _
        (λ r. unfold fail_run in refl)
        (add_message-HasRun back.ending.insert_fails sid back.new_run _ (λ r. Unit) db h))

  pub publish_marshalled-Ends :
      (assist : Option Text) (sid : Text) (x : Result V) (db : Db)
      → Started db
      → Ends (after_publish back sid x (publish_marshalled back.ending assist back.new_run sid db))
  unfolding publish_marshalled after_publish tell
  publish_marshalled-Ends none sid x db h = fail_with-Ends sid _ _ _ _ db h
  publish_marshalled-Ends (some assist) sid x db h = rw updates (
      update_run-HasRun complete_run (codes "completed") back.new_run _
        (λ r. unfold complete_run in refl)
        (add_message-HasRun back.ending.insert_fails sid back.new_run _ (λ r. Unit) db h))

  pub reply_result-Ends :
      (sid : Text) (x : Result V) (db : Db) → Started db → Ends (reply_result back sid x db)
  unfolding reply_result publish_sync_result tell
  reply_result-Ends sid x db h = publish_marshalled-Ends (back.marshal x) sid x _ h

  pub after_enqueue-Ends :
      (answer : Answer Text) (e : Enqueue) (sid : Text) (db : Db)
      → e.run_id ≡ back.new_run
      → HasRun back.new_run (IsAt (codes "running")) db
      → Ends (after_enqueue back sid (enqueue_answer back.watched e answer db))
  unfolding after_enqueue enqueue_answer
  after_enqueue-Ends (err x) e sid db k (r, h, _) = fail_with-Ends sid _ _ _ _ db (r, h, tt)
  after_enqueue-Ends (ok id) e sid db k h = (
    h,
    record {
      row = queued_task e.workspace_id e.session_id e.run_id e.task_type e.expires_at;
      found =
          rw
            (
              lookup-put id id
                  (queued_task e.workspace_id e.session_id e.run_id e.task_type e.expires_at)
                  db.tasks,
              same_refl id,
            )
            refl;
      of_run = unfold queued_task in rw k refl;
      queued = unfold queued_task in refl;
    },
  )

  pub enqueue_run-Ends :
      (workspace sid : Text) (db : Db)
      → HasRun back.new_run (IsAt (codes "running")) db
      → Ends (enqueue_run back workspace sid db)
  unfolding enqueue_run enqueue_task
  enqueue_run-Ends workspace sid db h = after_enqueue-Ends back.task_row _ sid db refl h

  pub dataset_failed-Ends :
      (sid : Text) (e : Failure) (db : Db) → Started db → Ends (dataset_failed back sid e db)
  unfolding dataset_failed
  dataset_failed-Ends sid e db h = fail_with-Ends sid _ _ _ _ db h

  pub dataset_executed-Ends :
      (sid : Text) (x : Executed V) (db : Db) → Started db → Ends (dataset_executed back sid x db)
  unfolding dataset_executed
  dataset_executed-Ends sid (result r) db h = reply_result-Ends sid r db h
  dataset_executed-Ends sid (failed sql e) db h = dataset_failed-Ends sid e db h

  pub hub_executed-Ends :
      (sid : Text) (x : Executed V) (db : Db) → Started db → Ends (hub_executed back sid x db)
  unfolding hub_executed hub_failed
  hub_executed-Ends sid (result r) db h = reply_result-Ends sid r db h
  hub_executed-Ends sid (failed sql (client true e)) db h = fail_with-Ends sid _ _ _ _ db h
  hub_executed-Ends sid (failed sql (client false e)) db h = dataset_failed-Ends sid _ db h
  hub_executed-Ends sid (failed sql (generate e)) db h = dataset_failed-Ends sid _ db h
  hub_executed-Ends sid (failed sql (not_read_only k)) db h = dataset_failed-Ends sid _ db h
  hub_executed-Ends sid (failed sql (not_allowed t r)) db h = dataset_failed-Ends sid _ db h
  hub_executed-Ends sid (failed sql (system_table t)) db h = dataset_failed-Ends sid _ db h
  hub_executed-Ends sid (failed sql (database e)) db h = dataset_failed-Ends sid _ db h
