-- ===== src/GrpcServer/Tasks.antt =====
-- internal/grpcserver/server.go: the callbacks of the worker about tasks, steps and documents.
pub mod Closed
pub mod Rows
pub mod Late
pub mod Indexes
pub mod Examples
use data_flow_agent_hub.Base.{
  ℕ, ◌+◌, Text, codes, same, to_lower, lookup, put, ltb, List, [], ◌∷◌, Bool, not, ◌&&◌, ◌||◌,
  Option, none, some, if◌then◌else◌,
}
use data_flow_agent_hub.SseBus.{publish}
use data_flow_agent_hub.Async.{
  Task, Run, Content, final_report, error_content, result_event, agent_step, Step, Db, settle,
}

-- the error codes of gRPC that the callbacks use, and the reply
pub data Status : Type 0 where
  fine invalid_argument internal : Status

-- what the database and `encoding/json` answer during one callback
pub record Backend : Type 0 where
  pub exec_fails : Bool
  pub select_fails : Bool
  pub run_update_fails : Bool
  pub session_select_fails : Bool
  pub marshal_fails : Bool
  pub insert_fails : Bool
  pub unmarshal : Text → Option Text

pub record TaskCallback : Type 0 where
  pub task_id : Text
  pub status : Text
  pub result_json : Text
  pub error_message : Text

unfoldable pub result_or_null : Text → Text
result_or_null [] = codes "null"
result_or_null (c ∷ s) = c ∷ s

-- `SELECT run_id FROM async_tasks`, and the test that it is neither NULL nor empty
unfoldable pub run_of : Option Task → Option Text
run_of none = none
run_of (some t) = elim t.run_id [
  | none ↦ none
  | some r ↦ elim r [ [] ↦ none | c ∷ s ↦ some (c ∷ s) ]
]

unfoldable pub run_status : Text → Text
run_status status = if same status (codes "failed") then codes "failed" else codes "completed"

-- `UPDATE runs SET status = ? WHERE id = ?`
unfoldable pub set_run_row : Text → Text → Option Run → List (Text × Run) → List (Text × Run)
set_run_row id status none runs = runs
set_run_row id status (some r) runs = put id (record r { status = status }) runs

unfoldable pub set_run : Text → Text → Db → Db
set_run id status db = record db { runs = set_run_row id status (lookup id db.runs) db.runs }

unfoldable pub content_of : Backend → Text → TaskCallback → Text → Content
content_of back status req run =
    if same status (codes "succeeded")
    then final_report (back.unmarshal (result_or_null req.result_json)) run
    else error_content req.error_message run

-- the message for the session of the run, and its event
unfoldable pub tell_session : Backend → Content → Option Run → Db → Db
tell_session back content none db = db
tell_session back content (some r) db = record db {
  messages =
      if back.marshal_fails || back.insert_fails
      then db.messages
      else (r.session_id, content) ∷ db.messages;
  bus = publish r.session_id (result_event content) db.bus;
}

unfoldable pub found_session : Bool → Option Run → Option Run
found_session fails o = if fails then none else o

unfoldable pub update_run : Backend → Text → TaskCallback → Option Text → Db → Db
update_run back status req none db = db
update_run back status req (some run) db =
    let db' = if back.run_update_fails then db else set_run run (run_status status) db in
    tell_session back (content_of back status req run)
      (found_session back.session_select_fails (lookup run db'.runs)) db'

unfoldable pub settled : Backend → Text → TaskCallback → Db → Db
settled back status req db =
    settle req.task_id status (result_or_null req.result_json) req.error_message db

unfoldable pub found_task : Bool → Option Task → Option Task
found_task fails o = if fails then none else o

unfoldable pub callback_update : Backend → Text → TaskCallback → Db → Db
callback_update back status req db =
    let db' = settled back status req db in
    update_run back status req
      (run_of (found_task back.select_fails (lookup req.task_id db'.tasks))) db'

unfoldable pub callback_status : Backend → Text → TaskCallback → Db → Status × Db
callback_status back status req db =
    if not (same status (codes "succeeded")) && not (same status (codes "failed"))
    then (invalid_argument, db)
    else if back.exec_fails
    then (internal, db)
    else (fine, callback_update back status req db)

-- `TaskCallback`
unfoldable pub task_callback : Backend → TaskCallback → Db → Status × Db
task_callback back req db = callback_status back (to_lower req.status) req db

pub record RunStepCallback : Type 0 where
  pub run_id : Text
  pub agent_name : Text
  pub status : Text
  pub output_summary : Text
  pub error_message : Text

-- `SELECT COALESCE(MAX(step_index), -1) + 1 FROM agent_run_steps WHERE run_id = ?`
unfoldable pub above : ℕ → ℕ → ℕ
above i n = if ltb i n then n else i + 1

unfoldable pub next_index : Text → List Step → ℕ
next_index run [] = 0
next_index run (s ∷ steps) =
    let n = next_index run steps in if same s.run_id run then above s.step_index n else n

unfoldable pub non_empty : Text → Option Text
non_empty [] = none
non_empty (c ∷ s) = some (c ∷ s)

unfoldable pub tell_step : RunStepCallback → Option Run → Db → Db
tell_step req none db = db
tell_step req (some r) db = record db {
  bus =
      publish r.session_id
        (agent_step req.agent_name req.status req.output_summary (non_empty req.error_message))
        db.bus;
}

unfoldable pub new_step : Backend → RunStepCallback → List Step → Step
new_step back req steps = record {
  run_id = req.run_id;
  step_index = if back.select_fails then 0 else next_index req.run_id steps;
  agent_name = req.agent_name;
  status = req.status;
}

-- `RunStepCallback`
unfoldable pub run_step_callback : Backend → RunStepCallback → Db → Status × Db
run_step_callback back req db =
    let db' =
      if back.exec_fails then db else record db { steps = new_step back req db.steps ∷ db.steps } in
    (fine, tell_step req (found_session back.session_select_fails (lookup req.run_id db'.runs)) db')

-- the row of `knowledge_docs`, and `KnowledgeDocCallback`
pub record KnowledgeDoc : Type 0 where
  pub status : Text
  pub chroma_doc_id : Text
  pub chunk_count : ℕ

unfoldable pub set_doc :
    Text
    → KnowledgeDoc
    → Option KnowledgeDoc
    → List (Text × KnowledgeDoc)
    → List (Text × KnowledgeDoc)
set_doc id doc none docs = docs
set_doc id doc (some old) docs = put id doc docs

unfoldable pub knowledge_doc_callback :
    Bool → Text → Text → Text → ℕ → List (Text × KnowledgeDoc) → Status × List (Text × KnowledgeDoc)
knowledge_doc_callback exec_fails id status chroma_doc_id chunk_count docs =
    let lower = to_lower status in
    if not (same lower (codes "completed")) && not (same lower (codes "failed"))
    then (invalid_argument, docs)
    else if exec_fails
    then (internal, docs)
    else (
      fine,
      set_doc id
          (record { status = lower; chroma_doc_id = chroma_doc_id; chunk_count = chunk_count })
          (lookup id docs) docs,
    )
