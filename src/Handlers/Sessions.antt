-- ===== src/Handlers/Sessions.antt =====
-- The sessions in internal/handlers/handlers.go, and the state of a task in internal/handlers/tasks.go.
-- Tables stand with the newest row first. What the database and Redis answer during one request is a
-- parameter; `Health`, `Version` and the writing of the stream to the connection are left out.
pub mod Login
pub mod Created
pub mod Examples
use data_flow_agent_hub.Base.{
  ℕ, Text, codes, same, trim_space, lookup, take, is_some, List, [], ◌∷◌, ◌++◌, Bool, false, not,
  ◌&&◌, ◌||◌, Option, none, some, if◌then◌else◌,
}
use data_flow_agent_hub.Sqlrun.Run.{Answer, ok, err}
use data_flow_agent_hub.SseBus.{subscribe}
use data_flow_agent_hub.Async.{Task, Run, Step, Content, Db}
use data_flow_agent_hub.Handlers.DataSql.{Catalog, not_deleted}
use data_flow_agent_hub.Handlers.Messages.{Session, session_belongs_to_workspace}
use data_flow_agent_hub.Handlers.Messages.Replies.{Caller}

-- the body of `CreateSession`; where it does not decode, its fields are empty
pub record NewSession : Type 0 where
  pub title : Text
  pub data_source_id : Text
  pub dataset_id : Text
  pub query_source : Text

pub record Backend : Type 0 where
  pub new_id : Text
  pub select_fails : Bool
  pub insert_fails : Bool

-- the replies of these handlers
pub data Replied (A : Type 0) : Type 0 where
  refused : ℕ → Text → Replied A
  replied : ℕ → A → Replied A

unfoldable pub title_of : Text → Text
title_of title = let t = trim_space title in if same t [] then codes "New session" else t

unfoldable pub query_source_of : NewSession → Text
query_source_of body =
    let source = trim_space body.query_source in
    if not (same source [])
    then source
    else if not (same body.dataset_id [])
    then codes "dataset"
    else codes "knowledge"

-- the data source of the body, which must be one of the workspace
unfoldable pub source_of_body : Bool → List (Text × Text) → Text → Text → Answer (Option Text)
source_of_body fails sources workspace id =
    if same id []
    then ok none
    else if fails || not (has_source (lookup id sources))
    then err (codes "data_source_id not found or not in workspace")
    else ok (some id)
  where
    has_source : Option Text → Bool
    has_source none = false
    has_source (some w) = same w workspace

-- the data set of the body, in the mode of data sets
unfoldable pub dataset_of_body : Catalog → Text → Text → Answer (Option Text)
dataset_of_body cat source id =
    if not (same source (codes "dataset"))
    then ok none
    else if same id []
    then err (codes "dataset_id is required when query_source is 'dataset'")
    else if cat.count_fails || not (not_deleted (lookup id cat.datasets))
    then err (codes "dataset not found")
    else ok (some id)

unfoldable pub insert_session :
    Backend
    → Caller
    → Text
    → Option Text
    → Option Text
    → List (Text × Session)
    → Replied (Text × Text) × List (Text × Session)
insert_session back c title source dataset sessions =
    if back.insert_fails || is_some (lookup back.new_id sessions)
    then (refused 500 (codes "db"), sessions)
    else (
      replied 201 (back.new_id, title),
      (
        back.new_id,
        record {
          workspace_id = c.workspace_id;
          user_id = c.user_id;
          title = title;
          data_source_id = source;
          dataset_id = dataset;
        },
      )
          ∷ sessions,
    )

unfoldable pub with_dataset :
    Backend
    → Caller
    → Text
    → Option Text
    → Answer (Option Text)
    → List (Text × Session)
    → Replied (Text × Text) × List (Text × Session)
with_dataset back c title source (err e) sessions = (refused 400 e, sessions)
with_dataset back c title source (ok dataset) sessions =
    insert_session back c title source dataset sessions

unfoldable pub with_source :
    Backend
    → Catalog
    → Caller
    → NewSession
    → Answer (Option Text)
    → List (Text × Session)
    → Replied (Text × Text) × List (Text × Session)
with_source back cat c body (err e) sessions = (refused 400 e, sessions)
with_source back cat c body (ok source) sessions =
    with_dataset back c (title_of body.title) source
      (dataset_of_body cat (query_source_of body) (trim_space body.dataset_id)) sessions

-- `CreateSession`; `sources` are the data sources with their workspaces
unfoldable pub create_session :
    Backend
    → List (Text × Text)
    → Catalog
    → Caller
    → NewSession
    → List (Text × Session)
    → Replied (Text × Text) × List (Text × Session)
create_session back sources cat c body sessions =
    let source = query_source_of body in
    if not (same source (codes "knowledge")) && not (same source (codes "dataset"))
    then (refused 400 (codes "query_source must be 'knowledge' or 'dataset'"), sessions)
    else with_source back cat c body
        (source_of_body back.select_fails sources c.workspace_id (trim_space body.data_source_id))
        sessions

-- `ListSessions`, with its `LIMIT`
abbrev pub session_limit : ℕ
session_limit = 50

unfoldable pub sessions_of : Text → List (Text × Session) → List (Text × Session)
sessions_of workspace [] = []
sessions_of workspace ((id, s) ∷ sessions) =
    let rest = sessions_of workspace sessions in
    if same s.workspace_id workspace then (id, s) ∷ rest else rest

unfoldable pub list_sessions :
    Backend → Caller → List (Text × Session) → Replied (List (Text × Session))
list_sessions back c sessions =
    if back.select_fails
    then refused 500 (codes "db")
    else replied 200 (take session_limit (sessions_of c.workspace_id sessions))

-- `ListMessages`: the messages of a session and the steps of its runs, oldest first
unfoldable pub messages_of : Text → List (Text × Content) → List Content
messages_of sid [] = []
messages_of sid ((s, content) ∷ messages) =
    let rest = messages_of sid messages in if same s sid then rest ++ (content ∷ []) else rest

unfoldable pub in_session : Text → Option Run → Bool
in_session sid none = false
in_session sid (some r) = same r.session_id sid

unfoldable pub steps_of : Text → List (Text × Run) → List Step → List Step
steps_of sid runs [] = []
steps_of sid runs (s ∷ steps) =
    let rest = steps_of sid runs steps in
    if in_session sid (lookup s.run_id runs) then rest ++ (s ∷ []) else rest

unfoldable pub list_messages :
    Backend
    → Bool
    → Bool
    → List (Text × Session)
    → Caller
    → Text
    → Db
    → Replied (List Content × List Step)
list_messages back messages_fail steps_fail sessions c sid db =
    if not (session_belongs_to_workspace back.select_fails sessions sid c.workspace_id)
    then refused 404 (codes "session not found")
    else if messages_fail
    then refused 500 (codes "db")
    else replied 200
        (messages_of sid db.messages, if steps_fail then [] else steps_of sid db.runs db.steps)

-- `SSEToken`, for the signing of a token for the session
unfoldable pub sse_token_reply : Answer Text → Replied (Text × ℕ)
sse_token_reply (err e) = refused 500 (codes "sse token")
sse_token_reply (ok token) = replied 200 (token, 3600)

unfoldable pub sse_token :
    Backend → List (Text × Session) → Caller → Text → Answer Text → Replied (Text × ℕ)
sse_token back sessions c sid signed =
    if not (session_belongs_to_workspace back.select_fails sessions sid c.workspace_id)
    then refused 404 (codes "session not found")
    else sse_token_reply signed

-- `SessionStream` up to its loop: the channel that it subscribes
unfoldable pub session_stream :
    Backend → List (Text × Session) → Caller → Text → Db → Replied ℕ × Db
session_stream back sessions c sid db =
    if not (session_belongs_to_workspace back.select_fails sessions sid c.workspace_id)
    then (refused 404 (codes "session not found"), db)
    else (replied 200 db.bus.next, record db { bus = subscribe sid db.bus })

-- `TaskStatus`: the row of a task of the workspace of the caller
unfoldable pub show_task : Text → Option Task → Replied Task
show_task workspace none = refused 404 (codes "task not found")
show_task workspace (some t) =
    if same t.workspace_id workspace then replied 200 t else refused 404 (codes "task not found")

unfoldable pub task_status : Backend → Caller → Text → Db → Replied Task
task_status back c id db =
    if back.select_fails
    then refused 404 (codes "task not found")
    else show_task c.workspace_id (lookup id db.tasks)
