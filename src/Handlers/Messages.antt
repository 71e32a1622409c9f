-- ===== src/Handlers/Messages.antt =====
-- internal/handlers/messages.go: a message of a user and the run that it starts.
pub mod Runs
pub mod Dataset
pub mod Replies
pub mod Paths
pub mod Tables
pub mod Settled
pub mod Ends
pub mod Isolation
pub mod Examples
use data_flow_agent_hub.Base.{
  Text, codes, same, trim_space, lookup, put, List, [], ◌∷◌, Bool, true, false, not, ◌&&◌, Option,
  none, some, if◌then◌else◌,
}
use data_flow_agent_hub.Async.{Db, user_text, user_message, run_started}
use data_flow_agent_hub.Handlers.Messages.Runs.{tell, add_message}
use data_flow_agent_hub.Handlers.Messages.Replies.{Caller, Message, Backend, Posted, refused}
use data_flow_agent_hub.Handlers.Messages.Paths.{
  post_message_to_dataset, post_message_to_knowledge, post_message_to_hub,
}

-- the row of a session
pub record Session : Type 0 where
  pub workspace_id : Text
  pub user_id : Text
  pub title : Text
  pub data_source_id : Option Text
  pub dataset_id : Option Text

-- `sessionBelongsToWorkspace`
unfoldable pub has_workspace : Text → Option Session → Bool
has_workspace workspace none = false
has_workspace workspace (some s) = same s.workspace_id workspace

unfoldable pub session_belongs_to_workspace : Bool → List (Text × Session) → Text → Text → Bool
session_belongs_to_workspace fails sessions sid workspace =
    not fails && has_workspace workspace (lookup sid sessions)

-- `datasetID`, if it is neither NULL nor empty
unfoldable pub dataset_of : Option Session → Option Text
dataset_of none = none
dataset_of (some s) = elim s.dataset_id [
  | none ↦ none
  | some d ↦ elim d [ [] ↦ none | c ∷ t ↦ some (c ∷ t) ]
]

unfoldable pub session_dataset : Bool → Option Session → Option Text
session_dataset fails s = if fails then none else dataset_of s

-- `INSERT INTO runs`, whose error is only logged
unfoldable pub start_run : Bool → Text → Text → Db → Db
start_run true rid sid db = db
start_run false rid sid db = record db {
  runs =
      put rid (record { session_id = sid; status = codes "running"; pending_reason = none })
        db.runs;
}

module _ {V : Type 0} where
  -- the message and the run, and their events
  unfoldable pub begin_run : Backend V → Text → Text → Db → Db
  begin_run back sid text db = tell sid (run_started back.new_run) (
      start_run back.run_fails back.new_run sid
        (tell sid (user_message text) (add_message back.message_fails sid (user_text text) db)))

  unfoldable pub choose_path :
      Backend V → Option Text → Caller → Text → Message → Db → Posted V × Db
  choose_path back (some dataset) c sid body db = post_message_to_dataset back c sid body db
  choose_path back none c sid body db =
      if back.has_llm
      then post_message_to_knowledge back sid db
      else post_message_to_hub back c sid body db

  unfoldable pub post_body :
      Backend V → List (Text × Session) → Caller → Text → Option Message → Db → Posted V × Db
  post_body back sessions c sid none db = (refused 400 (codes "text required"), db)
  post_body back sessions c sid (some body) db =
      if same (trim_space body.text) []
      then (refused 400 (codes "text required"), db)
      else if not (session_belongs_to_workspace back.session_fails sessions sid c.workspace_id)
      then (refused 404 (codes "session not found"), db)
      else choose_path back (session_dataset back.dataset_fails (lookup sid sessions)) c sid body
          (begin_run back sid body.text db)

  -- `PostMessage`
  unfoldable pub post_message :
      Backend V → List (Text × Session) → Caller → Text → Option Message → Db → Posted V × Db
  post_message back sessions c sid body db =
      if back.is_limited
      then (refused 429 (codes "rate limit"), db)
      else post_body back sessions c sid body db
