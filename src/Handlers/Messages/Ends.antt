-- ===== src/Handlers/Messages/Ends.antt =====
-- internal/handlers/messages.go: how the run of a message stands when the handler has replied.
use data_flow_agent_hub.Base.{
  Text, codes, same, same_refl, lookup, lookup-put, List, [], ◌∷◌, true, false, Option, none, some,
  ◌≡◌, refl, arith, if_cases, if_false, trim_space, not, ap, ◌∙◌,
}
use data_flow_agent_hub.Sqlrun.Run.{Answer, ok, err, Pool}
use data_flow_agent_hub.Async.{Db}
use data_flow_agent_hub.Handlers.Messages.Runs.{tell, add_message}
use data_flow_agent_hub.Handlers.Messages.Replies.{
  Caller, Message, Backend, Posted, refused, use_agent_pipeline,
}
use data_flow_agent_hub.Handlers.Messages.Paths.{
  rag_text, resolve_schema, run_dataset, dataset_pool, dataset_schema, post_message_to_dataset,
  ask_model, answer_or_ask, post_message_to_knowledge, hub_schema, post_message_to_hub,
}
use data_flow_agent_hub.Handlers.Messages.{
  Session, session_belongs_to_workspace, session_dataset, start_run, begin_run, choose_path,
  post_body, post_message,
}
use data_flow_agent_hub.Handlers.Messages.Settled.{
  HasRun, IsAt, Ended, fail_with-Ends, reply_result-Ends, enqueue_run-Ends, dataset_executed-Ends,
  hub_executed-Ends,
}

module _ {V : Type 0} (back : Backend V) (updates : back.ending.update_fails ≡ false) where
  abbrev Started : Db → Type 0
  Started db = HasRun back.new_run (λ r. Unit) db

  abbrev Ends : Posted V × Db → Type 0
  Ends out = Ended back.new_run out

  abbrev Running : Db → Type 0
  Running db = HasRun back.new_run (IsAt (codes "running")) db

  started : (db : Db) → Running db → Started db
  started db (r, e, _) = (r, e, tt)

  dataset_pool-Ends :
      (c : Caller) (sid : Text) (body : Message) (schema_json : Text) (pool : Answer (Pool V))
      (db : Db)
      → Running db
      → Ends (dataset_pool back c sid body schema_json pool db)
  unfolding dataset_pool run_dataset
  dataset_pool-Ends c sid body schema_json (err e) db h =
      fail_with-Ends back updates sid _ _ _ _ db (started db h)
  dataset_pool-Ends c sid body schema_json (ok pool) db h =
      if_cases Ends (use_agent_pipeline body) _ _ (λ _. enqueue_run-Ends back updates _ sid db h)
        (λ _. dataset_executed-Ends back updates sid _ db (started db h))

  dataset_schema-Ends :
      (c : Caller) (sid : Text) (body : Message) (answer : Answer Text) (db : Db)
      → Running db
      → Ends (dataset_schema back c sid body answer db)
  unfolding dataset_schema
  dataset_schema-Ends c sid body (err e) db h =
      fail_with-Ends back updates sid _ _ _ _ db (started db h)
  dataset_schema-Ends c sid body (ok schema_json) db h =
      if_cases Ends back.database_fails _ _
        (λ _. fail_with-Ends back updates sid _ _ _ _ db (started db h))
        (λ _. dataset_pool-Ends c sid body schema_json back.dataset_pool db h)

  ask_model-Ends :
      (sid : Text) (answer : Answer Text) (db : Db)
      → Started db
      → Ends (ask_model back sid answer db)
  unfolding ask_model
  ask_model-Ends sid (ok text) db h = reply_result-Ends back updates sid _ db h
  ask_model-Ends sid (err e) db h = fail_with-Ends back updates sid _ _ _ _ db h

  answer_or_ask-Ends :
      (sid text : Text) (db : Db) → Started db → Ends (answer_or_ask back sid text db)
  unfolding answer_or_ask
  answer_or_ask-Ends sid [] db h = ask_model-Ends sid back.complete db h
  answer_or_ask-Ends sid (x ∷ text) db h = reply_result-Ends back updates sid _ db h

  hub_schema-Ends :
      (c : Caller) (sid : Text) (body : Message) (schema_json : Text) (db : Db)
      → Running db
      → Ends (hub_schema back c sid body (ok schema_json) db)
  unfolding hub_schema
  hub_schema-Ends c sid body schema_json db h =
      if_cases Ends (use_agent_pipeline body) _ _ (λ _. enqueue_run-Ends back updates _ sid db h)
        (λ _. hub_executed-Ends back updates sid _ db (started db h))

  choose_path-Ends :
      (dataset : Option Text) (c : Caller) (sid : Text) (body : Message) (db : Db)
      → (dataset ≡ none → back.has_llm ≡ false → (t : Text) × (resolve_schema back ≡ ok t))
      → Running db
      → Ends (choose_path back dataset c sid body db)
  unfolding choose_path post_message_to_dataset post_message_to_knowledge post_message_to_hub
  choose_path-Ends (some dataset) c sid body db schema h = dataset_schema-Ends c sid body _ db h
  choose_path-Ends none c sid body db schema h =
      if_cases Ends back.has_llm _ _
        (λ _. answer_or_ask-Ends sid (rag_text back.rag) db (started db h))
        (λ no_llm. let (t, e) = schema refl no_llm in rw e (hub_schema-Ends c sid body t db h))

module _ {V : Type 0} (back : Backend V) where
  begin_run-runs :
      (sid text : Text) (db : Db)
      → back.run_fails ≡ false
      → HasRun back.new_run (IsAt (codes "running")) (begin_run back sid text db)
  unfolding begin_run start_run tell
  begin_run-runs sid text db inserts = rw inserts (
    record { session_id = sid; status = codes "running"; pending_reason = none },
    rw (lookup-put back.new_run back.new_run _ _, same_refl back.new_run) refl,
    refl,
  )

  -- the equation of the handler behind its guards
  post_message-choose_path :
      (sessions : List (Text × Session)) (c : Caller) (sid : Text) (body : Message) (db : Db)
      → back.is_limited ≡ false
      → same (trim_space body.text) [] ≡ false
      → session_belongs_to_workspace back.session_fails sessions sid c.workspace_id ≡ true
      → post_message back sessions c sid (some body) db
        ≡ choose_path back
            (session_dataset back.dataset_fails (lookup sid sessions))
            c
            sid
            body
            (begin_run back sid body.text db)
  unfolding post_message post_body
  post_message-choose_path sessions c sid body db rate text session =
      if_false back.is_limited _ _ rate ∙ (if_false _ _ _ text ∙ if_false _ _ _ (ap not session))

  choose_path-fails :
      (dataset : Option Text) (c : Caller) (sid : Text) (body : Message) (db : Db) (e : Text)
      → dataset ≡ none
      → back.has_llm ≡ false
      → resolve_schema back ≡ err e
      → choose_path back dataset c sid body db ≡ (refused 502 e, db)
  unfolding choose_path post_message_to_hub hub_schema
  choose_path-fails (some d) c sid body db e dataset llm schema = cc
  choose_path-fails none c sid body db e dataset llm schema =
      if_false back.has_llm _ _ llm ∙ ap (λ a. hub_schema back c sid body a db) schema

  begin_run-tasks : (sid text : Text) (db : Db) → (begin_run back sid text db).tasks ≡ db.tasks
  unfolding begin_run start_run tell add_message
  begin_run-tasks sid text db = ground arith

-- A message that is not blank, of a caller within the rate, to a session of the workspace of the caller:
-- when the handler has replied, the run of the message is completed if the reply carries a result,
-- failed if the reply is an error, and else running with a queued task of this run. The statements
-- that insert the run and set its status are taken to succeed; where the session has no data set
-- and there is no model, so is the discovery of the schema.
pub post_message_ends :
    {V : Type 0} (back : Backend V) (sessions : List (Text × Session)) (c : Caller) (sid : Text)
    (body : Message) (db : Db)
    → back.is_limited ≡ false
    → same (trim_space body.text) [] ≡ false
    → session_belongs_to_workspace back.session_fails sessions sid c.workspace_id ≡ true
    → back.run_fails ≡ false
    → back.ending.update_fails ≡ false
    → (session_dataset back.dataset_fails (lookup sid sessions) ≡ none
        → back.has_llm ≡ false
        → (t : Text) × (resolve_schema back ≡ ok t))
    → Ended back.new_run (post_message back sessions c sid (some body) db)
post_message_ends back sessions c sid body db rate text session inserts updates schema =
    rw (post_message-choose_path back sessions c sid body db rate text session) (
      choose_path-Ends back updates _ c sid body (begin_run back sid body.text db) schema
        (begin_run-runs back sid body.text db inserts))

-- an error for the user, and a run that nothing will end
module _ {V : Type 0} where
  abbrev pub LeftRunning : Text → Text → Db → Posted V × Db → Type 0
  LeftRunning rid e db out =
      (out.0 ≡ refused 502 e) × HasRun rid (IsAt (codes "running")) out.1 × (out.1.tasks ≡ db.tasks)

-- For a message that is not blank, of a caller within the rate, to a session of the caller's workspace,
-- whose run is inserted: where the session has no data set, there is no model and the discovery of the schema
-- fails, the reply is the error with the status 502 and the run is left running, with no task added.
pub post_message_leaves_running :
    {V : Type 0} (back : Backend V) (sessions : List (Text × Session)) (c : Caller) (sid : Text)
    (body : Message) (db : Db) (e : Text)
    → back.is_limited ≡ false
    → same (trim_space body.text) [] ≡ false
    → session_belongs_to_workspace back.session_fails sessions sid c.workspace_id ≡ true
    → back.run_fails ≡ false
    → session_dataset back.dataset_fails (lookup sid sessions) ≡ none
    → back.has_llm ≡ false
    → resolve_schema back ≡ err e
    → LeftRunning back.new_run e db (post_message back sessions c sid (some body) db)
post_message_leaves_running back sessions c sid body db e rate text session inserts dataset llm
      schema =
    rw (post_message-choose_path back sessions c sid body db rate text session) (
      rw
        (choose_path-fails back _ c sid body (begin_run back sid body.text db) e dataset llm schema)
        (refl, begin_run-runs back sid body.text db inserts, begin_run-tasks back sid body.text db))
