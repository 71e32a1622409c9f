-- ===== src/Handlers/Messages/Isolation.antt =====
-- internal/handlers/messages.go: messages to the sessions of others.
use data_flow_agent_hub.Base.{
  Text, codes, same, same_iff, lookup, List, [], false, Option, none, some, ◌≡◌, ◌≢◌, ◌∙◌, ap, sym,
  refl, arith, inl, inr, if_cases, if_true, trim_space, not, if◌then◌else◌, Bool-cases, Bool,
}
use data_flow_agent_hub.Async.{Db}
use data_flow_agent_hub.Handlers.Messages.Replies.{Caller, Message, Backend, Posted, refused}
use data_flow_agent_hub.Handlers.Messages.{
  Session, has_workspace, session_belongs_to_workspace, post_body, post_message,
}

-- no session, or one whose row names another workspace
abbrev pub IsForeign : Text → Option Session → Type 0
IsForeign workspace none = Unit
IsForeign workspace (some s) = s.workspace_id ≢ workspace

has_workspace-IsForeign :
    (workspace : Text) (o : Option Session)
    → IsForeign workspace o
    → has_workspace workspace o ≡ false
unfolding has_workspace
has_workspace-IsForeign workspace none h = refl
has_workspace-IsForeign workspace (some s) h = elim (Bool-cases (same s.workspace_id workspace)) [
  | inl e ↦ absurd (h ((same_iff s.workspace_id workspace).0 e))
  | inr e ↦ e
]

session_belongs-IsForeign :
    (fails : Bool) (sessions : List (Text × Session)) (sid workspace : Text)
    → IsForeign workspace (lookup sid sessions)
    → session_belongs_to_workspace fails sessions sid workspace ≡ false
unfolding session_belongs_to_workspace
session_belongs-IsForeign fails sessions sid workspace h =
    let e = has_workspace-IsForeign workspace (lookup sid sessions) h in ground (arith, e)

module _ {V : Type 0} (back : Backend V) (c : Caller) (sid : Text) (body : Option Message)
    (db : Db) where
  -- the refusals, in their order
  refusal : Option Message → Posted V × Db
  refusal none = (refused 400 (codes "text required"), db)
  refusal (some m) =
      if same (trim_space m.text) []
      then (refused 400 (codes "text required"), db)
      else (refused 404 (codes "session not found"), db)

  post_body-refusal :
      (sessions : List (Text × Session)) (o : Option Message)
      → IsForeign c.workspace_id (lookup sid sessions)
      → post_body back sessions c sid o db ≡ refusal o
  unfolding post_body refusal
  post_body-refusal sessions none h = refl
  post_body-refusal sessions (some m) h =
      ap (λ x. if same (trim_space m.text) [] then (refused 400 (codes "text required"), db) else x)
        (if_true _ _ _
          (ap not (session_belongs-IsForeign back.session_fails sessions sid c.workspace_id h)))

  post_message-refusal :
      (sessions : List (Text × Session))
      → IsForeign c.workspace_id (lookup sid sessions)
      → post_message back sessions c sid body db
        ≡ (if back.is_limited then (refused 429 (codes "rate limit"), db) else refusal body)
  unfolding post_message
  post_message-refusal sessions h =
      ap (λ x. if back.is_limited then (refused 429 (codes "rate limit"), db) else x)
        (post_body-refusal sessions body h)

  refusal-db : (o : Option Message) → (refusal o).1 ≡ db
  unfolding refusal
  refusal-db none = refl
  refusal-db (some m) =
      if_cases (λ (x : Posted V × Db). x.1 ≡ db) (same (trim_space m.text) []) _ _ (λ _. refl)
        (λ _. refl)

-- A message to a session whose row names another workspace than that of the caller changes nothing,
-- and its reply is the one for a session that does not exist: it does not tell that there is such a
-- session. The reply does not depend on the other sessions either.
pub post_message_isolated :
    {V : Type 0} (back : Backend V) (sessions : List (Text × Session)) (c : Caller) (sid : Text)
    (body : Option Message) (db : Db)
    → IsForeign c.workspace_id (lookup sid sessions)
    → ((post_message back sessions c sid body db).1 ≡ db)
      × (post_message back sessions c sid body db ≡ post_message back [] c sid body db)
post_message_isolated {V} back sessions c sid body db h =
    let e = post_message-refusal back c sid body db sessions h in
    (
      ap (λ (x : Posted V × Db). x.1) e
          ∙ if_cases (λ (x : Posted V × Db). x.1 ≡ db) back.is_limited _ _ (λ _. refl)
              (λ _. refusal-db back c sid body db body),
      e ∙ sym (post_message-refusal back c sid body db [] (unfold lookup in tt)),
    )
