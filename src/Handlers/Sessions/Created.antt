-- ===== src/Handlers/Sessions/Created.antt =====
-- `CreateSession` of internal/handlers/handlers.go: which data sets a new session may be about.
use data_flow_agent_hub.Base.{
  ℕ, Text, codes, same, same_refl, trim_space, trim_left, trim_right, keep, is_space, lookup, List,
  [], ◌∷◌, Bool, true, false, not, ◌&&◌, ◌||◌, Option, none, some, is_some, ◌≡◌, refl, ap, ◌∙◌,
  if_false,
}
use data_flow_agent_hub.Sqlrun.Run.{ok}
use data_flow_agent_hub.Handlers.DataSql.{Catalog, not_deleted}
use data_flow_agent_hub.Handlers.Messages.{
  Session, has_workspace, session_belongs_to_workspace, dataset_of, session_dataset,
}
use data_flow_agent_hub.Handlers.Messages.Replies.{Caller}
use data_flow_agent_hub.Handlers.Sessions.{
  NewSession, Backend, Replied, replied, title_of, query_source_of, source_of_body, dataset_of_body,
  insert_session, with_dataset, with_source, create_session,
}

-- the new session, its reply, and how PostMessage reads them
abbrev pub OpensDataset :
    Text → Text → Caller → Text → Replied (Text × Text) × List (Text × Session) → Type 0
OpensDataset id title c dataset out =
    (out.0 ≡ replied 201 (id, title))
    × (session_belongs_to_workspace false out.1 id c.workspace_id ≡ true)
    × (session_dataset false (lookup id out.1) ≡ some dataset)

source_of_body-none :
    (fails : Bool) (sources : List (Text × Text)) (workspace : Text)
    → source_of_body fails sources workspace [] ≡ ok none
unfolding source_of_body same
source_of_body-none fails sources workspace = refl

dataset_of_body-found :
    (cat : Catalog) (id : Text)
    → same id [] ≡ false
    → cat.count_fails ≡ false
    → not_deleted (lookup id cat.datasets) ≡ true
    → dataset_of_body cat (codes "dataset") id ≡ ok (some id)
unfolding dataset_of_body
dataset_of_body-found cat id full counts found =
    if_false _ _ _ (ap not (same_refl (codes "dataset")))
    ∙ (if_false _ _ _ full
        ∙ if_false _ _ _
            (ap (λ b. b || not (not_deleted (lookup id cat.datasets))) counts ∙ ap not found))

insert_session-opens :
    (back : Backend) (c : Caller) (title : Text) (source : Option Text) (x : ℕ) (dataset : Text)
    (sessions : List (Text × Session))
    → back.insert_fails ≡ false
    → is_some (lookup back.new_id sessions) ≡ false
    → OpensDataset back.new_id title c
        (x ∷ dataset)
        (insert_session back c title source (some (x ∷ dataset)) sessions)
unfolding insert_session session_belongs_to_workspace session_dataset dataset_of has_workspace
    lookup
insert_session-opens back c title source x dataset sessions inserts new =
    rw
      (if_false (back.insert_fails || is_some (lookup back.new_id sessions)) _ _
        (ap (λ b. b || is_some (lookup back.new_id sessions)) inserts ∙ new))
      (refl, rw (same_refl back.new_id) (same_refl c.workspace_id), rw (same_refl back.new_id) refl)

abbrev pub in_dataset : Text → Text → NewSession
in_dataset title dataset = record {
  title = title;
  data_source_id = [];
  dataset_id = dataset;
  query_source = codes "dataset";
}

in_dataset-source :
    (title dataset : Text) → query_source_of (in_dataset title dataset) ≡ codes "dataset"
unfolding query_source_of trim_space trim_left trim_right keep is_space same
in_dataset-source title dataset = refl

trimmed_nothing : trim_space [] ≡ []
unfolding trim_space trim_left trim_right
trimmed_nothing = refl

known_source :
    (source : Text)
    → source ≡ codes "dataset"
    → (not (same source (codes "knowledge")) && not (same source (codes "dataset"))) ≡ false
unfolding same
known_source source e = rw e refl

create_session-insert :
    (back : Backend) (sources : List (Text × Text)) (cat : Catalog) (c : Caller)
    (title dataset : Text) (sessions : List (Text × Session))
    → dataset_of_body cat (codes "dataset") (trim_space dataset) ≡ ok (some dataset)
    → create_session back sources cat c (in_dataset title dataset) sessions
      ≡ insert_session back c (title_of title) none (some dataset) sessions
unfolding create_session with_source with_dataset
create_session-insert back sources cat c title dataset sessions h =
    if_false _ _ _ (known_source _ (in_dataset-source title dataset))
    ∙ rw
        (
          trimmed_nothing,
          source_of_body-none back.select_fails sources c.workspace_id,
          in_dataset-source title dataset,
          h,
        )
        refl

-- Whatever role the caller has, and whatever grants are stored: a body in the mode of data sets that names a data
-- set which is not deleted, and no data source, makes a session of the caller's workspace about this data set, which is
-- what PostMessage then queries. (The insert and the count are taken to succeed, and the identifier
-- to be new.)
pub create_session-OpensDataset :
    (back : Backend) (sources : List (Text × Text)) (cat : Catalog) (c : Caller) (title : Text)
    (x : ℕ) (dataset : Text) (sessions : List (Text × Session))
    → trim_space (x ∷ dataset) ≡ x ∷ dataset
    → cat.count_fails ≡ false
    → not_deleted (lookup (x ∷ dataset) cat.datasets) ≡ true
    → back.insert_fails ≡ false
    → is_some (lookup back.new_id sessions) ≡ false
    → OpensDataset back.new_id
        (title_of title)
        c
        (x ∷ dataset)
        (create_session back sources cat c (in_dataset title (x ∷ dataset)) sessions)
create_session-OpensDataset back sources cat c title x dataset sessions trimmed counts found inserts
      new =
    rw
      (create_session-insert back sources cat c title (x ∷ dataset) sessions
        (rw trimmed (dataset_of_body-found cat (x ∷ dataset) (unfold same in refl) counts found)))
      (insert_session-opens back c (title_of title) none x dataset sessions inserts new)
