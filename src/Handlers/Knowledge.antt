-- ===== src/Handlers/Knowledge.antt =====
-- internal/handlers/knowledge.go: the documents of a workspace, their files and their indexing. What the
-- database, the disk, SHA-256, the worker and the multipart parser answer during one request is a
-- parameter; `filepath.Ext` is one too.
use data_flow_agent_hub.Base.{
  ℕ, Text, codes, same, trim_space, to_lower, lookup, is_some, length, take, ◌-◌, ◌==◌, List, [],
  ◌∷◌, ◌++◌, Bool, true, not, ◌||◌, Option, none, some, if◌then◌else◌,
}
use data_flow_agent_hub.Sqlrun.Run.{Answer, ok, err}
use data_flow_agent_hub.Async.{Db, enqueue_task}
use data_flow_agent_hub.Handlers.Messages.Replies.{Caller}

-- `docTypeFromExt`, on the extension in lower case; `none` is its error
unfoldable pub doc_type_from_ext : Text → Option Text
doc_type_from_ext ext =
    if same ext (codes ".txt")
    then some (codes "text")
    else if same ext (codes ".md")
    then some (codes "markdown")
    else if same ext (codes ".pdf")
    then some (codes "pdf")
    else if same ext (codes ".doc") || same ext (codes ".docx")
    then some (codes "doc")
    else none

-- `extFromDocType`
unfoldable pub ext_from_doc_type : Text → Text
ext_from_doc_type doc_type =
    if same doc_type (codes "text")
    then codes ".txt"
    else if same doc_type (codes "markdown")
    then codes ".md"
    else if same doc_type (codes "pdf")
    then codes ".pdf"
    else if same doc_type (codes "doc")
    then codes ".docx"
    else []

pub record Document : Type 0 where
  pub workspace_id : Text
  pub title : Text
  pub doc_type : Text
  pub content_hash : Text
  pub created_by : Text
  pub status : Text

-- the documents with the newest first, the files by folder and name, and the tasks
pub record Store : Type 0 where
  pub docs : List (Text × Document)
  pub files : List (Text × Text)
  pub db : Db

-- the worker's `IndexDocument`: `Ok` with the number of chunks, or not, or an error
pub data Indexed : Type 0 where
  indexed : ℕ → Indexed
  not_indexed : Indexed

pub record Backend : Type 0 where
  pub sha256 : Text → Text
  pub ext : Text → Text  -- `filepath.Ext`
  pub path : Text → Text → Text  -- `filepath.Join` below the folder of the files
  pub new_id : Text
  pub select_fails : Bool
  pub insert_fails : Bool
  pub update_fails : Bool
  pub save_fails : Bool
  pub worker : Option Indexed
  pub expires_at : ℕ
  pub watched : Bool
  pub task_row : Answer Text

-- the replies of these handlers
pub data Replied : Type 0 where
  refused : ℕ → Text → Replied
  listed : List (Text × Document) → Replied
  completed : Text → ℕ → Replied
  pending : Text → Text → Replied
  served : Text → Text → Replied

unfoldable pub docs_of : Text → List (Text × Document) → List (Text × Document)
docs_of workspace [] = []
docs_of workspace ((id, d) ∷ docs) =
    let rest = docs_of workspace docs in
    if same d.workspace_id workspace then (id, d) ∷ rest else rest

-- `ListKnowledgeDocs`
unfoldable pub list_knowledge_docs : Backend → Caller → Text → Store → Replied
list_knowledge_docs back c workspace s =
    if not (same workspace c.workspace_id)
    then refused 403 (codes "workspace mismatch")
    else if back.select_fails
    then refused 500 (codes "db error")
    else listed (docs_of workspace s.docs)

-- `updateDocStatus`, whose error is only logged
unfoldable pub set_status : Text → Text → List (Text × Document) → List (Text × Document)
set_status id status [] = []
set_status id status ((j, d) ∷ docs) =
    (j, if same j id then record d { status = status } else d) ∷ set_status id status docs

unfoldable pub update_doc_status : Bool → Text → Text → Store → Store
update_doc_status fails id status s =
    if fails then s else record s { docs = set_status id status s.docs }

-- the task that stands in for the worker
unfoldable pub queue_reply : Text → (Answer Text × Bool) × Db → Store → Replied × Store
queue_reply id ((ok task, watcher), db) s = (pending id task, record s { db = db })
queue_reply id ((err e, watcher), db) s =
    (refused 500 (codes "failed to enqueue indexing task"), record s { db = db })

unfoldable pub queue_index : Backend → Text → Store → Replied × Store
queue_index back workspace s =
    queue_reply back.new_id
      (enqueue_task back.watched
        (record {
          workspace_id = workspace;
          session_id = [];
          run_id = [];
          task_type = codes "knowledge_index";
          expires_at = back.expires_at;
          marshalled = true;
        })
        back.task_row s.db)
      s

-- `IndexDocument` and its fall-back
unfoldable pub index_document : Backend → Text → Option Indexed → Store → Replied × Store
index_document back workspace (some (indexed n)) s =
    (completed back.new_id n, update_doc_status back.update_fails back.new_id (codes "completed") s)
index_document back workspace (some not_indexed) s = queue_index back workspace s
index_document back workspace none s = queue_index back workspace s

-- the default of the column `doc_type` in internal/migrate/003_knowledge_docs.sql
abbrev pub default_type : Text
default_type = codes "text"

unfoldable pub new_document : Backend → Caller → Text → Text → Text → Text → Document
new_document back c workspace title doc_type content = record {
  workspace_id = workspace;
  title = title;
  doc_type = doc_type;
  content_hash = back.sha256 content;
  created_by = c.user_id;
  status = codes "pending";
}

unfoldable pub insert_and_index : Backend → Text → Document → Store → Replied × Store
insert_and_index back workspace d s =
    if back.insert_fails || is_some (lookup back.new_id s.docs)
    then (refused 500 (codes "db insert"), s)
    else index_document back workspace back.worker (record s { docs = (back.new_id, d) ∷ s.docs })

-- `UploadKnowledgeDoc`, by the title and the content of the body
unfoldable pub upload_body :
    Backend → Caller → Text → Option (Text × Text) → Store → Replied × Store
upload_body back c workspace none s = (refused 400 (codes "invalid payload"), s)
upload_body back c workspace (some (title, content)) s =
    if same title [] || same content []
    then (refused 400 (codes "invalid payload"), s)
    else insert_and_index back workspace (new_document back c workspace title default_type content)
        s

unfoldable pub upload_knowledge_doc :
    Backend → Caller → Text → Option (Text × Text) → Store → Replied × Store
upload_knowledge_doc back c workspace body s =
    if not (same workspace c.workspace_id)
    then (refused 403 (codes "workspace mismatch"), s)
    else upload_body back c workspace body s

-- `saveKnowledgeFile`; its name
unfoldable pub file_path : Backend → Text → Text → Text → Text
file_path back workspace id doc_type = back.path workspace (id ++ ext_from_doc_type doc_type)

unfoldable pub save_knowledge_file : Backend → Text → Text → Text → Store → Store
save_knowledge_file back workspace doc_type bytes s = record s {
  files = (file_path back workspace back.new_id doc_type, bytes) ∷ s.files;
}

-- the form of a file: whether it parses, and the name and the bytes of the file with the title
pub record FileForm : Type 0 where
  pub name : Text
  pub bytes : Answer Text
  pub title : Text

unfoldable pub file_title : Backend → FileForm → Text
file_title back form =
    let title = trim_space form.title in
    if same title [] then take (length form.name - length (back.ext form.name)) form.name else title

unfoldable pub upload_bytes :
    Backend → Caller → Text → FileForm → Text → Answer Text → Store → Replied × Store
upload_bytes back c workspace form doc_type (err e) s =
    (refused 500 (codes "failed to read file"), s)
upload_bytes back c workspace form doc_type (ok bytes) s =
    if length bytes == 0
    then (refused 400 (codes "empty file"), s)
    else if back.save_fails
    then (refused 500 (codes "failed to save file"), s)
    else insert_and_index back workspace
        (new_document back c workspace (file_title back form) doc_type bytes)
        (save_knowledge_file back workspace doc_type bytes s)

unfoldable pub upload_typed :
    Backend → Caller → Text → FileForm → Option Text → Store → Replied × Store
upload_typed back c workspace form none s = (refused 400 (codes "unsupported file type"), s)
upload_typed back c workspace form (some doc_type) s =
    upload_bytes back c workspace form doc_type form.bytes s

unfoldable pub upload_form : Backend → Caller → Text → Option FileForm → Store → Replied × Store
upload_form back c workspace none s = (refused 400 (codes "missing file field"), s)
upload_form back c workspace (some form) s =
    upload_typed back c workspace form (doc_type_from_ext (to_lower (back.ext form.name))) s

-- `UploadKnowledgeDocFromFile`; the form is `none` where it has no file
unfoldable pub upload_knowledge_doc_from_file :
    Backend → Caller → Text → Bool → Option FileForm → Store → Replied × Store
upload_knowledge_doc_from_file back c workspace parses form s =
    if not (same workspace c.workspace_id)
    then (refused 403 (codes "workspace mismatch"), s)
    else if not parses
    then (refused 400 (codes "file too large or parse failed"), s)
    else upload_form back c workspace form s

-- `DownloadKnowledgeDoc`
unfoldable pub serve_file : Text → Option Text → Replied
serve_file name none = refused 404 (codes "file not available")
serve_file name (some bytes) = served name bytes

unfoldable pub download_doc : Backend → Text → Option Document → Store → Replied
download_doc back id none s = refused 404 (codes "document not found")
download_doc back id (some d) s =
    serve_file (d.title ++ ext_from_doc_type d.doc_type)
      (lookup (file_path back d.workspace_id id d.doc_type) s.files)

unfoldable pub download_knowledge_doc : Backend → Text → Store → Replied
download_knowledge_doc back id s =
    if back.select_fails
    then refused 404 (codes "document not found")
    else download_doc back id (lookup id s.docs) s
