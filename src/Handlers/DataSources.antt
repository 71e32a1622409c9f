-- ===== src/Handlers/DataSources.antt =====
-- internal/handlers/datasources.go: the external databases of a workspace. What the database, Redis and the
-- server of a data source answer during one request is a parameter.
use data_flow_agent_hub.Base.{
  Text, codes, same, trim_space, to_lower, lookup, remove, is_some, ℤ, is_zero, List, [], ◌∷◌, Bool,
  not, ◌||◌, Option, none, some, if◌then◌else◌,
}
use data_flow_agent_hub.Sqlrun.Run.{Answer, ok, err}
use data_flow_agent_hub.Crypto.{Cipher, encrypt, decrypt}
use data_flow_agent_hub.Handlers.Messages.Replies.{Caller}
use data_flow_agent_hub.Handlers.Sessions.{Replied, refused, replied}

-- the row of a data source; its key is the identifier
pub record DataSource : Type 0 where
  pub workspace_id : Text
  pub name : Text
  pub kind : Text
  pub host : Text
  pub port : ℤ
  pub database : Text
  pub username : Text
  pub password : Text
  pub ssl_mode : Text

-- `createDSBody`
pub record DataSourceBody : Type 0 where
  pub name : Text
  pub kind : Text
  pub host : Text
  pub port : ℤ
  pub database : Text
  pub username : Text
  pub password : Text
  pub ssl_mode : Text

pub record Backend : Type 0 where
  pub is_limited : Bool
  pub cipher : Cipher
  pub random : Option Text  -- the nonce
  pub encryption_key : Text
  pub new_id : Text
  pub exec_fails : Bool
  pub select_fails : Bool
  pub ping : DataSource → Text → Answer (Unit {0})  -- with the decrypted password

-- an entry of the list, without the password
pub record Item : Type 0 where
  pub id : Text
  pub name : Text
  pub kind : Text
  pub host : Text
  pub port : ℤ
  pub database : Text
  pub username : Text
  pub has_password : Bool
  pub ssl_mode : Text

unfoldable pub item_of : Text → DataSource → Item
item_of id d = record {
  id = id;
  name = d.name;
  kind = d.kind;
  host = d.host;
  port = d.port;
  database = d.database;
  username = d.username;
  has_password = not (same d.password []);
  ssl_mode = d.ssl_mode;
}

unfoldable pub items_of : Text → List (Text × DataSource) → List Item
items_of workspace [] = []
items_of workspace ((id, d) ∷ sources) =
    let rest = items_of workspace sources in
    if same d.workspace_id workspace then item_of id d ∷ rest else rest

-- `ListDataSources`; the newest row stands first
unfoldable pub list_data_sources : Backend → Caller → List (Text × DataSource) → Replied (List Item)
list_data_sources back c sources =
    if back.select_fails
    then refused 500 (codes "db")
    else replied 200 (items_of c.workspace_id sources)

-- the checks that `CreateDataSource` and `UpdateDataSource` share, up to the encryption
unfoldable pub lacks_field : DataSourceBody → Bool
lacks_field b =
    same b.name [] || same b.host [] || is_zero b.port || same b.database [] || same b.username []

unfoldable pub row_of : Text → DataSourceBody → Text → DataSource
row_of workspace b password = record {
  workspace_id = workspace;
  name = b.name;
  kind = to_lower (trim_space b.kind);
  host = b.host;
  port = b.port;
  database = b.database;
  username = b.username;
  password = password;
  ssl_mode = if same b.ssl_mode [] then codes "disable" else b.ssl_mode;
}

unfoldable pub encrypted_row : Text → DataSourceBody → Answer Text → Replied DataSource
encrypted_row workspace b (err e) = refused 500 (codes "failed to encrypt password")
encrypted_row workspace b (ok password) = replied 200 (row_of workspace b password)

unfoldable pub checked_row : Backend → Text → Option DataSourceBody → Replied DataSource
checked_row back workspace none = refused 400 (codes "invalid json")
checked_row back workspace (some b) =
    if not (same (to_lower (trim_space b.kind)) (codes "mysql"))
    then refused 400 (codes "kind must be mysql")
    else if lacks_field b
    then refused 400 (codes "missing required fields")
    else encrypted_row workspace b (encrypt back.cipher back.random b.password back.encryption_key)

unfoldable pub insert_source :
    Backend
    → Replied DataSource
    → List (Text × DataSource)
    → Replied (Text × Text) × List (Text × DataSource)
insert_source back (refused status e) sources = (refused status e, sources)
insert_source back (replied status d) sources =
    if back.exec_fails || is_some (lookup back.new_id sources)
    then (refused 500 (codes "db"), sources)
    else (replied 201 (back.new_id, d.name), (back.new_id, d) ∷ sources)

-- `CreateDataSource`
unfoldable pub create_data_source :
    Backend
    → Caller
    → Option DataSourceBody
    → List (Text × DataSource)
    → Replied (Text × Text) × List (Text × DataSource)
create_data_source back c body sources =
    if back.is_limited
    then (refused 429 (codes "rate limit"), sources)
    else insert_source back (checked_row back c.workspace_id body) sources

-- the row of an identifier in a workspace
unfoldable pub in_workspace : Text → Option DataSource → Option DataSource
in_workspace workspace none = none
in_workspace workspace (some d) = if same d.workspace_id workspace then some d else none

unfoldable pub replace : Text → DataSource → List (Text × DataSource) → List (Text × DataSource)
replace id d [] = []
replace id d ((j, e) ∷ sources) = (j, if same j id then d else e) ∷ replace id d sources

unfoldable pub set_row :
    Text
    → DataSource
    → Option DataSource
    → List (Text × DataSource)
    → Replied Text × List (Text × DataSource)
set_row id d none sources = (refused 404 (codes "data source not found"), sources)
set_row id d (some old) sources = (replied 200 (codes "ok"), replace id d sources)

unfoldable pub update_source :
    Backend
    → Caller
    → Text
    → Replied DataSource
    → List (Text × DataSource)
    → Replied Text × List (Text × DataSource)
update_source back c id (refused status e) sources = (refused status e, sources)
update_source back c id (replied status d) sources =
    if back.exec_fails
    then (refused 500 (codes "db error"), sources)
    else set_row id d (in_workspace c.workspace_id (lookup id sources)) sources

-- `UpdateDataSource`
unfoldable pub update_data_source :
    Backend
    → Caller
    → Text
    → Option DataSourceBody
    → List (Text × DataSource)
    → Replied Text × List (Text × DataSource)
update_data_source back c id body sources =
    if same id []
    then (refused 400 (codes "missing data source id"), sources)
    else update_source back c id (checked_row back c.workspace_id body) sources

-- `DeleteDataSource`
unfoldable pub delete_row :
    Text → Option DataSource → List (Text × DataSource) → Replied Text × List (Text × DataSource)
delete_row id none sources = (refused 404 (codes "data source not found"), sources)
delete_row id (some d) sources = (replied 200 (codes "ok"), remove id sources)

unfoldable pub delete_data_source :
    Backend → Caller → Text → List (Text × DataSource) → Replied Text × List (Text × DataSource)
delete_data_source back c id sources =
    if same id []
    then (refused 400 (codes "missing data source id"), sources)
    else if back.exec_fails
    then (refused 500 (codes "db error"), sources)
    else delete_row id (in_workspace c.workspace_id (lookup id sources)) sources

-- `TestDataSource`: whether the server answers with the decrypted password, or the error
unfoldable pub ping_with : Backend → DataSource → Answer Text → Replied (Answer (Unit {0}))
ping_with back d (err e) = replied 200 (err (codes "failed to decrypt password"))
ping_with back d (ok password) = replied 200 (back.ping d password)

unfoldable pub test_found : Backend → Option DataSource → Replied (Answer (Unit {0}))
test_found back none = refused 404 (codes "data source not found")
test_found back (some d) = ping_with back d (decrypt back.cipher d.password back.encryption_key)

unfoldable pub test_data_source :
    Backend → Caller → Text → List (Text × DataSource) → Replied (Answer (Unit {0}))
test_data_source back c id sources =
    if back.select_fails
    then refused 404 (codes "data source not found")
    else test_found back (in_workspace c.workspace_id (lookup id sources))
