-- ===== src/Lib.antt =====
-- DataFlowAgentHub: the safety core of the Go hub that answers questions in natural language by SQL,
-- imports files into data sets, manages users and runs tasks of a Python worker.
--
-- The program's parts and the files that model them:
--
--   internal/rbac/roles.go            Rbac: the roles, their order and `MinRole`.
--   internal/sqlrun/classify.go       Sqlrun/Lexer: `tokenize` and `IsReadOnlySQL`, with its loop, its
--                                     round trip and the read-only test in the folder of that name;
--                                     Sqlrun/Classify: `ClassifySQL` and `stripParens`.
--   internal/sqlrun/permissions.go    Sqlrun/Permissions: `IsAllowedForRole`, `CheckSystemTableInSQL`.
--   internal/sqlrun/run.go            Sqlrun/Run: `QueryRows` and `ExecuteWrite` on a pool.
--   internal/nl2sqlexec/executor.go   Executor: `Execute`, from a question to a call of the pool.
--   internal/grpcserver/server.go     GrpcServer/Nl2sql: `InternalNL2SQL`; GrpcServer/Tasks: the
--                                     callbacks about tasks, steps and documents.
--   internal/ssebus/bus.go            SseBus: `MemoryBus`, its subscribers, channels and drops.
--   internal/async/task.go            Async: the table of tasks, the watcher and the reaper.
--   internal/mysqlmgr                 Mysqlmgr: the pools of `Manager`; Mysqlmgr/Ddl: `ValidateFields` and
--                                     the statements of ddl.go, which change the databases of a server.
--   internal/schema/discovery.go      Schema: `Discover` and the decoding of its rows.
--   internal/auth, internal/middleware  Auth: tokens, their revocation and the gates of a route.
--   internal/crypto/aes.go            Crypto: `Encrypt` and `Decrypt` of a stored password.
--   internal/config/config.go         Config: the reading and the checks of the settings.
--   internal/ratelimit                Ratelimit: `Allow` on the counters of Redis.
--   internal/llm                      Llm: `Chat` and its tries.
--   internal/migrate                  Migrate: `Up`, which applies the files not yet applied.
--   internal/handlers/auth.go         Handlers/Users: users, roles and requests for a role. Tables has
--                                     the statements, Upgrades the requests, Steps the step relation,
--                                     Changes the specification, Lists the lists.
--   internal/handlers/data.go         Handlers/DataSql: SQL files (Parse) and the SQL terminal
--                                     (Terminal); Handlers/Upload: the import of CSV and XLSX files,
--                                     with their forms in Upload/Files.
--   internal/handlers/datasets.go     Handlers/Datasets: data sets and grants, Databases the two
--                                     handlers with their databases, Lists the lists;
--                                     Handlers/DataSql holds `hasDatasetAccess`, which the terminal, the
--                                     import and the handlers of tables use.
--   internal/handlers/messages.go     Handlers/Messages: `PostMessage`. Runs has the tables of messages
--                                     and runs, Replies the ends of a run, Dataset the schema of a data
--                                     set, Paths the paths of a message.
--   internal/handlers/tables.go       Handlers/Tables: the tables of a data set. Rows has the metadata,
--                                     Create `CreateDatasetTable`.
--   internal/handlers/handlers.go     Handlers/Sessions: sessions, their messages, the state of a task
--                                     (tasks.go) and `Login`; Handlers/Routes: the routes and their gates.
--   internal/handlers/datasources.go  Handlers/DataSources: data sources and their passwords.
--   internal/handlers/reports.go      Handlers/Reports: the download of a report.
--   internal/handlers/knowledge.go    Handlers/Knowledge: documents, their upload and their download.
--
-- How the parts interact: the executor, the terminal and the SQL files classify a statement, pass its
-- gates and then call the two operations of Sqlrun/Run, which add to the log of calls of a pool. The
-- handler of the worker calls the executor without a role. The callbacks and the watcher change
-- the table of tasks and publish to the bus. `PostMessage` opens a run, asks Schema for the schema of its
-- source, calls the executor or enqueues a task of Async, and ends the run with a message and an event.
-- The handlers of tables and data sets change a server through Mysqlmgr, a data source keeps its
-- password through Crypto, and a request comes to a handler through the gates of Auth.
--
-- State and operations: a handler is a function from what the libraries answer, its request and the
-- state to its reply and the next state, with the guards of the source in their order. A table is an
-- association list by its primary key, and an update or a delete changes the row of the key. The
-- calls that reach a database are a log; the answers of the database are a parameter, which may
-- depend on the log. Where handlers interleave, the states are joined by a step relation.
--
-- Texts are lists of bytes, and the functions of Go's package strings are modelled on ASCII text:
-- letter case and white space beyond it are not covered. Go's maps are association lists; where Go
-- ranges over one in an order of its own choice, the order is an argument or is not relied on.
-- Numbers are natural numbers: the counters of rows and drops do not come near the bounds of int64.
--
-- Loops over a text run on the length of the text as fuel: `tokenize`, `stripParens` and
-- `removeBlockComments` shorten the text in each round, so that this fuel is enough.
-- The decimal digits of a number n run on n + 1 rounds.
--
-- Parameters: the gRPC client, the pools and databases, Redis, the JWT library, the cipher, bcrypt, uuid,
-- encoding/json, the readers of CSV and XLSX, the model that compares columns and its HTTP client, the
-- multipart reader, the files and the clock.
--
-- Not modelled: contexts and timeouts of single calls (a call that times out is one that fails),
-- logging, metrics and tracing, HTTP and gRPC encoding, `RedisBus`, NATS, the writing loop of the event
-- stream, `RevokeJWT`, the redaction of errors, the connection to the worker, seed and start-up, the
-- health and version handlers, the Python worker and the web front end.
pub mod Base
pub mod Rbac
pub mod Sqlrun
pub mod Executor
pub mod GrpcServer
pub mod SseBus
pub mod Async
pub mod Mysqlmgr
pub mod Ratelimit
pub mod Llm
pub mod Migrate
pub mod Config
pub mod Crypto
pub mod Auth
pub mod Schema
pub mod Handlers
