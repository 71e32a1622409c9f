-- ===== src/Config.antt =====
-- internal/config/config.go: the settings that `Load` reads from the environment and `Validate` checks.
-- A duration is a number of nanoseconds; `time.ParseDuration`, `strconv.ParseInt` and `os.TempDir` are parameters.
use data_flow_agent_hub.Base.{
  ℕ, ◌*◌, Text, codes, same, contains, length, ltb, ℤ, pos, is_positive, is_negative, List, [], ◌∷◌,
  ◌++◌, Bool, true, false, not, ◌&&◌, ◌||◌, Option, none, some, if◌then◌else◌,
}

pub record Config : Type 0 where
  pub http_addr : Text
  pub grpc_addr : Text
  pub redis_addr : Text
  pub jwt_secret : Text
  pub seed_email : Text
  pub seed_password : Text
  pub nl2sql_target : Text
  pub llm_base_url : Text
  pub llm_model : Text
  pub llm_api_key : Text
  pub llm_timeout : ℤ
  pub approval_ttl : ℤ
  pub query_max_rows : ℤ
  pub query_timeout : ℤ
  pub schema_cache_ttl : ℤ
  pub schema_max_tables : ℤ
  pub schema_max_columns_per_table : ℤ
  pub db_encryption_key : Text
  pub reports_dir : Text
  pub knowledge_files_dir : Text
  pub otel_exporter_endpoint : Text
  pub env : Text
  pub nats_url : Text
  pub rate_limit_fail_closed : Bool
  pub grpc_ca_cert : Text
  pub grpc_server_cert : Text
  pub grpc_server_key : Text
  pub grpc_client_cert : Text
  pub grpc_client_key : Text
  pub mysql_host : Text
  pub mysql_port : ℤ
  pub mysql_root_user : Text
  pub mysql_root_pass : Text
  pub mysql_platform_db : Text

-- the checks of `Validate`, which are the texts of its errors
pub data Complaint : Type 0 where
  short_secret http_port grpc_port redis_port timeout_zero rows_zero no_key cache_negative :
      Complaint
  tables_zero columns_zero unknown_env short_api_key : Complaint

unfoldable pub complain : Bool → Complaint → List Complaint
complain true e = e ∷ []
complain false e = []

-- an address that is set and has no port
unfoldable pub lacks_port : Text → Bool
lacks_port addr = not (same addr []) && not (contains addr (codes ":"))

unfoldable pub is_env : Text → Bool
is_env env =
    same env (codes "development") || same env (codes "staging") || same env (codes "production")

-- `Validate`: the errors that it joins
unfoldable pub validate : Config → List Complaint
validate c =
    complain (ltb (length c.jwt_secret) 16) short_secret
    ++ (complain (lacks_port c.http_addr) http_port
        ++ (complain (lacks_port c.grpc_addr) grpc_port
            ++ (complain (lacks_port c.redis_addr) redis_port
                ++ (complain (not (is_positive c.query_timeout)) timeout_zero
                    ++ (complain (not (is_positive c.query_max_rows)) rows_zero
                        ++ (complain (same c.db_encryption_key []) no_key
                            ++ (complain (is_negative c.schema_cache_ttl) cache_negative
                                ++ (complain (not (is_positive c.schema_max_tables)) tables_zero
                                    ++ (complain (not (is_positive c.schema_max_columns_per_table))
                                          columns_zero
                                        ++ (complain (not (is_env c.env)) unknown_env
                                            ++ complain
                                                (not (same c.llm_api_key [])
                                                  && ltb (length c.llm_api_key) 8)
                                                short_api_key))))))))))

-- the environment (a variable that is not set is empty) and what parses its texts
pub record Environment : Type 0 where
  pub value : Text → Text
  pub parse_duration : Text → Option ℤ
  pub parse_int32 : Text → Option ℤ
  pub temp_dir : Text

unfoldable pub getenv : Environment → Text → Text → Text
getenv e key default = let v = e.value key in if same v [] then default else v

unfoldable pub parsed : Option ℤ → ℤ → ℤ
parsed none default = default
parsed (some n) default = n

-- `mustDur` and `mustInt32`
unfoldable pub must_dur : Environment → Text → ℤ → ℤ
must_dur e key default =
    let v = e.value key in if same v [] then default else parsed (e.parse_duration v) default

unfoldable pub must_int32 : Environment → Text → ℤ → ℤ
must_int32 e key default =
    let v = e.value key in if same v [] then default else parsed (e.parse_int32 v) default

-- `n * time.Second`
unfoldable pub seconds : ℕ → ℤ
seconds n = pos (n * 1000000000)

-- the two errors of `Load`
pub data Loaded : Type 0 where
  loaded : Config → Loaded
  missing : Text → Loaded

unfoldable pub config_of : Environment → Text → Text → Config
config_of e secret key = record {
  http_addr = getenv e (codes "HUB_HTTP_ADDR") (codes ":8080");
  grpc_addr = getenv e (codes "HUB_GRPC_ADDR") (codes ":9090");
  redis_addr = getenv e (codes "HUB_REDIS_ADDR") (codes "localhost:6379");
  jwt_secret = secret;
  seed_email = getenv e (codes "HUB_SEED_EMAIL") (codes "admin@demo.local");
  seed_password = getenv e (codes "HUB_SEED_PASSWORD") (codes "changeme");
  nl2sql_target = getenv e (codes "HUB_NL2SQL_TARGET") (codes "localhost:50051");
  llm_base_url = getenv e (codes "HUB_LLM_BASE_URL") (codes "https://api.openai.com/v1");
  llm_model = getenv e (codes "HUB_LLM_MODEL") (codes "gpt-4o-mini");
  llm_api_key = e.value (codes "HUB_LLM_API_KEY");
  llm_timeout = must_dur e (codes "HUB_LLM_TIMEOUT") (seconds 60);
  approval_ttl = must_dur e (codes "HUB_APPROVAL_TTL") (seconds 86400);
  query_max_rows = must_int32 e (codes "HUB_QUERY_MAX_ROWS") (pos 500);
  query_timeout = must_dur e (codes "HUB_QUERY_TIMEOUT") (seconds 30);
  schema_cache_ttl = must_dur e (codes "HUB_SCHEMA_CACHE_TTL") (seconds 300);
  schema_max_tables = must_int32 e (codes "HUB_SCHEMA_MAX_TABLES") (pos 50);
  schema_max_columns_per_table = must_int32 e (codes "HUB_SCHEMA_MAX_COLUMNS_PER_TABLE") (pos 100);
  db_encryption_key = key;
  reports_dir = getenv e (codes "HUB_REPORTS_DIR") (e.temp_dir ++ codes "/hub-reports/");
  knowledge_files_dir = getenv e (codes "HUB_KNOWLEDGE_FILES_DIR") (codes "/data/knowledge-files");
  otel_exporter_endpoint = e.value (codes "HUB_OTEL_EXPORTER_ENDPOINT");
  env = getenv e (codes "HUB_ENV") (codes "development");
  nats_url = getenv e (codes "HUB_NATS_URL") (codes "nats://localhost:4222");
  rate_limit_fail_closed = same (e.value (codes "HUB_RATELIMIT_FAIL_CLOSED")) (codes "true");
  grpc_ca_cert = e.value (codes "HUB_GRPC_CA_CERT");
  grpc_server_cert = e.value (codes "HUB_GRPC_SERVER_CERT");
  grpc_server_key = e.value (codes "HUB_GRPC_SERVER_KEY");
  grpc_client_cert = e.value (codes "HUB_GRPC_CLIENT_CERT");
  grpc_client_key = e.value (codes "HUB_GRPC_CLIENT_KEY");
  mysql_host = getenv e (codes "HUB_MYSQL_HOST") (codes "localhost");
  mysql_port = must_int32 e (codes "HUB_MYSQL_PORT") (pos 3306);
  mysql_root_user = getenv e (codes "HUB_MYSQL_ROOT_USER") (codes "root");
  mysql_root_pass = e.value (codes "HUB_MYSQL_ROOT_PASSWORD");
  mysql_platform_db = getenv e (codes "HUB_MYSQL_PLATFORM_DB") (codes "hub_platform");
}

-- `Load`
unfoldable pub load : Environment → Loaded
load e =
    let secret = e.value (codes "HUB_JWT_SECRET") in
    let key = e.value (codes "HUB_DB_ENCRYPTION_KEY") in
    if same secret []
    then missing (codes "HUB_JWT_SECRET is required")
    else if same key []
    then missing (codes "HUB_DB_ENCRYPTION_KEY is required (32-byte hex-encoded key)")
    else loaded (config_of e secret key)
