-- ===== src/Config.antt =====
-- internal/infrastructure/config/config.go. A duration is a number of nanoseconds, an int a word
-- below 2 ^ 64; the environment and the parsers of strconv and time are the record `Environment`.
use go_agent_api.Base.{ℕ, ◌*◌, String, Bool, true, Option, none, some, str_eq, if◌then◌else◌}
use Prim.Native.String.{◌++◌}

pub record ServerConfig : Type 0 where
  pub port : String
  pub host : String
  pub read_timeout : ℕ
  pub write_timeout : ℕ
  pub idle_timeout : ℕ
  pub shutdown_timeout : ℕ

pub record DatabaseConfig : Type 0 where
  pub host : String
  pub port : String
  pub user : String
  pub password : String
  pub name : String
  pub ssl_mode : String
  pub max_open_conns : ℕ
  pub max_idle_conns : ℕ
  pub conn_max_lifetime : ℕ
  pub conn_max_idle_time : ℕ

-- DSN
unfoldable pub dsn : DatabaseConfig → String
dsn c =
    "host=" ++ c.host ++ " port=" ++ c.port ++ " user=" ++ c.user ++ " password=" ++ c.password
    ++ " dbname=" ++ c.name ++ " sslmode=" ++ c.ssl_mode

pub record RedisConfig : Type 0 where
  pub host : String
  pub port : String
  pub password : String
  pub db : ℕ
  pub pool_size : ℕ
  pub min_idle_conns : ℕ

-- Addr
unfoldable pub addr : RedisConfig → String
addr c = c.host ++ ":" ++ c.port

pub record JwtConfig : Type 0 where
  pub secret : String
  pub access_token_ttl : ℕ
  pub refresh_token_ttl : ℕ

pub record RateLimitConfig : Type 0 where
  pub requests_per_minute : ℕ
  pub requests_per_day : ℕ
  pub enabled : Bool

pub record LlmConfig : Type 0 where
  pub provider : String
  pub base_url : String
  pub api_key : String
  pub default_model : String

pub record ToolsConfig : Type 0 where
  pub web_search_api_key : String
  pub max_concurrent : ℕ

pub record Config : Type 0 where
  pub server : ServerConfig
  pub database : DatabaseConfig
  pub redis : RedisConfig
  pub jwt : JwtConfig
  pub rate_limit : RateLimitConfig
  pub llm : LlmConfig
  pub tools : ToolsConfig

pub record Environment : Type 0 where
  -- os.Getenv: the empty text where the variable is not set
  pub getenv : String → String
  -- strconv.Atoi, strconv.ParseBool and time.ParseDuration: none where the code sees an error
  pub atoi : String → Option ℕ
  pub parse_bool : String → Option Bool
  pub parse_duration : String → Option ℕ

abbrev pub second : ℕ
second = 1000000000

module _ (env : Environment) where
  -- getEnv
  unfoldable pub get_env : String → String → String
  get_env key default = let value = env.getenv key in if str_eq value "" then default else value

  module _ {A : Type 0} where
    abbrev parsed_or : A → Option A → A
    parsed_or default none = default
    parsed_or default (some a) = a

    -- getInt, getBool and getDuration, by the parser that each calls
    unfoldable pub get_parsed : (String → Option A) → String → A → A
    get_parsed parse key default =
        let value = env.getenv key in
        if str_eq value "" then default else parsed_or default (parse value)

  -- Load
  unfoldable pub load : Config
  unfolding get_env get_parsed
  load = record {
    server = record {
      port = get_env "SERVER_PORT" "8080";
      host = get_env "SERVER_HOST" "0.0.0.0";
      read_timeout = get_parsed env.parse_duration "SERVER_READ_TIMEOUT" (30 * second);
      write_timeout = get_parsed env.parse_duration "SERVER_WRITE_TIMEOUT" (30 * second);
      idle_timeout = get_parsed env.parse_duration "SERVER_IDLE_TIMEOUT" (120 * second);
      shutdown_timeout = get_parsed env.parse_duration "SERVER_SHUTDOWN_TIMEOUT" (30 * second);
    };
    database = record {
      host = get_env "DB_HOST" "localhost";
      port = get_env "DB_PORT" "5432";
      user = get_env "DB_USER" "postgres";
      password = get_env "DB_PASSWORD" "postgres";
      name = get_env "DB_NAME" "aiagent";
      ssl_mode = get_env "DB_SSL_MODE" "disable";
      max_open_conns = get_parsed env.atoi "DB_MAX_OPEN_CONNS" 25;
      max_idle_conns = get_parsed env.atoi "DB_MAX_IDLE_CONNS" 5;
      conn_max_lifetime = get_parsed env.parse_duration "DB_CONN_MAX_LIFETIME" (5 * 60 * second);
      conn_max_idle_time = get_parsed env.parse_duration "DB_CONN_MAX_IDLE_TIME" (5 * 60 * second);
    };
    redis = record {
      host = get_env "REDIS_HOST" "localhost";
      port = get_env "REDIS_PORT" "6379";
      password = get_env "REDIS_PASSWORD" "";
      db = get_parsed env.atoi "REDIS_DB" 0;
      pool_size = get_parsed env.atoi "REDIS_POOL_SIZE" 10;
      min_idle_conns = get_parsed env.atoi "REDIS_MIN_IDLE_CONNS" 5;
    };
    jwt = record {
      secret = get_env "JWT_SECRET" "change-me-in-production-please";
      access_token_ttl = get_parsed env.parse_duration "JWT_ACCESS_TTL" (15 * 60 * second);
      refresh_token_ttl = get_parsed env.parse_duration "JWT_REFRESH_TTL" (7 * 24 * 3600 * second);
    };
    rate_limit = record {
      requests_per_minute = get_parsed env.atoi "RATE_LIMIT_PER_MINUTE" 60;
      requests_per_day = get_parsed env.atoi "RATE_LIMIT_PER_DAY" 10000;
      enabled = get_parsed env.parse_bool "RATE_LIMIT_ENABLED" true;
    };
    llm = record {
      provider = get_env "LLM_PROVIDER" "litellm";
      base_url = get_env "LLM_BASE_URL" "http://localhost:4000";
      api_key = get_env "LLM_API_KEY" "";
      default_model = get_env "LLM_DEFAULT_MODEL" "gpt-4o-mini";
    };
    tools = record {
      web_search_api_key = get_env "WEB_SEARCH_API_KEY" "";
      max_concurrent = get_parsed env.atoi "TOOLS_MAX_CONCURRENT" 10;
    };
  }
