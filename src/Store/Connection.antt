-- ===== src/Store/Connection.antt =====
-- connection.go of internal/infrastructure/persistence/postgres and redis. The drivers are the
-- records `Pgx` and `GoRedis`.
use go_agent_api.Base.{ℕ, ◌+◌, ◌-◌, ◌%◌, ◌^◌, String, ltb, if◌then◌else◌}
use go_agent_api.Base.Exec.{Exec, wrap_error, pure, ◌>>=◌, ◌>>◌}
use go_agent_api.Config.{DatabaseConfig, RedisConfig, dsn, addr}

-- pgxpool.Config, its fields that are set
pub record PoolConfig (P : Type 0) : Type 0 where
  pub parsed : P
  pub max_conns : ℕ
  pub min_conns : ℕ
  pub max_conn_lifetime : ℕ
  pub max_conn_idle_time : ℕ

-- `P` is a parsed configuration, `C` a pool and `S` the state of the world outside.
pub record Pgx (P C S : Type 0) : Type 0 where
  pub parse_config : String → Exec S P
  pub new_with_config : PoolConfig P → Exec S C
  pub ping : C → Exec S (Unit {0})

-- `int32(n)`: the lower 32 bits, as a word of 64 bits with the sign of the 32
unfoldable pub int32 : ℕ → ℕ
int32 n = let low = n % 2 ^ 32 in if ltb low (2 ^ 31) then low else 2 ^ 64 - 2 ^ 32 + low

module _ {P C S : Type 0} (pgx : Pgx P C S) where
  -- NewConnection of PostgreSQL
  unfoldable pub new_pool_connection : DatabaseConfig → Exec S C
  unfolding dsn int32 ◌>>=◌
  new_pool_connection cfg = do
    parsed ← wrap_error "parse config" (pgx.parse_config (dsn cfg))
    pool ← wrap_error "create pool" (
        pgx.new_with_config (record {
          parsed = parsed;
          max_conns = int32 cfg.max_open_conns;
          min_conns = int32 cfg.max_idle_conns;
          max_conn_lifetime = cfg.conn_max_lifetime;
          max_conn_idle_time = cfg.conn_max_idle_time;
        }))
    wrap_error "ping" (pgx.ping pool)
    pure pool

-- redis.Options, its fields that are set
pub record RedisOptions : Type 0 where
  pub addr : String
  pub password : String
  pub db : ℕ
  pub pool_size : ℕ
  pub min_idle_conns : ℕ

pub record GoRedis (C S : Type 0) : Type 0 where
  pub new_client : RedisOptions → C
  pub ping : C → Exec S (Unit {0})

module _ {C S : Type 0} (driver : GoRedis C S) where
  -- NewConnection of Redis
  unfoldable pub new_redis_connection : RedisConfig → Exec S C
  unfolding addr ◌>>=◌
  new_redis_connection cfg =
      let client = driver.new_client (record {
        addr = addr cfg;
        password = cfg.password;
        db = cfg.db;
        pool_size = cfg.pool_size;
        min_idle_conns = cfg.min_idle_conns;
      }) in
      do wrap_error "ping" (driver.ping client); pure client
