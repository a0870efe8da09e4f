-- ===== src/Store/Cache.antt =====
-- internal/application/port/cache.go, and internal/infrastructure/persistence/redis/cache.go. The client of Redis is the record `RedisClient`.
use Prim.Native.String.{◌++◌}
use go_agent_api.Base.{ℕ, String, Bool, ltb, Option, none, some}
use go_agent_api.Base.Exec.{Result, Exec, ok, err, message, wrapped, wrap_error, wrap_result}

pub record RedisClient (S : Type 0) : Type 0 where
  -- GET, which gives none where the error is redis.Nil
  pub get : String → Exec S (Option String)
  pub set : String → String → ℕ → Exec S (Unit {0})
  pub del : String → Exec S (Unit {0})
  -- EXISTS, the number of keys
  pub exists : String → Exec S ℕ

module _ {S : Type 0} (client : RedisClient S) where
  abbrev value_of : String → Result (Option String) → Result String
  value_of key (ok (some value)) = ok value
  value_of key (ok none) = err (message ("key not found: " ++ key))
  value_of key (err x) = err (wrapped ("get key " ++ key) x)

  -- Get
  unfoldable pub get : String → Exec S String
  get key s = let (r, s') = client.get key s in (value_of key r, s')

  -- Set
  unfoldable pub set : String → String → ℕ → Exec S (Unit {0})
  unfolding wrap_error
  set key value ttl = wrap_error ("set key " ++ key) (client.set key value ttl)

  -- Delete
  unfoldable pub delete : String → Exec S (Unit {0})
  unfolding wrap_error
  delete key = wrap_error ("delete key " ++ key) (client.del key)

  abbrev is_positive : Result ℕ → Result Bool
  is_positive (ok n) = ok (ltb 0 n)
  is_positive (err x) = err x

  -- Exists
  unfoldable pub exists : String → Exec S Bool
  exists key s =
      let (r, s') = client.exists key s in (is_positive (wrap_result ("exists key " ++ key) r), s')

-- the interface Cache
record CachePort (S : Type 0) : Type 0 where
  pub get : String → Exec S String
  pub set : String → String → ℕ → Exec S (Unit {0})
  pub delete : String → Exec S (Unit {0})
  pub exists : String → Exec S Bool

-- The cache of Redis implements it: NewCache.
new_cache : {S : Type 0} → RedisClient S → CachePort S
unfolding get set delete exists
new_cache client = record {
  get = get client;
  set = set client;
  delete = delete client;
  exists = exists client;
}
