-- ===== src/Config.antt =====
-- gateway/internal/config/config.go: the configuration, which is loaded once.
-- viper is outside: `Viper` has what its getters answer by key, which is the value of the environment,
-- of the file or of `SetDefault`. Its float64 is the parameter `F`. Whether the file can be read changes
-- nothing here, since the error is dropped. The goroutines that wait for sync.Once have no model.
pub mod Once
use Prim.Native.String.{String}
use multi_terminal.Base.{Bool, true, false, Option, none, some, if◌then◌else◌}
use multi_terminal.Base.Int.{ℤ}
use multi_terminal.Base.Outcome.{Outcome, ret, panic}

pub record ServerConfig : Type 0 where
  pub port : ℤ
  pub read_timeout : ℤ
  pub write_timeout : ℤ
  pub idle_timeout : ℤ

pub record RedisConfig : Type 0 where
  pub addr : String
  pub password : String
  pub db : ℤ

pub record ResourceConfig (F : Type 0) : Type 0 where
  pub max_fd_limit : F
  pub fd_danger_ratio : F
  pub max_sessions : ℤ
  pub max_sessions_per_user : ℤ

pub record Config (F : Type 0) : Type 0 where
  pub server_config : ServerConfig
  pub redis_config : RedisConfig
  pub resource_config : ResourceConfig F

pub record Viper (F : Type 0) : Type 0 where
  pub get_int : String → ℤ
  pub get_string : String → String
  pub get_float : String → F

-- The package's variables: whether `once` is done, and `cfg`.
pub record Loader (F : Type 0) : Type 0 where
  pub done : Bool
  pub cfg : Option (Config F)

module _ {F : Type 0} where
  unfoldable pub not_loaded : Loader F
  not_loaded = record { done = false; cfg = none }

  unfoldable pub config_from : Viper F → Config F
  config_from v =
      let server : ServerConfig = record {
        port = v.get_int "server.port";
        read_timeout = v.get_int "server.read_timeout";
        write_timeout = v.get_int "server.write_timeout";
        idle_timeout = v.get_int "server.idle_timeout";
      } in
      let redis : RedisConfig = record {
        addr = v.get_string "redis.addr";
        password = v.get_string "redis.password";
        db = v.get_int "redis.db";
      } in
      let limits : ResourceConfig F = record {
        max_fd_limit = v.get_float "resource.max_fd_limit";
        fd_danger_ratio = v.get_float "resource.fd_danger_ratio";
        max_sessions = v.get_int "resource.max_sessions";
        max_sessions_per_user = v.get_int "resource.max_sessions_per_user";
      } in
      record { server_config = server; redis_config = redis; resource_config = limits }

  -- `Load`, whose error is nil.
  unfoldable pub load : Loader F → Viper F → Loader F
  load l v = if l.done then l else record { done = true; cfg = some (config_from v) }

  -- `Get`
  unfoldable pub get_from : Option (Config F) → Outcome (Config F)
  get_from none = panic
  get_from (some cfg) = ret cfg

  unfoldable pub get_config : Loader F → Outcome (Config F)
  get_config l = get_from l.cfg
