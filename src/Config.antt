-- ===== src/Config.antt =====
-- internal/config/config.go: the configuration file, which is read once. The global variables
-- `config` and `initialized` are the state.
use life_stream_go_mqtt_brok.Prelude.{List, Bool, Option, if◌then◌else◌, ℕ, some, none, false, true}
pub mod Cached
pub mod FirstStart
pub mod Tests

pub record DatabaseConfig : Type 0 where
  pub host : List ℕ
  pub port : ℕ
  pub username : List ℕ
  pub password : List ℕ
  pub database : List ℕ
  pub use_tls : Bool
  pub connect_timeout : List ℕ
  pub socket_timeout : List ℕ
  pub connect_idle_timeout : List ℕ
  pub operation_timeout : List ℕ
  pub heartbeat : List ℕ
  pub min_pool_size : ℕ
  pub max_pool_size : ℕ

-- A port of the application is an int that is not negative here.
pub record Config : Type 0 where
  pub database : DatabaseConfig
  pub debug_mode : Bool
  pub app_name : List ℕ
  pub app_port : ℕ
  pub grpc_port : ℕ

-- The flags of `os.OpenFile`: the access, and `os.O_CREATE`.
pub data Access : Type 0 where
  read_only write_only read_write : Access

pub record OpenFlags : Type 0 where
  pub access : Access
  pub create : Bool

-- The file "config.json" and encoding/json. `open_file` returns nil with an error; a write to nil, or
-- a close, is an error too. `unmarshal` fills the configuration that it is given, as far as it comes,
-- and says whether there was no error.
pub record ConfigServices : Type 1 where
  pub Disk : Type 0
  pub File : Type 0
  pub read_file : Disk → Option (List ℕ)
  pub open_file : OpenFlags → Disk → Option File × Disk
  pub write_file : Option File → List ℕ → Disk → Disk
  pub close_file : Option File → Disk → Disk
  pub marshal : Config → List ℕ
  pub unmarshal : List ℕ → Config → Bool × Config

pub data ConfigError : Type 0 where
  file_created invalid_json : ConfigError

pub record ConfigState : Type 0 where
  pub config : Config
  pub initialized : Bool

module _ (cs : ConfigServices) where
  -- The configuration with the error, if there is one.
  pub record Answer : Type 0 where
    pub config : Config
    pub failure : Option ConfigError
    pub state : ConfigState
    pub disk : cs.Disk

  abbrev pub parsed : Bool × Config → ConfigState → cs.Disk → Answer
  parsed (false, c) s d = record {
    config = c;
    failure = some invalid_json;
    state = record s { config = c };
    disk = d;
  }
  parsed (true, c) s d = record {
    config = c;
    failure = none;
    state = record { config = c; initialized = true };
    disk = d;
  }

  -- `os.O_RDONLY|os.O_CREATE`
  abbrev pub config_flags : OpenFlags
  config_flags = record { access = read_only; create = true }

  -- The errors of opening, writing and closing are dropped.
  abbrev pub default_written : Config → Option cs.File × cs.Disk → cs.Disk
  default_written c (writer, d) = cs.close_file writer (cs.write_file writer (cs.marshal c) d)

  abbrev pub read_as : Option (List ℕ) → ConfigState → cs.Disk → Answer
  read_as none s d = record {
    config = s.config;
    failure = some file_created;
    state = s;
    disk = default_written s.config (cs.open_file config_flags d);
  }
  read_as (some bytes) s d = parsed (cs.unmarshal bytes s.config) s d

  unfoldable pub read_config : ConfigState → cs.Disk → Answer
  read_config s d = read_as (cs.read_file d) s d

  unfoldable pub get_config : ConfigState → cs.Disk → Answer
  get_config s d =
      if s.initialized
      then record { config = s.config; failure = none; state = s; disk = d }
      else read_config s d
