-- ===== src/Config/Tests.antt =====
-- The configuration on a disk that holds the text of the file, if there is one. A text is the name
-- of the application, and an empty one is no JSON.
use life_stream_go_mqtt_brok.Config.Cached.{get_config-get_config}
use life_stream_go_mqtt_brok.Config.FirstStart.{read_config-created, ConfigLaws}
use life_stream_go_mqtt_brok.Prelude.{
  [], false, Option, some, none, List, ◌∷◌, ◌≡◌, ℕ, not, length, ◌==◌, refl, Bool, true, sym, ap,
}
use life_stream_go_mqtt_brok.Config.{
  DatabaseConfig, Config, ConfigServices, ConfigState, get_config, read_config, file_created,
  invalid_json, Access, OpenFlags, read_only, write_only, read_write,
}

abbrev no_database : DatabaseConfig
no_database = record {
  host = [];
  port = 0;
  username = [];
  password = [];
  database = [];
  use_tls = false;
  connect_timeout = [];
  socket_timeout = [];
  connect_idle_timeout = [];
  operation_timeout = [];
  heartbeat = [];
  min_pool_size = 0;
  max_pool_size = 0;
}

abbrev pub zero_config : Config
zero_config = record {
  database = no_database;
  debug_mode = false;
  app_name = [];
  app_port = 0;
  grpc_port = 0;
}

-- A file is the access it was opened with. Only one for writing changes the text.
abbrev written_by : Option Access → List ℕ → Option (List ℕ) → Option (List ℕ)
written_by none text d = d
written_by (some read_only) text d = d
written_by (some write_only) text d = some text
written_by (some read_write) text d = some text

abbrev made : Bool → Access → Option Access × Option (List ℕ)
made true a = (some a, some [])
made false a = (none, none)

abbrev opened_on : OpenFlags → Option (List ℕ) → Option Access × Option (List ℕ)
opened_on flags (some text) = (some flags.access, some text)
opened_on flags none = made flags.create flags.access

abbrev texts : ConfigServices
texts = record {
  Disk = Option (List ℕ);
  File = Access;
  read_file = λ d. d;
  open_file = opened_on;
  write_file = written_by;
  close_file = λ f d. d;
  marshal = λ c. c.app_name;
  unmarshal = λ text c. (not (length text == 0), record c { app_name = text });
}

abbrev is_there : Option (List ℕ) → Bool
is_there none = false
is_there (some text) = true

texts-missing : (d : Option (List ℕ)) → is_there d ≡ false → d ≡ none
texts-missing none e = refl
texts-missing (some text) e = absurd (cc e)

some_of : Option Access → Access → Access
some_of none d = d
some_of (some a) d = a

texts-opened_mode :
    (flags : OpenFlags) (d : Option (List ℕ)) (f : Access)
    → (opened_on flags d).0 ≡ some f
    → f ≡ flags.access
unfolding some_of
texts-opened_mode flags (some text) f e = sym (ap (λ o. some_of o f) e)
texts-opened_mode flags none f e = by_create flags.create e
  where
    by_create : (b : Bool) → (made b flags.access).0 ≡ some f → f ≡ flags.access
    by_create true e = sym (ap (λ o. some_of o f) e)
    by_create false e = absurd (cc e)

texts-created_empty :
    (flags : OpenFlags) (d : Option (List ℕ)) (f : Access)
    → flags.create ≡ true
    → is_there d ≡ false
    → (opened_on flags d).0 ≡ some f
    → (opened_on flags d).1 ≡ some []
texts-created_empty flags (some text) f create e opens = absurd (cc e)
texts-created_empty flags none f create e opens = rw create refl

texts-write_refused :
    (f : Access) (text : List ℕ) (d : Option (List ℕ))
    → f ≡ read_only
    → written_by (some f) text d ≡ d
texts-write_refused f text d e = rw e refl

abbrev texts-ConfigLaws : ConfigLaws texts
texts-ConfigLaws = record {
  exists = is_there;
  mode = λ f. f;
  missing = texts-missing;
  opened_mode = texts-opened_mode;
  created_empty = texts-created_empty;
  write_refused = texts-write_refused;
  close_keeps = λ f d. refl;
  empty_refused = λ c. refl;
}

abbrev unread : ConfigState
unread = record { config = zero_config; initialized = false }

get_config-get_config_example :
    get_config texts (get_config texts unread (some (b'n' ∷ []))).state none ≡ record {
      config = (get_config texts unread (some (b'n' ∷ []))).config;
      failure = none;
      state = (get_config texts unread (some (b'n' ∷ []))).state;
      disk = none;
    }
unfolding get_config read_config
get_config-get_config_example = get_config-get_config texts unread (some (b'n' ∷ [])) none refl

read_config-created_example :
    (let a = read_config texts unread none in
      (a.failure ≡ some file_created)
      × (texts.read_file a.disk ≡ some [])
      × ((read_config texts a.state a.disk).failure ≡ some invalid_json))
read_config-created_example =
    read_config-created texts texts-ConfigLaws unread none read_only refl refl
