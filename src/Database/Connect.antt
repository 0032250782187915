-- ===== src/Database/Connect.antt =====
-- internal/database/database.go: `ConnectDatabase`, on a database that is a parameter.
use life_stream_go_mqtt_brok.Utils.{parse_string_time}
use life_stream_go_mqtt_brok.Database.Types.{
  session_collection_name, subscription_collection_name, collections_list,
}
use life_stream_go_mqtt_brok.Config.{DatabaseConfig, ConfigError, Config}
use life_stream_go_mqtt_brok.Prelude.{
  List, Bool, Option, ℕ, ◌∷◌, some, false, [], none, bytes_eq, true, if◌then◌else◌, ◌||◌, ◌++◌,
}
pub mod Collections
mod Tests

-- What the client is told. A duration is an int64 of nanoseconds, as `ParseStringTime` gives it.
pub record ClientOptions : Type 0 where
  pub url : List ℕ
  pub app_name : List ℕ
  pub min_pool_size : ℕ
  pub max_pool_size : ℕ
  pub max_conn_idle_time : ℕ
  pub connect_timeout : ℕ
  pub socket_timeout : ℕ
  pub heartbeat_interval : ℕ
  pub tls : Bool

pub record Index : Type 0 where
  pub keys : List ℕ
  pub unique : Bool
  pub name : List ℕ

-- The driver of MongoDB: `false` and `none` are errors. `query_escape` and `decimal_text` are
-- `url.QueryEscape` and `%d`. `callback` is what
-- `Cleaner.Add` does with the callback that closes the connection.
pub record Driver : Type 1 where
  pub World : Type 0
  pub query_escape : List ℕ → List ℕ
  pub decimal_text : ℕ → List ℕ
  pub connect : ClientOptions → World → Bool × World
  pub ping : World → Bool × World
  pub disconnect : World → World
  pub list_collections : List ℕ → World → Option (List (List ℕ)) × World
  pub create_collection : List ℕ → World → Bool × World
  pub drop_indexes : List ℕ → World → Bool × World
  pub create_indexes : List ℕ → List Index → World → Bool × World
  pub callback : World → World

pub data ConnectError : Type 0 where
  reading_config : ConfigError → ConnectError
  connecting pinging listing : ConnectError
  creating : List ℕ → ConnectError
  dropping indexing : ConnectError

-- `slices.Contains`
unfoldable pub contains_name : List ℕ → List (List ℕ) → Bool
contains_name x [] = false
contains_name x (y ∷ ys) = bytes_eq y x || contains_name x ys

abbrev pub client_options : (List ℕ) → Config → ClientOptions
client_options url c = record {
  url = url;
  app_name = c.app_name;
  min_pool_size = c.database.min_pool_size;
  max_pool_size = c.database.max_pool_size;
  max_conn_idle_time = parse_string_time c.database.connect_idle_timeout;
  connect_timeout = parse_string_time c.database.connect_timeout;
  socket_timeout = parse_string_time c.database.socket_timeout;
  heartbeat_interval = parse_string_time c.database.heartbeat;
  tls = c.database.use_tls;
}

-- The indexes of the two collections.
abbrev pub session_indexes : List Index
session_indexes =
    record {
      keys = b'c' ∷ b'l' ∷ b'i' ∷ b'e' ∷ b'n' ∷ b't' ∷ b'_' ∷ b'i' ∷ b'd' ∷ [];
      unique = true;
      name =
          b's' ∷ b'e' ∷ b's' ∷ b's' ∷ b'i' ∷ b'o' ∷ b'n' ∷ b's' ∷ b'_' ∷ b'c' ∷ b'l' ∷ b'i' ∷ b'e'
          ∷ b'n' ∷ b't' ∷ b'_' ∷ b'i' ∷ b'd' ∷ b'_' ∷ b'u' ∷ b'n' ∷ b'i' ∷ b'q' ∷ b'u' ∷ b'e' ∷ [];
    }
    ∷ []

abbrev pub subscription_indexes : List Index
subscription_indexes =
    record {
      keys = b'p' ∷ b'a' ∷ b't' ∷ b'h' ∷ [];
      unique = true;
      name =
          b's' ∷ b'u' ∷ b'b' ∷ b's' ∷ b'c' ∷ b'r' ∷ b'i' ∷ b'p' ∷ b't' ∷ b'i' ∷ b'o' ∷ b'n' ∷ b's'
          ∷ b'_' ∷ b'p' ∷ b'a' ∷ b't' ∷ b'h' ∷ b'_' ∷ b'u' ∷ b'n' ∷ b'i' ∷ b'q' ∷ b'u' ∷ b'e' ∷ [];
    }
    ∷ record {
      keys = b'_' ∷ b'i' ∷ b'd' ∷ [];
      unique = false;
      name =
          b's' ∷ b'u' ∷ b'b' ∷ b's' ∷ b'c' ∷ b'r' ∷ b'i' ∷ b'p' ∷ b't' ∷ b'i' ∷ b'o' ∷ b'n' ∷ b's'
          ∷ b'_' ∷ b'i' ∷ b'd' ∷ b'_' ∷ b'u' ∷ b'n' ∷ b'i' ∷ b'q' ∷ b'u' ∷ b'e' ∷ [];
    }
    ∷ []

module _ (dr : Driver) where
  abbrev pub database_url : DatabaseConfig → List ℕ
  database_url c =
      (b'm' ∷ b'o' ∷ b'n' ∷ b'g' ∷ b'o' ∷ b'd' ∷ b'b' ∷ b':' ∷ b'/' ∷ b'/' ∷ [])
      ++ dr.query_escape c.username
      ++ b':' ∷ dr.query_escape c.password
      ++ b'@' ∷ c.host
      ++ b':' ∷ dr.decimal_text c.port
      ++ b'/' ∷ b'?' ∷ b'a' ∷ b'u' ∷ b't' ∷ b'h' ∷ b'S' ∷ b'o' ∷ b'u' ∷ b'r' ∷ b'c' ∷ b'e' ∷ b'='
        ∷ b'a' ∷ b'd' ∷ b'm' ∷ b'i' ∷ b'n' ∷ []

  -- A call with an error ends `ConnectDatabase` with an error of its own.
  abbrev pub or_fail :
      ConnectError
      → Bool × dr.World
      → (dr.World → Option ConnectError × dr.World)
      → Option ConnectError × dr.World
  or_fail e (false, w) next = (some e, w)
  or_fail e (true, w) next = next w

  -- The loop that creates the collections that are not listed.
  unfoldable pub create_missing :
      List (List ℕ) → List (List ℕ) → dr.World → Option ConnectError × dr.World
  create_missing listed [] w = (none, w)
  create_missing listed (c ∷ cs) w =
      if contains_name c listed
      then create_missing listed cs w
      else or_fail (creating c) (dr.create_collection c w) (create_missing listed cs)

  -- The error of the index of the sessions is overwritten by the next call's.
  abbrev pub index_all : dr.World → Option ConnectError × dr.World
  index_all w = or_fail dropping (dr.drop_indexes session_collection_name w) λ w1.
      or_fail dropping (dr.drop_indexes subscription_collection_name w1) λ w2.
        let (session_done, w3) = dr.create_indexes session_collection_name session_indexes w2 in
        or_fail indexing (dr.create_indexes subscription_collection_name subscription_indexes w3)
          λ w4. (none, dr.callback w4)

  abbrev pub after_creation : Option ConnectError × dr.World → Option ConnectError × dr.World
  after_creation (some e, w) = (some e, w)
  after_creation (none, w) = index_all w

  abbrev pub with_listed : Option (List (List ℕ)) × dr.World → Option ConnectError × dr.World
  with_listed (none, w) = (some listing, w)
  with_listed (some listed, w) = after_creation (create_missing listed collections_list w)

  abbrev pub after_ping : Config → Bool × dr.World → Option ConnectError × dr.World
  after_ping c (false, w) = (some pinging, dr.disconnect w)
  after_ping c (true, w) = with_listed (dr.list_collections c.database.database w)

  -- The error, if there is one, and `OperationTimeout` then, which was `timeout` before.
  unfoldable pub connect_database :
      Config → Option ConfigError → ℕ → dr.World → ℕ × Option ConnectError × dr.World
  connect_database c (some e) timeout w = (timeout, some (reading_config e), w)
  connect_database c none timeout w =
      let (failure, w') =
        or_fail connecting (dr.connect (client_options (database_url c.database) c) w)
          (λ w1. after_ping c (dr.ping w1)) in
      (parse_string_time c.database.operation_timeout, failure, w')
