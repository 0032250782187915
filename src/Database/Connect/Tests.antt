-- ===== src/Database/Connect/Tests.antt =====
-- The set-up on a database that is the list of its collections.
use life_stream_go_mqtt_brok.Utils.{parse_string_time, to_lower, cut}
use life_stream_go_mqtt_brok.Database.Types.{
  session_collection_name, collections_list, subscription_collection_name,
  will_message_collection_name,
}
use life_stream_go_mqtt_brok.Config.Tests.{zero_config}
use life_stream_go_mqtt_brok.Database.Connect.Collections.{
  DriverLaws, Ready, connect_database-Ready,
}
use life_stream_go_mqtt_brok.Prelude.{
  List, ℕ, none, bytes_eq, [], Option, true, Bool, ◌∷◌, some, false, ap, ◌≡◌, refl,
}
use life_stream_go_mqtt_brok.Database.Connect.{
  Driver, contains_name, connect_database, create_missing,
}

abbrev names_only : Driver
names_only = record {
  World = List (List ℕ);
  query_escape = λ t. t;
  decimal_text = λ n. [];
  connect = λ o w. (true, w);
  ping = λ w. (true, w);
  disconnect = λ w. w;
  list_collections = λ db w. (some w, w);
  create_collection = λ n w. (true, n ∷ w);
  drop_indexes = λ n w. (true, w);
  create_indexes = λ n is w. (true, w);
  callback = λ w. w;
}

names_only-DriverLaws : DriverLaws names_only
unfolding contains_name
names_only-DriverLaws = record {
  exists = λ w n. contains_name n w;
  listed = λ db w names n e. ap (λ o. in_some n o) e;
  created = λ n m w e. refl;
  dropped = λ n m w. refl;
  indexed = λ n m is w. refl;
  called_back = λ m w. refl;
}
  where
    in_some : List ℕ → Option (List (List ℕ)) → Bool
    in_some n none = false
    in_some n (some names) = contains_name n names

-- Only the sessions are there before.
connect_database-Ready_example :
    (let (timeout, failure, w) =
        connect_database names_only zero_config none 0 (session_collection_name ∷ []) in
      Ready names_only names_only-DriverLaws collections_list (failure, w))
connect_database-Ready_example =
    connect_database-Ready names_only names_only-DriverLaws zero_config none 0
      (session_collection_name ∷ [])

all_there : connect_database names_only zero_config none 0 (session_collection_name ∷ []) ≡ (
  0,
  none,
  subscription_collection_name ∷ will_message_collection_name ∷ session_collection_name ∷ [],
)
unfolding connect_database create_missing contains_name bytes_eq parse_string_time to_lower cut
all_there = refl
