-- ===== src/Handlers/Tests.antt =====
-- The handlers on concrete packets.
use life_stream_go_mqtt_brok.Connection.Tests.{logs}
use life_stream_go_mqtt_brok.Database.Types.{Subscription}
use life_stream_go_mqtt_brok.Connection.{ConnectionManager}
use life_stream_go_mqtt_brok.Database.Services.{failed}
use life_stream_go_mqtt_brok.Handlers.Subscribe.Session.{
  requested, mentions, handle_subscribe_packet-requested, handle_un_subscribe_packet-lost,
}
use life_stream_go_mqtt_brok.Handlers.Connect.Resume.{
  Accepts, clean_session_data, handler_connect_packet-resumed, handler_connect_packet-clean,
}
use life_stream_go_mqtt_brok.Prelude.Maps.{lookup, insert}
use life_stream_go_mqtt_brok.Database.Store.{save_session, get_session}
use life_stream_go_mqtt_brok.Database.Tree.Tests.{topic_lists, empty_tree}
use life_stream_go_mqtt_brok.Packet.Connect.{ConnectPacketPayloads, no_field}
use life_stream_go_mqtt_brok.Database.Tests.{maps, store, client_id, session, answer, maps-Laws}
use life_stream_go_mqtt_brok.Database.Session.{new_session_data}
use life_stream_go_mqtt_brok.Handlers.Connect.{handler_connect_packet}
use life_stream_go_mqtt_brok.Prelude.{
  Bool, bytes_eq, ◌∷◌, false, true, [], List, ℕ, ◌≡◌, if◌then◌else◌, ◌≢◌, ◌==◌, none, some, refl,
}
use life_stream_go_mqtt_brok.Handlers.Subscribe.{
  handle_subscribe_packet, handle_un_subscribe_packet,
}
use life_stream_go_mqtt_brok.Handlers.{Broker}
use life_stream_go_mqtt_brok.Packet.Subscribe.{SubscribePacketPayloads, subscription_for}

abbrev requests : SubscribePacketPayloads
requests = record {
  packet_id = 7;
  subscriptions = subscription_for (0x61 ∷ []) 2 ∷ subscription_for (0x61 ∷ []) 0 ∷ [];
}

abbrev broker : Broker maps topic_lists
broker = record { store = store session; tree = empty_tree }

handle_subscribe_packet-requested_example :
    (let b' = (handle_subscribe_packet maps topic_lists requests 0 broker).1 in
      ((topic : List ℕ)
        → lookup topic (b'.store.heap 0).subscriptions
          ≡ requested topic (lookup topic session.subscriptions) requests.subscriptions)
      × ((r : ℕ) → (r == 0) ≡ false → b'.store.heap r ≡ session))
handle_subscribe_packet-requested_example =
    handle_subscribe_packet-requested maps topic_lists requests 0 broker

handle_un_subscribe_packet-lost_example :
    (let b' = (handle_un_subscribe_packet maps topic_lists requests 0 broker).1 in
      ((topic : List ℕ)
        → lookup topic (b'.store.heap 0).subscriptions ≡ (
            if mentions topic requests.subscriptions
            then none
            else lookup topic session.subscriptions))
      × ((r : ℕ) → (r == 0) ≡ false → b'.store.heap r ≡ session))
handle_un_subscribe_packet-lost_example =
    handle_un_subscribe_packet-lost maps topic_lists requests 0 broker

-- A CONNECT of the client whose session is stored.
abbrev connecting : Bool → ConnectPacketPayloads
connecting clean = record {
  connect_flag = record {
    username_flag = false;
    password_flag = false;
    remain_flag = false;
    qos_level = 0;
    will_message_flag = false;
    clean_session = clean;
  };
  client_identifier = record { payload_length = 1; payload = client_id };
  username_payload = no_field;
  password_payload = no_field;
  will_message_topic = no_field;
  will_message_content = no_field;
  keep_alive = 60;
}

handler_connect_packet-clean_example :
    (let st' = (handler_connect_packet maps (connecting true) (store session)).1 in
      (r : ℕ) × Accepts maps (connecting true) (store session) r
      × (st'.heap r ≡ clean_session_data maps client_id)
      × (get_session maps client_id st' ≡ (some r, st')))
handler_connect_packet-clean_example =
    handler_connect_packet-clean maps (connecting true) (store session) refl

answers : (maps.find_one client_id (save_session maps 0 (store session)).1.documents).0 ≢ failed
unfolding new_session_data bytes_eq save_session lookup insert answer
answers h = cc h

handler_connect_packet-resumed_example :
    (r : ℕ) × Accepts maps (connecting false) (save_session maps 0 (store session)).1 r
    × ((handler_connect_packet maps
            (connecting false)
            (save_session maps 0 (store session)).1).1.heap
          r
        ≡ session)
unfolding new_session_data bytes_eq save_session lookup
handler_connect_packet-resumed_example =
    handler_connect_packet-resumed maps maps-Laws (connecting false) 0 (store session) refl refl
      refl refl refl refl answers

-- A connected client has subscribed with QoS 0 and QoS 2, and another subscriber is away.
abbrev manager : ConnectionManager logs
manager = record {
  connections = (client_id, record { conn = 3; conn_id = 0x31 ∷ [] }) ∷ [];
  net = λ c. [];
}

abbrev subscribers : List Subscription
subscribers =
    record { client_id = client_id; topic_name = 0x61 ∷ []; qos_level = 0 }
    ∷ record { client_id = 0x7A ∷ []; topic_name = 0x61 ∷ []; qos_level = 2 }
    ∷ record { client_id = client_id; topic_name = 0x61 ∷ []; qos_level = 2 }
    ∷ []
