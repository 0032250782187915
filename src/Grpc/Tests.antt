-- ===== src/Grpc/Tests.antt =====
-- The device service on a client that has connected.
use life_stream_go_mqtt_brok.Handlers.Connect.{handler_connect_packet}
use life_stream_go_mqtt_brok.Database.AllSessions.{Cursor, over}
use life_stream_go_mqtt_brok.Grpc.{get_all_devices, set_devices_state}
use life_stream_go_mqtt_brok.Connection.Tests.{logs, logs-NetLaws}
use life_stream_go_mqtt_brok.Database.Tests.{maps, client_id, store, session}
use life_stream_go_mqtt_brok.Prelude.{false, true, ◌∷◌, none, [], refl}
use life_stream_go_mqtt_brok.Connection.{ConnectionManager}
use life_stream_go_mqtt_brok.Grpc.Devices.{
  Told, connected-Lists, set_devices_state-Told, Listed, switch_packet,
}
use life_stream_go_mqtt_brok.Packet.Connect.{ConnectPacketPayloads, no_field}

abbrev joining : ConnectPacketPayloads
joining = record {
  connect_flag = record {
    username_flag = false;
    password_flag = false;
    remain_flag = false;
    qos_level = 0;
    will_message_flag = false;
    clean_session = true;
  };
  client_identifier = record { payload_length = 1; payload = client_id };
  username_payload = no_field;
  password_payload = no_field;
  will_message_topic = no_field;
  will_message_content = no_field;
  keep_alive = 60;
}

-- The collection has one document that does not decode.
abbrev one_broken : maps.Documents → Cursor × maps.Documents
one_broken d = (over (none ∷ []), d)

connected-Lists_example :
    (let st' = (handler_connect_packet maps joining (store session)).1 in
      Listed maps one_broken client_id
        (one_broken st'.documents).0
        (get_all_devices maps one_broken st'))
connected-Lists_example = connected-Lists maps one_broken joining (store session) refl

abbrev device_manager : ConnectionManager logs
device_manager = record {
  connections = (client_id, record { conn = 3; conn_id = 0x31 ∷ [] }) ∷ [];
  net = λ c. [];
}

set_devices_state-Told_example :
    Told logs logs-NetLaws
      (λ c xs net. refl)
      client_id
      (switch_packet true)
      device_manager
      (set_devices_state logs client_id true device_manager)
set_devices_state-Told_example =
    set_devices_state-Told logs logs-NetLaws (λ c xs net. refl) client_id true device_manager
