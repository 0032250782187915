-- ===== src/Packet/Tests.antt =====
-- The packets of internal/packet at concrete bytes, after publish_test.go.
use life_stream_go_mqtt_brok.Errors.{eof}
use life_stream_go_mqtt_brok.Packet.Connect.Spec.{connect_of, parse_connect_packet-connect_of}
use life_stream_go_mqtt_brok.Packet.Subscribe.Total.{IsMasked, parse_subscribe_packet_total}
use life_stream_go_mqtt_brok.Packet.Connect.Total.{parse_connect_packet_total}
use life_stream_go_mqtt_brok.Mqtt.Frame.Read.{packet, IsFramed}
use life_stream_go_mqtt_brok.Packet.Publish.Total.{IsAccepted, parse_publish_packet_total}
use life_stream_go_mqtt_brok.Packet.Subscribe.RoundTrip.{
  subscribe_packet, Request, granted, subscribe_body, parse_subscribe_packet-subscribe_body,
}
use life_stream_go_mqtt_brok.Mqtt.Length.{encode_remaining_length}
use life_stream_go_mqtt_brok.Packet.Answers.{ReadAs, id_bytes, answers_are_read}
use life_stream_go_mqtt_brok.Prelude.Result.{Yields, ok}
use life_stream_go_mqtt_brok.Mqtt.PacketType.{
  validate_flags, connect, publish, subscribe, puback, pubrec, suback, unsuback,
}
use life_stream_go_mqtt_brok.Packet.Subscribe.{
  parse_subscribe_packet, SubscribePacketPayloads, subscription_for, new_sub_ack_packet,
  new_un_sub_ack_packet,
}
use life_stream_go_mqtt_brok.Prelude.{
  List, map, ℕ, false, ◌++◌, true, arith, ◌<◌, ◌∷◌, ◌≡◌, [], refl, All, some, length, ◌^◌, AllBytes,
}
use life_stream_go_mqtt_brok.Packet.Connect.RoundTrip.{
  IsConnectable, connect_body, parse_connect_packet-connect_body,
}
use life_stream_go_mqtt_brok.Packet.Connect.{ConnectPacketPayloads, parse_connect_packet, no_field}
use life_stream_go_mqtt_brok.Packet.Publish.RoundTrip.{
  receive_publish, IsPublishable, received, parse_publish_packet-new_publish_packet,
}
use life_stream_go_mqtt_brok.Mqtt.Frame.{uint16_to_byte, FixedHeader, Payload, Packet, to_byte}
use life_stream_go_mqtt_brok.Packet.Publish.{
  PublishPacketPayloads, new_publish_packet, parse_publish_packet, new_pub_ack_packet,
  new_pub_rec_packet,
}

-- The second message of publish_test.go, with a shorter payload.
abbrev message : PublishPacketPayloads
message = record {
  packet_flag = record { retry_flag = false; qos = 2; retain = false };
  topic_name = record { payload_length = 3; payload = 0x31 ∷ 0x31 ∷ 0x31 ∷ [] };
  packet_id = 458;
  payload = some (0x7b ∷ 0x7d ∷ []);
}

message-IsPublishable : IsPublishable message
unfolding uint16_to_byte
message-IsPublishable = record {
  length_agrees = refl;
  topic_range = omega arith;
  id_range = omega arith;
  qos_range = omega arith;
  fits = omega arith;
}

message_bytes :
    new_publish_packet message ≡ 0x34 ∷ 9 ∷ 0 ∷ 3 ∷ 0x31 ∷ 0x31 ∷ 0x31 ∷ 1 ∷ 0xca ∷ 0x7b ∷ 0x7d ∷ []
unfolding new_publish_packet uint16_to_byte encode_remaining_length
message_bytes = refl

parse_publish_packet-new_publish_packet_example :
    receive_publish (record { incoming = new_publish_packet message ++ 0xE0 ∷ []; closing = eof })
    ≡ ok (received message, record { incoming = 0xE0 ∷ []; closing = eof })
parse_publish_packet-new_publish_packet_example =
    parse_publish_packet-new_publish_packet message (0xE0 ∷ []) eof message-IsPublishable

-- A client with a will message, a user name and no password.
abbrev client : ConnectPacketPayloads
client = record {
  connect_flag = record {
    username_flag = true;
    password_flag = false;
    remain_flag = true;
    qos_level = 1;
    will_message_flag = true;
    clean_session = true;
  };
  client_identifier = record { payload_length = 1; payload = 0x63 ∷ [] };
  username_payload = record { payload_length = 2; payload = 0x75 ∷ 0x73 ∷ [] };
  password_payload = no_field;
  will_message_topic = record { payload_length = 1; payload = 0x74 ∷ [] };
  will_message_content = record { payload_length = 0; payload = [] };
  keep_alive = 60;
}

client-IsConnectable : IsConnectable client
client-IsConnectable = record {
  qos_range = omega arith;
  will_agrees = refl;
  keep_alive_range = omega arith;
  client = (refl, omega arith);
  client_named = omega arith;
  topic = (refl, omega arith);
  content = (refl, omega arith);
  user = (refl, omega arith);
  pass = refl;
}

abbrev connect_header : FixedHeader
connect_header = record { packet_type = connect; flags = 0; remaining_length = 0 }

parse_connect_packet-connect_body_example :
    parse_connect_packet (subscribe_packet connect_header (connect_body client)) ≡ ok client
parse_connect_packet-connect_body_example =
    parse_connect_packet-connect_body connect_header client client-IsConnectable

-- One topic filter with QoS 1, and one with QoS 2.
abbrev requests : List Request
requests = (0x61 ∷ [], 1) ∷ (0x23 ∷ [], 2) ∷ []

parse_subscribe_packet-subscribe_body_example :
    parse_subscribe_packet (subscribe_packet connect_header (subscribe_body 7 requests))
    ≡ ok (record { packet_id = 7; subscriptions = map granted requests })
parse_subscribe_packet-subscribe_body_example =
    parse_subscribe_packet-subscribe_body connect_header 7 requests (omega arith)
      (omega arith, (omega arith, tt))

-- QoS 1 is granted as QoS 0.
requests-granted :
    map granted requests ≡ subscription_for (0x61 ∷ []) 0 ∷ subscription_for (0x23 ∷ []) 2 ∷ []
requests-granted = refl

body-IsFramed :
    (t flags : ℕ) (body : List ℕ)
    → t < 16
    → flags < 16
    → validate_flags t flags ≡ true
    → length body < 2 ^ 28
    → AllBytes body
    → IsFramed (packet t flags body)
body-IsFramed t flags body small four valid fits bytes = record {
  type_range = small;
  flags_range = four;
  flags_valid = valid;
  length_agrees = refl;
  remaining_agrees = refl;
  remaining_range = fits;
  at_start = refl;
  bytes = bytes;
}

-- A client "c" with a clean session, a message with QoS 1 to "a", and a request for "a" with QoS 2.
abbrev joins : Packet
joins = packet connect 0 (0 ∷ 4 ∷ b'M' ∷ b'Q' ∷ b'T' ∷ b'T' ∷ 4 ∷ 2 ∷ 0 ∷ 60 ∷ 0 ∷ 1 ∷ b'c' ∷ [])

abbrev tells : Packet
tells = packet publish 2 (0 ∷ 1 ∷ b'a' ∷ 0 ∷ 7 ∷ b'x' ∷ [])

abbrev asks : Packet
asks = packet subscribe 2 (0 ∷ 7 ∷ 0 ∷ 1 ∷ b'a' ∷ 2 ∷ [])

admitted :
    (validate_flags connect 0 ≡ true)
    × (validate_flags publish 2 ≡ true)
    × (validate_flags subscribe 2 ≡ true)
unfolding validate_flags
admitted = (refl, refl, refl)

parse_connect_packet_total_example : Yields IsConnectable (parse_connect_packet joins)
parse_connect_packet_total_example = parse_connect_packet_total joins (
    body-IsFramed connect 0 joins.payload.context (omega arith) (omega arith) admitted.0
      (omega arith) (omega arith))

parse_publish_packet_total_example : Yields IsAccepted (parse_publish_packet tells)
parse_publish_packet_total_example = parse_publish_packet_total tells (
    body-IsFramed publish 2 tells.payload.context (omega arith) (omega arith) admitted.1
      (omega arith) (omega arith))

parse_subscribe_packet_total_example :
    Yields
      (λ (x : SubscribePacketPayloads). All IsMasked x.subscriptions)
      (parse_subscribe_packet asks)
parse_subscribe_packet_total_example = parse_subscribe_packet_total asks (
    body-IsFramed subscribe 2 asks.payload.context (omega arith) (omega arith) admitted.2
      (omega arith) (omega arith))

-- The request is granted.
asks-accepted :
    parse_subscribe_packet asks
    ≡ ok (record { packet_id = 7; subscriptions = subscription_for (b'a' ∷ []) 2 ∷ [] })
unfolding uint16_to_byte
asks-accepted =
    parse_subscribe_packet-subscribe_body asks.header 7 ((b'a' ∷ [], 2) ∷ []) (omega arith)
      (omega arith, tt)

abbrev two_bytes : Payload
two_bytes = record { context = 0 ∷ 7 ∷ []; context_len = 2; current_ptr = 0 }

parse_connect_packet-connect_of_example :
    parse_connect_packet (record { header = connect_header; payload = two_bytes })
    ≡ connect_of 2 (0 ∷ 7 ∷ [])
parse_connect_packet-connect_of_example =
    parse_connect_packet-connect_of connect_header two_bytes refl refl

answers_are_read_example :
    ReadAs puback (id_bytes 7) (new_pub_ack_packet 7)
    × ReadAs pubrec (id_bytes 7) (new_pub_rec_packet 7)
    × ReadAs suback (id_bytes 7 ++ to_byte 0x80 ∷ []) (new_sub_ack_packet 7 0x80)
    × ReadAs unsuback (id_bytes 7 ++ to_byte 0x80 ∷ []) (new_un_sub_ack_packet 7 0x80)
answers_are_read_example = answers_are_read 7 0x80
