-- ===== src/Packet/Subscribe.antt =====
-- internal/packet/subscribe.go and unsubscribe.go: the packets, their parsers and their answers.
pub mod Spec
pub mod RoundTrip
pub mod Total
use life_stream_go_mqtt_brok.Mqtt.Length.{encode_remaining_length}
use life_stream_go_mqtt_brok.Packet.Reader.{read_uint16, read_packet_payload, read_packet_byte}
use life_stream_go_mqtt_brok.Mqtt.PacketType.{suback, unsuback}
use life_stream_go_mqtt_brok.Errors.{Error, reading_packet_id, reading_topic_filter, reading_qos}
use life_stream_go_mqtt_brok.Prelude.Result.{Result, ◌>>=◌, map_err, stuck, ok}
use life_stream_go_mqtt_brok.Database.Types.{Subscription}
use life_stream_go_mqtt_brok.Mqtt.Frame.{
  Payload, Packet, uint16_to_byte, to_uint16, to_byte, check_remaining_length,
}
use life_stream_go_mqtt_brok.Prelude.{
  ℕ, List, Bool, [], not, ◌++◌, if◌then◌else◌, ◌==◌, ◌∷◌, suc, ◌*◌, ◌-◌, length, zero, bit_and,
}

-- `SubscribeState`
abbrev pub success_qos0 : ℕ
success_qos0 = 0

abbrev pub success_qos1 : ℕ
success_qos1 = 1

abbrev pub success_qos2 : ℕ
success_qos2 = 2

abbrev pub failure : ℕ
failure = 0x80

pub record SubscribePacketPayloads : Type 0 where
  pub packet_id : ℕ
  pub subscriptions : List Subscription

unfoldable pub new_sub_ack_packet : ℕ → ℕ → List ℕ
new_sub_ack_packet packet_id state =
    let body = uint16_to_byte (to_uint16 packet_id) ++ (to_byte state ∷ []) in
    to_byte (suback * 16) ∷ (encode_remaining_length (length body) ++ body)

unfoldable pub new_un_sub_ack_packet : ℕ → ℕ → List ℕ
new_un_sub_ack_packet packet_id state =
    let body = uint16_to_byte (to_uint16 packet_id) ++ (to_byte state ∷ []) in
    to_byte (unsuback * 16) ∷ (encode_remaining_length (length body) ++ body)

-- A new `Subscription` has no client until the session adds it.
abbrev pub subscription_for : List ℕ → ℕ → Subscription
subscription_for topic qos = record { client_id = []; topic_name = topic; qos_level = qos }

-- The `for` loop of `ParseSubscribePacket`; the fuel bounds its rounds.
unfoldable pub subscribe_loop : ℕ → Payload → List Subscription → Result Error (List Subscription)
subscribe_loop zero p subs = if check_remaining_length p then stuck else ok subs
subscribe_loop (suc fuel) p subs =
    let round = (do
      (topic, p1) ← map_err reading_topic_filter (read_packet_payload p)
      (qos, p2) ← map_err reading_qos (read_packet_byte p1)
      subscribe_loop fuel p2 (subs ++ subscription_for topic.payload (bit_and qos 0x02) ∷ [])) in
    if check_remaining_length p then round else ok subs

-- Each round takes a byte at least, so as many rounds as bytes are unread are enough.
unfoldable pub parse_subscribe_packet : Packet → Result Error SubscribePacketPayloads
unfolding subscribe_loop
parse_subscribe_packet packet = do
  (id, p) ← map_err reading_packet_id (read_uint16 packet.payload)
  subs ← subscribe_loop (p.context_len - p.current_ptr) p []
  ok (record { packet_id = id; subscriptions = subs })

-- The `for` loop of `ParseUnSubscribePacket`, which has a test of its own
abbrev pub not_at_end : Payload → Bool
not_at_end p = not (p.current_ptr == p.context_len)

unfoldable pub unsubscribe_loop : ℕ → Payload → List Subscription → Result Error (List Subscription)
unsubscribe_loop zero p subs = if not_at_end p then stuck else ok subs
unsubscribe_loop (suc fuel) p subs =
    let round = (do
      (topic, p1) ← map_err reading_topic_filter (read_packet_payload p)
      unsubscribe_loop fuel p1 (subs ++ subscription_for topic.payload 0 ∷ [])) in
    if not_at_end p then round else ok subs

-- `UnSubscribePacketPayloads` has the fields of `SubscribePacketPayloads`.
unfoldable pub parse_un_subscribe_packet : Packet → Result Error SubscribePacketPayloads
unfolding unsubscribe_loop
parse_un_subscribe_packet packet = do
  (id, p) ← map_err reading_packet_id (read_uint16 packet.payload)
  subs ← unsubscribe_loop (p.context_len - p.current_ptr) p []
  ok (record { packet_id = id; subscriptions = subs })
