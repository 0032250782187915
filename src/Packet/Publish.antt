-- ===== src/Packet/Publish.antt =====
-- internal/packet/publish.go: the PUBLISH packet, and the acknowledgements that answer it.
pub mod Spec
pub mod RoundTrip
pub mod Total
use life_stream_go_mqtt_brok.Mqtt.Length.{encode_remaining_length}
use life_stream_go_mqtt_brok.Errors.{
  Error, retry_without_qos, qos_must_not_be_three, reading_topic_name, reading_packet_id,
  reading_payload,
}
use life_stream_go_mqtt_brok.Mqtt.PacketType.{publish, puback, pubrec}
use life_stream_go_mqtt_brok.Prelude.Result.{Result, err, ◌>>=◌, map_err, ok}
use life_stream_go_mqtt_brok.Mqtt.Frame.{
  Packet, uint16_to_byte, to_byte, to_uint16, check_remaining_length,
}
use life_stream_go_mqtt_brok.Packet.Reader.{
  FieldPayload, read_packet_payload, read_uint16, read_packet_resume_byte,
}
use life_stream_go_mqtt_brok.Prelude.{
  ℕ, Bool, Option, List, bit_and, [], ◌/◌, some, ◌==◌, none, ◌++◌, ◌*◌, if◌then◌else◌, ltb, ◌&&◌,
  ◌∷◌, ◌+◌, length,
}

pub record PublishPacketFlag : Type 0 where
  pub retry_flag : Bool
  pub qos : ℕ
  pub retain : Bool

-- A nil payload is `none`.
pub record PublishPacketPayloads : Type 0 where
  pub packet_flag : PublishPacketFlag
  pub topic_name : FieldPayload
  pub packet_id : ℕ
  pub payload : Option (List ℕ)

-- the bytes of a slice that may be nil
abbrev pub slice_bytes : Option (List ℕ) → List ℕ
slice_bytes none = []
slice_bytes (some xs) = xs

-- The variable header and the payload.
abbrev pub publish_body : PublishPacketPayloads → List ℕ
publish_body x =
    uint16_to_byte (to_uint16 x.topic_name.payload_length)
    ++ (x.topic_name.payload
        ++ ((if ltb 0 x.packet_flag.qos then uint16_to_byte (to_uint16 x.packet_id) else [])
            ++ slice_bytes x.payload))

unfoldable pub new_publish_packet : PublishPacketPayloads → List ℕ
new_publish_packet x =
    let first = to_byte (publish * 16) in
    let first' =
      if ltb 0 x.packet_flag.qos
      then to_byte (first + to_byte (x.packet_flag.qos * 2))
      else first in
    let body = publish_body x in first' ∷ (encode_remaining_length (length body) ++ body)

unfoldable pub publish_flag : ℕ → PublishPacketFlag
publish_flag flags = record {
  retry_flag = bit_and flags 0x08 / 8 == 1;
  qos = bit_and flags 0x06 / 2;
  retain = bit_and flags 0x01 == 1;
}

unfoldable pub parse_publish_packet : Packet → Result Error PublishPacketPayloads
unfolding publish_flag
parse_publish_packet packet =
    let flag = publish_flag packet.header.flags in
    if flag.qos == 0 && flag.retry_flag
    then err retry_without_qos
    else if flag.qos == 3
    then err qos_must_not_be_three
    else do
      (topic, p1) ← map_err reading_topic_name (read_packet_payload packet.payload)
      (id, p2) ← (if ltb 0 flag.qos then map_err reading_packet_id (read_uint16 p1) else ok (0, p1))
      content ←
          (if check_remaining_length p2
            then (do (xs, p3) ← map_err reading_payload (read_packet_resume_byte p2); ok (some xs))
            else ok none)
      ok (record { packet_flag = flag; topic_name = topic; packet_id = id; payload = content })

-- `NewPubAckPacket` and `NewPubRecPacket`
unfoldable pub new_pub_ack_packet : ℕ → List ℕ
new_pub_ack_packet packet_id =
    let body = uint16_to_byte (to_uint16 packet_id) in
    to_byte (puback * 16) ∷ (encode_remaining_length (length body) ++ body)

unfoldable pub new_pub_rec_packet : ℕ → List ℕ
new_pub_rec_packet packet_id =
    let body = uint16_to_byte (to_uint16 packet_id) in
    to_byte (pubrec * 16) ∷ (encode_remaining_length (length body) ++ body)
