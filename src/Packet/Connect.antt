-- ===== src/Packet/Connect.antt =====
-- internal/packet/connect.go: the CONNECT packet and its answer.
pub mod Spec
pub mod RoundTrip
pub mod Total
use life_stream_go_mqtt_brok.Prelude.Result.{Result, map_err, ◌>>=◌, ok, err}
use life_stream_go_mqtt_brok.Mqtt.Frame.{Payload, Packet, to_byte, check_remaining_length}
use life_stream_go_mqtt_brok.Errors.{
  Error, unable_to_check_protocol, client_id, incorrect_protocol, client_id_is_empty, will_topic,
  insufficient_version_bytes, will_content, reading_protocol_version, username, password,
  protocol_version_mismatch, insufficient_flag_bytes, reading_connect_flag, flags_without_will,
  unable_to_read_keep_alive,
}
use life_stream_go_mqtt_brok.Packet.Reader.{
  FieldPayload, read_packet_payload, read_packet_byte, read_uint16,
}
use life_stream_go_mqtt_brok.Prelude.{
  ℕ, Bool, Option, bit_and, List, if◌then◌else◌, none, some, ◌/◌, [], ◌∷◌, not, false, ◌==◌,
  bytes_eq, ◌&&◌, ◌||◌,
}

-- `ConnectRespType`
abbrev pub accepted : ℕ
accepted = 0

abbrev pub unacceptable_protocol : ℕ
unacceptable_protocol = 1

abbrev pub identifier_rejected : ℕ
identifier_rejected = 2

abbrev pub server_unavailable : ℕ
server_unavailable = 3

pub record ConnectPacketFlag : Type 0 where
  pub username_flag : Bool
  pub password_flag : Bool
  pub remain_flag : Bool
  pub qos_level : ℕ
  pub will_message_flag : Bool
  pub clean_session : Bool

pub record ConnectPacketPayloads : Type 0 where
  pub connect_flag : ConnectPacketFlag
  pub client_identifier : FieldPayload
  pub username_payload : FieldPayload
  pub password_payload : FieldPayload
  pub will_message_topic : FieldPayload
  pub will_message_content : FieldPayload
  pub keep_alive : ℕ

unfoldable pub new_connect_ack_packet : Bool → ℕ → List ℕ
new_connect_ack_packet session_status return_code =
    if not (return_code == accepted)
    then 0x20 ∷ 0x02 ∷ 0x00 ∷ to_byte return_code ∷ []
    else if session_status
    then 0x20 ∷ 0x02 ∷ 0x01 ∷ accepted ∷ []
    else 0x20 ∷ 0x02 ∷ 0x00 ∷ accepted ∷ []

-- What `ParseConnectPacket` returns with an error: a response to send, if there is one.
pub record ConnectFailure : Type 0 where
  pub response : Option (List ℕ)
  pub cause : Error

abbrev pub silent : Error → ConnectFailure
silent e = record { response = none; cause = e }

abbrev pub answered : ℕ → Error → ConnectFailure
answered code e = record { response = some (new_connect_ack_packet false code); cause = e }

unfoldable pub connect_flag : ℕ → ConnectPacketFlag
connect_flag b = record {
  username_flag = bit_and b 0x80 / 128 == 1;
  password_flag = bit_and b 0x40 / 64 == 1;
  remain_flag = bit_and b 0x20 / 32 == 1;
  qos_level = bit_and b 0x18 / 8;
  will_message_flag = bit_and b 0x04 / 4 == 1;
  clean_session = bit_and b 0x02 / 2 == 1;
}

-- The zero value of a field that the packet does not have.
abbrev pub no_field : FieldPayload
no_field = record { payload_length = 0; payload = [] }

-- A field of the payload that stands there only if its flag is set.
unfoldable pub read_field_if :
    Bool → (Error → Error) → Payload → Result ConnectFailure (FieldPayload × Payload)
read_field_if flag in_field p =
    if flag then map_err (λ e. silent (in_field e)) (read_packet_payload p) else ok (no_field, p)

abbrev pub protocol_name : List ℕ
protocol_name = b'M' ∷ b'Q' ∷ b'T' ∷ b'T' ∷ []

-- The variable header: the protocol name and version, the flags, the keep alive time.
unfoldable pub read_connect_header :
    Payload → Result ConnectFailure (record { flag : ConnectPacketFlag; keep_alive : ℕ } × Payload)
read_connect_header p = do
  (protocol, p1) ← map_err (λ _. silent unable_to_check_protocol) (read_packet_payload p)
  if not (bytes_eq protocol.payload protocol_name)
      then err (silent (incorrect_protocol protocol.payload))
      else if not (check_remaining_length p1)
      then err (silent insufficient_version_bytes)
      else do
        (version, p2) ← map_err (λ e. silent (reading_protocol_version e)) (read_packet_byte p1)
        if not (version == 0x04)
            then err (answered unacceptable_protocol protocol_version_mismatch)
            else if not (check_remaining_length p2)
            then err (silent insufficient_flag_bytes)
            else do
              (b, p3) ← map_err (λ e. silent (reading_connect_flag e)) (read_packet_byte p2)
              let flag = connect_flag b
              if not flag.will_message_flag && (flag.remain_flag || not (flag.qos_level == 0))
                  then err (silent flags_without_will)
                  else do
                    (keep_alive, p4) ←
                        map_err (λ _. silent unable_to_read_keep_alive) (read_uint16 p3)
                    ok (record { flag = flag; keep_alive = keep_alive }, p4)

unfoldable pub parse_connect_packet : Packet → Result ConnectFailure ConnectPacketPayloads
unfolding read_connect_header read_field_if
parse_connect_packet packet = do
  (header, p1) ← read_connect_header packet.payload
  (client, p2) ← map_err (λ e. silent (client_id e)) (read_packet_payload p1)
  if client.payload_length == 0 then err (answered identifier_rejected client_id_is_empty) else do
    (topic, p3) ← read_field_if header.flag.will_message_flag will_topic p2
    (content, p4) ← read_field_if header.flag.will_message_flag will_content p3
    (user, p5) ← read_field_if header.flag.username_flag username p4
    (pass, p6) ← read_field_if header.flag.password_flag password p5
    ok (record {
      connect_flag = header.flag;
      client_identifier = client;
      username_payload = user;
      password_payload = pass;
      will_message_topic = topic;
      will_message_content = content;
      keep_alive = header.keep_alive;
    })
