-- ===== src/Mqtt/Frame.antt =====
-- internal/mqtt: the packet types of mqtt_types.go, and `ReadPacket`, `UInt16ToByte` and
-- `CheckRemainingLength` of mqtt_utils.go.
use life_stream_go_mqtt_brok.Mqtt.Length.{decode_remaining_length}
use life_stream_go_mqtt_brok.Errors.{Error, invalid_flags}
use life_stream_go_mqtt_brok.Prelude.Result.{Result, ◌>>=◌, index, ok, err}
use life_stream_go_mqtt_brok.Mqtt.Conn.{Conn, read_full}
use life_stream_go_mqtt_brok.Mqtt.PacketType.{PacketType, validate_flags}
use life_stream_go_mqtt_brok.Prelude.{
  ℕ, List, Bool, ◌%◌, ltb, ◌/◌, ◌∷◌, bit_and, [], length, if◌then◌else◌,
}
pub mod Read

pub record FixedHeader : Type 0 where
  pub packet_type : PacketType
  pub flags : ℕ
  pub remaining_length : ℕ

pub record Payload : Type 0 where
  pub context : List ℕ
  pub context_len : ℕ
  pub current_ptr : ℕ

pub record Packet : Type 0 where
  pub header : FixedHeader
  pub payload : Payload

unfoldable pub check_remaining_length : Payload → Bool
check_remaining_length p = ltb p.current_ptr p.context_len

-- `binary.BigEndian.PutUint16` of a 16-bit number
unfoldable pub uint16_to_byte : ℕ → List ℕ
uint16_to_byte n = n / 256 ∷ n % 256 ∷ []

-- Go's conversions `byte(n)` and `uint16(n)`
abbrev pub to_byte : ℕ → ℕ
to_byte n = n % 256

abbrev pub to_uint16 : ℕ → ℕ
to_uint16 n = n % 65536

abbrev pub packet_of : ℕ → ℕ → List ℕ → Packet
packet_of type_and_flags remaining payload = record {
  header = record {
    packet_type = type_and_flags / 16;
    flags = bit_and type_and_flags 0x0F;
    remaining_length = remaining;
  };
  payload = record { context = payload; context_len = length payload; current_ptr = 0 };
}

unfoldable pub read_packet : Conn → Result Error (Packet × Conn)
read_packet c = do
  (type_and_flags, c1) ← read_full 1 c
  (remaining, c2) ← decode_remaining_length c1
  (payload, c3) ← read_full remaining c2
  first ← index type_and_flags 0
  let packet = packet_of first remaining payload
  if validate_flags packet.header.packet_type packet.header.flags
      then ok (packet, c3)
      else err (invalid_flags packet.header.flags packet.header.packet_type)
