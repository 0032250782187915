-- ===== src/Packet/Connect/Total.antt =====
-- `ParseConnectPacket` on every packet that `ReadPacket` framed.
use life_stream_go_mqtt_brok.Prelude.Bits.{and_0x18}
use life_stream_go_mqtt_brok.Mqtt.Frame.Read.{IsFramed}
use life_stream_go_mqtt_brok.Packet.Connect.RoundTrip.{IsConnectable, IsField}
use life_stream_go_mqtt_brok.Errors.{
  Error, unable_to_read_keep_alive, unable_to_check_protocol, client_id, will_topic, will_content,
  username, password,
}
use life_stream_go_mqtt_brok.Packet.Reader.{FieldPayload}
use life_stream_go_mqtt_brok.Mqtt.Frame.{Packet}
use life_stream_go_mqtt_brok.Packet.Reader.Spec.{uint16_of, IsFieldOf, field_of, field_of-IsFieldOf}
use life_stream_go_mqtt_brok.Packet.Connect.{
  connect_flag, parse_connect_packet, silent, ConnectFailure, ConnectPacketPayloads, protocol_name,
}
use life_stream_go_mqtt_brok.Prelude.Result.{
  Yields, Yields-bind, Yields-map_err, Result, map_err, Yields-weaken, ◌>>=◌,
}
use life_stream_go_mqtt_brok.Packet.Connect.Spec.{
  flags_of, ConnectHeader, lacks_will, version_of, header_of, field_if, connect_of,
  parse_connect_packet-connect_of,
}
use life_stream_go_mqtt_brok.Prelude.{
  ℕ, List, AllBytes, ◌≡◌, false, ◌<◌, ◌∷◌, [], Bool-cases, Bool, arith, inl, ◌==◌, inr, length,
  bytes_eq, true, refl,
}

-- The header of an accepted packet.
abbrev IsHeader : ConnectHeader × List ℕ → Type 0
IsHeader (h, s) =
    (h.flag.qos_level < 4) × (lacks_will h.flag ≡ false) × (h.keep_alive < 65536) × AllBytes s

connect_flag-qos : (b : ℕ) → b < 256 → (connect_flag b).qos_level < 4
unfolding connect_flag
connect_flag-qos b h = omega (arith, and_0x18 b h)

uint16_of-accepted :
    (s : List ℕ)
    → AllBytes s
    → Yields (λ (r : ℕ × List ℕ). (r.0 < 65536) × AllBytes r.1) (uint16_of s)
unfolding uint16_of
uint16_of-accepted [] h = tt
uint16_of-accepted (hi ∷ []) h = tt
uint16_of-accepted (hi ∷ lo ∷ s) (h1, (h2, h)) = (omega arith, h)

flags_of-accepted : (s : List ℕ) → AllBytes s → Yields IsHeader (flags_of s)
unfolding flags_of
flags_of-accepted [] bytes = tt
flags_of-accepted (b ∷ s) (hb, bytes) = elim (Bool-cases (lacks_will (connect_flag b))) [
  | inl lacks ↦ rw lacks tt
  | inr fine ↦ rw fine (
      Yields-bind (λ (r : ℕ × List ℕ). (r.0 < 65536) × AllBytes r.1) IsHeader
        (map_err (λ _. silent unable_to_read_keep_alive) (uint16_of s)) _
        (Yields-map_err _ (λ _. silent unable_to_read_keep_alive) (uint16_of s)
          (uint16_of-accepted s bytes))
        λ (k, s') h. (connect_flag-qos b hb, fine, h.0, h.1))
]

version_of-accepted : (s : List ℕ) → AllBytes s → Yields IsHeader (version_of s)
unfolding version_of
version_of-accepted [] bytes = tt
version_of-accepted (v ∷ s) (hv, bytes) = elim (Bool-cases (v == 0x04)) [
  | inl four ↦ rw four (flags_of-accepted s bytes)
  | inr other ↦ rw other tt
]

header_of-accepted : (n : ℕ) (s : List ℕ) → AllBytes s → Yields IsHeader (header_of n s)
unfolding header_of
header_of-accepted n s bytes =
    Yields-bind IsFieldOf IsHeader (map_err (λ _. silent unable_to_check_protocol) (field_of n s)) _
      (Yields-map_err IsFieldOf (λ _. silent unable_to_check_protocol) (field_of n s)
        (field_of-IsFieldOf n s bytes))
      λ (protocol, s1) h. elim (Bool-cases (bytes_eq protocol.payload protocol_name)) [
        | inl same ↦ rw same (version_of-accepted s1 h.2)
        | inr other ↦ rw other tt
      ]

-- A field that is read only if its flag is set.
abbrev IsOptional : Bool → FieldPayload × List ℕ → Type 0
IsOptional flag (x, s) = IsField flag x × AllBytes s

field_if-accepted :
    (n : ℕ) (flag : Bool) (w : Error → Error) (s : List ℕ)
    → AllBytes s
    → Yields (IsOptional flag) (field_if n flag w s)
unfolding field_if
field_if-accepted n true w s bytes =
    Yields-map_err (IsOptional true) (λ e. silent (w e)) (field_of n s)
      (Yields-weaken IsFieldOf (IsOptional true) (field_of n s) (field_of-IsFieldOf n s bytes)
        λ (x, s') h. ((h.0, h.1), h.2))
field_if-accepted n false w s bytes = (refl, bytes)

module _ (n : ℕ) where
  -- The optional fields of the payload, one after the other.
  optional_bind :
      (flag : Bool) (w : Error → Error) (s : List ℕ)
      (k : FieldPayload × List ℕ → Result ConnectFailure ConnectPacketPayloads)
      → AllBytes s
      → ((x : FieldPayload) (s' : List ℕ)
          → IsField flag x
          → AllBytes s'
          → Yields IsConnectable (k (x, s')))
      → Yields IsConnectable (field_if n flag w s >>= k)
  optional_bind flag w s k bytes h =
      Yields-bind (IsOptional flag) IsConnectable (field_if n flag w s) k
        (field_if-accepted n flag w s bytes) λ (x, s') t. h x s' t.0 t.1

connect_of-accepted : (n : ℕ) (s : List ℕ) → AllBytes s → Yields IsConnectable (connect_of n s)
unfolding connect_of
connect_of-accepted n s bytes =
    Yields-bind IsHeader IsConnectable (header_of n s) _ (header_of-accepted n s bytes)
      λ (header, s1) h.
        Yields-bind IsFieldOf IsConnectable (map_err (λ e. silent (client_id e)) (field_of n s1)) _
          (Yields-map_err IsFieldOf (λ e. silent (client_id e)) (field_of n s1)
            (field_of-IsFieldOf n s1 h.3))
          λ (client, s2) c. elim (Bool-cases (client.payload_length == 0)) [
            | inl empty ↦ rw empty tt
            | inr named ↦ rw named (
                optional_bind n header.flag.will_message_flag will_topic s2 _ c.2 λ topic s3 t3 b3.
                  optional_bind n header.flag.will_message_flag will_content s3 _ b3
                    λ content s4 t4 b4.
                      optional_bind n header.flag.username_flag username s4 _ b4 λ user s5 t5 b5.
                        optional_bind n header.flag.password_flag password s5 _ b5 λ pass s6 t6 b6.
                          record {
                            qos_range = h.0;
                            will_agrees = h.1;
                            keep_alive_range = h.2;
                            client = (c.0, c.1);
                            client_named = ground arith;
                            topic = t3;
                            content = t4;
                            user = t5;
                            pass = t6;
                          })
          ]

-- On every packet that `ReadPacket` framed the CONNECT parser returns without a panic; and what it
-- accepts is a packet that the protocol's layout can carry: the flags speak of a will message only
-- where there is one, the client identifier is not empty, and exactly the announced fields are set.
pub parse_connect_packet_total :
    (packet : Packet) → IsFramed packet → Yields IsConnectable (parse_connect_packet packet)
parse_connect_packet_total packet f =
    rw (parse_connect_packet-connect_of packet.header packet.payload f.length_agrees f.at_start)
      (connect_of-accepted (length packet.payload.context) packet.payload.context f.bytes)
