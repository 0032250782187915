-- ===== src/Packet/Answers.antt =====
-- The answers of the broker, as a client reads them.
use life_stream_go_mqtt_brok.Packet.Subscribe.{new_sub_ack_packet, new_un_sub_ack_packet}
use life_stream_go_mqtt_brok.Packet.Publish.{new_pub_ack_packet, new_pub_rec_packet}
use life_stream_go_mqtt_brok.Mqtt.PacketType.Flags.{validate_flags_iff}
use life_stream_go_mqtt_brok.Prelude.Result.{ok}
use life_stream_go_mqtt_brok.Mqtt.Frame.Read.{framed, read_packet-framed, packet}
use life_stream_go_mqtt_brok.Errors.{Error}
use life_stream_go_mqtt_brok.Mqtt.Frame.{uint16_to_byte, to_uint16, read_packet, to_byte}
use life_stream_go_mqtt_brok.Mqtt.PacketType.{PacketType, puback, pubrec, suback, unsuback}
use life_stream_go_mqtt_brok.Prelude.{
  ℕ, List, ◌<◌, length, ◌++◌, ◌^◌, ◌≡◌, arith, inr, inl, refl, ◌∷◌, [],
}

abbrev pub id_bytes : ℕ → List ℕ
id_bytes id = uint16_to_byte (to_uint16 id)

-- What `ReadPacket` makes of an answer of type `t`.
abbrev pub ReadAs : PacketType → List ℕ → List ℕ → Type 0
ReadAs t body answer =
    (rest : List ℕ) (e : Error)
    → read_packet (record { incoming = answer ++ rest; closing = e })
      ≡ ok (packet t 0 body, record { incoming = rest; closing = e })

framed-ReadAs :
    (t : PacketType) (body : List ℕ)
    → t < 16
    → 0 < length body
    → length body < 2 ^ 28
    → ReadAs t body (framed t 0 body)
framed-ReadAs t body small pos fits rest e =
    read_packet-framed t 0 body rest e small (omega arith)
      ((validate_flags_iff t 0 (omega arith)).1 (inr (inl refl))) pos fits

-- Every answer of the broker to a PUBLISH, a SUBSCRIBE or an UNSUBSCRIBE is one packet for
-- `ReadPacket`: of its type, with no flag set, and with the packet ID modulo 2 ^ 16 and, where it
-- has one, the return code as its body.
pub answers_are_read :
    (id state : ℕ)
    → ReadAs puback (id_bytes id) (new_pub_ack_packet id)
      × ReadAs pubrec (id_bytes id) (new_pub_rec_packet id)
      × ReadAs suback (id_bytes id ++ to_byte state ∷ []) (new_sub_ack_packet id state)
      × ReadAs unsuback (id_bytes id ++ to_byte state ∷ []) (new_un_sub_ack_packet id state)
unfolding new_pub_ack_packet new_pub_rec_packet new_sub_ack_packet new_un_sub_ack_packet
    uint16_to_byte
answers_are_read id state = (
  framed-ReadAs puback (id_bytes id) (omega arith) (omega arith) (omega arith),
  framed-ReadAs pubrec (id_bytes id) (omega arith) (omega arith) (omega arith),
  framed-ReadAs suback (id_bytes id ++ to_byte state ∷ []) (omega arith) (omega arith)
      (omega arith),
  framed-ReadAs unsuback (id_bytes id ++ to_byte state ∷ []) (omega arith) (omega arith)
      (omega arith),
)
