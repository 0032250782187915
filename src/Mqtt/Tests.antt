-- ===== src/Mqtt/Tests.antt =====
-- The framing of internal/mqtt on concrete packets, after mqtt_utils_test.go.
use life_stream_go_mqtt_brok.Errors.{eof}
use life_stream_go_mqtt_brok.Mqtt.Frame.Read.{
  framed, ReadFrom, read_packet-ReadFrom, packet, read_packet-framed,
}
use life_stream_go_mqtt_brok.Mqtt.PacketType.{validate_flags, puback}
use life_stream_go_mqtt_brok.Mqtt.Length.{decode_remaining_length, encode_remaining_length}
use life_stream_go_mqtt_brok.Prelude.Result.{Yields, ok}
use life_stream_go_mqtt_brok.Mqtt.Frame.{read_packet}
use life_stream_go_mqtt_brok.Prelude.{AllBytes, ◌∷◌, arith, ◌++◌, ◌≡◌, [], refl}
use life_stream_go_mqtt_brok.Mqtt.Conn.{Conn}

-- A PUBACK, and the first byte of the next packet.
abbrev stream : Conn
stream = record { incoming = 0x40 ∷ 2 ∷ 0 ∷ 7 ∷ 0xE0 ∷ []; closing = eof }

stream_bytes : AllBytes stream.incoming
stream_bytes = (omega arith, (omega arith, (omega arith, (omega arith, (omega arith, tt)))))

read_packet-framed_example :
    read_packet (record { incoming = framed puback 0 (0 ∷ 7 ∷ []) ++ 0xE0 ∷ []; closing = eof })
    ≡ ok (packet puback 0 (0 ∷ 7 ∷ []), record { incoming = 0xE0 ∷ []; closing = eof })
unfolding validate_flags
read_packet-framed_example =
    read_packet-framed puback 0 (0 ∷ 7 ∷ []) (0xE0 ∷ []) eof (omega arith) (omega arith) refl
      (omega arith) (omega arith)

read_packet-ReadFrom_example : Yields (ReadFrom stream) (read_packet stream)
read_packet-ReadFrom_example = read_packet-ReadFrom stream stream_bytes

abbrev long_length : Conn
long_length = record { incoming = 193 ∷ 2 ∷ 5 ∷ []; closing = eof }

encode_321 : encode_remaining_length 321 ≡ 193 ∷ 2 ∷ []
unfolding encode_remaining_length
encode_321 = refl

decode_321 :
    decode_remaining_length long_length ≡ ok (321, record { incoming = 5 ∷ []; closing = eof })
unfolding decode_remaining_length
decode_321 = refl

-- The remaining length 0, which PINGRESP and DISCONNECT have, is encoded as no byte at all.
encode_0 : encode_remaining_length 0 ≡ []
unfolding encode_remaining_length
encode_0 = refl
