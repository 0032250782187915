-- ===== src/Packet/Publish/RoundTrip.antt =====
-- A PUBLISH packet that `NewPublishPacket` built, read by `ReadPacket` and `ParsePublishPacket`.
use life_stream_go_mqtt_brok.Mqtt.PacketType.Flags.{validate_flags_iff}
use life_stream_go_mqtt_brok.Mqtt.Conn.{Conn}
use life_stream_go_mqtt_brok.Mqtt.Frame.{uint16_to_byte, to_uint16, read_packet}
use life_stream_go_mqtt_brok.Errors.{Error}
use life_stream_go_mqtt_brok.Packet.Reader.Spec.{field_of}
use life_stream_go_mqtt_brok.Packet.Reader.Encoded.{field_of-encoded, uint16_of-encoded, field_lem}
use life_stream_go_mqtt_brok.Packet.Reader.{FieldPayload}
use native.Mathlib.Decide.{dec_lt}
use life_stream_go_mqtt_brok.Prelude.Result.{ok, ◌>>=◌, Result}
use life_stream_go_mqtt_brok.Mqtt.PacketType.{publish, validate_flags}
use life_stream_go_mqtt_brok.Mqtt.Frame.Read.{framed, read_packet-framed, packet}
use life_stream_go_mqtt_brok.Packet.Publish.Spec.{
  publish_of, content_of, id_of, parse_publish_packet-publish_of,
}
use life_stream_go_mqtt_brok.Packet.Publish.{
  PublishPacketPayloads, publish_flag, new_publish_packet, publish_body, slice_bytes,
  parse_publish_packet,
}
use life_stream_go_mqtt_brok.Prelude.{
  ℕ, ◌≡◌, false, ◌<◌, ◌*◌, length, if◌then◌else◌, suc, ◌^◌, ltb, arith, zero, ◌+◌, refl, ◌%◌,
  lt→ltb, le→not_ltb, List, ◌==◌, ◌&&◌, [], ◌++◌, Bool-cases, inl, ◌∙◌, ap, inr, true,
}

-- A message that the format can carry.
pub record IsPublishable (x : PublishPacketPayloads) : Type 0 where
  pub length_agrees : x.topic_name.payload_length ≡ length x.topic_name.payload
  pub topic_range : length x.topic_name.payload < 65536
  pub id_range : x.packet_id < 65536
  pub qos_range : x.packet_flag.qos < 3
  pub fits : length (publish_body x) < 2 ^ 28

-- What a receiver gets: no retry and no retain flag, no packet ID at QoS 0, and no payload where
-- it is empty.
abbrev pub received : PublishPacketPayloads → PublishPacketPayloads
received x = record {
  packet_flag = record { retry_flag = false; qos = x.packet_flag.qos; retain = false };
  topic_name = x.topic_name;
  packet_id = if ltb 0 x.packet_flag.qos then x.packet_id else 0;
  payload = content_of (slice_bytes x.payload);
}

publish_flag-qos :
    (q : ℕ) → q < 3 → publish_flag (q * 2) ≡ record { retry_flag = false; qos = q; retain = false }
unfolding publish_flag
publish_flag-qos zero h = refl
publish_flag-qos (suc zero) h = refl
publish_flag-qos (suc (suc zero)) h = refl
publish_flag-qos (suc (suc (suc q))) h = absurd (omega arith)

new_publish_packet-framed :
    (x : PublishPacketPayloads)
    → x.packet_flag.qos < 3
    → new_publish_packet x ≡ framed publish (x.packet_flag.qos * 2) (publish_body x)
unfolding new_publish_packet
new_publish_packet-framed x h = elim (dec_lt 0 x.packet_flag.qos) [
  | yes some_qos ↦ rw (lt→ltb 0 x.packet_flag.qos some_qos, first) refl
  | no zero_qos ↦
      let e : 48 ≡ 48 + x.packet_flag.qos * 2 = omega arith in
      rw (le→not_ltb 0 x.packet_flag.qos (omega arith)) cc
]
  where
    first : (48 + x.packet_flag.qos * 2 % 256) % 256 ≡ 48 + x.packet_flag.qos * 2
    first = omega arith

-- The packet ID that stands in front of the content, where there is one.
id_of-body :
    (qos id : ℕ) (rest : List ℕ)
    → id < 65536
    → id_of qos ((if ltb 0 qos then uint16_to_byte (to_uint16 id) else []) ++ rest)
      ≡ ok (if ltb 0 qos then id else 0, rest)
id_of-body qos id rest h = elim (Bool-cases (ltb 0 qos)) [
  | inl some_qos ↦ rw some_qos (rw (small, uint16_of-encoded id rest h) refl)
  | inr no_qos ↦ rw no_qos refl
]
  where
    small : id % 65536 ≡ id
    small = omega arith

topic_of-body :
    (n : ℕ) (x : FieldPayload) (rest : List ℕ)
    → x.payload_length ≡ length x.payload
    → length x.payload < 65536
    → field_of n (uint16_to_byte (to_uint16 x.payload_length) ++ (x.payload ++ rest)) ≡ ok (x, rest)
topic_of-body n x rest len fits = rw small (
    field_of-encoded n x.payload rest fits
    ∙ ap (λ (f : FieldPayload). ok (f, rest)) (field_lem x len))
  where
    small : x.payload_length % 65536 ≡ length x.payload
    small = omega arith

qos_not_three : (q : ℕ) → q < 3 → (q == 3) ≡ false
qos_not_three q h = ground arith

no_retry : (q : ℕ) → (q == 0 && false) ≡ false
no_retry q = ground arith

publish_of-body :
    (n : ℕ) (x : PublishPacketPayloads)
    → IsPublishable x
    → publish_of n (x.packet_flag.qos * 2) (publish_body x) ≡ ok (received x)
unfolding publish_of
publish_of-body n x v =
    rw
      (
        publish_flag-qos x.packet_flag.qos v.qos_range,
        no_retry x.packet_flag.qos,
        qos_not_three x.packet_flag.qos v.qos_range,
      )
      (rw (topic_of-body n x.topic_name _ v.length_agrees v.topic_range)
        (rw (id_of-body x.packet_flag.qos x.packet_id _ v.id_range) refl))

-- One packet off the connection, parsed as a PUBLISH.
abbrev pub receive_publish : Conn → Result Error (PublishPacketPayloads × Conn)
receive_publish c = do (p, c') ← read_packet c; y ← parse_publish_packet p; ok (y, c')

body_pos : (x : PublishPacketPayloads) → 0 < length (publish_body x)
unfolding uint16_to_byte
body_pos x = omega arith

-- A publishable message that `NewPublishPacket` wrote, with anything behind it, is read back as
-- `received` says: topic, QoS, the packet ID if the QoS is not 0, and the payload are kept, the
-- retain and retry flags are not. What follows is left on the connection.
pub parse_publish_packet-new_publish_packet :
    (x : PublishPacketPayloads) (rest : List ℕ) (e : Error)
    → IsPublishable x
    → receive_publish (record { incoming = new_publish_packet x ++ rest; closing = e })
      ≡ ok (received x, record { incoming = rest; closing = e })
parse_publish_packet-new_publish_packet x rest e v = rw (new_publish_packet-framed x v.qos_range) (
    rw
      (read_packet-framed publish (x.packet_flag.qos * 2) (publish_body x) rest e (omega arith)
        (omega (arith, v.qos_range)) valid (body_pos x) v.fits)
      (rw parsed refl))
  where
    valid : validate_flags publish (x.packet_flag.qos * 2) ≡ true
    valid =
        (validate_flags_iff publish (x.packet_flag.qos * 2) (omega (arith, v.qos_range))).1
          (inl refl)

    parsed :
        parse_publish_packet (packet publish (x.packet_flag.qos * 2) (publish_body x))
        ≡ ok (received x)
    parsed =
        let p = packet publish (x.packet_flag.qos * 2) (publish_body x) in
        parse_publish_packet-publish_of p.header p.payload refl refl
        ∙ publish_of-body (length (publish_body x)) x v
