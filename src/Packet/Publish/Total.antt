-- ===== src/Packet/Publish/Total.antt =====
-- `ParsePublishPacket` on every packet that `ReadPacket` framed.
use life_stream_go_mqtt_brok.Packet.Reader.Spec.{
  uint16_of, uint16_of-lt, IsFieldOf, field_of, field_of-IsFieldOf,
}
use life_stream_go_mqtt_brok.Errors.{reading_packet_id, reading_topic_name}
use native.Mathlib.Decide.{dec_lt}
use life_stream_go_mqtt_brok.Prelude.Result.{
  Yields, Yields-map_err, Yields-weaken, Yields-bind, map_err,
}
use life_stream_go_mqtt_brok.Prelude.Bits.{and_0x06}
use life_stream_go_mqtt_brok.Mqtt.Frame.Read.{IsFramed}
use life_stream_go_mqtt_brok.Mqtt.Frame.{Packet}
use life_stream_go_mqtt_brok.Packet.Publish.Spec.{
  publish_of, id_of, parse_publish_packet-publish_of,
}
use life_stream_go_mqtt_brok.Packet.Publish.{
  PublishPacketPayloads, publish_flag, parse_publish_packet,
}
use life_stream_go_mqtt_brok.Prelude.{
  ◌<◌, ◌≡◌, false, length, ℕ, ◌==◌, Bool, List, arith, ◌&&◌, AllBytes, lt→ltb, refl, le→not_ltb,
  Bool-cases, inl, inr,
}

-- A message that the parser accepts.
pub record IsAccepted (x : PublishPacketPayloads) : Type 0 where
  pub qos_range : x.packet_flag.qos < 3
  pub first_try : x.packet_flag.qos ≡ 0 → x.packet_flag.retry_flag ≡ false
  pub topic_length : x.topic_name.payload_length ≡ length x.topic_name.payload
  pub topic_range : length x.topic_name.payload < 65536
  pub id_range : x.packet_id < 65536
  pub no_id : x.packet_flag.qos ≡ 0 → x.packet_id ≡ 0

-- The flags that the tests let through.
flag_range :
    (flags : ℕ)
    → flags < 16
    → ((publish_flag flags).qos == 3) ≡ false
    → (publish_flag flags).qos < 3
unfolding publish_flag
flag_range flags h e = ground (arith, and_0x06 flags)

first_try_only : (q : ℕ) (retry : Bool) → (q == 0 && retry) ≡ false → q ≡ 0 → retry ≡ false
first_try_only q retry h e = ground arith

id_of-accepted :
    (q : ℕ) (s : List ℕ)
    → AllBytes s
    → Yields (λ (r : ℕ × List ℕ). (r.0 < 65536) × (q ≡ 0 → r.0 ≡ 0)) (id_of q s)
id_of-accepted q s bytes = elim (dec_lt 0 q) [
  | yes pos ↦ rw (lt→ltb 0 q pos) (
      Yields-map_err _ reading_packet_id (uint16_of s) (
        Yields-weaken (λ (r : ℕ × List ℕ). r.0 < 65536) _ (uint16_of s) (uint16_of-lt s bytes)
          (λ r h. (h, λ z. absurd (omega arith)))))
  | no zero_qos ↦ rw (le→not_ltb 0 q (omega arith)) (omega arith, λ z. refl)
]

publish_of-IsAccepted :
    (n flags : ℕ) (s : List ℕ) → flags < 16 → AllBytes s → Yields IsAccepted (publish_of n flags s)
unfolding publish_of
publish_of-IsAccepted n flags s small bytes =
    let q = (publish_flag flags).qos in
    let retry = (publish_flag flags).retry_flag in
    elim (Bool-cases (q == 0 && retry)) [
      | inl again ↦ rw again tt
      | inr fresh ↦ rw fresh (elim (Bool-cases (q == 3)) [
        | inl three ↦ rw three tt
        | inr fine ↦ rw fine (
            Yields-bind IsFieldOf IsAccepted (map_err reading_topic_name (field_of n s)) _
              (Yields-map_err IsFieldOf reading_topic_name (field_of n s)
                (field_of-IsFieldOf n s bytes))
              λ (topic, s1) t.
                Yields-bind (λ (r : ℕ × List ℕ). (r.0 < 65536) × (q ≡ 0 → r.0 ≡ 0)) IsAccepted
                  (id_of q s1) _ (id_of-accepted q s1 t.2)
                  λ (id, s2) h. record {
                    qos_range = flag_range flags small fine;
                    first_try = first_try_only q retry fresh;
                    topic_length = t.0;
                    topic_range = t.1;
                    id_range = h.0;
                    no_id = h.1;
                  })
      ])
    ]

-- On every packet that `ReadPacket` framed the PUBLISH parser returns without a panic; and an
-- accepted message has a QoS of 0, 1 or 2, no retry flag and no packet ID at QoS 0, a packet ID of
-- 16 bits, and a topic of its recorded length.
pub parse_publish_packet_total :
    (packet : Packet) → IsFramed packet → Yields IsAccepted (parse_publish_packet packet)
parse_publish_packet_total packet f =
    rw (parse_publish_packet-publish_of packet.header packet.payload f.length_agrees f.at_start) (
      publish_of-IsAccepted (length packet.payload.context) packet.header.flags
        packet.payload.context f.flags_range f.bytes)
