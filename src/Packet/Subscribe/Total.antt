-- ===== src/Packet/Subscribe/Total.antt =====
-- The loops of the two parsers end on every input.
use life_stream_go_mqtt_brok.Errors.{reading_topic_filter, reading_packet_id, reading_qos}
use life_stream_go_mqtt_brok.Packet.Reader.Spec.{
  Shorter, field_of_takes, uint16_of_takes, byte_of_takes, Shorter-bind, field_of, uint16_of,
  byte_of,
}
use life_stream_go_mqtt_brok.Packet.Subscribe.{
  SubscribePacketPayloads, parse_un_subscribe_packet, parse_subscribe_packet, subscription_for,
}
use life_stream_go_mqtt_brok.Prelude.Bits.{and_2}
use life_stream_go_mqtt_brok.Prelude.Result.{Yields, Yields-bind, Yields-map_err, map_err}
use life_stream_go_mqtt_brok.Mqtt.Frame.Read.{IsFramed}
use life_stream_go_mqtt_brok.Mqtt.Frame.{Packet}
use life_stream_go_mqtt_brok.Packet.Subscribe.Spec.{
  filters_of, topics_of, subscribe_of, un_subscribe_of, parse_un_subscribe_packet-un_subscribe_of,
  parse_subscribe_packet-subscribe_of,
}
use life_stream_go_mqtt_brok.Database.Types.{Subscription}
use life_stream_go_mqtt_brok.Prelude.{
  ℕ, ◌<◌, ◌≡◌, bit_and, List, ◌⊎◌, length, arith, ◌≤◌, AllBytes, All, ◌∷◌, suc, IsByte, zero, [],
  ◌++◌, All-append,
}

-- The QoS levels that `qos & 0x02` leaves: QoS 1 is not among them.
abbrev pub IsMasked : Subscription → Type 0
IsMasked s = (s.qos_level ≡ 0) ⊎ (s.qos_level ≡ 2)

masked : (q : ℕ) → q < 256 → (bit_and q 0x02 ≡ 0) ⊎ (bit_and q 0x02 ≡ 2)
masked q h = omega (arith, and_2 q h)

filters_of_total :
    (fuel n : ℕ) (s : List ℕ) (subs : List Subscription)
    → length s ≤ fuel
    → AllBytes s
    → All IsMasked subs
    → Yields (All IsMasked) (filters_of fuel n s subs)
unfolding filters_of
filters_of_total zero n [] subs h bytes m = m
filters_of_total zero n (b ∷ s) subs h bytes m = absurd (omega arith)
filters_of_total (suc fuel) n [] subs h bytes m = m
filters_of_total (suc fuel) n (b ∷ s) subs h bytes m =
    Shorter-bind (All IsMasked) 2 (b ∷ s) reading_topic_filter (field_of n (b ∷ s)) _
      (field_of_takes n (b ∷ s) bytes)
      λ topic s1 less1 bytes1.
        Yields-bind (λ (r : ℕ × List ℕ). IsByte r.0 × Shorter 1 s1 r) (All IsMasked)
          (map_err reading_qos (byte_of s1)) _
          (Yields-map_err _ reading_qos (byte_of s1) (byte_of_takes s1 bytes1))
          λ (qos, s2) t2.
            filters_of_total fuel n s2
              (subs ++ subscription_for topic.payload (bit_and qos 0x02) ∷ [])
              (omega (arith, t2.1.0)) t2.1.1
              (All-append IsMasked subs (subscription_for topic.payload (bit_and qos 0x02) ∷ []) m
                (masked qos t2.0, tt))

topics_of_total :
    (fuel n : ℕ) (s : List ℕ) (subs : List Subscription)
    → length s ≤ fuel
    → AllBytes s
    → Yields (λ _. Unit) (topics_of fuel n s subs)
unfolding topics_of
topics_of_total zero n [] subs h bytes = tt
topics_of_total zero n (b ∷ s) subs h bytes = absurd (omega arith)
topics_of_total (suc fuel) n [] subs h bytes = tt
topics_of_total (suc fuel) n (b ∷ s) subs h bytes =
    Shorter-bind (λ _. Unit) 2 (b ∷ s) reading_topic_filter (field_of n (b ∷ s)) _
      (field_of_takes n (b ∷ s) bytes)
      λ topic s1 less bytes1.
        topics_of_total fuel n s1 (subs ++ subscription_for topic.payload 0 ∷ []) (omega arith)
          bytes1

abbrev AllMasked : SubscribePacketPayloads → Type 0
AllMasked x = All IsMasked x.subscriptions

-- On every packet that `ReadPacket` framed the SUBSCRIBE parser returns, without a panic and within
-- its fuel; and no subscription that it returns asks for QoS 1.
pub parse_subscribe_packet_total :
    (packet : Packet)
    → IsFramed packet
    → Yields
        (λ (x : SubscribePacketPayloads). All IsMasked x.subscriptions)
        (parse_subscribe_packet packet)
unfolding subscribe_of
parse_subscribe_packet_total packet f =
    let body = packet.payload.context in
    rw (parse_subscribe_packet-subscribe_of packet.header packet.payload f.length_agrees f.at_start)
      (Shorter-bind AllMasked 2 body reading_packet_id (uint16_of body) _
        (uint16_of_takes body f.bytes)
        λ id s less bytes.
          Yields-bind (All IsMasked) AllMasked (filters_of (length s) (length body) s []) _
            (filters_of_total (length s) (length body) s [] (omega arith) bytes tt) λ subs m. m)

-- On every packet that `ReadPacket` framed the UNSUBSCRIBE parser returns, without a panic and
-- within its fuel.
pub parse_un_subscribe_packet_total :
    (packet : Packet) → IsFramed packet → Yields (λ _. Unit) (parse_un_subscribe_packet packet)
unfolding un_subscribe_of
parse_un_subscribe_packet_total packet f =
    let body = packet.payload.context in
    rw
      (parse_un_subscribe_packet-un_subscribe_of packet.header packet.payload f.length_agrees
        f.at_start)
      (Shorter-bind (λ _. Unit) 2 body reading_packet_id (uint16_of body) _
        (uint16_of_takes body f.bytes)
        λ id s less bytes.
          Yields-bind (λ _. Unit) (λ _. Unit) (topics_of (length s) (length body) s []) _
            (topics_of_total (length s) (length body) s [] (omega arith) bytes) λ subs m. tt)
