-- ===== src/Packet/Subscribe/RoundTrip.antt =====
-- The parsers on the layout that MQTT gives a SUBSCRIBE and an UNSUBSCRIBE packet.
use life_stream_go_mqtt_brok.Packet.Reader.Spec.{byte_of}
use life_stream_go_mqtt_brok.Packet.Reader.Encoded.{
  encoded_field, field_of-encoded, length-encoded_field, uint16_of-encoded,
}
use life_stream_go_mqtt_brok.Prelude.Result.{ok}
use life_stream_go_mqtt_brok.Packet.Subscribe.Spec.{
  filters_of, subscribe_of, topics_of, un_subscribe_of, parse_subscribe_packet-subscribe_of,
  parse_un_subscribe_packet-un_subscribe_of,
}
use life_stream_go_mqtt_brok.Packet.Subscribe.{
  subscription_for, parse_subscribe_packet, parse_un_subscribe_packet,
}
use life_stream_go_mqtt_brok.Mqtt.Frame.{uint16_to_byte, FixedHeader, Packet}
use life_stream_go_mqtt_brok.Database.Types.{Subscription}
use life_stream_go_mqtt_brok.Prelude.{
  ℕ, List, All, ◌++◌, bit_and, length, ◌<◌, ◌≤◌, ◌≡◌, map, append-nil, suc, ◌∷◌, zero, [], refl,
  arith, ◌∙◌, ap, append_assoc,
}

-- One topic filter with the QoS byte that the client asks for.
abbrev pub Request : Type 0
Request = List ℕ × ℕ

abbrev pub encoded_requests : List Request → List ℕ
encoded_requests [] = []
encoded_requests ((topic, qos) ∷ rs) = encoded_field topic (qos ∷ encoded_requests rs)

abbrev pub subscribe_body : ℕ → List Request → List ℕ
subscribe_body id rs = uint16_to_byte id ++ encoded_requests rs

abbrev pub granted : Request → Subscription
granted (topic, qos) = subscription_for topic (bit_and qos 0x02)

abbrev pub Fits : Request → Type 0
Fits r = length r.0 < 65536

filters_of_step :
    (fuel n qos : ℕ) (topic rest : List ℕ) (subs : List Subscription)
    → length topic < 65536
    → filters_of (suc fuel) n (encoded_field topic (qos ∷ rest)) subs
      ≡ filters_of fuel n rest (subs ++ granted (topic, qos) ∷ [])
unfolding filters_of uint16_to_byte byte_of
filters_of_step fuel n qos topic rest subs h = rw (field_of-encoded n topic (qos ∷ rest) h) refl

filters_of-encoded :
    (fuel n : ℕ) (rs : List Request) (subs : List Subscription)
    → All Fits rs
    → length (encoded_requests rs) ≤ fuel
    → filters_of fuel n (encoded_requests rs) subs ≡ ok (subs ++ map granted rs)
filters_of-encoded zero n [] subs fits h = unfold filters_of in rw append-nil refl
filters_of-encoded (suc fuel) n [] subs fits h = unfold filters_of in rw append-nil refl
filters_of-encoded zero n ((topic, qos) ∷ rs) subs fits h =
    absurd (omega (arith, length-encoded_field topic (qos ∷ encoded_requests rs)))
filters_of-encoded (suc fuel) n ((topic, qos) ∷ rs) subs (fit, fits) h =
    filters_of_step fuel n qos topic (encoded_requests rs) subs fit
    ∙ filters_of-encoded fuel n rs (subs ++ granted (topic, qos) ∷ []) fits
        (omega (arith, length-encoded_field topic (qos ∷ encoded_requests rs)))
    ∙ ap ok (append_assoc subs (granted (topic, qos) ∷ []) (map granted rs))

abbrev pub subscribe_packet : FixedHeader → List ℕ → Packet
subscribe_packet h body = record {
  header = h;
  payload = record { context = body; context_len = length body; current_ptr = 0 };
}

-- A SUBSCRIBE body laid out as the protocol says is parsed to its packet ID and, in order, a
-- subscription for each topic filter, with the requested QoS masked by 2.
pub parse_subscribe_packet-subscribe_body :
    (h : FixedHeader) (id : ℕ) (rs : List Request)
    → id < 65536
    → All Fits rs
    → parse_subscribe_packet (subscribe_packet h (subscribe_body id rs))
      ≡ ok (record { packet_id = id; subscriptions = map granted rs })
unfolding subscribe_of
parse_subscribe_packet-subscribe_body h id rs small fits =
    let body = subscribe_body id rs in
    parse_subscribe_packet-subscribe_of h (subscribe_packet h body).payload refl refl
    ∙ rw (uint16_of-encoded id (encoded_requests rs) small) (
        rw
          (filters_of-encoded (length (encoded_requests rs)) (length body) rs [] fits (omega arith))
          refl)

abbrev pub encoded_topics : List (List ℕ) → List ℕ
encoded_topics [] = []
encoded_topics (topic ∷ ts) = encoded_field topic (encoded_topics ts)

abbrev pub un_subscribe_body : ℕ → List (List ℕ) → List ℕ
un_subscribe_body id ts = uint16_to_byte id ++ encoded_topics ts

abbrev pub named : List ℕ → Subscription
named topic = subscription_for topic 0

topics_of_step :
    (fuel n : ℕ) (topic rest : List ℕ) (subs : List Subscription)
    → length topic < 65536
    → topics_of (suc fuel) n (encoded_field topic rest) subs
      ≡ topics_of fuel n rest (subs ++ named topic ∷ [])
unfolding topics_of uint16_to_byte
topics_of_step fuel n topic rest subs h = rw (field_of-encoded n topic rest h) refl

topics_of-encoded :
    (fuel n : ℕ) (ts : List (List ℕ)) (subs : List Subscription)
    → All (λ (t : List ℕ). length t < 65536) ts
    → length (encoded_topics ts) ≤ fuel
    → topics_of fuel n (encoded_topics ts) subs ≡ ok (subs ++ map named ts)
topics_of-encoded zero n [] subs fits h = unfold topics_of in rw append-nil refl
topics_of-encoded (suc fuel) n [] subs fits h = unfold topics_of in rw append-nil refl
topics_of-encoded zero n (topic ∷ ts) subs fits h =
    absurd (omega (arith, length-encoded_field topic (encoded_topics ts)))
topics_of-encoded (suc fuel) n (topic ∷ ts) subs (fit, fits) h =
    topics_of_step fuel n topic (encoded_topics ts) subs fit
    ∙ topics_of-encoded fuel n ts (subs ++ named topic ∷ []) fits
        (omega (arith, length-encoded_field topic (encoded_topics ts)))
    ∙ ap ok (append_assoc subs (named topic ∷ []) (map named ts))

-- An UNSUBSCRIBE body laid out as the protocol says is parsed to its packet ID and its topic
-- filters, in order.
pub parse_un_subscribe_packet-un_subscribe_body :
    (h : FixedHeader) (id : ℕ) (ts : List (List ℕ))
    → id < 65536
    → All (λ (t : List ℕ). length t < 65536) ts
    → parse_un_subscribe_packet (subscribe_packet h (un_subscribe_body id ts))
      ≡ ok (record { packet_id = id; subscriptions = map named ts })
unfolding un_subscribe_of
parse_un_subscribe_packet-un_subscribe_body h id ts small fits =
    let body = un_subscribe_body id ts in
    parse_un_subscribe_packet-un_subscribe_of h (subscribe_packet h body).payload refl refl
    ∙ rw (uint16_of-encoded id (encoded_topics ts) small) (
        rw (topics_of-encoded (length (encoded_topics ts)) (length body) ts [] fits (omega arith))
          refl)
