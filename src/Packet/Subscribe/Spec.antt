-- ===== src/Packet/Subscribe/Spec.antt =====
-- `ParseSubscribePacket` and `ParseUnSubscribePacket` as functions of the bytes of the body.
use life_stream_go_mqtt_brok.Packet.Reader.Refines.{
  check_remaining_length-is_more, is_more, length_unread, read_packet_payload-Agrees,
  read_uint16-Agrees, At-start, read_packet_byte-Agrees,
}
use life_stream_go_mqtt_brok.Errors.{Error, reading_topic_filter, reading_packet_id, reading_qos}
use life_stream_go_mqtt_brok.Packet.Reader.Spec.{
  At, Agrees-bind, Agrees-map_err, field_of, uint16_of, byte_of,
}
use life_stream_go_mqtt_brok.Prelude.Result.{Result, ok, stuck, ◌>>=◌, map_err}
use life_stream_go_mqtt_brok.Database.Types.{Subscription}
use life_stream_go_mqtt_brok.Mqtt.Frame.{Payload, FixedHeader}
use life_stream_go_mqtt_brok.Packet.Subscribe.{
  subscribe_loop, unsubscribe_loop, parse_subscribe_packet, parse_un_subscribe_packet, not_at_end,
  SubscribePacketPayloads, subscription_for,
}
use life_stream_go_mqtt_brok.Prelude.{
  ℕ, List, ◌≡◌, ◌∷◌, length, [], suc, arith, ==_refl, ne→not_==, ◌++◌, refl, zero, ◌-◌, bit_and,
}

unfoldable pub filters_of : ℕ → ℕ → List ℕ → List Subscription → Result Error (List Subscription)
filters_of zero n [] subs = ok subs
filters_of zero n (b ∷ s) subs = stuck
filters_of (suc fuel) n [] subs = ok subs
filters_of (suc fuel) n (b ∷ s) subs = do
  (topic, s1) ← map_err reading_topic_filter (field_of n (b ∷ s))
  (qos, s2) ← map_err reading_qos (byte_of s1)
  filters_of fuel n s2 (subs ++ subscription_for topic.payload (bit_and qos 0x02) ∷ [])

unfoldable pub topics_of : ℕ → ℕ → List ℕ → List Subscription → Result Error (List Subscription)
topics_of zero n [] subs = ok subs
topics_of zero n (b ∷ s) subs = stuck
topics_of (suc fuel) n [] subs = ok subs
topics_of (suc fuel) n (b ∷ s) subs = do
  (topic, s1) ← map_err reading_topic_filter (field_of n (b ∷ s))
  topics_of fuel n s1 (subs ++ subscription_for topic.payload 0 ∷ [])

abbrev with_id :
    (List ℕ → Result Error (List Subscription)) → List ℕ → Result Error SubscribePacketPayloads
with_id loop s = do
  (id, s1) ← map_err reading_packet_id (uint16_of s)
  subs ← loop s1
  ok (record { packet_id = id; subscriptions = subs })

unfoldable pub subscribe_of : ℕ → List ℕ → Result Error SubscribePacketPayloads
subscribe_of n = with_id (λ s. filters_of (length s) n s [])

unfoldable pub un_subscribe_of : ℕ → List ℕ → Result Error SubscribePacketPayloads
un_subscribe_of n = with_id (λ s. topics_of (length s) n s [])

subscribe_loop-filters_of :
    (fuel n : ℕ) (p : Payload) (s : List ℕ) (subs : List Subscription)
    → At n p s
    → subscribe_loop fuel p subs ≡ filters_of fuel n s subs
unfolding subscribe_loop filters_of
subscribe_loop-filters_of zero n p [] subs a = rw (check_remaining_length-is_more n p [] a) refl
subscribe_loop-filters_of zero n p (b ∷ s) subs a =
    rw (check_remaining_length-is_more n p (b ∷ s) a) refl
subscribe_loop-filters_of (suc fuel) n p [] subs a =
    rw (check_remaining_length-is_more n p [] a) refl
subscribe_loop-filters_of (suc fuel) n p (b ∷ s) subs a =
    rw (check_remaining_length-is_more n p (b ∷ s) a) (
      Agrees-bind n _ _ _ _
        (Agrees-map_err n reading_topic_filter _ _ (read_packet_payload-Agrees n p (b ∷ s) a))
        λ topic s1 p1 a1.
          Agrees-bind n _ _ _ _
            (Agrees-map_err n reading_qos _ _ (read_packet_byte-Agrees n p1 s1 a1))
            λ qos s2 p2 a2. subscribe_loop-filters_of fuel n p2 s2 _ a2)

not_at_end-is_more : (n : ℕ) (p : Payload) (s : List ℕ) → At n p s → not_at_end p ≡ is_more s
not_at_end-is_more n p [] a =
    let e : p.current_ptr ≡ p.context_len = omega (arith, length_unread n p [] a, a.len) in
    rw e (rw (==_refl p.context_len) refl)
not_at_end-is_more n p (b ∷ s) a =
    rw (ne→not_== p.current_ptr p.context_len (omega (arith, length_unread n p (b ∷ s) a, a.len)))
      refl

unsubscribe_loop-topics_of :
    (fuel n : ℕ) (p : Payload) (s : List ℕ) (subs : List Subscription)
    → At n p s
    → unsubscribe_loop fuel p subs ≡ topics_of fuel n s subs
unfolding unsubscribe_loop topics_of
unsubscribe_loop-topics_of zero n p [] subs a = rw (not_at_end-is_more n p [] a) refl
unsubscribe_loop-topics_of zero n p (b ∷ s) subs a = rw (not_at_end-is_more n p (b ∷ s) a) refl
unsubscribe_loop-topics_of (suc fuel) n p [] subs a = rw (not_at_end-is_more n p [] a) refl
unsubscribe_loop-topics_of (suc fuel) n p (b ∷ s) subs a = rw (not_at_end-is_more n p (b ∷ s) a) (
    Agrees-bind n _ _ _ _
      (Agrees-map_err n reading_topic_filter _ _ (read_packet_payload-Agrees n p (b ∷ s) a))
      λ topic s1 p1 a1. unsubscribe_loop-topics_of fuel n p1 s1 _ a1)

-- On a payload of which nothing is read yet, `ParseSubscribePacket` is its specification.
pub parse_subscribe_packet-subscribe_of :
    (h : FixedHeader) (p : Payload)
    → p.context_len ≡ length p.context
    → p.current_ptr ≡ 0
    → parse_subscribe_packet (record { header = h; payload = p })
      ≡ subscribe_of (length p.context) p.context
unfolding parse_subscribe_packet subscribe_of
parse_subscribe_packet-subscribe_of h p len start =
    let n = length p.context in
    Agrees-bind n _ _ _ _
      (Agrees-map_err n reading_packet_id _ _
        (read_uint16-Agrees n p p.context (At-start p len start)))
      λ id s1 p1 a1.
        let e : p1.context_len - p1.current_ptr ≡ length s1 =
          omega (arith, length_unread n p1 s1 a1, a1.len) in
        rw (e, subscribe_loop-filters_of (length s1) n p1 s1 [] a1) refl

-- The same for `ParseUnSubscribePacket`.
pub parse_un_subscribe_packet-un_subscribe_of :
    (h : FixedHeader) (p : Payload)
    → p.context_len ≡ length p.context
    → p.current_ptr ≡ 0
    → parse_un_subscribe_packet (record { header = h; payload = p })
      ≡ un_subscribe_of (length p.context) p.context
unfolding parse_un_subscribe_packet un_subscribe_of
parse_un_subscribe_packet-un_subscribe_of h p len start =
    let n = length p.context in
    Agrees-bind n _ _ _ _
      (Agrees-map_err n reading_packet_id _ _
        (read_uint16-Agrees n p p.context (At-start p len start)))
      λ id s1 p1 a1.
        let e : p1.context_len - p1.current_ptr ≡ length s1 =
          omega (arith, length_unread n p1 s1 a1, a1.len) in
        rw (e, unsubscribe_loop-topics_of (length s1) n p1 s1 [] a1) refl
