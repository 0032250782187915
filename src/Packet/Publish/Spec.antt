-- ===== src/Packet/Publish/Spec.antt =====
-- `ParsePublishPacket` as a function of the header flags and the bytes of the body.
use life_stream_go_mqtt_brok.Packet.Reader.{
  read_uint16, read_packet_resume_byte, FieldPayload, read_packet_payload,
}
use life_stream_go_mqtt_brok.Packet.Reader.Refines.{
  check_remaining_length-is_more, read_packet_resume_byte-Agrees, read_uint16-Agrees, At-start,
  read_packet_payload-Agrees,
}
use life_stream_go_mqtt_brok.Packet.Publish.{
  PublishPacketPayloads, publish_flag, parse_publish_packet, PublishPacketFlag,
}
use life_stream_go_mqtt_brok.Errors.{
  Error, reading_packet_id, reading_payload, retry_without_qos, qos_must_not_be_three,
  reading_topic_name,
}
use life_stream_go_mqtt_brok.Packet.Reader.Spec.{
  At, Agrees, Agrees-bind, uint16_of, Agrees-map_err, field_of, bytes_of-length,
}
use life_stream_go_mqtt_brok.Prelude.Result.{Result, ok, map_err, ◌>>=◌, err}
use life_stream_go_mqtt_brok.Mqtt.Frame.{Payload, check_remaining_length, FixedHeader}
use life_stream_go_mqtt_brok.Prelude.{
  ℕ, List, Option, none, ◌≡◌, if◌then◌else◌, ◌∷◌, ltb, some, [], ◌==◌, ◌&&◌, Bool-cases, inl, ◌∙◌,
  refl, inr, length,
}

-- the packet ID, which QoS 0 does not have
abbrev pub id_of : ℕ → List ℕ → Result Error (ℕ × List ℕ)
id_of qos s = if ltb 0 qos then map_err reading_packet_id (uint16_of s) else ok (0, s)

-- What is left is the payload; none where nothing is left.
abbrev pub content_of : List ℕ → Option (List ℕ)
content_of [] = none
content_of (b ∷ s) = some (b ∷ s)

unfoldable pub publish_of : ℕ → ℕ → List ℕ → Result Error PublishPacketPayloads
publish_of total flags s =
    let flag = publish_flag flags in
    if flag.qos == 0 && flag.retry_flag
    then err retry_without_qos
    else if flag.qos == 3
    then err qos_must_not_be_three
    else do
      (topic, s1) ← map_err reading_topic_name (field_of total s)
      (id, s2) ← id_of flag.qos s1
      ok (record {
        packet_flag = flag;
        topic_name = topic;
        packet_id = id;
        payload = content_of s2;
      })

abbrev packet_with : PublishPacketFlag → FieldPayload → ℕ → Option (List ℕ) → PublishPacketPayloads
packet_with flag topic id content = record {
  packet_flag = flag;
  topic_name = topic;
  packet_id = id;
  payload = content;
}

-- The two ways to go on after the topic name.
id_step :
    (n qos : ℕ) (p : Payload) (s : List ℕ)
    → At n p s
    → Agrees n
        (id_of qos s)
        (if ltb 0 qos then map_err reading_packet_id (read_uint16 p) else ok (0, p))
id_step n qos p s a = elim (Bool-cases (ltb 0 qos)) [
  | inl some_qos ↦ rw some_qos (
      Agrees-map_err n reading_packet_id (uint16_of s) (read_uint16 p) (read_uint16-Agrees n p s a))
  | inr no_qos ↦ rw no_qos (refl, a)
]

abbrev read_content : Payload → Result Error (Option (List ℕ))
read_content p =
    if check_remaining_length p
    then (do (xs, p3) ← map_err reading_payload (read_packet_resume_byte p); ok (some xs))
    else ok none

content_step : (n : ℕ) (p : Payload) (s : List ℕ) → At n p s → read_content p ≡ ok (content_of s)
content_step n p [] a = rw (check_remaining_length-is_more n p [] a)
content_step n p (b ∷ s) a = rw (check_remaining_length-is_more n p (b ∷ s) a) (
    Agrees-bind n _ _ (λ (xs, s). ok (some xs)) _
      (Agrees-map_err n reading_payload _ _ (read_packet_resume_byte-Agrees n p (b ∷ s) a))
      (λ xs s' p' h. refl)
    ∙ rw bytes_of-length refl)

-- The fields of the packet, one after the other.
fields_step :
    (n : ℕ) (flag : PublishPacketFlag) (p : Payload) (s : List ℕ)
    → At n p s
    → (do
      (topic, p1) ← map_err reading_topic_name (read_packet_payload p)
      (id, p2) ← (if ltb 0 flag.qos then map_err reading_packet_id (read_uint16 p1) else ok (0, p1))
      content ← read_content p2
      ok (packet_with flag topic id content))
      ≡ (do
        (topic, s1) ← map_err reading_topic_name (field_of n s)
        (id, s2) ← id_of flag.qos s1
        ok (packet_with flag topic id (content_of s2)))
fields_step n flag p s a =
    Agrees-bind n _ _ _ _
      (Agrees-map_err n reading_topic_name _ _ (read_packet_payload-Agrees n p s a))
      λ topic s1 p1 a1.
        Agrees-bind n _ _ _ _ (id_step n flag.qos p1 s1 a1)
          λ id s2 p2 a2. rw (content_step n p2 s2 a2) refl

-- On a payload of which nothing is read yet, `ParsePublishPacket` is its specification: it returns
-- the same packet or the same error, and never panics.
pub parse_publish_packet-publish_of :
    (h : FixedHeader) (p : Payload)
    → p.context_len ≡ length p.context
    → p.current_ptr ≡ 0
    → parse_publish_packet (record { header = h; payload = p })
      ≡ publish_of (length p.context) h.flags p.context
unfolding parse_publish_packet publish_of
parse_publish_packet-publish_of h p len start =
    elim (Bool-cases ((publish_flag h.flags).qos == 0 && (publish_flag h.flags).retry_flag)) [
      | inl retry ↦ rw retry refl
      | inr no_retry ↦ rw no_retry (elim (Bool-cases ((publish_flag h.flags).qos == 3)) [
        | inl three ↦ rw three refl
        | inr fine ↦ rw fine (
            fields_step (length p.context) (publish_flag h.flags) p p.context
              (At-start p len start))
      ])
    ]
