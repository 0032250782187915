-- ===== src/Packet/Connect/RoundTrip.antt =====
-- `ParseConnectPacket` on the layout that MQTT 3.1.1 gives a CONNECT packet.
use life_stream_go_mqtt_brok.Prelude.Result.{ok}
use life_stream_go_mqtt_brok.Prelude.Bits.{
  and_0x80, and_0x40, and_0x20, and_0x18, and_0x04, and_0x02,
}
use life_stream_go_mqtt_brok.Errors.{Error, will_topic, will_content, username, password}
use life_stream_go_mqtt_brok.Mqtt.Frame.{uint16_to_byte, FixedHeader}
use life_stream_go_mqtt_brok.Packet.Connect.Spec.{
  lacks_will, field_if, flags_of, header_of, connect_of, version_of,
  parse_connect_packet-connect_of,
}
use life_stream_go_mqtt_brok.Packet.Reader.Encoded.{
  encoded_field, field_of-encoded, uint16_of-encoded, field_of-field,
}
use life_stream_go_mqtt_brok.Packet.Reader.{FieldPayload}
use life_stream_go_mqtt_brok.Packet.Connect.{
  ConnectPacketFlag, ConnectPacketPayloads, connect_flag, protocol_name, no_field,
  parse_connect_packet,
}
use life_stream_go_mqtt_brok.Prelude.{
  ℕ, Bool, true, ◌*◌, List, ◌<◌, ◌≡◌, false, ◌+◌, length, ◌==◌, arith, ◌∷◌, ◌++◌, [], ◌≤◌, ◌/◌, ◌%◌,
  ◌∙◌, ap, sym, ne→not_==, refl, bytes_eq_refl,
}

abbrev pub bit : Bool → ℕ
bit true = 1
bit false = 0

-- The connect flags as one byte.
abbrev pub flag_byte : ConnectPacketFlag → ℕ
flag_byte f =
    bit f.username_flag * 128
    + bit f.password_flag * 64
    + bit f.remain_flag * 32
    + f.qos_level * 8
    + bit f.will_message_flag * 4
    + bit f.clean_session * 2

abbrev pub encoded_if : Bool → FieldPayload → List ℕ → List ℕ
encoded_if true x rest = encoded_field x.payload rest
encoded_if false x rest = rest

-- The body of the packet, as the protocol lays it out.
pub connect_body : ConnectPacketPayloads → List ℕ
connect_body x = encoded_field protocol_name (
    0x04
    ∷ flag_byte x.connect_flag
    ∷ (uint16_to_byte x.keep_alive
        ++ encoded_field x.client_identifier.payload (
            encoded_if x.connect_flag.will_message_flag x.will_message_topic (
              encoded_if x.connect_flag.will_message_flag x.will_message_content (
                encoded_if x.connect_flag.username_flag x.username_payload
                  (encoded_if x.connect_flag.password_flag x.password_payload []))))))

-- A field that its flag announces has its length and fits 16 bits; any other is the zero value.
abbrev pub IsField : Bool → FieldPayload → Type 0
IsField true x = (x.payload_length ≡ length x.payload) × (length x.payload < 65536)
IsField false x = x ≡ no_field

pub record IsConnectable (x : ConnectPacketPayloads) : Type 0 where
  pub qos_range : x.connect_flag.qos_level < 4
  pub will_agrees : lacks_will x.connect_flag ≡ false
  pub keep_alive_range : x.keep_alive < 65536
  pub client : IsField true x.client_identifier
  pub client_named : 0 < x.client_identifier.payload_length
  pub topic : IsField x.connect_flag.will_message_flag x.will_message_topic
  pub content : IsField x.connect_flag.will_message_flag x.will_message_content
  pub user : IsField x.connect_flag.username_flag x.username_payload
  pub pass : IsField x.connect_flag.password_flag x.password_payload

flag_is : (n : ℕ) (b : Bool) → n ≡ bit b → (n == 1) ≡ b
flag_is n b h = ground arith

bit-le : (b : Bool) → bit b ≤ 1
bit-le true = omega arith
bit-le false = omega arith

-- The fields of a byte of five bits and a two-bit number, by arithmetic.
module _ (u p r q w c : ℕ) (hu : u ≤ 1) (hp : p ≤ 1) (hr : r ≤ 1) (hq : q < 4) (hw : w ≤ 1)
    (hc : c ≤ 1) where
  abbrev packed : ℕ
  packed = u * 128 + p * 64 + r * 32 + q * 8 + w * 4 + c * 2

  packed-lt : packed < 256
  packed-lt = omega arith

  packed_fields :
      (packed / 128 ≡ u)
      × (packed / 64 % 2 ≡ p)
      × (packed / 32 % 2 ≡ r)
      × (packed / 8 % 4 ≡ q)
      × (packed / 4 % 2 ≡ w)
      × (packed / 2 % 2 ≡ c)
  packed_fields = (omega arith, omega arith, omega arith, omega arith, omega arith, omega arith)

pub connect_flag-flag_byte :
    (f : ConnectPacketFlag) → f.qos_level < 4 → connect_flag (flag_byte f) ≡ f
unfolding connect_flag
connect_flag-flag_byte f h = λ i. record {
  username_flag = flag_is _ f.username_flag (and_0x80 b small ∙ fields.0) i;
  password_flag = flag_is _ f.password_flag (and_0x40 b small ∙ fields.1) i;
  remain_flag = flag_is _ f.remain_flag (and_0x20 b small ∙ fields.2) i;
  qos_level = (and_0x18 b small ∙ fields.3) i;
  will_message_flag = flag_is _ f.will_message_flag (and_0x04 b small ∙ fields.4) i;
  clean_session = flag_is _ f.clean_session (and_0x02 b small ∙ fields.5) i;
}
  where
    b : ℕ
    b = flag_byte f

    small : b < 256
    small =
        packed-lt (bit f.username_flag) (bit f.password_flag) (bit f.remain_flag) f.qos_level
          (bit f.will_message_flag) (bit f.clean_session) (bit-le f.username_flag)
          (bit-le f.password_flag) (bit-le f.remain_flag) h (bit-le f.will_message_flag)
          (bit-le f.clean_session)

    fields :
        (b / 128 ≡ bit f.username_flag)
        × (b / 64 % 2 ≡ bit f.password_flag)
        × (b / 32 % 2 ≡ bit f.remain_flag)
        × (b / 8 % 4 ≡ f.qos_level)
        × (b / 4 % 2 ≡ bit f.will_message_flag)
        × (b / 2 % 2 ≡ bit f.clean_session)
    fields =
        packed_fields (bit f.username_flag) (bit f.password_flag) (bit f.remain_flag) f.qos_level
          (bit f.will_message_flag) (bit f.clean_session) (bit-le f.username_flag)
          (bit-le f.password_flag) (bit-le f.remain_flag) h (bit-le f.will_message_flag)
          (bit-le f.clean_session)

pub field_if-encoded_if :
    (n : ℕ) (flag : Bool) (w : Error → Error) (x : FieldPayload) (rest : List ℕ)
    → IsField flag x
    → field_if n flag w (encoded_if flag x rest) ≡ ok (x, rest)
unfolding field_if
field_if-encoded_if n true w x rest h = rw (field_of-field n x rest h.0 h.1)
field_if-encoded_if n false w x rest h = ap (λ (y : FieldPayload). ok (y, rest)) (sym h)

flags_of-encoded :
    (f : ConnectPacketFlag) (k : ℕ) (rest : List ℕ)
    → f.qos_level < 4
    → lacks_will f ≡ false
    → k < 65536
    → flags_of (flag_byte f ∷ (uint16_to_byte k ++ rest))
      ≡ ok (record { flag = f; keep_alive = k }, rest)
unfolding flags_of
flags_of-encoded f k rest h will hk =
    rw (connect_flag-flag_byte f h, will) (rw (uint16_of-encoded k rest hk) refl)

header_of-encoded :
    (n : ℕ) (f : ConnectPacketFlag) (k : ℕ) (rest : List ℕ)
    → f.qos_level < 4
    → lacks_will f ≡ false
    → k < 65536
    → header_of n (encoded_field protocol_name (0x04 ∷ flag_byte f ∷ (uint16_to_byte k ++ rest)))
      ≡ ok (record { flag = f; keep_alive = k }, rest)
unfolding header_of version_of
header_of-encoded n f k rest h will hk =
    rw
      (field_of-encoded n protocol_name (0x04 ∷ flag_byte f ∷ (uint16_to_byte k ++ rest))
        (omega arith))
      (rw (bytes_eq_refl protocol_name) (flags_of-encoded f k rest h will hk))

connect_of-connect_body :
    (n : ℕ) (x : ConnectPacketPayloads) → IsConnectable x → connect_of n (connect_body x) ≡ ok x
unfolding connect_of connect_body
connect_of-connect_body n x v =
    rw
      (header_of-encoded n x.connect_flag x.keep_alive _ v.qos_range v.will_agrees
        v.keep_alive_range)
      (rw
        (
          field_of-field n x.client_identifier _ v.client.0 v.client.1,
          ne→not_== x.client_identifier.payload_length 0 (omega (arith, v.client_named)),
        )
        (rw
          (field_if-encoded_if n x.connect_flag.will_message_flag will_topic x.will_message_topic _
            v.topic)
          (rw
            (field_if-encoded_if n x.connect_flag.will_message_flag will_content
              x.will_message_content _ v.content)
            (rw
              (field_if-encoded_if n x.connect_flag.username_flag username x.username_payload _
                v.user)
              (rw
                (field_if-encoded_if n x.connect_flag.password_flag password x.password_payload []
                  v.pass)
                refl)))))

-- A CONNECT packet laid out as the protocol says is parsed to what it carries: every flag, the keep
-- alive time, the client identifier, and each optional field that its flag announces. The flags may
-- not speak of an absent will message, and the client identifier may not be empty.
pub parse_connect_packet-connect_body :
    (h : FixedHeader) (x : ConnectPacketPayloads)
    → IsConnectable x
    → parse_connect_packet (record {
      header = h;
      payload = record {
        context = connect_body x;
        context_len = length (connect_body x);
        current_ptr = 0;
      };
    })
      ≡ ok x
parse_connect_packet-connect_body h x v =
    parse_connect_packet-connect_of h _ refl refl
    ∙ connect_of-connect_body (length (connect_body x)) x v
