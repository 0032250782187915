-- ===== src/Mqtt/Frame/Read.antt =====
-- `ReadPacket`: what it takes off a connection, and that it reads what a sender framed.
use life_stream_go_mqtt_brok.Mqtt.Length.Decode.{Taken, decode_takes}
use native.Mathlib.Decide.{dec_le}
use life_stream_go_mqtt_brok.Prelude.Bits.{and_15}
use life_stream_go_mqtt_brok.Mqtt.Length.RoundTrip.{decode-encode}
use life_stream_go_mqtt_brok.Mqtt.Conn.{read_full-append, Conn, read_full}
use life_stream_go_mqtt_brok.Prelude.Result.{ok, Yields, Yields-bind, ◌>>=◌, err, index}
use life_stream_go_mqtt_brok.Mqtt.Length.{encode_remaining_length, decode_remaining_length}
use life_stream_go_mqtt_brok.Errors.{Error, invalid_flags}
use life_stream_go_mqtt_brok.Mqtt.Frame.{read_packet, Packet, packet_of}
use life_stream_go_mqtt_brok.Mqtt.PacketType.{PacketType, validate_flags}
use life_stream_go_mqtt_brok.Prelude.{
  ℕ, List, ◌*◌, ◌+◌, length, ◌<◌, ◌∷◌, ◌≡◌, ◌++◌, true, ◌^◌, [], append_assoc, ◌/◌, AllBytes, arith,
  ◌≤◌, bit_and, le→leb, length-take, AllBytes-take, AllBytes-drop, length-drop, lt→not_leb,
  Bool-cases, ◌==◌, inl, inr, refl, if◌then◌else◌, sym, ◌∙◌,
}

-- One framed packet: the type and the flags, the remaining length, and the body.
abbrev pub framed : ℕ → ℕ → List ℕ → List ℕ
framed t flags body = (t * 16 + flags) ∷ (encode_remaining_length (length body) ++ body)

abbrev pub packet : PacketType → ℕ → List ℕ → Packet
packet t flags body = record {
  header = record { packet_type = t; flags = flags; remaining_length = length body };
  payload = record { context = body; context_len = length body; current_ptr = 0 };
}

-- A framed packet with an admitted type and flags and a body of 1 to 268435455 bytes is read back,
-- and the bytes behind it are left on the connection.
pub read_packet-framed :
    (t flags : ℕ) (body rest : List ℕ) (e : Error)
    → t < 16
    → flags < 16
    → validate_flags t flags ≡ true
    → 0 < length body
    → length body < 2 ^ 28
    → read_packet (record { incoming = framed t flags body ++ rest; closing = e })
      ≡ ok (packet t flags body, record { incoming = rest; closing = e })
unfolding read_packet
read_packet-framed t flags body rest e ht hf valid pos fits =
    rw
      (read_full-append ((t * 16 + flags) ∷ [])
        ((encode_remaining_length (length body) ++ body) ++ rest) e)
      (rw (append_assoc (encode_remaining_length (length body)) body rest) (
        rw (decode-encode (length body) (body ++ rest) e pos fits)
          (rw (read_full-append body rest e) (rw (high, low, valid)))))
  where
    high : (t * 16 + flags) / 16 ≡ t
    high = omega arith

    low : bit_and (t * 16 + flags) 0x0F ≡ flags
    low = omega (arith, and_15 (t * 16 + flags))

-- A packet that the parsers can start on, of a type and flags that `ValidateFlags` admits.
pub record IsFramed (p : Packet) : Type 0 where
  pub type_range : p.header.packet_type < 16
  pub flags_range : p.header.flags < 16
  pub flags_valid : validate_flags p.header.packet_type p.header.flags ≡ true
  pub length_agrees : p.payload.context_len ≡ length p.payload.context
  pub remaining_agrees : p.header.remaining_length ≡ length p.payload.context
  pub remaining_range : p.header.remaining_length < 2 ^ 28
  pub at_start : p.payload.current_ptr ≡ 0
  pub bytes : AllBytes p.payload.context

-- What one `ReadPacket` leaves of a connection: the same end, and at least two bytes fewer.
abbrev pub ReadFrom : Conn → Packet × Conn → Type 0
ReadFrom c (p, c') =
    IsFramed p
    × (c'.closing ≡ c.closing)
    × AllBytes c'.incoming
    × (length c'.incoming + 2 + length p.payload.context ≤ length c.incoming)

-- What `io.ReadFull` hands over.
abbrev Filled : ℕ → Conn → List ℕ × Conn → Type 0
Filled n c (xs, c') =
    (length xs ≡ n)
    × AllBytes xs
    × (c'.closing ≡ c.closing)
    × AllBytes c'.incoming
    × (length c'.incoming + n ≡ length c.incoming)

read_full_takes : (n : ℕ) (c : Conn) → AllBytes c.incoming → Yields (Filled n c) (read_full n c)
unfolding read_full
read_full_takes n c bytes = elim (dec_le n (length c.incoming)) [
  | yes p ↦ rw (le→leb n (length c.incoming) p) (
    omega (arith, length-take n c.incoming),
    AllBytes-take n c.incoming bytes,
    refl,
    AllBytes-drop n c.incoming bytes,
    omega (arith, length-drop n c.incoming),
  )
  | no p ↦
      rw (lt→not_leb n (length c.incoming) (omega arith))
        (elim (Bool-cases (length c.incoming == 0)) [
          | inl empty ↦ rw empty tt
          | inr some_came ↦ rw some_came tt
        ])
]

-- The last step: the flags of the packet decide.
checked :
    (b n : ℕ) (c c' : Conn) (body : List ℕ)
    → b < 256
    → length body ≡ n
    → AllBytes body
    → n < 2 ^ 28
    → c'.closing ≡ c.closing
    → AllBytes c'.incoming
    → length c'.incoming + 2 + length body ≤ length c.incoming
    → (let p = packet_of b n body in
        Yields (ReadFrom c) (
          if validate_flags p.header.packet_type p.header.flags
          then ok (p, c')
          else err (invalid_flags p.header.flags p.header.packet_type)))
checked b n c c' body hb len bytes fits end rest less =
    elim (Bool-cases (validate_flags (b / 16) (bit_and b 0x0F))) [
      | inl valid ↦ rw valid (
        record {
          type_range = omega arith;
          flags_range = omega (arith, and_15 b);
          flags_valid = valid;
          length_agrees = refl;
          remaining_agrees = sym len;
          remaining_range = fits;
          at_start = refl;
          bytes = bytes;
        },
        end,
        rest,
        less,
      )
      | inr invalid ↦ rw invalid tt
    ]

-- What follows the type byte.
body_read :
    (xs : List ℕ) (c c1 : Conn)
    → Filled 1 c (xs, c1)
    → Yields (ReadFrom c) (do
      (remaining, c2) ← decode_remaining_length c1
      (payload, c3) ← read_full remaining c2
      first ← index xs 0
      let p = packet_of first remaining payload
      if validate_flags p.header.packet_type p.header.flags
          then ok (p, c3)
          else err (invalid_flags p.header.flags p.header.packet_type))
body_read [] c c1 h = absurd (omega (arith, h.0))
body_read (b ∷ xs) c c1 (len, bytes, end, rest, less) =
    Yields-bind (Taken (2 ^ 28) 4 c1.incoming c1.closing) (ReadFrom c) (decode_remaining_length c1)
      _ (decode_takes c1 rest)
      λ (n, c2) t.
        Yields-bind (Filled n c2) (ReadFrom c) (read_full n c2) _ (read_full_takes n c2 t.2)
          λ (body, c3) f.
            checked b n c c3 body bytes.0 f.0 f.1 t.0 (f.2 ∙ (t.1 ∙ end)) f.3
              (omega (arith, f.0, f.4, t.3, less))

-- On every connection `ReadPacket` returns a packet or an error and never panics. A packet is well
-- framed, and what is left on the connection is shorter by the body and at least two bytes.
pub read_packet-ReadFrom : (c : Conn) → AllBytes c.incoming → Yields (ReadFrom c) (read_packet c)
unfolding read_packet
read_packet-ReadFrom c bytes =
    Yields-bind (Filled 1 c) (ReadFrom c) (read_full 1 c) _ (read_full_takes 1 c bytes)
      λ (xs, c1) h. body_read xs c c1 h
