-- ===== src/Packet/Reader/Encoded.antt =====
-- The reads on what the protocol's layout writes: two bytes of a length, and that many bytes.
use life_stream_go_mqtt_brok.Prelude.Result.{ok}
use life_stream_go_mqtt_brok.Mqtt.Frame.{uint16_to_byte}
use life_stream_go_mqtt_brok.Packet.Reader.{FieldPayload}
use life_stream_go_mqtt_brok.Packet.Reader.Spec.{field_of, uint16_of}
use life_stream_go_mqtt_brok.Prelude.{
  ℕ, List, length, ◌<◌, ◌++◌, ◌≡◌, ◌/◌, ◌*◌, ◌+◌, ◌%◌, arith, le→leb, refl, length-append,
  take-append, drop-append, sym, ◌∙◌, ap,
}

abbrev pub field : List ℕ → FieldPayload
field xs = record { payload_length = length xs; payload = xs }

abbrev pub encoded_field : List ℕ → List ℕ → List ℕ
encoded_field xs rest = uint16_to_byte (length xs) ++ (xs ++ rest)

pub field_of-encoded :
    (n : ℕ) (xs rest : List ℕ)
    → length xs < 65536
    → field_of n (encoded_field xs rest) ≡ ok (field xs, rest)
unfolding field_of uint16_to_byte
field_of-encoded n xs rest h =
    rw
      (
        whole,
        le→leb (length xs) (length (xs ++ rest)) (omega (arith, length-append xs rest)),
        take-append xs rest (length xs) refl,
        drop-append xs rest (length xs) refl,
      )
      refl
  where
    whole : length xs / 256 * 256 + length xs % 256 ≡ length xs
    whole = omega arith

pub uint16_of-encoded :
    (v : ℕ) (rest : List ℕ) → v < 65536 → uint16_of (uint16_to_byte v ++ rest) ≡ ok (v, rest)
unfolding uint16_of uint16_to_byte
uint16_of-encoded v rest h = rw whole refl
  where
    whole : v / 256 * 256 + v % 256 ≡ v
    whole = omega arith

-- A field whose length is recorded right is the one of its bytes.
pub field_lem : (x : FieldPayload) → x.payload_length ≡ length x.payload → field x.payload ≡ x
field_lem x h = λ i. record { payload_length = sym h i; payload = x.payload }

pub field_of-field :
    (n : ℕ) (x : FieldPayload) (rest : List ℕ)
    → x.payload_length ≡ length x.payload
    → length x.payload < 65536
    → field_of n (encoded_field x.payload rest) ≡ ok (x, rest)
field_of-field n x rest len fits =
    field_of-encoded n x.payload rest fits
    ∙ ap (λ (f : FieldPayload). ok (f, rest)) (field_lem x len)

pub length-encoded_field :
    (xs rest : List ℕ) → length (encoded_field xs rest) ≡ 2 + length xs + length rest
unfolding uint16_to_byte
length-encoded_field xs rest = omega (arith, length-append xs rest)
