-- ===== src/Packet/Reader.antt =====
-- internal/packet/packet_utils.go: reads that move the pointer of a payload.
use life_stream_go_mqtt_brok.Errors.{
  Error, invalid_context_length, invalid_reading_length, insufficient_length_bytes,
  payload_exceeds_buffer,
}
use life_stream_go_mqtt_brok.Prelude.Result.{Result, panic, ok, err, ◌>>=◌, index, slice}
use life_stream_go_mqtt_brok.Mqtt.Frame.{Payload}
use life_stream_go_mqtt_brok.Prelude.{
  ℕ, List, if◌then◌else◌, ◌-◌, ◌∷◌, leb, ◌==◌, ◌+◌, ◌*◌, [], ltb,
}
pub mod Spec
pub mod Refines
pub mod Encoded

pub record FieldPayload : Type 0 where
  pub payload_length : ℕ
  pub payload : List ℕ

-- `binary.BigEndian.Uint16` looks at the first two bytes and panics where they are missing.
unfoldable pub big_endian_uint16 : List ℕ → Result Error ℕ
big_endian_uint16 [] = panic
big_endian_uint16 (hi ∷ []) = panic
big_endian_uint16 (hi ∷ lo ∷ rest) = ok (hi * 256 + lo)

unfoldable pub read_packet_byte : Payload → Result Error (ℕ × Payload)
read_packet_byte p =
    if leb p.context_len p.current_ptr
    then err invalid_context_length
    else do b ← index p.context p.current_ptr; ok (b, record p { current_ptr = p.current_ptr + 1 })

-- A negative length, which the code refuses as it does zero, is zero here.
unfoldable pub read_packet_bytes : Payload → ℕ → Result Error (List ℕ × Payload)
unfolding read_packet_byte
read_packet_bytes p n =
    if n == 0
    then err invalid_reading_length
    else if n == 1
    then (do (b, p') ← read_packet_byte p; ok (b ∷ [], p'))
    else if leb p.context_len p.current_ptr
    then err invalid_context_length
    else if ltb p.context_len (p.current_ptr + n)
    then err invalid_context_length
    else do
      xs ← slice p.context p.current_ptr (p.current_ptr + n)
      ok (xs, record p { current_ptr = p.current_ptr + n })

unfoldable pub read_packet_resume_byte : Payload → Result Error (List ℕ × Payload)
unfolding read_packet_bytes
read_packet_resume_byte p = read_packet_bytes p (p.context_len - p.current_ptr)

unfoldable pub read_packet_payload : Payload → Result Error (FieldPayload × Payload)
unfolding big_endian_uint16
read_packet_payload p =
    if leb p.context_len (p.current_ptr + 1) then err insufficient_length_bytes else do
      header ← slice p.context p.current_ptr (p.current_ptr + 2)
      n ← big_endian_uint16 header
      let end = p.current_ptr + 2 + n
      if ltb p.context_len end then err (payload_exceeds_buffer n p.context_len) else do
        xs ← slice p.context (p.current_ptr + 2) end
        ok (record { payload_length = n; payload = xs }, record p { current_ptr = end })

-- A packet ID or another 16-bit number: `binary.BigEndian.Uint16` of two bytes that are read.
unfoldable pub read_uint16 : Payload → Result Error (ℕ × Payload)
unfolding read_packet_bytes big_endian_uint16
read_uint16 p = do (xs, p') ← read_packet_bytes p 2; n ← big_endian_uint16 xs; ok (n, p')
