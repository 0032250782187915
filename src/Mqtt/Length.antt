-- ===== src/Mqtt/Length.antt =====
-- internal/mqtt/mqtt_utils.go: the remaining length of a packet, seven bits a byte.
use life_stream_go_mqtt_brok.Prelude.{
  ℕ, zero, suc, ◌+◌, ◌*◌, ◌/◌, ◌%◌, List, [], ◌∷◌, bit_and, bit_or, ltb, ◌==◌, if◌then◌else◌,
}
use life_stream_go_mqtt_brok.Prelude.Result.{Result, ok, err, ◌>>=◌}
use life_stream_go_mqtt_brok.Errors.{Error, remaining_length_exceeds}
use life_stream_go_mqtt_brok.Mqtt.Conn.{Conn, read_byte}
pub mod Groups
pub mod RoundTrip
pub mod Decode

-- One round of the loop for each byte that may still be read.
unfoldable pub decode_loop : ℕ → ℕ → ℕ → Conn → Result Error (ℕ × Conn)
decode_loop zero multiplier value c = err remaining_length_exceeds
decode_loop (suc rounds) multiplier value c = do
  (encoded, c') ← read_byte c
  let value' = value + bit_and encoded 127 * multiplier
  let more = decode_loop rounds (multiplier * 128) value' c'
  if bit_and encoded 128 == 0 then ok (value', c') else more

unfoldable pub decode_remaining_length : Conn → Result Error (ℕ × Conn)
unfolding decode_loop read_byte
decode_remaining_length c = decode_loop 4 1 0 c

-- The bytes that the loop puts into `buf` from `i` on, with `rounds` places left.
unfoldable pub encode_loop : ℕ → ℕ → List ℕ
encode_loop zero x = []
encode_loop (suc rounds) x =
    let rest = encode_loop rounds (x / 128) in
    if ltb 0 x then (if ltb 0 (x / 128) then bit_or (x % 128) 128 else x % 128) ∷ rest else []

unfoldable pub encode_remaining_length : ℕ → List ℕ
unfolding encode_loop
encode_remaining_length x = encode_loop 4 x
