-- ===== src/Mqtt/Length/RoundTrip.antt =====
-- `DecodeRemainingLength` reads back what `EncodeRemainingLength` wrote.
use life_stream_go_mqtt_brok.Prelude.{
  ℕ, zero, suc, ◌+◌, ◌*◌, ◌/◌, ◌%◌, ◌^◌, ◌<◌, ◌≡◌, ap, List, ◌∷◌, ◌++◌, arith, bit_or, ◌∙◌,
}
use native.Mathlib.Decide.{dec_lt}
use native.Mathlib.Nat.{div-add-mod}
use life_stream_go_mqtt_brok.Prelude.Bits.{and_127, and_128, or_128}
use life_stream_go_mqtt_brok.Mqtt.Length.Groups.{encode_loop_last, encode_loop_inner}
use life_stream_go_mqtt_brok.Prelude.Result.{ok}
use life_stream_go_mqtt_brok.Errors.{Error}
use life_stream_go_mqtt_brok.Mqtt.Conn.{read_byte}
use life_stream_go_mqtt_brok.Mqtt.Length.{
  decode_loop, decode_remaining_length, encode_loop, encode_remaining_length,
}

-- One round of the decoder on a last byte, and on a byte with the top bit set.
last_byte :
    (k w m v : ℕ) (rest : List ℕ) (e : Error)
    → w < 128
    → decode_loop (suc k) m v (record { incoming = w ∷ rest; closing = e })
      ≡ ok (v + w * m, record { incoming = rest; closing = e })
unfolding decode_loop read_byte
last_byte k w m v rest e h = ground (arith, and_127 w, and_128 w)

inner_byte :
    (k w m v : ℕ) (rest : List ℕ) (e : Error)
    → w < 128
    → decode_loop (suc k) m v (record { incoming = bit_or w 128 ∷ rest; closing = e })
      ≡ decode_loop k (m * 128) (v + w * m) (record { incoming = rest; closing = e })
unfolding decode_loop read_byte
inner_byte k w m v rest e h = ground (arith, or_128 w, and_127 (w + 128), and_128 (w + 128))

total : (x m v : ℕ) → v + x % 128 * m + x / 128 * (m * 128) ≡ v + x * m
total x m v = omega (arith, ap (λ (t : ℕ). t * m) (div-add-mod x 128))

-- `x` is what is still to be read, and it counts `m`-fold.
decode_loop-encode_loop :
    (k x m v : ℕ) (rest : List ℕ) (e : Error)
    → 0 < x
    → x < 128 ^ k
    → decode_loop k m v (record { incoming = encode_loop k x ++ rest; closing = e })
      ≡ ok (v + x * m, record { incoming = rest; closing = e })
decode_loop-encode_loop zero x m v rest e pos h = absurd (omega arith)
decode_loop-encode_loop (suc k) x m v rest e pos h = elim (dec_lt x 128) [
  | yes small ↦ rw (encode_loop_last k x pos small) (last_byte k x m v rest e small)
  | no big ↦ rw (encode_loop_inner k x (omega arith)) (
      inner_byte k (x % 128) m v (encode_loop k (x / 128) ++ rest) e (omega arith)
      ∙ decode_loop-encode_loop k (x / 128) (m * 128) (v + x % 128 * m) rest e (omega arith)
          (omega arith)
      ∙ ap (λ (t : ℕ). ok (t, record { incoming = rest; closing = e })) (total x m v))
]

-- A length from 1 to 268435455 is read back exactly, and the bytes behind it are left.
pub decode-encode :
    (x : ℕ) (rest : List ℕ) (e : Error)
    → 0 < x
    → x < 2 ^ 28
    → decode_remaining_length (record { incoming = encode_remaining_length x ++ rest; closing = e })
      ≡ ok (x, record { incoming = rest; closing = e })
unfolding decode_remaining_length encode_remaining_length
decode-encode x rest e pos h = ground (arith, decode_loop-encode_loop 4 x 1 0 rest e)
