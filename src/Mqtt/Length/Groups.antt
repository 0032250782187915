-- ===== src/Mqtt/Length/Groups.antt =====
-- The shape of an encoded length: how many bytes, and which.
use life_stream_go_mqtt_brok.Prelude.{
  ℕ, zero, suc, ◌/◌, ◌%◌, ◌≤◌, ◌<◌, ◌≡◌, refl, arith, [], ◌∷◌, length, bit_or, lt→ltb, AllBytes,
}
use life_stream_go_mqtt_brok.Prelude.Bits.{or_128}
use life_stream_go_mqtt_brok.Mqtt.Length.{encode_loop}

encode_loop-IsByte : (k x : ℕ) → AllBytes (encode_loop k x)
unfolding encode_loop
encode_loop-IsByte zero x = tt
encode_loop-IsByte (suc k) x = ground (arith, or_128 (x % 128), encode_loop-IsByte k (x / 128))

pub length-encode_loop : (k x : ℕ) → length (encode_loop k x) ≤ k
unfolding encode_loop
length-encode_loop zero x = omega arith
length-encode_loop (suc k) x = ground (arith, length-encode_loop k (x / 128))

pub encode_loop-zero : (k : ℕ) → encode_loop k 0 ≡ []
unfolding encode_loop
encode_loop-zero zero = refl
encode_loop-zero (suc k) = refl

pub encode_loop_last : (k x : ℕ) → 0 < x → x < 128 → encode_loop (suc k) x ≡ x ∷ []
unfolding encode_loop
encode_loop_last k x pos h =
    let e : x / 128 ≡ 0 = omega arith in
    let m : x % 128 ≡ x = omega arith in rw (lt→ltb 0 x pos, e, m, encode_loop-zero k)

pub encode_loop_inner :
    (k x : ℕ) → 128 ≤ x → encode_loop (suc k) x ≡ bit_or (x % 128) 128 ∷ encode_loop k (x / 128)
unfolding encode_loop
encode_loop_inner k x h = rw (lt→ltb 0 x (omega arith), lt→ltb 0 (x / 128) (omega arith))
