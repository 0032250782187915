-- ===== src/Mqtt/Length/Decode.antt =====
-- `DecodeRemainingLength` on any input.
use life_stream_go_mqtt_brok.Prelude.Bits.{and_127, and_128}
use native.Mathlib.Nat.{pow-suc}
use life_stream_go_mqtt_brok.Prelude.Result.{ok, err, Yields, Yields-weaken}
use life_stream_go_mqtt_brok.Errors.{Error, remaining_length_exceeds}
use life_stream_go_mqtt_brok.Mqtt.Conn.{read_byte, Conn}
use life_stream_go_mqtt_brok.Mqtt.Length.{decode_loop, decode_remaining_length}
use life_stream_go_mqtt_brok.Prelude.{
  ℕ, List, All, ◌<◌, ◌≡◌, ◌*◌, ◌^◌, ◌+◌, suc, arith, length, ◌≤◌, zero, ◌∷◌, bit_and, [], ap,
  Bool-cases, ◌==◌, inl, inr, true, false, AllBytes, refl,
}

pow_step : (m k : ℕ) → m * 128 * 128 ^ k ≡ m * 128 ^ suc k
pow_step m k = omega (arith, ap (λ (t : ℕ). m * t) (pow-suc 128 k))

pow_pos : (k : ℕ) → 0 < 128 ^ k
pow_pos zero = omega arith
pow_pos (suc k) = omega (arith, pow_pos k)

-- A digit below 128 in front of a value below `m` stays below `m * 128`.
digit_lt : (m v d : ℕ) → v < m → d < 128 → v + d * m < m * 128
digit_lt m v d h hd = grind arith

bound_grows : (m k n : ℕ) → n < m * 128 → n < m * 128 ^ suc k
bound_grows m k n h = rw (← pow_step m k) (grind (arith, pow_pos k))

-- One round, by the top bit of the byte that it reads.
decode_loop_end :
    (k m v b : ℕ) (xs : List ℕ) (e : Error)
    → (bit_and b 128 == 0) ≡ true
    → decode_loop (suc k) m v (record { incoming = b ∷ xs; closing = e })
      ≡ ok (v + bit_and b 127 * m, record { incoming = xs; closing = e })
unfolding decode_loop read_byte
decode_loop_end k m v b xs e h = rw h

decode_loop_more :
    (k m v b : ℕ) (xs : List ℕ) (e : Error)
    → (bit_and b 128 == 0) ≡ false
    → decode_loop (suc k) m v (record { incoming = b ∷ xs; closing = e })
      ≡ decode_loop k (m * 128) (v + bit_and b 127 * m) (record { incoming = xs; closing = e })
unfolding decode_loop read_byte
decode_loop_more k m v b xs e h = rw h

-- A value below `bound`, and at least one byte and at most `k` taken off `xs`.
abbrev pub Taken : ℕ → ℕ → List ℕ → Error → ℕ × Conn → Type 0
Taken bound k xs e (n, c) =
    (n < bound)
    × (c.closing ≡ e)
    × AllBytes c.incoming
    × (length c.incoming < length xs)
    × (length xs ≤ length c.incoming + k)

Taken-later :
    (bound k : ℕ) (b : ℕ) (xs : List ℕ) (e : Error) (t : ℕ × Conn)
    → Taken bound k xs e t
    → Taken bound (suc k) (b ∷ xs) e t
Taken-later bound k b xs e (n, c) h = (h.0, h.1, h.2, omega arith, omega arith)

decode_loop_takes :
    (k m v : ℕ) (xs : List ℕ) (e : Error)
    → AllBytes xs
    → v < m
    → Yields
        (Taken (m * 128 ^ k) k xs e)
        (decode_loop k m v (record { incoming = xs; closing = e }))
decode_loop_takes zero m v xs e bytes h = unfold decode_loop in tt
decode_loop_takes (suc k) m v [] e bytes h = unfold decode_loop read_byte in tt
decode_loop_takes (suc k) m v (b ∷ xs) e (hb, hxs) h =
    let low : v + bit_and b 127 * m < m * 128 =
      digit_lt m v (bit_and b 127) h (omega (arith, and_127 b hb)) in
    elim (Bool-cases (bit_and b 128 == 0)) [
      | inl done ↦
          rw (decode_loop_end k m v b xs e done)
            (bound_grows m k _ low, refl, hxs, omega arith, omega arith)
      | inr more ↦
          rw (decode_loop_more k m v b xs e more, ← pow_step m k)
            (Yields-weaken (Taken (m * 128 * 128 ^ k) k xs e) _ _
              (decode_loop_takes k (m * 128) (v + bit_and b 127 * m) xs e hxs low)
              (Taken-later (m * 128 * 128 ^ k) k b xs e))
    ]

-- The decoder returns on every input. A decoded length is below 2 ^ 28, and it took one to four
-- bytes off the front.
pub decode_takes :
    (c : Conn)
    → AllBytes c.incoming
    → Yields (Taken (2 ^ 28) 4 c.incoming c.closing) (decode_remaining_length c)
unfolding decode_remaining_length
decode_takes c bytes = decode_loop_takes 4 1 0 c.incoming c.closing bytes (omega arith)

-- Four bytes with the top bit set are refused, whatever follows.
pub decode_overlong :
    (a b c d : ℕ) (rest : List ℕ) (e : Error)
    → All (λ x. (128 ≤ x) × (x < 256)) (a ∷ b ∷ c ∷ d ∷ [])
    → decode_remaining_length (record { incoming = a ∷ b ∷ c ∷ d ∷ rest; closing = e })
      ≡ err remaining_length_exceeds
unfolding decode_remaining_length
decode_overlong a b c d rest e h = ground (arith, and_128 a, and_128 b, and_128 c, and_128 d)
