-- ===== src/Prelude/Bits.antt =====
-- Masks and shifts of one byte as arithmetic. Each law is a table over all bytes, by evaluation.
use Prim.Native.Nat.{ℕ, zero, suc, ◌+◌, ◌*◌, ◌/◌, ◌%◌, ◌<◌, bit_and, bit_or}
use mathlib.Core.Path.{◌≡◌, refl}
use mathlib.Core.Bool.{Bool, true, ◌&&◌}
use native.Mathlib.Omega.{arith}
use life_stream_go_mqtt_brok.Prelude.Tests.{◌==◌}

module _ (f g : ℕ → ℕ) where
  agree_below : ℕ → Bool
  agree_below zero = true
  agree_below (suc n) = f n == g n && agree_below n

  agree_below_sound : (n : ℕ) → agree_below n ≡ true → (i : ℕ) → i < n → f i ≡ g i
  unfolding agree_below
  agree_below_sound zero e i h = absurd (omega arith)
  agree_below_sound (suc n) e i h = ground (arith, agree_below_sound n (ground arith) i)

pub and_127 : (b : ℕ) → b < 256 → bit_and b 127 ≡ b % 128
unfolding agree_below
and_127 = agree_below_sound _ _ 256 refl

pub and_128 : (b : ℕ) → b < 256 → bit_and b 128 ≡ b / 128 * 128
unfolding agree_below
and_128 = agree_below_sound _ _ 256 refl

pub and_15 : (b : ℕ) → b < 256 → bit_and b 0x0F ≡ b % 16
unfolding agree_below
and_15 = agree_below_sound _ _ 256 refl

pub or_128 : (b : ℕ) → b < 128 → bit_or b 128 ≡ b + 128
unfolding agree_below
or_128 = agree_below_sound _ _ 128 refl

-- The complements of the three flag masks, on the four flag bits.
pub and_240 : (b : ℕ) → b < 16 → bit_and b 240 ≡ 0
unfolding agree_below
and_240 = agree_below_sound _ (λ _. 0) 16 refl

pub and_253 : (b : ℕ) → b < 16 → bit_and b 253 ≡ b / 4 * 4 + b % 2
unfolding agree_below
and_253 = agree_below_sound _ _ 16 refl

pub and_255 : (b : ℕ) → b < 16 → bit_and b 255 ≡ b
unfolding agree_below
and_255 = agree_below_sound _ _ 16 refl

-- One or two bits of a byte, masked out and shifted down.
pub and_0x80 : (b : ℕ) → b < 256 → bit_and b 0x80 / 128 ≡ b / 128
unfolding agree_below
and_0x80 = agree_below_sound _ _ 256 refl

pub and_0x40 : (b : ℕ) → b < 256 → bit_and b 0x40 / 64 ≡ b / 64 % 2
unfolding agree_below
and_0x40 = agree_below_sound _ _ 256 refl

pub and_0x20 : (b : ℕ) → b < 256 → bit_and b 0x20 / 32 ≡ b / 32 % 2
unfolding agree_below
and_0x20 = agree_below_sound _ _ 256 refl

pub and_0x18 : (b : ℕ) → b < 256 → bit_and b 0x18 / 8 ≡ b / 8 % 4
unfolding agree_below
and_0x18 = agree_below_sound _ _ 256 refl

pub and_0x04 : (b : ℕ) → b < 256 → bit_and b 0x04 / 4 ≡ b / 4 % 2
unfolding agree_below
and_0x04 = agree_below_sound _ _ 256 refl

pub and_0x02 : (b : ℕ) → b < 256 → bit_and b 0x02 / 2 ≡ b / 2 % 2
unfolding agree_below
and_0x02 = agree_below_sound _ _ 256 refl

pub and_2 : (b : ℕ) → b < 256 → bit_and b 0x02 ≡ b / 2 % 2 * 2
unfolding agree_below
and_2 = agree_below_sound _ _ 256 refl

pub and_0x06 : (b : ℕ) → b < 256 → bit_and b 0x06 / 2 ≡ b / 2 % 4
unfolding agree_below
and_0x06 = agree_below_sound _ _ 256 refl
