-- ===== src/Mqtt/PacketType/Flags.antt =====
-- What `ValidateFlags` accepts.
use life_stream_go_mqtt_brok.Prelude.{ℕ, ◌<◌, ◌≡◌, ◌⊎◌, ◌↔◌, true, arith}
use life_stream_go_mqtt_brok.Prelude.Bits.{and_240, and_253, and_255}
use life_stream_go_mqtt_brok.Mqtt.PacketType.{
  PacketType, publish, pubrel, subscribe, unsubscribe, validate_flags,
}

-- The four flag bits a packet type admits, as the tests of the table.
abbrev pub FlagsAllowed : PacketType → ℕ → Type 0
FlagsAllowed t flags =
    (t ≡ publish)
    ⊎ ((flags ≡ 0) ⊎ ((flags ≡ 2) × ((t ≡ pubrel) ⊎ ((t ≡ subscribe) ⊎ (t ≡ unsubscribe)))))

-- For the four flag bits of a header: `ValidateFlags` accepts any on a PUBLISH, none or bit 1 on
-- PUBREL, SUBSCRIBE and UNSUBSCRIBE, and none on every other type, the undefined ones included.
pub validate_flags_iff :
    (t : PacketType) (flags : ℕ)
    → flags < 16
    → (validate_flags t flags ≡ true) ↔ FlagsAllowed t flags
unfolding validate_flags
validate_flags_iff t flags h = ground (arith, and_240 flags, and_253 flags, and_255 flags)
