-- ===== src/Mqtt/PacketType.antt =====
-- internal/mqtt/mqtt_types.go: `PacketType` and its tables, and `ValidateFlags` of mqtt_utils.go.
-- A packet type is a byte; the maps answer a missing key with the zero value.
use Prim.Native.String.{String}
use life_stream_go_mqtt_brok.Prelude.{ℕ, ◌-◌, Bool, bit_and, ◌==◌, if◌then◌else◌}
pub mod Flags

abbrev pub PacketType : Type 0
PacketType = ℕ

abbrev pub connect : PacketType
connect = 1

abbrev pub connack : PacketType
connack = 2

abbrev pub publish : PacketType
publish = 3

abbrev pub puback : PacketType
puback = 4

abbrev pub pubrec : PacketType
pubrec = 5

abbrev pub pubrel : PacketType
pubrel = 6

abbrev pub pubcomp : PacketType
pubcomp = 7

abbrev pub subscribe : PacketType
subscribe = 8

abbrev pub suback : PacketType
suback = 9

abbrev pub unsubscribe : PacketType
unsubscribe = 10

abbrev pub unsuback : PacketType
unsuback = 11

abbrev pub pingreq : PacketType
pingreq = 12

abbrev pub pingresp : PacketType
pingresp = 13

abbrev pub disconnect : PacketType
disconnect = 14

-- `PacketTypeMap` and `String`
unfoldable pub type_name : PacketType → String
type_name t =
    if t == connect
    then "CONNECT"
    else if t == connack
    then "CONNACK"
    else if t == publish
    then "PUBLISH"
    else if t == puback
    then "PUBACK"
    else if t == pubrec
    then "PUBREC"
    else if t == pubrel
    then "PUBREL"
    else if t == pubcomp
    then "PUBCOMP"
    else if t == subscribe
    then "SUBSCRIBE"
    else if t == suback
    then "SUBACK"
    else if t == unsubscribe
    then "UNSUBSCRIBE"
    else if t == unsuback
    then "UNSUBACK"
    else if t == pingreq
    then "PINGREQ"
    else if t == pingresp
    then "PINGRESP"
    else if t == disconnect
    then "DISCONNECT"
    else ""

-- the entries of `allowedFlags` that are not zero
unfoldable pub allowed_flags : PacketType → ℕ
allowed_flags t =
    if t == publish
    then 0x0F
    else if t == pubrel
    then 0x02
    else if t == subscribe
    then 0x02
    else if t == unsubscribe
    then 0x02
    else 0x00

-- `^allowed` of a byte is `255 - allowed`.
unfoldable pub validate_flags : PacketType → ℕ → Bool
unfolding allowed_flags
validate_flags t flags = bit_and flags (255 - allowed_flags t) == 0
