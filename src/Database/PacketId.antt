-- ===== src/Database/PacketId.antt =====
-- internal/database/packet_id.go: the allocator of packet IDs. The mutex makes each call one step.
use life_stream_go_mqtt_brok.Prelude.{
  ℕ, List, [], ◌+◌, if◌then◌else◌, Bool, ◌∷◌, suc, ◌%◌, ◌/◌, false, ◌==◌, zero, ◌*◌, ◌||◌,
}
pub mod Valid
pub mod Unique

-- `released` is a Go map used as a set: a list, in which nothing stands twice.
pub record PacketIdManager : Type 0 where
  pub current_id : ℕ
  pub released : List ℕ

abbrev pub new_packet_id_manager : PacketIdManager
new_packet_id_manager = record { current_id = 1; released = [] }

unfoldable pub contains : ℕ → List ℕ → Bool
contains x [] = false
contains x (y ∷ ys) = y == x || contains x ys

-- `delete` of a map
unfoldable pub remove : ℕ → List ℕ → List ℕ
remove x [] = []
remove x (y ∷ ys) = let rest = remove x ys in if y == x then rest else y ∷ rest

-- The key that `range` meets first is unspecified: `pick` chooses it.
unfoldable pub choose : ℕ → ℕ → List ℕ → ℕ
choose zero x ys = x
choose (suc pick) x [] = x
choose (suc pick) x (y ∷ ys) = choose pick y ys

-- the allocation of a new ID, with the overflow of `uint16`
unfoldable pub bumped : ℕ → ℕ
bumped n = let n' = (n + 1) % 65536 in if n' == 0 then 1 else n'

abbrev next_of : ℕ → List ℕ → PacketIdManager → ℕ × PacketIdManager
next_of pick [] m = (m.current_id, record m { current_id = bumped m.current_id })
next_of pick (x ∷ xs) m =
    let id = choose pick x xs in (id, record m { released = remove id (x ∷ xs) })

unfoldable pub next_id : ℕ → PacketIdManager → ℕ × PacketIdManager
next_id pick m = next_of pick m.released m

unfoldable pub release_id : ℕ → PacketIdManager → PacketIdManager
release_id id m = if contains id m.released then m else record m { released = id ∷ m.released }

-- `byte(id >> 8)` and `byte(id & 0xFF)`
unfoldable pub encode_packet_id : ℕ → List ℕ
encode_packet_id id = id / 256 % 256 ∷ id % 256 ∷ []

unfoldable pub decode_packet_id : List ℕ → ℕ
decode_packet_id [] = 0
decode_packet_id (hi ∷ []) = 0
decode_packet_id (hi ∷ lo ∷ rest) = hi * 256 + lo
