-- ===== src/Database/PacketId/Valid.antt =====
-- The IDs that the allocator hands out are valid, and their encoding is read back.
use life_stream_go_mqtt_brok.Database.PacketId.{
  PacketIdManager, next_id, release_id, decode_packet_id, encode_packet_id, remove, contains,
  choose, next_of, bumped,
}
use life_stream_go_mqtt_brok.Prelude.{
  ℕ, ◌≤◌, List, ◌<◌, All, Bool-cases, ◌∷◌, ◌≡◌, ◌++◌, ◌==◌, inl, arith, [], inr, suc, refl, zero,
  ◌*◌, ◌+◌, ◌/◌, ◌%◌,
}

abbrev pub IsPacketId : ℕ → Type 0
IsPacketId n = (1 ≤ n) × (n < 65536)

pub record IsValid (m : PacketIdManager) : Type 0 where
  pub current : IsPacketId m.current_id
  pub released : All IsPacketId m.released

All-remove : (x : ℕ) (ys : List ℕ) → All IsPacketId ys → All IsPacketId (remove x ys)
unfolding remove
All-remove x [] h = tt
All-remove x (y ∷ ys) h = elim (Bool-cases (y == x)) [
  | inl same ↦ rw same (All-remove x ys h.1)
  | inr other ↦ rw other (h.0, All-remove x ys h.1)
]

All-choose : (pick x : ℕ) (ys : List ℕ) → All IsPacketId (x ∷ ys) → IsPacketId (choose pick x ys)
unfolding choose
All-choose zero x ys h = h.0
All-choose (suc pick) x [] h = h.0
All-choose (suc pick) x (y ∷ ys) h = All-choose pick y ys h.1

next_of-IsValid :
    (pick : ℕ) (xs : List ℕ) (m : PacketIdManager)
    → IsPacketId m.current_id
    → All IsPacketId xs
    → m.released ≡ xs
    → IsPacketId (next_of pick xs m).0 × IsValid (next_of pick xs m).1
unfolding bumped
next_of-IsValid pick [] m c h e = (c, record { current = ground arith; released = rw e tt })
next_of-IsValid pick (x ∷ xs) m c h e = (
  All-choose pick x xs h,
  record { current = c; released = All-remove (choose pick x xs) (x ∷ xs) h },
)

-- From a valid state `NextID` hands out an ID from 1 to 65535, whichever released ID the map yields
-- first, and leaves a valid state: the counter never rests on 0.
pub next_id-IsValid :
    (pick : ℕ) (m : PacketIdManager)
    → IsValid m
    → IsPacketId (next_id pick m).0 × IsValid (next_id pick m).1
unfolding next_id
next_id-IsValid pick m v = next_of-IsValid pick m.released m v.current v.released refl

pub release_id-IsValid :
    (id : ℕ) (m : PacketIdManager) → IsPacketId id → IsValid m → IsValid (release_id id m)
unfolding release_id
release_id-IsValid id m h v = elim (Bool-cases (contains id m.released)) [
  | inl there ↦ rw there v
  | inr absent ↦ rw absent (record { current = v.current; released = (h, v.released) })
]

-- An ID of 16 bits is read back from its two bytes, whatever follows.
pub decode_packet_id-encode_packet_id :
    (id : ℕ) (rest : List ℕ) → id < 65536 → decode_packet_id (encode_packet_id id ++ rest) ≡ id
unfolding decode_packet_id encode_packet_id
decode_packet_id-encode_packet_id id rest h = omega arith

-- Two bytes are what the ID read from the front of a string that starts with them is encoded as.
pub encode_packet_id-decode_packet_id :
    (hi lo : ℕ) (rest : List ℕ)
    → hi < 256
    → lo < 256
    → encode_packet_id (decode_packet_id (hi ∷ lo ∷ rest)) ≡ hi ∷ lo ∷ []
unfolding decode_packet_id encode_packet_id
encode_packet_id-decode_packet_id hi lo rest h1 h2 = rw (high, low) refl
  where
    high : (hi * 256 + lo) / 256 % 256 ≡ hi
    high = omega arith

    low : (hi * 256 + lo) % 256 ≡ lo
    low = omega arith
