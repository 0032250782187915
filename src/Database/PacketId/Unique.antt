-- ===== src/Database/PacketId/Unique.antt =====
-- No two packet IDs in use are the same, as long as the counter has not wrapped.
use life_stream_go_mqtt_brok.Database.PacketId.{
  PacketIdManager, new_packet_id_manager, next_id, release_id, remove, contains, choose, next_of,
  bumped,
}
use life_stream_go_mqtt_brok.Prelude.{
  ℕ, List, ◌<◌, ◌+◌, ◌∷◌, [], ◌≡◌, ◌≤◌, if◌then◌else◌, false, arith, ◌==◌, refl, suc, zero,
}

unfoldable pub count : ℕ → List ℕ → ℕ
count x [] = 0
count x (y ∷ ys) = if y == x then suc (count x ys) else count x ys

-- The allocator, with the IDs that were handed out and not yet released.
pub record Use : Type 0 where
  pub manager : PacketIdManager
  pub in_use : List ℕ

abbrev pub start : Use
start = record { manager = new_packet_id_manager; in_use = [] }

abbrev pub allocated : ℕ → Use → Use
allocated pick u = record {
  manager = (next_id pick u.manager).1;
  in_use = (next_id pick u.manager).0 ∷ u.in_use;
}

abbrev pub freed : ℕ → Use → Use
freed id u = record { manager = release_id id u.manager; in_use = remove id u.in_use }

-- One call of `NextID` before the counter wraps, or of `ReleaseID` with an ID in use.
pub data Step (u u' : Use) : Type 0 where
  allocate : (pick : ℕ) → u.manager.current_id < 65535 → u' ≡ allocated pick u → Step u u'
  free : (id : ℕ) → 0 < count id u.in_use → u' ≡ freed id u → Step u u'

pub data Reach (s : Use) : Use → Type 0 where
  here : Reach s s
  next : {t u : Use} → Reach s t → Step t u → Reach s u

-- An ID is in use or released, not both and once at most, and none is ahead of the counter.
record IsExclusive (u : Use) : Type 0 where
  once : (x : ℕ) → count x u.in_use + count x u.manager.released ≤ 1
  behind : (x : ℕ) → u.manager.current_id ≤ x → count x u.in_use + count x u.manager.released ≡ 0

count-remove : (x y : ℕ) (ys : List ℕ) → count x (remove y ys) ≡ (if y == x then 0 else count x ys)
unfolding count remove
count-remove x y [] = ground arith
count-remove x y (z ∷ ys) = ground (arith, count-remove x y ys)

count-contains : (x : ℕ) (ys : List ℕ) → contains x ys ≡ false → count x ys ≡ 0
unfolding count contains
count-contains x [] h = refl
count-contains x (y ∷ ys) h = ground (arith, count-contains x ys)

count-choose : (pick x : ℕ) (ys : List ℕ) → 0 < count (choose pick x ys) (x ∷ ys)
unfolding count choose
count-choose zero x ys = ground arith
count-choose (suc pick) x [] = ground arith
count-choose (suc pick) x (y ∷ ys) = ground (arith, count-choose pick y ys)

bumped-suc : (n : ℕ) → n < 65535 → bumped n ≡ n + 1
unfolding bumped
bumped-suc n h = ground arith

-- The state after `NextID`, by what was released before.
abbrev taken_from : ℕ → List ℕ → PacketIdManager → List ℕ → Use
taken_from pick xs m used = record {
  manager = (next_of pick xs m).1;
  in_use = (next_of pick xs m).0 ∷ used;
}

taken_from-IsExclusive :
    (pick : ℕ) (xs : List ℕ) (m : PacketIdManager) (used : List ℕ)
    → m.released ≡ xs
    → m.current_id < 65535
    → ((x : ℕ) → count x used + count x xs ≤ 1)
    → ((x : ℕ) → m.current_id ≤ x → count x used + count x xs ≡ 0)
    → IsExclusive (taken_from pick xs m used)
unfolding count
taken_from-IsExclusive pick [] m used e room once behind = record {
  once = λ x. rw e (ground (arith, once x, behind x));
  behind = λ x h. rw e (ground (arith, bumped-suc m.current_id, once x, behind x));
}
taken_from-IsExclusive pick (y ∷ ys) m used e room once behind = record {
  once = λ x.
      let id = choose pick y ys in
      ground (arith, count-remove x id (y ∷ ys), count-choose pick y ys, once x, once id);
  behind = λ x h.
      let id = choose pick y ys in
      ground
        (arith, count-remove x id (y ∷ ys), count-choose pick y ys, once id, behind x, behind id);
}

allocated-IsExclusive :
    (pick : ℕ) (u : Use)
    → u.manager.current_id < 65535
    → IsExclusive u
    → IsExclusive (allocated pick u)
unfolding next_id
allocated-IsExclusive pick u room v =
    taken_from-IsExclusive pick u.manager.released u.manager u.in_use refl room v.once v.behind

freed-IsExclusive :
    (id : ℕ) (u : Use) → 0 < count id u.in_use → IsExclusive u → IsExclusive (freed id u)
unfolding release_id count
freed-IsExclusive id u held v = record {
  once = λ x. ground (arith, count-remove x id u.in_use, v.once x, v.once id);
  behind = λ x h. ground (arith, count-remove x id u.in_use, v.behind x, v.behind id);
}

Step-IsExclusive : {u u' : Use} → Step u u' → IsExclusive u → IsExclusive u'
Step-IsExclusive {u} (allocate pick room e) v = rw e (allocated-IsExclusive pick u room v)
Step-IsExclusive {u} (free id held e) v = rw e (freed-IsExclusive id u held v)

start-IsExclusive : IsExclusive start
unfolding count
start-IsExclusive = record { once = λ x. omega arith; behind = λ x h. refl }

Reach-IsExclusive : {u : Use} → Reach start u → IsExclusive u
Reach-IsExclusive here = start-IsExclusive
Reach-IsExclusive (next r st) = Step-IsExclusive st (Reach-IsExclusive r)

-- Calls of `NextID`, each before the counter reaches 65535, and of `ReleaseID`, each with an ID that
-- is in use, are made since the start, in any order and with any choice among released IDs. Then
-- every ID is in use at most once, and one in use does not stand among the released ones.
pub in_use_once :
    {u : Use} → Reach start u → (x : ℕ) → count x u.in_use + count x u.manager.released ≤ 1
in_use_once r x = (Reach-IsExclusive r).once x
