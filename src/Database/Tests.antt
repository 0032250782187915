-- ===== src/Database/Tests.antt =====
-- The store and the allocator of internal/database at concrete data, after poacket_id_test.go. The
-- collection and the cache are maps here, and no call fails.
use life_stream_go_mqtt_brok.Database.Store.Forget.{delete_session-get_session}
use life_stream_go_mqtt_brok.Database.Store.Recall.{Recalls, save_session-get_session}
use life_stream_go_mqtt_brok.Prelude.Maps.{
  Map, lookup, insert, lookup-insert, delete, lookup-delete,
}
use life_stream_go_mqtt_brok.Database.PacketId.Valid.{IsPacketId, IsValid, next_id-IsValid}
use life_stream_go_mqtt_brok.Database.PacketId.{
  next_id, PacketIdManager, release_id, bumped, remove, contains, choose,
}
use life_stream_go_mqtt_brok.Database.PacketId.Unique.{
  Use, count, allocated, Reach, freed, start, next, in_use_once, here, allocate, free,
}
use life_stream_go_mqtt_brok.Database.Store.{delete_session, Store, save_session, get_session}
use life_stream_go_mqtt_brok.Database.Session.{SessionData, new_session_data}
use life_stream_go_mqtt_brok.Database.Services.{Services, Laws, Found, found, no_documents}
use life_stream_go_mqtt_brok.Prelude.{
  Option, List, ◌≡◌, ◌∷◌, ℕ, true, ◌+◌, [], some, none, ◌≤◌, refl, arith, sym, ◌∙◌, bytes_eq,
}

-- A collection and a cache that lose nothing.
unfoldable pub answer : Option SessionData → Found
answer (some x) = found x
answer none = no_documents

abbrev pub maps : Services
maps = record {
  Documents = Map (List ℕ) SessionData;
  find_one = λ k d. (answer (lookup k d), d);
  replace_one = λ k x d. (true, insert k x d);
  delete_one = λ k d. (true, delete k d);
  Cache = Map (List ℕ) ℕ;
  cache_get = λ k c. (lookup k c, c);
  cache_add = λ k r c. insert k r c;
  cache_remove = λ k c. delete k c;
}

answer-found : (o : Option SessionData) (x : SessionData) → answer o ≡ found x → o ≡ some x
unfolding answer
answer-found (some y) x e = cc e
answer-found none x e = absurd (cc e)

answer-missing : (o : Option SessionData) → answer o ≡ no_documents → o ≡ none
unfolding answer
answer-missing (some y) e = absurd (cc e)
answer-missing none e = refl

pub maps-Laws : Laws maps
maps-Laws = record {
  stored = λ d k. lookup k d;
  held = λ c k. lookup k c;
  find_found = λ k d x e. answer-found (lookup k d) x e;
  find_missing = λ k d e. answer-missing (lookup k d) e;
  replace_done = λ k j x d e. lookup-insert k j x d;
  delete_done = λ k j d e. lookup-delete k j d;
  get_held = λ k c r e. e;
  get_keeps = λ k j c r e. e;
  add_held = λ k j r q c e. sym (lookup-insert k j r c) ∙ e;
  remove_held = λ k j q c e. sym (lookup-delete k j c) ∙ e;
}

-- A client with a session that is stored.
abbrev pub session : SessionData
session = record (new_session_data (0x63 ∷ [])) { subscriptions = (0x74 ∷ [], 2) ∷ [] }

abbrev pub store : SessionData → Store maps
store x = record { heap = λ r. x; next_ref = 1; sessions = []; session_cache = []; documents = [] }

abbrev pub client_id : List ℕ
client_id = 0x63 ∷ []

save_session-get_session_example :
    Recalls maps
      (maps.find_one client_id (save_session maps 0 (store session)).1.documents).0
      session
      (get_session maps client_id (save_session maps 0 (store session)).1)
unfolding new_session_data bytes_eq lookup save_session
save_session-get_session_example =
    save_session-get_session maps maps-Laws 0 (store session) refl refl refl refl

delete_session-get_session_example :
    (get_session maps client_id (delete_session maps client_id (store session)).1).0 ≡ none
unfolding bytes_eq lookup delete_session
delete_session-get_session_example =
    delete_session-get_session maps maps-Laws client_id (store session) refl refl refl

abbrev temporary : SessionData
temporary = record session { temp_session = true }

-- Two IDs are taken, the first is released, and a third is taken.
abbrev some_use : Use
some_use = allocated 0 (freed 1 (allocated 0 (allocated 0 start)))

some_use-Reach : Reach start some_use
unfolding next_id count bumped release_id contains
some_use-Reach =
    next
      (next (next (next here (allocate 0 (omega arith) refl)) (allocate 0 (omega arith) refl))
        (free 1 (omega arith) refl))
      (allocate 0 (omega arith) refl)

in_use_once_example : count 1 some_use.in_use + count 1 some_use.manager.released ≤ 1
in_use_once_example = in_use_once some_use-Reach 1

-- The released ID is taken again.
reused : some_use.in_use ≡ 1 ∷ 2 ∷ []
unfolding next_id release_id remove contains bumped choose
reused = refl

abbrev last_id : PacketIdManager
last_id = record { current_id = 65535; released = [] }

next_id-IsValid_example : IsPacketId (next_id 0 last_id).0 × IsValid (next_id 0 last_id).1
next_id-IsValid_example =
    next_id-IsValid 0 last_id (record { current = (omega arith, omega arith); released = tt })

-- After 65535 comes 1.
wrapped : (next_id 0 last_id).1.current_id ≡ 1
unfolding next_id bumped
wrapped = refl
