-- ===== src/Database/Services.antt =====
-- What database_store.go uses and does not implement: a MongoDB collection of sessions with one
-- document for each client, and the expiring LRU cache of hashicorp/golang-lru. Both are
-- parameters of the store, with what their documentation promises as named laws.
use life_stream_go_mqtt_brok.Database.Session.{SessionData}
use life_stream_go_mqtt_brok.Prelude.{
  ℕ, List, Bool, Option, ◌≡◌, some, none, true, if◌then◌else◌, bytes_eq,
}

-- What `FindOne` with `Decode` returns. `failed` is any other error: a timeout, a lost connection.
pub data Found : Type 0 where
  found : SessionData → Found
  no_documents failed : Found

-- The calls change the state of the service, and may fail: `false` is an error.
pub record Services : Type 1 where
  pub Documents : Type 0
  pub find_one : List ℕ → Documents → Found × Documents
  pub replace_one : List ℕ → SessionData → Documents → Bool × Documents
  pub delete_one : List ℕ → Documents → Bool × Documents
  pub Cache : Type 0
  pub cache_get : List ℕ → Cache → Option ℕ × Cache
  pub cache_add : List ℕ → ℕ → Cache → Cache
  pub cache_remove : List ℕ → Cache → Cache

-- `stored` is what the collection holds and `held` what the cache may still answer. An entry of the
-- cache may vanish at any call; a call that fails may or may not have changed its own document.
pub record Laws (s : Services) : Type 1 where
  pub stored : s.Documents → List ℕ → Option SessionData
  pub held : s.Cache → List ℕ → Option ℕ
  pub find_found :
      (k : List ℕ) (d : s.Documents) (x : SessionData)
      → (s.find_one k d).0 ≡ found x
      → stored d k ≡ some x
  pub find_missing :
      (k : List ℕ) (d : s.Documents) → (s.find_one k d).0 ≡ no_documents → stored d k ≡ none
  pub replace_done :
      (k j : List ℕ) (x : SessionData) (d : s.Documents)
      → (s.replace_one k x d).0 ≡ true
      → stored (s.replace_one k x d).1 j ≡ (if bytes_eq k j then some x else stored d j)
  pub delete_done :
      (k j : List ℕ) (d : s.Documents)
      → (s.delete_one k d).0 ≡ true
      → stored (s.delete_one k d).1 j ≡ (if bytes_eq k j then none else stored d j)
  pub get_held :
      (k : List ℕ) (c : s.Cache) (r : ℕ) → (s.cache_get k c).0 ≡ some r → held c k ≡ some r
  pub get_keeps :
      (k j : List ℕ) (c : s.Cache) (r : ℕ) → held (s.cache_get k c).1 j ≡ some r → held c j ≡ some r
  pub add_held :
      (k j : List ℕ) (r q : ℕ) (c : s.Cache)
      → held (s.cache_add k r c) j ≡ some q
      → (if bytes_eq k j then some r else held c j) ≡ some q
  pub remove_held :
      (k j : List ℕ) (q : ℕ) (c : s.Cache)
      → held (s.cache_remove k c) j ≡ some q
      → (if bytes_eq k j then none else held c j) ≡ some q
