-- ===== src/Database/Wills.antt =====
-- internal/database/database_store.go: the will messages, which stand in a collection of their own
-- and in no cache.
use life_stream_go_mqtt_brok.Prelude.{
  List, Option, ℕ, some, Bool, ◌≡◌, none, if◌then◌else◌, true, bytes_eq, [], false,
}
use life_stream_go_mqtt_brok.Database.Types.{WillMessage}
pub mod Kept
mod Tests

-- What `FindOne` with `Decode` returns.
pub data FoundWill : Type 0 where
  found_will : WillMessage → FoundWill
  no_will will_failed : FoundWill

-- The collection, with one document for each client. A call may fail: `false` is an error.
pub record WillServices : Type 1 where
  pub Wills : Type 0
  pub find_will : List ℕ → Wills → FoundWill × Wills
  pub replace_will : List ℕ → WillMessage → Wills → Bool × Wills
  pub delete_will : List ℕ → Wills → Bool × Wills

-- `kept` is what the collection holds; a call that fails may or may not have changed its document.
pub record WillLaws (ws : WillServices) : Type 1 where
  pub kept : ws.Wills → List ℕ → Option WillMessage
  pub found_kept :
      (k : List ℕ) (d : ws.Wills) (x : WillMessage)
      → (ws.find_will k d).0 ≡ found_will x
      → kept d k ≡ some x
  pub missing_kept : (k : List ℕ) (d : ws.Wills) → (ws.find_will k d).0 ≡ no_will → kept d k ≡ none
  pub replaced_kept :
      (k j : List ℕ) (x : WillMessage) (d : ws.Wills)
      → (ws.replace_will k x d).0 ≡ true
      → kept (ws.replace_will k x d).1 j ≡ (if bytes_eq k j then some x else kept d j)
  pub deleted_kept :
      (k j : List ℕ) (d : ws.Wills)
      → (ws.delete_will k d).0 ≡ true
      → kept (ws.delete_will k d).1 j ≡ (if bytes_eq k j then none else kept d j)

module _ (ws : WillServices) where
  abbrev pub will_of : FoundWill × ws.Wills → Option WillMessage × ws.Wills
  will_of (found_will x, d) = (some x, d)
  will_of (no_will, d) = (none, d)
  will_of (will_failed, d) = (none, d)

  unfoldable pub get_will_message : List ℕ → ws.Wills → Option WillMessage × ws.Wills
  get_will_message id d = if bytes_eq id [] then (none, d) else will_of (ws.find_will id d)

  unfoldable pub save_will_message : WillMessage → ws.Wills → Bool × ws.Wills
  save_will_message x d =
      if bytes_eq x.client_id [] then (false, d) else ws.replace_will x.client_id x d

  unfoldable pub delete_will_message : List ℕ → ws.Wills → Bool × ws.Wills
  delete_will_message id d = if bytes_eq id [] then (false, d) else ws.delete_will id d
