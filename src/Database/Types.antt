-- ===== src/Database/Types.antt =====
-- internal/database/database_types.go. A Go string is the list of its bytes.
use life_stream_go_mqtt_brok.Prelude.{ℕ, List, Bool, ◌∷◌, []}

pub record Subscription : Type 0 where
  pub client_id : List ℕ
  pub topic_name : List ℕ
  pub qos_level : ℕ

pub record WillMessage : Type 0 where
  pub client_id : List ℕ
  pub topic : List ℕ
  pub qos : ℕ
  pub content : List ℕ
  pub retained : Bool

unfoldable pub new_will_message : List ℕ → List ℕ → List ℕ → ℕ → Bool → WillMessage
new_will_message client_id topic content qos retained = record {
  client_id = client_id;
  topic = topic;
  qos = qos;
  content = content;
  retained = retained;
}

-- "sessions", "will_messages" and "subscriptions"
abbrev pub session_collection_name : List ℕ
session_collection_name = b's' ∷ b'e' ∷ b's' ∷ b's' ∷ b'i' ∷ b'o' ∷ b'n' ∷ b's' ∷ []

abbrev pub will_message_collection_name : List ℕ
will_message_collection_name =
    b'w' ∷ b'i' ∷ b'l' ∷ b'l' ∷ b'_' ∷ b'm' ∷ b'e' ∷ b's' ∷ b's' ∷ b'a' ∷ b'g' ∷ b'e' ∷ b's' ∷ []

abbrev pub subscription_collection_name : List ℕ
subscription_collection_name =
    b's' ∷ b'u' ∷ b'b' ∷ b's' ∷ b'c' ∷ b'r' ∷ b'i' ∷ b'p' ∷ b't' ∷ b'i' ∷ b'o' ∷ b'n' ∷ b's' ∷ []

abbrev pub collections_list : List (List ℕ)
collections_list =
    session_collection_name ∷ will_message_collection_name ∷ subscription_collection_name ∷ []
