-- ===== src/Database/Session.antt =====
-- internal/database/session_data.go: the state that the broker keeps for a client.
use life_stream_go_mqtt_brok.Prelude.Maps.{Map}
use life_stream_go_mqtt_brok.Prelude.{ℕ, List, Bool, false, []}

pub record SessionData : Type 0 where
  pub client_id : List ℕ
  pub temp_session : Bool
  pub subscriptions : Map (List ℕ) ℕ
  pub pending_publish : Map ℕ (List ℕ)
  pub pending_pubrel : List ℕ
  pub inflight_qos2 : Map ℕ (List ℕ)

unfoldable pub new_session_data : List ℕ → SessionData
new_session_data client_id = record {
  client_id = client_id;
  temp_session = false;
  subscriptions = [];
  pending_publish = [];
  pending_pubrel = [];
  inflight_qos2 = [];
}
