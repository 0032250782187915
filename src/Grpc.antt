-- ===== src/Grpc.antt =====
-- internal/grpc/grpc_service.go: the two calls of the device service.
use life_stream_go_mqtt_brok.Errors.{Error}
use life_stream_go_mqtt_brok.Database.Store.{Store}
use life_stream_go_mqtt_brok.Prelude.Result.{Result, ◌>>=◌, ok, err, panic, stuck}
use life_stream_go_mqtt_brok.Packet.Publish.{PublishPacketPayloads, new_publish_packet}
use life_stream_go_mqtt_brok.Database.AllSessions.{Cursor, get_all_session}
use life_stream_go_mqtt_brok.Database.Session.{SessionData}
use life_stream_go_mqtt_brok.Connection.{NetServices, ConnectionManager, send_message}
use life_stream_go_mqtt_brok.Database.Services.{Services}
use life_stream_go_mqtt_brok.Prelude.{
  List, Bool, ℕ, ◌∷◌, false, [], length, Option, some, if◌then◌else◌, true, none,
}
pub mod Devices
mod Tests

abbrev pub client_ids : List SessionData → List (List ℕ)
client_ids [] = []
client_ids (x ∷ xs) = x.client_id ∷ client_ids xs

module _ (sv : Services) (find : sv.Documents → Cursor × sv.Documents) where
  -- `GetAllDevices`: the client identifiers of all sessions.
  unfoldable pub get_all_devices : Store sv → Result Error (List (List ℕ) × Store sv)
  get_all_devices st = do
    (sessions, st') ← get_all_session sv find st
    ok (client_ids sessions, st')

-- "control/switch"
abbrev pub control_switch : List ℕ
control_switch =
    b'c' ∷ b'o' ∷ b'n' ∷ b't' ∷ b'r' ∷ b'o' ∷ b'l' ∷ b'/' ∷ b's' ∷ b'w' ∷ b'i' ∷ b't' ∷ b'c' ∷ b'h'
    ∷ []

abbrev pub device_message : Bool → PublishPacketPayloads
device_message status = record {
  packet_flag = record { retry_flag = false; qos = 0; retain = false };
  topic_name = record { payload_length = length control_switch; payload = control_switch };
  packet_id = 0;
  payload = some (if status then b'O' ∷ b'N' ∷ [] else b'O' ∷ b'F' ∷ b'F' ∷ []);
}

module _ (nv : NetServices) where
  -- The status of the response, and the error.
  abbrev pub executed :
      Result Error Unit × ConnectionManager nv
      → Result Error ((Bool × Option Error) × ConnectionManager nv)
  executed (ok u, cm) = ok ((true, none), cm)
  executed (err e, cm) = ok ((false, some e), cm)
  executed (panic, cm) = panic
  executed (stuck, cm) = stuck

  -- `SetDevicesState`: the device is sent a PUBLISH of its state.
  unfoldable pub set_devices_state :
      List ℕ
      → Bool
      → ConnectionManager nv
      → Result Error ((Bool × Option Error) × ConnectionManager nv)
  set_devices_state device status cm =
      executed (send_message nv device (new_publish_packet (device_message status)) cm)
