-- ===== src/Handlers/Connect.antt =====
-- internal/packet/connect.go: `HandlerConnectPacket`.
use life_stream_go_mqtt_brok.Database.Store.{Store, save_session, delete_session, get_session}
use life_stream_go_mqtt_brok.Packet.Connect.{
  ConnectPacketPayloads, new_connect_ack_packet, accepted, server_unavailable,
}
use life_stream_go_mqtt_brok.Prelude.{
  List, ℕ, if◌then◌else◌, Bool, Option, ◌==◌, some, true, ◌+◌, false, none,
}
use life_stream_go_mqtt_brok.Database.Session.{SessionData, new_session_data}
use life_stream_go_mqtt_brok.Database.Services.{Services}
pub mod Resume

module _ (sv : Services) where
  -- A new session object, with the reference of it.
  abbrev pub allocated_session : SessionData → Store sv → ℕ × Store sv
  allocated_session x st = (
    st.next_ref,
    record st { heap = λ r. if r == st.next_ref then x else st.heap r; next_ref = st.next_ref + 1 },
  )

  -- The session is new: it is saved, and a save that fails ends the connection.
  abbrev pub created : List ℕ → Bool → Store sv → (List ℕ × Option ℕ) × Store sv
  created id clean st =
      let (ref, st') =
        allocated_session (record (new_session_data id) { temp_session = clean }) st in
      let (done, st'') = save_session sv ref st' in
      if done
      then ((new_connect_ack_packet true accepted, some ref), st'')
      else ((new_connect_ack_packet false server_unavailable, none), st'')

  abbrev pub resumed : List ℕ → Bool → Option ℕ × Store sv → (List ℕ × Option ℕ) × Store sv
  resumed id clean (some ref, st) = ((new_connect_ack_packet true accepted, some ref), st)
  resumed id clean (none, st) = created id clean st

  -- The answer to send and the session; there is none exactly with the error of the source.
  unfoldable pub handler_connect_packet :
      ConnectPacketPayloads → Store sv → (List ℕ × Option ℕ) × Store sv
  handler_connect_packet payloads st =
      let id = payloads.client_identifier.payload in
      if payloads.connect_flag.clean_session
      then created id true (delete_session sv id st).1
      else resumed id false (get_session sv id st)
