-- ===== src/Handlers/Connect/Resume.antt =====
-- Which session a client gets when it connects.
use life_stream_go_mqtt_brok.Database.Store.Recall.{
  Recalls, save_session-get_session, get_session-held, inserted,
}
use life_stream_go_mqtt_brok.Prelude.Maps.{lookup, insert, delete}
use life_stream_go_mqtt_brok.Database.Store.{Store, save_session, get_session, delete_session}
use life_stream_go_mqtt_brok.Handlers.Connect.{
  handler_connect_packet, created, allocated_session, resumed,
}
use life_stream_go_mqtt_brok.Database.Session.{new_session_data, SessionData}
use life_stream_go_mqtt_brok.Packet.Connect.{
  ConnectPacketPayloads, new_connect_ack_packet, accepted,
}
use life_stream_go_mqtt_brok.Prelude.{
  List, ℕ, ◌≡◌, true, false, bytes_eq, some, [], none, ◌≢◌, Option, refl, ==_refl, if_true,
}
use life_stream_go_mqtt_brok.Database.Services.{Services, Laws, failed}

module _ (sv : Services) where
  -- A session as a clean connect makes it.
  abbrev pub clean_session_data : List ℕ → SessionData
  clean_session_data id = record (new_session_data id) { temp_session = true }

  -- The connection is accepted with the session at `r`.
  abbrev pub Accepts : ConnectPacketPayloads → Store sv → ℕ → Type 0
  Accepts payloads st r =
      (handler_connect_packet sv payloads st).0 ≡ (new_connect_ack_packet true accepted, some r)

  pub created-clean :
      (id : List ℕ) (st : Store sv)
      → created sv id true st ≡ (
        (new_connect_ack_packet true accepted, some st.next_ref),
        record (allocated_session sv (clean_session_data id) st).1 {
          sessions = insert id st.next_ref (delete id st.sessions);
        },
      )
  unfolding new_session_data save_session
  created-clean id st = rw (==_refl st.next_ref) refl

  -- A client that asks for a clean session is accepted, with a new temporary session that has its
  -- ID and nothing else, and which `GetSession` then returns.
  pub handler_connect_packet-clean :
      (payloads : ConnectPacketPayloads) (st : Store sv)
      → payloads.connect_flag.clean_session ≡ true
      → (let id = payloads.client_identifier.payload in
          let st' = (handler_connect_packet sv payloads st).1 in
          (r : ℕ) × Accepts payloads st r
          × (st'.heap r ≡ clean_session_data id)
          × (get_session sv id st' ≡ (some r, st')))
  unfolding handler_connect_packet
  handler_connect_packet-clean payloads st clean =
      let id = payloads.client_identifier.payload in
      let st1 = (delete_session sv id st).1 in
      rw clean (
        rw (created-clean id st1) (
          st1.next_ref,
          refl,
          if_true _ (==_refl st1.next_ref),
          get_session-held sv id st1.next_ref _
              (inserted sv id st1.next_ref (delete id st1.sessions)),
        ))

module _ (sv : Services) (l : Laws sv) where
  -- A stored session, not temporary and of a client with a non-empty ID and no temporary session,
  -- is resumed with its contents when that client connects without the clean flag, unless the
  -- query to the collection fails.
  pub handler_connect_packet-resumed :
      (payloads : ConnectPacketPayloads) (ref : ℕ) (st : Store sv)
      → (st.heap ref).temp_session ≡ false
      → bytes_eq (st.heap ref).client_id [] ≡ false
      → lookup (st.heap ref).client_id st.sessions ≡ none
      → (save_session sv ref st).0 ≡ true
      → payloads.connect_flag.clean_session ≡ false
      → payloads.client_identifier.payload ≡ (st.heap ref).client_id
      → (sv.find_one (st.heap ref).client_id (save_session sv ref st).1.documents).0 ≢ failed
      → (r : ℕ) × Accepts sv payloads (save_session sv ref st).1 r
        × ((handler_connect_packet sv payloads (save_session sv ref st).1).1.heap r ≡ st.heap ref)
  unfolding handler_connect_packet
  handler_connect_packet-resumed payloads ref st kept named absent saved unclean same answers =
      rw (unclean, same)
        (from_recall (get_session sv (st.heap ref).client_id (save_session sv ref st).1)
          (save_session-get_session sv l ref st kept named absent saved))
    where
      from_recall :
          (g : Option ℕ × Store sv)
          → Recalls sv
              (sv.find_one (st.heap ref).client_id (save_session sv ref st).1.documents).0
              (st.heap ref)
              g
          → (r : ℕ) × ((resumed sv (st.heap ref).client_id false g).0
              ≡ (new_connect_ack_packet true accepted, some r))
            × ((resumed sv (st.heap ref).client_id false g).1.heap r ≡ st.heap ref)
      from_recall (some r, s) h = (r, refl, h)
      from_recall (none, s) h = absurd (answers h)
