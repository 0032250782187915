-- ===== src/Grpc/Devices.antt =====
-- Which devices the service lists, and what a device is sent.
use life_stream_go_mqtt_brok.Handlers.Connect.Resume.{created-clean}
use life_stream_go_mqtt_brok.Mqtt.Frame.{uint16_to_byte}
use life_stream_go_mqtt_brok.Mqtt.Length.{encode_remaining_length}
use mathlib.Core.Path.{subst}
use life_stream_go_mqtt_brok.Packet.Publish.{new_publish_packet}
use life_stream_go_mqtt_brok.Handlers.Publish.Delivery.{share, sent_to-share}
use life_stream_go_mqtt_brok.Handlers.Connect.{handler_connect_packet}
use life_stream_go_mqtt_brok.Packet.Connect.{ConnectPacketPayloads}
use life_stream_go_mqtt_brok.Connection.{
  NetServices, NetLaws, ConnectionManager, send_message, get_connection,
}
use life_stream_go_mqtt_brok.Database.Store.{Store, delete_session}
use life_stream_go_mqtt_brok.Errors.{Error}
use life_stream_go_mqtt_brok.Prelude.Result.{Result, ok, err, panic, stuck, ◌>>=◌}
use life_stream_go_mqtt_brok.Prelude.Maps.{insert, Map, lookup, delete}
use life_stream_go_mqtt_brok.Grpc.{client_ids, get_all_devices, set_devices_state, device_message}
use life_stream_go_mqtt_brok.Database.AllSessions.{
  Cursor, temporary_sessions, over, get_all_session, with_cursor, decoded_sessions, no_cursor,
}
use life_stream_go_mqtt_brok.Database.Session.{SessionData, new_session_data}
use life_stream_go_mqtt_brok.Database.Services.{Services}
use life_stream_go_mqtt_brok.Prelude.{
  List, ℕ, Bool, ◌++◌, false, ◌≡◌, ◌∷◌, ◌||◌, bytes_eq, arith, ap, true, [], bytes_eq_refl, refl,
  Bool-cases, inl, inr, Option, none, ◌∙◌, sym, if_true, ==_refl, if◌then◌else◌,
}

-- `id` is one of the names.
unfoldable pub lists : List ℕ → List (List ℕ) → Bool
lists id [] = false
lists id (j ∷ js) = bytes_eq j id || lists id js

lists-append :
    (id : List ℕ) (xs ys : List (List ℕ)) → lists id (xs ++ ys) ≡ (lists id xs || lists id ys)
unfolding lists
lists-append id [] ys = refl
lists-append id (x ∷ xs) ys = ground (arith, lists-append id xs ys)

client_ids-append :
    (xs ys : List SessionData) → client_ids (xs ++ ys) ≡ client_ids xs ++ client_ids ys
client_ids-append [] ys = refl
client_ids-append (x ∷ xs) ys =
    ap (λ (ids : List (List ℕ)). x.client_id ∷ ids) (client_ids-append xs ys)

module _ (sv : Services) (find : sv.Documents → Cursor × sv.Documents) where
  inserted_is_listed :
      (id : List ℕ) (ref : ℕ) (m : Map (List ℕ) ℕ) (heap : ℕ → SessionData)
      → (heap ref).client_id ≡ id
      → lists id (client_ids (temporary_sessions sv find (insert id ref m) heap)) ≡ true
  unfolding insert temporary_sessions lists
  inserted_is_listed id ref [] heap e = rw (e, bytes_eq_refl id) refl
  inserted_is_listed id ref ((j, r) ∷ m) heap e = elim (Bool-cases (bytes_eq j id)) [
    | inl here ↦ rw here (rw (e, bytes_eq_refl id) refl)
    | inr there ↦
        rw (there, inserted_is_listed id ref m heap e) (or_true (bytes_eq (heap r).client_id id))
  ]
    where
      or_true : (b : Bool) → (b || true) ≡ true
      or_true true = refl
      or_true false = refl

  -- What a list of devices holds, for `id`.
  abbrev pub Lists : List ℕ → Result Error (List (List ℕ) × Store sv) → Type 0
  Lists id (ok (ids, st)) = lists id ids ≡ true
  Lists id (err e) = ⊥
  Lists id panic = ⊥
  Lists id stuck = ⊥

  -- What the call gives, by what the query to the collection returned.
  abbrev pub Listed : List ℕ → Cursor → Result Error (List (List ℕ) × Store sv) → Type 0
  Listed id (over ds) r = Lists id r
  Listed id no_cursor r = r ≡ panic

  with_cursor-Listed :
      (id : List ℕ) (st : Store sv) (c : Cursor × sv.Documents)
      → lists id (client_ids (temporary_sessions sv find st.sessions st.heap)) ≡ true
      → Listed id c.0 (do (sessions, st') ← with_cursor sv find c st; ok (client_ids sessions, st'))
  with_cursor-Listed id st (no_cursor, d) h = refl
  with_cursor-Listed id st (over ds, d) h =
      let temporary = temporary_sessions sv find st.sessions st.heap in
      rw (client_ids-append temporary (decoded_sessions ds)) (
        lists-append id (client_ids temporary) (client_ids (decoded_sessions ds))
        ∙ ap (λ (b : Bool). b || lists id (client_ids (decoded_sessions ds))) h)

  -- A clean session is held in memory.
  clean_session_listed :
      (payloads : ConnectPacketPayloads) (st : Store sv)
      → payloads.connect_flag.clean_session ≡ true
      → (let st' = (handler_connect_packet sv payloads st).1 in
          lists payloads.client_identifier.payload
            (client_ids (temporary_sessions sv find st'.sessions st'.heap))
          ≡ true)
  unfolding handler_connect_packet new_session_data
  clean_session_listed payloads st clean =
      let id = payloads.client_identifier.payload in
      let st1 = (delete_session sv id st).1 in
      rw clean (
        subst
          (λ (r : (List ℕ × Option ℕ) × Store sv).
            lists id (client_ids (temporary_sessions sv find r.1.sessions r.1.heap)) ≡ true)
          (sym (created-clean sv id st1))
          (inserted_is_listed id st1.next_ref (delete id st1.sessions) _
            (ap (λ (x : SessionData). x.client_id) (if_true _ (==_refl st1.next_ref)))))

  -- A client that has connected with a clean session is one of the devices that the service lists,
  -- whatever the documents of the collection, if the query to it returns a cursor; if it returns
  -- none the call panics.
  pub connected-Lists :
      (payloads : ConnectPacketPayloads) (st : Store sv)
      → payloads.connect_flag.clean_session ≡ true
      → (let st' = (handler_connect_packet sv payloads st).1 in
          Listed payloads.client_identifier.payload
            (find st'.documents).0
            (get_all_devices sv find st'))
  unfolding get_all_devices get_all_session
  connected-Lists payloads st clean =
      let st' = (handler_connect_packet sv payloads st).1 in
      with_cursor-Listed payloads.client_identifier.payload st' (find st'.documents)
        (clean_session_listed payloads st clean)

-- The PUBLISH that switches a device on or off: QoS 0, the topic "control/switch" of 14 bytes, and
-- "ON" or "OFF".
unfoldable pub switch_packet : Bool → List ℕ
switch_packet status =
    let n = if status then 18 else 19 in
    let text = if status then b'O' ∷ b'N' ∷ [] else b'O' ∷ b'F' ∷ b'F' ∷ [] in
    0x30 ∷ n ∷ 0 ∷ 14 ∷ b'c' ∷ b'o' ∷ b'n' ∷ b't' ∷ b'r' ∷ b'o' ∷ b'l' ∷ b'/' ∷ b's' ∷ b'w' ∷ b'i'
    ∷ b't' ∷ b'c' ∷ b'h' ∷ text

device_message-switch_packet :
    (status : Bool) → new_publish_packet (device_message status) ≡ switch_packet status
unfolding switch_packet uint16_to_byte new_publish_packet encode_remaining_length
device_message-switch_packet true = refl
device_message-switch_packet false = refl

module _ (nv : NetServices) (l : NetLaws nv)
    (reliable : (c : ℕ) (xs : List ℕ) (net : nv.Net) → (nv.write c xs net).0.1 ≡ none) where
  open l use {written}

  -- The call succeeds, and only the connection of the device, if it has one, is written to.
  abbrev pub Told :
      List ℕ
      → List ℕ
      → ConnectionManager nv
      → Result Error ((Bool × Option Error) × ConnectionManager nv)
      → Type 0
  Told device packet cm (ok (response, cm')) =
      (response ≡ (true, none))
      × (cm'.connections ≡ cm.connections)
      × ((d : ℕ)
          → written cm'.net d ≡ written cm.net d ++ share d (lookup device cm.connections) packet)
  Told device packet cm (err e) = ⊥
  Told device packet cm panic = ⊥
  Told device packet cm stuck = ⊥

  -- On a network whose writes do not fail, the service reports success, and the device, if it is
  -- connected, is sent one PUBLISH packet: QoS 0, the topic "control/switch", and as its payload "ON"
  -- for a status that is true and "OFF" for one that is false. Nothing is sent to any other
  -- connection, and the table of connections is as before.
  pub set_devices_state-Told :
      (device : List ℕ) (status : Bool) (cm : ConnectionManager nv)
      → Told device (switch_packet status) cm (set_devices_state nv device status cm)
  unfolding set_devices_state send_message get_connection
  set_devices_state-Told device status cm =
      let packet = switch_packet status in
      let (net', sent, log) =
        sent_to-share nv l reliable (lookup device cm.connections) packet cm in
      rw (device_message-switch_packet status) (rw sent (refl, refl, log))
