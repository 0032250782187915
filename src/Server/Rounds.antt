-- ===== src/Server/Rounds.antt =====
-- `handlePacket` ends, and what it leaves as it was.
use life_stream_go_mqtt_brok.Server.Serving.{on_packet-Kept}
use life_stream_go_mqtt_brok.Mqtt.Frame.Read.{ReadFrom, read_packet-ReadFrom}
use life_stream_go_mqtt_brok.Mqtt.Frame.{Packet, read_packet}
use life_stream_go_mqtt_brok.Errors.{Error}
use life_stream_go_mqtt_brok.Server.Packets.{Kept, Kept-trans}
use life_stream_go_mqtt_brok.Prelude.Result.{
  Result, Yields, Returns, ok, err, Returns-bind, Returns-weaken, panic, stuck,
}
use life_stream_go_mqtt_brok.Mqtt.Conn.{Conn}
use life_stream_go_mqtt_brok.Handlers.Publish.{Hub}
use life_stream_go_mqtt_brok.Server.Loop.{packet_loop, with_read_deadline, on_packet, next_packet}
use life_stream_go_mqtt_brok.Prelude.{
  ℕ, ◌≡◌, AllBytes, Bool-cases, length, ◌==◌, ◌<◌, inl, inr, arith, refl, suc, none, zero, ◌∙◌,
}
use life_stream_go_mqtt_brok.Server.{ConnectionHandler}
use life_stream_go_mqtt_brok.Connection.{NetServices, NetLaws}
use life_stream_go_mqtt_brok.Database.Tree.{TopicServices}
use life_stream_go_mqtt_brok.Database.Services.{Services}

module _ (sv : Services) (tv : TopicServices) (nv : NetServices) (l : NetLaws nv) where
  -- The handler keeps its session, and the broker its table and the names of its sessions.
  abbrev pub Served : ConnectionHandler → Hub sv tv nv → ConnectionHandler × Hub sv tv nv → Type 0
  Served c h (c', h') = (c'.client_session ≡ c.client_session) × Kept sv tv nv l h h'

  pub with_read_deadline-conn :
      (c : ConnectionHandler) → (with_read_deadline sv tv nv c).conn ≡ c.conn
  with_read_deadline-conn c = elim (Bool-cases (c.keep_alive == 0)) [
    | inl never ↦ rw never refl
    | inr timed ↦ rw timed refl
  ]

  with_read_deadline-session :
      (c : ConnectionHandler) → (with_read_deadline sv tv nv c).client_session ≡ c.client_session
  with_read_deadline-session c = elim (Bool-cases (c.keep_alive == 0)) [
    | inl never ↦ rw never refl
    | inr timed ↦ rw timed refl
  ]

  -- What the loop does with the result of a read.
  step-Served :
      (fuel : ℕ) (picks : ℕ → ℕ → ℕ) (c : ConnectionHandler) (conn : Conn) (h : Hub sv tv nv)
      (r : Result Error (Packet × Conn))
      → Yields (ReadFrom conn) r
      → ((rest : Conn) (h1 : Hub sv tv nv)
          → AllBytes rest.incoming
          → length rest.incoming < length conn.incoming
          → (let c' = record (with_read_deadline sv tv nv c) { deadline = none } in
              Returns (Served c' h1) (packet_loop sv tv nv fuel picks c' rest h1)))
      → Returns
          (Served c h)
          (next_packet sv tv nv (picks fuel) (packet_loop sv tv nv fuel picks) c r h)
  step-Served fuel picks c conn h (ok (packet, rest)) (f, end, left, less) again =
      let c' = record (with_read_deadline sv tv nv c) { deadline = none } in
      let same = with_read_deadline-session c in
      Returns-bind _ (Served c h) (on_packet sv tv nv (picks fuel) c' packet h) _
        (on_packet-Kept sv tv nv l (picks fuel) c' packet h f)
        λ (more, h1) k. elim (Bool-cases more) [
          | inl goes_on ↦ rw goes_on (
              Returns-weaken _ _ (packet_loop sv tv nv fuel picks c' rest h1)
                (again rest h1 left (omega (arith, less)))
                λ x s. (s.0 ∙ same, Kept-trans sv tv nv l h h1 x.1 k s.1))
          | inr stops ↦ rw stops (same, k)
        ]
  step-Served fuel picks c conn h (err e) y again =
      (with_read_deadline-session c, (refl, λ r. refl))
  step-Served fuel picks c conn h panic y again = absurd y
  step-Served fuel picks c conn h stuck y again = absurd y

  -- The loop ends on every connection, without an error: with a value or with a panic. It leaves
  -- the session of the handler, the table of connections and the client identifiers of all
  -- sessions as they were.
  pub packet_loop-Served :
      (fuel : ℕ) (picks : ℕ → ℕ → ℕ) (c : ConnectionHandler) (conn : Conn) (h : Hub sv tv nv)
      → AllBytes conn.incoming
      → length conn.incoming < fuel
      → Returns (Served c h) (packet_loop sv tv nv fuel picks c conn h)
  unfolding packet_loop
  packet_loop-Served zero picks c conn h bytes enough = absurd (omega arith)
  packet_loop-Served (suc fuel) picks c conn h bytes enough =
      let c' = record (with_read_deadline sv tv nv c) { deadline = none } in
      step-Served fuel picks c conn h (read_packet conn) (read_packet-ReadFrom conn bytes)
        λ rest h1 left less. packet_loop-Served fuel picks c' rest h1 left (omega (arith, less))
