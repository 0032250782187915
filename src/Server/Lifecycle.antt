-- ===== src/Server/Lifecycle.antt =====
-- What `handleConnection` leaves of the table of connections.
use life_stream_go_mqtt_brok.Server.Rounds.{Served, packet_loop-Served}
use life_stream_go_mqtt_brok.Server.First.{Outcome, Registered, handle_first_packet-Registered}
use life_stream_go_mqtt_brok.Prelude.Maps.{lookup-delete}
use life_stream_go_mqtt_brok.Errors.{Error}
use life_stream_go_mqtt_brok.Prelude.Result.{
  Result, panic, Returns, ok, ◌>>=◌, err, Returns-bind, stuck,
}
use life_stream_go_mqtt_brok.Mqtt.Conn.{Conn}
use life_stream_go_mqtt_brok.Prelude.{
  ◌≡◌, ℕ, Bool-cases, Option, AllBytes, inl, length, inr, refl, some, arith, List, none,
  if◌then◌else◌, bytes_eq, ◌∙◌, ◌+◌, if_false,
}
use life_stream_go_mqtt_brok.Handlers.Publish.{Hub}
use life_stream_go_mqtt_brok.Server.Loop.{packet_loop, finished, handle_packet, handle_connection}
use life_stream_go_mqtt_brok.Server.{ConnectionHandler, FirstPacket, handle_first_packet}
use life_stream_go_mqtt_brok.Connection.{NetServices, NetLaws, get_connection, remove_connection}
use life_stream_go_mqtt_brok.Database.Tree.{TopicServices}
use life_stream_go_mqtt_brok.Database.Services.{Services}

module _ (sv : Services) (tv : TopicServices) (nv : NetServices) (l : NetLaws nv) where
  -- The end of a connection, by the session that the first packet left.
  abbrev pub Left :
      Hub sv tv nv → FirstPacket sv tv nv → Option ℕ → Result Error (Hub sv tv nv) → Type 0
  Left h f none r = r ≡ panic
  Left h f (some ref) r =
      Returns
        (λ (h' : Hub sv tv nv).
          (client : List ℕ)
          → get_connection nv client h'.manager ≡ (
              if bytes_eq (f.hub.broker.store.heap ref).client_id client
              then none
              else get_connection nv client h.manager))
        r

  Table : Hub sv tv nv → Hub sv tv nv → List ℕ → Type 0
  Table h h' id =
      (client : List ℕ)
      → (if bytes_eq id client then none else get_connection nv client h'.manager)
        ≡ (if bytes_eq id client then none else get_connection nv client h.manager)

  -- What the deferred function leaves of the table.
  finished-Left :
      (c : ConnectionHandler) (h h1 : Hub sv tv nv) (id : List ℕ) (ref : ℕ)
      → c.client_session ≡ some ref
      → (h1.broker.store.heap ref).client_id ≡ id
      → Table h h1 id
      → Returns
          (λ (h' : Hub sv tv nv).
            (client : List ℕ)
            → get_connection nv client h'.manager
              ≡ (if bytes_eq id client then none else get_connection nv client h.manager))
          (finished sv tv nv (c, h1))
  unfolding get_connection remove_connection Table
  finished-Left c h h1 id ref session name table =
      rw (session, name) λ client. lookup-delete id client h1.manager.connections ∙ table client

  Table-same :
      (h h' : Hub sv tv nv) (id : List ℕ)
      → h'.manager.connections ≡ h.manager.connections
      → Table h h' id
  unfolding Table get_connection
  Table-same h h' id same client = rw same refl

  -- The last part of `handleConnection`, on what the first packet left.
  ends-Left :
      (picks : ℕ → ℕ → ℕ) (c : ConnectionHandler) (h : Hub sv tv nv) (f : FirstPacket sv tv nv)
      (failure : Option Error) (session : Option ℕ)
      → f.handler.client_session ≡ session
      → Outcome sv tv nv l c h f failure session
      → AllBytes f.rest.incoming
      → Left h f session (do
        end ← elim failure [
          | some e ↦ ok (f.handler, f.hub)
          | none ↦ handle_packet sv tv nv picks f.handler f.rest f.hub
        ]
        finished sv tv nv end)
  unfolding handle_packet get_connection Table
  ends-Left picks c h f (some e) none nil out bytes = rw nil refl
  ends-Left picks c h f (some e) (some ref) is_ref out bytes =
      finished-Left f.handler h f.hub (f.hub.broker.store.heap ref).client_id ref is_ref refl
        (Table-same h f.hub (f.hub.broker.store.heap ref).client_id out)
  ends-Left picks c h f none none nil out bytes =
      nil_panics (packet_loop sv tv nv (length f.rest.incoming + 1) picks f.handler f.rest f.hub) (
        packet_loop-Served sv tv nv l (length f.rest.incoming + 1) picks f.handler f.rest f.hub
          bytes (omega arith))
    where
      nil_panics :
          (r : Result Error (ConnectionHandler × Hub sv tv nv))
          → Returns (Served sv tv nv l f.handler f.hub) r
          → (do end ← r; finished sv tv nv end) ≡ panic
      nil_panics (ok (c', h1)) s = rw (s.0 ∙ nil) refl
      nil_panics (err e) s = absurd s
      nil_panics panic s = refl
      nil_panics stuck s = absurd s
  ends-Left picks c h f none (some ref) is_ref out bytes =
      Returns-bind (Served sv tv nv l f.handler f.hub) _
        (packet_loop sv tv nv (length f.rest.incoming + 1) picks f.handler f.rest f.hub) _
        (packet_loop-Served sv tv nv l (length f.rest.incoming + 1) picks f.handler f.rest f.hub
          bytes (omega arith))
        λ (c', h1) s.
          finished-Left c' h h1 (f.hub.broker.store.heap ref).client_id ref (s.0 ∙ is_ref)
            (s.1.1 ref) (after h1 s.1.0)
    where
      after :
          (h1 : Hub sv tv nv)
          → h1.manager.connections ≡ f.hub.manager.connections
          → Table h h1 (f.hub.broker.store.heap ref).client_id
      after h1 same client =
          rw same (elim (Bool-cases (bytes_eq (f.hub.broker.store.heap ref).client_id client)) [
            | inl mine ↦ rw mine refl
            | inr other ↦ rw other (out.0 client ∙ if_false _ other)
          ])

  with_first :
      (picks : ℕ → ℕ → ℕ) (c : ConnectionHandler) (h : Hub sv tv nv)
      (r : Result Error (FirstPacket sv tv nv))
      → Registered sv tv nv l c h r
      → (f : FirstPacket sv tv nv) × (r ≡ ok f)
        × Left h f f.handler.client_session (do
          f ← r
          end ← elim f.failure [
            | some e ↦ ok (f.handler, f.hub)
            | none ↦ handle_packet sv tv nv picks f.handler f.rest f.hub
          ]
          finished sv tv nv end)
  with_first picks c h (ok f) (out, bytes) =
      (f, refl, ends-Left picks c h f f.failure f.handler.client_session refl out bytes)
  with_first picks c h (err e) g = absurd g
  with_first picks c h panic g = absurd g
  with_first picks c h stuck g = absurd g

  -- A whole connection ends, on all bytes that may arrive. Where the first packet left a session,
  -- `handleConnection` returns or panics, and if it returns the table of connections is as before
  -- but for the client of that session, which is in it no more. Where the first packet left no
  -- session, as when it was no CONNECT, was refused or could not be read, `handleConnection` panics,
  -- and the broker with it.
  pub handle_connection-Left :
      (picks : ℕ → ℕ → ℕ) (c : ConnectionHandler) (conn : Conn) (h : Hub sv tv nv)
      → c.client_session ≡ none
      → AllBytes conn.incoming
      → (f : FirstPacket sv tv nv) × (handle_first_packet sv tv nv c conn h ≡ ok f)
        × Left h f f.handler.client_session (handle_connection sv tv nv picks c conn h)
  unfolding handle_connection
  handle_connection-Left picks c conn h nil bytes =
      with_first picks c h (handle_first_packet sv tv nv c conn h)
        (handle_first_packet-Registered sv tv nv l c conn h nil bytes)
