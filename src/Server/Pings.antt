-- ===== src/Server/Pings.antt =====
-- A client that only pings.
use life_stream_go_mqtt_brok.Server.Rounds.{with_read_deadline-conn}
use life_stream_go_mqtt_brok.Connection.Send.{nothing_more, send-reliable}
use life_stream_go_mqtt_brok.Server.Loop.{
  packet_loop, on_packet, with_read_deadline, next_packet, handle_packet,
}
use life_stream_go_mqtt_brok.Handlers.Publish.{Hub}
use life_stream_go_mqtt_brok.Connection.{NetServices, NetLaws}
use life_stream_go_mqtt_brok.Database.Tree.{TopicServices}
use life_stream_go_mqtt_brok.Database.Services.{Services}
use life_stream_go_mqtt_brok.Mqtt.Frame.Read.{packet}
use life_stream_go_mqtt_brok.Prelude.Result.{ok, Result, err, panic, stuck, ◌>>=◌}
use life_stream_go_mqtt_brok.Errors.{Error}
use life_stream_go_mqtt_brok.Server.{new_ping_resp_packet, ConnectionHandler}
use life_stream_go_mqtt_brok.Mqtt.PacketType.{validate_flags, pingreq}
use life_stream_go_mqtt_brok.Mqtt.Length.{decode_remaining_length}
use life_stream_go_mqtt_brok.Mqtt.Conn.{read_full, read_full-append, Conn}
use life_stream_go_mqtt_brok.Mqtt.Frame.{read_packet, Packet}
use life_stream_go_mqtt_brok.Prelude.{
  ℕ, List, [], suc, ◌∷◌, zero, ◌++◌, ◌≡◌, refl, none, ◌∙◌, ◌<◌, ap, if◌then◌else◌, append_assoc,
  ◌==◌, arith, Bool, true, false, sym, ◌≤◌, length, ◌+◌,
}
use mathlib.Core.Path.{subst}

-- The bytes of `n` PINGREQ packets, and of the answers to them.
unfoldable pub pings : ℕ → List ℕ
pings zero = []
pings (suc n) = 0xC0 ∷ 0x00 ∷ pings n

unfoldable pub pongs : ℕ → List ℕ
pongs zero = []
pongs (suc n) = 0xD0 ∷ 0x00 ∷ pongs n

length-pings : (n : ℕ) → n ≤ length (pings n)
unfolding pings
length-pings zero = omega arith
length-pings (suc n) = omega (arith, length-pings n)

read_ping :
    (rest : List ℕ) (e : Error)
    → read_packet (record { incoming = 0xC0 ∷ 0x00 ∷ rest; closing = e })
      ≡ ok (packet pingreq 0 [], record { incoming = rest; closing = e })
unfolding read_packet decode_remaining_length validate_flags
read_ping rest e =
    rw (read_full-append (0xC0 ∷ []) (0x00 ∷ rest) e) (rw (read_full-append [] rest e) refl)

module _ (sv : Services) (tv : TopicServices) (nv : NetServices) (l : NetLaws nv)
    (reliable : (c : ℕ) (xs : List ℕ) (net : nv.Net) → (nv.write c xs net).0.1 ≡ none) where
  open l use {written}

  -- The broker with its sessions and its tree, the packet IDs and the table of connections are as
  -- before, and each connection has got more bytes.
  abbrev pub Answered :
      Hub sv tv nv → (ℕ → List ℕ) → Result Error (ConnectionHandler × Hub sv tv nv) → Type 0
  Answered h bytes (ok (c', h')) =
      (h'.broker ≡ h.broker)
      × (h'.ids ≡ h.ids)
      × (h'.manager.connections ≡ h.manager.connections)
      × ((d : ℕ) → written h'.manager.net d ≡ written h.manager.net d ++ bytes d)
  Answered h bytes (err e) = ⊥
  Answered h bytes panic = ⊥
  Answered h bytes stuck = ⊥

  Answered-then :
      (h h1 : Hub sv tv nv) (p q s : ℕ → List ℕ)
      (r : Result Error (ConnectionHandler × Hub sv tv nv))
      → h1.broker ≡ h.broker
      → h1.ids ≡ h.ids
      → h1.manager.connections ≡ h.manager.connections
      → ((d : ℕ) → written h1.manager.net d ≡ written h.manager.net d ++ p d)
      → ((d : ℕ) → p d ++ q d ≡ s d)
      → Answered h1 q r
      → Answered h s r
  Answered-then h h1 p q s (ok (c', h')) b i m log sum a = (
    a.0 ∙ b,
    a.1 ∙ i,
    a.2 ∙ m,
    λ d.
        a.3 d
        ∙ ap (λ (ys : List ℕ). ys ++ q d) (log d)
        ∙ append_assoc (written h.manager.net d) (p d) (q d)
        ∙ ap (λ (ys : List ℕ). written h.manager.net d ++ ys) (sum d),
  )
  Answered-then h h1 p q s (err e) b i m log sum a = absurd a
  Answered-then h h1 p q s panic b i m log sum a = absurd a
  Answered-then h h1 p q s stuck b i m log sum a = absurd a

  both :
      (b : Bool) (n : ℕ)
      → (if b then new_ping_resp_packet else []) ++ (if b then pongs n else [])
        ≡ (if b then pongs (suc n) else [])
  unfolding pongs new_ping_resp_packet
  both true n = refl
  both false n = refl

  -- One PINGREQ, before the others.
  one_ping :
      (n fuel : ℕ) (picks : ℕ → ℕ → ℕ) (c c' : ConnectionHandler) (e : Error) (h : Hub sv tv nv)
      → c'.conn ≡ c.conn
      → ((h1 : Hub sv tv nv)
          → Answered h1
              (λ d. if d == c'.conn then pongs n else [])
              (packet_loop sv tv nv fuel picks c' (record { incoming = pings n; closing = e }) h1))
      → Answered h
          (λ d. if d == c.conn then pongs (suc n) else [])
          (do
            (more, h1) ← on_packet sv tv nv (picks fuel) c' (packet pingreq 0 []) h
            let rest =
                packet_loop sv tv nv fuel picks c' (record { incoming = pings n; closing = e }) h1
            if more then rest else ok (c', h1))
  unfolding on_packet
  one_ping n fuel picks c c' e h same again =
      let (net', sent, log) =
        send-reliable nv l reliable c'.conn new_ping_resp_packet h.manager.net in
      let h1 = record h { manager = record h.manager { net = net' } } in
      rw sent (
        Answered-then h h1 (λ d. if d == c'.conn then new_ping_resp_packet else [])
          (λ d. if d == c'.conn then pongs n else [])
          (λ d. if d == c.conn then pongs (suc n) else [])
          (packet_loop sv tv nv fuel picks c' (record { incoming = pings n; closing = e }) h1) refl
          refl refl log
          (λ d. both (d == c'.conn) n ∙ ap (λ (k : ℕ). if d == k then pongs (suc n) else []) same)
          (again h1))

  no_pings :
      (fuel : ℕ) (picks : ℕ → ℕ → ℕ) (c : ConnectionHandler) (e : Error) (h : Hub sv tv nv)
      → Answered h
          (λ d. if d == c.conn then pongs 0 else [])
          (packet_loop sv tv nv (suc fuel) picks c (record { incoming = []; closing = e }) h)
  unfolding packet_loop read_packet read_full pongs
  no_pings fuel picks c e h =
      (refl, refl, refl, λ d. nothing_more nv l d c.conn (written h.manager.net d))

  packet_loop-pings :
      (n fuel : ℕ) (picks : ℕ → ℕ → ℕ) (c : ConnectionHandler) (e : Error) (h : Hub sv tv nv)
      → n < fuel
      → Answered h
          (λ d. if d == c.conn then pongs n else [])
          (packet_loop sv tv nv fuel picks c (record { incoming = pings n; closing = e }) h)
  unfolding packet_loop pings
  packet_loop-pings n zero picks c e h enough = absurd (omega arith)
  packet_loop-pings zero (suc fuel) picks c e h enough = no_pings fuel picks c e h
  packet_loop-pings (suc n) (suc fuel) picks c e h enough =
      let c' = record (with_read_deadline sv tv nv c) { deadline = none } in
      subst (λ r. Answered h (λ d. if d == c.conn then pongs (suc n) else []) r)
        (ap
          (λ (r : Result Error (Packet × Conn)).
            next_packet sv tv nv (picks fuel) (packet_loop sv tv nv fuel picks) c r h)
          (sym (read_ping (pings n) e)))
        (one_ping n fuel picks c c' e h (with_read_deadline-conn sv tv nv l c)
          λ h1. packet_loop-pings n fuel picks c' e h1 (omega arith))

  -- A client that sends PINGREQ packets only, with any session, is sent one PINGRESP, the bytes 0xD0
  -- and 0, for each of them on a network whose writes do not fail, and no other connection is sent
  -- anything; the loop returns once the connection ends, and the sessions, the tree, the packet IDs
  -- and the table of connections are as before.
  pub handle_packet-pings :
      (n : ℕ) (picks : ℕ → ℕ → ℕ) (c : ConnectionHandler) (e : Error) (h : Hub sv tv nv)
      → Answered h
          (λ d. if d == c.conn then pongs n else [])
          (handle_packet sv tv nv picks c (record { incoming = pings n; closing = e }) h)
  unfolding handle_packet
  handle_packet-pings n picks c e h =
      packet_loop-pings n (length (pings n) + 1) picks c e h (omega (arith, length-pings n))
