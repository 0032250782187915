-- ===== src/Connection.antt =====
-- internal/connection: the table of connections, and `Send`.
use life_stream_go_mqtt_brok.Prelude.Result.{Result, ok, stuck, err}
use life_stream_go_mqtt_brok.Errors.{Error, eof, timeout, net_closed}
use life_stream_go_mqtt_brok.Prelude.Maps.{Map, insert, delete, lookup}
use life_stream_go_mqtt_brok.Prelude.{
  ℕ, List, Option, ◌≡◌, ◌++◌, length, some, take, ◌∷◌, none, ◌==◌, false, suc, drop, [], zero, Bool,
  true,
}
pub mod Send
pub mod Tests

-- The network: `Write` on a connection takes a number of bytes off the front of its argument, and
-- may fail.
pub record NetServices : Type 1 where
  pub Net : Type 0
  pub write : ℕ → List ℕ → Net → (ℕ × Option Error) × Net

-- `net` keeps a log of what each connection was given. A write that takes less than it was given
-- has failed, as the documentation of `io.Writer` has it.
pub record NetLaws (nv : NetServices) : Type 1 where
  pub written : nv.Net → ℕ → List ℕ
  pub takes :
      (c : ℕ) (xs : List ℕ) (net : nv.Net)
      → written (nv.write c xs net).1 c ≡ written net c ++ take (nv.write c xs net).0.0 xs
  pub takes_all :
      (c : ℕ) (xs : List ℕ) (net : nv.Net)
      → (nv.write c xs net).0.1 ≡ none
      → (nv.write c xs net).0.0 ≡ length xs
  pub others :
      (c d : ℕ) (xs : List ℕ) (net : nv.Net)
      → (d == c) ≡ false
      → written (nv.write c xs net).1 d ≡ written net d

pub record Connection : Type 0 where
  pub conn : ℕ
  pub conn_id : List ℕ

module _ (nv : NetServices) where
  -- The loop of `Send` on the bytes that are not sent yet.
  unfoldable pub send_loop : ℕ → ℕ → List ℕ → nv.Net → Result Error Unit × nv.Net
  send_loop fuel c [] net = (ok tt, net)
  send_loop zero c (x ∷ xs) net = (stuck, net)
  send_loop (suc fuel) c (x ∷ xs) net =
      let ((n, failure), net') = nv.write c (x ∷ xs) net in
      let rest = send_loop fuel c (drop n (x ∷ xs)) net' in
      elim failure [ some e ↦ (err e, net') | none ↦ rest ]

  -- A write that does not fail takes a byte at least, so the fuel is enough.
  unfoldable pub send : ℕ → List ℕ → nv.Net → Result Error Unit × nv.Net
  send c bytes net = send_loop (length bytes) c bytes net

  pub record ConnectionManager : Type 0 where
    pub connections : Map (List ℕ) Connection
    pub net : nv.Net

  unfoldable pub add_connection : List ℕ → Connection → ConnectionManager → ConnectionManager
  add_connection client conn cm = record cm { connections = insert client conn cm.connections }

  unfoldable pub remove_connection : List ℕ → ConnectionManager → ConnectionManager
  remove_connection client cm = record cm { connections = delete client cm.connections }

  unfoldable pub get_connection : List ℕ → ConnectionManager → Option Connection
  get_connection client cm = lookup client cm.connections

  abbrev pub sent_to :
      Option Connection → List ℕ → ConnectionManager → Result Error Unit × ConnectionManager
  sent_to (some conn) bytes cm =
      let (r, net) = send conn.conn bytes cm.net in (r, record cm { net = net })
  sent_to none bytes cm = (ok tt, cm)

  -- A client that is not connected gets nothing, and that is no error.
  unfoldable pub send_message :
      List ℕ → List ℕ → ConnectionManager → Result Error Unit × ConnectionManager
  send_message client bytes cm = sent_to (get_connection client cm) bytes cm

-- What `HandleReadError` logs: at info, that the client closed; at warning, that a read timed out;
-- at error, all else, an end of the stream inside a packet too.
pub data ReadEnd : Type 0 where
  closed_by_client timed_out failed_read : ReadEnd

unfoldable pub handle_read_error : Error → ReadEnd
handle_read_error eof = closed_by_client
handle_read_error timeout = timed_out
handle_read_error e = failed_read

-- `IsNetClosedError`: the errors of `Close` that are not logged, which a timeout is too.
unfoldable pub is_net_closed_error : Error → Bool
is_net_closed_error net_closed = true
is_net_closed_error timeout = true
is_net_closed_error e = false
