-- ===== src/Server/Accept.antt =====
-- internal/server/server.go: `StartServer`, the loop that accepts connections and the semaphore that
-- bounds the goroutines which handle them. Their steps interleave in any order.
use life_stream_go_mqtt_brok.Prelude.Result.{Result, panic, ok}
use life_stream_go_mqtt_brok.Errors.{Error}
use life_stream_go_mqtt_brok.Prelude.{
  ℕ, Option, List, none, some, ◌∷◌, if◌then◌else◌, ◌==◌, ltb, [], ◌+◌, ◌&&◌, ◌-◌,
}

-- The capacity of `sem`.
abbrev pub capacity : ℕ
capacity = 10000

-- `waiting` is a connection that the loop has accepted and not started yet, `slots` the number of
-- tokens in `sem`, `handling` the goroutines inside `handleConnection`, and `returned` those that
-- have returned from it and not taken a token out yet.
pub record AcceptLoop : Type 0 where
  pub waiting : Option ℕ
  pub slots : ℕ
  pub handling : List ℕ
  pub returned : ℕ

-- `accept_failed` is an error of `Accept`, after which the loop goes on. `start` is the send on
-- `sem` with the `go` statement behind it, `return_of` the return of `handleConnection`, and
-- `release` the receive from `sem`.
pub data ServerEvent : Type 0 where
  accept : ℕ → ServerEvent
  accept_failed start : ServerEvent
  return_of : ℕ → ServerEvent
  release : ServerEvent

-- A handler of connection `c` fewer, if there is one.
unfoldable pub handler_gone : ℕ → List ℕ → Option (List ℕ)
handler_gone c [] = none
handler_gone c (d ∷ ds) =
    let rest = handler_gone c ds in
    if d == c then some ds else elim rest [ none ↦ none | some es ↦ some (d ∷ es) ]

abbrev pub started : Option ℕ → AcceptLoop → Option AcceptLoop
started none s = none
started (some c) s =
    if ltb s.slots capacity
    then some (record s { waiting = none; slots = s.slots + 1; handling = c ∷ s.handling })
    else none

abbrev pub accepted_one : ℕ → Option ℕ → AcceptLoop → Option AcceptLoop
accepted_one c (some d) s = none
accepted_one c none s = some (record s { waiting = some c })

abbrev pub accepted_none : Option ℕ → AcceptLoop → Option AcceptLoop
accepted_none (some d) s = none
accepted_none none s = some s

-- What an event makes of the state; none where its goroutine is blocked or elsewhere.
unfoldable pub server_step : ServerEvent → AcceptLoop → Option AcceptLoop
server_step (accept c) s = accepted_one c s.waiting s
server_step accept_failed s = accepted_none s.waiting s
server_step start s = started s.waiting s
server_step (return_of c) s = elim (handler_gone c s.handling) [
  | none ↦ none
  | some rest ↦ some (record s { handling = rest; returned = s.returned + 1 })
]
server_step release s =
    if ltb 0 s.returned && ltb 0 s.slots
    then some (record s { slots = s.slots - 1; returned = s.returned - 1 })
    else none

unfoldable pub server_run : List ServerEvent → AcceptLoop → Option AcceptLoop
server_run [] s = some s
server_run (e ∷ es) s = elim (server_step e s) [ none ↦ none | some s' ↦ server_run es s' ]

-- An error of `Listen` is logged, and the loop then dereferences the listener that is nil.
unfoldable pub start_server : Option Error → Result Error AcceptLoop
start_server (some e) = panic
start_server none = ok (record { waiting = none; slots = 0; handling = []; returned = 0 })
