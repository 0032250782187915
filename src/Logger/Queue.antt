-- ===== src/Logger/Queue.antt =====
-- internal/logger/logger.go: the channel of lines, the worker that writes them, `Write` and `Close`.
-- The goroutines interleave in any order.
use life_stream_go_mqtt_brok.Logger.{
  AsyncHandler, LogServices, LogRecord, log_line, LogCall, call_level, enabled,
}
use life_stream_go_mqtt_brok.Prelude.{
  ℕ, List, [], Option, if◌then◌else◌, Bool, false, ◌∷◌, some, true, ltb, ◌&&◌, none, length, ◌++◌,
  take,
}

-- The capacity of the channel.
abbrev pub channel_capacity : ℕ
channel_capacity = 1024

-- `held` is the line that the worker has received and not handed to its writer yet, `output` the
-- lines that it has handed to it, `stdout` and `file` the bytes that the two parts of that writer
-- took, and `finished` that the worker has returned. `writer` is the handler's, none where it is nil.
pub record LogQueue : Type 0 where
  pub lines : List (List ℕ)
  pub closed : Bool
  pub held : Option (List ℕ)
  pub writer : Option ℕ
  pub output : List (List ℕ)
  pub stdout : List ℕ
  pub file : List ℕ
  pub finished : Bool

-- The channel of a new handler, and the worker that is started on it.
abbrev pub new_queue : AsyncHandler → LogQueue
new_queue h = record {
  lines = [];
  closed = false;
  held = none;
  writer = h.writer;
  output = [];
  stdout = [];
  file = [];
  finished = false;
}

-- What the `Write` of stdout or of the file makes of a line: it takes all of it, or an error after as
-- many bytes.
pub data WriteResult : Type 0 where
  all_taken : WriteResult
  failed_after : ℕ → WriteResult

abbrev pub taken_by : WriteResult → List ℕ → List ℕ
taken_by all_taken line = line
taken_by (failed_after n) line = take n line

-- The writer of `io.MultiWriter`: stdout first, and the file if that was no error. The worker drops
-- the error of either.
abbrev pub multi_write : WriteResult → WriteResult → List ℕ → LogQueue → LogQueue
multi_write all_taken on_file line q = record q {
  stdout = q.stdout ++ line;
  file = q.file ++ taken_by on_file line;
}
multi_write (failed_after n) on_file line q = record q { stdout = q.stdout ++ take n line }

-- `write` is a `Write`, `receive` and `put` the two halves of a round of the worker, with what the
-- writes to stdout and to the file result in, `finish` its return, and `close` the start of `Close`,
-- which then waits for the worker.
pub data LogEvent : Type 0 where
  write : List ℕ → LogEvent
  receive : LogEvent
  put : WriteResult → WriteResult → LogEvent
  finish close : LogEvent

-- A goroutine moves, is blocked or elsewhere, or panics.
pub data Move : Type 0 where
  moves : LogQueue → Move
  blocks panics : Move

abbrev pub received_from : List (List ℕ) → Option (List ℕ) → LogQueue → Move
received_from (line ∷ rest) none q = moves (record q { lines = rest; held = some line })
received_from [] held q = blocks
received_from (line ∷ rest) (some l) q = blocks

-- A call of `Write` on a writer that is nil panics.
abbrev pub put_held : WriteResult → WriteResult → Option (List ℕ) → Option ℕ → LogQueue → Move
put_held on_stdout on_file none w q = blocks
put_held on_stdout on_file (some line) none q = panics
put_held on_stdout on_file (some line) (some f) q =
    moves (
      multi_write on_stdout on_file line (record q { held = none; output = q.output ++ line ∷ [] }))

-- The worker returns when the channel is closed and empty.
abbrev pub returned_on : List (List ℕ) → Option (List ℕ) → LogQueue → Move
returned_on [] none q = if q.closed then moves (record q { finished = true }) else blocks
returned_on [] (some l) q = blocks
returned_on (line ∷ rest) held q = blocks

unfoldable pub log_step : LogEvent → LogQueue → Move
log_step (write line) q =
    if q.closed
    then panics
    else if ltb (length q.lines) channel_capacity
    then moves (record q { lines = q.lines ++ line ∷ [] })
    else blocks
log_step receive q = if q.finished then blocks else received_from q.lines q.held q
log_step (put on_stdout on_file) q = put_held on_stdout on_file q.held q.writer q
log_step finish q = if q.finished then blocks else returned_on q.lines q.held q
log_step close q = if q.closed then panics else moves (record q { closed = true })

unfoldable pub log_run : List LogEvent → LogQueue → Option LogQueue
log_run [] q = some q
log_run (e ∷ es) q = elim (log_step e q) [
  | moves q' ↦ log_run es q'
  | blocks ↦ none
  | panics ↦ none
]

-- `Write` on a handler. A send on a nil channel blocks for ever.
unfoldable pub write_to : AsyncHandler → List ℕ → LogQueue → Move
write_to h line q = if h.has_channel then log_step (write line) q else blocks

-- `Handle`
unfoldable pub handle : (ls : LogServices) → AsyncHandler → LogRecord → LogQueue → Move
handle ls h r q = write_to h (log_line ls h r) q

-- A call of the package on the default logger, which asks `Enabled` first.
unfoldable pub log_call :
    (ls : LogServices) → AsyncHandler → LogCall → List ℕ → List ℕ → LogQueue → Move
log_call ls h call time message q =
    let level = call_level call in
    if enabled level h
    then handle ls h (record { time = time; level = level; message = message; attrs = [] }) q
    else moves q

-- `Close` returns when the worker has.
unfoldable pub close_returns : LogQueue → Bool
close_returns q = q.closed && q.finished
