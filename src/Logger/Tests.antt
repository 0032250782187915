-- ===== src/Logger/Tests.antt =====
-- The logger on concrete input: a file system that never fails, and the worker of two lines.
use life_stream_go_mqtt_brok.Logger.Closing.{NoneFails, Empties, log_run-Empties}
use life_stream_go_mqtt_brok.Logger.Order.{Ordered, written_lines, log_run-Ordered}
use life_stream_go_mqtt_brok.Prelude.Result.{Holds}
use life_stream_go_mqtt_brok.Prelude.{
  List, true, ◌∷◌, [], ◌≡◌, some, none, refl, inl, arith, false, ℕ,
}
use life_stream_go_mqtt_brok.Logger.{
  LogServices, AsyncHandler, Today, log_line, padded, with_attrs, painted_level, level_info, fields,
}
use life_stream_go_mqtt_brok.Logger.Queue.{
  write, receive, put, finish, close, write_to, LogQueue, log_run, LogEvent, log_step, blocks,
  new_queue, all_taken, WriteResult, failed_after, panics,
}

abbrev plain : LogServices
plain = record {
  Files = Unit;
  close_file = λ f fs. (true, fs);
  mkdir_all = λ d fs. (true, fs);
  open_append = λ p fs. (some 3, fs);
  remove_file = λ p fs. fs;
  dir = λ p. p;
  level_string = λ l. b'I' ∷ b'N' ∷ b'F' ∷ b'O' ∷ [];
  paint = λ c text. text;
}

abbrev yesterday : AsyncHandler
yesterday = record {
  has_channel = true;
  writer = some 2;
  attrs = [];
  current_day = 41;
  current_file = some 2;
  base_path = b'l' ∷ [];
  group = [];
  log_level = level_info;
}

abbrev today : Today
today = record { year_day = 42; date = b'd' ∷ [] }

a_line :
    log_line plain yesterday
      (record { time = b't' ∷ []; level = 4; message = b'm' ∷ []; attrs = [] })
    ≡ b't' ∷ b' ' ∷ b'|' ∷ b' ' ∷ b'I' ∷ b'N' ∷ b'F' ∷ b'O' ∷ b' ' ∷ b' ' ∷ b'|' ∷ b' ' ∷ b'm'
      ∷ 0x0A ∷ []
unfolding log_line padded painted_level fields
a_line = refl

-- A handler that `WithAttrs` made never gets a line into a channel.
derived : (q : LogQueue) → write_to (with_attrs [] yesterday) (b'm' ∷ []) q ≡ blocks
unfolding write_to with_attrs
derived q = refl

-- Two lines are written, the channel is closed, and the worker writes them and returns.
abbrev two_lines : List LogEvent
two_lines =
    write (b'1' ∷ [])
    ∷ receive
    ∷ write (b'2' ∷ [])
    ∷ close
    ∷ put all_taken all_taken
    ∷ receive
    ∷ put all_taken all_taken
    ∷ finish
    ∷ []

abbrev at_end : LogQueue
at_end = record {
  lines = [];
  closed = true;
  held = none;
  writer = some 2;
  output = (b'1' ∷ []) ∷ (b'2' ∷ []) ∷ [];
  stdout = b'1' ∷ b'2' ∷ [];
  file = b'1' ∷ b'2' ∷ [];
  finished = true;
}

two_lines_run : log_run two_lines (new_queue yesterday) ≡ some at_end
unfolding log_run log_step
two_lines_run = refl

-- The same before the worker has written the second line.
abbrev so_far : List LogEvent
so_far =
    write (b'1' ∷ []) ∷ receive ∷ write (b'2' ∷ []) ∷ close ∷ put all_taken all_taken ∷ receive ∷ []

abbrev on_the_way : LogQueue
on_the_way = record {
  lines = [];
  closed = true;
  held = some (b'2' ∷ []);
  writer = some 2;
  output = (b'1' ∷ []) ∷ [];
  stdout = b'1' ∷ [];
  file = b'1' ∷ [];
  finished = false;
}

log_run-Empties_example : Empties (written_lines so_far) on_the_way
unfolding log_run log_step NoneFails
log_run-Empties_example = log_run-Empties yesterday 2 so_far on_the_way refl tt refl refl

log_run-Ordered_example :
    Holds
      (Ordered (new_queue yesterday) (written_lines two_lines))
      (log_run two_lines (new_queue yesterday))
log_run-Ordered_example = log_run-Ordered two_lines (new_queue yesterday) (inl refl, omega arith)

-- A disk that is full after one byte: the line is lost in the file, and the worker goes on.
full_disk :
    log_run
      (write (b'1' ∷ b'2' ∷ []) ∷ receive ∷ put all_taken (failed_after 1) ∷ [])
      (new_queue yesterday)
    ≡ some (record (new_queue yesterday) {
      output = (b'1' ∷ b'2' ∷ []) ∷ [];
      stdout = b'1' ∷ b'2' ∷ [];
      file = b'1' ∷ [];
    })
unfolding log_run log_step
full_disk = refl

-- A handler whose first rotation failed has no writer, and the worker panics at its first line.
no_log_file :
    (q : LogQueue) (r s : WriteResult) (line : List ℕ)
    → log_step (put r s) (record q { held = some line; writer = none }) ≡ panics
unfolding log_step
no_log_file q r s line = refl
