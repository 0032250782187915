-- ===== src/Logger.antt =====
-- internal/logger/logger.go: the handler that formats a line and picks the log file of the day. A
-- level of log/slog is an int from -4 on; here it is 4 more.
use life_stream_go_mqtt_brok.Errors.{Error}
use life_stream_go_mqtt_brok.Prelude.Result.{Result, ok, panic}
use life_stream_go_mqtt_brok.Prelude.{
  ℕ, List, Bool, Option, leb, ◌∷◌, if◌then◌else◌, ◌++◌, some, true, false, [], ◌==◌, none, ◌&&◌,
  ltb, ◌*◌,
}
use life_stream_go_mqtt_brok.Config.{Config}
pub mod Queue
pub mod Order
pub mod Closing
pub mod Rotation
mod Tests

abbrev pub level_debug : ℕ
level_debug = 0

abbrev pub level_info : ℕ
level_info = 4

abbrev pub level_warn : ℕ
level_warn = 8

abbrev pub level_error : ℕ
level_error = 12

abbrev pub level_fatal : ℕ
level_fatal = 16

pub data Colour : Type 0 where
  magenta blue yellow red hi_red green cyan : Colour

-- What the handler calls outside the repository: files, by a number for each open one, the name of a
-- level, and the colours, which a terminal may not show. `false` and `none` are errors.
pub record LogServices : Type 1 where
  pub Files : Type 0
  pub close_file : ℕ → Files → Bool × Files
  pub mkdir_all : List ℕ → Files → Bool × Files
  pub open_append : List ℕ → Files → Option ℕ × Files
  pub remove_file : List ℕ → Files → Files
  pub dir : List ℕ → List ℕ
  pub level_string : ℕ → List ℕ
  pub paint : Colour → List ℕ → List ℕ

-- A field: its key, and its value as `%v` shows it.
pub record Attr : Type 0 where
  pub key : List ℕ
  pub value : List ℕ

pub record LogRecord : Type 0 where
  pub time : List ℕ
  pub level : ℕ
  pub message : List ℕ
  pub attrs : List Attr

-- `has_channel` is false for a nil channel, and `writer` the file that lines go to besides stdout.
pub record AsyncHandler : Type 0 where
  pub has_channel : Bool
  pub writer : Option ℕ
  pub attrs : List Attr
  pub current_day : ℕ
  pub current_file : Option ℕ
  pub base_path : List ℕ
  pub group : List ℕ
  pub log_level : ℕ

unfoldable pub enabled : ℕ → AsyncHandler → Bool
enabled level h = leb h.log_level level

-- `%-5s`
unfoldable pub padded : List ℕ → List ℕ
padded (a ∷ b ∷ c ∷ d ∷ e ∷ s) = a ∷ b ∷ c ∷ d ∷ e ∷ s
padded [] = b' ' ∷ b' ' ∷ b' ' ∷ b' ' ∷ b' ' ∷ []
padded (a ∷ []) = a ∷ b' ' ∷ b' ' ∷ b' ' ∷ b' ' ∷ []
padded (a ∷ b ∷ []) = a ∷ b ∷ b' ' ∷ b' ' ∷ b' ' ∷ []
padded (a ∷ b ∷ c ∷ []) = a ∷ b ∷ c ∷ b' ' ∷ b' ' ∷ []
padded (a ∷ b ∷ c ∷ d ∷ []) = a ∷ b ∷ c ∷ d ∷ b' ' ∷ []

abbrev pub separator : List ℕ
separator = b' ' ∷ b'|' ∷ b' ' ∷ []

-- What `time.Now` tells: the day of the year, and the date as it is written in a path.
pub record Today : Type 0 where
  pub year_day : ℕ
  pub date : List ℕ

pub data RotateError : Type 0 where
  closing_failed mkdir_failed opening_failed : RotateError

module _ (ls : LogServices) where
  unfoldable pub painted_level : ℕ → List ℕ
  painted_level level =
      let name = ls.level_string level in
      if level == level_debug
      then ls.paint magenta name
      else if level == level_info
      then ls.paint blue name
      else if level == level_warn
      then ls.paint yellow name
      else if level == level_error
      then ls.paint red name
      else if level == level_fatal
      then ls.paint hi_red (b'F' ∷ b'A' ∷ b'T' ∷ b'A' ∷ b'L' ∷ [])
      else name

  unfoldable pub fields : List Attr → List ℕ
  fields [] = []
  fields (a ∷ rest) = ls.paint cyan (b' ' ∷ (a.key ++ b'=' ∷ a.value)) ++ fields rest

  -- The line that `Handle` writes.
  unfoldable pub log_line : AsyncHandler → LogRecord → List ℕ
  log_line h r =
      ls.paint green r.time
      ++ separator
      ++ padded (painted_level r.level)
      ++ separator
      ++ ls.paint cyan r.message
      ++ fields h.attrs
      ++ fields r.attrs
      ++ 0x0A ∷ []

  abbrev pub log_path : AsyncHandler → Today → List ℕ
  log_path h today = h.base_path ++ b'/' ∷ (today.date ++ b'.' ∷ b'l' ∷ b'o' ∷ b'g' ∷ [])

  abbrev pub opened :
      Today → AsyncHandler → Option ℕ × ls.Files → Option RotateError × (AsyncHandler × ls.Files)
  opened now h (none, fs) = (some opening_failed, (h, fs))
  opened now h (some f, fs) =
      (none, (record h { current_file = some f; current_day = now.year_day; writer = some f }, fs))

  abbrev pub with_directory :
      Today
      → Today
      → AsyncHandler
      → Bool × ls.Files
      → Option RotateError × (AsyncHandler × ls.Files)
  with_directory now later h (false, fs) = (some mkdir_failed, (h, fs))
  with_directory now later h (true, fs) = opened now h (ls.open_append (log_path h later) fs)

  abbrev pub without_old :
      Today
      → Today
      → AsyncHandler
      → Bool × ls.Files
      → Option RotateError × (AsyncHandler × ls.Files)
  without_old now later h (false, fs) = (some closing_failed, (h, fs))
  without_old now later h (true, fs) =
      with_directory now later h (ls.mkdir_all (ls.dir (log_path h later)) fs)

  abbrev pub close_old : Option ℕ → ls.Files → Bool × ls.Files
  close_old none fs = (true, fs)
  close_old (some f) fs = ls.close_file f fs

  abbrev pub has_file : Option ℕ → Bool
  has_file none = false
  has_file (some f) = true

  -- `now` is the time at the start and `later` the one that the path is made of.
  unfoldable pub rotate_if_needed :
      Today → Today → AsyncHandler → ls.Files → Option RotateError × (AsyncHandler × ls.Files)
  rotate_if_needed now later h fs =
      if now.year_day == h.current_day && has_file h.current_file
      then (none, (h, fs))
      else without_old now later h (close_old h.current_file fs)

  -- An error of the first rotation is dropped; there is no writer then.
  unfoldable pub new_async_handler : Today → Today → List ℕ → ℕ → ls.Files → AsyncHandler × ls.Files
  new_async_handler now later base level fs =
      (rotate_if_needed now later
        (record {
          has_channel = true;
          writer = none;
          attrs = [];
          current_day = 0;
          current_file = none;
          base_path = base;
          group = [];
          log_level = level;
        })
        fs).1

  -- `cleanOldLogs` on the files that match, with their age in nanoseconds where `Stat` tells it; a file
  -- that it does not know is a nil pointer.
  unfoldable pub clean_old_logs : List (List ℕ × Option ℕ) → ls.Files → Result Error ls.Files
  clean_old_logs [] fs = ok fs
  clean_old_logs ((path, none) ∷ rest) fs = panic
  clean_old_logs ((path, some age) ∷ rest) fs =
      clean_old_logs rest
        (if ltb (30 * 24 * 3600 * 1000000000) age then ls.remove_file path fs else fs)

-- `WithAttrs` and `WithGroup` make handlers without a channel, a path or a file.
unfoldable pub with_attrs : List Attr → AsyncHandler → AsyncHandler
with_attrs attrs h = record {
  has_channel = false;
  writer = h.writer;
  attrs = h.attrs ++ attrs;
  current_day = 0;
  current_file = none;
  base_path = [];
  group = h.group;
  log_level = h.log_level;
}

unfoldable pub with_group : List ℕ → AsyncHandler → AsyncHandler
with_group name h = record {
  has_channel = false;
  writer = h.writer;
  attrs = h.attrs;
  current_day = 0;
  current_file = none;
  base_path = [];
  group = name;
  log_level = h.log_level;
}

-- `Init`: debug output is on in debug mode. The directory is "logs".
abbrev pub initial_level : Bool → ℕ
initial_level debug_mode = if debug_mode then level_debug else level_info

unfoldable pub init_logger :
    (ls : LogServices) → Config → Today → Today → ls.Files → AsyncHandler × ls.Files
init_logger ls c now later fs =
    new_async_handler ls now later (b'l' ∷ b'o' ∷ b'g' ∷ b's' ∷ []) (initial_level c.debug_mode) fs

-- The functions of the package, with and without a format: `DebugF` and `Debug`, and so on.
pub data LogCall : Type 0 where
  debug info warn error fatal : LogCall

unfoldable pub call_level : LogCall → ℕ
call_level debug = level_debug
call_level info = level_info
call_level warn = level_warn
call_level error = level_error
call_level fatal = level_fatal
