-- ===== src/Event.antt =====
-- internal/event/cleaner.go: the callbacks that run before the broker stops. A callback is a
-- parameter, with the world that it changes; the time that `Invoke` is given is one of its inputs.
use life_stream_go_mqtt_brok.Errors.{Error}
use life_stream_go_mqtt_brok.Prelude.Result.{Result, panic, ok}
use life_stream_go_mqtt_brok.Prelude.{
  Option, List, [], if◌then◌else◌, Bool, false, ◌++◌, true, none, ◌∷◌, some,
}
pub mod Order
mod Tests

pub record Callables : Type 1 where
  pub Callable : Type 0
  pub World : Type 0
  pub invoke : Callable → World → Option Error × World

module _ (cv : Callables) where
  -- `started` is that `initOnce` has run.
  pub record Cleaner : Type 0 where
    pub cleaners : List cv.Callable
    pub cleaning : Bool
    pub started : Bool
    pub logger_shutdown : Option cv.Callable

  abbrev pub new_cleaner : Cleaner
  new_cleaner = record { cleaners = []; cleaning = false; started = false; logger_shutdown = none }

  unfoldable pub add : cv.Callable → Cleaner → Cleaner
  add callable c = if c.cleaning then c else record c { cleaners = c.cleaners ++ callable ∷ [] }

  -- `Init`: the goroutine that it starts calls `Clean` once, after a signal.
  unfoldable pub init : cv.Callable → Cleaner → Cleaner
  init shutdown c =
      if c.started then c else record c { started = true; logger_shutdown = some shutdown }

  -- The first part of `Clean`, under the lock: the callbacks to run.
  unfoldable pub begin_clean : Cleaner → List cv.Callable × Cleaner
  begin_clean c = (c.cleaners, record c { cleaning = true })

  -- The errors of the callbacks, in order.
  unfoldable pub invoke_all : List cv.Callable → cv.World → List Error × cv.World
  invoke_all [] w = ([], w)
  invoke_all (callable ∷ rest) w =
      let (failure, w1) = cv.invoke callable w in
      let (errs, w2) = invoke_all rest w1 in (elim failure [ none ↦ errs | some e ↦ e ∷ errs ], w2)

  -- The rest of `Clean`, until the program exits: the errors and the world then. Without a logger
  -- shutdown the call of a nil interface panics.
  abbrev pub shut_down :
      Option cv.Callable → List Error × cv.World → Result Error (List Error × cv.World)
  shut_down none (errs, w) = panic
  shut_down (some shutdown) (errs, w) = ok (errs, (cv.invoke shutdown w).1)

  unfoldable pub clean : Cleaner → cv.World → Result Error (List Error × cv.World)
  clean c w = let (copied, c') = begin_clean c in shut_down c'.logger_shutdown (invoke_all copied w)

  -- Calls of the cleaner from different goroutines, in the order in which they take the lock. A
  -- `cleans` is the first part of `Clean`.
  pub data CleanerEvent : Type 0 where
    adds : cv.Callable → CleanerEvent
    cleans : CleanerEvent

  -- What each `Clean` of the events took to run, and the cleaner then.
  unfoldable pub cleaner_run : List CleanerEvent → Cleaner → List (List cv.Callable) × Cleaner
  cleaner_run [] c = ([], c)
  cleaner_run (adds callable ∷ es) c = cleaner_run es (add callable c)
  cleaner_run (cleans ∷ es) c =
      let (copied, c1) = begin_clean c in
      let (later, c2) = cleaner_run es c1 in (copied ∷ later, c2)
