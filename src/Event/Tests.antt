-- ===== src/Event/Tests.antt =====
-- A cleaner whose callbacks are numbers and whose world is the list of those that ran; an odd one
-- fails.
use life_stream_go_mqtt_brok.Prelude.{
  ℕ, ◌∷◌, ◌++◌, [], List, false, if◌then◌else◌, true, ◌%◌, some, ◌==◌, none, refl,
}
use life_stream_go_mqtt_brok.Event.Order.{Invoked, clean-Invoked}
use life_stream_go_mqtt_brok.Event.{Callables, Cleaner, clean}
use life_stream_go_mqtt_brok.Errors.{timeout}

abbrev numbers : Callables
numbers = record {
  Callable = ℕ;
  World = List ℕ;
  invoke = λ n w. (if n % 2 == 0 then none else some timeout, w ++ n ∷ []);
}

abbrev two_callbacks : Cleaner numbers
two_callbacks = record {
  cleaners = 1 ∷ 2 ∷ [];
  cleaning = false;
  started = true;
  logger_shutdown = some 9;
}

clean-Invoked_example :
    Invoked numbers (λ w. w) (λ n w. refl) [] (1 ∷ 2 ∷ 9 ∷ []) (clean numbers two_callbacks [])
clean-Invoked_example = clean-Invoked numbers (λ w. w) (λ n w. refl) two_callbacks [] 9 refl
