-- ===== src/Logger/Closing.antt =====
-- What is left to the worker once `Close` has begun, and what stdout and the file have then.
use mathlib.Core.Path.{subst}
use life_stream_go_mqtt_brok.Prelude.Result.{Holds}
use life_stream_go_mqtt_brok.Logger.{AsyncHandler}
use life_stream_go_mqtt_brok.Logger.Order.{
  in_order, held_lines, written_lines, Sound, Ordered, log_run-Ordered,
}
use life_stream_go_mqtt_brok.Logger.Queue.{
  LogQueue, LogEvent, Move, all_taken, failed_after, write, receive, put, finish, close, moves,
  blocks, panics, log_step, log_run, close_returns, new_queue, received_from, put_held, returned_on,
  channel_capacity, multi_write,
}
use life_stream_go_mqtt_brok.Prelude.{
  Option, List, ℕ, ◌≡◌, [], ◌++◌, ◌∷◌, true, false, some, none, length, ◌⊎◌, inl, inr, ltb,
  Bool-cases, arith, append_assoc, append-nil, refl, ap, ◌∙◌, sym,
}

-- The text of the lines.
unfoldable pub joined : List (List ℕ) → List ℕ
joined [] = []
joined (line ∷ lines) = line ++ joined lines

joined-append : (xs ys : List (List ℕ)) → joined (xs ++ ys) ≡ joined xs ++ joined ys
unfolding joined
joined-append [] ys = refl
joined-append (x ∷ xs) ys =
    ap (λ (l : List ℕ). x ++ l) (joined-append xs ys) ∙ sym (append_assoc x (joined xs) (joined ys))

-- No write to stdout or to the file fails.
unfoldable pub NoneFails : List LogEvent → Type 0
NoneFails [] = Unit
NoneFails (put all_taken all_taken ∷ es) = NoneFails es
NoneFails (put all_taken (failed_after n) ∷ es) = ⊥
NoneFails (put (failed_after n) on_file ∷ es) = ⊥
NoneFails (write line ∷ es) = NoneFails es
NoneFails (receive ∷ es) = NoneFails es
NoneFails (finish ∷ es) = NoneFails es
NoneFails (close ∷ es) = NoneFails es

-- Stdout and the file have the text of the lines.
abbrev pub HasText : List (List ℕ) → LogQueue → Type 0
HasText lines q = (q.stdout ≡ joined lines) × (q.file ≡ joined lines)

-- They have what the worker handed to its writer, which is still the one `w`.
abbrev Intact : Option ℕ → LogQueue → Type 0
Intact w q = HasText q.output q × (q.writer ≡ w)

abbrev StepsTo : (LogQueue → Type 0) → Move → Type 0
StepsTo P (moves q) = P q
StepsTo P blocks = Unit
StepsTo P panics = Unit

received_from-Intact :
    (w : Option ℕ) (lines : List (List ℕ)) (held : Option (List ℕ)) (q : LogQueue)
    → Intact w q
    → StepsTo (Intact w) (received_from lines held q)
received_from-Intact w [] held q k = tt
received_from-Intact w (line ∷ rest) none q k = k
received_from-Intact w (line ∷ rest) (some l) q k = tt

one_more :
    (bytes line : List ℕ) (lines : List (List ℕ))
    → bytes ≡ joined lines
    → bytes ++ line ≡ joined (lines ++ line ∷ [])
unfolding joined
one_more bytes line lines e =
    ap (λ (b : List ℕ). b ++ line) e
    ∙ ap (λ (b : List ℕ). joined lines ++ b) (sym (append-nil line))
    ∙ sym (joined-append lines (line ∷ []))

put_held-Intact :
    (w : Option ℕ) (held : Option (List ℕ)) (v : Option ℕ) (q : LogQueue)
    → Intact w q
    → StepsTo (Intact w) (put_held all_taken all_taken held v q)
put_held-Intact w none v q k = tt
put_held-Intact w (some line) none q k = tt
put_held-Intact w (some line) (some f) q ((out, file), same) =
    ((one_more q.stdout line q.output out, one_more q.file line q.output file), same)

returned_on-Intact :
    (w : Option ℕ) (lines : List (List ℕ)) (held : Option (List ℕ)) (q : LogQueue)
    → Intact w q
    → StepsTo (Intact w) (returned_on lines held q)
returned_on-Intact w (line ∷ rest) held q k = tt
returned_on-Intact w [] (some l) q k = tt
returned_on-Intact w [] none q k = elim (Bool-cases q.closed) [
  | inl shut ↦ rw shut k
  | inr open_ ↦ rw open_ tt
]

log_step-Intact :
    (w : Option ℕ) (e : LogEvent) (q : LogQueue)
    → NoneFails (e ∷ [])
    → Intact w q
    → StepsTo (Intact w) (log_step e q)
unfolding log_step NoneFails
log_step-Intact w (write line) q fine k = elim (Bool-cases q.closed) [
  | inl shut ↦ rw shut tt
  | inr open_ ↦ elim (Bool-cases (ltb (length q.lines) channel_capacity)) [
    | inl room ↦ rw (open_, room) k
    | inr full ↦ rw (open_, full) tt
  ]
]
log_step-Intact w receive q fine k = elim (Bool-cases q.finished) [
  | inl done ↦ rw done tt
  | inr runs ↦ rw runs (received_from-Intact w q.lines q.held (record q { finished = false }) k)
]
log_step-Intact w (put all_taken all_taken) q fine k = put_held-Intact w q.held q.writer q k
log_step-Intact w (put all_taken (failed_after n)) q fine k = absurd fine
log_step-Intact w (put (failed_after n) on_file) q fine k = absurd fine
log_step-Intact w finish q fine k = elim (Bool-cases q.finished) [
  | inl done ↦ rw done tt
  | inr runs ↦ rw runs (returned_on-Intact w q.lines q.held (record q { finished = false }) k)
]
log_step-Intact w close q fine k = elim (Bool-cases q.closed) [
  | inl shut ↦ rw shut tt
  | inr open_ ↦ rw open_ k
]

NoneFails-cons :
    (e : LogEvent) (es : List LogEvent) → NoneFails (e ∷ es) → NoneFails (e ∷ []) × NoneFails es
unfolding NoneFails
NoneFails-cons (write line) es h = (tt, h)
NoneFails-cons receive es h = (tt, h)
NoneFails-cons (put all_taken all_taken) es h = (tt, h)
NoneFails-cons (put all_taken (failed_after n)) es h = absurd h
NoneFails-cons (put (failed_after n) on_file) es h = absurd h
NoneFails-cons finish es h = (tt, h)
NoneFails-cons close es h = (tt, h)

then_run :
    (w : Option ℕ) (es : List LogEvent) (m : Move)
    → StepsTo (Intact w) m
    → ((q : LogQueue) → Intact w q → Holds (Intact w) (log_run es q))
    → Holds (Intact w) (elim m [ moves q1 ↦ log_run es q1 | blocks ↦ none | panics ↦ none ])
then_run w es (moves q) k go = go q k
then_run w es blocks k go = tt
then_run w es panics k go = tt

log_run-Intact :
    (w : Option ℕ) (es : List LogEvent) (q : LogQueue)
    → NoneFails es
    → Intact w q
    → Holds (Intact w) (log_run es q)
unfolding log_run
log_run-Intact w [] q fine k = k
log_run-Intact w (e ∷ es) q fine k =
    let (one, rest) = NoneFails-cons e es fine in
    then_run w es (log_step e q) (log_step-Intact w e q one k)
      λ q1 k1. log_run-Intact w es q1 rest k1

-- The moves that are left to the worker, with writes that do not fail.
unfoldable pub rounds : List (List ℕ) → List LogEvent
rounds [] = finish ∷ []
rounds (line ∷ lines) = receive ∷ put all_taken all_taken ∷ rounds lines

unfoldable pub moves_left : Option (List ℕ) → List (List ℕ) → List LogEvent
moves_left none lines = rounds lines
moves_left (some line) lines = put all_taken all_taken ∷ rounds lines

-- A run ends where `Close` returns, and the lines are then with stdout and the file.
abbrev pub Closes : List (List ℕ) → Option LogQueue → Type 0
Closes lines none = ⊥
Closes lines (some q) = (close_returns q ≡ true) × HasText lines q

-- The queue that a worker leaves which has got `f` and goes on with `lines`, one of them perhaps in
-- its hands.
abbrev going : ℕ → Option (List ℕ) → List (List ℕ) → LogQueue → LogQueue
going f held lines q = record q {
  lines = lines;
  closed = true;
  held = held;
  writer = some f;
  finished = false;
}

-- The worker has handed on a line that was taken.
abbrev passed_on : List ℕ → LogQueue → LogQueue
passed_on line q =
    multi_write all_taken all_taken line (record q { output = q.output ++ line ∷ [] })

rounds-Closes :
    (f : ℕ) (lines : List (List ℕ)) (q : LogQueue)
    → HasText q.output q
    → Closes (q.output ++ lines) (log_run (rounds lines) (going f none lines q))
unfolding rounds log_run log_step close_returns
rounds-Closes f [] q (out, file) = rw (append-nil q.output) (refl, (out, file))
rounds-Closes f (line ∷ lines) q (out, file) = rw⁻¹ (append_assoc q.output (line ∷ []) lines) (
    rounds-Closes f lines (passed_on line q)
      (one_more q.stdout line q.output out, one_more q.file line q.output file))

moves_left-Closes :
    (f : ℕ) (held : Option (List ℕ)) (lines : List (List ℕ)) (q : LogQueue)
    → HasText q.output q
    → Closes
        (q.output ++ (held_lines held ++ lines))
        (log_run (moves_left held lines) (going f held lines q))
unfolding moves_left held_lines log_run log_step
moves_left-Closes f none lines q text = rounds-Closes f lines q text
moves_left-Closes f (some line) lines q (out, file) =
    rw⁻¹ (append_assoc q.output (line ∷ []) lines) (
      rounds-Closes f lines (passed_on line q)
        (one_more q.stdout line q.output out, one_more q.file line q.output file))

-- The worker has returned, and all lines are with stdout and the file; or it has not, and the moves
-- that are left to it lead there.
abbrev pub Empties : List (List ℕ) → LogQueue → Type 0
Empties lines q =
    ((close_returns q ≡ true) × HasText lines q)
    ⊎ ((q.finished ≡ false) × Closes lines (log_run (moves_left q.held q.lines) q))

as_going :
    (f : ℕ) (q : LogQueue)
    → q.closed ≡ true
    → q.writer ≡ some f
    → q.finished ≡ false
    → q ≡ going f q.held q.lines q
as_going f q shut same runs = λ i. record q { closed = shut i; writer = same i; finished = runs i }

all_out :
    (q : LogQueue) (lines : List (List ℕ))
    → in_order q ≡ lines
    → q.lines ≡ []
    → q.held ≡ none
    → q.output ≡ lines
unfolding in_order held_lines
all_out q lines order nothing no_line =
    sym (append-nil q.output)
    ∙ ap (λ (h : Option (List ℕ)). q.output ++ (held_lines h ++ [])) (sym no_line)
    ∙ ap (λ (ls : List (List ℕ)). q.output ++ (held_lines q.held ++ ls)) (sym nothing)
    ∙ order

returned-HasText :
    (lines : List (List ℕ)) (q : LogQueue)
    → q.finished ≡ true
    → HasText q.output q
    → in_order q ≡ lines
    → Sound q
    → HasText lines q
returned-HasText lines q done text order (inl runs, fits) = absurd (cc (done, runs))
returned-HasText lines q done (out, file) order (inr rest, fits) =
    let whole = ap joined (all_out q lines order rest.1 rest.2) in (out ∙ whole, file ∙ whole)

closed-Empties :
    (f : ℕ) (lines : List (List ℕ)) (q : LogQueue)
    → q.closed ≡ true
    → Intact (some f) q
    → in_order q ≡ lines
    → Sound q
    → Empties lines q
unfolding in_order close_returns
closed-Empties f lines q shut (text, same) order s = elim (Bool-cases q.finished) [
  | inl done ↦ inl (rw (shut, done) refl, returned-HasText lines q done text order s)
  | inr runs ↦
      let closes =
        subst
          (λ (ls : List (List ℕ)).
            Closes ls (log_run (moves_left q.held q.lines) (going f q.held q.lines q)))
          order (moves_left-Closes f q.held q.lines q text) in
      inr (
        runs,
        subst (λ (q' : LogQueue). Closes lines (log_run (moves_left q.held q.lines) q'))
            (sym (as_going f q shut same runs)) closes,
      )
]

-- A new handler has got its log file, no write to stdout or to the file fails, and `Close` has begun.
-- Then, whatever the order in which the goroutines have moved, either the worker has returned, so
-- that `Close` returns, or the moves that are left to the worker alone make it return; and then
-- stdout has got every line that was written to the handler, once and in order, and so has the file.
pub log_run-Empties :
    (h : AsyncHandler) (f : ℕ) (es : List LogEvent) (q : LogQueue)
    → h.writer ≡ some f
    → NoneFails es
    → log_run es (new_queue h) ≡ some q
    → q.closed ≡ true
    → Empties (written_lines es) q
unfolding in_order held_lines joined
log_run-Empties h f es q writer fine run shut =
    let intact =
      subst (λ o. Holds (Intact h.writer) o) run
        (log_run-Intact h.writer es (new_queue h) fine ((refl, refl), refl)) in
    let (order, s) =
      subst (λ o. Holds (Ordered (new_queue h) (written_lines es)) o) run
        (log_run-Ordered es (new_queue h) (inl refl, omega arith)) in
    closed-Empties f (written_lines es) q shut (intact.0, intact.1 ∙ writer) order s
