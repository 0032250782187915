-- ===== src/Logger/Order.antt =====
-- The order of the lines in the channel, in the hands of the worker, and handed to its writer.
use life_stream_go_mqtt_brok.Prelude.Result.{Holds}
use life_stream_go_mqtt_brok.Logger.Queue.{
  receive, put, finish, close, LogQueue, log_step, LogEvent, Move, write, moves, received_from,
  receive, blocks, panics, channel_capacity, put_held, returned_on, log_run, WriteResult,
  failed_after, all_taken,
}
use life_stream_go_mqtt_brok.Prelude.{
  Option, List, ℕ, ◌≡◌, [], ◌++◌, ◌∷◌, true, false, some, none, length, ◌≤◌, ◌⊎◌, inl, ltb, sym,
  Bool-cases, inr, ◌<◌, append-nil, arith, append_assoc, refl, ap, ◌∙◌, length-append,
}

unfoldable pub held_lines : Option (List ℕ) → List (List ℕ)
held_lines none = []
held_lines (some line) = line ∷ []

-- All lines that the queue has seen, in order.
unfoldable pub in_order : LogQueue → List (List ℕ)
in_order q = q.output ++ (held_lines q.held ++ q.lines)

-- The lines that the events write.
unfoldable pub written_lines : List LogEvent → List (List ℕ)
written_lines [] = []
written_lines (write line ∷ es) = line ∷ written_lines es
written_lines (receive ∷ es) = written_lines es
written_lines (put on_stdout on_file ∷ es) = written_lines es
written_lines (finish ∷ es) = written_lines es
written_lines (close ∷ es) = written_lines es

-- A worker that has returned has left nothing, and the channel is not over its capacity.
abbrev pub Sound : LogQueue → Type 0
Sound q =
    ((q.finished ≡ false) ⊎ ((q.closed ≡ true) × (q.lines ≡ []) × (q.held ≡ none)))
    × (length q.lines ≤ channel_capacity)

-- What a step did, with the lines that it wrote.
abbrev pub Stepped : LogQueue → List (List ℕ) → Move → Type 0
Stepped q new (moves q') = (in_order q' ≡ in_order q ++ new) × Sound q'
Stepped q new blocks = Unit
Stepped q new panics = Unit

-- A worker that has not closed its channel has not returned.
still_runs : (q : LogQueue) → Sound q → q.closed ≡ false → q.finished ≡ false
still_runs q (inl runs, fits) open_ = runs
still_runs q (inr rest, fits) open_ = absurd (cc (rest.0, open_))

write-Stepped :
    (line : List ℕ) (q : LogQueue) → Sound q → Stepped q (line ∷ []) (log_step (write line) q)
unfolding log_step in_order
write-Stepped line q s = elim (Bool-cases q.closed) [
  | inl shut ↦ rw shut tt
  | inr open_ ↦ elim (Bool-cases (ltb (length q.lines) channel_capacity)) [
    | inr full ↦ rw (open_, full) tt
    | inl room ↦
        rw (open_, room)
          (
            ap (λ (xs : List (List ℕ)). q.output ++ xs)
                  (sym (append_assoc (held_lines q.held) q.lines (line ∷ [])))
                ∙ sym (append_assoc q.output (held_lines q.held ++ q.lines) (line ∷ [])),
            (
              inl (still_runs q s open_),
              omega (arith, length-append q.lines (line ∷ []), less room),
            ),
          )
  ]
]
  where
    less : ltb (length q.lines) channel_capacity ≡ true → length q.lines < channel_capacity
    less room = ground arith

received_from-Stepped :
    (lines : List (List ℕ)) (held : Option (List ℕ)) (q : LogQueue)
    → length lines ≤ channel_capacity
    → q.finished ≡ false
    → Stepped (record q { lines = lines; held = held }) [] (received_from lines held q)
unfolding in_order held_lines
received_from-Stepped [] held q fits runs = tt
received_from-Stepped (line ∷ rest) (some l) q fits runs = tt
received_from-Stepped (line ∷ rest) none q fits runs =
    (sym (append-nil (q.output ++ line ∷ rest)), (inl runs, omega (arith, fits)))

put_held-Stepped :
    (on_stdout on_file : WriteResult) (held : Option (List ℕ)) (w : Option ℕ) (q : LogQueue)
    → Sound q
    → q.held ≡ held
    → Stepped (record q { held = held }) [] (put_held on_stdout on_file held w q)
unfolding in_order held_lines
put_held-Stepped on_stdout on_file none w q s e = tt
put_held-Stepped on_stdout on_file (some line) none q s e = tt
put_held-Stepped on_stdout on_file (some line) (some f) q (inr rest, fits) e =
    absurd (cc (rest.2, e))
put_held-Stepped all_taken on_file (some line) (some f) q (inl runs, fits) e = (
  append_assoc q.output (line ∷ []) q.lines ∙ sym (append-nil (q.output ++ line ∷ q.lines)),
  (inl runs, fits),
)
put_held-Stepped (failed_after n) on_file (some line) (some f) q (inl runs, fits) e = (
  append_assoc q.output (line ∷ []) q.lines ∙ sym (append-nil (q.output ++ line ∷ q.lines)),
  (inl runs, fits),
)

returned_on-Stepped :
    (lines : List (List ℕ)) (held : Option (List ℕ)) (q : LogQueue)
    → length lines ≤ channel_capacity
    → Stepped
        (record q { lines = lines; held = held })
        []
        (returned_on lines held (record q { lines = lines; held = held }))
unfolding in_order held_lines
returned_on-Stepped (line ∷ rest) held q fits = tt
returned_on-Stepped [] (some l) q fits = tt
returned_on-Stepped [] none q fits = elim (Bool-cases q.closed) [
  | inl shut ↦ rw shut (sym (append-nil _), (inr (refl, refl, refl), omega arith))
  | inr open_ ↦ rw open_ tt
]

log_step-Stepped :
    (e : LogEvent) (q : LogQueue) → Sound q → Stepped q (written_lines (e ∷ [])) (log_step e q)
unfolding log_step in_order written_lines
log_step-Stepped (write line) q s = write-Stepped line q s
log_step-Stepped receive q s = elim (Bool-cases q.finished) [
  | inl done ↦ rw done tt
  | inr runs ↦
      rw runs (received_from-Stepped q.lines q.held (record q { finished = false }) s.1 refl)
]
log_step-Stepped (put on_stdout on_file) q s =
    put_held-Stepped on_stdout on_file q.held q.writer q s refl
log_step-Stepped finish q s = elim (Bool-cases q.finished) [
  | inl done ↦ rw done tt
  | inr runs ↦ rw runs (returned_on-Stepped q.lines q.held (record q { finished = false }) s.1)
]
log_step-Stepped close q s = elim (Bool-cases q.closed) [
  | inl shut ↦ rw shut tt
  | inr open_ ↦ rw open_ (sym (append-nil _), (inl (still_runs q s open_), s.1))
]

-- A run from `q` that writes `new`.
abbrev pub Ordered : LogQueue → List (List ℕ) → LogQueue → Type 0
Ordered q new q' = (in_order q' ≡ in_order q ++ new) × Sound q'

written_lines-cons :
    (e : LogEvent) (es : List LogEvent)
    → written_lines (e ∷ es) ≡ written_lines (e ∷ []) ++ written_lines es
unfolding written_lines
written_lines-cons (write line) es = refl
written_lines-cons receive es = refl
written_lines-cons (put on_stdout on_file) es = refl
written_lines-cons finish es = refl
written_lines-cons close es = refl

Ordered-trans :
    (q q1 q2 : LogQueue) (xs ys : List (List ℕ))
    → in_order q1 ≡ in_order q ++ xs
    → Ordered q1 ys q2
    → Ordered q (xs ++ ys) q2
Ordered-trans q q1 q2 xs ys first (second, s) =
    (second ∙ ap (λ (zs : List (List ℕ)). zs ++ ys) first ∙ append_assoc (in_order q) xs ys, s)

then_log :
    (m : Move) (q : LogQueue) (new : List (List ℕ)) (es : List LogEvent)
    → Stepped q new m
    → ((q1 : LogQueue) → Sound q1 → Holds (Ordered q1 (written_lines es)) (log_run es q1))
    → Holds
        (Ordered q (new ++ written_lines es))
        (elim m [ moves q1 ↦ log_run es q1 | blocks ↦ none | panics ↦ none ])
then_log (moves q1) q new es (first, s) k = extend (log_run es q1) (k q1 s)
  where
    extend :
        (o : Option LogQueue)
        → Holds (Ordered q1 (written_lines es)) o
        → Holds (Ordered q (new ++ written_lines es)) o
    extend none h = tt
    extend (some q2) h = Ordered-trans q q1 q2 new (written_lines es) first h
then_log blocks q new es h k = tt
then_log panics q new es h k = tt

-- Whatever the order in which the goroutines move, the lines that the worker has handed to its writer,
-- the one that it holds and those in the channel are together the lines that were written to it, in
-- order; and the channel holds at most 1024. A worker that has returned has left no line behind.
pub log_run-Ordered :
    (es : List LogEvent) (q : LogQueue)
    → Sound q
    → Holds (Ordered q (written_lines es)) (log_run es q)
unfolding log_run written_lines
log_run-Ordered [] q s = (sym (append-nil (in_order q)), s)
log_run-Ordered (e ∷ es) q s = rw (written_lines-cons e es) (
    then_log (log_step e q) q (written_lines (e ∷ [])) es (log_step-Stepped e q s)
      (log_run-Ordered es))
