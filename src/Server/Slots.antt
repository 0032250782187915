-- ===== src/Server/Slots.antt =====
-- The tokens in `sem` count the goroutines, and a connection that waits for one gets it.
use native.Mathlib.Decide.{dec_le}
use mathlib.Core.Path.{subst}
use life_stream_go_mqtt_brok.Prelude.Result.{Holds}
use life_stream_go_mqtt_brok.Prelude.{
  Option, ◌≡◌, ℕ, length, List, ◌+◌, some, ◌≤◌, ◌∷◌, Bool-cases, ◌==◌, ltb, inl, inr, [], none,
  arith, ◌&&◌, ◌<◌, lt→ltb, ap, ◌-◌, sym, refl, ==_refl, ◌⊎◌,
}
use life_stream_go_mqtt_brok.Server.Accept.{
  start, release, AcceptLoop, handler_gone, started, capacity, server_step, ServerEvent, server_run,
  accepted_one, accept, accepted_none, return_of, accept_failed,
}

-- The tokens are those of the goroutines that have not ended, and no more than fit.
abbrev pub Bounded : AcceptLoop → Type 0
Bounded s = (s.slots ≡ length s.handling + s.returned) × (s.slots ≤ capacity)

abbrev OneFewer : List ℕ → List ℕ → Type 0
OneFewer ds es = length es + 1 ≡ length ds

longer :
    (d : ℕ) (ds : List ℕ) (o : Option (List ℕ))
    → Holds (OneFewer ds) o
    → Holds (OneFewer (d ∷ ds)) (elim o [ none ↦ none | some es ↦ some (d ∷ es) ])
longer d ds none h = tt
longer d ds (some es) h = omega (arith, h)

length-handler_gone : (c : ℕ) (ds : List ℕ) → Holds (OneFewer ds) (handler_gone c ds)
unfolding handler_gone
length-handler_gone c [] = tt
length-handler_gone c (d ∷ ds) = elim (Bool-cases (d == c)) [
  | inl here ↦ rw here (omega arith)
  | inr there ↦ rw there (longer d ds (handler_gone c ds) (length-handler_gone c ds))
]

started-Bounded : (w : Option ℕ) (s : AcceptLoop) → Bounded s → Holds Bounded (started w s)
started-Bounded none s b = tt
started-Bounded (some c) s b = elim (Bool-cases (ltb s.slots capacity)) [
  | inl free ↦ rw free (omega (arith, b.0), ground (arith, free))
  | inr full ↦ rw full tt
]

accepted-Bounded :
    (c : ℕ) (w : Option ℕ) (s : AcceptLoop)
    → Bounded s
    → Holds Bounded (accepted_one c w s) × Holds Bounded (accepted_none w s)
accepted-Bounded c (some d) s b = (tt, tt)
accepted-Bounded c none s b = (b, b)

returned-Bounded :
    (s : AcceptLoop) (o : Option (List ℕ))
    → Bounded s
    → Holds (OneFewer s.handling) o
    → Holds Bounded (elim o [
      | none ↦ none
      | some rest ↦ some (record s { handling = rest; returned = s.returned + 1 })
    ])
returned-Bounded s none b h = tt
returned-Bounded s (some rest) b h = (omega (arith, b.0, h), b.1)

server_step-Bounded :
    (e : ServerEvent) (s : AcceptLoop) → Bounded s → Holds Bounded (server_step e s)
unfolding server_step
server_step-Bounded (accept c) s b = (accepted-Bounded c s.waiting s b).0
server_step-Bounded accept_failed s b = (accepted-Bounded 0 s.waiting s b).1
server_step-Bounded start s b = started-Bounded s.waiting s b
server_step-Bounded (return_of c) s b =
    returned-Bounded s (handler_gone c s.handling) b (length-handler_gone c s.handling)
server_step-Bounded release s b = elim (Bool-cases (ltb 0 s.returned && ltb 0 s.slots)) [
  | inl both ↦ rw both (ground (arith, b.0, both), omega (arith, b.1))
  | inr blocked ↦ rw blocked tt
]

then_run :
    (o : Option AcceptLoop) (es : List ServerEvent)
    → Holds Bounded o
    → ((s : AcceptLoop) → Bounded s → Holds Bounded (server_run es s))
    → Holds Bounded (elim o [ none ↦ none | some s ↦ server_run es s ])
then_run none es b k = tt
then_run (some s) es b k = k s b

-- Whatever the order of the events, from a state in which it is so the tokens in `sem` are as many
-- as the goroutines that have not ended, and at most 10000: no more than 10000 connections are ever
-- handled at once.
pub server_run-Bounded :
    (es : List ServerEvent) (s : AcceptLoop) → Bounded s → Holds Bounded (server_run es s)
unfolding server_run
server_run-Bounded [] s b = b
server_run-Bounded (e ∷ es) s b =
    then_run (server_step e s) es (server_step-Bounded e s b) λ s1 b1. server_run-Bounded es s1 b1

-- Connection `c` is handled after the events, and no connection waits.
abbrev pub Starts : ℕ → Option AcceptLoop → Type 0
Starts c none = ⊥
Starts c (some s) = (s.waiting ≡ none) × (rest : List ℕ) × (s.handling ≡ c ∷ rest)

step_start :
    (c : ℕ) (s : AcceptLoop) (w : Option ℕ)
    → w ≡ some c
    → s.slots < capacity
    → started w s
      ≡ some (record s { waiting = none; slots = s.slots + 1; handling = c ∷ s.handling })
step_start c s (some d) e room = rw (lt→ltb s.slots capacity room) (
    ap
      (λ (o : Option ℕ). elim o [
        | none ↦ none
        | some k ↦
            some (record s { waiting = none; slots = s.slots + 1; handling = k ∷ s.handling })
      ])
      e)
step_start c s none e room = absurd (cc e)

run_first :
    (c : ℕ) (e : ServerEvent) (es : List ServerEvent) (s s1 : AcceptLoop)
    → server_step e s ≡ some s1
    → Starts c (server_run es s1)
    → Starts c (server_run (e ∷ es) s)
unfolding server_run
run_first c e es s s1 eq h =
    subst (λ o. Starts c (elim o [ none ↦ none | some s' ↦ server_run es s' ])) (sym eq) h

run_start :
    (c : ℕ) (s : AcceptLoop)
    → s.waiting ≡ some c
    → s.slots < capacity
    → Starts c (server_run (start ∷ []) s)
unfolding server_run server_step
run_start c s w room =
    run_first c start [] s _ (step_start c s s.waiting w room) (refl, s.handling, refl)

run_release :
    (c : ℕ) (s : AcceptLoop)
    → s.waiting ≡ some c
    → 0 < s.returned
    → 0 < s.slots
    → s.slots ≤ capacity
    → Starts c (server_run (release ∷ start ∷ []) s)
unfolding server_step
run_release c s w back some_tokens fits =
    let s1 = record s { slots = s.slots - 1; returned = s.returned - 1 } in
    run_first c release (start ∷ []) s s1
      (rw (lt→ltb 0 s.returned back, lt→ltb 0 s.slots some_tokens) refl)
      (run_start c s1 w (omega arith))

run_return :
    (c d : ℕ) (s : AcceptLoop) (rest : List ℕ)
    → s.waiting ≡ some c
    → handler_gone d s.handling ≡ some rest
    → 0 < s.slots
    → s.slots ≤ capacity
    → Starts c (server_run (return_of d ∷ release ∷ start ∷ []) s)
unfolding server_step
run_return c d s rest w gone some_tokens fits =
    let s1 = record s { handling = rest; returned = s.returned + 1 } in
    run_first c (return_of d) (release ∷ start ∷ []) s s1
      (ap
        (λ (o : Option (List ℕ)). elim o [
          | none ↦ none
          | some es ↦ some (record s { handling = es; returned = s.returned + 1 })
        ])
        gone)
      (run_release c s1 w (omega arith) some_tokens fits)

-- The first of the running handlers can return.
first_returns : (d : ℕ) (ds : List ℕ) → handler_gone d (d ∷ ds) ≡ some ds
unfolding handler_gone
first_returns d ds = rw (==_refl d) refl

some_handler :
    (ds : List ℕ) → 0 < length ds → (d : ℕ) × (rest : List ℕ) × (handler_gone d ds ≡ some rest)
some_handler [] h = absurd (omega arith)
some_handler (d ∷ ds) h = (d, ds, first_returns d ds)

-- How connection `c`, which waits, is started: at once where there is room; after a token comes back
-- where a goroutine has returned and not given its token back; and after some handler returns where
-- all tokens belong to running ones. In the last two cases the loop is blocked before that.
abbrev pub AtOnce : ℕ → AcceptLoop → Type 0
AtOnce c s = (s.slots < capacity) × Starts c (server_run (start ∷ []) s)

abbrev pub AfterRelease : ℕ → AcceptLoop → Type 0
AfterRelease c s =
    (s.slots ≡ capacity)
    × (0 < s.returned)
    × (server_step start s ≡ none)
    × Starts c (server_run (release ∷ start ∷ []) s)

abbrev pub AfterReturn : ℕ → AcceptLoop → Type 0
AfterReturn c s =
    (s.slots ≡ capacity)
    × (s.returned ≡ 0)
    × (server_step start s ≡ none)
    × (d : ℕ) × Starts c (server_run (return_of d ∷ release ∷ start ∷ []) s)

full_blocks : (s : AcceptLoop) → s.slots ≡ capacity → server_step start s ≡ none
unfolding server_step
full_blocks s full = by_waiting s.waiting
  where
    by_waiting : (w : Option ℕ) → started w s ≡ none
    by_waiting none = refl
    by_waiting (some c) = rw full refl

-- From a state whose tokens are those of the goroutines that have not ended, and at most 10000, a
-- connection that waits can be started, by events of which none is a new connection: at once while
-- there are fewer tokens; otherwise the loop is blocked, and the events are the return of a token
-- and the start where a handler has returned and not given its token back, and the return of some
-- running handler, of its token, and the start where none has.
pub waiting-Starts :
    (c : ℕ) (s : AcceptLoop)
    → Bounded s
    → s.waiting ≡ some c
    → AtOnce c s ⊎ (AfterRelease c s ⊎ AfterReturn c s)
waiting-Starts c s b w = elim (dec_le capacity s.slots) [
  | no room ↦ inl (omega (arith, room), run_start c s w (omega arith))
  | yes full ↦
      let at_capacity : s.slots ≡ capacity = omega (arith, full, b.1) in
      elim (dec_le s.returned 0) [
        | no back ↦ inr (
            inl (
              at_capacity,
              omega (arith, back),
              full_blocks s at_capacity,
              run_release c s w (omega arith) (omega arith) b.1,
            ))
        | yes none_back ↦
            let (d, rest, gone) = some_handler s.handling (omega (arith, b.0)) in
            inr (
              inr (
                at_capacity,
                omega (arith, none_back),
                full_blocks s at_capacity,
                d,
                run_return c d s rest w gone (omega arith) b.1,
              ))
      ]
]
