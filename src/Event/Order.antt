-- ===== src/Event/Order.antt =====
-- Which callbacks `Clean` runs, and in which order.
use mathlib.Core.Path.{subst}
use life_stream_go_mqtt_brok.Errors.{Error}
use life_stream_go_mqtt_brok.Prelude.Result.{Result, ok, err, panic, stuck}
use life_stream_go_mqtt_brok.Prelude.{
  none, some, List, All, ◌≡◌, ◌∷◌, ◌++◌, [], true, false, sym, length, append_assoc, append-nil,
  ◌≤◌, ◌∙◌, ◌+◌, arith, ap, Option, if_true, if_false, ℕ, some, length-append, refl,
}
use life_stream_go_mqtt_brok.Event.{
  cleans, Callables, cleaner_run, CleanerEvent, add, begin_clean, adds, Cleaner, invoke_all, clean,
  shut_down,
}

module _ (cv : Callables) where
  -- The callbacks that the events add before a `Clean`.
  unfoldable pub added_before : List (CleanerEvent cv) → List cv.Callable
  added_before [] = []
  added_before (adds callable ∷ es) = callable ∷ added_before es
  added_before (cleans ∷ es) = []

  abbrev pub AllAre : List cv.Callable → List (List cv.Callable) → Type 0
  AllAre xs copies = All (λ copied. copied ≡ xs) copies

  cleaning-AllAre :
      (es : List (CleanerEvent cv)) (c : Cleaner cv)
      → c.cleaning ≡ true
      → AllAre c.cleaners (cleaner_run cv es c).0
  unfolding cleaner_run add begin_clean
  cleaning-AllAre [] c on = tt
  cleaning-AllAre (adds callable ∷ es) c on =
      subst (λ c1. AllAre c.cleaners (cleaner_run cv es c1).0)
        (sym (if_true (record c { cleaners = c.cleaners ++ callable ∷ [] }) on))
        (cleaning-AllAre es c on)
  cleaning-AllAre (cleans ∷ es) c on =
      (refl, cleaning-AllAre es (record c { cleaning = true }) refl)

  -- Every `Clean` of a run takes the callbacks registered before the first one, in the order in
  -- which they were added; what is added after the first `Clean` is ignored.
  pub cleaner_run-AllAre :
      (es : List (CleanerEvent cv)) (c : Cleaner cv)
      → c.cleaning ≡ false
      → AllAre (c.cleaners ++ added_before es) (cleaner_run cv es c).0
  unfolding cleaner_run add begin_clean added_before
  cleaner_run-AllAre [] c off = tt
  cleaner_run-AllAre (adds callable ∷ es) c off =
      let c1 = record c { cleaners = c.cleaners ++ callable ∷ [] } in
      subst (λ c2. AllAre (c.cleaners ++ callable ∷ added_before es) (cleaner_run cv es c2).0)
        (sym (if_false c off))
        (subst (λ xs. AllAre xs (cleaner_run cv es c1).0)
          (append_assoc c.cleaners (callable ∷ []) (added_before es))
          (cleaner_run-AllAre es c1 off))
  cleaner_run-AllAre (cleans ∷ es) c off = (
    sym (append-nil c.cleaners),
    subst (λ xs. AllAre xs (cleaner_run cv es (record c { cleaning = true })).0)
        (sym (append-nil c.cleaners)) (cleaning-AllAre es (record c { cleaning = true }) refl),
  )

module _ (cv : Callables) (journal : cv.World → List cv.Callable)
    (records : (callable : cv.Callable) (w : cv.World)
      → journal (cv.invoke callable w).1 ≡ journal w ++ callable ∷ []) where
  invoke_all-journal :
      (cs : List cv.Callable) (w : cv.World) → journal (invoke_all cv cs w).1 ≡ journal w ++ cs
  unfolding invoke_all
  invoke_all-journal [] w = sym (append-nil (journal w))
  invoke_all-journal (callable ∷ cs) w =
      invoke_all-journal cs (cv.invoke callable w).1
      ∙ ap (λ (xs : List cv.Callable). xs ++ cs) (records callable w)
      ∙ append_assoc (journal w) (callable ∷ []) cs

  -- What `Clean` did: it invoked these, in order.
  abbrev pub Invoked : cv.World → List cv.Callable → Result Error (List Error × cv.World) → Type 0
  Invoked w cs (ok (errs, w')) = (journal w' ≡ journal w ++ cs) × (length errs + 1 ≤ length cs)
  Invoked w cs (err e) = ⊥
  Invoked w cs panic = ⊥
  Invoked w cs stuck = ⊥

  one_error :
      (failure : Option Error) (n : ℕ) (errs : List Error)
      → length errs ≤ n
      → length (elim failure [ none ↦ errs | some e ↦ e ∷ errs ]) ≤ n + 1
  one_error none n errs h = omega (arith, h)
  one_error (some e) n errs h = omega (arith, h)

  few_errors : (cs : List cv.Callable) (w : cv.World) → length (invoke_all cv cs w).0 ≤ length cs
  unfolding invoke_all
  few_errors [] w = omega arith
  few_errors (callable ∷ cs) w =
      let (failure, w1) = cv.invoke callable w in
      omega (arith, one_error failure (length cs) (invoke_all cv cs w1).0 (few_errors cs w1))

  -- `Clean` runs every callback that is registered, once and in the order of registration, whatever
  -- errors they return, and the shutdown of the logger after all of them; it reports at most one
  -- error for each.
  pub clean-Invoked :
      (c : Cleaner cv) (w : cv.World) (shutdown : cv.Callable)
      → c.logger_shutdown ≡ some shutdown
      → Invoked w (c.cleaners ++ shutdown ∷ []) (clean cv c w)
  unfolding clean begin_clean
  clean-Invoked c w shutdown set =
      subst
        (λ o. Invoked w (c.cleaners ++ shutdown ∷ []) (shut_down cv o (invoke_all cv c.cleaners w)))
        (sym set)
        (
          records shutdown (invoke_all cv c.cleaners w).1
              ∙ ap (λ (xs : List cv.Callable). xs ++ shutdown ∷ [])
                  (invoke_all-journal c.cleaners w)
              ∙ append_assoc (journal w) c.cleaners (shutdown ∷ []),
          omega (arith, few_errors c.cleaners w, length-append c.cleaners (shutdown ∷ [])),
        )
