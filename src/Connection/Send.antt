-- ===== src/Connection/Send.antt =====
-- `Send` gives a connection all bytes, or fails.
use life_stream_go_mqtt_brok.Errors.{Error}
use life_stream_go_mqtt_brok.Prelude.Result.{Result, ok, err, panic, stuck}
use life_stream_go_mqtt_brok.Prelude.{
  ℕ, List, Option, sym, append-nil, ◌∷◌, ◌≡◌, length, ◌++◌, some, [], take, drop, ap, ◌∙◌, suc,
  take_all, arith, drop_all, none, refl, if◌then◌else◌, ◌==◌, true, Bool-cases, inl, inr,
}
use life_stream_go_mqtt_brok.Connection.{NetServices, NetLaws, send_loop, send}

module _ (nv : NetServices) (l : NetLaws nv) where
  open l use {written}

  -- What a run of `Send` did to the log of connection `c`.
  abbrev pub Wrote : ℕ → List ℕ → nv.Net → Result Error Unit × nv.Net → Type 0
  Wrote c xs net (ok u, net') = written net' c ≡ written net c ++ xs
  Wrote c xs net (err e, net') = (k : ℕ) × (written net' c ≡ written net c ++ take k xs)
  Wrote c xs net (panic, net') = ⊥
  Wrote c xs net (stuck, net') = ⊥

  step :
      (fuel c x : ℕ) (xs : List ℕ) (net : nv.Net) (w : (ℕ × Option Error) × nv.Net)
      → nv.write c (x ∷ xs) net ≡ w
      → Wrote c (x ∷ xs) net (elim w.0.1 [
        | some e ↦ (err e, w.1)
        | none ↦ send_loop nv fuel c (drop w.0.0 (x ∷ xs)) w.1
      ])
  unfolding send_loop
  step fuel c x xs net ((n, some e), net') eq = (
    n,
    ap (λ (w : (ℕ × Option Error) × nv.Net). written w.1 c) (sym eq)
        ∙ l.takes c (x ∷ xs) net
        ∙ ap (λ (w : (ℕ × Option Error) × nv.Net). written net c ++ take w.0.0 (x ∷ xs)) eq,
  )
  step fuel c x xs net ((n, none), net') eq =
      let whole : n ≡ suc (length xs) =
        ap (λ (w : (ℕ × Option Error) × nv.Net). w.0.0) (sym eq)
        ∙ l.takes_all c (x ∷ xs) net (ap (λ (w : (ℕ × Option Error) × nv.Net). w.0.1) eq) in
      let logged : written net' c ≡ written net c ++ (x ∷ xs) =
        ap (λ (w : (ℕ × Option Error) × nv.Net). written w.1 c) (sym eq)
        ∙ l.takes c (x ∷ xs) net
        ∙ ap (λ (w : (ℕ × Option Error) × nv.Net). written net c ++ take w.0.0 (x ∷ xs)) eq
        ∙ ap (λ (ys : List ℕ). written net c ++ ys) (take_all n (x ∷ xs) (omega arith)) in
      rw (drop_all n (x ∷ xs) (omega arith)) logged

  -- `Send` ends, under the contract of `Write`. Where it reports no error the connection was given
  -- exactly the bytes, in order and once; with an error it was given a prefix of them.
  pub send-Wrote : (c : ℕ) (xs : List ℕ) (net : nv.Net) → Wrote c xs net (send nv c xs net)
  unfolding send send_loop
  send-Wrote c [] net = sym (append-nil (written net c))
  send-Wrote c (x ∷ xs) net = step (length xs) c x xs net (nv.write c (x ∷ xs) net) refl

  sent_step :
      (fuel c x : ℕ) (xs : List ℕ) (w : (ℕ × Option Error) × nv.Net)
      → w.0.1 ≡ none
      → w.0.0 ≡ suc (length xs)
      → (ok tt, w.1) ≡ elim w.0.1 [
        | some e ↦ (err e, w.1)
        | none ↦ send_loop nv fuel c (drop w.0.0 (x ∷ xs)) w.1
      ]
  unfolding send_loop
  sent_step fuel c x xs ((n, some e), net') fine whole = absurd (cc fine)
  sent_step fuel c x xs ((n, none), net') fine whole = rw (drop_all n (x ∷ xs) (omega arith)) refl

  same_conn : (c d : ℕ) → (d == c) ≡ true → d ≡ c
  same_conn c d h = ground arith

  pub nothing_more : (d c : ℕ) (ys : List ℕ) → ys ≡ ys ++ (if d == c then [] else [])
  nothing_more d c ys = elim (Bool-cases (d == c)) [
    | inl same ↦ rw same (sym (append-nil ys))
    | inr other ↦ rw other (sym (append-nil ys))
  ]

  logged :
      (c d : ℕ) (xs : List ℕ) (net : nv.Net)
      → (nv.write c xs net).0.1 ≡ none
      → written (nv.write c xs net).1 d ≡ written net d ++ (if d == c then xs else [])
  logged c d xs net fine = elim (Bool-cases (d == c)) [
    | inl same ↦
        rw (same, same_conn c d same)
          (l.takes c xs net
            ∙ ap (λ (ys : List ℕ). written net c ++ ys)
                (take_all (nv.write c xs net).0.0 xs (omega (arith, l.takes_all c xs net fine))))
    | inr other ↦ rw other (l.others c d xs net other ∙ sym (append-nil (written net d)))
  ]

  -- On a network whose writes do not fail, one send logs the bytes of it for its connection and
  -- nothing for the others.
  pub send-reliable :
      ((c : ℕ) (xs : List ℕ) (net : nv.Net) → (nv.write c xs net).0.1 ≡ none)
      → (c : ℕ) (xs : List ℕ) (net : nv.Net)
      → (net' : nv.Net) × (send nv c xs net ≡ (ok tt, net'))
        × ((d : ℕ) → written net' d ≡ written net d ++ (if d == c then xs else []))
  unfolding send send_loop
  send-reliable reliable c [] net = (net, refl, λ d. nothing_more d c (written net d))
  send-reliable reliable c (x ∷ xs) net =
      let w = nv.write c (x ∷ xs) net in
      let fine = reliable c (x ∷ xs) net in
      (
        w.1,
        sym (sent_step (length xs) c x xs w fine (l.takes_all c (x ∷ xs) net fine)),
        λ d. logged c d (x ∷ xs) net fine,
      )
