-- ===== src/Database/Wills/Kept.antt =====
-- What `GetWillMessage` returns after the other two calls.
use life_stream_go_mqtt_brok.Database.Types.{WillMessage}
use life_stream_go_mqtt_brok.Prelude.{
  List, ℕ, Option, ◌≡◌, bytes_eq, ◌⊎◌, [], true, false, some, inl, none, sym, ap, inr, if_false,
  ◌∙◌, refl, Bool-cases, if_true, bytes_eq_refl,
}
use life_stream_go_mqtt_brok.Database.Wills.{
  WillServices, WillLaws, get_will_message, save_will_message, delete_will_message, FoundWill,
  will_of, will_failed, found_will, no_will,
}

module _ (ws : WillServices) (l : WillLaws ws) where
  open l use {kept}

  -- A read for `id` answers with `o`, or the collection failed.
  abbrev pub Answers : List ℕ → Option WillMessage → ws.Wills → Type 0
  Answers id o d = ((get_will_message ws id d).0 ≡ o) ⊎ ((ws.find_will id d).0 ≡ will_failed)

  answer_of :
      (id : List ℕ) (d : ws.Wills) (r : FoundWill × ws.Wills)
      → ws.find_will id d ≡ r
      → ((will_of ws r).0 ≡ kept d id) ⊎ (r.0 ≡ will_failed)
  answer_of id d (found_will x, d') e =
      inl (sym (l.found_kept id d x (ap (λ (r : FoundWill × ws.Wills). r.0) e)))
  answer_of id d (no_will, d') e =
      inl (sym (l.missing_kept id d (ap (λ (r : FoundWill × ws.Wills). r.0) e)))
  answer_of id d (will_failed, d') e = inr refl

  kept-Answers :
      (id : List ℕ) (o : Option WillMessage) (d : ws.Wills)
      → bytes_eq id [] ≡ false
      → kept d id ≡ o
      → Answers id o d
  unfolding get_will_message
  kept-Answers id o d named e = elim (answer_of id d (ws.find_will id d) refl) [
    | inl read ↦
        inl (ap (λ (r : Option WillMessage × ws.Wills). r.0) (if_false _ named) ∙ (read ∙ e))
    | inr failed ↦ inr failed
  ]

  -- A will message that `SaveWillMessage` stored is what `GetWillMessage` returns for its client,
  -- unless the query fails.
  pub save_will_message-Answers :
      (x : WillMessage) (d : ws.Wills)
      → (save_will_message ws x d).0 ≡ true
      → Answers x.client_id (some x) (save_will_message ws x d).1
  unfolding save_will_message
  save_will_message-Answers x d = elim (Bool-cases (bytes_eq x.client_id [])) [
    | inl empty ↦ rw empty (λ done. absurd (cc done))
    | inr named ↦ rw named (λ done.
        kept-Answers x.client_id (some x) (ws.replace_will x.client_id x d).1 named (
          l.replaced_kept x.client_id x.client_id x d done ∙ if_true _ (bytes_eq_refl x.client_id)))
  ]

  -- After `DeleteWillMessage` has succeeded `GetWillMessage` returns none for the client, unless the
  -- query fails.
  pub delete_will_message-Answers :
      (id : List ℕ) (d : ws.Wills)
      → (delete_will_message ws id d).0 ≡ true
      → Answers id none (delete_will_message ws id d).1
  unfolding delete_will_message
  delete_will_message-Answers id d = elim (Bool-cases (bytes_eq id [])) [
    | inl empty ↦ rw empty (λ done. absurd (cc done))
    | inr named ↦ rw named (λ done.
        kept-Answers id none (ws.delete_will id d).1 named
          (l.deleted_kept id id d done ∙ if_true _ (bytes_eq_refl id)))
  ]
