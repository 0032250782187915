-- ===== src/Database/Store/Forget.antt =====
-- What `DeleteSession` leaves for `GetSession` to find.
use life_stream_go_mqtt_brok.Prelude.Maps.{lookup}
use life_stream_go_mqtt_brok.Database.Store.{
  get_session, delete_session, Store, decoded, from_cache, deleted,
}
use life_stream_go_mqtt_brok.Prelude.{
  List, Bool, ℕ, Option, ◌≡◌, none, bytes_eq, true, [], if◌then◌else◌, false, some, refl,
  bytes_eq_refl, ap, if_false, sym, ◌∙◌, if_true,
}
use life_stream_go_mqtt_brok.Database.Services.{Services, Laws, Found, found, no_documents, failed}
use life_stream_go_mqtt_brok.Database.Store.Recall.{answer_of}

module _ (sv : Services) (l : Laws sv) where
  open l use {stored, held}

  -- A read of a key that neither the cache nor the collection holds.
  decoded-missing :
      (id : List ℕ) (f : Found × sv.Documents) (st : Store sv)
      → stored st.documents id ≡ none
      → sv.find_one id st.documents ≡ f
      → (decoded sv id f st).0 ≡ none
  decoded-missing id (found y, d) st gone e =
      absurd (cc (l.find_found id st.documents y (answer_of sv e), gone))
  decoded-missing id (no_documents, d) st gone e = refl
  decoded-missing id (failed, d) st gone e = refl

  cached-missing :
      (id : List ℕ) (c : Option ℕ × sv.Cache) (st : Store sv)
      → bytes_eq id [] ≡ false
      → stored st.documents id ≡ none
      → ((r : ℕ) → ¬ (c.0 ≡ some r))
      → (from_cache sv id c st).0 ≡ none
  cached-missing id (some r, c) st named gone empty = absurd (empty r refl)
  cached-missing id (none, c) st named gone empty =
      rw named (
        decoded-missing id (sv.find_one id st.documents) (record st { session_cache = c }) gone
          refl)

  deleted-missing :
      (id : List ℕ) (a : Bool × sv.Documents) (st : Store sv)
      → bytes_eq id [] ≡ false
      → lookup id st.sessions ≡ none
      → ((r : ℕ) → ¬ (held st.session_cache id ≡ some r))
      → sv.delete_one id st.documents ≡ a
      → (deleted sv a st).0 ≡ true
      → (get_session sv id (deleted sv a st).1).0 ≡ none
  unfolding get_session
  deleted-missing id (done, d) st named absent empty e h = rw absent (
      cached-missing id (sv.cache_get id st.session_cache) (record st { documents = d }) named gone
        (λ r g. empty r (l.get_held id st.session_cache r g)))
    where
      gone : stored d id ≡ none
      gone =
          ap (λ (r : Bool × sv.Documents). stored r.1 id) (sym e)
          ∙ (l.delete_done id id st.documents (ap (λ (r : Bool × sv.Documents). r.0) e ∙ h)
              ∙ if_true _ (bytes_eq_refl id))

  delete_session-deleted :
      (id : List ℕ) (st : Store sv)
      → bytes_eq id [] ≡ false
      → lookup id st.sessions ≡ none
      → delete_session sv id st
        ≡ deleted sv
            (sv.delete_one id st.documents)
            (record st { session_cache = sv.cache_remove id st.session_cache })
  unfolding delete_session
  delete_session-deleted id st named absent = rw absent (if_false _ named)

  vanished : (b : Bool) (o : Option ℕ) (r : ℕ) → b ≡ true → ¬ ((if b then none else o) ≡ some r)
  vanished true o r e h = absurd (cc h)
  vanished false o r e h = absurd (cc e)

  -- After `DeleteSession` of a non-empty client ID that has no temporary session has succeeded, `GetSession` finds
  -- no session for its ID.
  pub delete_session-get_session :
      (id : List ℕ) (st : Store sv)
      → bytes_eq id [] ≡ false
      → lookup id st.sessions ≡ none
      → (delete_session sv id st).0 ≡ true
      → (get_session sv id (delete_session sv id st).1).0 ≡ none
  delete_session-get_session id st named absent = rw (delete_session-deleted id st named absent) (
      deleted-missing id (sv.delete_one id st.documents)
        (record st { session_cache = sv.cache_remove id st.session_cache }) named absent
        (λ r h.
          vanished _ (held st.session_cache id) r (bytes_eq_refl id)
            (l.remove_held id id r st.session_cache h))
        refl)
