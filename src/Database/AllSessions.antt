-- ===== src/Database/AllSessions.antt =====
-- internal/database/database_store.go: `GetAllSession`.
use life_stream_go_mqtt_brok.Errors.{Error}
use life_stream_go_mqtt_brok.Prelude.Result.{Result, panic, ok}
use life_stream_go_mqtt_brok.Database.Session.{SessionData}
use life_stream_go_mqtt_brok.Database.Store.{Store}
use life_stream_go_mqtt_brok.Prelude.Maps.{Map}
use life_stream_go_mqtt_brok.Database.Services.{Services}
use life_stream_go_mqtt_brok.Prelude.{List, Option, ℕ, ◌∷◌, some, [], none, ◌++◌}

-- What `Find` returns: no cursor with an error, or a cursor over documents, of which `Decode` may
-- refuse some.
pub data Cursor : Type 0 where
  no_cursor : Cursor
  over : List (Option SessionData) → Cursor

-- The loop over the cursor.
unfoldable pub decoded_sessions : List (Option SessionData) → List SessionData
decoded_sessions [] = []
decoded_sessions (none ∷ ds) = decoded_sessions ds
decoded_sessions (some x ∷ ds) = x ∷ decoded_sessions ds

module _ (sv : Services) (find : sv.Documents → Cursor × sv.Documents) where
  -- The sessions in memory, in the order in which `range` meets them: here that of the list.
  unfoldable pub temporary_sessions : Map (List ℕ) ℕ → (ℕ → SessionData) → List SessionData
  temporary_sessions [] heap = []
  temporary_sessions ((id, ref) ∷ m) heap = heap ref ∷ temporary_sessions m heap

  -- The error of `Find` is not looked at, and the cursor then is nil.
  abbrev pub with_cursor :
      Cursor × sv.Documents → Store sv → Result Error (List SessionData × Store sv)
  with_cursor (no_cursor, d) st = panic
  with_cursor (over ds, d) st =
      ok
        (temporary_sessions st.sessions st.heap ++ decoded_sessions ds, record st { documents = d })

  unfoldable pub get_all_session : Store sv → Result Error (List SessionData × Store sv)
  get_all_session st = with_cursor (find st.documents) st
