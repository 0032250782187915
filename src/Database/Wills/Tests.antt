-- ===== src/Database/Wills/Tests.antt =====
-- The will messages in a collection that is a map, in which no call fails.
use life_stream_go_mqtt_brok.Prelude.Maps.{
  Map, lookup, lookup-insert, lookup-delete, insert, delete,
}
use life_stream_go_mqtt_brok.Database.Types.{WillMessage}
use life_stream_go_mqtt_brok.Database.Wills.{WillServices, WillLaws, FoundWill, found_will, no_will}
use life_stream_go_mqtt_brok.Prelude.{Option, ◌≡◌, some, List, none, ℕ, true, refl}

will_answer : Option WillMessage → FoundWill
will_answer (some x) = found_will x
will_answer none = no_will

abbrev will_maps : WillServices
will_maps = record {
  Wills = Map (List ℕ) WillMessage;
  find_will = λ k d. (will_answer (lookup k d), d);
  replace_will = λ k x d. (true, insert k x d);
  delete_will = λ k d. (true, delete k d);
}

answer-found_will :
    (o : Option WillMessage) (x : WillMessage) → will_answer o ≡ found_will x → o ≡ some x
unfolding will_answer
answer-found_will (some y) x e = cc e
answer-found_will none x e = absurd (cc e)

answer-no_will : (o : Option WillMessage) → will_answer o ≡ no_will → o ≡ none
unfolding will_answer
answer-no_will (some y) e = absurd (cc e)
answer-no_will none e = refl

will_maps-WillLaws : WillLaws will_maps
will_maps-WillLaws = record {
  kept = λ d k. lookup k d;
  found_kept = λ k d x e. answer-found_will (lookup k d) x e;
  missing_kept = λ k d e. answer-no_will (lookup k d) e;
  replaced_kept = λ k j x d e. lookup-insert k j x d;
  deleted_kept = λ k j d e. lookup-delete k j d;
}
