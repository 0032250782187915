-- ===== src/Connection/Tests.antt =====
-- `Send` on a network that takes every byte.
use life_stream_go_mqtt_brok.Prelude.{
  ℕ, if_true, ◌∷◌, List, ==_refl, [], length, ◌∙◌, none, ap, if◌then◌else◌, ◌++◌, ◌==◌, sym,
  take_all, arith, if_false, refl,
}
use life_stream_go_mqtt_brok.Connection.Send.{Wrote, send-Wrote}
use life_stream_go_mqtt_brok.Connection.{NetServices, NetLaws, send}

abbrev pub logs : NetServices
logs = record {
  Net = ℕ → List ℕ;
  write = λ c xs net. ((length xs, none), λ d. if d == c then net d ++ xs else net d);
}

pub logs-NetLaws : NetLaws logs
logs-NetLaws = record {
  written = λ net c. net c;
  takes = λ c xs net.
      if_true _ (==_refl c)
      ∙ ap (λ (ys : List ℕ). net c ++ ys) (sym (take_all (length xs) xs (omega arith)));
  takes_all = λ c xs net e. refl;
  others = λ c d xs net other. if_false _ other;
}

send-Wrote_example :
    Wrote logs logs-NetLaws 3 (0xD0 ∷ 0 ∷ []) (λ c. []) (send logs 3 (0xD0 ∷ 0 ∷ []) (λ c. []))
send-Wrote_example = send-Wrote logs logs-NetLaws 3 (0xD0 ∷ 0 ∷ []) (λ c. [])
