-- ===== src/Config/Cached.antt =====
-- When the configuration file is read.
use life_stream_go_mqtt_brok.Prelude.{
  Bool, Option, List, ◌≡◌, true, false, ℕ, none, some, refl, Bool-cases, if_true, inl, ◌∙◌, sym, ap,
  inr, if_false,
}
use life_stream_go_mqtt_brok.Config.{
  ConfigServices, Answer, get_config, ConfigState, ConfigError, Config, read_config, parsed,
  read_as,
}
use mathlib.Core.Path.{subst}

module _ (cs : ConfigServices) where
  -- After an answer without an error the configuration is kept; after one with an error it is read
  -- again.
  abbrev Remembers : Answer cs → Option ConfigError → Type 0
  Remembers a none = (a.state.initialized ≡ true) × (a.state.config ≡ a.config)
  Remembers a (some e) = a.state.initialized ≡ false

  parsed-Remembers :
      (r : Bool × Config) (s : ConfigState) (d : cs.Disk)
      → s.initialized ≡ false
      → Remembers (parsed cs r s d) (parsed cs r s d).failure
  parsed-Remembers (false, c) s d new = new
  parsed-Remembers (true, c) s d new = (refl, refl)

  read_as-Remembers :
      (o : Option (List ℕ)) (s : ConfigState) (d : cs.Disk)
      → s.initialized ≡ false
      → Remembers (read_as cs o s d) (read_as cs o s d).failure
  read_as-Remembers none s d new = new
  read_as-Remembers (some bytes) s d new = parsed-Remembers (cs.unmarshal bytes s.config) s d new

  get_config-Remembers :
      (s : ConfigState) (d : cs.Disk) → Remembers (get_config cs s d) (get_config cs s d).failure
  unfolding get_config read_config
  get_config-Remembers s d = elim (Bool-cases s.initialized) [
    | inl known ↦
        subst (λ (a : Answer cs). Remembers a a.failure)
          (sym (if_true (read_as cs (cs.read_file d) s d) known)) (known, refl)
    | inr new ↦
        subst (λ (a : Answer cs). Remembers a a.failure)
          (sym (if_false (record { config = s.config; failure = none; state = s; disk = d }) new))
          (read_as-Remembers (cs.read_file d) s d new)
  ]

  -- Once `GetConfig` has returned a configuration without an error, it returns the same one at every
  -- later call, with no error, whatever the file holds then, and does not touch the file.
  pub get_config-get_config :
      (s : ConfigState) (d later : cs.Disk)
      → (get_config cs s d).failure ≡ none
      → get_config cs (get_config cs s d).state later ≡ record {
        config = (get_config cs s d).config;
        failure = none;
        state = (get_config cs s d).state;
        disk = later;
      }
  unfolding get_config
  get_config-get_config s d later fine =
      let a = get_config cs s d in
      let kept = subst (λ o. Remembers a o) fine (get_config-Remembers s d) in
      if_true (read_config cs a.state later) kept.0
      ∙ ap (λ (c : Config). record { config = c; failure = none; state = a.state; disk = later })
          kept.1
